-- ===== src/Iso7816/FixedLe.antt =====
-- `Source::read` of iso7816.rs on a card with a fixed Le: what its chunk adapts to.
use native.Mathlib.Nat.{pow-suc, one-le-pow}
use native.Mathlib.Decide.{ℕ_discrete}
use pkcs11_rand.Base.{
  ℕ, zero, suc, ◌*◌, ◌/◌, ◌^◌, ◌≤◌, ◌<◌, ◌≡◌, refl, ◌≢◌, ap, inl, inr, [], ok, Filled, behind,
  length, arith,
}
use pkcs11_rand.Host.{Bytes, Host, Sys}
use pkcs11_rand.Iso7816.{Error, sw_of, body_of, challenge_apdu}
use pkcs11_rand.Iso7816.Source.{Source, Reading, read}
use pkcs11_rand.Iso7816.Turn.{after, halved, Answered, Refused, Broken, lost, exhausted}
use pkcs11_rand.Iso7816.Read.{read_rule}

-- A card with a fixed Le: it answers a challenge for `le` bytes, and for no other number
-- that a short APDU can ask for.
pub record IsFixed (h : Host) (card : h.Card) (le : ℕ) : Type 0 where
  pub answers :
      (w : h.World)
      → (resp : Bytes) × (w' : h.World) × (h.transmit card (challenge_apdu le) w ≡ (ok resp, w'))
        × (sw_of resp ≡ 0x9000)
        × (length (body_of resp) ≡ le)
  pub refuses :
      (n : ℕ) (w : h.World)
      → n ≢ le
      → 0 < n
      → n ≤ 256
      → (resp : Bytes) × (w' : h.World) × (h.transmit card (challenge_apdu n) w ≡ (ok resp, w'))
        × (sw_of resp ≢ 0x9000)

size_pos : (le n j : ℕ) → 0 < le → n ≡ le * 2 ^ j → 0 < n
size_pos le n j pos e = grind (arith, one-le-pow j 2)

halve_lem : (le n j : ℕ) → n ≡ le * 2 ^ suc j → n / 2 ≡ le * 2 ^ j
halve_lem le n j e = omega (arith, ap (λ (t : ℕ). le * t) (pow-suc 2 j))

unit_chunk : (le n j : ℕ) → 0 < le → n ≤ 1 → n ≡ le * 2 ^ j → n ≡ le
unit_chunk le n j pos few e = grind (arith, one-le-pow j 2)

module _ ⦃h : Host⦄ (le : ℕ) (pos : 0 < le) where
  -- What is asked of the loop, at every turn.
  abbrev Learns : Bytes → Reading h → Filled (Reading h) Error → Type 0
  Learns buf r o =
      (j : ℕ)
      → IsFixed h r.source.card le
      → r.source.max_chunk ≡ le * 2 ^ j
      → r.source.max_chunk ≤ 256
      → (o.status ≡ ok tt)
        × (buf ≢ [] → o.state.source.max_chunk ≡ le)
        × (r.source.max_chunk ≡ le → o.state.source.max_chunk ≡ le)

  Answered-fixed :
      (r : Reading h) (resp : Bytes) (w : h.World)
      → IsFixed h r.source.card le
      → 0 < r.source.max_chunk
      → r.source.max_chunk ≤ 256
      → Answered h r resp w
      → r.source.max_chunk ≡ le
  Answered-fixed r resp w fixed some' fit a = elim (ℕ_discrete r.source.max_chunk le) [
    | yes e ↦ e
    | no ne ↦
        let (resp', w', t, declined) = fixed.refuses r.source.max_chunk r.sys.world ne some' fit in
        absurd (declined (cc (a.sent, t, a.accepted)))
  ]

  Refused-fixed :
      (r : Reading h) (resp : Bytes) (w : h.World)
      → IsFixed h r.source.card le
      → Refused h r resp w
      → r.source.max_chunk ≢ le
  Refused-fixed r resp w fixed d e =
      let (resp', w', t, accepted, full) = fixed.answers r.sys.world in
      elim d.declined [
        | inl ne ↦ ne (cc (d.sent, t, accepted, e))
        | inr ne ↦ ne (cc (d.sent, t, full, e))
      ]

  Broken-fixed :
      (r : Reading h) (w : h.World) (j : ℕ)
      → IsFixed h r.source.card le
      → r.source.max_chunk ≡ le * 2 ^ j
      → r.source.max_chunk ≤ 256
      → Broken h r w
      → ⊥
  Broken-fixed r w j fixed e fit (lost x t) = elim (ℕ_discrete r.source.max_chunk le) [
    | yes same ↦ let (resp, w', t', _, _) = fixed.answers r.sys.world in cc (t, t', same)
    | no ne ↦
        let (resp, w', t', _) =
          fixed.refuses r.source.max_chunk r.sys.world ne (size_pos le _ j pos e) fit in
        cc (t, t')
  ]
  Broken-fixed r w j fixed e fit (exhausted resp d few) =
      Refused-fixed r resp w fixed d (unit_chunk le r.source.max_chunk j pos few e)

  Learns-narrow :
      (buf : Bytes) (r : Reading h) (resp : Bytes) (w : h.World) (o : Filled (Reading h) Error)
      → Refused h r resp w
      → 1 < r.source.max_chunk
      → Learns buf (halved (after r w)) o
      → Learns buf r (behind [] o)
  Learns-narrow buf r resp w o d many ih zero fixed e fit =
      absurd (Refused-fixed r resp w fixed d (omega arith))
  Learns-narrow buf r resp w o d many ih (suc j) fixed e fit =
      let rest = ih j fixed (halve_lem le r.source.max_chunk j e) (omega (arith, fit)) in
      (rest.0, rest.1, λ same. absurd (Refused-fixed r resp w fixed d same))

  -- For a card that answers challenges of `le` bytes and refuses all other sizes from 1 to
  -- 256, where `le` is positive and the chunk is at most 256 and `le` times a power of two: a
  -- read of any buffer returns `Ok`, and unless the buffer is empty the chunk is `le` from
  -- then on.
  pub read_fixed :
      (src : Source h) (buf : Bytes) (s : Sys h) (j : ℕ)
      → src.max_chunk ≤ 256
      → IsFixed h src.card le
      → src.max_chunk ≡ le * 2 ^ j
      → ((read src buf s).status ≡ ok tt)
        × (buf ≢ [] → (read src buf s).state.source.max_chunk ≡ le)
  read_fixed src buf s j fit fixed e = (all.0, all.1)
    where
      all :
          ((read src buf s).status ≡ ok tt)
          × (buf ≢ [] → (read src buf s).state.source.max_chunk ≡ le)
          × (src.max_chunk ≡ le → (read src buf s).state.source.max_chunk ≡ le)
      all =
          read_rule Learns (λ r j fixed e fit. (refl, (λ ne. absurd (ne refl)), λ e. e))
            (λ buf r w x j fixed e fit. absurd (Broken-fixed r w j fixed e fit x))
            (λ buf r resp w a short j fixed e fit.
              (refl, (λ _. Answered-fixed r resp w fixed (size_pos le _ j pos e) fit a), λ e. e))
            (λ buf r resp w o a long ih j fixed e fit. (
              (ih j fixed e fit).0,
              (λ _.
                  (ih j fixed e fit).2
                    (Answered-fixed r resp w fixed (size_pos le _ j pos e) fit a)),
              (ih j fixed e fit).2,
            ))
            Learns-narrow src buf s (size_pos le src.max_chunk j pos e) fit j fixed e fit
