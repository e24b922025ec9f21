-- ===== src/Pool/Ticks.antt =====
-- The loops of `do_round_chain` in pool.rs: slots in a tick, and ticks in a round.
use mathlib.Core.Path.{subst}
use native.Mathlib.Nat.{zero-add}
use pkcs11_rand.Base.{
  if◌then◌else◌, ℕ, zero, suc, ◌+◌, ◌≡◌, refl, ap, ◌∙◌, inl, inr, Bool-cases, Option, some,
  Option-cases, List, [], ◌∷◌, ok, get_elem?, length, leb,
}
use pkcs11_rand.Host.{Bytes, Host, KernelLaws, DigestLaws}
use pkcs11_rand.Config.{Config, slot_ticks}
use pkcs11_rand.Pool.Distinct.{IsShaped}
use pkcs11_rand.Pool.Round.{Round, absorb, absorb_slot, absorb_slots, spawn, join, tick, ticks}
use pkcs11_rand.Pool.Safe.{Safe-refl}
use pkcs11_rand.Pool.Fetched.{Later, scheduled, Fetched, owing, owing_ticks, nothing_got}
use pkcs11_rand.Pool.Workers.{Worked, fan_out-Worked}
use pkcs11_rand.Pool.{Live}
use pkcs11_rand.Pool.Absorb.{owed, owed_ticks, Absorbs, unfed, fed, then-Absorbs, retry-Absorbs}

module _ ⦃h : Host⦄ (k : KernelLaws h) (d : DigestLaws h) (cfg : Config) (l0 : Live h) where
  -- The results that are there were fetched in this round.
  abbrev Got : List (Option Bytes) → Type 0
  Got scratch = (i : ℕ) (buf : Bytes) → get_elem? scratch i ≡ some (some buf) → Fetched h l0 i buf

  absorb_slot-Absorbs :
      (t i : ℕ) (scratch : List (Option Bytes)) (r : Round h)
      → IsShaped h cfg r.slots
      → Later h l0 r.live
      → Got scratch
      → let x = absorb_slot cfg t scratch i r in
        Absorbs h cfg l0 r x.0 x.1
          (if leb (slot_ticks cfg i) t then 0 else 32)
          (if leb (slot_ticks cfg i) t then [] else (i ∷ []))
  unfolding absorb_slot
  absorb_slot-Absorbs t i scratch r v y f = elim (Bool-cases (leb (slot_ticks cfg i) t)) [
    | inl idle ↦
        rw (idle, absorb_slot)
          (unfed k d cfg l0 r r _ 0 [] (Safe-refl cfg r.live v) y refl refl (λ q. (refl, refl)))
    | inr owes ↦ elim (Option-cases (get_elem? scratch i)) [
      | inl e ↦ rw (owes, absorb_slot, e) (retry-Absorbs k d cfg l0 r i v y)
      | inr (x, e) ↦ elim (Option-cases x) [
        | inl n ↦ rw (owes, absorb_slot, e, n) (retry-Absorbs k d cfg l0 r i v y)
        | inr (buf, n) ↦
            rw (owes, absorb_slot, e, n)
              (fed k d cfg l0 r (absorb buf r) buf i (Safe-refl cfg r.live v) y refl refl
                (f i buf (e ∙ ap some n)))
      ]
    ]
  ]

  absorb_slots-Absorbs :
      (t : ℕ) (scratch : List (Option Bytes)) (n i : ℕ) (r : Round h)
      → IsShaped h cfg r.slots
      → Later h l0 r.live
      → Got scratch
      → let x = absorb_slots cfg t scratch n i r in
        Absorbs h cfg l0 r x.0 x.1 (owed cfg t n i) (owing cfg t n i)
  unfolding absorb_slots owed owing
  absorb_slots-Absorbs t scratch zero i r v y f =
      unfed k d cfg l0 r r _ 0 [] (Safe-refl cfg r.live v) y refl refl (λ q. (refl, refl))
  absorb_slots-Absorbs t scratch (suc n) i r v y f =
      let x = absorb_slot cfg t scratch i r in
      then-Absorbs k d cfg l0 r x.1 x.0 (absorb_slots cfg t scratch n (i + 1)) _ _ _ _
        (absorb_slot-Absorbs t i scratch r v y f)
        (λ q z. absorb_slots-Absorbs t scratch n (i + 1) x.1 q.shaped z f)

  spawn-Worked :
      (t : ℕ) (r : Round h)
      → IsShaped h cfg r.slots
      → Later h l0 r.live
      → Worked h cfg t l0 r.live (spawn cfg t r)
  spawn-Worked t r v y = fan_out-Worked k cfg l0 r.live t _ _ (record {
    safe = record { shaped = v; size = refl; config = refl; state = refl; global = refl };
    later = scheduled (length r.slots) y;
    fetched = λ i buf e. absurd (nothing_got (length r.slots) i buf e);
  })

  tick-Absorbs :
      (t size : ℕ) (r : Round h)
      → IsShaped h cfg r.slots
      → Later h l0 r.live
      → length r.slots ≡ size
      → Absorbs h cfg l0 r
          (tick cfg t r).0
          (tick cfg t r).1
          (owed cfg t size 0)
          (owing cfg t size 0)
  unfolding tick
  tick-Absorbs t size r v y e =
      let w = spawn-Worked t r v y in
      let j = join (spawn cfg t r) r in
      rw (← e) (
        subst
          (λ n.
            Absorbs h cfg l0 r (tick cfg t r).0 (tick cfg t r).1 n (owing cfg t (length r.slots) 0))
          (zero-add (owed cfg t (length r.slots) 0))
          (then-Absorbs k d cfg l0 r j (ok tt)
            (absorb_slots cfg t (spawn cfg t r).scratch (length r.slots) 0) 0
            (owed cfg t (length r.slots) 0) [] (owing cfg t (length r.slots) 0)
            (unfed k d cfg l0 r j (ok tt) 0 [] w.safe w.later refl refl (λ q. (refl, refl)))
            (λ q z.
              absorb_slots-Absorbs t (spawn cfg t r).scratch (length r.slots) 0 j q.shaped z
                (λ i buf g. (w.fetched i buf g).0))))

  pub ticks-Absorbs :
      (n t size : ℕ) (r : Round h)
      → IsShaped h cfg r.slots
      → Later h l0 r.live
      → length r.slots ≡ size
      → Absorbs h cfg l0 r
          (ticks cfg n t r).0
          (ticks cfg n t r).1
          (owed_ticks cfg size n t)
          (owing_ticks cfg size n t)
  unfolding ticks owed_ticks owing_ticks
  ticks-Absorbs zero t size r v y e =
      unfed k d cfg l0 r r _ 0 [] (Safe-refl cfg r.live v) y refl refl (λ q. (refl, refl))
  ticks-Absorbs (suc n) t size r v y e =
      let x = tick cfg t r in
      then-Absorbs k d cfg l0 r x.1 x.0 (ticks cfg n (t + 1)) (owed cfg t size 0)
        (owed_ticks cfg size n (t + 1)) (owing cfg t size 0) (owing_ticks cfg size n (t + 1))
        (tick-Absorbs t size r v y e)
        (λ q z. ticks-Absorbs n (t + 1) size x.1 q.shaped z (q.size ∙ e))
