-- ===== src/Iso7816/Turn.antt =====
-- One turn of the loop of `Source::read` in iso7816.rs, told by the exchange with the card.
use pkcs11_rand.Base.{
  ℕ, ◌+◌, ◌/◌, ◌≤◌, ◌<◌, ◌≡◌, ◌≢◌, true, [], ◌∷◌, ◌++◌, Result, ok, err, stop, go_on, length, take,
  drop, replicate, arith, length-append, length-take, length-drop, length-replicate, Result-cases,
  inl, inr, ◌⊎◌, if◌then◌else◌, ltb, ◌==◌, Bool-cases, drop_all, ltb→lt, ltb→le, ◌&&◌,
}
use mathlib.Core.List.{append-nil}
use pkcs11_rand.Host.{Bytes, PcscError, Host, Sys}
use pkcs11_rand.Iso7816.{
  transport, sw_of, body_of, challenge_apdu, challenge_answer, try_get_challenge,
}
use pkcs11_rand.Iso7816.Source.{Reading, read_turn}

abbrev pub measure : ⦃h : Host⦄ → Bytes → Reading h → ℕ
measure buf r = length buf + r.source.max_chunk

-- After an exchange the world has moved on; a refusal halves the chunk.
abbrev pub after : ⦃h : Host⦄ → Reading h → h.World → Reading h
after r w = record r { sys = record r.sys { world = w } }

abbrev pub halved : ⦃h : Host⦄ → Reading h → Reading h
halved r = record r { source = record r.source { max_chunk = r.source.max_chunk / 2 } }

-- GET CHALLENGE for `max_chunk` bytes was answered in full by `resp`, or by anything else.
pub record Answered (h : Host) (r : Reading h) (resp : Bytes) (w : h.World) : Type 0 where
  pub sent : h.transmit r.source.card (challenge_apdu r.source.max_chunk) r.sys.world ≡ (ok resp, w)
  pub accepted : sw_of resp ≡ 0x9000
  pub full : length (body_of resp) ≡ r.source.max_chunk

pub record Refused (h : Host) (r : Reading h) (resp : Bytes) (w : h.World) : Type 0 where
  pub sent : h.transmit r.source.card (challenge_apdu r.source.max_chunk) r.sys.world ≡ (ok resp, w)
  pub declined : (sw_of resp ≢ 0x9000) ⊎ (length (body_of resp) ≢ r.source.max_chunk)

-- The two ways to fail: the card is gone, or it declines a single byte too.
pub data Broken (h : Host) (r : Reading h) (w : h.World) : Type 0 where
  lost :
      (e : PcscError)
      → h.transmit r.source.card (challenge_apdu r.source.max_chunk) r.sys.world ≡ (err e, w)
      → Broken h r w
  exhausted : (resp : Bytes) → Refused h r resp w → r.source.max_chunk ≤ 1 → Broken h r w

module _ ⦃h : Host⦄ where
  pub read_turn_falls :
      (b : ℕ) (bs : Bytes) (r : Reading h) (got rest : Bytes) (r' : Reading h)
      → read_turn (b ∷ bs) r ≡ go_on got rest r'
      → measure rest r' < measure (b ∷ bs) r
  unfolding read_turn
  read_turn_falls b bs r got rest r' e = ground (arith, length-drop r.source.max_chunk (b ∷ bs))

  answer_lem :
      (n : ℕ) (out resp target : Bytes)
      → n ≤ length out
      → challenge_answer n out resp ≡ (true, target)
      → (sw_of resp ≡ 0x9000)
        × (length (body_of resp) ≡ n)
        × (target ≡ body_of resp ++ drop n out)
        × (length target ≡ length out)
  answer_lem n out resp target le e =
      ground (arith, length-append (body_of resp) (drop n out), length-drop n out)

  -- A challenge that is answered has the length that was asked for, and fills that much of `out`.
  pub length-challenge :
      (card : h.Card) (n : ℕ) (out target : Bytes) (s s' : Sys h)
      → n ≤ length out
      → try_get_challenge card n out s ≡ (ok (true, target), s')
      → length target ≡ length out
  unfolding try_get_challenge
  length-challenge card n out target s s' le e =
      elim (Result-cases (h.transmit card (challenge_apdu n) s.world).0) [
        | inl (resp, t) ↦ ground (arith, answer_lem n out resp target)
        | inr (x, t) ↦ ground (arith, t)
      ]

  pub global-challenge :
      (card : h.Card) (n : ℕ) (out : Bytes) (s : Sys h)
      → (try_get_challenge card n out s).1.global ≡ s.global
  unfolding try_get_challenge
  global-challenge card n out s = ground arith

  -- The four ways in which a turn of the loop can end, told by the exchange with the card.
  pub data TurnView (buf : Bytes) (r : Reading h) : Type 0 where
    broken :
        (w : h.World)
        → Broken h r w
        → read_turn buf r ≡ stop (err transport) buf (after r w)
        → TurnView buf r
    last :
        (resp : Bytes) (w : h.World)
        → Answered h r resp w
        → length buf < r.source.max_chunk
        → read_turn buf r ≡ stop (ok tt) (take (length buf) (body_of resp)) (after r w)
        → TurnView buf r
    more :
        (resp : Bytes) (w : h.World)
        → Answered h r resp w
        → r.source.max_chunk ≤ length buf
        → read_turn buf r ≡ go_on (body_of resp) (drop r.source.max_chunk buf) (after r w)
        → TurnView buf r
    narrow :
        (resp : Bytes) (w : h.World)
        → Refused h r resp w
        → 1 < r.source.max_chunk
        → read_turn buf r ≡ go_on [] buf (halved (after r w))
        → TurnView buf r

module _ ⦃h : Host⦄ (b : ℕ) (bs : Bytes) (r : Reading h) (pos : 0 < r.source.max_chunk)
    (fit : r.source.max_chunk ≤ 256) where
  abbrev target : Bytes
  target =
      if ltb (length (b ∷ bs)) r.source.max_chunk
      then take r.source.max_chunk (replicate 256 0)
      else take r.source.max_chunk (b ∷ bs)

  abbrev reply : Result PcscError Bytes × h.World
  reply = h.transmit r.source.card (challenge_apdu r.source.max_chunk) r.sys.world

  length-target : length target ≡ r.source.max_chunk
  length-target = ground (
    arith,
    length-take {A = ℕ} r.source.max_chunk (replicate 256 0),
    length-take r.source.max_chunk (b ∷ bs),
    length-replicate {A = ℕ} 256 0,
  )

  sent_lem :
      (resp : Bytes) (w : h.World)
      → h.transmit r.source.card (challenge_apdu r.source.max_chunk) r.sys.world ≡ (ok resp, w)
      → try_get_challenge r.source.card r.source.max_chunk target r.sys
        ≡ (ok (challenge_answer r.source.max_chunk target resp), (after r w).sys)
  unfolding try_get_challenge
  sent_lem resp w t = rw t

  full_answer :
      (resp : Bytes)
      → length (body_of resp) ≡ r.source.max_chunk
      → body_of resp ++ drop r.source.max_chunk target ≡ body_of resp
  full_answer resp e =
      rw (drop_all r.source.max_chunk target (omega (arith, length-target))) (append-nil _)

  answered_view : (resp : Bytes) (w : h.World) → Answered h r resp w → TurnView (b ∷ bs) r
  unfolding read_turn
  answered_view resp w a = elim (Bool-cases (ltb (length (b ∷ bs)) r.source.max_chunk)) [
    | inl short ↦
        last resp w a (omega (arith, ltb→lt (length (b ∷ bs)) r.source.max_chunk short))
          (ground (arith, sent_lem resp w a.sent, full_answer resp a.full))
    | inr long ↦
        more resp w a (omega (arith, ltb→le (length (b ∷ bs)) r.source.max_chunk long))
          (ground (arith, sent_lem resp w a.sent, full_answer resp a.full))
  ]

  response_view :
      (resp : Bytes) (w : h.World)
      → h.transmit r.source.card (challenge_apdu r.source.max_chunk) r.sys.world ≡ (ok resp, w)
      → TurnView (b ∷ bs) r
  unfolding read_turn
  response_view resp w t =
      elim (Bool-cases (sw_of resp == 0x9000 && length (body_of resp) == r.source.max_chunk)) [
        | inl yes' ↦
            answered_view resp w (record { sent = t; accepted = ground arith; full = ground arith })
        | inr no' ↦ elim (Bool-cases (ltb 1 r.source.max_chunk)) [
          | inl more' ↦
              narrow resp w (record { sent = t; declined = ground arith }) (ground arith)
                (ground (arith, sent_lem resp w t))
          | inr least ↦
              broken w
                (exhausted resp (record { sent = t; declined = ground arith }) (ground arith))
                (ground (arith, sent_lem resp w t))
        ]
      ]

  pub turn_view : TurnView (b ∷ bs) r
  unfolding read_turn try_get_challenge
  turn_view = elim (Result-cases reply.0) [
    | inl (resp, t) ↦ response_view resp reply.1 (ground arith)
    | inr (e, t) ↦ broken reply.1 (lost e (ground arith)) (ground arith)
  ]
