-- ===== src/Iso7816/Read.antt =====
-- The loop of `Source::read` in iso7816.rs, by its exchanges with the card.
use pkcs11_rand.Base.{
  ℕ, ◌≤◌, ◌<◌, sym, [], ◌∷◌, ok, err, Turn, stop, go_on, Filled, behind, fill_rule, length, take,
  drop, arith,
}
use mathlib.Core.Path.{subst}
use pkcs11_rand.Host.{Bytes, Host, Sys}
use pkcs11_rand.Iso7816.{Error, transport, body_of}
use pkcs11_rand.Iso7816.Source.{Source, Reading, read_turn, read}
use pkcs11_rand.Iso7816.Turn.{
  measure, read_turn_falls, after, halved, Answered, Refused, Broken, TurnView, broken, last, more,
  narrow, turn_view,
}

module _ {ℓ} ⦃h : Host⦄ (R : Bytes → Reading h → Filled (Reading h) Error → Type ℓ)
    (done : (r : Reading h) → R [] r (record { status = ok tt; buf = []; state = r }))
    (on_broken : (buf : Bytes) (r : Reading h) (w : h.World)
      → Broken h r w
      → R buf r (record { status = err transport; buf = buf; state = after r w }))
    (on_last : (buf : Bytes) (r : Reading h) (resp : Bytes) (w : h.World)
      → Answered h r resp w
      → length buf < r.source.max_chunk
      → R buf r
          (record { status = ok tt; buf = take (length buf) (body_of resp); state = after r w }))
    (on_more : (buf : Bytes) (r : Reading h) (resp : Bytes) (w : h.World)
        (o : Filled (Reading h) Error)
      → Answered h r resp w
      → r.source.max_chunk ≤ length buf
      → R (drop r.source.max_chunk buf) (after r w) o
      → R buf r (behind (body_of resp) o))
    (on_narrow : (buf : Bytes) (r : Reading h) (resp : Bytes) (w : h.World)
        (o : Filled (Reading h) Error)
      → Refused h r resp w
      → 1 < r.source.max_chunk
      → R buf (halved (after r w)) o
      → R buf r (behind [] o)) where
  abbrev Ends : Bytes → Reading h → Turn (Reading h) Error → Type ℓ
  Ends buf r (stop x buf' r') = R buf r (record { status = x; buf = buf'; state = r' })
  Ends buf r (go_on got rest r') =
      (o : Filled (Reading h) Error)
      → (0 < r'.source.max_chunk → r'.source.max_chunk ≤ 256 → R rest r' o)
      → R buf r (behind got o)

  turn-Ends :
      (b : ℕ) (bs : Bytes) (r : Reading h)
      → 0 < r.source.max_chunk
      → r.source.max_chunk ≤ 256
      → TurnView (b ∷ bs) r
      → Ends (b ∷ bs) r (read_turn (b ∷ bs) r)
  turn-Ends b bs r pos fit (broken w x e) =
      subst (Ends (b ∷ bs) r) (sym e) (on_broken (b ∷ bs) r w x)
  turn-Ends b bs r pos fit (last resp w a short e) =
      subst (Ends (b ∷ bs) r) (sym e) (on_last (b ∷ bs) r resp w a short)
  turn-Ends b bs r pos fit (more resp w a long e) =
      subst (Ends (b ∷ bs) r) (sym e) λ o ih. on_more (b ∷ bs) r resp w o a long (ih pos fit)
  turn-Ends b bs r pos fit (narrow resp w d many e) =
      subst (Ends (b ∷ bs) r) (sym e)
        λ o ih. on_narrow (b ∷ bs) r resp w o d many (ih (omega arith) (omega arith))

  -- The loop rule of `Source::read`, in terms of the exchanges with the card.
  pub read_rule :
      (src : Source h) (buf : Bytes) (s : Sys h)
      → 0 < src.max_chunk
      → src.max_chunk ≤ 256
      → R buf (record { source = src; sys = s }) (read src buf s)
  unfolding read
  read_rule src buf s =
      fill_rule transport read_turn measure read_turn_falls
        (λ buf r o. 0 < r.source.max_chunk → r.source.max_chunk ≤ 256 → R buf r o) (λ r _ _. done r)
        (λ b bs r x buf' r' e pos fit.
          subst (Ends (b ∷ bs) r) e (turn-Ends b bs r pos fit (turn_view b bs r pos fit)))
        (λ b bs r got rest r' o e ih pos fit.
          subst (Ends (b ∷ bs) r) e (turn-Ends b bs r pos fit (turn_view b bs r pos fit)) o ih)
        _ buf (record { source = src; sys = s }) (omega arith)
