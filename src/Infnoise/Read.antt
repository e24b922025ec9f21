-- ===== src/Infnoise/Read.antt =====
-- `Source::read` of infnoise.rs against the read(2) calls that it makes.
use mathlib.Core.Path.{subst}
use pkcs11_rand.Base.{
  ℕ, ◌+◌, ◌≤◌, ◌<◌, ◌≡◌, refl, sym, ap, [], ◌∷◌, ◌++◌, ok, err, Done, Turn, stop, go_on, Filled,
  behind, fill, fill_rule, fill_fuel, length, drop, arith, length-drop,
}
use pkcs11_rand.Host.{Bytes, FileRead, got, interrupted, failed, Host, Sys, KernelLaws}
use pkcs11_rand.Infnoise.{Error, io, Source, read_turn, read}

abbrev measure : ⦃h : Host⦄ → Bytes → Sys h → ℕ
measure ⦃h⦄ buf s = length buf + h.pending s.world

-- A run of read(2) calls on one file: every call gives data or is interrupted.
pub data Reads (h : Host) (file : h.File) : Sys h → Bytes → Sys h → Type 0 where
  no_more : (s : Sys h) → Reads h file s [] s
  gave :
      {s t : Sys h} {e : Bytes} (n : ℕ) (d : Bytes) (w : h.World)
      → h.read_file file n s.world ≡ (got d, w)
      → Reads h file (record s { world = w }) e t
      → Reads h file s (d ++ e) t
  signalled :
      {s t : Sys h} {e : Bytes} (n : ℕ) (w : h.World)
      → h.read_file file n s.world ≡ (interrupted, w)
      → Reads h file (record s { world = w }) e t
      → Reads h file s e t

module _ ⦃h : Host⦄ (src : Source h) (b : ℕ) (bs : Bytes) (s : Sys h) where
  -- The ways in which a turn of the loop can end.
  data TurnView : Type 0 where
    broken :
        (w : h.World)
        → (h.read_file src.file (length (b ∷ bs)) s.world).1 ≡ w
        → read_turn src (b ∷ bs) s ≡ stop (err io) (b ∷ bs) (record s { world = w })
        → TurnView
    took_some :
        (d : Bytes) (w : h.World)
        → h.read_file src.file (length (b ∷ bs)) s.world ≡ (got d, w)
        → 0 < length d
        → read_turn src (b ∷ bs) s ≡ go_on d (drop (length d) (b ∷ bs)) (record s { world = w })
        → TurnView
    woken :
        (w : h.World)
        → h.read_file src.file (length (b ∷ bs)) s.world ≡ (interrupted, w)
        → read_turn src (b ∷ bs) s ≡ go_on [] (b ∷ bs) (record s { world = w })
        → TurnView

  reply_view :
      (r : FileRead) (w : h.World)
      → h.read_file src.file (length (b ∷ bs)) s.world ≡ (r, w)
      → TurnView
  unfolding read_turn
  reply_view (got []) w t = broken w (ap (λ (x : FileRead × h.World). x.1) t) (rw t)
  reply_view (got (d ∷ ds)) w t = took_some (d ∷ ds) w t (omega arith) (rw t)
  reply_view interrupted w t = woken w t (rw t)
  reply_view failed w t = broken w (ap (λ (x : FileRead × h.World). x.1) t) (rw t)

  turn_view : TurnView
  turn_view = let t = h.read_file src.file (length (b ∷ bs)) s.world in reply_view t.0 t.1 refl

module _ ⦃h : Host⦄ (k : KernelLaws h) (src : Source h) where
  abbrev Falls : Bytes → Sys h → Turn (Sys h) Error → Type 0
  Falls buf s (stop r buf' s') = Done
  Falls buf s (go_on got' rest s') = measure rest s' < measure buf s

  view-Falls :
      (b : ℕ) (bs : Bytes) (s : Sys h)
      → TurnView src b bs s
      → Falls (b ∷ bs) s (read_turn src (b ∷ bs) s)
  view-Falls b bs s (broken w t e) = subst (Falls (b ∷ bs) s) (sym e) tt
  view-Falls b bs s (took_some d w t pos e) = subst (Falls (b ∷ bs) s) (sym e) (
      omega (
        arith,
        k.read_within src.file (length (b ∷ bs)) s.world w d t,
        length-drop (length d) (b ∷ bs),
      ))
  view-Falls b bs s (woken w t e) =
      subst (Falls (b ∷ bs) s) (sym e)
        (omega (arith, k.interrupt_spent src.file (length (b ∷ bs)) s.world w t))

  read_turn_falls :
      (b : ℕ) (bs : Bytes) (s : Sys h) (d rest : Bytes) (s' : Sys h)
      → read_turn src (b ∷ bs) s ≡ go_on d rest s'
      → measure rest s' < measure (b ∷ bs) s
  read_turn_falls b bs s d rest s' e =
      subst (Falls (b ∷ bs) s) e (view-Falls b bs s (turn_view src b bs s))

  -- With a kernel whose read(2) keeps its documented laws, the loop of a device's read ends by
  -- itself: with more fuel than the model gives it the result is the same.
  pub device_read_fuel :
      (buf : Bytes) (s : Sys h) (more : ℕ)
      → fill io (read_turn src) (length buf + h.pending s.world + 1 + more) buf s ≡ read src buf s
  unfolding read
  device_read_fuel buf s more =
      fill_fuel io (read_turn src) measure read_turn_falls _ _ buf s (omega arith) (omega arith)

  module _ {ℓ} (R : Bytes → Sys h → Filled (Sys h) Error → Type ℓ)
      (done : (s : Sys h) → R [] s (record { status = ok tt; buf = []; state = s }))
      (on_broken : (buf : Bytes) (s : Sys h) (w : h.World)
        → (h.read_file src.file (length buf) s.world).1 ≡ w
        → R buf s (record { status = err io; buf = buf; state = record s { world = w } }))
      (on_data : (buf : Bytes) (s : Sys h) (d : Bytes) (w : h.World) (o : Filled (Sys h) Error)
        → h.read_file src.file (length buf) s.world ≡ (got d, w)
        → length d ≤ length buf
        → R (drop (length d) buf) (record s { world = w }) o
        → R buf s (behind d o))
      (on_signal : (buf : Bytes) (s : Sys h) (w : h.World) (o : Filled (Sys h) Error)
        → h.read_file src.file (length buf) s.world ≡ (interrupted, w)
        → R buf (record s { world = w }) o
        → R buf s (behind [] o)) where
    abbrev Ends : Bytes → Sys h → Turn (Sys h) Error → Type ℓ
    Ends buf s (stop x buf' s') = R buf s (record { status = x; buf = buf'; state = s' })
    Ends buf s (go_on d rest s') = (o : Filled (Sys h) Error) → R rest s' o → R buf s (behind d o)

    view-Ends :
        (b : ℕ) (bs : Bytes) (s : Sys h)
        → TurnView src b bs s
        → Ends (b ∷ bs) s (read_turn src (b ∷ bs) s)
    view-Ends b bs s (broken w t e) = subst (Ends (b ∷ bs) s) (sym e) (on_broken (b ∷ bs) s w t)
    view-Ends b bs s (took_some d w t pos e) = subst (Ends (b ∷ bs) s) (sym e) λ o ih.
        on_data (b ∷ bs) s d w o t ((k.read_within src.file (length (b ∷ bs)) s.world w d t).0) ih
    view-Ends b bs s (woken w t e) =
        subst (Ends (b ∷ bs) s) (sym e) λ o ih. on_signal (b ∷ bs) s w o t ih

    -- The loop rule of `Source::read`, in terms of its read(2) calls.
    pub read_rule : (buf : Bytes) (s : Sys h) → R buf s (read src buf s)
    unfolding read
    read_rule buf s =
        fill_rule io (read_turn src) measure read_turn_falls R done
          (λ b bs s x buf' s' e.
            subst (Ends (b ∷ bs) s) e (view-Ends b bs s (turn_view src b bs s)))
          (λ b bs s d rest s' o e ih.
            subst (Ends (b ∷ bs) s) e (view-Ends b bs s (turn_view src b bs s)) o ih)
          _ buf s (omega arith)
