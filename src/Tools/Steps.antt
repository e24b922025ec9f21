-- ===== src/Tools/Steps.antt =====
-- How the flows of crates/p11rand-tools end: rules for what holds when a flow goes on, where the only
-- other way out is the second signal.
use pkcs11_rand.Base.{
  ℕ, zero, suc, ◌+◌, ◌%◌, ◌^◌, ◌≡◌, refl, Bool, true, false, Result, ok, err, Done, and_then,
  if◌then◌else◌,
}
use pkcs11_rand.Tools.{
  Machine, Run, Flow, Ended, exited, positive, ◌>>=◌, pure, handle_signal, handle_signals, outside,
  deliver, watched, signal_count,
}

module _ {m : Machine} where
  abbrev pub Ends : {A : Type 0} → (A → Run m → Type 0) → Result Ended A × Run m → Type 0
  Ends Q (ok a, s) = Q a s
  Ends Q (err e, s) = e ≡ exited 130

module _ {m : Machine} where
  pub bind-Ends :
      {A B : Type 0} (Q : A → Run m → Type 0) (R : B → Run m → Type 0) (f : Flow m A)
      (k : A → Flow m B) (s : Run m)
      → Ends Q (f s)
      → ((a : A) (s' : Run m) → Q a s' → Ends R (k a s'))
      → Ends R ((f >>= k) s)
  unfolding ◌>>=◌
  bind-Ends {A = A} Q R f k s e h = rest (f s) e
    where
      rest : (o : Result Ended A × Run m) → Ends Q o → Ends R (and_then o.0 k o.1)
      rest (ok a, s') q = h a s' q
      rest (err x, s') q = q

  pub branch-Ends :
      {A : Type 0} (R : A → Run m → Type 0) (b : Bool) (f g : Flow m A) (s : Run m)
      → (b ≡ true → Ends R (f s))
      → (b ≡ false → Ends R (g s))
      → Ends R ((if b then f else g) s)
  branch-Ends R true f g s p q = p refl
  branch-Ends R false f g s p q = q refl

module _ {m : Machine} (rel : m.World → m.World → Type 0) where
  -- The module is as it was, and the rest of the machine stands in the relation to what it was.
  abbrev pub Quiet : Run m → Run m → Type 0
  Quiet s s' = (s'.mod_state ≡ s.mod_state) × rel s.world s'.world

module _ {m : Machine} (rel : m.World → m.World → Type 0)
    (quiet : (w : m.World) → rel w (m.arrived w).1) where
  struck :
      (b : Bool) (s s' : Run m)
      → Quiet rel s s'
      → Ends
          (λ (d : Done) (s' : Run m). Quiet rel s s')
          (if b then (err (exited 130), s') else (ok tt, s'))
  struck true s s' q = refl
  struck false s s' q = q

  handle_signals-Quiet :
      (n : ℕ) (s t : Run m)
      → Quiet rel s t
      → Ends (λ (d : Done) (s' : Run m). Quiet rel s s') (handle_signals n t)
  unfolding handle_signals handle_signal pure
  handle_signals-Quiet zero s t q = q
  handle_signals-Quiet (suc n) s t q =
      bind-Ends (λ d s'. Quiet rel s s') (λ d s'. Quiet rel s s') handle_signal
        (λ d. handle_signals n) t
        (struck (positive t.count) s (record t { count = (t.count + 1) % 2 ^ 32 }) q)
        (λ d s' q'. handle_signals-Quiet n s s' q')

  deliver-Quiet : (s : Run m) → Ends (λ (d : Done) (s' : Run m). Quiet rel s s') (deliver s)
  unfolding deliver outside
  deliver-Quiet s =
      bind-Ends (λ n s'. Quiet rel s s') (λ d s'. Quiet rel s s') (outside m.arrived)
        (λ n. handle_signals n) s (refl, quiet s.world) (λ n s' q. handle_signals-Quiet n s s' q)

  pub watched-Ends :
      {A : Type 0} (R : A → Run m → Type 0) (f : Flow m A) (s : Run m)
      → ((s' : Run m) → Quiet rel s s' → Ends R (f s'))
      → Ends R (watched f s)
  unfolding watched
  watched-Ends R f s h =
      bind-Ends (λ d s'. Quiet rel s s') R deliver (λ d. f) s (deliver-Quiet s) (λ d s' q. h s' q)

  pub count-Ends :
      (s : Run m) → Ends (λ (n : ℕ) (s' : Run m). (n ≡ s'.count) × Quiet rel s s') (signal_count s)
  unfolding signal_count
  count-Ends s =
      watched-Ends (λ n s'. (n ≡ s'.count) × Quiet rel s s') (λ s. (ok s.count, s)) s
        (λ s' q. (refl, q))
