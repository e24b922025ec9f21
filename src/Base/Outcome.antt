-- ===== src/Base/Outcome.antt =====
-- Rust's `Result`, and actions on a mutable state that may fail: what was written before an error
-- stays written, so the state comes back beside the error too.
use mathlib.Core.Path.{◌≡◌, refl}
use mathlib.Core.Logic.{◌⊎◌, inl, inr}
use mathlib.Core.Bool.{Bool, true, false}

pub data Result {ℓ} (E A : Type ℓ) : Type ℓ where
  ok : A → Result E A
  err : E → Result E A

abbrev pub Act {ℓ} : Type ℓ → Type ℓ → Type ℓ → Type ℓ
Act S E A = S → Result E A × S

abbrev pub Done : Type 0
Done = Unit {0}

module _ {S E A B : Type 0} where
  -- The rest of a block after its first action.
  abbrev pub and_then : Result E A → (A → Act S E B) → S → Result E B × S
  and_then (ok a) f s = f a s
  and_then (err e) f s = (err e, s)

  infixl 10 ◌>>=◌
  abbrev pub ◌>>=◌ : Act S E A → (A → Act S E B) → Act S E B
  ◌>>=◌ m f s = let (r, s') = m s in and_then r f s'

-- `.is_ok()`
abbrev pub is_ok : {E A : Type 0} → Result E A → Bool
is_ok (ok a) = true
is_ok (err e) = false

-- `.map_err(|_| e)`
abbrev pub map_err : {E F A : Type 0} → F → Result E A → Result F A
map_err f (ok a) = ok a
map_err f (err e) = err f

pub Result-cases :
    {E A : Type 0} (r : Result E A) → ((a : A) × (r ≡ ok a)) ⊎ ((e : E) × (r ≡ err e))
Result-cases (ok a) = inl (a, refl)
Result-cases (err e) = inr (e, refl)

pub ok_inj : {E A : Type 0} {a b : A} → ◌≡◌ {A = Result E A} (ok a) (ok b) → a ≡ b
ok_inj e = cc
