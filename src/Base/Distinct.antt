-- ===== src/Base/Distinct.antt =====
-- Lists without repetitions, and lists that grow at their end.
use Prim.Native.Nat.{ℕ, zero, suc, ◌+◌}
use mathlib.Core.Path.{◌≡◌, refl, sym, ap, ◌∙◌}
use mathlib.Core.Logic.{◌≢◌, ◌⊎◌, inl, inr}
use mathlib.Core.List.{List, [], ◌∷◌, ◌++◌, map}
use mathlib.Core.Option.{some}
use native.Mathlib.Omega.{arith}
use pkcs11_rand.Base.Lists.{length, get_elem?, replicate}
use pkcs11_rand.Base.Writes.{All, some_inj}

module _ {A : Type 0} where
  abbrev pub Apart : A → List A → Type 0
  Apart x ys = All (λ y. y ≢ x) ys

  -- No element stands twice.
  abbrev pub Fresh : List A → Type 0
  Fresh [] = Unit {0}
  Fresh (x ∷ xs) = Apart x xs × Fresh xs

  pub replicate-succ : (n : ℕ) (a : A) → replicate (n + 1) a ≡ replicate n a ++ (a ∷ [])
  replicate-succ zero a = refl
  replicate-succ (suc n) a =
      let e : suc n + 1 ≡ suc (n + 1) = omega arith in rw e (ap (◌∷◌ a) (replicate-succ n a))

  pub get-append_one :
      (xs : List A) (y : A) (i : ℕ) (a : A)
      → get_elem? (xs ++ (y ∷ [])) i ≡ some a
      → (get_elem? xs i ≡ some a) ⊎ ((i ≡ length xs) × (y ≡ a))
  get-append_one [] y zero a e = inr (refl, some_inj e)
  get-append_one [] y (suc i) a e = cc
  get-append_one (x ∷ xs) y zero a e = inl e
  get-append_one (x ∷ xs) y (suc i) a e = elim (get-append_one xs y i a e) [
    | inl q ↦ inl q
    | inr (q, r) ↦ inr (ap suc q, r)
  ]

  pub map-replicate :
      {B : Type 0} (f : A → B) (xs : List A) (n : ℕ) (b : B) (i : ℕ) (a : A)
      → map f xs ≡ replicate n b
      → get_elem? xs i ≡ some a
      → f a ≡ b
  map-replicate f [] n b i a e g = cc
  map-replicate f (x ∷ xs) zero b i a e g = cc
  map-replicate f (x ∷ xs) (suc n) b zero a e g =
      let q : f x ≡ b = cc in ap f (sym (some_inj g)) ∙ q
  map-replicate f (x ∷ xs) (suc n) b (suc i) a e g =
      let q : map f xs ≡ replicate n b = cc in map-replicate f xs n b i a q g
