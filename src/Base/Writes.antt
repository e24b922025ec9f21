-- ===== src/Base/Writes.antt =====
-- Predicates on lists that are written in place, slot by slot.
use mathlib.Core.Path.{◌≡◌, refl, sym, ap, ◌∙◌}
use mathlib.Core.List.{List, [], ◌∷◌, ◌++◌, map}
use mathlib.Core.Option.{some}
use mathlib.Core.Logic.{◌⊎◌, inl, inr, ◌≢◌}
use native.Mathlib.Decide.{ℕ_discrete}
use native.Mathlib.Omega.{arith}
use Prim.Native.Nat.{ℕ, zero, suc, ◌<◌}
use mathlib.Core.Path.{subst}
use pkcs11_rand.Base.Lists.{
  length, get_elem?, set, length-set, get_elem?-set_self, get_elem?-set_ne,
}

pub some_inj {ℓ} : {A : Type ℓ} {a b : A} → some a ≡ some b → a ≡ b
some_inj e = cc

module _ {ℓ κ} {A : Type ℓ} (P : A → Type κ) where
  abbrev pub All : List A → Type κ
  All [] = Unit
  All (x ∷ xs) = P x × All xs

module _ {ℓ κ} {A : Type ℓ} (P : A → Type κ) where
  pub All-get : (xs : List A) (i : ℕ) (x : A) → All P xs → get_elem? xs i ≡ some x → P x
  All-get [] i x a e = cc
  All-get (y ∷ xs) zero x a e = subst P (some_inj e) a.0
  All-get (y ∷ xs) (suc i) x a e = All-get xs i x a.1 e

  pub All-set : (xs : List A) (i : ℕ) (y : A) → All P xs → P y → All P (set xs i y)
  All-set [] i y a p = a
  All-set (x ∷ xs) zero y a p = (p, a.1)
  All-set (x ∷ xs) (suc i) y a p = (a.0, All-set xs i y a.1 p)

  pub All-append : (xs ys : List A) → All P xs → All P ys → All P (xs ++ ys)
  All-append [] ys a b = b
  All-append (x ∷ xs) ys a b = (a.0, All-append xs ys a.1 b)

module _ {ℓ κ} {A : Type ℓ} {B : Type κ} where
  -- A write that keeps a measure of the element keeps the list of the measures.
  pub map-set_same :
      (f : A → B) (xs : List A) (i : ℕ) (x y : A)
      → get_elem? xs i ≡ some x
      → f y ≡ f x
      → map f (set xs i y) ≡ map f xs
  map-set_same f [] i x y e h = refl
  map-set_same f (z ∷ xs) zero x y e h = ap (λ b. b ∷ map f xs) (h ∙ ap f (sym (some_inj e)))
  map-set_same f (z ∷ xs) (suc i) x y e h = ap (◌∷◌ (f z)) (map-set_same f xs i x y e h)

module _ {ℓ} {A : Type ℓ} where
  pub get-lt : (xs : List A) (i : ℕ) (x : A) → get_elem? xs i ≡ some x → i < length xs
  get-lt [] i x e = cc
  get-lt (y ∷ xs) zero x e = omega arith
  get-lt (y ∷ xs) (suc i) x e = omega (arith, get-lt xs i x e)

  pub get-some : (xs : List A) (i : ℕ) → i < length xs → (x : A) × (get_elem? xs i ≡ some x)
  get-some [] i h = absurd (omega arith)
  get-some (x ∷ xs) zero h = (x, refl)
  get-some (x ∷ xs) (suc i) h = get-some xs i (omega arith)

  -- A slot of a written list is the new element, or what was there.
  pub get-set_cases :
      (xs : List A) (i j : ℕ) (y z : A)
      → get_elem? (set xs i y) j ≡ some z
      → ((i ≡ j) × (z ≡ y)) ⊎ ((i ≢ j) × (get_elem? xs j ≡ some z))
  get-set_cases xs i j y z e = elim (ℕ_discrete i j) [
    | yes same ↦ inl (same, hit same)
    | no ne ↦ inr (ne, sym (get_elem?-set_ne xs y ne) ∙ e)
  ]
    where
      hit : i ≡ j → z ≡ y
      hit same = some_inj (
          sym e
          ∙ ap (get_elem? (set xs i y)) (sym same)
          ∙ get_elem?-set_self xs i y (
              rw (length-set xs i y) at
                (get-lt (set xs i y) i z (ap (get_elem? (set xs i y)) same ∙ e))))

-- An entry of a list that was written to: the new one, or an old one.
pub got-set :
    {A : Type 0} (xs : List A) (i j : ℕ) (v w : A)
    → get_elem? (set xs i v) j ≡ some w
    → ((j ≡ i) × (v ≡ w)) ⊎ (get_elem? xs j ≡ some w)
got-set [] i j v w e = inr e
got-set (x ∷ xs) zero zero v w e = inl (refl, some_inj e)
got-set (x ∷ xs) zero (suc j) v w e = inr e
got-set (x ∷ xs) (suc i) zero v w e = inr e
got-set (x ∷ xs) (suc i) (suc j) v w e = elim (got-set xs i j v w e) [
  | inl (p, q) ↦ inl (ap suc p, q)
  | inr p ↦ inr p
]
