-- ===== src/Infnoise/Nodes.antt =====
-- The names of device nodes, as infnoise.rs looks for them in `/dev`.
use native.Mathlib.Nat.{add-mul, mul_assoc}
use pkcs11_rand.Base.{
  ℕ, suc, ◌+◌, ◌-◌, ◌*◌, ◌^◌, ◌≤◌, ◌<◌, ◌≡◌, ◌≢◌, refl, sym, ap, ◌∙◌, true, ◌&&◌, inl, inr,
  Bool-cases, none, some, Option-cases, some_inj, List, [], ◌∷◌, ◌++◌, All, length, take, drop,
  take-append-drop, ltb, bytes_eq, bytes_eq→eq, arith,
}
use mathlib.Core.Path.{subst}
use pkcs11_rand.Host.{Bytes}
use pkcs11_rand.Config.{text}
use pkcs11_rand.Infnoise.{is_digit, all_digits, digits_value, parse_u64, node_suffix, keyed}

-- A decimal digit; and the number that a row of them writes.
abbrev pub IsDigit : ℕ → Type 0
IsDigit b = (48 ≤ b) × (b ≤ 57)

unfoldable pub number : Bytes → ℕ
number [] = 0
number (d ∷ ds) = (d - 48) * 10 ^ length ds + number ds

-- `infnoise` and a number.
abbrev pub IsNode : Bytes → Bytes → Type 0
IsNode name ds = (name ≡ text "infnoise" ++ ds) × (ds ≢ []) × All IsDigit ds

-- The key of a node is its number, if that fits into 64 bits, and else 0.
abbrev pub IsKey : ℕ → Bytes → Type 0
IsKey k ds = (number ds < 2 ^ 64 → k ≡ number ds) × (2 ^ 64 ≤ number ds → k ≡ 0)

-- The nodes among the entries of a directory, with their keys and paths.
pub data Nodes : List Bytes → List (ℕ × Bytes) → Type 0 where
  no_entry : Nodes [] []
  node :
      {names : List Bytes} {es : List (ℕ × Bytes)} (name ds : Bytes) (k : ℕ)
      → IsNode name ds
      → IsKey k ds
      → Nodes names es
      → Nodes (name ∷ names) ((k, text "/dev/" ++ name) ∷ es)
  other :
      {names : List Bytes} {es : List (ℕ × Bytes)} (name : Bytes)
      → ((ds : Bytes) → IsNode name ds → ⊥)
      → Nodes names es
      → Nodes (name ∷ names) es

shifted : (n d k : ℕ) → (n * 10 + d) * 10 ^ k ≡ n * 10 ^ suc k + d * 10 ^ k
shifted n d k =
    let p : 10 ^ suc k ≡ 10 * 10 ^ k = omega arith in
    add-mul (n * 10) d (10 ^ k)
    ∙ ap (λ y. y + d * 10 ^ k) (mul_assoc n 10 (10 ^ k) ∙ ap (◌*◌ n) (sym p))

digits_value_lem : (n : ℕ) (ds : Bytes) → digits_value n ds ≡ n * 10 ^ length ds + number ds
unfolding digits_value number
digits_value_lem n [] = omega arith
digits_value_lem n (d ∷ ds) =
    omega (arith, digits_value_lem (n * 10 + (d - 48)) ds, shifted n (d - 48) (length ds))

digits-IsDigit : (ds : Bytes) → all_digits ds ≡ true → All IsDigit ds
unfolding all_digits is_digit
digits-IsDigit [] e = tt
digits-IsDigit (d ∷ ds) e = (ground arith, digits-IsDigit ds (ground arith))

IsDigit-digits : (ds : Bytes) → All IsDigit ds → all_digits ds ≡ true
unfolding all_digits is_digit
IsDigit-digits [] a = refl
IsDigit-digits (d ∷ ds) a = let e = IsDigit-digits ds a.1 in ground (arith, e, a.0)

parse-IsKey : (ds : Bytes) → IsKey (parse_u64 ds) ds
unfolding parse_u64
parse-IsKey ds =
    let e : digits_value 0 ds ≡ number ds = omega (arith, digits_value_lem 0 ds) in
    (λ h. ground (arith, e, h), λ h. ground (arith, e, h))

suffix_found : (name ds : Bytes) → node_suffix name ≡ some ds → IsNode name ds
unfolding node_suffix
suffix_found name ds e = elim (Bool-cases (bytes_eq (take 8 name) (text "infnoise"))) [
  | inl p ↦
      let suffix = drop 8 name in
      elim (Bool-cases (ltb 0 (length suffix) && all_digits suffix)) [
        | inl q ↦
            let found : node_suffix name ≡ some suffix = rw (p, q) refl in
            let same : suffix ≡ ds = some_inj (sym found ∙ e) in
            let whole : name ≡ text "infnoise" ++ suffix =
              sym (take-append-drop 8 name)
              ∙ ap (λ x. x ++ suffix) (bytes_eq→eq (take 8 name) (text "infnoise") p) in
            subst (IsNode name) same (
              whole,
              (λ z. ground (arith, q, ap length z)),
              digits-IsDigit suffix (ground (arith, q)),
            )
        | inr q ↦ let lost : node_suffix name ≡ none = rw (p, q) refl in absurd (cc)
      ]
  | inr p ↦ let lost : node_suffix name ≡ none = rw p refl in absurd (cc)
]

suffix_of_node : (name ds : Bytes) → IsNode name ds → node_suffix name ≡ some ds
unfolding node_suffix bytes_eq
suffix_of_node name [] (e, n, a) = absurd (n refl)
suffix_of_node name (d ∷ ds) (e, n, a) = rw (e, IsDigit-digits (d ∷ ds) a) (ground arith)

pub keyed-Nodes : (names : List Bytes) → Nodes names (keyed names)
unfolding keyed
keyed-Nodes [] = no_entry
keyed-Nodes (name ∷ names) = elim (Option-cases (node_suffix name)) [
  | inl e ↦
      rw (e, keyed)
        (other name (λ ds v. absurd (let q = suffix_of_node name ds v in cc)) (keyed-Nodes names))
  | inr (ds, e) ↦
      rw (e, keyed)
        (node name ds (parse_u64 ds) (suffix_found name ds e) (parse-IsKey ds) (keyed-Nodes names))
]
