-- ===== src/Tools/Trim.antt =====
-- `trim_pkcs11` of crates/p11rand-tools/src/lib.rs, against `pad_field` of crates/p11rand/src/lib.rs.
-- The decoding of what is left as UTF-8 is not modelled.
use pkcs11_rand.Base.{
  ℕ, zero, suc, ◌+◌, ◌-◌, ◌≤◌, ◌≡◌, ◌≢◌, refl, ap, ◌∙◌, not, Option, none, some, [], ◌∷◌, ◌++◌,
  length, take, replicate, take-append, take_all, ◌==◌, arith, if◌then◌else◌,
}
use pkcs11_rand.Host.{Bytes}
use pkcs11_rand.Pkcs11.{pad_field}
use pkcs11_rand.Pkcs11.Field.{pad_field_lem, take-replicate}

-- `rposition(|&b| b != b' ')`, from the index `i` on.
unfoldable pub rposition : ℕ → Bytes → Option ℕ
rposition i [] = none
rposition i (b ∷ bs) = elim (rposition (i + 1) bs) [
  | some j ↦ some j
  | none ↦ if not (b == 0x20) then some i else none
]

abbrev pub end_of : Option ℕ → ℕ
end_of none = 0
end_of (some i) = i + 1

unfoldable pub trim_pkcs11 : Bytes → Bytes
trim_pkcs11 field = take (end_of (rposition 0 field)) field

-- No space at the end.
abbrev pub IsTrim : Bytes → Type 0
IsTrim [] = Unit {0}
IsTrim (b ∷ []) = b ≢ 0x20
IsTrim (b ∷ c ∷ bs) = IsTrim (c ∷ bs)

rposition-replicate : (i n : ℕ) → rposition i (replicate n 0x20) ≡ none
unfolding rposition
rposition-replicate i zero = refl
rposition-replicate i (suc n) = rw (rposition-replicate (i + 1) n) refl

rposition-append :
    (i : ℕ) (xs : Bytes) (n : ℕ) → rposition i (xs ++ replicate n 0x20) ≡ rposition i xs
unfolding rposition
rposition-append i [] n = rposition-replicate i n
rposition-append i (x ∷ xs) n = rw (rposition-append (i + 1) xs n) refl

rposition-lt : (i : ℕ) (xs : Bytes) → end_of (rposition i xs) ≤ i + length xs
unfolding rposition
rposition-lt i [] = omega arith
rposition-lt i (x ∷ xs) = ground (arith, rposition-lt (i + 1) xs)

take-append_left : (n : ℕ) (xs ys : Bytes) → n ≤ length xs → take n (xs ++ ys) ≡ take n xs
take-append_left zero xs ys h = refl
take-append_left (suc n) [] ys h = absurd (omega arith)
take-append_left (suc n) (x ∷ xs) ys h = ap (◌∷◌ x) (take-append_left n xs ys (omega arith))

trim-append : (xs : Bytes) (n : ℕ) → trim_pkcs11 (xs ++ replicate n 0x20) ≡ trim_pkcs11 xs
unfolding trim_pkcs11
trim-append xs n =
    ap (λ r. take (end_of r) (xs ++ replicate n 0x20)) (rposition-append 0 xs n)
    ∙ take-append_left (end_of (rposition 0 xs)) xs _ (omega (arith, rposition-lt 0 xs))

rposition-last :
    (i b : ℕ) (bs : Bytes) → IsTrim (b ∷ bs) → rposition i (b ∷ bs) ≡ some (i + length bs)
unfolding rposition
rposition-last i b [] h = ground arith
rposition-last i b (c ∷ bs) h = ground (arith, rposition-last (i + 1) c bs h)

trim-IsTrim : (xs : Bytes) → IsTrim xs → trim_pkcs11 xs ≡ xs
unfolding trim_pkcs11 rposition
trim-IsTrim [] h = refl
trim-IsTrim (b ∷ bs) h =
    ap (λ r. take (end_of r) (b ∷ bs)) (rposition-last 0 b bs h)
    ∙ take_all (0 + length bs + 1) (b ∷ bs) (omega arith)

pad_field-append :
    (dst src : Bytes)
    → pad_field dst src ≡ take (length dst) src ++ replicate (length dst - length src) 0x20
pad_field-append dst src =
    pad_field_lem dst src
    ∙ take-append (length dst) src (replicate (length dst) 0x20)
    ∙ ap (◌++◌ (take (length dst) src))
        (take-replicate (length dst - length src) (length dst) 0x20 (omega arith))

-- What is read back is the source, cut to the field's width, without the spaces at its end.
trim_cut : (dst src : Bytes) → trim_pkcs11 (pad_field dst src) ≡ trim_pkcs11 (take (length dst) src)
trim_cut dst src =
    ap trim_pkcs11 (pad_field-append dst src)
    ∙ trim-append (take (length dst) src) (length dst - length src)

-- A text that fits into a field and does not end in a space is what `trim_pkcs11` of the tools
-- reads back from the field that `pad_field` of the module wrote.
pub trim-pad_field :
    (dst src : Bytes) → IsTrim src → length src ≤ length dst → trim_pkcs11 (pad_field dst src) ≡ src
trim-pad_field dst src t f =
    trim_cut dst src ∙ ap trim_pkcs11 (take_all (length dst) src f) ∙ trim-IsTrim src t
