-- ===== src/Pkcs11/Field.antt =====
-- `pad_field` of crates/p11rand/src/lib.rs, which writes the text fields of the info structures.
use pkcs11_rand.Base.{
  ℕ, zero, suc, ◌-◌, ◌≤◌, min, ◌≡◌, refl, sym, ap, ◌∙◌, true, false, Bool, ◌∷◌, ◌++◌, length, take,
  drop, replicate, take-append, take-min, drop_all, ltb, arith, if◌then◌else◌,
}
use pkcs11_rand.Host.{Bytes}
use pkcs11_rand.Pkcs11.{blank, pad_field}

pub take-replicate : (k n b : ℕ) → k ≤ n → take k (replicate n b) ≡ replicate k b
take-replicate zero n b h = refl
take-replicate (suc k) zero b h = absurd (omega arith)
take-replicate (suc k) (suc n) b h = ap (◌∷◌ b) (take-replicate k n b (omega arith))

branch_blank :
    (c : Bool) (n m : ℕ) (dst : Bytes)
    → (c ≡ true → length dst - n ≡ m)
    → (c ≡ false → (length dst ≤ n) × (m ≡ 0))
    → (if c then replicate (length dst - n) 0x20 else drop n dst) ≡ replicate m 0x20
branch_blank true n m dst f g = ap (λ k. replicate k 0x20) (f refl)
branch_blank false n m dst f g =
    drop_all n dst (g refl).0 ∙ ap (λ k. replicate k 0x20) (sym (g refl).1)

blank_lem :
    (src dst : Bytes)
    → blank (min (length src) (length dst)) dst ≡ replicate (length dst - length src) 0x20
blank_lem src dst =
    let n = min (length src) (length dst) in
    branch_blank (ltb n (length dst)) n (length dst - length src) dst (λ e. ground (arith, e))
      (λ e. ground (arith, e))

-- `pad_field` leaves in the field the source followed by spaces, cut to the field's width.
pub pad_field_lem :
    (dst src : Bytes) → pad_field dst src ≡ take (length dst) (src ++ replicate (length dst) 0x20)
unfolding pad_field
pad_field_lem dst src =
    ap (λ n. take n src ++ blank (min (length src) (length dst)) dst) (omega arith)
    ∙ ap (λ a. a ++ blank (min (length src) (length dst)) dst) (take-min (length dst) src)
    ∙ ap (◌++◌ (take (length dst) src)) (
        blank_lem src dst
        ∙ sym (take-replicate (length dst - length src) (length dst) 0x20 (omega arith)))
    ∙ sym (take-append (length dst) src (replicate (length dst) 0x20))
