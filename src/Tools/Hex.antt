-- ===== src/Tools/Hex.antt =====
-- What `write_hex` of crates/p11rand-tools/src/bin/p11rand-read.rs prints, and how it reads back.
use mathlib.Core.Path.{subst}
use mathlib.Core.List.{append-nil, append_assoc}
use native.Mathlib.Decide.{ℕ_discrete}
use pkcs11_rand.Base.{
  ==_iff, ℕ, zero, suc, ◌+◌, ◌-◌, ◌*◌, ◌/◌, ◌%◌, ◌<◌, ◌≡◌, refl, sym, ap, ◌∙◌, Bool, true, false,
  ◌&&◌, ◌||◌, leb, Option, some, none, [], ◌∷◌, ◌++◌, Result, ok, err, Done, length, get_or, ltb,
  ◌==◌, arith, All, if◌then◌else◌,
}
use pkcs11_rand.Host.{Bytes}
use pkcs11_rand.Tools.{IoError, Written}
use pkcs11_rand.Tools.Write.{hex, digits, tmp_len, write_full, after, hex_loop, write_hex}
use pkcs11_rand.Tools.Sent.{WriterLaws, Sent, more-Sent, write_full-Sent}

-- Each byte as two lower-case digits.
unfoldable pub hex_of : Bytes → Bytes
hex_of [] = []
hex_of (b ∷ bs) = digits b ++ hex_of bs

-- `0` to `9` and `a` to `f`, and their values.
abbrev is_hex : ℕ → Bool
is_hex c = leb b'0' c && leb c b'9' || leb b'a' c && leb c b'f'

abbrev value : ℕ → ℕ
value c = if ltb c b'a' then c - b'0' else c - b'a' + 10

pub length-hex_of : (bs : Bytes) → length (hex_of bs) ≡ 2 * length bs
unfolding hex_of
length-hex_of [] = omega arith
length-hex_of (b ∷ bs) = omega (arith, length-hex_of bs)

abbrev led_by : ℕ → Option Bytes → Option Bytes
led_by b none = none
led_by b (some bs) = some (b ∷ bs)

-- A reader of such a string, which refuses any other character.
unfoldable pub unhex : Bytes → Option Bytes
unhex [] = some []
unhex (c ∷ []) = none
unhex (c ∷ d ∷ cs) =
    let rest = unhex cs in
    if is_hex c && is_hex d then led_by (16 * value c + value d) rest else none

and_left : (a b : Bool) → (a && b) ≡ true → a ≡ true
and_left true b h = refl
and_left false b h = absurd (cc)

pub and_right : (a b : Bool) → (a && b) ≡ true → b ≡ true
and_right true b h = h
and_right false b h = absurd (cc)

all_below : (ℕ → Bool) → ℕ → Bool
all_below f zero = true
all_below f (suc n) = f n && all_below f n

all_below-lt : (f : ℕ → Bool) (n d : ℕ) → all_below f n ≡ true → d < n → f d ≡ true
unfolding all_below
all_below-lt f zero d g h = absurd (omega arith)
all_below-lt f (suc n) d g h = elim (ℕ_discrete n d) [
  | yes e ↦ ap f (sym e) ∙ and_left (f n) _ g
  | no e ↦ all_below-lt f n d (and_right (f n) _ g) (omega arith)
]

hex_value : (d : ℕ) → d < 16 → value (get_or hex d 0) ≡ d
unfolding all_below
hex_value d h =
    (==_iff (value (get_or hex d 0)) d).0
      (all_below-lt (λ d. value (get_or hex d 0) == d) 16 d refl h)

is_hex-digit : (d : ℕ) → d < 16 → is_hex (get_or hex d 0) ≡ true
unfolding all_below
is_hex-digit d h = all_below-lt (λ d. is_hex (get_or hex d 0)) 16 d refl h

unhex-hex_of : (bs : Bytes) → All (λ b. b < 256) bs → unhex (hex_of bs) ≡ some bs
unfolding unhex hex_of
unhex-hex_of [] h = refl
unhex-hex_of (b ∷ bs) h =
    let le : b / 16 < 16 = omega (arith, h.0) in
    let lt : b % 16 < 16 = omega arith in
    let p = hex_value (b / 16) le in
    let q = hex_value (b % 16) lt in
    let e : 16 * value (get_or hex (b / 16) 0) + value (get_or hex (b % 16) 0) ≡ b =
      omega (arith, p, q) in
    rw (is_hex-digit (b / 16) le, is_hex-digit (b % 16) lt, unhex-hex_of bs h.1, e) refl

module _ {World : Type 0} {write : Bytes → World → Written × World} {received : World → Bytes}
    {pending : World → ℕ} (laws : WriterLaws write received pending) where
  after-Sent :
      (a rest : Bytes) (w : World) (r : Result IoError Done × World)
      (k : World → Result IoError Done × World)
      → Sent received a w r
      → ((w' : World) → Sent received rest w' (k w'))
      → Sent received (a ++ rest) w (after write r k)
  after-Sent a rest w (ok d, w') k s f = more-Sent laws a rest w w' (k w') (s.on_ok refl) (f w')
  after-Sent a rest w (err e, w') k s f =
      let (c, d, p, q) = s.front in
      record {
        on_ok = λ o. absurd (cc);
        front = (c, d ++ rest, ap (λ x. x ++ rest) p ∙ append_assoc c d rest, q);
        unspent = s.unspent;
      }

  branch-Sent :
      (b : Bool) (buf : Bytes) (w : World) (x y : Result IoError Done × World)
      → (b ≡ true → Sent received buf w x)
      → (b ≡ false → Sent received buf w y)
      → Sent received buf w (if b then x else y)
  branch-Sent true buf w x y f g = f refl
  branch-Sent false buf w x y f g = g refl

  nothing-Sent :
      (tmp : Bytes) (w : World) → ltb 0 (length tmp) ≡ false → Sent received tmp w (ok tt, w)
  nothing-Sent [] w e = record {
    on_ok = λ o. sym (append-nil (received w));
    front = ([], [], refl, sym (append-nil (received w)));
    unspent = λ o. absurd (cc);
  }
  nothing-Sent (c ∷ cs) w e = absurd (ground (arith, e))

  hex_loop-Sent :
      (buf tmp : Bytes) (w : World)
      → Sent received (tmp ++ hex_of buf) w (hex_loop write pending buf tmp w)
  unfolding hex_loop hex_of
  hex_loop-Sent [] tmp w =
      subst (λ (b : Bytes). Sent received b w (hex_loop write pending [] tmp w))
        (sym (append-nil tmp))
        (branch-Sent (ltb 0 (length tmp)) tmp w _ _ (λ e. write_full-Sent laws tmp w)
          (λ e. nothing-Sent tmp w e))
  hex_loop-Sent (b ∷ bs) tmp w =
      branch-Sent (ltb tmp_len (length tmp + 2)) (tmp ++ (digits b ++ hex_of bs)) w _ _
        (λ e.
          after-Sent tmp (digits b ++ hex_of bs) w (write_full write pending tmp w)
            (hex_loop write pending bs (digits b)) (write_full-Sent laws tmp w)
            (λ w'. hex_loop-Sent bs (digits b) w'))
        (λ e.
          subst (λ (x : Bytes). Sent received x w (hex_loop write pending bs (tmp ++ digits b) w))
            (append_assoc tmp (digits b) (hex_of bs)) (hex_loop-Sent bs (tmp ++ digits b) w))

  pub write_hex-Sent :
      (buf : Bytes) (w : World) → Sent received (hex_of buf) w (write_hex write pending buf w)
  unfolding write_hex
  write_hex-Sent buf w = hex_loop-Sent buf [] w

  -- For a stdout that keeps the documented laws of write(2): if `write_hex` of some bytes
  -- succeeds, then two characters for each byte have been handed over, all of them digits from
  -- 0 to 9 or letters from a to f, and read as hexadecimal digits they give the bytes back.
  pub write_hex_reads_back :
      (buf : Bytes) (w : World)
      → All (λ b. b < 256) buf
      → (write_hex write pending buf w).0 ≡ ok tt
      → (printed : Bytes) × (received (write_hex write pending buf w).1 ≡ received w ++ printed)
        × (length printed ≡ 2 * length buf)
        × (unhex printed ≡ some buf)
  write_hex_reads_back buf w h e =
      (hex_of buf, (write_hex-Sent buf w).on_ok e, length-hex_of buf, unhex-hex_of buf h)
