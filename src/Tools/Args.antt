-- ===== src/Tools/Args.antt =====
-- The command lines of crates/p11rand-tools/src/bin: the loop over the arguments that the tools share,
-- and the numbers in them.
use pkcs11_rand.Base.{
  ℕ, zero, suc, ◌+◌, ◌^◌, Bool, true, false, not, ◌||◌, Option, none, some, List, [], ◌∷◌, Result,
  ok, err, bytes_eq, leb, ◌==◌, if◌then◌else◌,
}
use pkcs11_rand.Host.{Bytes}
use pkcs11_rand.Config.{text}
use pkcs11_rand.Infnoise.{all_digits, digits_value}

-- What the `match` on one argument does: it returns an exit code, or goes on with the next argument, or
-- with the one after that.
pub data ArgTurn (A : Type 0) : Type 0 where
  refuse : ℕ → ArgTurn A
  next : A → ArgTurn A
  skip : A → ArgTurn A

pub data ℤ : Type 0 where
  pos : ℕ → ℤ
  negsuc : ℕ → ℤ

abbrev pub leftover : {A : Type 0} → ArgTurn A → Result ℕ A
leftover (refuse c) = err c
leftover (next a) = ok a
leftover (skip a) = ok a

module _ {A : Type 0} (turn : Bytes → Option Bytes → A → ArgTurn A) where
  -- `while i < argv.len()`; a turn sees its argument and the one behind it, if there is one.
  unfoldable pub parse_loop : List Bytes → A → Result ℕ A
  parse_loop [] a = ok a
  parse_loop (s ∷ []) a = leftover (turn s none a)
  parse_loop (s ∷ v ∷ rest) a = elim (turn s (some v) a) [
    | refuse c ↦ err c
    | next b ↦ parse_loop (v ∷ rest) b
    | skip b ↦ parse_loop rest b
  ]

-- `s == "…"`
abbrev pub is : Bytes → Bytes → Bool
is word s = bytes_eq s word

-- `s.starts_with('-')`
abbrev pub starts_dash : Bytes → Bool
starts_dash [] = false
starts_dash (b ∷ bs) = b == b'-'

abbrev pub is_help : Bytes → Bool
is_help s = is (text "-h") s || is (text "--help") s

-- `i + 1 < argv.len()`
abbrev pub more : Option Bytes → Bool
more none = false
more (some v) = true

abbrev pub is_nil : Bytes → Bool
is_nil [] = true
is_nil (b ∷ bs) = false

-- `parse` of an unsigned number below `bound`, behind its sign.
abbrev pub parse_digits : ℕ → Bytes → Option ℕ
parse_digits bound ds =
    if is_nil ds || not (all_digits ds) || leb bound (digits_value 0 ds)
    then none
    else some (digits_value 0 ds)

abbrev strip_plus : Bytes → Bytes
strip_plus [] = []
strip_plus (b ∷ bs) = if b == b'+' then bs else b ∷ bs

-- `parse::<u64>`, and `parse::<usize>`.
unfoldable pub parse_unsigned : Bytes → Option ℕ
parse_unsigned s = parse_digits (2 ^ 64) (strip_plus s)

abbrev negated : Option ℕ → Option ℤ
negated none = none
negated (some zero) = some (pos 0)
negated (some (suc n)) = some (negsuc n)

abbrev signed : Option ℕ → Option ℤ
signed none = none
signed (some n) = some (pos n)

abbrev tail : Bytes → Bytes
tail [] = []
tail (b ∷ bs) = bs

-- `parse::<i64>`
unfoldable pub parse_i64 : Bytes → Option ℤ
parse_i64 s =
    if starts_dash s
    then negated (parse_digits (2 ^ 63 + 1) (tail s))
    else signed (parse_digits (2 ^ 63) (strip_plus s))

abbrev pub and_parse : {A : Type 0} → (Bytes → Option A) → Option Bytes → Option A
and_parse f none = none
and_parse f (some s) = f s
