-- ===== src/Tools/Reading.antt =====
-- `parse` of crates/p11rand-tools/src/bin/p11rand-read.rs.
use pkcs11_rand.Base.{
  ℕ, zero, suc, ◌<◌, ◌≡◌, refl, ◌⊎◌, inl, inr, Option, none, some, List, Result, ok, err, arith,
}
use pkcs11_rand.Host.{Bytes}
use pkcs11_rand.Config.{text}
use pkcs11_rand.Tools.Args.{ℤ, pos, negsuc, parse_loop, is, parse_i64, and_parse}
use pkcs11_rand.Tools.Parsed.{
  TurnLaw, LoopLaw, ParseLaw, loop-LoopLaw, given-ParseLaw, branch-TurnLaw, rest-TurnLaw,
}
use pkcs11_rand.Tools.ReadTool as Reader

-- A number of bytes to read: -1, or a positive one.
abbrev pub IsTotal : ℤ → Type 0
IsTotal n = (n ≡ negsuc 0) ⊎ ((k : ℕ) × (n ≡ pos k) × (0 < k))

abbrev pub IsReading : Reader.Args → Type 0
IsReading a = IsTotal a.n_total

with_total-TurnLaw :
    (s : Bytes) (v : Option Bytes) (a : Reader.Args) (n : Option ℤ)
    → TurnLaw (λ a. a.path) IsReading s v a (Reader.with_total n a)
with_total-TurnLaw s v a none = inl refl
with_total-TurnLaw s v a (some (negsuc n)) = inl refl
with_total-TurnLaw s v a (some (pos zero)) = (inl refl, refl)
with_total-TurnLaw s v a (some (pos (suc n))) = (inr (suc n, refl, omega arith), refl)

read_turn-TurnLaw :
    (s : Bytes) (v : Option Bytes) (a : Reader.Args)
    → IsReading a
    → TurnLaw (λ a. a.path) IsReading s v a (Reader.arg_turn s v a)
unfolding Reader.arg_turn
read_turn-TurnLaw s v a g =
    let split = branch-TurnLaw (λ (a : Reader.Args). a.path) IsReading s v a in
    split (is (text "-n") s) _ _ (λ e. with_total-TurnLaw s v a (and_parse parse_i64 v))
      (λ e.
        split (is (text "-x") s) _ _ (λ e. (g, inl refl))
          (λ e.
            split (is (text "-q") s) _ _ (λ e. (g, inl refl))
              (λ e.
                rest-TurnLaw (λ (a : Reader.Args). a.path) IsReading s v a (record a { path = s }) g
                  refl)))

read_settled :
    (argv : List Bytes) (r : Result ℕ Reader.Args)
    → LoopLaw (λ a. a.path) IsReading argv Reader.first_args r
    → ParseLaw (λ a. a.path) IsReading argv (Reader.with_path r)
read_settled argv (err c) l = l
read_settled argv (ok a) l =
    given-ParseLaw (λ a. a.path) IsReading argv Reader.first_args (ok a) refl l

pub read_parse-ParseLaw :
    (argv : List Bytes) → ParseLaw (λ a. a.path) IsReading argv (Reader.parse argv)
unfolding Reader.parse
read_parse-ParseLaw argv = read_settled argv (parse_loop Reader.arg_turn argv Reader.first_args) (
    loop-LoopLaw (λ a. a.path) IsReading Reader.arg_turn read_turn-TurnLaw argv Reader.first_args
      (inr (32, refl, omega arith)))
