-- ===== src/Tools/Delivered.antt =====
-- What the loop of crates/p11rand-tools/src/bin/p11rand-read.rs hands over for `-n`.
use pkcs11_rand.Base.{
  ℕ, zero, suc, ◌+◌, ◌*◌, ◌≤◌, ◌≡◌, ◌≢◌, refl, ap, Bool, true, false, [], ◌∷◌, ◌++◌, err, length,
  take, ltb, arith, if◌then◌else◌,
}
use pkcs11_rand.Host.{Bytes}
use pkcs11_rand.Tools.{IoError, broken_pipe, not_ok, Machine, Run}
use pkcs11_rand.Tools.Args.{pos}
use pkcs11_rand.Tools.Write.{digits}
use pkcs11_rand.Tools.Hex.{hex_of, length-hex_of}
use pkcs11_rand.Tools.ReadTool.{Left, hand, want}

-- The form in which bytes are printed, and how long it is for each.
abbrev pub encode : Bool → Bytes → Bytes
encode true bs = hex_of bs
encode false bs = bs

abbrev pub width : Bool → ℕ
width true = 2
width false = 1

hex_of-append : (a b : Bytes) → hex_of (a ++ b) ≡ hex_of a ++ hex_of b
unfolding hex_of
hex_of-append [] b = refl
hex_of-append (x ∷ a) b = ap (λ y. digits x ++ y) (hex_of-append a b)

pub encode-append : (hex : Bool) (a b : Bytes) → encode hex (a ++ b) ≡ encode hex a ++ encode hex b
encode-append true a b = hex_of-append a b
encode-append false a b = refl

pub length-encode : (hex : Bool) (a : Bytes) → length (encode hex a) ≡ width hex * length a
length-encode true a = length-hex_of a
length-encode false a = omega arith

-- What a call of `C_GenerateRandom` gives: nothing if it fails.
abbrev pub given : ℕ → Bytes → Bytes
given rv bytes = if not_ok rv then [] else bytes

-- What the module would give, call after call, until `total` bytes are there or a call fails.
module _ (m : Machine) (sess total : ℕ) where
  unfoldable pub stream : ℕ → ℕ → Bytes → m.Module → Bytes
  stream zero produced buf x = []
  stream (suc calls) produced buf x =
      let n = want (pos total) produced in
      let r = m.c_generate_random sess buf n x in
      let more = given r.0.0 (take n r.0.1 ++ stream calls (produced + n) r.0.1 r.1) in
      if ltb produced total then more else []

-- Why the loop was left: all is there; or there was a signal; or nobody reads any more. Or
-- the exit code is 1, and the last call of `C_GenerateRandom` failed, or writing did.
pub data Reason (m : Machine) (pending : m.World → ℕ) (hex : Bool) (sess total : ℕ) (left : Left)
    (rest : Bytes) (s : Run m) : Type 0 where
  complete : left.0 ≡ 0 → left.1 ≡ total → rest ≡ [] → Reason m pending hex sess total left rest s
  signalled : left.0 ≡ 0 → s.count ≢ 0 → Reason m pending hex sess total left rest s
  unread :
      (buf : Bytes) (w : m.World)
      → left.0 ≡ 0
      → hand m pending hex buf w ≡ (err broken_pipe, s.world)
      → Reason m pending hex sess total left rest s
  refused :
      (n : ℕ) (buf : Bytes) (x : m.Module)
      → left.0 ≡ 1
      → not_ok (m.c_generate_random sess buf n x).0.0 ≡ true
      → s.mod_state ≡ (m.c_generate_random sess buf n x).1
      → Reason m pending hex sess total left rest s
  unwritable :
      (buf : Bytes) (w : m.World) (e : IoError)
      → left.0 ≡ 1
      → hand m pending hex buf w ≡ (err e, s.world)
      → e ≢ broken_pipe
      → Reason m pending hex sess total left rest s

-- From the state with `w`, `out` was handed over; `due` is what the module had to give.
pub record Delivered (m : Machine) (pending : m.World → ℕ) (received : m.World → Bytes) (hex : Bool)
    (sess total produced : ℕ) (due : Bytes) (w : m.World) (left : Left) (s : Run m) : Type 0 where
  pub out : Bytes
  pub rest : Bytes
  pub sent : received s.world ≡ received w ++ out
  pub front : encode hex due ≡ out ++ rest
  pub within : left.1 ≤ total
  pub counted : width hex * left.1 ≤ width hex * produced + length out
  pub reason : Reason m pending hex sess total left rest s
