-- ===== src/Tools/Write.antt =====
-- `write_full` and `write_hex` of crates/p11rand-tools/src/bin/p11rand-read.rs.
use pkcs11_rand.Base.{
  ℕ, zero, suc, ◌+◌, ◌/◌, ◌%◌, [], ◌∷◌, ◌++◌, Result, ok, err, Done, Turn, stop, go_on, fill,
  length, get_or, take, drop, ltb, if◌then◌else◌,
}
use pkcs11_rand.Host.{Bytes}
use pkcs11_rand.Config.{text}
use pkcs11_rand.Tools.{IoError, write_zero, spent, Written, wrote, interrupted, failed}

abbrev pub hex : Bytes
hex = text "0123456789abcdef"

-- The two digits of a byte.
abbrev pub digits : ℕ → Bytes
digits b = get_or hex (b / 16) 0 ∷ get_or hex (b % 16) 0 ∷ []

-- `tmp.len()`
abbrev pub tmp_len : ℕ
tmp_len = 1024

module _ {World : Type 0} (write : Bytes → World → Written × World) where
  abbrev pub taken : Bytes → Written → World → Turn World IoError
  taken buf (wrote zero) w = stop (err write_zero) buf w
  taken buf (wrote (suc n)) w = go_on (take (suc n) buf) (drop (suc n) buf) w
  taken buf interrupted w = go_on [] buf w
  taken buf (failed e) w = stop (err e) buf w

  abbrev pub write_turn : Bytes → World → Turn World IoError
  write_turn buf w = let (r, w') = write buf w in taken buf r w'

  -- One turn for each byte is enough, and one for each interruption.
  unfoldable pub write_full : (World → ℕ) → Bytes → World → Result IoError Done × World
  write_full pending buf w =
      let o = fill spent write_turn (suc (length buf + pending w)) buf w in (o.status, o.state)

  abbrev pub after :
      Result IoError Done × World
      → (World → Result IoError Done × World)
      → Result IoError Done × World
  after (ok d, w) k = k w
  after (err e, w) k = (err e, w)

  -- The loop of `write_hex`, with `tmp[..off]` so far.
  unfoldable pub hex_loop : (World → ℕ) → Bytes → Bytes → World → Result IoError Done × World
  unfolding write_full
  hex_loop pending [] tmp w = if ltb 0 (length tmp) then write_full pending tmp w else (ok tt, w)
  hex_loop pending (b ∷ bs) tmp w =
      let flushed = after (write_full pending tmp w) (hex_loop pending bs (digits b)) in
      let kept = hex_loop pending bs (tmp ++ digits b) w in
      if ltb tmp_len (length tmp + 2) then flushed else kept

  unfoldable pub write_hex : (World → ℕ) → Bytes → World → Result IoError Done × World
  unfolding hex_loop
  write_hex pending buf w = hex_loop pending buf [] w
