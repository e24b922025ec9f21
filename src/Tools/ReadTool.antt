-- ===== src/Tools/ReadTool.antt =====
-- crates/p11rand-tools/src/bin/p11rand-read.rs: its arguments, its loop and its `main`.
use pkcs11_rand.Base.{
  ℕ, zero, suc, ◌+◌, ◌-◌, Bool, true, false, not, ◌&&◌, Option, none, some, List, [], ◌∷◌, Result,
  ok, err, Done, take, replicate, ltb, ◌==◌, if◌then◌else◌,
}
use pkcs11_rand.Host.{Bytes}
use pkcs11_rand.Config.{text}
use pkcs11_rand.Tools.{
  IoError, broken_pipe, Machine, Flow, returned, running, positive, not_ok, ◌>>=◌, pure, leave,
  call, outside, signal_reset, watched, signal_count,
}
use pkcs11_rand.Tools.Write.{write_full, write_hex}
use pkcs11_rand.Tools.Args.{
  ArgTurn, refuse, next, skip, ℤ, pos, negsuc, parse_loop, is, starts_dash, is_help, more, is_nil,
  parse_i64, and_parse,
}
use pkcs11_rand.Tools.Connect.{finalize, connect}

-- `n_total` is -1 for an open-ended stream.
pub record Args : Type 0 where
  pub n_total : ℤ
  pub hex : Bool
  pub quiet : Bool
  pub path : Bytes

abbrev pub first_args : Args
first_args = record { n_total = pos 32; hex = false; quiet = false; path = [] }

abbrev pub with_total : Option ℤ → Args → ArgTurn Args
with_total none a = refuse 2
with_total (some (negsuc n)) a = refuse 2
with_total (some (pos zero)) a = skip (record a { n_total = negsuc 0 })
with_total (some (pos (suc n))) a = skip (record a { n_total = pos (suc n) })

unfoldable pub arg_turn : Bytes → Option Bytes → Args → ArgTurn Args
arg_turn s v a =
    if is (text "-n") s
    then with_total (and_parse parse_i64 v) a
    else if is (text "-x") s
    then next (record a { hex = true })
    else if is (text "-q") s
    then next (record a { quiet = true })
    else if is_help s
    then refuse 0
    else if not (starts_dash s)
    then (if more v then refuse 2 else next (record a { path = s }))
    else refuse 2

abbrev pub with_path : Result ℕ Args → Result ℕ Args
with_path (err c) = err c
with_path (ok a) = if is_nil a.path then err 2 else ok a

-- The arguments behind `argv[0]`.
unfoldable pub parse : List Bytes → Result ℕ Args
parse argv = with_path (parse_loop arg_turn argv first_args)

abbrev pub buf_len : ℕ
buf_len = 256

-- `a.n_total < 0 || produced < a.n_total`
abbrev pub wants_more : ℤ → ℕ → Bool
wants_more (negsuc n) produced = true
wants_more (pos n) produced = ltb produced n

abbrev pub want : ℤ → ℕ → ℕ
want (negsuc n) produced = buf_len
want (pos n) produced = if ltb (n - produced) buf_len then n - produced else buf_len

-- `exit_rv` and `produced`, when the loop is left.
abbrev pub Left : Type 0
Left = ℕ × ℕ

-- The bytes, or their digits, to stdout.
abbrev pub hand :
    (m : Machine) → (m.World → ℕ) → Bool → Bytes → m.World → Result IoError Done × m.World
hand m pending true buf = write_hex m.write pending buf
hand m pending false buf = write_full m.write pending buf

module _ {m : Machine} (pending : m.World → ℕ) where
  unfoldable pub write_out : Bool → Bytes → Flow m (Result IoError Done)
  unfolding watched outside
  write_out hex buf = watched (outside (hand m pending hex buf))

  unfoldable pub after_failure : ℕ → Flow m Left
  unfolding ◌>>=◌ pure signal_count
  after_failure produced = do n ← signal_count; pure (if positive n then 0 else 1, produced)

  abbrev pub after_write : ℕ → ℕ → Flow m Left → Result IoError Done → Flow m Left
  after_write produced n again (ok _) = again
  after_write produced n again (err broken_pipe) = pure (0, produced)
  after_write produced n again (err _) = pure (1, produced)

  -- What follows `C_GenerateRandom`; `again` is the next turn.
  unfoldable pub deal : Args → ℕ → ℕ → (Bytes → Flow m Left) → ℕ × Bytes → Flow m Left
  unfolding ◌>>=◌ pure signal_count write_out after_failure
  deal a produced n again (rv, buf) = if not_ok rv then after_failure produced else do
    s ← signal_count
    if positive s
        then pure (0, produced)
        else write_out a.hex (take n buf) >>= after_write produced n (again buf)

  unfoldable pub read_loop : ℕ → Args → ℕ → Bytes → ℕ → Flow m Left
  unfolding ◌>>=◌ pure leave call watched signal_count deal
  read_loop zero a sess buf produced = leave running
  read_loop (suc fuel) a sess buf produced = do
    s ← signal_count
    let n = want a.n_total produced
    let again = λ (buf : Bytes). read_loop fuel a sess buf (produced + n)
    if s == 0 && wants_more a.n_total produced
        then watched (call (m.c_generate_random sess buf n)) >>= deal a produced n again
        else pure (0, produced)

  -- The newline behind hex output is written whatever comes of it.
  unfoldable pub newline : Bool → ℕ → Flow m Done
  unfolding ◌>>=◌ pure write_out
  newline hex produced =
      if hex && ltb 0 produced then write_out false (0x0a ∷ []) >>= (λ r. pure tt) else pure tt

  unfoldable pub close : ℕ → Flow m Done
  unfolding ◌>>=◌ pure call watched finalize
  close sess = do rv ← watched (call (m.c_close_session sess)); watched finalize

  unfoldable pub main : ℕ → Args → Flow m ℕ
  unfolding ◌>>=◌ pure signal_reset connect read_loop newline close
  main fuel a = do
    sess ← connect a.path
    reset ← signal_reset
    left ← read_loop fuel a sess (replicate buf_len 0) 0
    nl ← newline a.hex left.1
    closed ← close sess
    pure left.0

  unfoldable pub run : ℕ → List Bytes → Flow m ℕ
  unfolding leave parse main
  run fuel argv = elim (parse argv) [ err c ↦ leave (returned c) | ok a ↦ main fuel a ]
