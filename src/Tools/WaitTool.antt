-- ===== src/Tools/WaitTool.antt =====
-- crates/p11rand-tools/src/bin/p11rand-wait.rs: wait until the module has a usable slot.
use pkcs11_rand.Base.{
  ℕ, zero, suc, ◌-◌, ◌*◌, Bool, true, false, not, ◌&&◌, Option, none, some, List, [], Result, ok,
  err, Done, leb, ◌==◌, if◌then◌else◌,
}
use pkcs11_rand.Host.{Bytes}
use pkcs11_rand.Config.{text}
use pkcs11_rand.Pkcs11.Slots.{SlotList}
use pkcs11_rand.Tools.{
  Machine, Flow, returned, running, positive, not_ok, ◌>>=◌, pure, leave, call, outside,
  signal_reset, pass, watched, signal_count,
}
use pkcs11_rand.Tools.Args.{
  ArgTurn, refuse, next, skip, parse_loop, is, starts_dash, is_help, more, is_nil, parse_unsigned,
  and_parse,
}
use pkcs11_rand.Tools.Connect.{ck_true, empty_list, load, initialize, finalize}

pub record Args (m : Machine) : Type 0 where
  pub timeout : Option m.F64
  pub poll_ms : ℕ
  pub quiet : Bool
  pub path : Bytes

abbrev pub usable : ℕ × SlotList → Bool
usable (rv, slots) = not (not_ok rv) && leb 1 slots.count

module _ {m : Machine} where
  abbrev pub first_args : Args m
  first_args = record { timeout = none; poll_ms = 500; quiet = false; path = [] }

  abbrev pub with_timeout : Option m.F64 → Args m → ArgTurn (Args m)
  with_timeout none a = refuse 2
  with_timeout (some v) a = if m.lt_zero v then refuse 2 else skip (record a { timeout = some v })

  abbrev pub with_poll : Option ℕ → Args m → ArgTurn (Args m)
  with_poll none a = refuse 2
  with_poll (some v) a = if v == 0 then refuse 2 else skip (record a { poll_ms = v })

  unfoldable pub arg_turn : Bytes → Option Bytes → Args m → ArgTurn (Args m)
  arg_turn s v a =
      if is (text "-t") s
      then with_timeout (and_parse m.parse_f64 v) a
      else if is (text "-i") s
      then with_poll (and_parse parse_unsigned v) a
      else if is (text "-q") s
      then next (record a { quiet = true })
      else if is_help s
      then refuse 0
      else if not (starts_dash s)
      then (if more v then refuse 2 else next (record a { path = s }))
      else refuse 2

  abbrev pub with_path : Result ℕ (Args m) → Result ℕ (Args m)
  with_path (err c) = err c
  with_path (ok a) = if is_nil a.path then err 2 else ok a

  unfoldable pub parse : List Bytes → Result ℕ (Args m)
  parse argv = with_path (parse_loop arg_turn argv first_args)

  -- `start.elapsed() >= t`, if there is a timeout.
  unfoldable pub timed_out : Option m.F64 → ℕ → Flow m Bool
  unfolding ◌>>=◌ pure outside watched
  timed_out none start = pure false
  timed_out (some t) start = watched (outside m.now) >>= λ now. pure (m.at_least (now - start) t)

  -- The order of the tests: success, then a signal, then the timeout.
  unfoldable pub wait_loop : ℕ → Args m → ℕ → Flow m ℕ
  unfolding ◌>>=◌ pure leave call watched signal_count timed_out pass
  wait_loop zero a start = leave running
  wait_loop (suc fuel) a start = do
    answer ← watched (call (m.c_get_slot_list ck_true empty_list))
    let again = λ (d : Done). wait_loop fuel a start
    let nap = watched (pass (a.poll_ms * 1000000)) >>= again
    let late = timed_out a.timeout start >>= λ (b : Bool). if b then pure 1 else nap
    let unready = signal_count >>= λ (s : ℕ). if positive s then pure 1 else late
    if usable answer then pure 0 else unready

  unfoldable pub main : ℕ → Args m → Flow m ℕ
  unfolding ◌>>=◌ pure outside signal_reset watched load initialize wait_loop finalize
  main fuel a = do
    there ← load a.path
    ready ← initialize
    reset ← signal_reset
    start ← watched (outside m.now)
    code ← wait_loop fuel a start
    done ← watched finalize
    pure code

  unfoldable pub run : ℕ → List Bytes → Flow m ℕ
  unfolding leave parse main
  run fuel argv = elim (parse argv) [ err c ↦ leave (returned c) | ok a ↦ main fuel a ]
