-- ===== src/Tools/SeedTool.antt =====
-- crates/p11rand-tools/src/bin/p11rand-seed.rs: the seeder of the kernel's RNG. On the way to its session
-- it does what p11rand-read does.
use pkcs11_rand.Base.{
  ℕ, zero, suc, ◌-◌, ◌*◌, ◌%◌, ◌^◌, min, Bool, true, false, not, ◌||◌, Option, none, some, List, [],
  Result, ok, err, Done, replicate, ltb, ◌==◌, if◌then◌else◌,
}
use pkcs11_rand.Host.{Bytes}
use pkcs11_rand.Config.{text}
use pkcs11_rand.Tools.{
  Ioctl, done, eperm, refused, RandPoolInfo, Machine, Flow, returned, running, positive, not_ok,
  ◌>>=◌, pure, leave, call, outside, signal_reset, pass, watched, signal_count,
}
use pkcs11_rand.Tools.Args.{
  ArgTurn, refuse, next, skip, parse_loop, is, starts_dash, is_help, more, is_nil, parse_unsigned,
  and_parse,
}
use pkcs11_rand.Tools.Connect.{finalize, connect}

abbrev pub default_nbytes : ℕ
default_nbytes = 64

abbrev pub max_nbytes : ℕ
max_nbytes = 4096

pub record Args (m : Machine) : Type 0 where
  pub interval : m.F64
  pub nbytes : ℕ
  pub no_credit : Bool
  pub no_reseed : Bool
  pub quiet : Bool
  pub path : Bytes

-- 50 ms, in nanoseconds.
abbrev pub tick : ℕ
tick = 50000000

-- The header says how many bits the bytes are worth; both its numbers are cast to c_int.
unfoldable pub pool_info : ℕ → Bytes → RandPoolInfo
pool_info nbytes buf = record {
  entropy_count = nbytes * 8 % 2 ^ 32;
  buf_size = nbytes % 2 ^ 32;
  buf = buf;
}

module _ {m : Machine} where
  abbrev pub first_args : Args m
  first_args = record {
    interval = m.default_interval;
    nbytes = default_nbytes;
    no_credit = false;
    no_reseed = false;
    quiet = false;
    path = [];
  }

  abbrev pub with_interval : Option m.F64 → Args m → ArgTurn (Args m)
  with_interval none a = refuse 2
  with_interval (some v) a = if m.le_zero v then refuse 2 else skip (record a { interval = v })

  abbrev pub with_nbytes : Option ℕ → Args m → ArgTurn (Args m)
  with_nbytes none a = refuse 2
  with_nbytes (some v) a =
      if v == 0 || ltb max_nbytes v then refuse 2 else skip (record a { nbytes = v })

  unfoldable pub arg_turn : Bytes → Option Bytes → Args m → ArgTurn (Args m)
  arg_turn s v a =
      if is (text "-t") s
      then with_interval (and_parse m.parse_f64 v) a
      else if is (text "-n") s
      then with_nbytes (and_parse parse_unsigned v) a
      else if is (text "--no-credit") s
      then next (record a { no_credit = true })
      else if is (text "--no-reseed") s
      then next (record a { no_reseed = true })
      else if is (text "-q") s
      then next (record a { quiet = true })
      else if is_help s
      then refuse 0
      else if not (starts_dash s)
      then (if more v then refuse 2 else next (record a { path = s }))
      else refuse 2

  abbrev pub with_path : Result ℕ (Args m) → Result ℕ (Args m)
  with_path (err c) = err c
  with_path (ok a) = if is_nil a.path then err 2 else ok a

  unfoldable pub parse : List Bytes → Result ℕ (Args m)
  parse argv = with_path (parse_loop arg_turn argv first_args)

  -- `while start.elapsed() < total && signal_count() == 0`
  unfoldable pub sleep_loop : ℕ → ℕ → ℕ → Flow m Done
  unfolding ◌>>=◌ pure leave outside watched signal_count pass
  sleep_loop zero total start = leave running
  sleep_loop (suc fuel) total start = do
    now ← watched (outside m.now)
    let again = λ (d : Done). sleep_loop fuel total start
    let body = watched (outside m.now) >>= λ (later : ℕ).
        watched (pass (min (total - (later - start)) tick)) >>= again
    let awake = signal_count >>= λ (s : ℕ). if s == 0 then body else pure tt
    if ltb (now - start) total then awake else pure tt

  unfoldable pub interruptible_sleep : ℕ → m.F64 → Flow m Done
  unfolding ◌>>=◌ pure outside watched sleep_loop
  interruptible_sleep fuel seconds =
      if m.le_zero seconds
      then pure tt
      else watched (outside m.now) >>= sleep_loop fuel (m.from_secs seconds)

  -- What becomes of the flags after `RNDRESEEDCRNG`.
  abbrev pub reseeded : Args m → Ioctl → Args m
  reseeded a done = a
  reseeded a eperm = record a { no_reseed = true }
  reseeded a refused = a

  unfoldable pub reseed : Args m → Flow m (Args m)
  unfolding ◌>>=◌ pure outside watched
  reseed a =
      if a.no_reseed
      then pure a
      else watched (outside m.rnd_reseed_crng) >>= λ r. pure (reseeded a r)

  -- One `write(2)`, which may be short or fail without a consequence.
  unfoldable pub uncredited : Args m → Bytes → Flow m (Args m)
  unfolding ◌>>=◌ pure outside watched
  uncredited a buf = watched (outside (m.write_random buf)) >>= λ r. pure a

  abbrev pub credited : Args m → Bytes → Ioctl → Flow m (Args m)
  credited a buf done = reseed a
  credited a buf eperm = uncredited (record a { no_credit = true }) buf
  credited a buf refused = pure a

  -- One insertion; `a.no_credit` and `a.no_reseed` may change.
  unfoldable pub insert : Args m → Bytes → Flow m (Args m)
  unfolding ◌>>=◌ pure outside watched uncredited reseed
  insert a buf =
      if a.no_credit
      then uncredited a buf
      else watched (outside (m.rnd_add_entropy (pool_info a.nbytes buf))) >>= credited a buf

  -- What follows `C_GenerateRandom`; `again` is the next turn.
  unfoldable pub deal : Args m → (Args m → Bytes → Flow m Done) → ℕ → ℕ × Bytes → Flow m Done
  unfolding ◌>>=◌ pure watched signal_count insert interruptible_sleep
  deal a again naps (rv, buf) =
      let nap = λ (a : Args m). interruptible_sleep naps a.interval >>= λ d. again a buf in
      let retry = signal_count >>= λ (s : ℕ). if positive s then pure tt else nap a in
      if not_ok rv then retry else insert a buf >>= nap

  -- `naps` is the fuel of each sleep.
  unfoldable pub seed_loop : ℕ → ℕ → ℕ → Args m → Bytes → Flow m Done
  unfolding ◌>>=◌ pure leave call watched signal_count deal
  seed_loop zero naps sess a buf = leave running
  seed_loop (suc fuel) naps sess a buf = do
    s ← signal_count
    let again = seed_loop fuel naps sess
    let turn = watched (call (m.c_generate_random sess buf a.nbytes)) >>= deal a again naps
    if s == 0 then turn else pure tt

  unfoldable pub close : ℕ → Flow m Done
  unfolding ◌>>=◌ pure call watched finalize
  close sess = do rv ← watched (call (m.c_close_session sess)); watched finalize

  -- /dev/random cannot be opened: before the handler is installed.
  unfoldable pub no_device : ℕ → Flow m ℕ
  unfolding ◌>>=◌ call leave finalize
  no_device sess = do rv ← call (m.c_close_session sess); fin ← finalize; leave (returned 1)

  unfoldable pub seed : ℕ → ℕ → ℕ → Args m → Flow m ℕ
  unfolding ◌>>=◌ pure signal_reset seed_loop close
  seed fuel naps sess a = do
    reset ← signal_reset
    seeded ← seed_loop fuel naps sess a (replicate a.nbytes 0)
    closed ← close sess
    pure 0

  unfoldable pub main : ℕ → ℕ → Args m → Flow m ℕ
  unfolding ◌>>=◌ outside connect no_device seed
  main fuel naps a = do
    sess ← connect a.path
    opened ← outside m.open_random
    if opened then seed fuel naps sess a else no_device sess

  unfoldable pub run : ℕ → ℕ → List Bytes → Flow m ℕ
  unfolding leave parse main
  run fuel naps argv = elim (parse argv) [ err c ↦ leave (returned c) | ok a ↦ main fuel naps a ]
