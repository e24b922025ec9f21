-- ===== src/Tools/Parsing.antt =====
-- `parse` of p11rand-read, p11rand-seed and p11rand-wait (crates/p11rand-tools/src/bin).
use mathlib.Core.Path.{subst}
use pkcs11_rand.Base.{
  ℕ, ◌*◌, ◌^◌, ◌≤◌, ◌<◌, ◌≡◌, refl, inl, false, ◌||◌, ◌==◌, Option, none, some, List, Result, ok,
  err, Done, length, ltb, arith,
}
use pkcs11_rand.Host.{Bytes}
use pkcs11_rand.Config.{text}
use pkcs11_rand.Tools.{Machine}
use pkcs11_rand.Tools.Args.{parse_loop, is, parse_unsigned, and_parse}
use pkcs11_rand.Tools.Parsed.{
  TurnLaw, LoopLaw, ParseLaw, loop-LoopLaw, given-ParseLaw, branch-TurnLaw, rest-TurnLaw,
}
use pkcs11_rand.Tools.ReadTool as Reader
use pkcs11_rand.Tools.SeedTool as Seeder
use pkcs11_rand.Tools.WaitTool as Waiter
use pkcs11_rand.Tools.Reading.{IsReading, read_parse-ParseLaw}

abbrev pub IsTimeout : (m : Machine) → Option m.F64 → Type 0
IsTimeout m none = Done
IsTimeout m (some t) = m.lt_zero t ≡ false

module _ {m : Machine} where
  -- The size of an insertion is in bounds, and the interval is positive.
  abbrev pub IsSeeding : Seeder.Args m → Type 0
  IsSeeding a = (0 < a.nbytes) × (a.nbytes ≤ 4096) × (m.le_zero a.interval ≡ false)

  interval-TurnLaw :
      (s : Bytes) (v : Option Bytes) (a : Seeder.Args m) (t : Option m.F64)
      → IsSeeding a
      → TurnLaw (λ a. a.path) IsSeeding s v a (Seeder.with_interval t a)
  interval-TurnLaw s v a none g = inl refl
  interval-TurnLaw s v a (some t) (g, h, i) =
      branch-TurnLaw (λ a. a.path) IsSeeding s v a (m.le_zero t) _ _ (λ e. inl refl)
        (λ e. ((g, h, e), refl))

  nbytes-TurnLaw :
      (s : Bytes) (v : Option Bytes) (a : Seeder.Args m) (n : Option ℕ)
      → IsSeeding a
      → TurnLaw (λ a. a.path) IsSeeding s v a (Seeder.with_nbytes n a)
  nbytes-TurnLaw s v a none g = inl refl
  nbytes-TurnLaw s v a (some n) (g, h, i) =
      branch-TurnLaw (λ a. a.path) IsSeeding s v a (n == 0 || ltb Seeder.max_nbytes n) _ _
        (λ e. inl refl) (λ e. ((ground (arith, e), ground (arith, e), i), refl))

  seed_turn-TurnLaw :
      (s : Bytes) (v : Option Bytes) (a : Seeder.Args m)
      → IsSeeding a
      → TurnLaw (λ a. a.path) IsSeeding s v a (Seeder.arg_turn s v a)
  unfolding Seeder.arg_turn
  seed_turn-TurnLaw s v a g =
      let split = branch-TurnLaw (λ (a : Seeder.Args m). a.path) IsSeeding s v a in
      split (is (text "-t") s) _ _ (λ e. interval-TurnLaw s v a (and_parse m.parse_f64 v) g)
        (λ e.
          split (is (text "-n") s) _ _ (λ e. nbytes-TurnLaw s v a (and_parse parse_unsigned v) g)
            (λ e.
              split (is (text "--no-credit") s) _ _ (λ e. (g, inl refl))
                (λ e.
                  split (is (text "--no-reseed") s) _ _ (λ e. (g, inl refl))
                    (λ e.
                      split (is (text "-q") s) _ _ (λ e. (g, inl refl))
                        (λ e.
                          rest-TurnLaw (λ (a : Seeder.Args m). a.path) IsSeeding s v a
                            (record a { path = s }) g refl)))))

  seed_settled :
      (argv : List Bytes) (r : Result ℕ (Seeder.Args m))
      → LoopLaw (λ a. a.path) IsSeeding argv Seeder.first_args r
      → ParseLaw (λ a. a.path) IsSeeding argv (Seeder.with_path r)
  seed_settled argv (err c) l = l
  seed_settled argv (ok a) l =
      given-ParseLaw (λ a. a.path) IsSeeding argv Seeder.first_args (ok a) refl l

  -- The poll interval is positive, and a timeout is not negative.
  abbrev pub IsWaiting : Waiter.Args m → Type 0
  IsWaiting a = (0 < a.poll_ms) × IsTimeout m a.timeout

  timeout-TurnLaw :
      (s : Bytes) (v : Option Bytes) (a : Waiter.Args m) (t : Option m.F64)
      → IsWaiting a
      → TurnLaw (λ a. a.path) IsWaiting s v a (Waiter.with_timeout t a)
  timeout-TurnLaw s v a none g = inl refl
  timeout-TurnLaw s v a (some t) (g, h) =
      branch-TurnLaw (λ a. a.path) IsWaiting s v a (m.lt_zero t) _ _ (λ e. inl refl)
        (λ e. ((g, e), refl))

  poll-TurnLaw :
      (s : Bytes) (v : Option Bytes) (a : Waiter.Args m) (n : Option ℕ)
      → IsWaiting a
      → TurnLaw (λ a. a.path) IsWaiting s v a (Waiter.with_poll n a)
  poll-TurnLaw s v a none g = inl refl
  poll-TurnLaw s v a (some n) (g, h) =
      branch-TurnLaw (λ a. a.path) IsWaiting s v a (n == 0) _ _ (λ e. inl refl)
        (λ e. ((ground (arith, e), h), refl))

  wait_turn-TurnLaw :
      (s : Bytes) (v : Option Bytes) (a : Waiter.Args m)
      → IsWaiting a
      → TurnLaw (λ a. a.path) IsWaiting s v a (Waiter.arg_turn s v a)
  unfolding Waiter.arg_turn
  wait_turn-TurnLaw s v a g =
      let split = branch-TurnLaw (λ (a : Waiter.Args m). a.path) IsWaiting s v a in
      split (is (text "-t") s) _ _ (λ e. timeout-TurnLaw s v a (and_parse m.parse_f64 v) g)
        (λ e.
          split (is (text "-i") s) _ _ (λ e. poll-TurnLaw s v a (and_parse parse_unsigned v) g)
            (λ e.
              split (is (text "-q") s) _ _ (λ e. (g, inl refl))
                (λ e.
                  rest-TurnLaw (λ (a : Waiter.Args m). a.path) IsWaiting s v a
                    (record a { path = s }) g refl)))

  wait_settled :
      (argv : List Bytes) (r : Result ℕ (Waiter.Args m))
      → LoopLaw (λ a. a.path) IsWaiting argv Waiter.first_args r
      → ParseLaw (λ a. a.path) IsWaiting argv (Waiter.with_path r)
  wait_settled argv (err c) l = l
  wait_settled argv (ok a) l =
      given-ParseLaw (λ a. a.path) IsWaiting argv Waiter.first_args (ok a) refl l

seed_parse-ParseLaw :
    (m : Machine)
    → m.le_zero m.default_interval ≡ false
    → (argv : List Bytes)
    → ParseLaw (λ (a : Seeder.Args m). a.path) IsSeeding argv (Seeder.parse argv)
unfolding Seeder.parse
seed_parse-ParseLaw m d argv =
    seed_settled argv (parse_loop Seeder.arg_turn argv Seeder.first_args) (
      loop-LoopLaw (λ a. a.path) IsSeeding Seeder.arg_turn seed_turn-TurnLaw argv Seeder.first_args
        (omega arith, omega arith, d))

wait_parse-ParseLaw :
    (m : Machine) (argv : List Bytes)
    → ParseLaw (λ (a : Waiter.Args m). a.path) IsWaiting argv (Waiter.parse argv)
unfolding Waiter.parse
wait_parse-ParseLaw m argv = wait_settled argv (parse_loop Waiter.arg_turn argv Waiter.first_args) (
    loop-LoopLaw (λ a. a.path) IsWaiting Waiter.arg_turn wait_turn-TurnLaw argv Waiter.first_args
      (omega arith, tt))

-- What the `parse` functions of p11rand-read, p11rand-seed and p11rand-wait make of any command
-- line, where the default interval is not at most 0: either they accept it, and then the
-- module's path is its last argument, is not empty and does not begin with a dash, the number of
-- bytes to read is -1 or positive, the number of bytes to seed is from 1 to 4096, the seeding
-- interval is not at most 0, the poll interval is positive and a timeout is not negative; or
-- they refuse it, with code 2, or with code 0 if an argument asks for help.
pub parse-ParseLaw :
    (m : Machine) (argv : List Bytes)
    → m.le_zero m.default_interval ≡ false
    → ParseLaw (λ (a : Reader.Args). a.path) IsReading argv (Reader.parse argv)
      × ParseLaw (λ (a : Seeder.Args m). a.path) IsSeeding argv (Seeder.parse argv)
      × ParseLaw (λ (a : Waiter.Args m). a.path) IsWaiting argv (Waiter.parse argv)
parse-ParseLaw m argv d =
    (read_parse-ParseLaw argv, seed_parse-ParseLaw m d argv, wait_parse-ParseLaw m argv)

-- For a command line that p11rand-seed accepts, where the default interval is not at most 0, and
-- a buffer of the size that it asks for: the header of RNDADDENTROPY gives that size and eight
-- bits for each byte, and the casts to c_int leave both numbers as they are, and positive.
pub pool_info-Fits :
    (m : Machine) (argv : List Bytes) (a : Seeder.Args m) (buf : Bytes)
    → m.le_zero m.default_interval ≡ false
    → Seeder.parse argv ≡ ok a
    → length buf ≡ a.nbytes
    → let info = Seeder.pool_info a.nbytes buf in
      (info.buf_size ≡ length info.buf)
      × (info.entropy_count ≡ 8 * length info.buf)
      × (0 < info.entropy_count)
      × (info.entropy_count < 2 ^ 31)
unfolding Seeder.pool_info
pool_info-Fits m argv a buf d e l =
    let p =
      subst (ParseLaw (λ (a : Seeder.Args m). a.path) IsSeeding argv) e
        (seed_parse-ParseLaw m d argv) in
    (
      omega (arith, p.0.0, p.0.1, l),
      omega (arith, p.0.0, p.0.1, l),
      omega (arith, p.0.0, p.0.1, l),
      omega (arith, p.0.0, p.0.1, l),
    )
