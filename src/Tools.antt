-- ===== src/Tools.antt =====
-- crates/p11rand-tools: what the command-line tools stand on, and the signal counter and the module
-- loader of crates/p11rand-tools/src/lib.rs.
pub mod Trim
pub mod Write
pub mod Sent
pub mod Hex
pub mod Args
pub mod Connect
pub mod Protocol
pub mod Finished
pub mod ReadEnds
pub mod SeedEnds
pub mod WaitEnds
pub mod P11rand
pub mod Clean
pub mod Steps
pub mod Asking
pub mod Approach
pub mod Requests
pub mod Requesting
pub mod Asked
pub mod Delivered
pub mod Handed
pub mod Dealt
pub mod Delivering
pub mod Waited
pub mod Strikes
pub mod Parsed
pub mod Reading
pub mod Parsing
pub mod Tallied
pub mod Inventory
pub mod ReadTool
pub mod SeedTool
pub mod WaitTool
pub mod TestTool
pub mod ListTool
use pkcs11_rand.Base.{
  ℕ, zero, suc, ◌+◌, ◌%◌, ◌^◌, Bool, true, false, not, ◌&&◌, ◌||◌, Option, Result, ok, err, Act,
  Done, and_then, ltb, ◌==◌, if◌then◌else◌,
}
use pkcs11_rand.Host.{Bytes}
use pkcs11_rand.Config.{text}
use pkcs11_rand.Pkcs11.Slots.{SlotList, SlotInfo, TokenInfo}

-- `std::io::Error`, with the kinds that the tools tell apart. `spent` is no error of the code: a loop
-- of the model ran out of fuel.
pub data IoError : Type 0 where
  broken_pipe write_zero other_kind spent : IoError

-- One `write(2)` through Rust's stdout.
pub data Written : Type 0 where
  wrote : ℕ → Written
  interrupted : Written
  failed : IoError → Written

-- An `ioctl(2)` on /dev/random.
pub data Ioctl : Type 0 where
  done eperm refused : Ioctl

-- `RandPoolInfoHeader` of crates/p11rand-tools/src/bin/p11rand-seed.rs with the bytes behind it. The
-- two numbers are the bit patterns of a c_int.
pub record RandPoolInfo : Type 0 where
  pub entropy_count : ℕ
  pub buf_size : ℕ
  pub buf : Bytes

-- The module behind its function pointers, with all that it uses, and the rest of the machine. Each
-- call gives the return code, the caller's memory and the module after it.
pub record Machine : Type 1 where
  pub Module : Type 0
  pub World : Type 0
  pub c_initialize : Module → ℕ × Module
  pub c_finalize : Module → ℕ × Module
  pub c_get_slot_list : ℕ → SlotList → Module → (ℕ × SlotList) × Module
  pub c_get_slot_info : ℕ → SlotInfo → Module → (ℕ × SlotInfo) × Module
  pub c_get_token_info : ℕ → TokenInfo → Module → (ℕ × TokenInfo) × Module
  pub c_open_session : ℕ → ℕ → Module → (ℕ × ℕ) × Module
  pub c_close_session : ℕ → Module → ℕ × Module
  pub c_generate_random : ℕ → Bytes → ℕ → Module → (ℕ × Bytes) × Module
  -- `Library::new`, `Library::get`, and the call of `C_GetFunctionList`: the code, and whether the
  -- pointer that it leaves is null.
  pub dlopen : Bytes → World → Bool × World
  pub dlsym : World → Bool × World
  pub c_get_function_list : Module → ℕ × Bool
  -- How many signals were delivered since the last look.
  pub arrived : World → ℕ × World
  pub write : Bytes → World → Written × World
  pub open_random : World → Bool × World
  pub write_random : Bytes → World → Bool × World
  pub rnd_add_entropy : RandPoolInfo → World → Ioctl × World
  pub rnd_reseed_crng : World → Ioctl × World
  -- A monotonic clock in nanoseconds, and a sleep, during which devices may come and go.
  pub now : World → ℕ × World
  pub sleep : ℕ → Module → Module
  pub nap : ℕ → World → World
  -- `f64`, as far as the tools use it: parsing, its comparisons with 0 and with a duration, and
  -- `Duration::from_secs_f64`.
  pub F64 : Type 0
  pub parse_f64 : Bytes → Option F64
  pub default_interval : F64
  pub le_zero : F64 → Bool
  pub lt_zero : F64 → Bool
  pub at_least : ℕ → F64 → Bool
  pub from_secs : F64 → ℕ

-- How a process ends: `main` returns its code, or `exit` is called before that; or not yet.
pub data Ended : Type 0 where
  returned : ℕ → Ended
  exited : ℕ → Ended
  running : Ended

-- `SIGNAL_COUNT`, the bit pattern of an i32, and what the process works on.
pub record Run (m : Machine) : Type 0 where
  pub count : ℕ
  pub mod_state : m.Module
  pub world : m.World

abbrev pub Flow : Machine → Type 0 → Type 0
Flow m A = Act (Run m) Ended A

-- `n > 0`, for an i32.
abbrev pub positive : ℕ → Bool
positive n = ltb 0 n && ltb n (2 ^ 31)

abbrev pub not_ok : ℕ → Bool
not_ok rv = not (rv == 0)

module _ {m : Machine} where
  infixl 10 ◌>>=◌
  unfoldable pub ◌>>=◌ : {A B : Type 0} → Flow m A → (A → Flow m B) → Flow m B
  ◌>>=◌ f k s = let (r, s') = f s in and_then r k s'

  unfoldable pub pure : {A : Type 0} → A → Flow m A
  pure a s = (ok a, s)

  -- An early `return` of main, and `exit`.
  unfoldable pub leave : {A : Type 0} → Ended → Flow m A
  leave e s = (err e, s)

  -- A call through the function list.
  unfoldable pub call : {A : Type 0} → (m.Module → A × m.Module) → Flow m A
  call f s = let (a, x) = f s.mod_state in (ok a, record s { mod_state = x })

  unfoldable pub outside : {A : Type 0} → (m.World → A × m.World) → Flow m A
  outside f s = let (a, w) = f s.world in (ok a, record s { world = w })

  -- A sleep of so many nanoseconds.
  unfoldable pub pass : ℕ → Flow m Done
  pass n s = (ok tt, record s { mod_state = m.sleep n s.mod_state; world = m.nap n s.world })

  unfoldable pub signal_reset : Flow m Done
  signal_reset s = (ok tt, record s { count = 0 })

  unfoldable pub handle_signal : Flow m Done
  handle_signal s =
      let s' = record s { count = (s.count + 1) % 2 ^ 32 } in
      if positive s.count then (err (exited 130), s') else (ok tt, s')

  unfoldable pub handle_signals : ℕ → Flow m Done
  unfolding ◌>>=◌ pure
  handle_signals zero = pure tt
  handle_signals (suc n) = handle_signal >>= λ _. handle_signals n

  -- The handler runs for what has arrived.
  unfoldable pub deliver : Flow m Done
  unfolding ◌>>=◌ outside
  deliver = outside m.arrived >>= handle_signals

  -- Once the handler is installed, signals may come before any step.
  unfoldable pub watched : {A : Type 0} → Flow m A → Flow m A
  unfolding ◌>>=◌ deliver
  watched f = deliver >>= λ _. f

  unfoldable pub signal_count : Flow m ℕ
  signal_count = watched (λ s. (ok s.count, s))

  -- Whether the module is there. The message of a failure goes to stderr.
  unfoldable pub load_module : Bytes → Flow m Bool
  load_module path s =
      let (lib, w) = m.dlopen path s.world in
      let (sym, v) = m.dlsym w in
      let (rv, null) = m.c_get_function_list s.mod_state in
      if not lib
      then (ok false, record s { world = w })
      else (ok (sym && not (not_ok rv || null)), record s { world = v })
