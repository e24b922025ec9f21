-- ===== src/Examples/Bench.antt =====
-- A machine for the command-line tools on which all the laws hold, and the theorems on them at concrete
-- inputs.
use pkcs11_rand.Base.{
  ℕ, ◌+◌, min, ◌≤◌, ◌≡◌, refl, sym, ap, ◌∙◌, true, false, some, [], ◌∷◌, ◌++◌, map, length, take,
  leb, ◌==◌, arith,
}
use pkcs11_rand.Host.{Bytes}
use pkcs11_rand.Pkcs11.Slots.{SlotList}
use pkcs11_rand.Tools.{Written, wrote, done, Machine, Run}
use pkcs11_rand.Tools.Args.{parse_unsigned}
use pkcs11_rand.Tools.Sent.{WriterLaws}
use pkcs11_rand.Tools.Waited.{ClockLaws}

-- What was printed, and a clock.
pub record Desk : Type 0 where
  pub out : Bytes
  pub clock : ℕ

-- stdout takes seven bytes at most.
abbrev pub seven : Bytes → Desk → Written × Desk
seven buf w = let n = min 7 (length buf) in (wrote n, record w { out = w.out ++ take n buf })

abbrev one_slot : SlotList
one_slot = record { list = some (0 ∷ []); count = 1 }

-- The module counts its calls, and gives that number as its bytes.
abbrev pub bench : Machine
bench = record {
  Module = ℕ;
  World = Desk;
  c_initialize = λ x. (0, x);
  c_finalize = λ x. (0, x);
  c_get_slot_list = λ present l x. ((0, one_slot), x);
  c_get_slot_info = λ slot i x. ((0, i), x);
  c_get_token_info = λ slot i x. ((0, i), x);
  c_open_session = λ slot old x. ((0, 1), x);
  c_close_session = λ sess x. (0, x);
  c_generate_random = λ sess buf n x. ((0, map (λ (b : ℕ). x) buf), x + 1);
  dlopen = λ path w. (true, w);
  dlsym = λ w. (true, w);
  c_get_function_list = λ x. (0, false);
  arrived = λ w. (0, w);
  write = seven;
  open_random = λ w. (true, w);
  write_random = λ buf w. (true, w);
  rnd_add_entropy = λ info w. (done, w);
  rnd_reseed_crng = λ w. (done, w);
  now = λ w. (w.clock, record w { clock = w.clock + 1 });
  sleep = λ n x. x;
  nap = λ n w. record w { clock = w.clock + n };
  F64 = ℕ;
  parse_f64 = parse_unsigned;
  default_interval = 60;
  le_zero = λ t. t == 0;
  lt_zero = λ t. false;
  at_least = λ e t. leb t e;
  from_secs = λ t. t;
}

wrote_inj : {a b : ℕ} → ◌≡◌ {A = Written} (wrote a) (wrote b) → a ≡ b
wrote_inj e = cc

abbrev pub printed : Desk → Bytes
printed w = w.out

abbrev pub uninterrupted : Desk → ℕ
uninterrupted w = 0

seven_takes :
    (buf : Bytes) (w w' : Desk) (n : ℕ)
    → seven buf w ≡ (wrote n, w')
    → (n ≤ length buf)
      × (printed w' ≡ printed w ++ take n buf)
      × (uninterrupted w' ≤ uninterrupted w)
seven_takes buf w w' n e =
    let k : min 7 (length buf) ≡ n = wrote_inj (ap (λ (o : Written × Desk). o.0) e) in
    let v : record w { out = w.out ++ take (min 7 (length buf)) buf } ≡ w' =
      ap (λ (o : Written × Desk). o.1) e in
    (omega (arith, k), ap printed (sym v) ∙ ap (λ n. w.out ++ take n buf) k, omega arith)

pub writer : WriterLaws seven printed uninterrupted
writer = record {
  write_takes = seven_takes;
  write_interrupted = λ buf w w' e. absurd (cc);
  write_fails = λ buf w w' x e. absurd (cc);
}

pub clock : ClockLaws bench (λ w. w.clock)
clock = record {
  reads = λ w. refl;
  goes_on = λ w. omega arith;
  signals_take = λ w. omega arith;
  sleeps = λ n w. omega arith;
}

abbrev pub desk : Desk
desk = record { out = []; clock = 0 }

abbrev pub session : Run bench
session = record { count = 0; mod_state = 5; world = desk }
