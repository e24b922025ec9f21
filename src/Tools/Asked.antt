-- ===== src/Tools/Asked.antt =====
-- A record of what crates/p11rand-tools/src/bin/p11rand-seed.rs asks of the world outside the module, and
-- the order that its requests to the kernel's RNG keep.
use pkcs11_rand.Base.{
  Result, err, ◌⊎◌, inl, inr, ℕ, ◌≡◌, refl, Bool, true, false, Option, none, some, List, [], ◌∷◌,
  ◌∙◌, ap,
}
use pkcs11_rand.Tools.{Ended, exited, Ioctl, Machine, Run}
use pkcs11_rand.Tools.Asking.{Others}
use pkcs11_rand.Tools.Requests.{
  Stage, between, owing, after_credit, after_reseed, Closed, Permitted,
}
use pkcs11_rand.Tools.Requesting.{main-Settled}
use pkcs11_rand.Tools.SeedTool.{Args, main}

-- RNDADDENTROPY and RNDRESEEDCRNG with the kernel's answer, a moment where signals may arrive, and all
-- else.
pub data Event : Type 0 where
  add_entropy reseed_crng : Ioctl → Event
  signals_looked_for : Event
  other : Event

-- Once the stage between two insertions has `no_credit`, no RNDADDENTROPY is in order, and
-- RNDRESEEDCRNG is in order only where it is owed, and then nothing else is but signals.
abbrev pub step : Event → Stage → Option Stage
step (add_entropy r) (between true n) = none
step (add_entropy r) (between false n) = some (after_credit n r)
step (add_entropy r) owing = none
step (reseed_crng r) (between c n) = none
step (reseed_crng r) owing = some (after_reseed r)
step signals_looked_for p = some p
step other (between c n) = some (between c n)
step other owing = none

abbrev stepped : Event → Option Stage → Option Stage
stepped e none = none
stepped e (some p) = step e p

-- Where a record, its latest event first, leads from a stage, if its events are in order.
abbrev pub reached : Stage → List Event → Option Stage
reached p [] = some p
reached p (e ∷ es) = stepped e (reached p es)

pub record Recorded (W : Type 0) : Type 0 where
  pub inner : W
  pub events : List Event

abbrev noted : {W A : Type 0} → (A → Event) → (W → A × W) → Recorded W → A × Recorded W
noted e f w = let (a, v) = f w.inner in (a, record { inner = v; events = e a ∷ w.events })

-- The machine `m` with a record of its events.
abbrev pub recorded : Machine → Machine
recorded m = record {
  Module = m.Module;
  World = Recorded m.World;
  c_initialize = m.c_initialize;
  c_finalize = m.c_finalize;
  c_get_slot_list = m.c_get_slot_list;
  c_get_slot_info = m.c_get_slot_info;
  c_get_token_info = m.c_get_token_info;
  c_open_session = m.c_open_session;
  c_close_session = m.c_close_session;
  c_generate_random = m.c_generate_random;
  dlopen = λ path. noted (λ b. other) (m.dlopen path);
  dlsym = noted (λ b. other) m.dlsym;
  c_get_function_list = m.c_get_function_list;
  arrived = noted (λ n. signals_looked_for) m.arrived;
  write = λ buf. noted (λ r. other) (m.write buf);
  open_random = noted (λ b. other) m.open_random;
  write_random = λ buf. noted (λ b. other) (m.write_random buf);
  rnd_add_entropy = λ info. noted add_entropy (m.rnd_add_entropy info);
  rnd_reseed_crng = noted reseed_crng m.rnd_reseed_crng;
  now = noted (λ n. other) m.now;
  sleep = m.sleep;
  nap = λ n w. record { inner = m.nap n w.inner; events = other ∷ w.events };
  F64 = m.F64;
  parse_f64 = m.parse_f64;
  default_interval = m.default_interval;
  le_zero = m.le_zero;
  lt_zero = m.lt_zero;
  at_least = m.at_least;
  from_secs = m.from_secs;
}

module _ (m : Machine) (start : Stage) where
  abbrev IsAt : Stage → Recorded m.World → Type 0
  IsAt p w = reached start w.events ≡ some p

  next :
      (e : Event) (p q : Stage) (es : List Event)
      → step e p ≡ some q
      → reached start es ≡ some p
      → reached start (e ∷ es) ≡ some q
  next e p q es h i = ap (stepped e) i ∙ h

  other_kept : (c r : Bool) → Others (recorded m) (Closed (recorded m) IsAt) (IsAt (between c r))
  other_kept c r = record {
    on_dlopen = λ path w i. next other (between c r) (between c r) w.events refl i;
    on_dlsym = λ w i. next other (between c r) (between c r) w.events refl i;
    on_open_random = λ w i. next other (between c r) (between c r) w.events refl i;
    on_write_random = λ buf w i. next other (between c r) (between c r) w.events refl i;
    on_now = λ w i. next other (between c r) (between c r) w.events refl i;
    on_nap = λ n w i. next other (between c r) (between c r) w.events refl i;
    ends = λ e w i. inl (c, r, i);
    signals = record {
      on_arrived = λ w i. next signals_looked_for (between c r) (between c r) w.events refl i;
      strikes = λ w i. inl (c, r, i);
    };
  }

  permitted : Permitted (recorded m) IsAt
  permitted = record {
    on_credit =
        λ r info w i. next (add_entropy _) (between false r) (after_credit r _) w.events refl i;
    on_reseed = λ w i. next (reseed_crng _) owing (after_reseed _) w.events refl i;
    others = other_kept;
    struck_owing = record {
      on_arrived = λ w i. next signals_looked_for owing owing w.events refl i;
      strikes = λ w i. inr (refl, i);
    };
  }

-- The record, from the flags that a run starts with, has its events in order; and nothing is owed,
-- unless the run ended by the second signal.
abbrev pub InOrder : (no_credit no_reseed : Bool) → Result Ended ℕ → List Event → Type 0
InOrder c r end events =
    ((d : Bool) × (t : Bool) × (reached (between c r) events ≡ some (between d t)))
    ⊎ ((end ≡ err (exited 130)) × (reached (between c r) events ≡ some owing))

-- What p11rand-seed requests of the kernel's RNG after its command line was accepted, in a run
-- on any machine and with any answers, however it ends: no RNDADDENTROPY with `--no-credit`, and
-- none after one that was answered with EPERM; no RNDRESEEDCRNG but directly after a
-- RNDADDENTROPY that succeeded, and none with `--no-reseed` or after one that was answered with
-- EPERM. Where RNDADDENTROPY succeeded and none of these holds, RNDRESEEDCRNG follows before
-- anything else but signals, unless the second signal ends the process there.
pub main-InOrder :
    (m : Machine) (fuel naps : ℕ) (a : Args (recorded m)) (s : Run (recorded m))
    → s.world.events ≡ []
    → let o = main fuel naps a s in InOrder a.no_credit a.no_reseed o.0 o.1.world.events
main-InOrder m fuel naps a s e =
    let start = between a.no_credit a.no_reseed in
    main-Settled (permitted m start) fuel naps a s (ap (reached start) e)
