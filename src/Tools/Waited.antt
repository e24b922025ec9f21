-- ===== src/Tools/Waited.antt =====
-- How the loop of crates/p11rand-tools/src/bin/p11rand-wait.rs ends when there is a timeout.
use pkcs11_rand.Base.{
  ℕ, zero, suc, ◌+◌, ◌-◌, ◌*◌, ◌≤◌, ◌<◌, ◌≡◌, ◌≢◌, refl, sym, ap, ◌∙◌, Bool, true, false, some,
  arith, if◌then◌else◌,
}
use pkcs11_rand.Pkcs11.Slots.{SlotList}
use pkcs11_rand.Tools.{
  Machine, Run, Flow, positive, pure, call, outside, pass, ◌>>=◌, watched, signal_count,
}
use pkcs11_rand.Tools.Connect.{ck_true, empty_list}
use pkcs11_rand.Tools.Steps.{Ends, Quiet, bind-Ends, branch-Ends, watched-Ends, count-Ends}
use pkcs11_rand.Tools.WaitTool.{Args, usable, timed_out, wait_loop}

-- The clock is monotonic, and a sleep takes its time.
pub record ClockLaws (m : Machine) (clock : m.World → ℕ) : Type 0 where
  pub reads : (w : m.World) → (m.now w).0 ≡ clock w
  pub goes_on : (w : m.World) → clock w ≤ clock (m.now w).1
  pub signals_take : (w : m.World) → clock w ≤ clock (m.arrived w).1
  pub sleeps : (n : ℕ) (w : m.World) → clock w + n ≤ clock (m.nap n w)

-- A time of `limit` or more is at least `t`. No limit does for a NaN or for infinity.
abbrev pub IsLimit : (m : Machine) → m.F64 → ℕ → Type 0
IsLimit m t limit = (e : ℕ) → limit ≤ e → m.at_least e t ≡ true

-- Code 0: the last call of the module, and there was none after it, found a usable slot. Code 1: there
-- was a signal; or the time was up.
pub data Waited (m : Machine) (t : m.F64) (start : ℕ) (code : ℕ) (s : Run m) : Type 0 where
  found :
      (x : m.Module)
      → code ≡ 0
      → usable (m.c_get_slot_list ck_true empty_list x).0 ≡ true
      → s.mod_state ≡ (m.c_get_slot_list ck_true empty_list x).1
      → Waited m t start code s
  signalled : code ≡ 1 → s.count ≢ 0 → Waited m t start code s
  late :
      (w : m.World)
      → code ≡ 1
      → m.at_least ((m.now w).0 - start) t ≡ true
      → s.world ≡ (m.now w).1
      → Waited m t start code s

positive-nonzero : (c : ℕ) → positive c ≡ true → c ≢ 0
positive-nonzero c e z = ground (arith, e, z)

module _ {m : Machine} (clock : m.World → ℕ) (laws : ClockLaws m clock) (args : Args m) (t : m.F64)
    (limit : ℕ) (finite : IsLimit m t limit) (start : ℕ) where
  abbrev a : Args m
  a = record args { timeout = some t }

  abbrev Later : m.World → m.World → Type 0
  Later w w' = clock w ≤ clock w'

  abbrev W : ℕ → Run m → Type 0
  W code s = Waited m t start code s

  still_time : (w : m.World) → m.at_least ((m.now w).0 - start) t ≡ false → clock w < start + limit
  still_time w e = ground (arith, e, laws.reads w, finite ((m.now w).0 - start))

  module _ (fuel : ℕ) (again : Flow m ℕ)
      (ih : (s : Run m) → start + limit - clock s.world < fuel → Ends W (again s)) where
    nap-Ends :
        (c : ℕ) (s : Run m)
        → 0 < a.poll_ms
        → c ≤ clock s.world
        → c < start + limit
        → start + limit - c < suc fuel
        → Ends W ((watched (pass (a.poll_ms * 1000000)) >>= λ d. again) s)
    unfolding pass
    nap-Ends c s p g u f =
        bind-Ends (λ d s'. clock s.world + a.poll_ms * 1000000 ≤ clock s'.world) W
          (watched (pass (a.poll_ms * 1000000))) (λ d. again) s
          (watched-Ends Later laws.signals_take _ (pass (a.poll_ms * 1000000)) s
            (λ s' q. omega (arith, q.1, laws.sleeps (a.poll_ms * 1000000) s'.world)))
          (λ d s' q. ih s' (omega (arith, q, p, g, u, f)))

    -- Whether the time is up, by a look at the clock in the world `w`.
    abbrev Looked : Run m → Bool → Run m → Type 0
    Looked s b s' =
        (w : m.World) × (b ≡ m.at_least ((m.now w).0 - start) t)
        × (s'.world ≡ (m.now w).1)
        × (clock s.world ≤ clock w)

    looks : (s : Run m) → Ends (Looked s) (timed_out (some t) start s)
    unfolding timed_out pure outside
    looks s =
        bind-Ends
          (λ now s'.
            (w : m.World) × (now ≡ (m.now w).0)
            × (s'.world ≡ (m.now w).1)
            × (clock s.world ≤ clock w))
          (Looked s) (watched (outside m.now)) (λ now. pure (m.at_least (now - start) t)) s
          (watched-Ends Later laws.signals_take _ (outside m.now) s
            (λ s' q. (s'.world, refl, refl, q.1)))
          (λ now s' (w, e, f, g). (w, ap (λ n. m.at_least (n - start) t) e, f, g))

    late-Ends :
        (s : Run m)
        → 0 < a.poll_ms
        → start + limit - clock s.world < suc fuel
        → Ends W (
            (timed_out (some t) start >>= λ (b : Bool).
            if b then pure 1 else (watched (pass (a.poll_ms * 1000000)) >>= λ d. again))
              s)
    unfolding pure
    late-Ends s p f =
        bind-Ends (Looked s) W (timed_out (some t) start) _ s (looks s) (λ b s' (w, e, v, g).
          branch-Ends W b (pure 1) _ s' (λ q. late w refl (sym e ∙ q) v)
            (λ q.
              let u = still_time w (sym e ∙ q) in
              let k : clock w ≤ clock s'.world = omega (arith, laws.goes_on w, ap clock v) in
              nap-Ends (clock w) s' p k u (omega (arith, g, f))))

    -- One turn.
    turn-Ends :
        (s : Run m)
        → 0 < a.poll_ms
        → start + limit - clock s.world < suc fuel
        → (answer : ℕ × SlotList) (x : m.Module)
        → answer ≡ (m.c_get_slot_list ck_true empty_list x).0
        → s.mod_state ≡ (m.c_get_slot_list ck_true empty_list x).1
        → Ends W (
            (if usable answer
                then pure 0
                else (signal_count >>= λ (n : ℕ).
                    if positive n
                    then pure 1
                    else (timed_out (some t) start >>= λ (b : Bool).
                        if b
                        then pure 1
                        else (watched (pass (a.poll_ms * 1000000)) >>= λ d. again))))
              s)
    unfolding pure
    turn-Ends s p f answer x e g =
        branch-Ends W (usable answer) (pure 0) _ s (λ q. found x refl (ap usable (sym e) ∙ q) g)
          (λ q.
            bind-Ends (λ n s'. (n ≡ s'.count) × Quiet Later s s') W signal_count _ s
              (count-Ends Later laws.signals_take s)
              (λ n s' k.
                branch-Ends W (positive n) (pure 1) _ s'
                  (λ z. signalled refl (λ y. positive-nonzero n z (k.0 ∙ y)))
                  (λ z. late-Ends s' p (omega (arith, k.1.1, f)))))

  loop-Ends :
      (fuel : ℕ) (s : Run m)
      → 0 < a.poll_ms
      → start + limit - clock s.world < fuel
      → Ends W (wait_loop fuel a start s)
  unfolding wait_loop call
  loop-Ends zero s p f = absurd (omega arith)
  loop-Ends (suc fuel) s p f =
      bind-Ends
        (λ r s'.
          (x : m.Module) × (r ≡ (m.c_get_slot_list ck_true empty_list x).0)
          × (s'.mod_state ≡ (m.c_get_slot_list ck_true empty_list x).1)
          × (clock s.world ≤ clock s'.world))
        W (watched (call (m.c_get_slot_list ck_true empty_list))) _ s
        (watched-Ends Later laws.signals_take _ (call (m.c_get_slot_list ck_true empty_list)) s
          (λ s' q. (s'.mod_state, refl, refl, q.1)))
        (λ r s' (x, e, g, k).
          turn-Ends fuel (wait_loop fuel a start) (λ s f. loop-Ends fuel s p f) s' p
            (omega (arith, k, f)) r x e g)

  -- The loop of p11rand-wait with a finite timeout and a positive poll interval, on a clock
  -- that goes on at least as far as each sleep asks: as many turns are enough as nanoseconds
  -- are left up to a time that is at least the timeout. It ends by the second signal; or with
  -- code 0, directly after a call that found a usable slot; or with code 1, and then a signal
  -- was counted, or the clock showed that the time was up.
  pub wait_loop-Waited :
      (fuel : ℕ) (s : Run m)
      → 0 < args.poll_ms
      → start + limit - clock s.world < fuel
      → Ends
          (λ code s'. Waited m t start code s')
          (wait_loop fuel (record args { timeout = some t }) start s)
  wait_loop-Waited fuel s p f = loop-Ends fuel s p f
