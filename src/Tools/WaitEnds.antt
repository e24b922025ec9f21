-- ===== src/Tools/WaitEnds.antt =====
-- The calls that crates/p11rand-tools/src/bin/p11rand-wait.rs and p11rand-test.rs make of the module, in
-- their order.
use pkcs11_rand.Base.{
  ℕ, zero, suc, ◌-◌, ◌*◌, Bool, true, false, ◌==◌, Option, none, some, List, [], ◌∷◌, Result, ok,
  err, Done, get_or, take, replicate, ltb, if◌then◌else◌,
}
use pkcs11_rand.Host.{Bytes}
use pkcs11_rand.Pkcs11.Slots.{SlotList}
use pkcs11_rand.Tools.{Machine, positive, not_ok, pure, leave, returned}
use pkcs11_rand.Tools.Connect.{ck_true, empty_list, room, listed}
use pkcs11_rand.Tools.Protocol.{
  Phase, unloaded, ready, opened, after_initialize, after_open, Lifecycle, Goes, bind-Goes,
  pure-Goes, leave-Goes, running-Goes, exit-Goes, branch-Goes, call-Goes, outside-Goes, reset-Goes,
  watched-Goes, count-Goes, pass-Goes,
}
use pkcs11_rand.Tools.Finished.{load_lem, initialize-Goes, finalize-Goes, list-Goes, close-Goes}
use pkcs11_rand.Tools.WaitTool as Waiter
use pkcs11_rand.Tools.TestTool as Tester

module _ {m : Machine} {In : Phase → m.Module → Type 0} (laws : Lifecycle m In) where
  timed_out-Goes :
      (p : Phase) (t : Option m.F64) (start : ℕ) → Goes m In p (Waiter.timed_out t start) (λ b. p)
  unfolding Waiter.timed_out
  timed_out-Goes p none start = pure-Goes (λ b. p) false
  timed_out-Goes p (some t) start =
      bind-Goes (watched-Goes (outside-Goes p m.now))
        (λ now. pure-Goes (λ b. p) (m.at_least (now - start) t))

  wait_loop-Goes :
      (fuel : ℕ) (a : Waiter.Args m) (start : ℕ)
      → Goes m In ready (Waiter.wait_loop fuel a start) (λ code. ready)
  unfolding Waiter.wait_loop
  wait_loop-Goes zero a start = running-Goes ready (λ code. ready)
  wait_loop-Goes (suc fuel) a start =
      bind-Goes (watched-Goes (list-Goes laws ck_true empty_list)) (λ r.
        branch-Goes (Waiter.usable r) (pure-Goes (λ code. ready) 0) (
          bind-Goes (count-Goes ready) (λ s.
            branch-Goes (positive s) (pure-Goes (λ code. ready) 1) (
              bind-Goes (timed_out-Goes ready a.timeout start) (λ b.
                branch-Goes b (pure-Goes (λ code. ready) 1) (
                  bind-Goes (watched-Goes (pass-Goes laws ready (a.poll_ms * 1000000)))
                    (λ d. wait_loop-Goes fuel a start)))))))

  wait_main-Goes :
      (fuel : ℕ) (a : Waiter.Args m) → Goes m In unloaded (Waiter.main fuel a) (λ code. unloaded)
  unfolding Waiter.main
  wait_main-Goes fuel a = bind-Goes (load_lem laws a.path) (λ d.
      bind-Goes (initialize-Goes laws) (λ d. bind-Goes (reset-Goes ready) (λ d.
        bind-Goes (watched-Goes (outside-Goes ready m.now)) (λ start.
          bind-Goes (wait_loop-Goes fuel a start) (λ code.
            bind-Goes (watched-Goes (finalize-Goes laws))
              (λ d. pure-Goes (λ code. unloaded) code))))))

  parsed :
      (fuel : ℕ) (r : Result ℕ (Waiter.Args m))
      → Goes m In unloaded
          (elim r [ err c ↦ leave (returned c) | ok a ↦ Waiter.main fuel a ])
          (λ code. unloaded)
  parsed fuel (err c) = leave-Goes c (λ code. unloaded)
  parsed fuel (ok a) = wait_main-Goes fuel a

  pub wait_run-Goes :
      (fuel : ℕ) (argv : List Bytes) → Goes m In unloaded (Waiter.run fuel argv) (λ code. unloaded)
  unfolding Waiter.run
  wait_run-Goes fuel argv = parsed fuel (Waiter.parse argv)

  die-Goes : {A : Type 0} (p : Phase) (q : A → Phase) → Goes m In p Tester.die q
  unfolding Tester.die
  die-Goes p q = exit-Goes 2 p q

  -- A call that must succeed leaves the phase as it is.
  must-Goes :
      {A : Type 0} (p : Phase) (f : m.Module → (ℕ × A) × m.Module)
      → ((x : m.Module) → In p x → In p (f x).1)
      → Goes m In p (Tester.must f) (λ a. p)
  unfolding Tester.must
  must-Goes p f keeps =
      bind-Goes (call-Goes f (λ r. p) keeps)
        (λ r. branch-Goes (not_ok r.0) (die-Goes p (λ a. p)) (pure-Goes (λ a. p) r.1))

  must_list-Goes :
      (present : ℕ) (l : SlotList)
      → Goes m In ready (Tester.must (m.c_get_slot_list present l)) (λ l. ready)
  must_list-Goes present l = must-Goes ready (m.c_get_slot_list present l) (laws.on_list present l)

  must_start :
      (b : Bool) (d : Done)
      → Goes m In (if b then unloaded else ready) (if b then Tester.die else pure d) (λ d. ready)
  must_start true d = die-Goes unloaded (λ d. ready)
  must_start false d = pure-Goes (λ d. ready) d

  must_initialize-Goes :
      Goes m In unloaded (Tester.must (λ x. Tester.must_init (m.c_initialize x))) (λ d. ready)
  unfolding Tester.must
  must_initialize-Goes =
      bind-Goes
        (call-Goes (λ x. Tester.must_init (m.c_initialize x)) (λ r. after_initialize r.0)
          laws.on_initialize)
        (λ r. must_start (not_ok r.0) r.1)

  must_session :
      (b : Bool) (sess : ℕ)
      → Goes m In (if b then ready else opened sess) (if b then Tester.die else pure sess) opened
  must_session true sess = die-Goes ready opened
  must_session false sess = pure-Goes opened sess

  must_open-Goes : (slot : ℕ) → Goes m In ready (Tester.must (m.c_open_session slot 0)) opened
  unfolding Tester.must
  must_open-Goes slot =
      bind-Goes (call-Goes (m.c_open_session slot 0) after_open (laws.on_open slot 0))
        (λ r. must_session (not_ok r.0) r.1)

  show_readers-Goes : (slots : List ℕ) → Goes m In ready (Tester.show_readers slots) (λ d. ready)
  unfolding Tester.show_readers
  show_readers-Goes [] = pure-Goes (λ d. ready) tt
  show_readers-Goes (slot ∷ slots) =
      bind-Goes
        (call-Goes (m.c_get_slot_info slot Tester.no_slot_info) (λ r. ready)
          (laws.on_slot_info slot Tester.no_slot_info))
        (λ r. show_readers-Goes slots)

  all_readers-Goes : (n : ℕ) → Goes m In ready (Tester.all_readers n) (λ slots. ready)
  unfolding Tester.all_readers
  all_readers-Goes n =
      branch-Goes (ltb 0 n)
        (bind-Goes (must_list-Goes Tester.ck_false (room n))
          (λ r. pure-Goes (λ slots. ready) (take r.count (listed r.list))))
        (pure-Goes (λ slots. ready) [])

  pick-Goes : (n : ℕ) → Goes m In ready (Tester.pick n) (λ slot. ready)
  unfolding Tester.pick Tester.no_token
  pick-Goes n =
      branch-Goes (n == 0) (bind-Goes (finalize-Goes laws) (λ d. leave-Goes 3 (λ slot. ready))) (
        bind-Goes (must_list-Goes ck_true (room n))
          (λ r. pure-Goes (λ slot. ready) (get_or (listed r.list) 0 0)))

  pub test_main-Goes :
      (argv : List Bytes) → Goes m In unloaded (Tester.main argv) (λ code. unloaded)
  unfolding Tester.main
  test_main-Goes [] = leave-Goes 1 (λ code. unloaded)
  test_main-Goes (path ∷ rest) =
      let n = Tester.byte_count rest in
      bind-Goes (load_lem laws path) (λ d. bind-Goes must_initialize-Goes (λ d.
        bind-Goes (must_list-Goes Tester.ck_false empty_list) (λ sized.
          bind-Goes (all_readers-Goes sized.count) (λ slots.
            bind-Goes (show_readers-Goes slots) (λ d.
              bind-Goes (must_list-Goes ck_true empty_list) (λ present.
                bind-Goes (pick-Goes present.count) (λ picked.
                  bind-Goes (must_open-Goes picked) (λ sess.
                    bind-Goes
                      (call-Goes (m.c_get_token_info picked Tester.no_token_info) (λ r. opened sess)
                        (laws.on_token_info sess picked Tester.no_token_info))
                      (λ info.
                        bind-Goes
                          (must-Goes (opened sess) (m.c_generate_random sess (replicate n 0) n)
                            (laws.on_generate sess (replicate n 0) n))
                          (λ buf. bind-Goes (close-Goes laws sess) (λ rv.
                            bind-Goes (finalize-Goes laws)
                              (λ d. pure-Goes (λ code. unloaded) 0))))))))))))
