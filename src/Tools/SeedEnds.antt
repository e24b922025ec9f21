-- ===== src/Tools/SeedEnds.antt =====
-- The calls that crates/p11rand-tools/src/bin/p11rand-seed.rs makes of the module, in their order.
use pkcs11_rand.Base.{
  ℕ, zero, suc, ◌-◌, min, true, ◌==◌, List, Result, ok, err, Done, replicate, ltb,
}
use pkcs11_rand.Host.{Bytes}
use pkcs11_rand.Tools.{
  Ioctl, done, eperm, refused, Machine, Flow, positive, not_ok, leave, returned,
}
use pkcs11_rand.Tools.Protocol.{
  Phase, unloaded, opened, Lifecycle, Goes, bind-Goes, pure-Goes, leave-Goes, running-Goes,
  branch-Goes, outside-Goes, reset-Goes, watched-Goes, count-Goes, pass-Goes,
}
use pkcs11_rand.Tools.Finished.{finalize-Goes, connect-Goes, generate-Goes, close-Goes}
use pkcs11_rand.Tools.SeedTool.{
  Args, pool_info, sleep_loop, interruptible_sleep, reseeded, reseed, uncredited, credited, insert,
  deal, seed_loop, close, no_device, seed, main, parse, run, tick,
}

module _ {m : Machine} {In : Phase → m.Module → Type 0} (laws : Lifecycle m In) where
  sleep_loop-Goes :
      (p : Phase) (fuel total start : ℕ) → Goes m In p (sleep_loop fuel total start) (λ d. p)
  unfolding sleep_loop
  sleep_loop-Goes p zero total start = running-Goes p (λ d. p)
  sleep_loop-Goes p (suc fuel) total start = bind-Goes (watched-Goes (outside-Goes p m.now)) (λ now.
      branch-Goes (ltb (now - start) total)
        (bind-Goes (count-Goes p) (λ s.
          branch-Goes (s == 0)
            (bind-Goes (watched-Goes (outside-Goes p m.now)) (λ later.
              bind-Goes (watched-Goes (pass-Goes laws p (min (total - (later - start)) tick)))
                (λ d. sleep_loop-Goes p fuel total start)))
            (pure-Goes (λ d. p) tt)))
        (pure-Goes (λ d. p) tt))

  sleep-Goes :
      (p : Phase) (fuel : ℕ) (v : m.F64) → Goes m In p (interruptible_sleep fuel v) (λ d. p)
  unfolding interruptible_sleep
  sleep-Goes p fuel v = branch-Goes (m.le_zero v) (pure-Goes (λ d. p) tt) (
      bind-Goes (watched-Goes (outside-Goes p m.now))
        (λ start. sleep_loop-Goes p fuel (m.from_secs v) start))

  reseed-Goes : (p : Phase) (a : Args m) → Goes m In p (reseed a) (λ a. p)
  unfolding reseed
  reseed-Goes p a = branch-Goes a.no_reseed (pure-Goes (λ a. p) a) (
      bind-Goes (watched-Goes (outside-Goes p m.rnd_reseed_crng))
        (λ r. pure-Goes (λ a. p) (reseeded a r)))

  uncredited-Goes : (p : Phase) (a : Args m) (buf : Bytes) → Goes m In p (uncredited a buf) (λ a. p)
  unfolding uncredited
  uncredited-Goes p a buf =
      bind-Goes (watched-Goes (outside-Goes p (m.write_random buf))) (λ r. pure-Goes (λ a. p) a)

  credited-Goes :
      (p : Phase) (a : Args m) (buf : Bytes) (r : Ioctl) → Goes m In p (credited a buf r) (λ a. p)
  credited-Goes p a buf done = reseed-Goes p a
  credited-Goes p a buf eperm = uncredited-Goes p (record a { no_credit = true }) buf
  credited-Goes p a buf refused = pure-Goes (λ a. p) a

  insert-Goes : (p : Phase) (a : Args m) (buf : Bytes) → Goes m In p (insert a buf) (λ a. p)
  unfolding insert
  insert-Goes p a buf = branch-Goes a.no_credit (uncredited-Goes p a buf) (
      bind-Goes (watched-Goes (outside-Goes p (m.rnd_add_entropy (pool_info a.nbytes buf))))
        (λ r. credited-Goes p a buf r))

  deal-Goes :
      (p : Phase) (a : Args m) (again : Args m → Bytes → Flow m Done) (naps : ℕ) (r : ℕ × Bytes)
      → ((a : Args m) (buf : Bytes) → Goes m In p (again a buf) (λ d. p))
      → Goes m In p (deal a again naps r) (λ d. p)
  unfolding deal
  deal-Goes p a again naps (rv, buf) g =
      branch-Goes (not_ok rv)
        (bind-Goes (count-Goes p) (λ s.
          branch-Goes (positive s) (pure-Goes (λ d. p) tt)
            (bind-Goes (sleep-Goes p naps a.interval) (λ d. g a buf))))
        (bind-Goes (insert-Goes p a buf)
          (λ b. bind-Goes (sleep-Goes p naps b.interval) (λ d. g b buf)))

  seed_loop-Goes :
      (fuel naps sess : ℕ) (a : Args m) (buf : Bytes)
      → Goes m In (opened sess) (seed_loop fuel naps sess a buf) (λ d. opened sess)
  unfolding seed_loop
  seed_loop-Goes zero naps sess a buf = running-Goes (opened sess) (λ d. opened sess)
  seed_loop-Goes (suc fuel) naps sess a buf = bind-Goes (count-Goes (opened sess)) (λ s.
      branch-Goes (s == 0)
        (bind-Goes (watched-Goes (generate-Goes laws sess buf a.nbytes)) (λ r.
          deal-Goes (opened sess) a (seed_loop fuel naps sess) naps r
            (λ a buf. seed_loop-Goes fuel naps sess a buf)))
        (pure-Goes (λ d. opened sess) tt))

  no_device-Goes : (sess : ℕ) → Goes m In (opened sess) (no_device sess) (λ code. unloaded)
  unfolding no_device
  no_device-Goes sess =
      bind-Goes (close-Goes laws sess)
        (λ rv. bind-Goes (finalize-Goes laws) (λ d. leave-Goes 1 (λ code. unloaded)))

  seed-Goes :
      (fuel naps sess : ℕ) (a : Args m)
      → Goes m In (opened sess) (seed fuel naps sess a) (λ code. unloaded)
  unfolding seed close
  seed-Goes fuel naps sess a = bind-Goes (reset-Goes (opened sess)) (λ d.
      bind-Goes (seed_loop-Goes fuel naps sess a (replicate a.nbytes 0)) (λ d.
        bind-Goes
          (bind-Goes (watched-Goes (close-Goes laws sess))
            (λ rv. watched-Goes (finalize-Goes laws)))
          (λ d. pure-Goes (λ code. unloaded) 0)))

  seed_main-Goes :
      (fuel naps : ℕ) (a : Args m) → Goes m In unloaded (main fuel naps a) (λ code. unloaded)
  unfolding main
  seed_main-Goes fuel naps a = bind-Goes (connect-Goes laws a.path) (λ sess.
      bind-Goes (outside-Goes (opened sess) m.open_random)
        (λ there. branch-Goes there (seed-Goes fuel naps sess a) (no_device-Goes sess)))

  parsed :
      (fuel naps : ℕ) (r : Result ℕ (Args m))
      → Goes m In unloaded
          (elim r [ err c ↦ leave (returned c) | ok a ↦ main fuel naps a ])
          (λ code. unloaded)
  parsed fuel naps (err c) = leave-Goes c (λ code. unloaded)
  parsed fuel naps (ok a) = seed_main-Goes fuel naps a

  pub seed_run-Goes :
      (fuel naps : ℕ) (argv : List Bytes)
      → Goes m In unloaded (run fuel naps argv) (λ code. unloaded)
  unfolding run
  seed_run-Goes fuel naps argv = parsed fuel naps (parse argv)
