-- ===== src/Tools/Requesting.antt =====
-- p11rand-seed (crates/p11rand-tools/src/bin) keeps to what is permitted to it.
use pkcs11_rand.Base.{◌≡◌, ap, ◌⊎◌, inl, inr, ℕ, zero, suc, ◌==◌, replicate, Result, ok, err, Done}
use pkcs11_rand.Host.{Bytes}
use pkcs11_rand.Tools.{Machine, Run, Flow, Ended, exited, positive, not_ok, returned, running}
use pkcs11_rand.Tools.Asking.{
  Lands, Asks, bind-Asks, pure-Asks, weaken-Asks, branch-Asks, call-Asks, outside-Asks, reset-Asks,
  leave-Asks, watched-Asks, count-Asks,
}
use pkcs11_rand.Tools.Approach.{connect-Asks, finalize-Asks}
use pkcs11_rand.Tools.SeedTool.{Args, deal, seed_loop, close, no_device, seed, main}
use pkcs11_rand.Tools.Requests.{
  owing, Closed, Stage, between, Between, Permitted, Flagged, keeps, anywhere, anywhere_of,
  sleep-Asks, insert-Asks,
}

-- A run that has ended, or is out of fuel: nothing is owed, unless the second signal ended it.
abbrev pub Settled : (m : Machine) → (Stage → m.World → Type 0) → Result Ended ℕ × Run m → Type 0
Settled m In (r, s) = Between m In s.world ⊎ ((r ≡ err (exited 130)) × In owing s.world)

module _ {m : Machine} {In : Stage → m.World → Type 0} (laws : Permitted m In) where
  deal-Asks :
      (a : Args m) (again : Args m → Bytes → Flow m Done) (naps : ℕ) (r : ℕ × Bytes)
      → ((a : Args m) (buf : Bytes)
          → Asks m (Closed m In) (Flagged m In a) (again a buf) (λ d. Between m In))
      → Asks m (Closed m In) (Flagged m In a) (deal a again naps r) (λ d. Between m In)
  unfolding deal
  deal-Asks a again naps (rv, buf) g =
      branch-Asks (not_ok rv)
        (λ e. bind-Asks (count-Asks (keeps laws a).signals) (λ s.
          branch-Asks (positive s) (λ e. weaken-Asks (λ d. Between m In) tt (anywhere_of laws a))
            (λ e. bind-Asks (sleep-Asks laws (keeps laws a) naps a.interval) (λ d. g a buf))))
        (λ e.
          bind-Asks (insert-Asks laws a buf)
            (λ b. bind-Asks (sleep-Asks laws (keeps laws b) naps b.interval) (λ d. g b buf)))

  seed_loop-Asks :
      (fuel naps sess : ℕ) (a : Args m) (buf : Bytes)
      → Asks m (Closed m In) (Flagged m In a) (seed_loop fuel naps sess a buf) (λ d. Between m In)
  unfolding seed_loop
  seed_loop-Asks zero naps sess a buf = leave-Asks (keeps laws a) running (λ d. Between m In)
  seed_loop-Asks (suc fuel) naps sess a buf = bind-Asks (count-Asks (keeps laws a).signals) (λ s.
      branch-Asks (s == 0)
        (λ e.
          bind-Asks
            (watched-Asks (keeps laws a).signals
              (call-Asks (Flagged m In a) (m.c_generate_random sess buf a.nbytes)))
            (λ r.
              deal-Asks a (seed_loop fuel naps sess) naps r
                (λ a buf. seed_loop-Asks fuel naps sess a buf)))
        (λ e. weaken-Asks (λ d. Between m In) tt (anywhere_of laws a)))

  no_device-Asks :
      (a : Args m) (sess : ℕ)
      → Asks m (Closed m In) (Flagged m In a) (no_device sess) (λ code. Between m In)
  unfolding no_device
  no_device-Asks a sess = bind-Asks (call-Asks (Flagged m In a) (m.c_close_session sess)) (λ rv.
      bind-Asks (finalize-Asks (keeps laws a))
        (λ d. leave-Asks (keeps laws a) (returned 1) (λ code. Between m In)))

  seed-Asks :
      (fuel naps sess : ℕ) (a : Args m)
      → Asks m (Closed m In) (Flagged m In a) (seed fuel naps sess a) (λ code. Between m In)
  unfolding seed close
  seed-Asks fuel naps sess a = bind-Asks (reset-Asks (Flagged m In a)) (λ d.
      bind-Asks (seed_loop-Asks fuel naps sess a (replicate a.nbytes 0)) (λ d.
        bind-Asks
          (bind-Asks
            (watched-Asks (anywhere laws).signals
              (call-Asks (Between m In) (m.c_close_session sess)))
            (λ rv. watched-Asks (anywhere laws).signals (finalize-Asks (anywhere laws))))
          (λ d. pure-Asks (λ code. Between m In) 0)))

  main-Asks :
      (fuel naps : ℕ) (a : Args m)
      → Asks m (Closed m In) (Flagged m In a) (main fuel naps a) (λ code. Between m In)
  unfolding main
  main-Asks fuel naps a = bind-Asks (connect-Asks (keeps laws a) a.path) (λ sess.
      bind-Asks (outside-Asks m.open_random (λ b. Flagged m In a) (keeps laws a).on_open_random)
        (λ there. branch-Asks there (λ e. seed-Asks fuel naps sess a) (λ e. no_device-Asks a sess)))

  landed :
      (o : Result Ended ℕ × Run m) → Lands m (Closed m In) (λ code. Between m In) o → Settled m In o
  landed (ok code, s) i = inl i
  landed (err e, s) (inl i) = inl i
  landed (err e, s) (inr (q, i)) = inr (ap err q, i)

  pub main-Settled :
      (fuel naps : ℕ) (a : Args m) (s : Run m)
      → In (between a.no_credit a.no_reseed) s.world
      → Settled m In (main fuel naps a s)
  unfolding Flagged
  main-Settled fuel naps a s i = landed (main fuel naps a s) ((main-Asks fuel naps a).moves s i)
