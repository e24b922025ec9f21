-- ===== src/Tools/Requests.antt =====
-- The requests that crates/p11rand-tools/src/bin/p11rand-seed.rs makes of the kernel's RNG, and when.
use pkcs11_rand.Base.{
  ◌⊎◌, inl, ℕ, zero, suc, ◌-◌, min, ◌≡◌, refl, sym, Bool, true, false, ◌==◌, ltb,
}
use mathlib.Core.Path.{subst}
use pkcs11_rand.Host.{Bytes}
use pkcs11_rand.Tools.{
  Ended, exited, Ioctl, done, eperm, refused, RandPoolInfo, Machine, pure, running,
}
use pkcs11_rand.Tools.Asking.{
  Signals, given-Asks, Asks, Others, bind-Asks, pure-Asks, weaken-Asks, branch-Asks, outside-Asks,
  leave-Asks, watched-Asks, count-Asks, pass-Asks, now-Asks,
}
use pkcs11_rand.Tools.SeedTool.{
  Args, pool_info, sleep_loop, interruptible_sleep, reseeded, reseed, uncredited, credited, insert,
  tick,
}

-- Between two insertions, with the two flags `no_credit` and `no_reseed`; and after entropy was credited,
-- where a reseed has to follow.
pub data Stage : Type 0 where
  between : (no_credit no_reseed : Bool) → Stage
  owing : Stage

-- Where an answer to RNDADDENTROPY and one to RNDRESEEDCRNG lead to.
abbrev pub after_credit : Bool → Ioctl → Stage
after_credit true done = between false true
after_credit false done = owing
after_credit r eperm = between true r
after_credit r refused = between false r

abbrev pub after_reseed : Ioctl → Stage
after_reseed done = between false false
after_reseed eperm = between false true
after_reseed refused = between false false

module _ (m : Machine) (In : Stage → m.World → Type 0) where
  -- Between two insertions, whatever the flags.
  abbrev pub Between : m.World → Type 0
  Between w = (c : Bool) × (r : Bool) × In (between c r) w

  -- How a run may end: between two insertions; or by the second signal, where a reseed has to follow.
  abbrev pub Closed : Ended → m.World → Type 0
  Closed e w = Between w ⊎ ((e ≡ exited 130) × In owing w)

  -- How the requests and their answers move the world from stage to stage; all else keeps it between two
  -- insertions.
  pub record Permitted : Type 0 where
    pub on_credit :
        (r : Bool) (info : RandPoolInfo) (w : m.World)
        → In (between false r) w
        → In (after_credit r (m.rnd_add_entropy info w).0) (m.rnd_add_entropy info w).1
    pub on_reseed :
        (w : m.World)
        → In owing w
        → In (after_reseed (m.rnd_reseed_crng w).0) (m.rnd_reseed_crng w).1
    pub others : (c r : Bool) → Others m Closed (In (between c r))
    pub struck_owing : Signals m Closed (In owing)

  unfoldable pub Flagged : Args m → m.World → Type 0
  Flagged a = In (between a.no_credit a.no_reseed)

module _ {m : Machine} {In : Stage → m.World → Type 0} (laws : Permitted m In) where
  pub keeps : (a : Args m) → Others m (Closed m In) (Flagged m In a)
  unfolding Flagged
  keeps a = laws.others a.no_credit a.no_reseed

  pub anywhere : Others m (Closed m In) (Between m In)
  anywhere = record {
    on_dlopen = λ path w (c, r, i). (c, r, (laws.others c r).on_dlopen path w i);
    on_dlsym = λ w (c, r, i). (c, r, (laws.others c r).on_dlsym w i);
    on_open_random = λ w (c, r, i). (c, r, (laws.others c r).on_open_random w i);
    on_write_random = λ buf w (c, r, i). (c, r, (laws.others c r).on_write_random buf w i);
    on_now = λ w (c, r, i). (c, r, (laws.others c r).on_now w i);
    on_nap = λ n w (c, r, i). (c, r, (laws.others c r).on_nap n w i);
    ends = λ e w i. inl i;
    signals = record {
      on_arrived = λ w (c, r, i). (c, r, (laws.others c r).signals.on_arrived w i);
      strikes = λ w i. inl i;
    };
  }

  module _ {p : m.World → Type 0} (o : Others m (Closed m In) p) where
    sleep_loop-Asks :
        (fuel total start : ℕ) → Asks m (Closed m In) p (sleep_loop fuel total start) (λ d. p)
    unfolding sleep_loop
    sleep_loop-Asks zero total start = leave-Asks o running (λ d. p)
    sleep_loop-Asks (suc fuel) total start = bind-Asks (now-Asks o) (λ now.
        branch-Asks (ltb (now - start) total)
          (λ e. bind-Asks (count-Asks o.signals) (λ s.
            branch-Asks (s == 0)
              (λ e. bind-Asks (now-Asks o) (λ later.
                bind-Asks
                  (watched-Asks o.signals (pass-Asks o (min (total - (later - start)) tick)))
                  (λ d. sleep_loop-Asks fuel total start)))
              (λ e. pure-Asks (λ d. p) tt)))
          (λ e. pure-Asks (λ d. p) tt))

    pub sleep-Asks :
        (fuel : ℕ) (v : m.F64) → Asks m (Closed m In) p (interruptible_sleep fuel v) (λ d. p)
    unfolding interruptible_sleep
    sleep-Asks fuel v =
        branch-Asks (m.le_zero v) (λ e. pure-Asks (λ d. p) tt)
          (λ e. bind-Asks (now-Asks o) (λ start. sleep_loop-Asks fuel (m.from_secs v) start))

  moved : {c d r t : Bool} (w : m.World) → c ≡ d → r ≡ t → In (between c r) w → In (between d t) w
  moved {d = d} {r = r} w e f i =
      subst (λ (b : Bool). In (between d b) w) f (subst (λ (b : Bool). In (between b r) w) e i)

  reseeded-Asks :
      (a : Args m) (r : Ioctl)
      → a.no_credit ≡ false
      → a.no_reseed ≡ false
      → Asks m (Closed m In) (In (after_reseed r)) (pure (reseeded a r)) (Flagged m In)
  unfolding Flagged
  reseeded-Asks a done c e = weaken-Asks (Flagged m In) a (λ w i. moved w (sym c) (sym e) i)
  reseeded-Asks a eperm c e =
      weaken-Asks (Flagged m In) (record a { no_reseed = true }) (λ w i. moved w (sym c) refl i)
  reseeded-Asks a refused c e = weaken-Asks (Flagged m In) a (λ w i. moved w (sym c) (sym e) i)

  pub anywhere_of : (a : Args m) (w : m.World) → Flagged m In a w → Between m In w
  unfolding Flagged
  anywhere_of a w i = (a.no_credit, a.no_reseed, i)

  reseed-Asks :
      (a : Args m)
      → a.no_credit ≡ false
      → Asks m (Closed m In) (In (after_credit a.no_reseed done)) (reseed a) (Flagged m In)
  unfolding reseed Flagged
  reseed-Asks a c =
      branch-Asks a.no_reseed
        (λ e.
          weaken-Asks (Flagged m In) a
            (λ w i. moved w (sym c) (sym e) (subst (λ (b : Bool). In (after_credit b done) w) e i)))
        (λ e.
          given-Asks (λ w i. subst (λ (b : Bool). In (after_credit b done) w) e i)
            (bind-Asks
              (watched-Asks laws.struck_owing
                (outside-Asks m.rnd_reseed_crng (λ r. In (after_reseed r)) laws.on_reseed))
              (λ r. reseeded-Asks a r c e)))

  uncredited-Asks :
      (a : Args m) (buf : Bytes)
      → Asks m (Closed m In) (Flagged m In a) (uncredited a buf) (Flagged m In)
  unfolding uncredited
  uncredited-Asks a buf =
      bind-Asks
        (watched-Asks (keeps a).signals
          (outside-Asks (m.write_random buf) (λ r. Flagged m In a) ((keeps a).on_write_random buf)))
        (λ r. pure-Asks (Flagged m In) a)

  credited-Asks :
      (a : Args m) (buf : Bytes) (r : Ioctl)
      → a.no_credit ≡ false
      → Asks m (Closed m In) (In (after_credit a.no_reseed r)) (credited a buf r) (Flagged m In)
  unfolding Flagged
  credited-Asks a buf done c = reseed-Asks a c
  credited-Asks a buf eperm c = uncredited-Asks (record a { no_credit = true }) buf
  credited-Asks a buf refused c = weaken-Asks (Flagged m In) a (λ w i. moved w (sym c) refl i)

  pub insert-Asks :
      (a : Args m) (buf : Bytes)
      → Asks m (Closed m In) (Flagged m In a) (insert a buf) (Flagged m In)
  unfolding insert Flagged
  insert-Asks a buf =
      branch-Asks a.no_credit (λ e. uncredited-Asks a buf)
        (λ e.
          bind-Asks
            (watched-Asks (keeps a).signals (
              outside-Asks (m.rnd_add_entropy (pool_info a.nbytes buf))
                (λ r. In (after_credit a.no_reseed r))
                (λ w i. laws.on_credit a.no_reseed (pool_info a.nbytes buf) w (moved w e refl i))))
            (λ r. credited-Asks a buf r e))
