-- ===== src/Tools/Protocol.antt =====
-- The order in which the tools of crates/p11rand-tools call a module: the phases of a loaded module, and
-- rules for the flows that move it from one to another.
use pkcs11_rand.Base.{
  ℕ, zero, suc, Bool, true, false, not, Result, ok, err, Done, and_then, if◌then◌else◌,
}
use pkcs11_rand.Host.{Bytes}
use pkcs11_rand.Pkcs11.Slots.{SlotList, SlotInfo, TokenInfo}
use pkcs11_rand.Tools.{
  Machine, Run, Flow, Ended, returned, exited, running, positive, not_ok, ◌>>=◌, pure, leave, call,
  outside, signal_reset, pass, handle_signal, handle_signals, deliver, watched, signal_count,
  load_module,
}

-- Not initialized; initialized; initialized, with the session that a handle names.
pub data Phase : Type 0 where
  unloaded ready : Phase
  opened : ℕ → Phase

abbrev pub after_initialize : ℕ → Phase
after_initialize rv = if not_ok rv then unloaded else ready

abbrev pub after_open : ℕ × ℕ → Phase
after_open (rv, sess) = if not_ok rv then ready else opened sess

-- How a module's calls move it through the phases.
pub record Lifecycle (m : Machine) (In : Phase → m.Module → Type 0) : Type 0 where
  pub on_initialize :
      (x : m.Module)
      → In unloaded x
      → In (after_initialize (m.c_initialize x).0) (m.c_initialize x).1
  pub on_finalize : (x : m.Module) → In ready x → In unloaded (m.c_finalize x).1
  pub on_list :
      (present : ℕ) (l : SlotList) (x : m.Module)
      → In ready x
      → In ready (m.c_get_slot_list present l x).1
  pub on_slot_info :
      (slot : ℕ) (i : SlotInfo) (x : m.Module)
      → In ready x
      → In ready (m.c_get_slot_info slot i x).1
  pub on_token_info :
      (sess slot : ℕ) (i : TokenInfo) (x : m.Module)
      → In (opened sess) x
      → In (opened sess) (m.c_get_token_info slot i x).1
  pub on_open :
      (slot old : ℕ) (x : m.Module)
      → In ready x
      → In (after_open (m.c_open_session slot old x).0) (m.c_open_session slot old x).1
  pub on_close :
      (sess : ℕ) (x : m.Module) → In (opened sess) x → In ready (m.c_close_session sess x).1
  pub on_generate :
      (sess : ℕ) (buf : Bytes) (n : ℕ) (x : m.Module)
      → In (opened sess) x
      → In (opened sess) (m.c_generate_random sess buf n x).1
  pub on_sleep : (p : Phase) (n : ℕ) (x : m.Module) → In p x → In p (m.sleep n x)

module _ (m : Machine) (In : Phase → m.Module → Type 0) where
  -- A process whose `main` returned has finalized the module.
  abbrev pub Finished : Ended → Run m → Type 0
  Finished (returned code) s = In unloaded s.mod_state
  Finished (exited code) s = Done
  Finished running s = Done

  abbrev pub Arrives : {A : Type 0} → (A → Phase) → Result Ended A × Run m → Type 0
  Arrives q (ok a, s) = In (q a) s.mod_state
  Arrives q (err e, s) = Finished e s

  -- From the phase `p` the flow comes to the phase that `q` names, or it ends the process rightly.
  pub record Goes {A : Type 0} (p : Phase) (f : Flow m A) (q : A → Phase) : Type 0 where
    pub moves : (s : Run m) → In p s.mod_state → Arrives q (f s)

  struck :
      (b : Bool) (p : Phase) (s : Run m)
      → In p s.mod_state
      → Arrives (λ (d : Done). p) (if b then (err (exited 130), s) else (ok tt, s))
  struck true p s i = tt
  struck false p s i = i

  loads :
      (b c : Bool) (p : Phase) (s : Run m) (w v : m.World)
      → In p s.mod_state
      → Arrives
          (λ (d : Bool). p)
          (if b then (ok false, record s { world = w }) else (ok c, record s { world = v }))
  loads true c p s w v i = i
  loads false c p s w v i = i

module _ {m : Machine} {In : Phase → m.Module → Type 0} where
  pub bind-Goes :
      {A B : Type 0} {p : Phase} {f : Flow m A} {q : A → Phase} {k : A → Flow m B} {r : B → Phase}
      → Goes m In p f q
      → ((a : A) → Goes m In (q a) (k a) r)
      → Goes m In p (f >>= k) r
  unfolding ◌>>=◌
  bind-Goes {A} {B} {p = p} {f = f} {q = q} {k = k} {r = r} g h = record {
    moves = λ s i. rest (f s) (g.moves s i);
  }
    where
      rest : (o : Result Ended A × Run m) → Arrives m In q o → Arrives m In r (and_then o.0 k o.1)
      rest (ok a, s) v = (h a).moves s v
      rest (err e, s) v = v

  pub pure-Goes : {A : Type 0} (q : A → Phase) (a : A) → Goes m In (q a) (pure a) q
  unfolding pure
  pure-Goes q a = record { moves = λ s i. i }

  -- `main` may return only when the module is finalized.
  pub leave-Goes :
      {A : Type 0} (code : ℕ) (q : A → Phase) → Goes m In unloaded (leave (returned code)) q
  unfolding leave
  leave-Goes code q = record { moves = λ s i. i }

  pub running-Goes : {A : Type 0} (p : Phase) (q : A → Phase) → Goes m In p (leave running) q
  unfolding leave
  running-Goes p q = record { moves = λ s i. tt }

  pub exit-Goes :
      {A : Type 0} (code : ℕ) (p : Phase) (q : A → Phase) → Goes m In p (leave (exited code)) q
  unfolding leave
  exit-Goes code p q = record { moves = λ s i. tt }

  pub branch-Goes :
      {A : Type 0} {p : Phase} {f g : Flow m A} {q : A → Phase} (b : Bool)
      → Goes m In p f q
      → Goes m In p g q
      → Goes m In p (if b then f else g) q
  branch-Goes true f g = f
  branch-Goes false f g = g

  pub call-Goes :
      {A : Type 0} {p : Phase} (f : m.Module → A × m.Module) (q : A → Phase)
      → ((x : m.Module) → In p x → In (q (f x).0) (f x).1)
      → Goes m In p (call f) q
  unfolding call
  call-Goes f q h = record { moves = λ s i. h s.mod_state i }

  pub outside-Goes :
      {A : Type 0} (p : Phase) (f : m.World → A × m.World) → Goes m In p (outside f) (λ a. p)
  unfolding outside
  outside-Goes p f = record { moves = λ s i. i }

  pub reset-Goes : (p : Phase) → Goes m In p signal_reset (λ d. p)
  unfolding signal_reset
  reset-Goes p = record { moves = λ s i. i }

  handle-Goes : (p : Phase) → Goes m In p handle_signal (λ d. p)
  unfolding handle_signal
  handle-Goes p = record { moves = λ s i. struck m In (positive s.count) p _ i }

  handles-Goes : (p : Phase) (n : ℕ) → Goes m In p (handle_signals n) (λ d. p)
  unfolding handle_signals
  handles-Goes p zero = pure-Goes (λ d. p) tt
  handles-Goes p (suc n) = bind-Goes (handle-Goes p) (λ d. handles-Goes p n)

  deliver-Goes : (p : Phase) → Goes m In p deliver (λ d. p)
  unfolding deliver
  deliver-Goes p = bind-Goes (outside-Goes p m.arrived) (λ n. handles-Goes p n)

  pub watched-Goes :
      {A : Type 0} {p : Phase} {f : Flow m A} {q : A → Phase}
      → Goes m In p f q
      → Goes m In p (watched f) q
  unfolding watched
  watched-Goes {p = p} g = bind-Goes (deliver-Goes p) (λ d. g)

  pub count-Goes : (p : Phase) → Goes m In p signal_count (λ n. p)
  unfolding signal_count
  count-Goes p = watched-Goes (record { moves = λ s i. i })

  pub pass-Goes : Lifecycle m In → (p : Phase) (n : ℕ) → Goes m In p (pass n) (λ d. p)
  unfolding pass
  pass-Goes laws p n = record { moves = λ s i. laws.on_sleep p n s.mod_state i }

  pub load-Goes : (p : Phase) (path : Bytes) → Goes m In p (load_module path) (λ b. p)
  unfolding load_module
  load-Goes p path = record {
    moves = λ s i. loads m In (not (m.dlopen path s.world).0) _ p s _ _ i;
  }
