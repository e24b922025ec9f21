-- ===== src/Tools/Asking.antt =====
-- What the flows of crates/p11rand-tools ask of the world outside the module: rules for a predicate on it
-- that all of them but some requests preserve.
use pkcs11_rand.Base.{
  ℕ, zero, suc, ◌≡◌, Bool, true, false, Result, ok, err, Done, and_then, refl, if◌then◌else◌,
}
use pkcs11_rand.Host.{Bytes}
use pkcs11_rand.Tools.{
  Machine, Run, Flow, Ended, exited, positive, ◌>>=◌, pure, leave, call, outside, signal_reset,
  pass, handle_signal, handle_signals, deliver, watched, signal_count,
}

module _ (m : Machine) (E : Ended → m.World → Type 0) where
  abbrev pub Lands : {A : Type 0} → (A → m.World → Type 0) → Result Ended A × Run m → Type 0
  Lands q (ok a, s) = q a s.world
  Lands q (err e, s) = E e s.world

  -- From a world where `p` holds the flow comes to one where `q` does, or it ends the process where `E`
  -- holds.
  pub record Asks {A : Type 0} (p : m.World → Type 0) (f : Flow m A) (q : A → m.World → Type 0)
      : Type 0 where
    pub moves : (s : Run m) → p s.world → Lands q (f s)

  -- What is preserved when signals arrive, and is enough to end by the second of them.
  pub record Signals (p : m.World → Type 0) : Type 0 where
    pub on_arrived : (w : m.World) → p w → p (m.arrived w).1
    pub strikes : (w : m.World) → p w → E (exited 130) w

  -- What is preserved by all that a tool does besides its requests to the kernel's RNG, and is enough to
  -- end the process.
  pub record Others (p : m.World → Type 0) : Type 0 where
    pub on_dlopen : (path : Bytes) (w : m.World) → p w → p (m.dlopen path w).1
    pub on_dlsym : (w : m.World) → p w → p (m.dlsym w).1
    pub on_open_random : (w : m.World) → p w → p (m.open_random w).1
    pub on_write_random : (buf : Bytes) (w : m.World) → p w → p (m.write_random buf w).1
    pub on_now : (w : m.World) → p w → p (m.now w).1
    pub on_nap : (n : ℕ) (w : m.World) → p w → p (m.nap n w)
    pub ends : (e : Ended) (w : m.World) → p w → E e w
    pub signals : Signals p

  struck :
      (b : Bool) (p : m.World → Type 0) (s : Run m)
      → Signals p
      → p s.world
      → Lands (λ (d : Done). p) (if b then (err (exited 130), s) else (ok tt, s))
  struck true p s o i = o.strikes s.world i
  struck false p s o i = i

  pub loads :
      (b c : Bool) (p : m.World → Type 0) (s : Run m) (w v : m.World)
      → p w
      → p v
      → Lands
          (λ (d : Bool). p)
          (if b then (ok false, record s { world = w }) else (ok c, record s { world = v }))
  loads true c p s w v i j = i
  loads false c p s w v i j = j

module _ {m : Machine} {E : Ended → m.World → Type 0} where
  pub bind-Asks :
      {A B : Type 0} {p : m.World → Type 0} {f : Flow m A} {q : A → m.World → Type 0}
      {k : A → Flow m B} {r : B → m.World → Type 0}
      → Asks m E p f q
      → ((a : A) → Asks m E (q a) (k a) r)
      → Asks m E p (f >>= k) r
  unfolding ◌>>=◌
  bind-Asks {A} {B} {p = p} {f = f} {q = q} {k = k} {r = r} g h = record {
    moves = λ s i. rest (f s) (g.moves s i);
  }
    where
      rest : (o : Result Ended A × Run m) → Lands m E q o → Lands m E r (and_then o.0 k o.1)
      rest (ok a, s) v = (h a).moves s v
      rest (err e, s) v = v

  pub pure-Asks : {A : Type 0} (q : A → m.World → Type 0) (a : A) → Asks m E (q a) (pure a) q
  unfolding pure
  pure-Asks q a = record { moves = λ s i. i }

  pub weaken-Asks :
      {A : Type 0} {p : m.World → Type 0} (q : A → m.World → Type 0) (a : A)
      → ((w : m.World) → p w → q a w)
      → Asks m E p (pure a) q
  unfolding pure
  weaken-Asks q a h = record { moves = λ s i. h s.world i }

  pub branch-Asks :
      {A : Type 0} {p : m.World → Type 0} {f g : Flow m A} {q : A → m.World → Type 0} (b : Bool)
      → (b ≡ true → Asks m E p f q)
      → (b ≡ false → Asks m E p g q)
      → Asks m E p (if b then f else g) q
  branch-Asks true f g = f refl
  branch-Asks false f g = g refl

  pub call-Asks :
      {A : Type 0} (p : m.World → Type 0) (f : m.Module → A × m.Module)
      → Asks m E p (call f) (λ a. p)
  unfolding call
  call-Asks p f = record { moves = λ s i. i }

  pub outside-Asks :
      {A : Type 0} {p : m.World → Type 0} (f : m.World → A × m.World) (q : A → m.World → Type 0)
      → ((w : m.World) → p w → q (f w).0 (f w).1)
      → Asks m E p (outside f) q
  unfolding outside
  outside-Asks f q h = record { moves = λ s i. h s.world i }

  pub reset-Asks : (p : m.World → Type 0) → Asks m E p signal_reset (λ d. p)
  unfolding signal_reset
  reset-Asks p = record { moves = λ s i. i }

  -- What is enough to begin with.
  pub given-Asks :
      {A : Type 0} {p r : m.World → Type 0} {f : Flow m A} {q : A → m.World → Type 0}
      → ((w : m.World) → p w → r w)
      → Asks m E r f q
      → Asks m E p f q
  given-Asks h g = record { moves = λ s i. g.moves s (h s.world i) }

module _ {m : Machine} {E : Ended → m.World → Type 0} {p : m.World → Type 0}
    (o : Signals m E p) where
  handle-Asks : Asks m E p handle_signal (λ d. p)
  unfolding handle_signal
  handle-Asks = record { moves = λ s i. struck m E (positive s.count) p _ o i }

  handles-Asks : (n : ℕ) → Asks m E p (handle_signals n) (λ d. p)
  unfolding handle_signals
  handles-Asks zero = pure-Asks (λ d. p) tt
  handles-Asks (suc n) = bind-Asks handle-Asks (λ d. handles-Asks n)

  deliver-Asks : Asks m E p deliver (λ d. p)
  unfolding deliver
  deliver-Asks = bind-Asks (outside-Asks m.arrived (λ n. p) o.on_arrived) (λ n. handles-Asks n)

  pub watched-Asks :
      {A : Type 0} {f : Flow m A} {q : A → m.World → Type 0}
      → Asks m E p f q
      → Asks m E p (watched f) q
  unfolding watched
  watched-Asks g = bind-Asks deliver-Asks (λ d. g)

  pub count-Asks : Asks m E p signal_count (λ n. p)
  unfolding signal_count
  count-Asks = watched-Asks (record { moves = λ s i. i })

module _ {m : Machine} {E : Ended → m.World → Type 0} {p : m.World → Type 0}
    (o : Others m E p) where
  pub leave-Asks : {A : Type 0} (e : Ended) (q : A → m.World → Type 0) → Asks m E p (leave e) q
  unfolding leave
  leave-Asks e q = record { moves = λ s i. o.ends e s.world i }

  pub pass-Asks : (n : ℕ) → Asks m E p (pass n) (λ d. p)
  unfolding pass
  pass-Asks n = record { moves = λ s i. o.on_nap n s.world i }

  pub now-Asks : Asks m E p (watched (outside m.now)) (λ n. p)
  now-Asks = watched-Asks o.signals (outside-Asks m.now (λ n. p) o.on_now)
