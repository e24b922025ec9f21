-- ===== src/Debug/Steady.antt =====
-- What callers of `enabled` in crates/p11rand-core/src/debug.rs are told.
use mathlib.Core.Path.{subst}
use pkcs11_rand.Base.{
  ℕ, zero, suc, ◌≡◌, refl, sym, ◌∙◌, Bool, true, false, some, List, [], ◌∷◌, get_elem?, replicate,
  some_inj, ◌⊎◌, ◌≢◌, Option-cases, inl, inr,
}
use pkcs11_rand.Debug.{
  Switch, Call, swapping, looking, storing, loading, answered, enabled, Calls, step, interleaved,
  fresh,
}
use pkcs11_rand.Debug.Phased.{
  switched, IsCalm, Phased, untouched, under_way, settled, rewritten, interleaved-Phased,
}

-- Of the calls that stood at `old` when the switch had got its value `b`: one that was answered later got
-- `b`; any other answer is an earlier `false`.
abbrev IsSince : List Call → Bool → ℕ → Call → Type 0
IsSince old b j swapping = Unit {0}
IsSince old b j looking = ⊥
IsSince old b j storing = ⊥
IsSince old b j loading = Unit {0}
IsSince old b j (answered a) = (a ≡ b) ⊎ ((a ≡ false) × (get_elem? old j ≡ some (answered false)))

record SinceAll (old : List Call) (b : Bool) (k : Calls) : Type 0 where
  switch : k.1 ≡ switched b
  calls : (j : ℕ) (c : Call) → get_elem? k.0 j ≡ some c → IsSince old b j c

since_step :
    (env b : Bool) (old : List Call) (j : ℕ) (c : Call)
    → IsSince old b j c
    → let o = enabled env c (switched b) in IsSince old b j o.0 × (o.1 ≡ switched b)
unfolding enabled
since_step env b old j swapping v = (tt, refl)
since_step env b old j looking v = absurd v
since_step env b old j storing v = absurd v
since_step env b old j loading v = (inl refl, refl)
since_step env b old j (answered a) v = (v, refl)

step-SinceAll :
    (env : Bool) (i : ℕ) (old : List Call) (b : Bool) (cs : List Call)
    → SinceAll old b (cs, switched b)
    → SinceAll old b (step env i (cs, switched b))
unfolding step
step-SinceAll env i old b cs v = elim (Option-cases (get_elem? cs i)) [
  | inl e ↦ rw (e, step) v
  | inr (c, e) ↦
      let o = since_step env b old i c (v.calls i c e) in
      rw (e, step)
        (record {
          switch = o.1;
          calls = rewritten (IsSince old b) cs i c _ e o.0 (λ j d n q. v.calls j d q);
        })
]

interleaved-SinceAll :
    (later : List (Bool × ℕ)) (old : List Call) (b : Bool) (cs : List Call) (s : Switch)
    → s ≡ switched b
    → SinceAll old b (cs, s)
    → SinceAll old b (interleaved later (cs, s))
unfolding interleaved
interleaved-SinceAll [] old b cs s e v = v
interleaved-SinceAll ((env, i) ∷ later) old b cs s e v =
    let w : SinceAll old b (step env i (cs, s)) =
      subst (λ (s : Switch). SinceAll old b (step env i (cs, s))) (sym e)
        (step-SinceAll env i old b cs (subst (λ (s : Switch). SinceAll old b (cs, s)) e v)) in
    let k = step env i (cs, s) in interleaved-SinceAll later old b k.0 k.1 w.switch w

-- The environment has been looked at, and its value is stored.
pub record IsSteady (b : Bool) (k : Calls) : Type 0 where
  pub switch : k.1 ≡ switched b
  pub over : (j : ℕ) (c : Call) → get_elem? k.0 j ≡ some c → (c ≢ looking) × (c ≢ storing)

off_answer :
    (cs : List Call) (b : Bool) (j : ℕ) (c : Call)
    → get_elem? cs j ≡ some c
    → IsCalm b c
    → IsSince cs b j c
off_answer cs b j swapping e v = tt
off_answer cs b j looking e v = v
off_answer cs b j storing e v = v
off_answer cs b j loading e v = tt
off_answer cs b j (answered true) e v = inl (sym (v refl))
off_answer cs b j (answered false) e v = inr (refl, e)

phased-SinceAll : (b : Bool) (k : Calls) → Phased k → IsSteady b k → SinceAll k.0 b k
phased-SinceAll b k (untouched cs f) v = let e = v.switch in absurd (cc)
phased-SinceAll b k (under_way cs i c g e f) v =
    absurd (elim e [ inl q ↦ (v.over i c g).0 q | inr q ↦ (v.over i c g).1 q ])
phased-SinceAll b k (settled cs d f) v =
    let same : d ≡ b = let e = v.switch in cc in
    record {
      switch = v.switch;
      calls = λ j c g. off_answer cs b j c g (subst (λ (x : Bool). IsCalm x c) same (f j c g));
    }

fresh_call : (n j : ℕ) (c : Call) → get_elem? (replicate n swapping) j ≡ some c → c ≡ swapping
fresh_call zero j c e = absurd (cc)
fresh_call (suc n) zero c e = sym (some_inj e)
fresh_call (suc n) (suc j) c e = fresh_call n j c e

-- What comes after the switch has got its value `b` in `k`.
pub record Steady (b : Bool) (k k' : Calls) : Type 0 where
  pub switch : k'.1 ≡ k.1
  pub answers :
      (j : ℕ) (a : Bool)
      → get_elem? k'.0 j ≡ some (answered a)
      → (a ≡ b) ⊎ ((a ≡ false) × (get_elem? k.0 j ≡ some (answered false)))

-- For any number of calls of `enabled` whose accesses to the two atomics interleave in any
-- order, from the start of the process on: once the first of them has looked at the environment
-- and stored what follows, the switch never changes again, whatever becomes of the environment,
-- and every answer is the switch's, but for a `false` that was given before.
pub answers-Steady :
    (n : ℕ) (order later : List (Bool × ℕ)) (b : Bool)
    → IsSteady b (interleaved order (fresh n))
    → Steady b (interleaved order (fresh n)) (interleaved later (interleaved order (fresh n)))
answers-Steady n order later b v =
    let k = interleaved order (fresh n) in
    let p = interleaved-Phased order (fresh n) (untouched (replicate n swapping) (fresh_call n)) in
    let w = interleaved-SinceAll later k.0 b k.0 k.1 v.switch (phased-SinceAll b k p v) in
    record { switch = w.switch ∙ sym v.switch; answers = λ j a e. w.calls j (answered a) e }
