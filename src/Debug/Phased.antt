-- ===== src/Debug/Phased.antt =====
-- How far calls of `enabled` in crates/p11rand-core/src/debug.rs have come.
use mathlib.Core.Path.{subst}
use native.Mathlib.Decide.{ℕ_discrete}
use pkcs11_rand.Base.{
  ℕ, zero, suc, ◌≡◌, refl, sym, ap, ◌∙◌, Bool, true, false, some, List, [], ◌∷◌, get_elem?, set,
  some_inj, ◌⊎◌, ◌≢◌, get_elem?-set_ne, Option-cases, inl, inr,
}
use pkcs11_rand.Debug.{
  Switch, off, Call, swapping, looking, storing, loading, answered, enabled, Calls, step,
  interleaved, moved,
}

abbrev pub switched : Bool → Switch
switched b = record { on = b; checked = true }

-- A call that does not change the switch any more; if it answered `true`, then the switch is on.
abbrev pub IsCalm : Bool → Call → Type 0
IsCalm b swapping = Unit {0}
IsCalm b looking = ⊥
IsCalm b storing = ⊥
IsCalm b loading = Unit {0}
IsCalm b (answered a) = a ≡ true → b ≡ true

-- The call that swapped first.
abbrev pub IsFirst : Call → Type 0
IsFirst c = (c ≡ looking) ⊎ (c ≡ storing)

-- No call has begun; or one is on its way to the load, and the others see the switch off; or the switch
-- has got its value.
pub data Phased : Calls → Type 0 where
  untouched :
      (cs : List Call)
      → ((j : ℕ) (c : Call) → get_elem? cs j ≡ some c → c ≡ swapping)
      → Phased (cs, off)
  under_way :
      (cs : List Call) (i : ℕ) (c : Call)
      → get_elem? cs i ≡ some c
      → IsFirst c
      → ((j : ℕ) (d : Call) → j ≢ i → get_elem? cs j ≡ some d → IsCalm false d)
      → Phased (cs, switched false)
  settled :
      (cs : List Call) (b : Bool)
      → ((j : ℕ) (c : Call) → get_elem? cs j ≡ some c → IsCalm b c)
      → Phased (cs, switched b)

-- A step of a call that is calm.
step-IsCalm :
    (env b : Bool) (c : Call)
    → IsCalm b c
    → let o = enabled env c (switched b) in IsCalm b o.0 × (o.1 ≡ switched b)
unfolding enabled
step-IsCalm env b swapping v = (tt, refl)
step-IsCalm env b looking v = absurd v
step-IsCalm env b storing v = absurd v
step-IsCalm env b loading v = ((λ e. e), refl)
step-IsCalm env b (answered a) v = (v, refl)

written_self :
    (cs : List Call) (i : ℕ) (x c : Call)
    → get_elem? cs i ≡ some x
    → get_elem? (set cs i c) i ≡ some c
written_self [] i x c e = absurd (cc)
written_self (y ∷ cs) zero x c e = refl
written_self (y ∷ cs) (suc i) x c e = written_self cs i x c e

-- One call was written, and the others are as they were.
pub rewritten :
    (P : ℕ → Call → Type 0) (cs : List Call) (i : ℕ) (x c : Call)
    → get_elem? cs i ≡ some x
    → P i c
    → ((j : ℕ) (d : Call) → j ≢ i → get_elem? cs j ≡ some d → P j d)
    → (j : ℕ) (d : Call) → get_elem? (set cs i c) j ≡ some d
    → P j d
rewritten P cs i x c g p f j d e = elim (ℕ_discrete j i) [
  | yes q ↦
      let r : get_elem? (set cs i c) i ≡ some d =
        ap (λ (k : ℕ). get_elem? (set cs i c) k) (sym q) ∙ e in
      subst (λ (k : ℕ). P k d) (sym q)
        (subst (P i) (some_inj (sym (written_self cs i x c g) ∙ r)) p)
  | no n ↦ f j d n (sym (get_elem?-set_ne cs c (λ z. n (sym z))) ∙ e)
]

-- The steps of call `i`, which stands at `c`.
untouched_step :
    (env : Bool) (cs : List Call) (i : ℕ) (c : Call)
    → get_elem? cs i ≡ some c
    → ((j : ℕ) (d : Call) → get_elem? cs j ≡ some d → d ≡ swapping)
    → c ≡ swapping
    → Phased (moved i (cs, off) (enabled env c off))
unfolding enabled
untouched_step env cs i swapping g f e =
    under_way (set cs i looking) i looking (written_self cs i swapping looking g) (inl refl)
      (λ j d n q.
        subst (IsCalm false) (sym (f j d (sym (get_elem?-set_ne cs looking (λ z. n (sym z))) ∙ q)))
          tt)
untouched_step env cs i looking g f e = absurd (cc)
untouched_step env cs i storing g f e = absurd (cc)
untouched_step env cs i loading g f e = absurd (cc)
untouched_step env cs i (answered b) g f e = absurd (cc)

-- A call that saw the switch off is calm whatever the switch becomes.
weaken-IsCalm : (b : Bool) (c : Call) → IsCalm false c → IsCalm b c
weaken-IsCalm b swapping v = tt
weaken-IsCalm b looking v = absurd v
weaken-IsCalm b storing v = absurd v
weaken-IsCalm b loading v = tt
weaken-IsCalm b (answered a) v = λ e. absurd (let z = v e in cc)

first_step :
    (env : Bool) (cs : List Call) (i : ℕ) (c : Call)
    → get_elem? cs i ≡ some c
    → IsFirst c
    → ((j : ℕ) (d : Call) → j ≢ i → get_elem? cs j ≡ some d → IsCalm false d)
    → Phased (moved i (cs, switched false) (enabled env c (switched false)))
unfolding enabled
first_step true cs i looking g e f =
    under_way (set cs i storing) i storing (written_self cs i looking storing g) (inr refl)
      (λ j d n q. f j d n (sym (get_elem?-set_ne cs storing (λ z. n (sym z))) ∙ q))
first_step false cs i looking g e f =
    settled (set cs i loading) false (rewritten (λ j. IsCalm false) cs i looking loading g tt f)
first_step env cs i storing g e f = settled (set cs i loading) true (
    rewritten (λ j. IsCalm true) cs i storing loading g tt
      (λ j d n q. weaken-IsCalm true d (f j d n q)))
first_step env cs i swapping g e f = absurd (elim e [ inl q ↦ cc | inr q ↦ cc ])
first_step env cs i loading g e f = absurd (elim e [ inl q ↦ cc | inr q ↦ cc ])
first_step env cs i (answered b) g e f = absurd (elim e [ inl q ↦ cc | inr q ↦ cc ])

moved-Phased :
    (env : Bool) (i : ℕ) (c : Call) (k : Calls)
    → get_elem? k.0 i ≡ some c
    → Phased k
    → Phased (moved i k (enabled env c k.1))
moved-Phased env i c k g (untouched cs f) = untouched_step env cs i c g f (f i c g)
moved-Phased env i c k g (under_way cs j d q e f) = elim (ℕ_discrete i j) [
  | yes z ↦
      let g' : get_elem? cs i ≡ some d = ap (λ (n : ℕ). get_elem? cs n) z ∙ q in
      subst (λ (x : Call). Phased (moved i (cs, switched false) (enabled env x (switched false))))
        (some_inj (sym g' ∙ g)) (first_step env cs i d g' e (λ n x ne. f n x (λ y. ne (y ∙ sym z))))
  | no n ↦
      let v = step-IsCalm env false c (f i c n g) in
      let o = enabled env c (switched false) in
      subst (λ (s : Switch). Phased (set cs i o.0, s)) (sym v.1)
        (under_way (set cs i o.0) j d (get_elem?-set_ne cs o.0 n ∙ q) e (λ m x ne r.
          rewritten (λ m x. m ≢ j → IsCalm false x) cs i c o.0 g (λ ne. v.0)
            (λ m x ni r ne. f m x ne r) m x r ne))
]
moved-Phased env i c k g (settled cs b f) =
    let v = step-IsCalm env b c (f i c g) in
    let o = enabled env c (switched b) in
    subst (λ (s : Switch). Phased (set cs i o.0, s)) (sym v.1)
      (settled (set cs i o.0) b (rewritten (λ j. IsCalm b) cs i c o.0 g v.0 (λ j d n q. f j d q)))

step-Phased : (env : Bool) (i : ℕ) (k : Calls) → Phased k → Phased (step env i k)
unfolding step
step-Phased env i k p = elim (Option-cases (get_elem? k.0 i)) [
  | inl e ↦ rw (e, step) p
  | inr (c, e) ↦ rw (e, step) (moved-Phased env i c k e p)
]

pub interleaved-Phased :
    (order : List (Bool × ℕ)) (k : Calls) → Phased k → Phased (interleaved order k)
unfolding interleaved
interleaved-Phased [] k p = p
interleaved-Phased ((env, i) ∷ order) k p =
    interleaved-Phased order (step env i k) (step-Phased env i k p)
