-- ===== src/Pool/Workers.antt =====
-- The workers of a tick in `do_round_chain` of pool.rs, in whatever order they run.
use mathlib.Core.Path.{subst}
use pkcs11_rand.Base.{
  ℕ, ◌<◌, ◌≡◌, sym, ap, ◌∙◌, inl, inr, Bool, Bool-cases, false, some, some_inj, Option-cases, List,
  [], ◌∷◌, get_elem?, set, got-set, length, leb, arith, if◌then◌else◌,
}
use pkcs11_rand.Pool.Fetched.{Later, read_slot, Fetched}
use pkcs11_rand.Host.{Bytes, Host, KernelLaws}
use pkcs11_rand.Config.{Config, slot_ticks}
use pkcs11_rand.Pool.{Slot, Live, slot_read}
use pkcs11_rand.Pool.Round.{Tick, joined, work, fan_out, tick_zeros}
use pkcs11_rand.Pool.Safe.{Safe, Safe-trans, read-Safe}

-- The pool with the slots as the workers have left them.
abbrev pub seen : {h : Host} → Live h → Tick h → Live h
seen l k = record l { pool = record l.pool { slots = k.slots }; sys = k.sys }

-- After workers of tick `t` have run: each result is there for a slot that owed it, and is what a read
-- of this slot gave that succeeded, at some time after `l0`.
pub record Worked (h : Host) (cfg : Config) (t : ℕ) (l0 l : Live h) (k : Tick h) : Type 0 where
  pub safe : Safe h cfg l (seen l k)
  pub later : Later h l0 (seen l k)
  pub fetched :
      (i : ℕ) (buf : Bytes)
      → get_elem? k.scratch i ≡ some (some buf)
      → Fetched h l0 i buf × (t < slot_ticks cfg i)

module _ ⦃h : Host⦄ (k : KernelLaws h) (cfg : Config) (l0 l : Live h) where
  joined-Fetched :
      (t i : ℕ) (y : Tick h) (slot : Slot h)
      → Worked h cfg t l0 l y
      → get_elem? y.slots i ≡ some slot
      → leb (slot_ticks cfg i) t ≡ false
      → let x = slot_read slot tick_zeros y.sys in
        length x.buf ≡ 32
        → (j : ℕ) (buf : Bytes) → get_elem? (joined i y x).scratch j ≡ some (some buf)
        → Fetched h l0 j buf × (t < slot_ticks cfg j)
  joined-Fetched t i y slot v e owes len j buf g =
      let x = slot_read slot tick_zeros y.sys in
      elim (Bool-cases x.done) [
        | inl done ↦
            let g' : get_elem? (set y.scratch i (some x.buf)) j ≡ some (some buf) =
              subst
                (λ (b : Bool).
                  get_elem? (if b then set y.scratch i (some x.buf) else y.scratch) j
                  ≡ some (some buf))
                done g in
            elim (got-set y.scratch i j (some x.buf) (some buf) g') [
              | inl (p, q) ↦
                  subst (λ (n : ℕ). Fetched h l0 n buf × (t < slot_ticks cfg n)) (sym p)
                    (
                      record {
                        before = seen l y;
                        later = v.later;
                        slot = slot;
                        at = e;
                        done = done;
                        bytes = some_inj q;
                        len = ap length (sym (some_inj q)) ∙ len;
                      },
                      ground (arith, owes),
                    )
              | inr q ↦ v.fetched j buf q
            ]
        | inr not_done ↦ v.fetched j buf (
            subst
              (λ (b : Bool).
                get_elem? (if b then set y.scratch i (some x.buf) else y.scratch) j
                ≡ some (some buf))
              not_done g)
      ]

  work-Worked :
      (t i : ℕ) (y : Tick h) → Worked h cfg t l0 l y → Worked h cfg t l0 l (work cfg t i y)
  unfolding work
  work-Worked t i y v = elim (Option-cases (get_elem? y.slots i)) [
    | inl e ↦ rw (e, work) v
    | inr (slot, e) ↦ elim (Bool-cases (leb (slot_ticks cfg i) t)) [
      | inl idle ↦ rw (e, work, idle) v
      | inr owes ↦
          let (s, len) = read-Safe cfg k (seen l y) i slot tick_zeros v.safe.shaped e in
          rw (e, work, owes)
            (record {
              safe = Safe-trans cfg l (seen l y) _ v.safe s;
              later = read_slot i slot e v.later;
              fetched = joined-Fetched t i y slot v e owes len;
            })
    ]
  ]

  -- With a kernel whose read(2) keeps its documented laws: in whatever order the workers of a
  -- tick are scheduled, they keep the shape, the configuration and the chain state of the pool
  -- and the PC/SC context, and every result that they leave is for a slot that owes bytes at
  -- this tick, and is the 32 bytes that a successful read of this slot gave in this round.
  pub fan_out-Worked :
      (t : ℕ) (order : List ℕ) (y : Tick h)
      → Worked h cfg t l0 l y
      → Worked h cfg t l0 l (fan_out cfg t order y)
  unfolding fan_out
  fan_out-Worked t [] y v = v
  fan_out-Worked t (i ∷ order) y v = fan_out-Worked t order (work cfg t i y) (work-Worked t i y v)
