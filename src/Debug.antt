-- ===== src/Debug.antt =====
-- crates/p11rand-core/src/debug.rs: the switch for the messages of the source layers. `enabled` is called
-- by workers at the same time, so a call is a row of steps, each with at most one access to an atomic.
pub mod Phased
pub mod Steady
use mathlib.Core.Path.{subst}
use native.Mathlib.Decide.{ℕ_discrete}
use pkcs11_rand.Base.{
  ℕ, zero, suc, ◌≡◌, refl, sym, ap, ◌∙◌, Bool, true, false, Option, none, some, List, [], ◌∷◌, All,
  get_elem?, set, replicate, got-set, some_inj, ◌⊎◌, ◌≢◌, get_elem?-set_ne, get_elem?-set_self,
  length, Option-cases, inl, inr, if◌then◌else◌,
}

-- The two atomics.
pub record Switch : Type 0 where
  pub on : Bool
  pub checked : Bool

abbrev pub off : Switch
off = record { on = false; checked = false }

-- Where a call stands: before the swap, the look at the environment, the store and the load; or it has
-- its answer.
pub data Call : Type 0 where
  swapping looking storing loading : Call
  answered : Bool → Call

-- One step. `env` says whether P11RAND_DEBUG is set at that time.
unfoldable pub enabled : Bool → Call → Switch → Call × Switch
enabled env swapping s = (if s.checked then loading else looking, record s { checked = true })
enabled env looking s = (if env then storing else loading, s)
enabled env storing s = (loading, record s { on = true })
enabled env loading s = (answered s.on, s)
enabled env (answered b) s = (answered b, s)

abbrev pub Calls : Type 0
Calls = List Call × Switch

abbrev pub moved : ℕ → Calls → Call × Switch → Calls
moved i (cs, s) (c, s') = (set cs i c, s')

-- Call `i` makes a step.
unfoldable pub step : Bool → ℕ → Calls → Calls
unfolding enabled
step env i (cs, s) = elim (get_elem? cs i) [
  | none ↦ (cs, s)
  | some c ↦ moved i (cs, s) (enabled env c s)
]

-- Steps in any order, each with the environment of its time.
unfoldable pub interleaved : List (Bool × ℕ) → Calls → Calls
unfolding step
interleaved [] k = k
interleaved ((env, i) ∷ order) k = interleaved order (step env i k)

abbrev pub fresh : ℕ → Calls
fresh n = (replicate n swapping, off)
