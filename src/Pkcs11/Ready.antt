-- ===== src/Pkcs11/Ready.antt =====
-- The invariant of the module in crates/p11rand/src/lib.rs, and how the parts of a call keep it.
use mathlib.Core.Path.{subst}
use pkcs11_rand.Base.{
  ℕ, zero, suc, ◌≡◌, refl, sym, ap, ◌∙◌, true, false, Bool, ◌&&◌, Option, none, some, List, [], ◌∷◌,
  map, Done, All, All-set, length, length-set, get_elem?, set, replicate, ltb, if◌then◌else◌,
}
use pkcs11_rand.Host.{Host, Sys}
use pkcs11_rand.Config.{Config}
use pkcs11_rand.Pool.Chain.{IsWell}
use pkcs11_rand.Pool.Open.{fillable}
use pkcs11_rand.Pool.Probe.{fillable-global}
use pkcs11_rand.Pkcs11.{
  SlotState, Session, Token, Reply, max_sessions, mark_at, marked, or_false, refresh_slot,
  new_module,
}
use pkcs11_rand.Pkcs11.Context.{Held}

-- A session of an initialized module: its slot is the one that is published, and its pool is well
-- formed and of the build's configuration.
pub record IsSession (h : Host) (cfg : Config) (b : Bool) (x : Session h) : Type 0 where
  pub initialized : b ≡ true
  pub slot : x.slot ≡ 0
  pub well : IsWell h x.pool
  pub config : x.pool.config ≡ cfg

abbrev pub IsEntry : (h : Host) → Config → Bool → Option (Session h) → Type 0
IsEntry h cfg b none = Done
IsEntry h cfg b (some x) = IsSession h cfg b x

abbrev pub published : Bool → ℕ
published true = 1
published false = 0

-- 64 entries, one slot while initialized, good sessions, and a PC/SC context that is held exactly
-- while the module is initialized and uses cards.
pub record IsReady (h : Host) (cfg : Config) (t : Token h) : Type 0 where
  pub table : length t.sessions ≡ max_sessions
  pub slots : length t.slots ≡ published t.initialized
  pub sessions : All (IsEntry h cfg t.initialized) t.sessions
  pub context : Held h (t.initialized && ltb 0 cfg.iso7816_cards) t.sys.global

module _ ⦃h : Host⦄ (cfg : Config) where
  pub empty_entries :
      (b : Bool) (xs : List (Option (Session h)))
      → All (IsEntry h cfg b) (map (λ (x : Option (Session h)). none) xs)
  empty_entries b [] = tt
  empty_entries b (x ∷ xs) = (tt, empty_entries b xs)

  no_entries : (b : Bool) (n : ℕ) → All (IsEntry h cfg b) (replicate n none)
  no_entries b zero = tt
  no_entries b (suc n) = (tt, no_entries b n)

  -- Before the first call.
  pub new-IsReady :
      (s : Sys h) → Held h false s.global → IsReady h cfg (record { state = new_module; sys = s })
  new-IsReady s v = record {
    table = refl;
    slots = refl;
    sessions = no_entries false max_sessions;
    context = v;
  }

  -- A call that leaves the table and the context alone, and the number of slots.
  pub IsReady-same :
      (t u : Token h)
      → IsReady h cfg t
      → u.initialized ≡ t.initialized
      → length u.slots ≡ length t.slots
      → u.sessions ≡ t.sessions
      → u.sys.global ≡ t.sys.global
      → IsReady h cfg u
  IsReady-same t u v i l x g = record {
    table = ap length x ∙ v.table;
    slots = l ∙ v.slots ∙ ap published (sym i);
    sessions =
        subst (λ (b : Bool). All (IsEntry h cfg b) u.sessions) (sym i)
          (subst (All (IsEntry h cfg t.initialized)) (sym x) v.sessions);
    context =
        subst (λ (b : Bool). Held h (b && ltb 0 cfg.iso7816_cards) u.sys.global) (sym i)
          (subst (Held h (t.initialized && ltb 0 cfg.iso7816_cards)) (sym g) v.context);
  }

  length-mark_at :
      (b : Bool) (slots : List SlotState) (i : ℕ) (x : Option SlotState)
      → length (mark_at b slots i x) ≡ length slots
  length-mark_at b slots i none = refl
  length-mark_at b slots i (some x) = length-set slots i _

  pub length-marked :
      (b : Bool) (slots : List SlotState) (i : ℕ) → length (marked b slots i) ≡ length slots
  length-marked b slots i = length-mark_at b slots i (get_elem? slots i)

  pub refresh-IsReady :
      (i : ℕ) (t : Token h) → IsReady h cfg t → IsReady h cfg (refresh_slot cfg i t).1
  unfolding refresh_slot
  refresh-IsReady i t v =
      IsReady-same t (refresh_slot cfg i t).1 v refl
        (length-marked (or_false (fillable cfg t.sys).0) t.slots i) refl (fillable-global cfg t.sys)

  -- A write to one entry of the table.
  pub entry-IsReady :
      (t u : Token h) (i : ℕ) (x : Option (Session h))
      → IsReady h cfg t
      → IsEntry h cfg t.initialized x
      → u.initialized ≡ t.initialized
      → length u.slots ≡ length t.slots
      → u.sessions ≡ set t.sessions i x
      → u.sys.global ≡ t.sys.global
      → IsReady h cfg u
  entry-IsReady t u i x v e b l q g = record {
    table = ap length q ∙ length-set t.sessions i x ∙ v.table;
    slots = l ∙ v.slots ∙ ap published (sym b);
    sessions =
        subst (λ (b : Bool). All (IsEntry h cfg b) u.sessions) (sym b)
          (subst (All (IsEntry h cfg t.initialized)) (sym q)
            (All-set (IsEntry h cfg t.initialized) t.sessions i x v.sessions e));
    context =
        subst (λ (b : Bool). Held h (b && ltb 0 cfg.iso7816_cards) u.sys.global) (sym b)
          (subst (Held h (t.initialized && ltb 0 cfg.iso7816_cards)) (sym g) v.context);
  }

  pub branch-IsReady :
      {A : Type 0} (b : Bool) (x y : Reply h A)
      → (b ≡ true → IsReady h cfg x.token)
      → (b ≡ false → IsReady h cfg y.token)
      → IsReady h cfg (if b then x else y).token
  branch-IsReady true x y f g = f refl
  branch-IsReady false x y f g = g refl
