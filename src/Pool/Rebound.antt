-- ===== src/Pool/Rebound.antt =====
-- What `rebind` of pool.rs does to the pool, whether it finds a replacement or not.
use pkcs11_rand.Base.{
  ℕ, ◌≡◌, refl, sym, ap, ◌∙◌, ◌⊎◌, inl, inr, false, Bool-cases, Option, none, some, List, [], ◌∷◌,
  Result, ok, err, Done, and_then, get_elem?, set, set-set, get_elem?-set_ne,
}
use pkcs11_rand.Host.{Bytes, Host, Sys}
use pkcs11_rand.Pool.{
  SlotKind, SlotInner, Slot, Error, not_enough_sources, Pool, Live, closed, live_slot, open_named,
}
use pkcs11_rand.Pool.Rebind.{name_in_use, bound, rebind_names, rebind, close_slot, put_slot}
use pkcs11_rand.Pool.Coherent.{
  IsCoherent, IsOpen, Holds, open_named-Holds, open_named-global, list_names-global,
  drop_inner-global,
}
use pkcs11_rand.Pool.Distinct.{IsFree, IsFree-closed, IsFree-unused}

-- The search through the listed names: a free one that opened was put into the slot, or the pool is
-- as it was.
pub data Tried (h : Host) (idx : ℕ) (kind : SlotKind) (l : Live h) (r : Result Error Done)
    (l' : Live h) : Type 0 where
  took :
      (name : Bytes) (inner : SlotInner h)
      → name_in_use ⦃h = h⦄ l.slots idx kind name ≡ false
      → Holds ⦃h = h⦄ kind (some name) inner
      → IsOpen h (live_slot ⦃h = h⦄ kind name inner)
      → r ≡ ok tt
      → l'.pool ≡ (put_slot ⦃h = h⦄ idx (live_slot ⦃h = h⦄ kind name inner) l).pool
      → l'.sys.global ≡ l.sys.global
      → Tried h idx kind l r l'
  none_left :
      (e : Error)
      → r ≡ err e
      → l'.pool ≡ l.pool
      → l'.sys.global ≡ l.sys.global
      → Tried h idx kind l r l'

module _ ⦃h : Host⦄ (idx : ℕ) (kind : SlotKind) where
  -- What was tried in a process with the same pool and context was tried from here.
  from_here :
      (l m : Live h) (r : Result Error Done) (l' : Live h)
      → m.pool ≡ l.pool
      → m.sys.global ≡ l.sys.global
      → Tried h idx kind m r l'
      → Tried h idx kind l r l'
  from_here l m r l' p g (took name inner u c n e q gl) =
      took name inner (ap (λ (x : Pool h). name_in_use x.slots idx kind name) (sym p) ∙ u) c n e
        (q
          ∙ ap (λ (x : Pool h). record x { slots = set x.slots idx (live_slot kind name inner) }) p)
        (gl ∙ g)
  from_here l m r l' p g (none_left e x q gl) = none_left e x (q ∙ p) (gl ∙ g)

  bound-Tried :
      (name : Bytes) (later : Live h → Result Error Done × Live h) (o : Option (SlotInner h))
      (l : Live h) (s : Sys h)
      → name_in_use l.slots idx kind name ≡ false
      → ((inner : SlotInner h)
          → o ≡ some inner
          → Holds kind (some name) inner × IsOpen h (live_slot kind name inner))
      → s.global ≡ l.sys.global
      → ((m : Live h) → Tried h idx kind m (later m).0 (later m).1)
      → let x = bound idx kind name later o (record l { sys = s }) in Tried h idx kind l x.0 x.1
  bound-Tried name later none l s u c g ih =
      from_here l (record l { sys = s }) _ _ refl g (ih (record l { sys = s }))
  bound-Tried name later (some inner) l s u c g ih =
      took name inner u (c inner refl).0 (c inner refl).1 refl refl g

  rebind_names-Tried :
      (names : List Bytes) (l : Live h)
      → Tried h idx kind l (rebind_names idx kind names l).0 (rebind_names idx kind names l).1
  unfolding rebind_names
  rebind_names-Tried [] l = none_left not_enough_sources refl refl refl
  rebind_names-Tried (name ∷ names) l = elim (Bool-cases (name_in_use l.slots idx kind name)) [
    | inl used ↦ rw (used, rebind_names) (rebind_names-Tried names l)
    | inr free ↦
        rw (free, rebind_names)
          (bound-Tried name (rebind_names idx kind names) (open_named kind name l.sys).0 l
            (open_named kind name l.sys).1 free
            (λ inner e. (open_named-Holds kind name l.sys inner e, (name, l.sys, refl, e)))
            (open_named-global kind name l.sys) (rebind_names-Tried names))
  ]

-- The pool after `rebind` of the slot `idx`, which held `slot`.
pub record Rebound (h : Host) (idx : ℕ) (slot : Slot h) (l : Live h) (r : Result Error Done)
    (l' : Live h) : Type 0 where
  pub new : Slot h
  pub pool : l'.pool ≡ (put_slot ⦃h = h⦄ idx new l).pool
  pub global : l'.sys.global ≡ l.sys.global
  pub kind : new.kind ≡ slot.kind
  pub coherent : IsCoherent h new
  pub free : IsFree ⦃h = h⦄ l.slots idx new
  pub outcome :
      ((r ≡ ok tt) × IsOpen h new) ⊎ ((e : Error) × (r ≡ err e) × (new ≡ closed ⦃h = h⦄ slot))

module _ ⦃h : Host⦄ (idx : ℕ) (slot : Slot h) (l : Live h) where
  closed-Rebound :
      (l' : Live h) (r : Result Error Done) (e : Error)
      → r ≡ err e
      → l'.pool ≡ (close_slot idx slot l).pool
      → l'.sys.global ≡ l.sys.global
      → Rebound h idx slot l r l'
  closed-Rebound l' r e x p g = record {
    new = closed slot;
    pool = p;
    global = g;
    kind = refl;
    coherent = refl;
    free = IsFree-closed l.slots idx (closed slot) refl;
    outcome = inr (e, x, refl);
  }

  IsFree-before : (x : Slot h) → IsFree (set l.slots idx (closed slot)) idx x → IsFree l.slots idx x
  IsFree-before x f j b ne e =
      f j b ne (get_elem?-set_ne l.slots (closed slot) (λ q. ne (sym q)) ∙ e)

  Tried-Rebound :
      (m l' : Live h) (r : Result Error Done)
      → m.pool ≡ (close_slot idx slot l).pool
      → m.sys.global ≡ l.sys.global
      → Tried h idx slot.kind m r l'
      → Rebound h idx slot l r l'
  Tried-Rebound m l' r p g t = go (
      from_here idx slot.kind (close_slot idx slot l) m r l' p
        (g ∙ sym (drop_inner-global slot.inner l.sys)) t)
    where
      go : Tried h idx slot.kind (close_slot idx slot l) r l' → Rebound h idx slot l r l'
      go (took name inner u c n e q gl) = record {
        new = live_slot slot.kind name inner;
        pool =
            q
            ∙ ap (λ (x : List (Slot h)). record l.pool { slots = x })
                (set-set l.slots idx (closed slot) (live_slot slot.kind name inner));
        global = gl ∙ drop_inner-global slot.inner l.sys;
        kind = refl;
        coherent = c;
        free =
            IsFree-before (live_slot slot.kind name inner)
              (IsFree-unused (set l.slots idx (closed slot)) idx slot.kind name inner u);
        outcome = inl (e, n);
      }
      go (none_left e x q gl) = closed-Rebound l' r e x q (gl ∙ drop_inner-global slot.inner l.sys)

  listed-Rebound :
      (names : Result Error (List Bytes)) (s : Sys h)
      → s.global ≡ l.sys.global
      → let m = record (close_slot idx slot l) { sys = s } in
        let x = and_then names (rebind_names idx slot.kind) m in Rebound h idx slot l x.0 x.1
  listed-Rebound (ok names) s g =
      let m = record (close_slot idx slot l) { sys = s } in
      Tried-Rebound m _ _ refl g (rebind_names-Tried idx slot.kind names m)
  listed-Rebound (err e) s g =
      closed-Rebound (record (close_slot idx slot l) { sys = s }) _ e refl refl g

  -- For an index with a slot: `rebind` writes this slot of the pool and nothing else of it,
  -- and keeps the slot's kind; on `Ok` the slot has the source that opening its name gave, a
  -- name that no other slot of the kind holds, and on an error it is left closed.
  pub rebind-Rebound :
      get_elem? l.slots idx ≡ some slot → Rebound h idx slot l (rebind idx l).0 (rebind idx l).1
  unfolding rebind
  rebind-Rebound e =
      rw (e, rebind)
        (listed-Rebound _ _ (
          list_names-global slot.kind (close_slot idx slot l).sys
          ∙ drop_inner-global slot.inner l.sys))
