-- ===== src/Pool/Rebind.antt =====
-- `name_in_use` and `rebind` of pool.rs.
use pkcs11_rand.Base.{
  ℕ, suc, Bool, false, not, ◌&&◌, ◌||◌, Option, none, some, List, [], ◌∷◌, Result, ok, err, Act,
  Done, ◌>>=◌, ◌==◌, bytes_eq, get_elem?, set, if◌then◌else◌,
}
use pkcs11_rand.Host.{Bytes, Host, Sys}
use pkcs11_rand.Pool.{
  SlotKind, kind_eq, SlotInner, Slot, Error, not_enough_sources, Live, drop_inner, closed,
  list_names, open_named, live_slot,
}

module _ ⦃h : Host⦄ where
  abbrev pub has_name : Slot h → Bytes → Bool
  has_name slot name = elim slot.name [ none ↦ false | some n ↦ bytes_eq n name ]

  -- `j` is the index of the first slot of the list.
  unfoldable pub name_in_use_from : ℕ → List (Slot h) → ℕ → SlotKind → Bytes → Bool
  name_in_use_from j [] skip kind name = false
  name_in_use_from j (slot ∷ slots) skip kind name =
      not (j == skip) && kind_eq slot.kind kind && has_name slot name
      || name_in_use_from (suc j) slots skip kind name

  unfoldable pub name_in_use : List (Slot h) → ℕ → SlotKind → Bytes → Bool
  unfolding name_in_use_from
  name_in_use slots = name_in_use_from 0 slots

  -- An action of the process, in a pool.
  abbrev pub in_sys : {A : Type 0} → Act (Sys h) Error A → Act (Live h) Error A
  in_sys m l = let (r, s) = m l.sys in (r, record l { sys = s })

  abbrev pub put_slot : ℕ → Slot h → Live h → Live h
  put_slot idx slot l = record l { pool = record l.pool { slots = set l.slots idx slot } }

  -- `later` is the loop's way on to the next name.
  abbrev pub bound :
      ℕ
      → SlotKind
      → Bytes
      → (Live h → Result Error Done × Live h)
      → Option (SlotInner h)
      → Live h
      → Result Error Done × Live h
  bound idx kind name later none l = later l
  bound idx kind name later (some inner) l = (ok tt, put_slot idx (live_slot kind name inner) l)

  abbrev pub try_name :
      ℕ → SlotKind → Bytes → (Live h → Result Error Done × Live h) → Act (Live h) Error Done
  try_name idx kind name later l =
      let (r, s) = open_named kind name l.sys in bound idx kind name later r (record l { sys = s })

  -- The first listed source that no other slot holds and that opens is taken.
  unfoldable pub rebind_names : ℕ → SlotKind → List Bytes → Act (Live h) Error Done
  rebind_names idx kind [] l = (err not_enough_sources, l)
  rebind_names idx kind (name ∷ names) l =
      if name_in_use l.slots idx kind name
      then rebind_names idx kind names l
      else try_name idx kind name (rebind_names idx kind names) l

  -- `self.slots[idx].close()`.
  abbrev pub close_slot : ℕ → Slot h → Live h → Live h
  close_slot idx slot l = record (put_slot idx (closed slot) l) {
    sys = drop_inner slot.inner l.sys;
  }

  abbrev pub rebind_slot : ℕ → Slot h → Act (Live h) Error Done
  rebind_slot idx slot = do names ← in_sys (list_names slot.kind); rebind_names idx slot.kind names

  -- Every caller passes the index of a slot; another index would be a panic in Rust.
  unfoldable pub rebind : ℕ → Act (Live h) Error Done
  rebind idx l = elim (get_elem? l.slots idx) [
    | none ↦ (err not_enough_sources, l)
    | some slot ↦ rebind_slot idx slot (close_slot idx slot l)
  ]
