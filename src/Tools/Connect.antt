-- ===== src/Tools/Connect.antt =====
-- The way to a session that crates/p11rand-tools/src/bin/p11rand-read.rs and p11rand-seed.rs share: load
-- the module, initialize it, and open a session on its first usable slot.
use pkcs11_rand.Base.{
  ℕ, ◌||◌, Option, none, some, List, [], Done, get_or, replicate, ◌==◌, if◌then◌else◌,
}
use pkcs11_rand.Host.{Bytes}
use pkcs11_rand.Pkcs11.Slots.{SlotList}
use pkcs11_rand.Tools.{Machine, Flow, returned, not_ok, ◌>>=◌, pure, leave, call, load_module}

abbrev pub ck_true : ℕ
ck_true = 1

abbrev pub listed : Option (List ℕ) → List ℕ
listed none = []
listed (some slots) = slots

abbrev pub empty_list : SlotList
empty_list = record { list = none; count = 0 }

-- `vec![0; nslots]`
abbrev pub room : ℕ → SlotList
room n = record { list = some (replicate n 0); count = n }

module _ {m : Machine} where
  unfoldable pub load : Bytes → Flow m Done
  unfolding ◌>>=◌ pure leave load_module
  load path = do there ← load_module path; if there then pure tt else leave (returned 2)

  unfoldable pub initialize : Flow m Done
  unfolding ◌>>=◌ pure leave call
  initialize = do rv ← call m.c_initialize; if not_ok rv then leave (returned 2) else pure tt

  -- `C_Finalize`, whose code no tool looks at.
  unfoldable pub finalize : Flow m Done
  unfolding ◌>>=◌ pure call
  finalize = do rv ← call m.c_finalize; pure tt

  unfoldable pub give_up : {A : Type 0} → ℕ → Flow m A
  unfolding ◌>>=◌ leave finalize
  give_up code = do done ← finalize; leave (returned code)

  abbrev pick : ℕ × SlotList → Flow m ℕ
  pick (rv, slots) = if not_ok rv then give_up 1 else pure (get_or (listed slots.list) 0 0)

  abbrev choose : ℕ × SlotList → Flow m ℕ
  choose (rv, slots) =
      if not_ok rv || slots.count == 0
      then give_up 1
      else call (m.c_get_slot_list ck_true (room slots.count)) >>= pick

  -- How many slots there are, and then which; the first of them is taken.
  unfoldable pub first_slot : Flow m ℕ
  unfolding ◌>>=◌ call pure give_up
  first_slot = call (m.c_get_slot_list ck_true empty_list) >>= choose

  unfoldable pub open_on : ℕ → Flow m ℕ
  unfolding ◌>>=◌ pure call give_up
  open_on slot = do
    opened ← call (m.c_open_session slot 0)
    if not_ok opened.0 then give_up 1 else pure opened.1

  unfoldable pub connect : Bytes → Flow m ℕ
  unfolding ◌>>=◌ load initialize first_slot open_on
  connect path = do there ← load path; ready ← initialize; slot ← first_slot; open_on slot
