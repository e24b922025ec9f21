-- ===== src/Pool.antt =====
-- crates/p11rand-core/src/pool.rs: the slots of a pool, each with at most one live source.
pub mod Open
pub mod Rebind
pub mod Round
pub mod Read
pub mod Coherent
pub mod Distinct
pub mod Rebound
pub mod Safe
pub mod Fetched
pub mod Workers
pub mod Absorb
pub mod Ticks
pub mod Owed
pub mod Chain
pub mod Stream
pub mod Raw
pub mod Claimed
pub mod Opened
pub mod Probe
use pkcs11_rand.Base.{
  ℕ, Bool, true, false, Option, none, some, List, [], ◌∷◌, Result, ok, err, Act, map, Filled, is_ok,
  replicate, map_err,
}
use pkcs11_rand.Host.{Bytes, Host, Sys, on_world}
use pkcs11_rand.Config.{Config, round_bytes}
use pkcs11_rand.Iso7816
use pkcs11_rand.Iso7816.Source
use pkcs11_rand.Infnoise

pub data SlotKind : Type 0 where
  iso7816 infnoise : SlotKind

unfoldable pub kind_eq : SlotKind → SlotKind → Bool
kind_eq iso7816 iso7816 = true
kind_eq infnoise infnoise = true
kind_eq _ _ = false

pub data SlotInner (h : Host) : Type 0 where
  card : Iso7816.Source.Source h → SlotInner h
  device : Infnoise.Source h → SlotInner h
  empty : SlotInner h

pub record Slot (h : Host) : Type 0 where
  pub kind : SlotKind
  pub name : Option Bytes
  pub inner : SlotInner h

pub data Error : Type 0 where
  not_enough_sources resource read_failure : Error

pub record Pool (h : Host) : Type 0 where
  pub config : Config
  pub slots : List (Slot h)
  pub state : Bytes

-- A pool in its process.
pub record Live (h : Host) : Type 0 where
  pub pool : Pool h
  pub open pool use *
  pub sys : Sys h

-- What a read of one slot gives: the flag, the buffer, the slot and the process after it.
pub record SlotRead (h : Host) : Type 0 where
  pub done : Bool
  pub buf : Bytes
  pub slot : Slot h
  pub sys : Sys h

module _ ⦃h : Host⦄ where
  -- The `Drop` of a source: its card is disconnected, or its file closed.
  unfoldable pub drop_inner : SlotInner h → Sys h → Sys h
  drop_inner (card src) s = on_world (h.drop_card src.card) s
  drop_inner (device src) s = on_world (h.close_file src.file) s
  drop_inner empty s = s

  unfoldable pub drop_slots : List (Slot h) → Sys h → Sys h
  drop_slots [] s = s
  drop_slots (slot ∷ slots) s = drop_slots slots (drop_inner slot.inner s)

  -- `Slot::close`, without the `Drop` of what it held.
  abbrev pub closed : Slot h → Slot h
  closed slot = record slot { name = none; inner = empty }

  abbrev card_read : Slot h → Filled (Iso7816.Source.Reading h) Iso7816.Error → SlotRead h
  card_read slot o = record {
    done = is_ok o.status;
    buf = o.buf;
    slot = record slot { inner = card o.state.source };
    sys = o.state.sys;
  }

  abbrev device_read : Slot h → Filled (Sys h) Infnoise.Error → SlotRead h
  device_read slot o = record { done = is_ok o.status; buf = o.buf; slot = slot; sys = o.state }

  abbrev inner_read : Slot h → SlotInner h → Bytes → Sys h → SlotRead h
  inner_read slot (card src) buf s = card_read slot (Iso7816.Source.read src buf s)
  inner_read slot (device src) buf s = device_read slot (Infnoise.read src buf s)
  inner_read slot empty buf s = record { done = false; buf = buf; slot = slot; sys = s }

  unfoldable pub slot_read : Slot h → Bytes → Sys h → SlotRead h
  slot_read slot buf s = inner_read slot slot.inner buf s

  -- The two kinds of source are listed and opened in the same way, each by its own module.
  unfoldable pub list_names : SlotKind → Act (Sys h) Error (List Bytes)
  list_names iso7816 s = let (r, s') = Iso7816.list_readers s in (map_err resource r, s')
  list_names infnoise s = let (r, s') = Infnoise.list_paths s in (map_err resource r, s')

  abbrev as_card : Result Iso7816.Error (Iso7816.Source.Source h) → Option (SlotInner h)
  as_card (ok src) = some (card src)
  as_card (err e) = none

  abbrev as_device : Result Infnoise.Error (Infnoise.Source h) → Option (SlotInner h)
  as_device (ok src) = some (device src)
  as_device (err e) = none

  unfoldable pub open_named : SlotKind → Bytes → Sys h → Option (SlotInner h) × Sys h
  open_named iso7816 name s = let (r, s') = Iso7816.Source.open_reader name s in (as_card r, s')
  open_named infnoise name s = let (r, s') = Infnoise.open_path name s in (as_device r, s')

  abbrev pub live_slot : SlotKind → Bytes → SlotInner h → Slot h
  live_slot kind name inner = record { kind = kind; name = some name; inner = inner }

  abbrev pub zeros : Bytes
  zeros = replicate round_bytes 0

  -- The `Drop` of a pool wipes its chain state, and then drops its slots.
  unfoldable pub drop_pool : Pool h → Sys h → Pool h × Sys h
  drop_pool p s = (record p { slots = []; state = zeros }, drop_slots p.slots s)
