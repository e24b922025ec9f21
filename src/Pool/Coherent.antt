-- ===== src/Pool/Coherent.antt =====
-- pool.rs: a slot's kind, name and source agree, and reading, listing and opening respect that.
use mathlib.Core.Path.{subst}
use pkcs11_rand.Base.{
  ◌≡◌, refl, ◌∙◌, Option, none, some, some_inj, List, [], ◌∷◌, Result, ok, err, length, arith,
}
use pkcs11_rand.Host.{Bytes, Host, Sys, KernelLaws}
use pkcs11_rand.Iso7816
use pkcs11_rand.Iso7816.Chunk.{IsChunk, read-Keeps}
use pkcs11_rand.Iso7816.Quiet.{list_readers-IsQuiet, open_reader-IsQuiet, open_reader-max_chunk}
use pkcs11_rand.Iso7816.Source
use pkcs11_rand.Infnoise
use pkcs11_rand.Infnoise.Contents.{device_read-Delivered}
use pkcs11_rand.Pool.{
  SlotKind, iso7816, infnoise, SlotInner, card, device, empty, Slot, SlotRead, inner_read,
  slot_read, as_card, as_device, list_names, open_named, drop_inner, drop_slots,
}

abbrev pub IsNamed : Option Bytes → Type 0
IsNamed o = (n : Bytes) × (o ≡ some n)

module _ ⦃h : Host⦄ where
  -- A source stands in a named slot of its own kind, with a chunk that `read` can have left; an
  -- empty slot has no name.
  abbrev pub Holds : SlotKind → Option Bytes → SlotInner h → Type 0
  Holds kind name (card src) = (kind ≡ iso7816) × IsNamed name × IsChunk src.max_chunk
  Holds kind name (device src) = (kind ≡ infnoise) × IsNamed name
  Holds kind name empty = name ≡ none

abbrev pub IsCoherent : (h : Host) → Slot h → Type 0
IsCoherent h slot = Holds ⦃h = h⦄ slot.kind slot.name slot.inner

-- The slot's source is what opening the slot's name gave.
abbrev pub IsOpen : (h : Host) → Slot h → Type 0
IsOpen h slot =
    (name : Bytes) × (s : Sys h) × (slot.name ≡ some name)
    × ((open_named ⦃h = h⦄ slot.kind name s).0 ≡ some slot.inner)

-- What a read of a slot leaves as it was.
pub record SlotKeeps (h : Host) (slot : Slot h) (buf : Bytes) (s : Sys h) (r : SlotRead h)
    : Type 0 where
  pub len : length r.buf ≡ length buf
  pub kind : r.slot.kind ≡ slot.kind
  pub name : r.slot.name ≡ slot.name
  pub coherent : IsCoherent h r.slot
  pub global : r.sys.global ≡ s.global

module _ ⦃h : Host⦄ where
  inner_read-Keeps :
      (k : KernelLaws h) (slot : Slot h) (inner : SlotInner h) (buf : Bytes) (s : Sys h)
      → Holds slot.kind slot.name inner
      → slot.inner ≡ inner
      → SlotKeeps h slot buf s (inner_read slot inner buf s)
  inner_read-Keeps k slot (card src) buf s c e =
      let r = read-Keeps src buf s c.2 in
      record {
        len = r.len;
        kind = refl;
        name = refl;
        coherent = (c.0, c.1, r.chunk);
        global = r.global;
      }
  inner_read-Keeps k slot (device src) buf s c e =
      let r = device_read-Delivered k src buf s in
      record { len = r.len; kind = refl; name = refl; coherent = rw e c; global = r.global }
  inner_read-Keeps k slot empty buf s c e = record {
    len = refl;
    kind = refl;
    name = refl;
    coherent = rw e c;
    global = refl;
  }

  pub slot_read-Keeps :
      (k : KernelLaws h) (slot : Slot h) (buf : Bytes) (s : Sys h)
      → IsCoherent h slot
      → SlotKeeps h slot buf s (slot_read slot buf s)
  unfolding slot_read
  slot_read-Keeps k slot buf s c = inner_read-Keeps k slot slot.inner buf s c refl

  pub drop_inner-global : (inner : SlotInner h) (s : Sys h) → (drop_inner inner s).global ≡ s.global
  unfolding drop_inner
  drop_inner-global (card src) s = refl
  drop_inner-global (device src) s = refl
  drop_inner-global empty s = refl

  pub drop_slots-global :
      (slots : List (Slot h)) (s : Sys h) → (drop_slots slots s).global ≡ s.global
  unfolding drop_slots
  drop_slots-global [] s = refl
  drop_slots-global (slot ∷ slots) s =
      drop_slots-global slots (drop_inner slot.inner s) ∙ drop_inner-global slot.inner s

  pub list_names-global : (kind : SlotKind) (s : Sys h) → (list_names kind s).1.global ≡ s.global
  unfolding list_names Infnoise.list_paths
  list_names-global iso7816 s = list_readers-IsQuiet.at s
  list_names-global infnoise s = refl

  pub open_named-global :
      (kind : SlotKind) (name : Bytes) (s : Sys h) → (open_named kind name s).1.global ≡ s.global
  unfolding open_named Infnoise.open_path
  open_named-global iso7816 name s = (open_reader-IsQuiet name).at s
  open_named-global infnoise name s = refl

  as_card-Holds :
      (name : Bytes) (s : Sys h) (r : Result Iso7816.Error (Iso7816.Source.Source h))
      (inner : SlotInner h)
      → (Iso7816.Source.open_reader name s).0 ≡ r
      → as_card r ≡ some inner
      → Holds iso7816 (some name) inner
  as_card-Holds name s (ok src) inner t e =
      subst (Holds iso7816 (some name)) (some_inj e)
        (refl, (name, refl), (7, omega arith, open_reader-max_chunk name s src t))
  as_card-Holds name s (err x) inner t e = cc

  as_device-Holds :
      (name : Bytes) (r : Result Infnoise.Error (Infnoise.Source h)) (inner : SlotInner h)
      → as_device r ≡ some inner
      → Holds infnoise (some name) inner
  as_device-Holds name (ok src) inner e =
      subst (Holds infnoise (some name)) (some_inj e) (refl, (name, refl))
  as_device-Holds name (err x) inner e = cc

  -- What is opened under a name holds that name in a slot of its kind.
  pub open_named-Holds :
      (kind : SlotKind) (name : Bytes) (s : Sys h) (inner : SlotInner h)
      → (open_named kind name s).0 ≡ some inner
      → Holds kind (some name) inner
  unfolding open_named
  open_named-Holds iso7816 name s inner e = as_card-Holds name s _ inner refl e
  open_named-Holds infnoise name s inner e = as_device-Holds name _ inner e
