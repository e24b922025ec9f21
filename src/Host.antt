-- ===== src/Host.antt =====
-- What lies outside the repository: the PC/SC service (the `pcsc` crate), the kernel's files, the
-- SHA3-256 hasher (the `sha3` crate) and the thread scheduler, as a parameter of the model, and the
-- process-wide state of crates/p11rand-core/src/iso7816.rs that stands on it.
use pkcs11_rand.Base.{ℕ, ◌≤◌, ◌<◌, ◌≡◌, List, [], ◌++◌, map, Option, Result, ok, length, Fresh}

-- A byte is a number below 256.
abbrev pub Bytes : Type 0
Bytes = List ℕ

-- `pcsc::Error`, with the variants that the source names; `other` stands for all else.
pub data PcscError : Type 0 where
  no_smartcard removed_card unpowered_card unresponsive_card no_readers_available : PcscError
  other : ℕ → PcscError

-- One `read(2)`: `got` is empty at the end of the file.
pub data FileRead : Type 0 where
  got : Bytes → FileRead
  interrupted failed : FileRead

-- `std::fs::read_dir`, with the names of the entries that could be read.
pub data DirRead : Type 0 where
  entries : List Bytes → DirRead
  not_found unreadable : DirRead

pub record Host : Type 1 where
  pub World : Type 0
  pub Context : Type 0
  pub Card : Type 0
  pub File : Type 0
  pub Hasher : Type 0
  -- `Context::establish`, and its `Drop`.
  pub establish : World → Result PcscError Context × World
  pub release : Context → World → World
  pub list_readers_len : Context → World → Result PcscError ℕ × World
  pub list_readers : Context → ℕ → World → Result PcscError (List Bytes) × World
  pub connect : Context → Bytes → World → Result PcscError Card × World
  -- `Card::transmit`, with the response in place of the receive buffer.
  pub transmit : Card → Bytes → World → Result PcscError Bytes × World
  pub card_atr : Card → World → Result PcscError Bytes × World
  -- `disconnect(LeaveCard)`, and the `Drop` of a card that is still connected.
  pub disconnect : Card → World → World
  pub drop_card : Card → World → World
  pub read_dir : Bytes → World → DirRead × World
  pub open_file : Bytes → World → Option File × World
  pub read_file : File → ℕ → World → FileRead × World
  pub close_file : File → World → World
  -- `CStr::to_string_lossy` on the bytes of a reader's name.
  pub to_string_lossy : Bytes → Bytes
  pub hasher : Hasher
  pub update : Hasher → Bytes → Hasher
  pub finalize : Hasher → Bytes
  -- The order in which the workers of a thread scope, numbered from 0, take their turns.
  pub schedule : ℕ → World → List ℕ × World
  -- How many more reads of a file a signal will interrupt.
  pub pending : World → ℕ

-- read(2) never returns more than was asked for, and a signal that has been delivered is spent.
pub record KernelLaws (h : Host) : Type 0 where
  pub read_within :
      (f : h.File) (n : ℕ) (w w' : h.World) (d : Bytes)
      → h.read_file f n w ≡ (got d, w')
      → (length d ≤ n) × (h.pending w' ≤ h.pending w)
  pub interrupt_spent :
      (f : h.File) (n : ℕ) (w w' : h.World)
      → h.read_file f n w ≡ (interrupted, w')
      → h.pending w' < h.pending w

-- The hasher is a streaming one, and a SHA3-256 digest has 32 bytes.
pub record DigestLaws (h : Host) : Type 0 where
  pub update_nil : (s : h.Hasher) → h.update s [] ≡ s
  pub update_append : (s : h.Hasher) (a b : Bytes) → h.update (h.update s a) b ≡ h.update s (a ++ b)
  pub length-finalize : (s : h.Hasher) → length (h.finalize s) ≡ 32

-- A directory has no name twice, and neither has the resource manager's list of readers.
pub record ListLaws (h : Host) : Type 0 where
  pub read_dir_fresh :
      (d : Bytes) (w w' : h.World) (names : List Bytes)
      → h.read_dir d w ≡ (entries names, w')
      → Fresh names
  pub list_readers_fresh :
      (ctx : h.Context) (n : ℕ) (w w' : h.World) (names : List Bytes)
      → h.list_readers ctx n w ≡ (ok names, w')
      → Fresh (map h.to_string_lossy names)

-- SHA3-256 of a message in one piece.
abbrev pub sha3_256 : (h : Host) → Bytes → Bytes
sha3_256 h m = h.finalize (h.update h.hasher m)

-- `Global` of iso7816.rs.
pub record Global (h : Host) : Type 0 where
  pub ctx : Option h.Context
  pub refs : ℕ

-- The state of the process, as far as the entropy sources share it.
pub record Sys (h : Host) : Type 0 where
  pub global : Global h
  pub open global use *
  pub world : h.World

-- An effect on what is outside.
abbrev pub on_world : ⦃h : Host⦄ → (h.World → h.World) → Sys h → Sys h
on_world f s = record s { world = f s.world }
