-- ===== src/Infnoise.antt =====
-- crates/p11rand-core/src/infnoise.rs: the `/dev/infnoiseN` nodes, and reading one of them.
-- Diagnostics on stderr are left out.
pub mod Read
pub mod Contents
pub mod Paths
pub mod Fresh
pub mod Nodes
use pkcs11_rand.Base.{
  ℕ, ◌+◌, ◌-◌, ◌*◌, ◌^◌, Bool, true, ◌&&◌, Option, none, some, List, [], ◌∷◌, ◌++◌, map, Result, ok,
  err, Act, Turn, stop, go_on, Filled, fill, bytes_eq, length, take, drop, leb, ltb, if◌then◌else◌,
}
use pkcs11_rand.Host.{
  Bytes, FileRead, got, interrupted, failed, DirRead, entries, not_found, unreadable, Host, Sys,
}
use pkcs11_rand.Config.{text}

pub data Error : Type 0 where
  no_device io : Error

abbrev pub dev_dir : Bytes
dev_dir = text "/dev"

abbrev pub dev_prefix : Bytes
dev_prefix = text "infnoise"

unfoldable pub is_digit : ℕ → Bool
is_digit b = leb b'0' b && leb b b'9'

unfoldable pub all_digits : Bytes → Bool
all_digits [] = true
all_digits (b ∷ bs) = is_digit b && all_digits bs

-- The value of a row of digits, and `parse::<u64>().unwrap_or(0)` of it.
unfoldable pub digits_value : ℕ → Bytes → ℕ
digits_value n [] = n
digits_value n (b ∷ bs) = digits_value (n * 10 + (b - b'0')) bs

unfoldable pub parse_u64 : Bytes → ℕ
parse_u64 bs = let n = digits_value 0 bs in if leb (2 ^ 64) n then 0 else n

-- What follows `infnoise` in the name of a node; `none` for any other entry of the directory.
unfoldable pub node_suffix : Bytes → Option Bytes
node_suffix name =
    let suffix = drop (length dev_prefix) name in
    if bytes_eq (take (length dev_prefix) name) dev_prefix
    then (if ltb 0 (length suffix) && all_digits suffix then some suffix else none)
    else none

-- `entry.path()`. A name that passes the tests is ASCII, so `to_string_lossy` leaves it alone.
abbrev pub path_of : Bytes → Bytes
path_of name = dev_dir ++ (b'/' ∷ name)

unfoldable pub keyed : List Bytes → List (ℕ × Bytes)
keyed [] = []
keyed (name ∷ names) = elim (node_suffix name) [
  | none ↦ keyed names
  | some suffix ↦ (parse_u64 suffix, path_of name) ∷ keyed names
]

-- `sort_by_key`, which is stable: an entry goes before the later ones with the same key.
unfoldable pub insert_key : ℕ × Bytes → List (ℕ × Bytes) → List (ℕ × Bytes)
insert_key (k, p) [] = (k, p) ∷ []
insert_key (k, p) ((j, q) ∷ rest) =
    let later = insert_key (k, p) rest in if leb k j then (k, p) ∷ (j, q) ∷ rest else (j, q) ∷ later

unfoldable pub sort_by_key : List (ℕ × Bytes) → List (ℕ × Bytes)
unfolding insert_key
sort_by_key [] = []
sort_by_key (e ∷ es) = insert_key e (sort_by_key es)

abbrev pub second : ℕ × Bytes → Bytes
second e = e.1

abbrev pub paths_of : DirRead → Result Error (List Bytes)
paths_of (entries names) = ok (map second (sort_by_key (keyed names)))
paths_of not_found = ok []
paths_of unreadable = err io

pub record Source (h : Host) : Type 0 where
  pub file : h.File
  pub path : Bytes

module _ ⦃h : Host⦄ where
  unfoldable pub list_paths : Act (Sys h) Error (List Bytes)
  list_paths s = let (r, w) = h.read_dir dev_dir s.world in (paths_of r, record s { world = w })

  abbrev opened : Bytes → Option h.File → Result Error (Source h)
  opened path none = err no_device
  opened path (some file) = ok (record { file = file; path = path })

  unfoldable pub open_path : Bytes → Act (Sys h) Error (Source h)
  open_path path s =
      let (r, w) = h.open_file path s.world in (opened path r, record s { world = w })

  abbrev first_of_paths : Result Error (List Bytes) → Sys h → Result Error (Source h) × Sys h
  first_of_paths (err e) s = (err no_device, s)
  first_of_paths (ok []) s = (err no_device, s)
  first_of_paths (ok (path ∷ rest)) s = open_path path s

  unfoldable pub open_first : Act (Sys h) Error (Source h)
  open_first s = let (r, s') = list_paths s in first_of_paths r s'

  abbrev took : Bytes → FileRead → Sys h → Turn (Sys h) Error
  took buf (got []) s = stop (err io) buf s
  took buf (got (b ∷ bs)) s = go_on (b ∷ bs) (drop (length (b ∷ bs)) buf) s
  took buf interrupted s = go_on [] buf s
  took buf failed s = stop (err io) buf s

  -- One turn of the loop of `Source::read`.
  unfoldable pub read_turn : Source h → Bytes → Sys h → Turn (Sys h) Error
  read_turn src buf s =
      let (r, w) = h.read_file src.file (length buf) s.world in took buf r (record s { world = w })

  -- Each turn takes bytes off the buffer or uses up a signal, so the fuel is enough.
  unfoldable pub read : Source h → Bytes → Sys h → Filled (Sys h) Error
  unfolding read_turn
  read src buf s = fill io (read_turn src) (length buf + h.pending s.world + 1) buf s
