-- ===== src/Tools/ListTool.antt =====
-- crates/p11rand-tools/src/bin/p11rand-list.rs: the inventory of the sources, straight from the source
-- layers. A line of output is a list of its parts; headings and messages are not modelled.
use pkcs11_rand.Base.{
  ℕ, ◌+◌, ◌%◌, ◌^◌, Bool, true, false, Option, List, [], ◌∷◌, ◌++◌, Result, ok, err, Done, ltb,
  if◌then◌else◌,
}
use pkcs11_rand.Host.{Bytes, Host, Sys}
use pkcs11_rand.Config.{text}
use pkcs11_rand.Iso7816 as Cards
use pkcs11_rand.Iso7816.Source as CardSource
use pkcs11_rand.Infnoise as Devices
use pkcs11_rand.Tools.Args.{ArgTurn, refuse, next, parse_loop, is, is_help}

pub record Args : Type 0 where
  pub quiet : Bool
  pub verbose : Bool

unfoldable pub arg_turn : Bytes → Option Bytes → Args → ArgTurn Args
arg_turn s v a =
    if is (text "-q") s
    then next (record a { quiet = true })
    else if is (text "-v") s
    then next (record a { verbose = true })
    else if is_help s
    then refuse 0
    else refuse 2

unfoldable pub parse_args : List Bytes → Result ℕ Args
parse_args argv = parse_loop arg_turn argv (record { quiet = false; verbose = false })

-- What a line of the inventory says. `extra` is empty, or the card's ATR.
pub record Line : Type 0 where
  pub kind : Bytes
  pub name : Bytes
  pub status : Bytes
  pub extra : Bytes

-- What has been printed, and how many sources are usable, as a u32.
pub record Tally : Type 0 where
  pub lines : List Line
  pub usable : ℕ

abbrev pub nothing_yet : Tally
nothing_yet = record { lines = []; usable = 0 }

abbrev pub with_line : Line → ℕ → Tally → Tally
with_line l n t = record { lines = t.lines ++ (l ∷ []); usable = (t.usable + n) % 2 ^ 32 }

abbrev pub atr_extra : {E : Type 0} → Result E Bytes → Bytes
atr_extra (ok a) = text "ATR=" ++ a
atr_extra (err e) = []

abbrev pub line_of : Bytes → Bytes → Bytes → Bytes → Line
line_of kind name status extra = record { kind = kind; name = name; status = status; extra = extra }

module _ ⦃h : Host⦄ where
  -- A reader whose slot has a card.
  abbrev pub with_card : Bytes → Bytes → ℕ → Tally → Sys h → Tally × Sys h
  with_card r status n t s =
      let (a, s') = CardSource.read_atr r s in
      (with_line (line_of (text "iso7816") r status (atr_extra a)) n t, s')

  -- `_src` is dropped at the end of the arm.
  abbrev pub card_line :
      Bytes → Result Cards.Error (CardSource.Source h) → Tally → Sys h → Tally × Sys h
  card_line r (ok src) t s =
      with_card r (text "usable") 1 t (record s { world = h.drop_card src.card s.world })
  card_line r (err Cards.no_card) t s =
      (with_line (line_of (text "iso7816") r (text "no-card") []) 0 t, s)
  card_line r (err Cards.unsupported) t s = with_card r (text "unsupported") 0 t s
  card_line r (err _) t s = (with_line (line_of (text "iso7816") r (text "error") []) 0 t, s)

  unfoldable pub probe_readers : List Bytes → Tally → Sys h → Tally × Sys h
  probe_readers [] t s = (t, s)
  probe_readers (r ∷ rs) t s =
      let (src, s') = CardSource.open_reader r s in
      let (t', s'') = card_line r src t s' in probe_readers rs t' s''

  abbrev pub listed_readers : Result Cards.Error (List Bytes) → Sys h → Tally × Sys h
  listed_readers (err e) s = (nothing_yet, s)
  listed_readers (ok rs) s = probe_readers rs nothing_yet s

  abbrev pub initialized : Result Cards.Error Done → Sys h → Tally × Sys h
  initialized (err e) s = (nothing_yet, s)
  initialized (ok d) s =
      let (rs, s') = Cards.list_readers s in
      let (t, s'') = listed_readers rs s' in (t, Cards.global_shutdown s'')

  unfoldable pub list_cards : Sys h → Tally × Sys h
  list_cards s = let (r, s') = Cards.global_init s in initialized r s'

  abbrev pub device_line :
      Bytes → Result Devices.Error (Devices.Source h) → Tally → Sys h → Tally × Sys h
  device_line p (ok src) t s = (
    with_line (line_of (text "infnoise") p (text "usable") []) 1 t,
    record s { world = h.close_file src.file s.world },
  )
  device_line p (err e) t s = (with_line (line_of (text "infnoise") p (text "unusable") []) 0 t, s)

  unfoldable pub probe_paths : List Bytes → Tally → Sys h → Tally × Sys h
  probe_paths [] t s = (t, s)
  probe_paths (p ∷ ps) t s =
      let (src, s') = Devices.open_path p s in
      let (t', s'') = device_line p src t s' in probe_paths ps t' s''

  abbrev pub listed_paths : Result Devices.Error (List Bytes) → Sys h → Tally × Sys h
  listed_paths (err e) s = (nothing_yet, s)
  listed_paths (ok ps) s = probe_paths ps nothing_yet s

  unfoldable pub list_devices : Sys h → Tally × Sys h
  list_devices s = let (r, s') = Devices.list_paths s in listed_paths r s'

  -- The exit code, the two inventories and the process.
  pub record Inventory : Type 0 where
    pub code : ℕ
    pub cards : Tally
    pub devices : Tally
    pub sys : Sys h

  unfoldable pub inventory : Sys h → Inventory
  unfolding list_cards list_devices
  inventory s =
      let (cards, s') = list_cards s in
      let (devices, s'') = list_devices s' in
      record {
        code = if ltb 0 ((cards.usable + devices.usable) % 2 ^ 32) then 0 else 1;
        cards = cards;
        devices = devices;
        sys = s'';
      }
