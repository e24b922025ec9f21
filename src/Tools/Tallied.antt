-- ===== src/Tools/Tallied.antt =====
-- What crates/p11rand-tools/src/bin/p11rand-list.rs counts.
use pkcs11_rand.Base.{
  ℕ, ◌+◌, ◌%◌, ◌^◌, ◌≤◌, ◌<◌, ◌≡◌, refl, Bool, true, false, List, [], ◌∷◌, ◌++◌, Result, ok, err,
  Done, length, bytes_eq, arith, if◌then◌else◌,
}
use pkcs11_rand.Host.{Bytes, Host, Sys}
use pkcs11_rand.Config.{text}
use pkcs11_rand.Iso7816 as Cards
use pkcs11_rand.Iso7816.Source as CardSource
use pkcs11_rand.Infnoise as Devices
use pkcs11_rand.Tools.ListTool.{
  Line, Tally, nothing_yet, with_line, line_of, atr_extra, with_card, card_line, probe_readers,
  listed_readers, initialized, list_cards, device_line, probe_paths, listed_paths, list_devices,
}

-- The lines that say `usable`.
abbrev pub marks : Line → ℕ
marks l = if bytes_eq l.status (text "usable") then 1 else 0

unfoldable pub usables : List Line → ℕ
usables [] = 0
usables (l ∷ ls) = marks l + usables ls

usables-append : (xs : List Line) (l : Line) → usables (xs ++ (l ∷ [])) ≡ usables xs + marks l
unfolding usables
usables-append [] l = omega arith
usables-append (x ∷ xs) l = omega (arith, usables-append xs l)

marks-le : (b : Bool) → (if b then 1 else 0) ≤ 1
marks-le true = omega arith
marks-le false = omega arith

usables-le : (ls : List Line) → usables ls ≤ length ls
unfolding usables
usables-le [] = omega arith
usables-le (l ∷ ls) = omega (arith, usables-le ls, marks-le (bytes_eq l.status (text "usable")))

-- The tally's number is that of its usable lines.
pub Counts : Tally → Type 0
Counts t = t.usable ≡ usables t.lines % 2 ^ 32

with_line-Counts :
    (l : Line) (n : ℕ) (t : Tally) → n ≡ marks l → Counts t → Counts (with_line l n t)
unfolding Counts
with_line-Counts l n t e c = omega (arith, e, c, usables-append t.lines l)

module _ ⦃h : Host⦄ where
  with_card-Counts :
      (r status : Bytes) (n : ℕ) (t : Tally) (s : Sys h)
      → n ≡ marks (line_of (text "iso7816") r status [])
      → Counts t
      → Counts (with_card r status n t s).0
  with_card-Counts r status n t s e c =
      with_line-Counts (line_of (text "iso7816") r status (atr_extra (CardSource.read_atr r s).0)) n
        t e c

  card_line-Counts :
      (r : Bytes) (src : Result Cards.Error (CardSource.Source h)) (t : Tally) (s : Sys h)
      → Counts t
      → Counts (card_line r src t s).0
  unfolding bytes_eq
  card_line-Counts r (ok src) t s c = with_card-Counts r (text "usable") 1 t _ refl c
  card_line-Counts r (err Cards.no_card) t s c = with_line-Counts _ 0 t refl c
  card_line-Counts r (err Cards.unsupported) t s c =
      with_card-Counts r (text "unsupported") 0 t s refl c
  card_line-Counts r (err Cards.transport) t s c = with_line-Counts _ 0 t refl c

  probe_readers-Counts :
      (rs : List Bytes) (t : Tally) (s : Sys h) → Counts t → Counts (probe_readers rs t s).0
  unfolding probe_readers
  probe_readers-Counts [] t s c = c
  probe_readers-Counts (r ∷ rs) t s c =
      let o = CardSource.open_reader r s in
      let l = card_line r o.0 t o.1 in
      probe_readers-Counts rs l.0 l.1 (card_line-Counts r o.0 t o.1 c)

  listed_readers-Counts :
      (r : Result Cards.Error (List Bytes)) (s : Sys h) → Counts (listed_readers r s).0
  unfolding Counts usables
  listed_readers-Counts (err e) s = refl
  listed_readers-Counts (ok rs) s = probe_readers-Counts rs nothing_yet s refl

  initialized-Counts : (r : Result Cards.Error Done) (s : Sys h) → Counts (initialized r s).0
  unfolding Counts usables
  initialized-Counts (err e) s = refl
  initialized-Counts (ok d) s =
      listed_readers-Counts (Cards.list_readers s).0 (Cards.list_readers s).1

  device_line-Counts :
      (p : Bytes) (src : Result Devices.Error (Devices.Source h)) (t : Tally) (s : Sys h)
      → Counts t
      → Counts (device_line p src t s).0
  unfolding bytes_eq
  device_line-Counts p (ok src) t s c = with_line-Counts _ 1 t refl c
  device_line-Counts p (err e) t s c = with_line-Counts _ 0 t refl c

  probe_paths-Counts :
      (ps : List Bytes) (t : Tally) (s : Sys h) → Counts t → Counts (probe_paths ps t s).0
  unfolding probe_paths
  probe_paths-Counts [] t s c = c
  probe_paths-Counts (p ∷ ps) t s c =
      let o = Devices.open_path p s in
      let l = device_line p o.0 t o.1 in
      probe_paths-Counts ps l.0 l.1 (device_line-Counts p o.0 t o.1 c)

  listed_paths-Counts :
      (r : Result Devices.Error (List Bytes)) (s : Sys h) → Counts (listed_paths r s).0
  unfolding Counts usables
  listed_paths-Counts (err e) s = refl
  listed_paths-Counts (ok ps) s = probe_paths-Counts ps nothing_yet s refl

  pub list_cards-Counts : (s : Sys h) → Counts (list_cards s).0
  unfolding list_cards
  list_cards-Counts s = initialized-Counts (Cards.global_init s).0 (Cards.global_init s).1

  pub list_devices-Counts : (s : Sys h) → Counts (list_devices s).0
  unfolding list_devices
  list_devices-Counts s = listed_paths-Counts (Devices.list_paths s).0 (Devices.list_paths s).1

  pub tallied :
      (a b : Tally)
      → Counts a
      → Counts b
      → length a.lines + length b.lines < 2 ^ 32
      → (a.usable ≡ usables a.lines)
        × (b.usable ≡ usables b.lines)
        × ((a.usable + b.usable) % 2 ^ 32 ≡ usables a.lines + usables b.lines)
  unfolding Counts
  tallied a b p q f =
      let x = usables-le a.lines in
      let y = usables-le b.lines in
      (omega (arith, p, x, f), omega (arith, q, y, f), omega (arith, p, q, x, y, f))
