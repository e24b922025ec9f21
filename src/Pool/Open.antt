-- ===== src/Pool/Open.antt =====
-- `fillable` and `Pool::open` of pool.rs, and the process-wide set-up.
use pkcs11_rand.Base.{
  ℕ, ◌+◌, Bool, true, false, Option, none, some, List, [], ◌∷◌, ◌++◌, Result, ok, err, Act, Done,
  ◌>>=◌, map_err, leb, ltb, length, if◌then◌else◌,
}
use pkcs11_rand.Host.{Bytes, Host, Sys}
use pkcs11_rand.Config.{Config, validate}
use pkcs11_rand.Iso7816
use pkcs11_rand.Pool.{
  SlotKind, iso7816, infnoise, SlotInner, Slot, Error, not_enough_sources, resource, Pool,
  drop_inner, drop_slots, list_names, open_named, live_slot, zeros,
}

module _ ⦃h : Host⦄ where
  abbrev pure : {A : Type 0} → A → Act (Sys h) Error A
  pure a s = (ok a, s)

  unfoldable pub global_init : Config → Act (Sys h) Error Done
  global_init cfg s =
      if ltb 0 cfg.iso7816_cards
      then (let (r, s') = Iso7816.global_init s in (map_err resource r, s'))
      else (ok tt, s)

  unfoldable pub global_shutdown : Config → Sys h → Sys h
  global_shutdown cfg s = if ltb 0 cfg.iso7816_cards then Iso7816.global_shutdown s else s

  -- A probe opens the source and drops it at once.
  abbrev pub probed : ℕ → Option (SlotInner h) → Sys h → ℕ × Sys h
  probed usable none s = (usable, s)
  probed usable (some inner) s = (usable + 1, drop_inner inner s)

  abbrev pub probe : ℕ → Bytes → Sys h → ℕ × Sys h
  probe usable name s = let (r, s') = open_named iso7816 name s in probed usable r s'

  -- The readers that open, counted up to `limit`.
  unfoldable pub count_usable : ℕ → List Bytes → ℕ → Sys h → ℕ × Sys h
  count_usable limit [] usable s = (usable, s)
  count_usable limit (r ∷ rs) usable s =
      let later = let (n, s') = probe usable r s in count_usable limit rs n s' in
      if leb limit usable then (usable, s) else later

  unfoldable pub cards_fillable : Config → Act (Sys h) Error Bool
  cards_fillable cfg =
      if ltb 0 cfg.iso7816_cards
      then (do
        readers ← list_names iso7816
        λ s.
            let (usable, s') = count_usable cfg.iso7816_cards readers 0 s in
            (ok (leb cfg.iso7816_cards usable), s'))
      else pure true

  unfoldable pub devices_fillable : Config → Act (Sys h) Error Bool
  devices_fillable cfg =
      if ltb 0 cfg.infnoise_devices
      then (do paths ← list_names infnoise; pure (leb cfg.infnoise_devices (length paths)))
      else pure true

  unfoldable pub fillable : Config → Act (Sys h) Error Bool
  unfolding cards_fillable devices_fillable
  fillable cfg = do enough ← cards_fillable cfg; if enough then devices_fillable cfg else pure false

  abbrev pub pushed :
      SlotKind
      → Bytes
      → ℕ × List (Slot h)
      → Option (SlotInner h)
      → Sys h
      → (ℕ × List (Slot h)) × Sys h
  pushed kind name (got, slots) none s = ((got, slots), s)
  pushed kind name (got, slots) (some inner) s =
      ((got + 1, slots ++ (live_slot kind name inner ∷ [])), s)

  abbrev pub claim_one : SlotKind → Bytes → ℕ × List (Slot h) → Sys h → (ℕ × List (Slot h)) × Sys h
  claim_one kind name c s = let (r, s') = open_named kind name s in pushed kind name c r s'

  -- The first sources that open, up to `limit` of them, become slots; `got` counts them.
  unfoldable pub claim :
      SlotKind → ℕ → List Bytes → ℕ × List (Slot h) → Sys h → (ℕ × List (Slot h)) × Sys h
  claim kind limit [] c s = (c, s)
  claim kind limit (name ∷ names) c s =
      let later = let (c', s') = claim_one kind name c s in claim kind limit names c' s' in
      if leb limit c.0 then (c, s) else later

  -- On the way out with an error the slots that were claimed are dropped.
  abbrev pub give_up : {A : Type 0} → Error → List (Slot h) → Sys h → Result Error A × Sys h
  give_up e slots s = (err e, drop_slots slots s)

  abbrev pub enough_claimed : ℕ → (ℕ × List (Slot h)) × Sys h → Result Error (List (Slot h)) × Sys h
  enough_claimed limit ((got, slots), s) =
      if ltb got limit then give_up not_enough_sources slots s else (ok slots, s)

  abbrev pub claim_listed :
      SlotKind
      → ℕ
      → List (Slot h)
      → Result Error (List Bytes)
      → Sys h
      → Result Error (List (Slot h)) × Sys h
  claim_listed kind limit slots (err e) s = give_up e slots s
  claim_listed kind limit slots (ok names) s =
      enough_claimed limit (claim kind limit names (0, slots) s)

  unfoldable pub claim_kind : SlotKind → ℕ → List (Slot h) → Act (Sys h) Error (List (Slot h))
  claim_kind kind limit slots s =
      if ltb 0 limit
      then (let (r, s') = list_names kind s in claim_listed kind limit slots r s')
      else (ok slots, s)

  abbrev pub check : Config → Act (Sys h) Error Done
  check cfg s = (map_err resource (validate cfg), s)

  -- `Pool::open`: the cards first, then the devices; the chain starts from zeros.
  unfoldable pub open_pool : Config → Act (Sys h) Error (Pool h)
  unfolding claim_kind
  open_pool cfg = do
    valid ← check cfg
    slots ← claim_kind iso7816 cfg.iso7816_cards []
    all ← claim_kind infnoise cfg.infnoise_devices slots
    pure (record { config = cfg; slots = all; state = zeros })
