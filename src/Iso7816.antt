-- ===== src/Iso7816.antt =====
-- crates/p11rand-core/src/iso7816.rs: the shared PC/SC context, opening a card that answers GET
-- CHALLENGE, and the ATR. Diagnostics on stderr are left out.
pub mod Source
pub mod Turn
pub mod Read
pub mod Contents
pub mod Chunk
pub mod FixedLe
pub mod Quiet
pub mod Listed
use pkcs11_rand.Base.{
  ℕ, ◌+◌, ◌-◌, ◌*◌, ◌/◌, ◌%◌, Bool, true, false, not, ◌&&◌, ◌||◌, Option, none, some, List, [], ◌∷◌,
  ◌++◌, map, Result, ok, err, Act, Done, ◌>>=◌, map_err, length, take, drop, replicate, get_or, leb,
  ltb, ◌==◌, if◌then◌else◌,
}
use pkcs11_rand.Host.{
  Bytes, PcscError, no_smartcard, removed_card, unpowered_card, unresponsive_card,
  no_readers_available, Host, Global, Sys, on_world,
}

pub data Error : Type 0 where
  no_card unsupported transport : Error

-- `AppId`; `default_selection` is its `None`.
pub data AppId : Type 0 where
  default_selection piv open_pgp : AppId

abbrev pub app_piv_aid : Bytes
app_piv_aid = 0xA0 ∷ 0x00 ∷ 0x00 ∷ 0x03 ∷ 0x08 ∷ 0x00 ∷ 0x00 ∷ 0x10 ∷ 0x00 ∷ 0x01 ∷ 0x00 ∷ []

abbrev pub app_openpgp_aid : Bytes
app_openpgp_aid = 0xD2 ∷ 0x76 ∷ 0x00 ∷ 0x01 ∷ 0x24 ∷ 0x01 ∷ []

-- The status word: the last two bytes, or 0 where there are fewer.
unfoldable pub sw_of : Bytes → ℕ
sw_of resp =
    let n = length resp in
    if ltb n 2 then 0 else get_or resp (n - 2) 0 * 256 + get_or resp (n - 1) 0

unfoldable pub body_of : Bytes → Bytes
body_of resp = if leb 2 (length resp) then take (length resp - 2) resp else []

unfoldable pub pcsc_no_card : PcscError → Bool
pcsc_no_card no_smartcard = true
pcsc_no_card removed_card = true
pcsc_no_card unpowered_card = true
pcsc_no_card unresponsive_card = true
pcsc_no_card _ = false

abbrev select_apdu : Bytes → Bytes
select_apdu aid = 0x00 ∷ 0xA4 ∷ 0x04 ∷ 0x00 ∷ (length aid % 256) ∷ aid

abbrev pub challenge_apdu : ℕ → Bytes
challenge_apdu n = 0x00 ∷ 0x84 ∷ 0x00 ∷ 0x00 ∷ (n % 256) ∷ []

-- `ctx.list_readers(&mut buf)`, and the arms of the `match` on it.
abbrev pub names_of : (Bytes → Bytes) → Result PcscError (List Bytes) → Result Error (List Bytes)
names_of lossy (ok names) = ok (map lossy names)
names_of lossy (err no_readers_available) = ok []
names_of lossy (err _) = err transport

abbrev challenge_answer : ℕ → Bytes → Bytes → Bool × Bytes
challenge_answer n out resp =
    if not (sw_of resp == 0x9000) || not (length (body_of resp) == n)
    then (false, out)
    else (true, body_of resp ++ drop n out)

abbrev applets : List (AppId × Bytes)
applets = (piv, app_piv_aid) ∷ (open_pgp, app_openpgp_aid) ∷ []

abbrev throwaway : Bytes
throwaway = replicate 8 0

abbrev has_nul : Bytes → Bool
has_nul [] = false
has_nul (b ∷ bs) = b == 0 || has_nul bs

abbrev no_card_or_transport : {A : Type 0} → Result PcscError A → Result Error A
no_card_or_transport (ok a) = ok a
no_card_or_transport (err e) = err (if pcsc_no_card e then no_card else transport)

module _ ⦃h : Host⦄ where
  -- A call of the service: it may change what is outside, and nothing in the process.
  abbrev pub pcsc :
      {A : Type 0} → (h.World → Result PcscError A × h.World) → Act (Sys h) PcscError A
  pcsc f s = let (r, w) = f s.world in (r, record s { world = w })

  abbrev pub recast : {A : Type 0} → Act (Sys h) PcscError A → Act (Sys h) Error A
  recast m s = let (r, s') = m s in (map_err transport r, s')

  abbrev pub pure : {A : Type 0} → A → Act (Sys h) Error A
  pure a s = (ok a, s)

  abbrev pub fail : {A : Type 0} → Error → Act (Sys h) Error A
  fail e s = (err e, s)

  abbrev hold : h.Context → Act (Sys h) Error Done
  hold ctx s = (ok tt, record s { global = record { ctx = some ctx; refs = 1 } })

  unfoldable pub global_init : Act (Sys h) Error Done
  global_init s =
      if ltb 0 s.refs
      then (ok tt, record s { global = record s.global { refs = s.refs + 1 } })
      else (recast (pcsc h.establish) >>= hold) s

  abbrev drop_context : Option h.Context → Sys h → Sys h
  drop_context none s = s
  drop_context (some ctx) s = on_world (h.release ctx) s

  unfoldable pub global_shutdown : Sys h → Sys h
  global_shutdown s =
      if s.refs == 0
      then s
      else if s.refs - 1 == 0
      then drop_context s.ctx (record s { global = record { ctx = none; refs = 0 } })
      else record s { global = record s.global { refs = s.refs - 1 } }

  with_context : {A : Type 0} → (h.Context → Act (Sys h) Error A) → Act (Sys h) Error A
  with_context f s = elim s.ctx [ none ↦ (err transport, s) | some ctx ↦ f ctx s ]

  abbrev pub read_names : h.Context → Result PcscError ℕ → Sys h → Result Error (List Bytes) × Sys h
  read_names ctx (err e) s = (ok [], s)
  read_names ctx (ok len) s =
      if leb len 1
      then (ok [], s)
      else let (r, s') = pcsc (h.list_readers ctx len) s in (names_of h.to_string_lossy r, s')

  unfoldable pub list_readers : Act (Sys h) Error (List Bytes)
  unfolding with_context
  list_readers =
      with_context λ ctx s. let (r, s') = pcsc (h.list_readers_len ctx) s in read_names ctx r s'

  unfoldable pub select_aid : h.Card → Bytes → Act (Sys h) Error Bool
  select_aid card aid = do
    resp ← recast (pcsc (h.transmit card (select_apdu aid)))
    pure (sw_of resp == 0x9000 || sw_of resp / 256 == 0x61)

  -- The buffer `out` comes back beside the flag.
  unfoldable pub try_get_challenge : h.Card → ℕ → Bytes → Act (Sys h) Error (Bool × Bytes)
  try_get_challenge card n out = do
    resp ← recast (pcsc (h.transmit card (challenge_apdu n)))
    pure (challenge_answer n out resp)

  attempt : h.Card → AppId → Act (Sys h) Error AppId → Act (Sys h) Error AppId
  attempt card app next = do
    answer ← try_get_challenge card 8 throwaway
    if answer.0 then pure app else next

  probe_aids : h.Card → List (AppId × Bytes) → Act (Sys h) Error AppId
  unfolding attempt
  probe_aids card [] = fail unsupported
  probe_aids card ((app, aid) ∷ rest) =
      let next = probe_aids card rest in
      do selected ← select_aid card aid; if selected then attempt card app next else next

  unfoldable pub probe_app : h.Card → Act (Sys h) Error AppId
  unfolding probe_aids
  probe_app card = do
    answer ← try_get_challenge card 8 throwaway
    if answer.0 then pure default_selection else probe_aids card applets

  -- `CString::new` refuses a name with a NUL inside.
  unfoldable pub connect : Bytes → Act (Sys h) Error h.Card
  unfolding with_context
  connect reader =
      if has_nul reader
      then fail transport
      else with_context
          λ ctx s. let (r, s') = pcsc (h.connect ctx reader) s in (no_card_or_transport r, s')
