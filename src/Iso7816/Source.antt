-- ===== src/Iso7816/Source.antt =====
-- crates/p11rand-core/src/iso7816.rs: `Source` with `open`, `Source::read` and `read_atr`.
use pkcs11_rand.Base.{
  ℕ, ◌+◌, ◌-◌, ◌/◌, ◌%◌, Bool, true, false, [], ◌∷◌, Result, ok, err, Act, ◌>>=◌, Turn, stop, go_on,
  Filled, fill, length, take, drop, replicate, ltb, ◌==◌, if◌then◌else◌,
}
use pkcs11_rand.Host.{Bytes, Host, Sys, on_world}
use pkcs11_rand.Iso7816.{
  Error, transport, AppId, pcsc, recast, pure, fail, try_get_challenge, probe_app, connect,
}

pub record Source (h : Host) : Type 0 where
  pub card : h.Card
  pub app : AppId
  pub max_chunk : ℕ

-- What a read works on: the source and the process.
pub record Reading (h : Host) : Type 0 where
  pub source : Source h
  pub sys : Sys h

-- Space-separated upper-case hex, `{:02X}` for each byte.
abbrev hex_digit : ℕ → ℕ
hex_digit n = if ltb n 10 then b'0' + n else b'A' + n - 10

unfoldable pub hex_bytes : Bytes → Bytes
hex_bytes [] = []
hex_bytes (b ∷ []) = hex_digit (b / 16) ∷ hex_digit (b % 16) ∷ []
hex_bytes (b ∷ c ∷ bs) = hex_digit (b / 16) ∷ hex_digit (b % 16) ∷ b' ' ∷ hex_bytes (c ∷ bs)

module _ ⦃h : Host⦄ where
  abbrev pub probed : h.Card → Result Error AppId → Sys h → Result Error (Source h) × Sys h
  probed card (ok app) s = (ok (record { card = card; app = app; max_chunk = 128 }), s)
  probed card (err e) s = (err e, on_world (h.disconnect card) s)

  abbrev pub probe : h.Card → Act (Sys h) Error (Source h)
  probe card s = let (r, s') = probe_app card s in probed card r s'

  unfoldable pub open_reader : Bytes → Act (Sys h) Error (Source h)
  open_reader reader = do card ← connect reader; probe card

  -- What the `match` on an answered or refused challenge does.
  abbrev answered : Bytes → Source h → Result Error (Bool × Bytes) → Sys h → Turn (Reading h) Error
  answered buf src (err e) s = stop (err e) buf (record { source = src; sys = s })
  answered buf src (ok (true, target)) s =
      if ltb (length buf) src.max_chunk
      then stop (ok tt) (take (length buf) target) (record { source = src; sys = s })
      else go_on target (drop src.max_chunk buf) (record { source = src; sys = s })
  answered buf src (ok (false, target)) s =
      if ltb 1 src.max_chunk
      then go_on [] buf (record { source = record src { max_chunk = src.max_chunk / 2 }; sys = s })
      else stop (err transport) buf (record { source = src; sys = s })

  -- One turn of the loop of `Source::read`.
  unfoldable pub read_turn : Bytes → Reading h → Turn (Reading h) Error
  read_turn buf r =
      let chunk = r.source.max_chunk in
      let target =
        if ltb (length buf) chunk then take chunk (replicate 256 0) else take chunk buf in
      let (answer, s) = try_get_challenge r.source.card chunk target r.sys in
      if chunk == 0 then stop (err transport) buf r else answered buf r.source answer s

  -- Each turn takes bytes off the buffer or halves the chunk, so the fuel is enough.
  unfoldable pub read : Source h → Bytes → Sys h → Filled (Reading h) Error
  unfolding read_turn fill
  read src buf s =
      fill transport read_turn (length buf + src.max_chunk + 1) buf
        (record { source = src; sys = s })

  abbrev atr_text : Bytes → Act (Sys h) Error Bytes
  atr_text [] = fail transport
  atr_text (b ∷ bs) = pure (hex_bytes (b ∷ bs))

  -- On a failed status the card is dropped, which ends the connection too.
  abbrev pub with_atr : h.Card → Result Error Bytes → Sys h → Result Error Bytes × Sys h
  with_atr card (err e) s = (err e, on_world (h.drop_card card) s)
  with_atr card (ok atr) s = atr_text atr (on_world (h.disconnect card) s)

  unfoldable pub read_atr : Bytes → Act (Sys h) Error Bytes
  read_atr reader = do
    card ← connect reader
    λ s. let (r, s') = recast (pcsc (h.card_atr card)) s in with_atr card r s'
