-- ===== src/Config.antt =====
-- `Config` of crates/p11rand-core/src/pool.rs. Sums of counts do not wrap in the model.
pub mod Valid
use Prim.Native.Char.{code}
use Prim.Native.String.{String}
use pkcs11_rand.Base.{
  ℕ, zero, suc, ◌+◌, ◌/◌, ◌%◌, max, Bool, ◌&&◌, ◌||◌, not, List, [], ◌∷◌, ◌++◌, Result, ok, err,
  Done, ltb, ◌==◌, if◌then◌else◌,
}
use pkcs11_rand.Host.{Bytes}

abbrev pub tick_bytes : ℕ
tick_bytes = 32

abbrev pub round_bytes : ℕ
round_bytes = 32

pub record Config : Type 0 where
  pub iso7816_cards : ℕ
  pub infnoise_devices : ℕ
  pub iso7816_input_bytes : ℕ
  pub infnoise_input_bytes : ℕ

abbrev pub default : Config
default = record {
  iso7816_cards = 1;
  infnoise_devices = 0;
  iso7816_input_bytes = 32;
  infnoise_input_bytes = 32;
}

-- The bytes of a literal.
abbrev pub text : String → Bytes
text String.[] = []
text (String.◌∷◌ c s) = code c ∷ text s

-- A number as `{}` prints it. A number has no more digits than its value plus one.
digits_from : ℕ → ℕ → Bytes → Bytes
digits_from zero n acc = acc
digits_from (suc fuel) n acc =
    let acc' = (b'0' + n % 10) ∷ acc in
    let rest = digits_from fuel (n / 10) acc' in if ltb n 10 then acc' else rest

unfoldable pub decimal : ℕ → Bytes
unfolding digits_from
decimal n = digits_from (suc n) n []

module _ (c : Config) where
  unfoldable pub pool_size : ℕ
  pool_size = c.iso7816_cards + c.infnoise_devices

  unfoldable pub validate : Result Bytes Done
  unfolding pool_size
  validate =
      if ltb pool_size 1
      then err (text "Need at least one source: iso7816_cards or infnoise_devices >= 1")
      else if ltb 0 c.iso7816_cards
          && (ltb c.iso7816_input_bytes 32 || not (c.iso7816_input_bytes % 32 == 0))
      then err (text "iso7816_input_bytes must be >= 32 and a multiple of 32")
      else if ltb 0 c.infnoise_devices
          && (ltb c.infnoise_input_bytes 32 || not (c.infnoise_input_bytes % 32 == 0))
      then err (text "infnoise_input_bytes must be >= 32 and a multiple of 32")
      else ok tt

  unfoldable pub use_chain : Bool
  unfolding pool_size
  use_chain =
      let iso_oversampled = ltb 0 c.iso7816_cards && ltb 32 c.iso7816_input_bytes in
      let inf_oversampled = ltb 0 c.infnoise_devices && ltb 32 c.infnoise_input_bytes in
      ltb 1 pool_size || iso_oversampled || inf_oversampled

  unfoldable pub slot_name : Bytes
  slot_name =
      if ltb 0 c.iso7816_cards && ltb 0 c.infnoise_devices
      then text "rng-pool[iso7816="
        ++ (decimal c.iso7816_cards
            ++ (text ",infnoise=" ++ (decimal c.infnoise_devices ++ text "]")))
      else if c.iso7816_cards == 1 && c.infnoise_devices == 0
      then text "iso7816"
      else if ltb 0 c.iso7816_cards
      then text "rng-pool[iso7816=" ++ (decimal c.iso7816_cards ++ text "]")
      else if c.infnoise_devices == 1
      then text "infnoise"
      else text "rng-pool[infnoise=" ++ (decimal c.infnoise_devices ++ text "]")

  unfoldable pub backend_label : Bytes
  unfolding use_chain
  backend_label =
      if not use_chain
      then (if c.iso7816_cards == 1 then text "GET CHALLENGE RNG" else text "Infinite Noise TRNG")
      else if ltb 0 c.iso7816_cards && ltb 0 c.infnoise_devices
      then decimal c.iso7816_cards
        ++ (text "x iso7816 + " ++ (decimal c.infnoise_devices ++ text "x inf + SHA3"))
      else if ltb 0 c.iso7816_cards
      then decimal c.iso7816_cards ++ text "x iso7816 + SHA3-256"
      else decimal c.infnoise_devices ++ text "x infnoise + SHA3-256"

  unfoldable pub backend_model : Bytes
  unfolding use_chain
  backend_model =
      if not use_chain && c.iso7816_cards == 1
      then text "ISO7816-RNG"
      else if not use_chain
      then text "INFNOISE"
      else text "RNG-POOL"

  unfoldable pub slot_ticks : ℕ → ℕ
  slot_ticks idx =
      if ltb idx c.iso7816_cards
      then c.iso7816_input_bytes / tick_bytes
      else c.infnoise_input_bytes / tick_bytes

  unfoldable pub max_ticks : ℕ
  max_ticks =
      let iso : ℕ = if ltb 0 c.iso7816_cards then c.iso7816_input_bytes / tick_bytes else 0 in
      let inf : ℕ = if ltb 0 c.infnoise_devices then c.infnoise_input_bytes / tick_bytes else 0 in
      max iso inf
