-- ===== src/Build.antt =====
-- The checks of crates/p11rand/build.rs, which writes the constants that the module's configuration is
-- made of. Reading the environment and writing the file are left out; a panic is an error here.
use pkcs11_rand.Base.{
  ◌+◌, ◌%◌, ◌≡◌, ◌↔◌, Bool, not, ◌&&◌, ◌||◌, Result, ok, err, Done, ltb, ◌==◌, arith, if◌then◌else◌,
}
use pkcs11_rand.Config.{Config, use_chain, pool_size}
use pkcs11_rand.Config.Valid.{IsValid}

-- Which of the three panics.
pub data Refusal : Type 0 where
  no_source bad_iso7816_input bad_infnoise_input : Refusal

unfoldable pub check : Config → Result Refusal Done
check cfg =
    if ltb (cfg.iso7816_cards + cfg.infnoise_devices) 1
    then err no_source
    else if ltb 0 cfg.iso7816_cards
        && (ltb cfg.iso7816_input_bytes 32 || not (cfg.iso7816_input_bytes % 32 == 0))
    then err bad_iso7816_input
    else if ltb 0 cfg.infnoise_devices
        && (ltb cfg.infnoise_input_bytes 32 || not (cfg.infnoise_input_bytes % 32 == 0))
    then err bad_infnoise_input
    else ok tt

-- The `use_chain` that is printed.
unfoldable pub announced_chain : Config → Bool
announced_chain cfg =
    ltb 1 (cfg.iso7816_cards + cfg.infnoise_devices)
    || (ltb 0 cfg.iso7816_cards && ltb 32 cfg.iso7816_input_bytes)
    || (ltb 0 cfg.infnoise_devices && ltb 32 cfg.infnoise_input_bytes)

-- The build script's guards accept exactly the configurations that are valid for the pool, as
-- `IsValid` says,, and the chain that it announces is in use exactly if `use_chain` says so.
pub check-IsValid :
    (cfg : Config) → ((check cfg ≡ ok tt) ↔ IsValid cfg) × (announced_chain cfg ≡ use_chain cfg)
unfolding check announced_chain use_chain pool_size
check-IsValid cfg = (
  (
    λ e. record {
      some_source = ground arith;
      card_bytes = λ h. ground arith;
      device_bytes = λ h. ground arith;
    },
    λ v. ground (arith, v.card_bytes, v.device_bytes, v.some_source),
  ),
  ground arith,
)
