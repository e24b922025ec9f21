-- ===== src/Config/Valid.antt =====
-- What `Config::validate` of pool.rs accepts, and what an accepted configuration gives.
use pkcs11_rand.Base.{◌+◌, ◌%◌, ◌≤◌, ◌<◌, ◌≡◌, ◌↔◌, false, ok, arith}
use pkcs11_rand.Config.{Config, pool_size, validate, use_chain, max_ticks}

-- At least one source; and of each kind in use, whole ticks of input and at least one.
pub record IsValid (c : Config) : Type 0 where
  pub some_source : 1 ≤ c.iso7816_cards + c.infnoise_devices
  pub card_bytes :
      0 < c.iso7816_cards → (32 ≤ c.iso7816_input_bytes) × (c.iso7816_input_bytes % 32 ≡ 0)
  pub device_bytes :
      0 < c.infnoise_devices → (32 ≤ c.infnoise_input_bytes) × (c.infnoise_input_bytes % 32 ≡ 0)

-- `validate` accepts a configuration exactly if it has a source, and for each kind that it uses
-- at least 32 input bytes, in multiples of 32.
pub validate-IsValid : (c : Config) → (validate c ≡ ok tt) ↔ IsValid c
unfolding validate
validate-IsValid c = (
  (λ e. record {
    some_source = ground arith;
    card_bytes = λ h. ground arith;
    device_bytes = λ h. ground arith;
  }),
  λ v. ground (arith, v.card_bytes, v.device_bytes),
)

-- A valid configuration that does not use the chain has one source and one tick a round.
pub use_chain_off :
    (c : Config) → IsValid c → use_chain c ≡ false → (pool_size c ≡ 1) × (max_ticks c ≡ 1)
unfolding use_chain max_ticks
use_chain_off c v e = ground (arith, v.card_bytes, v.device_bytes)
