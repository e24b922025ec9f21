-- ===== src/Examples/Sources.antt =====
-- The theorems on the two entropy sources, and on the configuration, at concrete inputs.
use mathlib.Core.List.{Perm}
use pkcs11_rand.Base.{
  ℕ, ◌+◌, ◌%◌, ◌==◌, ◌≤◌, ◌<◌, ◌≡◌, ◌≢◌, ◌↔◌, refl, some, false, List, [], ◌∷◌, map, ok, fill,
  length, replicate, arith,
}
use pkcs11_rand.Host.{Bytes, Sys}
use pkcs11_rand.Config.{Config, validate, use_chain, pool_size, max_ticks}
use pkcs11_rand.Build.{check, announced_chain, check-IsValid}
use pkcs11_rand.Config.Valid.{IsValid, validate-IsValid, use_chain_off}
use pkcs11_rand.Iso7816.{default_selection, transport, try_get_challenge, sw_of, body_of}
use pkcs11_rand.Iso7816.Source as Card
use pkcs11_rand.Iso7816.Contents.{Delivered, read-Delivered}
use pkcs11_rand.Iso7816.Chunk.{Keeps, read-Keeps, read_fuel}
use pkcs11_rand.Iso7816.FixedLe.{IsFixed, read_fixed}
use pkcs11_rand.Infnoise
use pkcs11_rand.Infnoise.Read.{device_read_fuel}
use pkcs11_rand.Infnoise.Contents as DeviceContents
use pkcs11_rand.Infnoise.Nodes.{Nodes}
use pkcs11_rand.Infnoise.Paths.{IsSorted, list_paths-IsSorted}
use pkcs11_rand.Examples.{Toy, toy, kernel, nodes}

abbrev pub card_source : Card.Source toy
card_source = record { card = 0; app = default_selection; max_chunk = 128 }

-- A card that answers challenges of 32 bytes only.
abbrev pub narrow_source : Card.Source toy
narrow_source = record { card = 32; app = default_selection; max_chunk = 128 }

abbrev pub device_source : Infnoise.Source toy
device_source = record { file = 0; path = [] }

abbrev pub world : Toy
world = record { clock = 5; signals = 2 }

abbrev pub process : Sys toy
process = record { global = record { ctx = some 1; refs = 1 }; world = world }

abbrev pub buffer : Bytes
buffer = replicate 40 1

abbrev pub mixed : Config
mixed = record {
  iso7816_cards = 1;
  infnoise_devices = 1;
  iso7816_input_bytes = 32;
  infnoise_input_bytes = 64;
}

abbrev pub one_card : Config
one_card = record {
  iso7816_cards = 1;
  infnoise_devices = 0;
  iso7816_input_bytes = 32;
  infnoise_input_bytes = 32;
}

pub one_card-IsValid : IsValid one_card
unfolding validate
one_card-IsValid = (validate-IsValid one_card).0 refl

read-Delivered_example :
    Delivered toy buffer
      (record { source = card_source; sys = process })
      (Card.read card_source buffer process)
unfolding Card.read try_get_challenge sw_of body_of
read-Delivered_example = read-Delivered card_source buffer process (omega arith) (omega arith) refl

read-Keeps_example :
    Keeps toy buffer
      (record { source = narrow_source; sys = process })
      (Card.read narrow_source buffer process)
read-Keeps_example = read-Keeps narrow_source buffer process (7, omega arith, refl)

read_fuel_example :
    fill transport
      (Card.read_turn ⦃h = toy⦄)
      (length buffer + 128 + 1 + 50)
      buffer
      (record { source = card_source; sys = process })
    ≡ Card.read card_source buffer process
read_fuel_example = read_fuel card_source buffer process 50

device_read_fuel_example :
    fill Infnoise.io (Infnoise.read_turn device_source) (length buffer + 2 + 1 + 9) buffer process
    ≡ Infnoise.read device_source buffer process
device_read_fuel_example = device_read_fuel kernel device_source buffer process 9

list_paths-IsSorted_example :
    (es found : List (ℕ × Bytes)) × (Infnoise.list_paths process
      ≡ (ok (map Infnoise.second es), process))
    × Nodes nodes found
    × Perm es found
    × IsSorted es
list_paths-IsSorted_example = list_paths-IsSorted process nodes world refl

validate-IsValid_example : (validate mixed ≡ ok tt) ↔ IsValid mixed
validate-IsValid_example = validate-IsValid mixed

use_chain_off_example : (pool_size one_card ≡ 1) × (max_ticks one_card ≡ 1)
unfolding use_chain
use_chain_off_example = use_chain_off one_card one_card-IsValid refl

other_size : (n : ℕ) → n ≢ 32 → 0 < n → n ≤ 256 → ((n % 256) == 32) ≡ false
other_size n ne pos fit = ground (arith, ne, pos, fit)

narrow_source-IsFixed : IsFixed toy 32 32
unfolding sw_of body_of
narrow_source-IsFixed = record {
  answers = λ w. (_, _, refl, refl, refl);
  refuses = λ n w ne pos fit. (
    0x67 ∷ 0x00 ∷ [],
    record w { clock = w.clock + 1 },
    rw (other_size n ne pos fit) refl,
    λ q. omega (arith, q),
  );
}

read_fixed_example :
    ((Card.read narrow_source buffer process).status ≡ ok tt)
    × (buffer ≢ [] → (Card.read narrow_source buffer process).state.source.max_chunk ≡ 32)
read_fixed_example =
    read_fixed 32 (omega arith) narrow_source buffer process 2 (omega arith) narrow_source-IsFixed
      refl

check-IsValid_example :
    ((check mixed ≡ ok tt) ↔ IsValid mixed) × (announced_chain mixed ≡ use_chain mixed)
check-IsValid_example = check-IsValid mixed
