-- ===== src/Examples/Pools.antt =====
-- The theorems on the pool at concrete inputs: a card and a device, hashed into one chain.
use pkcs11_rand.Base.{
  zero, suc, ◌+◌, ◌*◌, ◌≡◌, refl, none, [], ◌∷◌, fill, length, some_inj, sym, ap, ◌∙◌, arith,
}
use pkcs11_rand.Config.{validate, pool_size, max_ticks}
use pkcs11_rand.Config.Valid.{IsValid, validate-IsValid}
use pkcs11_rand.Pool.{
  iso7816, infnoise, Slot, card, device, read_failure, Pool, Live, live_slot, zeros,
}
use pkcs11_rand.Pool.Open.{open_pool}
use pkcs11_rand.Pool.Opened.{IsOpened, open_pool-IsOpened}
use pkcs11_rand.Pool.Rebind.{rebind}
use pkcs11_rand.Pool.Rebound.{Rebound, rebind-Rebound}
use pkcs11_rand.Pool.Round.{Tick, fan_out, do_round_chain}
use pkcs11_rand.Pool.Fetched.{at_once, nothing_got}
use pkcs11_rand.Pool.Workers.{Worked, fan_out-Worked}
use pkcs11_rand.Pool.Distinct.{Distinct}
use pkcs11_rand.Pool.Safe.{Safe-refl}
use pkcs11_rand.Pool.Absorb.{owed_ticks}
use pkcs11_rand.Pool.Owed.{owed_round}
use pkcs11_rand.Pool.Chain.{IsWell, RoundLaw, do_round_chain-RoundLaw}
use pkcs11_rand.Pool.Read.{round_turn, read_chain, read}
use pkcs11_rand.Pool.Stream.{StreamLaw, read_chain-StreamLaw, read_chain_fuel}
use pkcs11_rand.Pool.Raw.{ReadLaw, read-ReadLaw}
use pkcs11_rand.Examples.{toy, kernel, digests, listings}
use pkcs11_rand.Examples.Sources.{card_source, device_source, process, buffer, mixed}

pub mixed-IsValid : IsValid mixed
unfolding validate
mixed-IsValid = (validate-IsValid mixed).0 refl

abbrev card_slot : Slot toy
card_slot = live_slot iso7816 (b'A' ∷ []) (card card_source)

abbrev device_slot : Slot toy
device_slot = live_slot infnoise (b'B' ∷ []) (device device_source)

abbrev pub pool : Pool toy
pool = record { config = mixed; slots = card_slot ∷ device_slot ∷ []; state = zeros }

abbrev live : Live toy
live = record { pool = pool; sys = process }

apart : Distinct pool.slots
apart zero zero a b ne ea eb c = ne refl
apart zero (suc zero) a b ne ea eb c =
    let k : iso7816 ≡ infnoise =
      ap (λ (x : Slot toy). x.kind) (some_inj ea)
      ∙ c.kinds
      ∙ sym (ap (λ (x : Slot toy). x.kind) (some_inj eb)) in
    cc
apart (suc zero) zero a b ne ea eb c =
    let k : infnoise ≡ iso7816 =
      ap (λ (x : Slot toy). x.kind) (some_inj ea)
      ∙ c.kinds
      ∙ sym (ap (λ (x : Slot toy). x.kind) (some_inj eb)) in
    cc
apart (suc zero) (suc zero) a b ne ea eb c = ne refl
apart i (suc (suc j)) a b ne ea eb c = absurd (cc)
apart (suc (suc i)) j a b ne ea eb c = absurd (cc)

pub pool-IsWell : IsWell toy pool
pool-IsWell = record {
  valid = mixed-IsValid;
  shaped = record {
    kinds = refl;
    coherent = ((refl, (_, refl), (7, omega arith, refl)), ((refl, (_, refl)), tt));
    distinct = apart;
  };
  chain = refl;
}

do_round_chain-RoundLaw_example : RoundLaw toy live (do_round_chain live).0 (do_round_chain live).1
do_round_chain-RoundLaw_example = do_round_chain-RoundLaw kernel digests live pool-IsWell

read-ReadLaw_example : ReadLaw toy buffer live (read buffer live)
read-ReadLaw_example = read-ReadLaw kernel digests buffer live pool-IsWell

read_chain-StreamLaw_example : StreamLaw toy buffer live (read_chain buffer live)
read_chain-StreamLaw_example = read_chain-StreamLaw kernel digests buffer live pool-IsWell

read_chain_fuel_example :
    fill read_failure round_turn (length buffer + 1 + 7) buffer live ≡ read_chain buffer live
read_chain_fuel_example = read_chain_fuel buffer live 7

rebind-Rebound_example : Rebound toy 1 device_slot live (rebind 1 live).0 (rebind 1 live).1
rebind-Rebound_example = rebind-Rebound 1 device_slot live refl

open_pool-IsOpened_example : IsOpened toy mixed process (open_pool mixed process)
open_pool-IsOpened_example = open_pool-IsOpened listings mixed process

owed_round_example : owed_ticks mixed (pool_size mixed) (max_ticks mixed) 0 ≡ 1 * 32 + 1 * 64
owed_round_example = owed_round mixed mixed-IsValid

abbrev tick : Tick toy
tick = record { slots = pool.slots; scratch = none ∷ none ∷ []; sys = process }

fan_out-Worked_example : Worked toy mixed 0 live live (fan_out mixed 0 (1 ∷ 0 ∷ []) tick)
fan_out-Worked_example = fan_out-Worked kernel mixed live live 0 (1 ∷ 0 ∷ []) tick (record {
  safe = Safe-refl mixed live pool-IsWell.shaped;
  later = at_once;
  fetched = λ i buf e. absurd (nothing_got 2 i buf e);
})
