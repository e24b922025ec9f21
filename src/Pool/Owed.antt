-- ===== src/Pool/Owed.antt =====
-- The bytes that a round of pool.rs takes from all slots: what the configuration asks for.
use native.Mathlib.Nat.{zero-add, suc-add}
use pkcs11_rand.Base.{
  ℕ, zero, suc, ◌+◌, ◌-◌, ◌*◌, ◌/◌, ◌%◌, ◌≤◌, ◌<◌, ◌≡◌, ap, leb, if◌then◌else◌, arith,
}
use pkcs11_rand.Config.{Config, pool_size, slot_ticks, max_ticks}
use pkcs11_rand.Config.Valid.{IsValid}
use pkcs11_rand.Pool.Absorb.{owed, owed_ticks}

-- At tick `t`, from a slot with `a` ticks a round; and from the `n` ticks from `t` on.
due : ℕ → ℕ → ℕ
due a t = if leb a t then 0 else 32

due_sum : ℕ → ℕ → ℕ → ℕ
unfolding due
due_sum a zero t = 0
due_sum a (suc n) t = due a t + due_sum a n (t + 1)

due_sum_all : (a n t : ℕ) → a ≤ t + n → due_sum a n t ≡ 32 * (a - t)
unfolding due_sum due
due_sum_all a zero t h = omega arith
due_sum_all a (suc n) t h = ground (arith, due_sum_all a n (t + 1))

kind_due :
    (n bytes ticks : ℕ)
    → (0 < n → bytes / 32 ≤ ticks)
    → (0 < n → bytes % 32 ≡ 0)
    → n * due_sum (bytes / 32) ticks 0 ≡ n * bytes
kind_due zero bytes ticks le whole = omega arith
kind_due (suc n) bytes ticks le whole = ap (λ (t : ℕ). suc n * t) sum
  where
    sum : due_sum (bytes / 32) ticks 0 ≡ bytes
    sum = omega (
      arith,
      due_sum_all (bytes / 32) ticks 0 (omega (arith, le (omega arith))),
      whole (omega arith),
    )

module _ (c : Config) where
  owed_cards :
      (t n i : ℕ) → i + n ≤ c.iso7816_cards → owed c t n i ≡ n * due (c.iso7816_input_bytes / 32) t
  unfolding owed slot_ticks due
  owed_cards t zero i h = omega arith
  owed_cards t (suc n) i h = ground (arith, owed_cards t n (i + 1))

  owed_devices :
      (t n i : ℕ) → c.iso7816_cards ≤ i → owed c t n i ≡ n * due (c.infnoise_input_bytes / 32) t
  unfolding owed slot_ticks due
  owed_devices t zero i h = omega arith
  owed_devices t (suc n) i h = ground (arith, owed_devices t n (i + 1))

  owed_split : (t n m i : ℕ) → owed c t (n + m) i ≡ owed c t n i + owed c t m (i + n)
  unfolding owed
  owed_split t zero m i = let e : i + 0 ≡ i = omega arith in rw (e, zero-add, zero-add)
  owed_split t (suc n) m i =
      let e : i + suc n ≡ i + 1 + n = omega arith in
      rw (suc-add, e) (omega (arith, owed_split t n m (i + 1)))

  owed_tick :
      (t : ℕ)
      → owed c t (pool_size c) 0
        ≡ c.iso7816_cards * due (c.iso7816_input_bytes / 32) t
          + c.infnoise_devices * due (c.infnoise_input_bytes / 32) t
  unfolding pool_size
  owed_tick t = omega (
    arith,
    owed_split t c.iso7816_cards c.infnoise_devices 0,
    owed_cards t c.iso7816_cards 0 (omega arith),
    owed_devices t c.infnoise_devices (0 + c.iso7816_cards) (omega arith),
  )

  owed_sum :
      (n t : ℕ)
      → owed_ticks c (pool_size c) n t
        ≡ c.iso7816_cards * due_sum (c.iso7816_input_bytes / 32) n t
          + c.infnoise_devices * due_sum (c.infnoise_input_bytes / 32) n t
  unfolding owed_ticks due_sum
  owed_sum zero t = omega arith
  owed_sum (suc n) t = omega (arith, owed_sum n (t + 1), owed_tick t)

  -- For a valid configuration: the bytes that the ticks of a round owe, slot by slot and tick
  -- by tick, are the input bytes of one card times the number of cards plus those of one
  -- device times the number of devices.
  pub owed_round :
      IsValid c
      → owed_ticks c (pool_size c) (max_ticks c) 0
        ≡ c.iso7816_cards * c.iso7816_input_bytes + c.infnoise_devices * c.infnoise_input_bytes
  unfolding max_ticks
  owed_round v = omega (arith, owed_sum (max_ticks c) 0, cards_due, devices_due)
    where
      card_ticks : 0 < c.iso7816_cards → c.iso7816_input_bytes / 32 ≤ max_ticks c
      card_ticks h = ground arith

      device_ticks : 0 < c.infnoise_devices → c.infnoise_input_bytes / 32 ≤ max_ticks c
      device_ticks h = ground arith

      cards_due :
          c.iso7816_cards * due_sum (c.iso7816_input_bytes / 32) (max_ticks c) 0
          ≡ c.iso7816_cards * c.iso7816_input_bytes
      cards_due =
          kind_due c.iso7816_cards c.iso7816_input_bytes (max_ticks c) card_ticks
            (λ h. (v.card_bytes h).1)

      devices_due :
          c.infnoise_devices * due_sum (c.infnoise_input_bytes / 32) (max_ticks c) 0
          ≡ c.infnoise_devices * c.infnoise_input_bytes
      devices_due =
          kind_due c.infnoise_devices c.infnoise_input_bytes (max_ticks c) device_ticks
            (λ h. (v.device_bytes h).1)
