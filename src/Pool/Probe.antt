-- ===== src/Pool/Probe.antt =====
-- `fillable` of pool.rs and the process-wide set-up: what they do to the PC/SC context.
use pkcs11_rand.Base.{
  ℕ, ◌≡◌, refl, ◌∙◌, true, false, Bool, Bool-cases, inl, inr, Option, none, some, List, [], ◌∷◌,
  Result, ok, err, Act, and_then, ltb, leb, if◌then◌else◌,
}
use pkcs11_rand.Host.{Bytes, Host, Sys}
use pkcs11_rand.Config.{Config}
use pkcs11_rand.Pool.{iso7816, infnoise, SlotInner, Error, list_names, open_named}
use pkcs11_rand.Pool.Open.{probed, count_usable, cards_fillable, devices_fillable, fillable}
use pkcs11_rand.Pool.Coherent.{drop_inner-global, list_names-global, open_named-global}

module _ ⦃h : Host⦄ where
  then-global :
      {X Y : Type 0} (r : Result Error X) (t : Sys h) (f : X → Act (Sys h) Error Y)
      → ((x : X) → (f x t).1.global ≡ t.global)
      → (and_then r f t).1.global ≡ t.global
  then-global (ok x) t f q = q x
  then-global (err e) t f q = refl

  probed-global :
      (n : ℕ) (r : Option (SlotInner h)) (s : Sys h) → (probed n r s).1.global ≡ s.global
  probed-global n none s = refl
  probed-global n (some inner) s = drop_inner-global inner s

  count_usable-global :
      (limit : ℕ) (names : List Bytes) (n : ℕ) (s : Sys h)
      → (count_usable limit names n s).1.global ≡ s.global
  unfolding count_usable
  count_usable-global limit [] n s = refl
  count_usable-global limit (r ∷ rs) n s = elim (Bool-cases (leb limit n)) [
    | inl e ↦ rw e refl
    | inr e ↦
        let o = open_named iso7816 r s in
        let p = probed n o.0 o.1 in
        rw e (
          count_usable-global limit rs p.0 p.1
          ∙ probed-global n o.0 o.1
          ∙ open_named-global iso7816 r s)
  ]

  cards-global : (cfg : Config) (s : Sys h) → (cards_fillable cfg s).1.global ≡ s.global
  unfolding cards_fillable
  cards-global cfg s = elim (Bool-cases (ltb 0 cfg.iso7816_cards)) [
    | inl e ↦ rw e (
        then-global (list_names iso7816 s).0 (list_names iso7816 s).1 _
          (λ names. count_usable-global cfg.iso7816_cards names 0 (list_names iso7816 s).1)
        ∙ list_names-global iso7816 s)
    | inr e ↦ rw e refl
  ]

  devices-global : (cfg : Config) (s : Sys h) → (devices_fillable cfg s).1.global ≡ s.global
  unfolding devices_fillable
  devices-global cfg s = elim (Bool-cases (ltb 0 cfg.infnoise_devices)) [
    | inl e ↦ rw e (
        then-global (list_names infnoise s).0 (list_names infnoise s).1 _ (λ names. refl)
        ∙ list_names-global infnoise s)
    | inr e ↦ rw e refl
  ]

  -- `fillable` leaves the PC/SC context and its reference count alone.
  pub fillable-global : (cfg : Config) (s : Sys h) → (fillable cfg s).1.global ≡ s.global
  unfolding fillable
  fillable-global cfg s =
      then-global (cards_fillable cfg s).0 (cards_fillable cfg s).1 _ (λ (b : Bool). enough b)
      ∙ cards-global cfg s
    where
      enough :
          (b : Bool)
          → ((if b then devices_fillable cfg else (λ t. (ok false, t)))
              (cards_fillable cfg s).1).1.global
            ≡ (cards_fillable cfg s).1.global
      enough true = devices-global cfg (cards_fillable cfg s).1
      enough false = refl
