-- ===== src/Pkcs11/Context.antt =====
-- The reference count of the PC/SC context in iso7816.rs, as the PKCS#11 module of
-- crates/p11rand/src/lib.rs uses it.
use mathlib.Core.Path.{subst}
use pkcs11_rand.Base.{
  ◌≡◌, refl, ◌∙◌, true, false, Bool, Bool-cases, inl, inr, Option, none, some, List, [], ◌∷◌,
  Result, ok, err, Done, Result-cases, ltb, map_err,
}
use pkcs11_rand.Host.{Host, Global, Sys}
use pkcs11_rand.Config.{Config}
use pkcs11_rand.Iso7816
use pkcs11_rand.Pool.{Error, resource, drop_pool}
use pkcs11_rand.Pool.Open.{global_init, global_shutdown}
use pkcs11_rand.Pool.Coherent.{drop_slots-global}
use pkcs11_rand.Pkcs11.{Session, drop_session, drop_sessions}

-- The context is held once, or not at all.
abbrev pub Held : (h : Host) → Bool → Global h → Type 0
Held h true g = (g.refs ≡ 1) × (c : h.Context) × (g.ctx ≡ some c)
Held h false g = (g.refs ≡ 0) × (g.ctx ≡ none)

module _ ⦃h : Host⦄ where
  -- What `global_init` leaves behind, on success and on failure.
  abbrev pub Entered : Bool → Result Error Done → Global h → Type 0
  Entered b (ok u) g = Held h b g
  Entered b (err e) g = Held h false g

  pub first_init :
      (s : Sys h)
      → Held h false s.global
      → Entered true (map_err resource (Iso7816.global_init s).0) (Iso7816.global_init s).1.global
  unfolding Iso7816.global_init
  first_init s v = elim (Result-cases ((h.establish s.world).0)) [
    | inl (c, e) ↦ rw (v.0, e) (refl, c, refl)
    | inr (x, e) ↦ rw (v.0, e) (refl, v.1)
  ]

  pub global_init-Held :
      (cfg : Config) (s : Sys h)
      → Held h false s.global
      → Entered (ltb 0 cfg.iso7816_cards) (global_init cfg s).0 (global_init cfg s).1.global
  unfolding global_init
  global_init-Held cfg s v = elim (Bool-cases (ltb 0 cfg.iso7816_cards)) [
    | inl e ↦ rw e (first_init s v)
    | inr e ↦ rw e v
  ]

  pub last_shutdown :
      (s : Sys h) → Held h true s.global → Held h false (Iso7816.global_shutdown s).global
  unfolding Iso7816.global_shutdown
  last_shutdown s v = rw (v.0, v.2) (refl, refl)

  pub global_shutdown-Held :
      (cfg : Config) (s : Sys h)
      → Held h (ltb 0 cfg.iso7816_cards) s.global
      → Held h false (global_shutdown cfg s).global
  unfolding global_shutdown
  global_shutdown-Held cfg s v = elim (Bool-cases (ltb 0 cfg.iso7816_cards)) [
    | inl e ↦ rw e (last_shutdown s (subst (λ b. Held h b s.global) e v))
    | inr e ↦ rw e (subst (λ b. Held h b s.global) e v)
  ]

  pub drop_session-global :
      (x : Option (Session h)) (s : Sys h) → (drop_session x s).global ≡ s.global
  unfolding drop_pool
  drop_session-global none s = refl
  drop_session-global (some x) s = drop_slots-global x.pool.slots s

  pub drop_sessions-global :
      (xs : List (Option (Session h))) (s : Sys h) → (drop_sessions xs s).global ≡ s.global
  unfolding drop_sessions
  drop_sessions-global [] s = refl
  drop_sessions-global (x ∷ xs) s =
      drop_sessions-global xs (drop_session x s) ∙ drop_session-global x s
