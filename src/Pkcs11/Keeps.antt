-- ===== src/Pkcs11/Keeps.antt =====
-- `C_Initialize` and `C_Finalize` of crates/p11rand/src/lib.rs keep the module's invariant.
use mathlib.Core.Path.{subst}
use pkcs11_rand.Base.{
  ◌≡◌, refl, sym, ◌∙◌, true, false, Bool, ◌&&◌, inl, inr, Option, none, some, Option-cases, Result,
  ok, err, Done, length-map, ltb,
}
use pkcs11_rand.Host.{Host, Sys}
use pkcs11_rand.Config.{Config}
use pkcs11_rand.Pool.{Error}
use pkcs11_rand.Pool.Open.{global_init, fillable}
use pkcs11_rand.Pool.Probe.{fillable-global}
use pkcs11_rand.Pkcs11.{Session, Token, answer, ckr_ok, drop_sessions}
use pkcs11_rand.Pkcs11.Lifecycle.{
  InitializeArgs, publish, filled, set_up, begin, given, torn_down, c_initialize, c_finalize,
}
use pkcs11_rand.Pkcs11.Context.{
  Held, Entered, global_init-Held, global_shutdown-Held, drop_sessions-global,
}
use pkcs11_rand.Pkcs11.Ready.{IsReady, empty_entries, branch-IsReady}

module _ ⦃h : Host⦄ (cfg : Config) where
  publish-IsReady :
      (b : Bool) (t : Token h) (s : Sys h)
      → IsReady h cfg t
      → Held h (ltb 0 cfg.iso7816_cards) s.global
      → IsReady h cfg (publish cfg b (record t { sys = s }))
  publish-IsReady b t s v c = record {
    table = length-map t.sessions (λ (x : Option (Session h)). none) ∙ v.table;
    slots = refl;
    sessions = empty_entries cfg true t.sessions;
    context = subst (Held h (ltb 0 cfg.iso7816_cards)) (sym (drop_sessions-global t.sessions s)) c;
  }

  -- With the module not initialized, and the process in any state that does not hold the context.
  down-IsReady :
      (t : Token h) (s : Sys h)
      → t.initialized ≡ false
      → IsReady h cfg t
      → Held h false s.global
      → IsReady h cfg (record t { sys = s })
  down-IsReady t s e v c = record {
    table = v.table;
    slots = v.slots;
    sessions = v.sessions;
    context = subst (λ (b : Bool). Held h (b && ltb 0 cfg.iso7816_cards) s.global) (sym e) c;
  }

  filled-IsReady :
      (r : Result Error Bool) (t : Token h) (s : Sys h)
      → t.initialized ≡ false
      → IsReady h cfg t
      → Held h (ltb 0 cfg.iso7816_cards) s.global
      → IsReady h cfg (filled cfg r (record t { sys = s })).token
  filled-IsReady (ok b) t s e v c = publish-IsReady b t s v c
  filled-IsReady (err x) t s e v c = down-IsReady t _ e v (global_shutdown-Held cfg s c)

  set_up-IsReady :
      (r : Result Error Done) (t : Token h) (s : Sys h)
      → t.initialized ≡ false
      → IsReady h cfg t
      → Entered (ltb 0 cfg.iso7816_cards) r s.global
      → IsReady h cfg (set_up cfg r (record t { sys = s })).token
  set_up-IsReady (err x) t s e v c = down-IsReady t s e v c
  set_up-IsReady (ok tt) t s e v c =
      filled-IsReady (fillable cfg s).0 t (fillable cfg s).1 e v
        (subst (Held h (ltb 0 cfg.iso7816_cards)) (sym (fillable-global cfg s)) c)

  begin-IsReady :
      (t : Token h) → t.initialized ≡ false → IsReady h cfg t → IsReady h cfg (begin cfg t).token
  begin-IsReady t e v =
      let c =
        subst (λ (b : Bool). Held h (b && ltb 0 cfg.iso7816_cards) t.sys.global) e v.context in
      set_up-IsReady (global_init cfg t.sys).0 t (global_init cfg t.sys).1 e v
        (global_init-Held cfg t.sys c)

  given-IsReady :
      (args : Option InitializeArgs) (t : Token h)
      → t.initialized ≡ false
      → IsReady h cfg t
      → IsReady h cfg (given cfg args t).token
  given-IsReady none t e v = begin-IsReady t e v
  given-IsReady (some args) t e v = elim (Option-cases args.reserved) [
    | inl q ↦ rw q (begin-IsReady t e v)
    | inr (x, q) ↦ rw q v
  ]

  pub initialize-IsReady :
      (args : Option InitializeArgs) (t : Token h)
      → IsReady h cfg t
      → IsReady h cfg (c_initialize cfg args t).token
  unfolding c_initialize
  initialize-IsReady args t v =
      branch-IsReady cfg t.initialized _ (given cfg args t) (λ e. v) (λ e. given-IsReady args t e v)

  torn_down-IsReady :
      (t : Token h) → t.initialized ≡ true → IsReady h cfg t → IsReady h cfg (torn_down cfg t)
  torn_down-IsReady t e v = record {
    table = length-map t.sessions (λ (x : Option (Session h)). none) ∙ v.table;
    slots = refl;
    sessions = empty_entries cfg false t.sessions;
    context = global_shutdown-Held cfg (drop_sessions t.sessions t.sys) (
        subst (Held h (ltb 0 cfg.iso7816_cards)) (sym (drop_sessions-global t.sessions t.sys))
          (subst (λ (b : Bool). Held h (b && ltb 0 cfg.iso7816_cards) t.sys.global) e v.context));
  }

  pub finalize-IsReady :
      (reserved : Option Done) (t : Token h)
      → IsReady h cfg t
      → IsReady h cfg (c_finalize cfg reserved t).token
  unfolding c_finalize
  finalize-IsReady (some x) t v = v
  finalize-IsReady none t v =
      branch-IsReady cfg t.initialized (answer ckr_ok tt (torn_down cfg t)) _
        (λ e. torn_down-IsReady t e v) (λ e. v)
