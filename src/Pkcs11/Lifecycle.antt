-- ===== src/Pkcs11/Lifecycle.antt =====
-- `C_Initialize`, `C_Finalize` and `C_GetInfo` of crates/p11rand/src/lib.rs.
use pkcs11_rand.Base.{
  ℕ, Bool, true, false, Option, none, some, [], ◌∷◌, Result, ok, err, Done, replicate, map,
  if◌then◌else◌,
}
use pkcs11_rand.Host.{Bytes, Host}
use pkcs11_rand.Config.{Config, slot_name}
use pkcs11_rand.Pool.{Error}
use pkcs11_rand.Pool.Open.{global_init, global_shutdown, fillable}
use pkcs11_rand.Pkcs11.{
  ckr_ok, ckr_function_failed, ckr_arguments_bad, ckr_cryptoki_not_initialized,
  ckr_cryptoki_already_initialized, Session, Token, Reply, lib_desc, lib_mfr, pad_field, answer,
  drop_sessions,
}

-- `CK_INFO`, without the flags, which are 0.
pub record CkInfo : Type 0 where
  pub cryptoki_version : ℕ × ℕ
  pub manufacturer_id : Bytes
  pub library_description : Bytes
  pub library_version : ℕ × ℕ

-- A pointer is `none` when it is null. Of the arguments only `pReserved` is read.
pub record InitializeArgs : Type 0 where
  pub reserved : Option Done

module _ ⦃h : Host⦄ (cfg : Config) where
  -- One slot is published, whether or not the pool can be filled.
  abbrev pub publish : Bool → Token h → Token h
  publish present t = record {
    state = record {
      initialized = true;
      slots = record { name = slot_name cfg; token_present = present } ∷ [];
      sessions = map (λ (x : Option (Session h)). none) t.sessions;
    };
    sys = drop_sessions t.sessions t.sys;
  }

  abbrev pub filled : Result Error Bool → Token h → Reply h Done
  filled (ok present) t = answer ckr_ok tt (publish present t)
  filled (err e) t = answer ckr_function_failed tt (record t { sys = global_shutdown cfg t.sys })

  abbrev pub set_up : Result Error Done → Token h → Reply h Done
  set_up (err e) t = answer ckr_function_failed tt t
  set_up (ok _) t = let (r, s) = fillable cfg t.sys in filled r (record t { sys = s })

  abbrev pub begin : Token h → Reply h Done
  begin t = let (r, s) = global_init cfg t.sys in set_up r (record t { sys = s })

  abbrev pub checked : Option Done → Token h → Reply h Done
  checked none t = begin t
  checked (some _) t = answer ckr_arguments_bad tt t

  abbrev pub given : Option InitializeArgs → Token h → Reply h Done
  given none t = begin t
  given (some args) t = checked args.reserved t

  unfoldable pub c_initialize : Option InitializeArgs → Token h → Reply h Done
  c_initialize args t =
      if t.initialized then answer ckr_cryptoki_already_initialized tt t else given args t

  abbrev pub torn_down : Token h → Token h
  torn_down t = record {
    state = record {
      initialized = false;
      slots = [];
      sessions = map (λ (x : Option (Session h)). none) t.sessions;
    };
    sys = global_shutdown cfg (drop_sessions t.sessions t.sys);
  }

  abbrev pub finalized : Option Done → Token h → Reply h Done
  finalized (some _) t = answer ckr_arguments_bad tt t
  finalized none t =
      if t.initialized
      then answer ckr_ok tt (torn_down t)
      else answer ckr_cryptoki_not_initialized tt t

  unfoldable pub c_finalize : Option Done → Token h → Reply h Done
  c_finalize reserved t = finalized reserved t

abbrev info : CkInfo
info = record {
  cryptoki_version = (3, 1);
  manufacturer_id = pad_field (replicate 32 0) lib_mfr;
  library_description = pad_field (replicate 32 0) lib_desc;
  library_version = (0, 1);
}

module _ ⦃h : Host⦄ where
  abbrev get_info : Option CkInfo → Token h → Reply h (Option CkInfo)
  get_info none t = answer ckr_arguments_bad none t
  get_info (some old) t =
      if t.initialized
      then answer ckr_ok (some info) t
      else answer ckr_cryptoki_not_initialized (some old) t

  unfoldable pub c_get_info : Option CkInfo → Token h → Reply h (Option CkInfo)
  c_get_info p t = get_info p t
