-- ===== src/Tools/P11rand.antt =====
-- The module of crates/p11rand/src/lib.rs as the module that the tools of crates/p11rand-tools load.
use pkcs11_rand.Base.{ℕ, Bool, true, false, Option, none, some, Done}
use pkcs11_rand.Host.{Host}
use pkcs11_rand.Config.{Config}
use pkcs11_rand.Pkcs11.{
  CkRv, ckr_ok, ckr_host_memory, ckr_slot_id_invalid, ckr_function_failed, ckr_arguments_bad,
  ckr_device_error, ckr_function_not_supported, ckr_mechanism_invalid, ckr_session_handle_invalid,
  ckr_session_parallel_not_supported, ckr_token_not_present, ckr_random_seed_not_supported,
  ckr_buffer_too_small, ckr_cryptoki_not_initialized, ckr_cryptoki_already_initialized,
  SessionFlags, Token, Reply,
}
use pkcs11_rand.Pkcs11.Lifecycle.{c_initialize, c_finalize}
use pkcs11_rand.Pkcs11.Slots.{c_get_slot_list, c_get_slot_info, c_get_token_info}
use pkcs11_rand.Pkcs11.Sessions.{c_open_session, c_close_session, c_generate_random}
use pkcs11_rand.Pkcs11.Functions.{c_get_function_list}
use pkcs11_rand.Pkcs11.Interfaces.{FunctionList}
use pkcs11_rand.Tools.{Machine}

-- The numbers of the return codes.
abbrev pub code_number : CkRv → ℕ
code_number ckr_ok = 0
code_number ckr_host_memory = 0x2
code_number ckr_slot_id_invalid = 0x3
code_number ckr_function_failed = 0x6
code_number ckr_arguments_bad = 0x7
code_number ckr_device_error = 0x30
code_number ckr_function_not_supported = 0x54
code_number ckr_mechanism_invalid = 0x70
code_number ckr_session_handle_invalid = 0xB3
code_number ckr_session_parallel_not_supported = 0xB4
code_number ckr_token_not_present = 0xE0
code_number ckr_random_seed_not_supported = 0x120
code_number ckr_buffer_too_small = 0x150
code_number ckr_cryptoki_not_initialized = 0x190
code_number ckr_cryptoki_already_initialized = 0x191

-- CKF_SERIAL_SESSION
abbrev pub serial_session : SessionFlags
serial_session = record { serial_session = true; rw_session = false; others = 0 }

-- The memory that the caller passed, after the call.
abbrev memory : {A : Type 0} → A → Option A → A
memory old none = old
memory old (some a) = a

module _ ⦃h : Host⦄ where
  abbrev pub replied : {A : Type 0} → A → Reply h (Option A) → (ℕ × A) × Token h
  replied old r = ((code_number r.rv, memory old r.out), r.token)

  abbrev pub coded : Reply h Done → ℕ × Token h
  coded r = (code_number r.rv, r.token)

  -- Whether a null pointer was left.
  abbrev is_null : Option (Option FunctionList) → Bool
  is_null none = true
  is_null (some none) = true
  is_null (some (some l)) = false

  abbrev pub listed : Reply h (Option (Option FunctionList)) → ℕ × Bool
  listed r = (code_number r.rv, is_null r.out)

  -- A machine on which the loaded module is this one. `meanwhile` is what a sleep does to the devices.
  abbrev pub p11rand : Config → (ℕ → h.World → h.World) → Machine → Machine
  p11rand cfg meanwhile m = record {
    Module = Token h;
    World = m.World;
    c_initialize = λ t. coded (c_initialize cfg none t);
    c_finalize = λ t. coded (c_finalize cfg none t);
    c_get_slot_list = λ present l t. replied l (c_get_slot_list cfg present (some l) t);
    c_get_slot_info = λ slot i t. replied i (c_get_slot_info cfg slot (some i) t);
    c_get_token_info = λ slot i t. replied i (c_get_token_info cfg slot (some i) t);
    c_open_session =
        λ slot old t. replied old (c_open_session cfg slot serial_session (some old) t);
    c_close_session = λ sess t. coded (c_close_session sess t);
    c_generate_random = λ sess buf n t. replied buf (c_generate_random sess (some buf) n t);
    dlopen = m.dlopen;
    dlsym = m.dlsym;
    c_get_function_list = λ t. listed (c_get_function_list (some none) t);
    arrived = m.arrived;
    write = m.write;
    open_random = m.open_random;
    write_random = m.write_random;
    rnd_add_entropy = m.rnd_add_entropy;
    rnd_reseed_crng = m.rnd_reseed_crng;
    now = m.now;
    sleep = λ n t. record t { sys = record t.sys { world = meanwhile n t.sys.world } };
    nap = m.nap;
    F64 = m.F64;
    parse_f64 = m.parse_f64;
    default_interval = m.default_interval;
    le_zero = m.le_zero;
    lt_zero = m.lt_zero;
    at_least = m.at_least;
    from_secs = m.from_secs;
  }
