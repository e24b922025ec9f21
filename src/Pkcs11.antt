-- ===== src/Pkcs11.antt =====
-- crates/p11rand/src/lib.rs: the state of the PKCS#11 module behind its mutex, and the helpers that
-- its entry points share. A call holds the lock from its guards to its end, so it is one step.
pub mod Lifecycle
pub mod Slots
pub mod Sessions
pub mod Context
pub mod Ready
pub mod Keeps
pub mod SessionKeeps
pub mod SlotKeeps
pub mod Reach
pub mod Handles
pub mod Closing
pub mod ClosingAll
pub mod Random
pub mod Field
pub mod Listing
pub mod Listed
pub mod Interfaces
pub mod Functions
pub mod Initialized
use pkcs11_rand.Base.{
  ℕ, suc, ◌-◌, min, Bool, true, false, Option, none, some, List, [], ◌∷◌, ◌++◌, Result, ok, err,
  length, get_elem?, set, take, drop, replicate, ltb, ◌==◌, if◌then◌else◌,
}
use pkcs11_rand.Host.{Bytes, Host, Sys}
use pkcs11_rand.Config.{Config, text}
use pkcs11_rand.Pool.{Error, Pool, drop_pool}
use pkcs11_rand.Pool.Open.{fillable}

-- The return codes in use.
pub data CkRv : Type 0 where
  ckr_ok ckr_host_memory ckr_slot_id_invalid ckr_function_failed ckr_arguments_bad : CkRv
  ckr_device_error ckr_function_not_supported ckr_mechanism_invalid : CkRv
  ckr_session_handle_invalid ckr_session_parallel_not_supported ckr_token_not_present : CkRv
  ckr_random_seed_not_supported ckr_buffer_too_small ckr_cryptoki_not_initialized : CkRv
  ckr_cryptoki_already_initialized : CkRv

-- The flags of a session: the two bits that the module tests, and the other bits of the word.
pub record SessionFlags : Type 0 where
  pub serial_session : Bool
  pub rw_session : Bool
  pub others : ℕ

pub record SlotState : Type 0 where
  pub name : Bytes
  pub token_present : Bool

pub record Session (h : Host) : Type 0 where
  pub slot : ℕ
  pub flags : SessionFlags
  pub pool : Pool h

pub record Module (h : Host) : Type 0 where
  pub initialized : Bool
  pub slots : List SlotState
  pub sessions : List (Option (Session h))

-- The module in its process.
pub record Token (h : Host) : Type 0 where
  pub state : Module h
  pub open state use *
  pub sys : Sys h

-- What a call gives: the code, the caller's memory and the module after it.
pub record Reply (h : Host) (A : Type 0) : Type 0 where
  pub rv : CkRv
  pub out : A
  pub token : Token h

abbrev pub max_sessions : ℕ
max_sessions = 64

abbrev pub lib_desc : Bytes
lib_desc = text "mini-pkcs11-rand RNG provider"

abbrev pub lib_mfr : Bytes
lib_mfr = text "mini-pkcs11-rand"

-- `dst[n..].fill(b' ')`, if anything is left of `dst`.
abbrev pub blank : ℕ → Bytes → Bytes
blank n dst = if ltb n (length dst) then replicate (length dst - n) 0x20 else drop n dst

unfoldable pub pad_field : Bytes → Bytes → Bytes
pad_field dst src = let n = min (length src) (length dst) in take n src ++ blank n dst

-- `unwrap_or(false)`
abbrev pub or_false : Result Error Bool → Bool
or_false (ok b) = b
or_false (err e) = false

module _ ⦃h : Host⦄ where
  abbrev pub answer : {A : Type 0} → CkRv → A → Token h → Reply h A
  answer rv out t = record { rv = rv; out = out; token = t }

  abbrev pub with_slots : List SlotState → Token h → Token h
  with_slots slots t = record t { state = record t.state { slots = slots } }

  abbrev pub with_sessions : List (Option (Session h)) → Token h → Token h
  with_sessions sessions t = record t { state = record t.state { sessions = sessions } }

  abbrev pub mark_at : Bool → List SlotState → ℕ → Option SlotState → List SlotState
  mark_at present slots i none = slots
  mark_at present slots i (some slot) = set slots i (record slot { token_present = present })

  -- `m.slots[i].token_present = present`
  abbrev pub marked : Bool → List SlotState → ℕ → List SlotState
  marked present slots i = mark_at present slots i (get_elem? slots i)

  -- `i` is a slot of the module in every call.
  unfoldable pub refresh_slot : Config → ℕ → Token h → Bool × Token h
  refresh_slot cfg i t =
      let (r, s) = fillable cfg t.sys in
      (or_false r, record (with_slots (marked (or_false r) t.slots i) t) { sys = s })

  abbrev pub in_use : ℕ → Option (Option (Session h)) → Option ℕ
  in_use idx none = none
  in_use idx (some none) = none
  in_use idx (some (some x)) = some idx

  unfoldable pub find_session : Module h → ℕ → Option ℕ
  find_session m handle =
      if handle == 0 then none else in_use (handle - 1) (get_elem? m.sessions (handle - 1))

  -- `*s = None`, with the `Drop` of the session's pool.
  abbrev pub drop_session : Option (Session h) → Sys h → Sys h
  drop_session none s = s
  drop_session (some x) s = (drop_pool x.pool s).1

  unfoldable pub drop_sessions : List (Option (Session h)) → Sys h → Sys h
  drop_sessions [] s = s
  drop_sessions (x ∷ xs) s = drop_sessions xs (drop_session x s)

  -- `module()`, before any call.
  abbrev pub new_module : Module h
  new_module = record { initialized = false; slots = []; sessions = replicate max_sessions none }
