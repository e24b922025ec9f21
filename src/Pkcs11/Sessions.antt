-- ===== src/Pkcs11/Sessions.antt =====
-- The session calls of crates/p11rand/src/lib.rs, `C_GenerateRandom` among them.
use pkcs11_rand.Base.{
  ℕ, ◌+◌, Bool, true, false, not, ◌||◌, Option, none, some, List, [], ◌∷◌, ◌++◌, Result, ok, err,
  Done, Filled, length, get_elem?, set, take, drop, ltb, leb, ◌==◌, if◌then◌else◌,
}
use pkcs11_rand.Host.{Bytes, Host, Sys}
use pkcs11_rand.Config.{Config}
use pkcs11_rand.Pool.{Error, not_enough_sources, Pool, Live}
use pkcs11_rand.Pool.Open.{open_pool}
use pkcs11_rand.Pool.Read.{read}
use pkcs11_rand.Pkcs11.{
  CkRv, ckr_ok, ckr_host_memory, ckr_slot_id_invalid, ckr_arguments_bad, ckr_device_error,
  ckr_session_handle_invalid, ckr_session_parallel_not_supported, ckr_token_not_present,
  ckr_random_seed_not_supported, ckr_cryptoki_not_initialized, SessionFlags, Session, Token, Reply,
  answer, with_slots, with_sessions, marked, find_session, drop_session,
}

pub data SessionState : Type 0 where
  ro_public_session rw_public_session : SessionState

-- `CK_SESSION_INFO`, without the device error, which is 0.
pub record SessionInfo : Type 0 where
  pub slot_id : ℕ
  pub state : SessionState
  pub flags : SessionFlags

module _ ⦃h : Host⦄ where
  -- `sessions.iter().position(|s| s.is_none())`, counted from `i`.
  unfoldable pub first_free : List (Option (Session h)) → ℕ → Option ℕ
  first_free [] i = none
  first_free (none ∷ xs) i = some i
  first_free (some x ∷ xs) i = first_free xs (i + 1)

  abbrev pub opened :
      ℕ → SessionFlags → ℕ → ℕ → Result Error (Pool h) → Token h → Reply h (Option ℕ)
  opened slot flags free old (ok pool) t = answer ckr_ok (some (free + 1)) (
      with_sessions
        (set t.sessions free (some (record { slot = slot; flags = flags; pool = pool })))
        (with_slots (marked true t.slots slot) t))
  opened slot flags free old (err not_enough_sources) t =
      answer ckr_token_not_present (some old) (with_slots (marked false t.slots slot) t)
  opened slot flags free old (err _) t = answer ckr_device_error (some old) t

  abbrev pub open_at : Config → ℕ → SessionFlags → ℕ → Option ℕ → Token h → Reply h (Option ℕ)
  open_at cfg slot flags old none t = answer ckr_host_memory (some old) t
  open_at cfg slot flags old (some free) t =
      let (r, s) = open_pool cfg t.sys in opened slot flags free old r (record t { sys = s })

  abbrev pub open_session : Config → ℕ → SessionFlags → Option ℕ → Token h → Reply h (Option ℕ)
  open_session cfg slot flags none t = answer ckr_arguments_bad none t
  open_session cfg slot flags (some old) t =
      if not flags.serial_session
      then answer ckr_session_parallel_not_supported (some old) t
      else if not t.initialized
      then answer ckr_cryptoki_not_initialized (some old) t
      else if leb (length t.slots) slot
      then answer ckr_slot_id_invalid (some old) t
      else open_at cfg slot flags old (first_free t.sessions 0) t

  -- The memory at `ph_session` is the call's output.
  unfoldable pub c_open_session :
      Config → ℕ → SessionFlags → Option ℕ → Token h → Reply h (Option ℕ)
  c_open_session cfg slot flags ph t = open_session cfg slot flags ph t

  abbrev pub close_entry : ℕ → Option (Option (Session h)) → Token h → Token h
  close_entry idx none t = t
  close_entry idx (some x) t = record (with_sessions (set t.sessions idx none) t) {
    sys = drop_session x t.sys;
  }

  -- `m.sessions[idx] = None`
  abbrev pub closed_at : ℕ → Token h → Token h
  closed_at idx t = close_entry idx (get_elem? t.sessions idx) t

  abbrev pub close_found : Option ℕ → Token h → Reply h Done
  close_found none t = answer ckr_session_handle_invalid tt t
  close_found (some idx) t = answer ckr_ok tt (closed_at idx t)

  unfoldable pub c_close_session : ℕ → Token h → Reply h Done
  c_close_session handle t =
      if t.initialized
      then close_found (find_session t.state handle) t
      else answer ckr_cryptoki_not_initialized tt t

  abbrev pub of_slot : ℕ → Option (Session h) → Bool
  of_slot slot none = false
  of_slot slot (some x) = x.slot == slot

  -- The sessions of one slot are dropped, in the order of the table.
  unfoldable pub close_slot :
      ℕ → List (Option (Session h)) → Sys h → List (Option (Session h)) × Sys h
  close_slot slot [] s = ([], s)
  close_slot slot (x ∷ xs) s =
      let gone = of_slot slot x in
      let (ys, s') = close_slot slot xs (if gone then drop_session x s else s) in
      ((if gone then none else x) ∷ ys, s')

  abbrev pub emptied : ℕ → Token h → Token h
  emptied slot t =
      let (xs, s) = close_slot slot t.sessions t.sys in record (with_sessions xs t) { sys = s }

  unfoldable pub c_close_all_sessions : ℕ → Token h → Reply h Done
  c_close_all_sessions slot t =
      if not t.initialized
      then answer ckr_cryptoki_not_initialized tt t
      else if leb (length t.slots) slot
      then answer ckr_slot_id_invalid tt t
      else answer ckr_ok tt (emptied slot t)

  abbrev pub session_info : Session h → SessionInfo
  session_info x = record {
    slot_id = x.slot;
    state = if x.flags.rw_session then rw_public_session else ro_public_session;
    flags = x.flags;
  }

  -- The session at an index that `find_session` gave.
  abbrev pub entry : Option (Option (Session h)) → Option (Session h)
  entry none = none
  entry (some x) = x

  abbrev pub session_at : Token h → ℕ → Option (Session h)
  session_at t idx = entry (get_elem? t.sessions idx)

  abbrev pub info_entry : Option (Session h) → SessionInfo → Token h → Reply h (Option SessionInfo)
  info_entry none old t = answer ckr_session_handle_invalid (some old) t
  info_entry (some x) old t = answer ckr_ok (some (session_info x)) t

  abbrev pub info_found : Option ℕ → SessionInfo → Token h → Reply h (Option SessionInfo)
  info_found none old t = answer ckr_session_handle_invalid (some old) t
  info_found (some idx) old t = info_entry (session_at t idx) old t

  abbrev pub get_session_info : ℕ → Option SessionInfo → Token h → Reply h (Option SessionInfo)
  get_session_info handle none t = answer ckr_arguments_bad none t
  get_session_info handle (some old) t =
      if t.initialized
      then info_found (find_session t.state handle) old t
      else answer ckr_cryptoki_not_initialized (some old) t

  unfoldable pub c_get_session_info :
      ℕ → Option SessionInfo → Token h → Reply h (Option SessionInfo)
  c_get_session_info handle p t = get_session_info handle p t

  abbrev pub code_of : Result Error Done → CkRv
  code_of (ok _) = ckr_ok
  code_of (err e) = ckr_device_error

  -- The session takes its pool back from the read.
  abbrev pub served : ℕ → Session h → Filled (Live h) Error → Token h → Reply h Bytes
  served idx x o t =
      answer (code_of o.status) o.buf
        (record (with_sessions (set t.sessions idx (some (record x { pool = o.state.pool }))) t) {
          sys = o.state.sys;
        })

  abbrev pub live_of : Session h → Token h → Live h
  live_of x t = record { pool = x.pool; sys = t.sys }

  -- There is a session at an index that `find_session` gave, so the first clause is not reached.
  abbrev pub read_entry : ℕ → Option (Session h) → Bytes → Token h → Reply h Bytes
  read_entry idx none buf t = answer ckr_session_handle_invalid buf t
  read_entry idx (some x) buf t = served idx x (read buf (live_of x t)) t

  abbrev pub read_found : Option ℕ → Bytes → Token h → Reply h Bytes
  read_found none buf t = answer ckr_session_handle_invalid buf t
  read_found (some idx) buf t = read_entry idx (session_at t idx) buf t

  abbrev pub generate : ℕ → Bytes → Token h → Reply h Bytes
  generate handle buf t =
      if t.initialized
      then read_found (find_session t.state handle) buf t
      else answer ckr_cryptoki_not_initialized buf t

  abbrev pub nothing_to : Reply h Bytes → Reply h (Option Bytes)
  nothing_to r = answer r.rv none r.token

  abbrev pub put_back : Bytes → Reply h Bytes → Reply h (Option Bytes)
  put_back rest r = answer r.rv (some (r.out ++ rest)) r.token

  -- `buf` is null, or the memory that it points to; the slice is its first `len` bytes.
  unfoldable pub c_generate_random : ℕ → Option Bytes → ℕ → Token h → Reply h (Option Bytes)
  c_generate_random handle none len t =
      if ltb 0 len then answer ckr_arguments_bad none t else nothing_to (generate handle [] t)
  c_generate_random handle (some mem) len t =
      put_back (drop len mem) (generate handle (take len mem) t)

  abbrev is_none : Option ℕ → Bool
  is_none none = true
  is_none (some i) = false

  unfoldable pub c_seed_random : ℕ → Token h → Reply h Done
  c_seed_random handle t =
      if not t.initialized || is_none (find_session t.state handle)
      then answer ckr_session_handle_invalid tt t
      else answer ckr_random_seed_not_supported tt t
