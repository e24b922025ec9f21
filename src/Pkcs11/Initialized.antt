-- ===== src/Pkcs11/Initialized.antt =====
-- Which calls of crates/p11rand/src/lib.rs change whether the module is initialized.
use pkcs11_rand.Base.{
  ℕ, zero, suc, ◌+◌, Bool, true, false, not, ◌==◌, ◌≡◌, refl, Option, none, some, List, Result, ok,
  err, Done, length, get_elem?, take, ltb, leb, if◌then◌else◌,
}
use pkcs11_rand.Host.{Bytes, Host}
use pkcs11_rand.Config.{Config}
use pkcs11_rand.Pool.{Error, not_enough_sources, Pool}
use pkcs11_rand.Pool.Open.{global_init, fillable, open_pool}
use pkcs11_rand.Pkcs11.{
  CkRv, ckr_ok, SessionFlags, Session, Token, Reply, refresh_slot, find_session,
}
use pkcs11_rand.Pkcs11.Lifecycle.{filled, set_up, begin, c_initialize, c_finalize}
use pkcs11_rand.Pkcs11.Slots.{
  SlotList, SlotInfo, TokenInfo, list_into, count_slots, slot_list, slot_answer, token_answer,
  c_get_slot_list, c_get_slot_info, c_get_token_info,
}
use pkcs11_rand.Pkcs11.Sessions.{
  opened, open_at, close_entry, close_found, read_entry, read_found, session_at, first_free,
  c_open_session, c_close_session, c_generate_random,
}

abbrev pub accepted : CkRv → Bool
accepted ckr_ok = true
accepted _ = false

module _ ⦃h : Host⦄ where
  -- The call leaves it as it was.
  abbrev pub Same : {A : Type 0} → Token h → Reply h A → Type 0
  Same t r = r.token.initialized ≡ t.initialized

  branch-Same :
      {A : Type 0} (b : Bool) (t : Token h) (x y : Reply h A)
      → Same t x
      → Same t y
      → Same t (if b then x else y)
  branch-Same true t x y f g = f
  branch-Same false t x y f g = g

  branch_state :
      (b : Bool) (t : Token h) (x y : ℕ × Token h)
      → x.1.initialized ≡ t.initialized
      → y.1.initialized ≡ t.initialized
      → (if b then x else y).1.initialized ≡ t.initialized
  branch_state true t x y f g = f
  branch_state false t x y f g = g

  module _ (cfg : Config) where
    count_slots-initialized :
        (filter : Bool) (n i want : ℕ) (t : Token h)
        → (count_slots cfg filter n i want t).1.initialized ≡ t.initialized
    unfolding count_slots refresh_slot
    count_slots-initialized filter zero i want t = refl
    count_slots-initialized filter (suc n) i want t =
        branch_state filter t _ _
          (count_slots-initialized filter n (i + 1) _ (refresh_slot cfg i t).1)
          (count_slots-initialized filter n (i + 1) (want + 1) t)

    list_into-Same :
        (filter : Bool) (want : ℕ) (list : Option (List ℕ)) (count : ℕ) (t u : Token h)
        → u.initialized ≡ t.initialized
        → Same t (list_into filter want list count u)
    list_into-Same filter want none count t u e = e
    list_into-Same filter want (some list) count t u e = branch-Same (ltb count want) t _ _ e e

    pub get_slot_list-Same :
        (present : ℕ) (l : SlotList) (t : Token h) → Same t (c_get_slot_list cfg present (some l) t)
    unfolding c_get_slot_list
    get_slot_list-Same present l t =
        branch-Same t.initialized t (slot_list cfg (present == 1) l t) _
          (list_into-Same (present == 1) _ l.list l.count t _
            (count_slots-initialized (present == 1) (length t.slots) 0 0 t))
          refl

    pub get_slot_info-Same :
        (slot : ℕ) (i : SlotInfo) (t : Token h) → Same t (c_get_slot_info cfg slot (some i) t)
    unfolding c_get_slot_info refresh_slot
    get_slot_info-Same slot i t =
        branch-Same (not t.initialized) t _ _ refl
          (branch-Same (leb (length t.slots) slot) t _ (slot_answer cfg slot t) refl refl)

    pub get_token_info-Same :
        (slot : ℕ) (i : TokenInfo) (t : Token h) → Same t (c_get_token_info cfg slot (some i) t)
    unfolding c_get_token_info refresh_slot
    get_token_info-Same slot i t = branch-Same (not t.initialized) t _ _ refl (
        branch-Same (leb (length t.slots) slot) t _ (token_answer cfg slot i t) refl
          (branch-Same (refresh_slot cfg slot t).0 t _ _ refl refl))

    filled-state :
        (r : Result Error Bool) (t : Token h)
        → t.initialized ≡ false
        → (filled cfg r t).token.initialized ≡ accepted (filled cfg r t).rv
    filled-state (ok present) t e = refl
    filled-state (err x) t e = e

    set_up-state :
        (r : Result Error Done) (t : Token h)
        → t.initialized ≡ false
        → (set_up cfg r t).token.initialized ≡ accepted (set_up cfg r t).rv
    set_up-state (err x) t e = e
    set_up-state (ok d) t e =
        filled-state (fillable cfg t.sys).0 (record t { sys = (fillable cfg t.sys).1 }) e

    taken_up :
        (b : Bool) (x y : Reply h Done)
        → b ≡ false
        → y.token.initialized ≡ accepted y.rv
        → (if b then x else y).token.initialized ≡ accepted (if b then x else y).rv
    taken_up true x y e f = absurd (cc)
    taken_up false x y e f = f

    -- A module that is not initialized is so afterwards exactly if the call answers CKR_OK.
    pub initialize-accepted :
        (t : Token h)
        → t.initialized ≡ false
        → (c_initialize cfg none t).token.initialized ≡ accepted (c_initialize cfg none t).rv
    unfolding c_initialize
    initialize-accepted t e =
        taken_up t.initialized _ (begin cfg t) e
          (set_up-state (global_init cfg t.sys).0 (record t { sys = (global_init cfg t.sys).1 }) e)

    torn :
        (b : Bool) (x y : Reply h Done)
        → b ≡ true
        → x.token.initialized ≡ false
        → (if b then x else y).token.initialized ≡ false
    torn true x y e f = f
    torn false x y e f = absurd (cc)

    pub finalize-uninitialized :
        (t : Token h) → t.initialized ≡ true → (c_finalize cfg none t).token.initialized ≡ false
    unfolding c_finalize
    finalize-uninitialized t e = torn t.initialized _ _ e refl

    opened-Same :
        (slot : ℕ) (flags : SessionFlags) (free old : ℕ) (r : Result Error (Pool h)) (t u : Token h)
        → u.initialized ≡ t.initialized
        → Same t (opened slot flags free old r u)
    opened-Same slot flags free old (ok pool) t u e = e
    opened-Same slot flags free old (err not_enough_sources) t u e = e
    opened-Same slot flags free old (err _) t u e = e

    open_at-Same :
        (slot : ℕ) (flags : SessionFlags) (old : ℕ) (r : Option ℕ) (t : Token h)
        → Same t (open_at cfg slot flags old r t)
    open_at-Same slot flags old none t = refl
    open_at-Same slot flags old (some free) t =
        opened-Same slot flags free old (open_pool cfg t.sys).0 t
          (record t { sys = (open_pool cfg t.sys).1 }) refl

    pub open_session-Same :
        (slot : ℕ) (flags : SessionFlags) (old : ℕ) (t : Token h)
        → Same t (c_open_session cfg slot flags (some old) t)
    unfolding c_open_session
    open_session-Same slot flags old t = branch-Same (not flags.serial_session) t _ _ refl (
        branch-Same (not t.initialized) t _ _ refl (
          branch-Same (leb (length t.slots) slot) t _ _ refl
            (open_at-Same slot flags old (first_free t.sessions 0) t)))

  close_entry-initialized :
      (idx : ℕ) (x : Option (Option (Session h))) (t : Token h)
      → (close_entry idx x t).initialized ≡ t.initialized
  close_entry-initialized idx none t = refl
  close_entry-initialized idx (some x) t = refl

  close_found-Same : (r : Option ℕ) (t : Token h) → Same t (close_found r t)
  close_found-Same none t = refl
  close_found-Same (some idx) t = close_entry-initialized idx (get_elem? t.sessions idx) t

  pub close_session-Same : (sess : ℕ) (t : Token h) → Same t (c_close_session sess t)
  unfolding c_close_session
  close_session-Same sess t =
      branch-Same t.initialized t _ _ (close_found-Same (find_session t.state sess) t) refl

  read_entry-Same :
      (idx : ℕ) (x : Option (Session h)) (buf : Bytes) (t : Token h)
      → Same t (read_entry idx x buf t)
  read_entry-Same idx none buf t = refl
  read_entry-Same idx (some x) buf t = refl

  read_found-Same : (r : Option ℕ) (buf : Bytes) (t : Token h) → Same t (read_found r buf t)
  read_found-Same none buf t = refl
  read_found-Same (some idx) buf t = read_entry-Same idx (session_at t idx) buf t

  pub generate_random-Same :
      (sess : ℕ) (mem : Bytes) (n : ℕ) (t : Token h)
      → Same t (c_generate_random sess (some mem) n t)
  unfolding c_generate_random
  generate_random-Same sess mem n t =
      branch-Same t.initialized t (read_found (find_session t.state sess) (take n mem) t) _
        (read_found-Same (find_session t.state sess) (take n mem) t) refl
