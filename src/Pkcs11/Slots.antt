-- ===== src/Pkcs11/Slots.antt =====
-- The slot and token calls of crates/p11rand/src/lib.rs.
use pkcs11_rand.Base.{
  ℕ, zero, suc, ◌+◌, Bool, not, ◌&&◌, Option, none, some, List, [], ◌∷◌, length, get_elem?, set,
  replicate, ltb, leb, ◌==◌, if◌then◌else◌,
}
use pkcs11_rand.Host.{Bytes, Host}
use pkcs11_rand.Config.{Config, backend_label, backend_model}
use pkcs11_rand.Pkcs11.{
  ckr_ok, ckr_slot_id_invalid, ckr_arguments_bad, ckr_token_not_present, ckr_buffer_too_small,
  ckr_cryptoki_not_initialized, SlotState, Token, Reply, max_sessions, lib_mfr, pad_field, answer,
  refresh_slot,
}

-- `CK_SLOT_INFO`: of the flags, CKF_HW_SLOT and CKF_REMOVABLE_DEVICE are always set. Both versions
-- are 0.1.
pub record SlotInfo : Type 0 where
  pub slot_description : Bytes
  pub manufacturer_id : Bytes
  pub token_present : Bool

-- `CK_TOKEN_INFO`: the flags are always CKF_RNG, CKF_TOKEN_INITIALIZED and CKF_WRITE_PROTECTED, and
-- the other numbers are constants.
pub record TokenInfo : Type 0 where
  pub label : Bytes
  pub manufacturer_id : Bytes
  pub model : Bytes
  pub serial_number : Bytes
  pub max_session_count : ℕ

-- The memory of `C_GetSlotList`: the list, if its pointer is not null, and the count.
pub record SlotList : Type 0 where
  pub list : Option (List ℕ)
  pub count : ℕ

abbrev slot_text : List SlotState → ℕ → Bytes
slot_text slots i = elim (get_elem? slots i) [ none ↦ [] | some slot ↦ slot.name ]

abbrev pub slot_info : Bool → Bytes → SlotInfo
slot_info present name = record {
  slot_description = pad_field (replicate 64 0) name;
  manufacturer_id = pad_field (replicate 32 0) lib_mfr;
  token_present = present;
}

abbrev pub token_info : Config → TokenInfo
token_info cfg = record {
  label = pad_field (replicate 32 0) (backend_label cfg);
  manufacturer_id = pad_field (replicate 32 0) lib_mfr;
  model = pad_field (replicate 16 0) (backend_model cfg);
  serial_number = replicate 16 0x20;
  max_session_count = max_sessions;
}

-- The ids that the second loop writes, from `out` on, and how many there are then.
unfoldable pub write_ids : Bool → List SlotState → ℕ → List ℕ → ℕ → List ℕ × ℕ
write_ids filter [] i list out = (list, out)
write_ids filter (slot ∷ slots) i list out =
    if filter && not slot.token_present
    then write_ids filter slots (i + 1) list out
    else write_ids filter slots (i + 1) (set list out i) (out + 1)

module _ ⦃h : Host⦄ where
  -- With the list's pointer null, the count alone; else the ids, if there is room for them.
  abbrev pub list_into : Bool → ℕ → Option (List ℕ) → ℕ → Token h → Reply h (Option SlotList)
  list_into filter want none count t = answer ckr_ok (some (record { list = none; count = want })) t
  list_into filter want (some list) count t =
      let (ids, out) = write_ids filter t.slots 0 list 0 in
      if ltb count want
      then answer ckr_buffer_too_small (some (record { list = some list; count = want })) t
      else answer ckr_ok (some (record { list = some ids; count = out })) t

  -- The guards that the calls on one slot share, once the caller's pointer is not null.
  abbrev pub guarded :
      {A : Type 0} → ℕ → A → (Token h → Reply h (Option A)) → Token h → Reply h (Option A)
  guarded slot old f t =
      if not t.initialized
      then answer ckr_cryptoki_not_initialized (some old) t
      else if leb (length t.slots) slot
      then answer ckr_slot_id_invalid (some old) t
      else f t

module _ ⦃h : Host⦄ (cfg : Config) where
  -- `for i in 0..n` of the first loop, with `n` turns to go.
  unfoldable pub count_slots : Bool → ℕ → ℕ → ℕ → Token h → ℕ × Token h
  count_slots filter zero i want t = (want, t)
  count_slots filter (suc n) i want t =
      let (present, t') = refresh_slot cfg i t in
      let refreshed = count_slots filter n (i + 1) (if present then want + 1 else want) t' in
      let counted = count_slots filter n (i + 1) (want + 1) t in
      if filter then refreshed else counted

  abbrev pub slot_list : Bool → SlotList → Token h → Reply h (Option SlotList)
  slot_list filter mem t =
      let (want, t') = count_slots filter (length t.slots) 0 0 t in
      list_into filter want mem.list mem.count t'

  abbrev pub get_slot_list : Bool → Option SlotList → Token h → Reply h (Option SlotList)
  get_slot_list filter none t = answer ckr_arguments_bad none t
  get_slot_list filter (some mem) t =
      if t.initialized
      then slot_list filter mem t
      else answer ckr_cryptoki_not_initialized (some mem) t

  -- `token_present` is a CK_BBOOL, and CK_TRUE is 1.
  unfoldable pub c_get_slot_list : ℕ → Option SlotList → Token h → Reply h (Option SlotList)
  c_get_slot_list token_present mem t = get_slot_list (token_present == 1) mem t

  abbrev pub slot_answer : ℕ → Token h → Reply h (Option SlotInfo)
  slot_answer slot t =
      let (present, t') = refresh_slot cfg slot t in
      answer ckr_ok (some (slot_info present (slot_text t'.slots slot))) t'

  abbrev get_slot_info : ℕ → Option SlotInfo → Token h → Reply h (Option SlotInfo)
  get_slot_info slot none t = answer ckr_arguments_bad none t
  get_slot_info slot (some old) t = guarded slot old (slot_answer slot) t

  unfoldable pub c_get_slot_info : ℕ → Option SlotInfo → Token h → Reply h (Option SlotInfo)
  c_get_slot_info slot p t = get_slot_info slot p t

  abbrev pub token_answer : ℕ → TokenInfo → Token h → Reply h (Option TokenInfo)
  token_answer slot old t =
      let (present, t') = refresh_slot cfg slot t in
      if present
      then answer ckr_ok (some (token_info cfg)) t'
      else answer ckr_token_not_present (some old) t'

  abbrev get_token_info : ℕ → Option TokenInfo → Token h → Reply h (Option TokenInfo)
  get_token_info slot none t = answer ckr_arguments_bad none t
  get_token_info slot (some old) t = guarded slot old (token_answer slot old) t

  unfoldable pub c_get_token_info : ℕ → Option TokenInfo → Token h → Reply h (Option TokenInfo)
  c_get_token_info slot p t = get_token_info slot p t

  abbrev get_mechanism_list : ℕ → Option ℕ → Token h → Reply h (Option ℕ)
  get_mechanism_list slot none t = answer ckr_arguments_bad none t
  get_mechanism_list slot (some old) t = guarded slot old (λ t. answer ckr_ok (some 0) t) t

  -- The memory at `p_count`. There are no mechanisms, so the list is not written.
  unfoldable pub c_get_mechanism_list : ℕ → Option ℕ → Token h → Reply h (Option ℕ)
  c_get_mechanism_list slot p t = get_mechanism_list slot p t
