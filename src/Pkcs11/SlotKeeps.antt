-- ===== src/Pkcs11/SlotKeeps.antt =====
-- The slot and token calls of crates/p11rand/src/lib.rs keep the module's invariant.
use pkcs11_rand.Base.{
  ℕ, zero, suc, ◌+◌, true, false, Bool, not, Option, none, some, List, length, leb, ltb, ◌==◌,
  if◌then◌else◌,
}
use pkcs11_rand.Host.{Host}
use pkcs11_rand.Config.{Config}
use pkcs11_rand.Pkcs11.{Token, Reply, refresh_slot, answer, ckr_ok, ckr_token_not_present}
use pkcs11_rand.Pkcs11.Slots.{
  SlotList, SlotInfo, TokenInfo, count_slots, list_into, slot_list, c_get_slot_list,
  c_get_slot_info, c_get_token_info, guarded, slot_answer, token_answer, token_info,
}
use pkcs11_rand.Pkcs11.Ready.{IsReady, refresh-IsReady, branch-IsReady}

module _ ⦃h : Host⦄ (cfg : Config) where
  count_slots-IsReady :
      (filter : Bool) (n i want : ℕ) (t : Token h)
      → IsReady h cfg t
      → IsReady h cfg (count_slots cfg filter n i want t).1
  unfolding count_slots
  count_slots-IsReady filter zero i want t v = v
  count_slots-IsReady true (suc n) i want t v =
      let r = refresh_slot cfg i t in
      count_slots-IsReady true n (i + 1) (if r.0 then want + 1 else want) r.1
        (refresh-IsReady cfg i t v)
  count_slots-IsReady false (suc n) i want t v = count_slots-IsReady false n (i + 1) (want + 1) t v

  list_into-IsReady :
      (filter : Bool) (want : ℕ) (list : Option (List ℕ)) (count : ℕ) (t : Token h)
      → IsReady h cfg t
      → IsReady h cfg (list_into filter want list count t).token
  list_into-IsReady filter want none count t v = v
  list_into-IsReady filter want (some list) count t v =
      branch-IsReady cfg (ltb count want) _ _ (λ e. v) (λ e. v)

  pub get_slot_list-IsReady :
      (present : ℕ) (mem : Option SlotList) (t : Token h)
      → IsReady h cfg t
      → IsReady h cfg (c_get_slot_list cfg present mem t).token
  unfolding c_get_slot_list
  get_slot_list-IsReady present none t v = v
  get_slot_list-IsReady present (some mem) t v =
      let filter = present == 1 in
      let r = count_slots cfg filter (length t.slots) 0 0 t in
      branch-IsReady cfg t.initialized (slot_list cfg filter mem t) _
        (λ on.
          list_into-IsReady filter r.0 mem.list mem.count r.1
            (count_slots-IsReady filter (length t.slots) 0 0 t v))
        (λ e. v)

  guarded-IsReady :
      {A : Type 0} (slot : ℕ) (old : A) (f : Token h → Reply h (Option A)) (t : Token h)
      → IsReady h cfg t
      → (IsReady h cfg t → IsReady h cfg (f t).token)
      → IsReady h cfg (guarded slot old f t).token
  guarded-IsReady slot old f t v g =
      branch-IsReady cfg (not t.initialized) _ _ (λ e. v)
        λ on. branch-IsReady cfg (leb (length t.slots) slot) _ (f t) (λ e. v) λ inside. g v

  pub get_slot_info-IsReady :
      (slot : ℕ) (p : Option SlotInfo) (t : Token h)
      → IsReady h cfg t
      → IsReady h cfg (c_get_slot_info cfg slot p t).token
  unfolding c_get_slot_info
  get_slot_info-IsReady slot none t v = v
  get_slot_info-IsReady slot (some old) t v =
      guarded-IsReady slot old (slot_answer cfg slot) t v (refresh-IsReady cfg slot t)

  pub get_token_info-IsReady :
      (slot : ℕ) (p : Option TokenInfo) (t : Token h)
      → IsReady h cfg t
      → IsReady h cfg (c_get_token_info cfg slot p t).token
  unfolding c_get_token_info
  get_token_info-IsReady slot none t v = v
  get_token_info-IsReady slot (some old) t v =
      guarded-IsReady slot old (token_answer cfg slot old) t v λ v'.
        let u = (refresh_slot cfg slot t).1 in
        branch-IsReady cfg (refresh_slot cfg slot t).0 (answer ckr_ok (some (token_info cfg)) u)
          (answer ckr_token_not_present (some old) u) (λ e. refresh-IsReady cfg slot t v')
          (λ e. refresh-IsReady cfg slot t v')
