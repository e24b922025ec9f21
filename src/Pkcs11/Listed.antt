-- ===== src/Pkcs11/Listed.antt =====
-- `C_GetSlotList` of crates/p11rand/src/lib.rs: what the caller's memory holds afterwards.
use pkcs11_rand.Base.{
  ℕ, ◌+◌, ◌≤◌, ◌<◌, ◌≡◌, refl, sym, ap, ◌∙◌, true, false, Bool, Bool-cases, inl, inr, Option, none,
  some, List, [], ◌++◌, length, drop, ltb, ◌==◌, arith, if◌then◌else◌,
}
use pkcs11_rand.Host.{Host}
use pkcs11_rand.Config.{Config}
use pkcs11_rand.Pkcs11.{ckr_ok, ckr_buffer_too_small, Token, Reply}
use pkcs11_rand.Pkcs11.Slots.{SlotList, count_slots, list_into, c_get_slot_list}
use pkcs11_rand.Pkcs11.Listing.{ids_of, write_ids_lem, counted}

-- How a listing into `list` and `count` ends, in terms of the slots as they are afterwards: the count
-- alone, for a null list; the count and CKR_BUFFER_TOO_SMALL, if there is no room for the ids; or the
-- ids in front of what was there, and their number.
pub data ListOutcome (h : Host) (filter : Bool) (list : Option (List ℕ)) (count : ℕ)
    (r : Reply h (Option SlotList)) : Type 0 where
  counted_only :
      list ≡ none
      → r.rv ≡ ckr_ok
      → r.out ≡ some (record { list = none; count = length (ids_of filter r.token.slots 0) })
      → ListOutcome h filter list count r
  too_small :
      (l : List ℕ)
      → list ≡ some l
      → count < length (ids_of filter r.token.slots 0)
      → r.rv ≡ ckr_buffer_too_small
      → r.out ≡ some (record { list = some l; count = length (ids_of filter r.token.slots 0) })
      → ListOutcome h filter list count r
  listed :
      (l : List ℕ)
      → list ≡ some l
      → length (ids_of filter r.token.slots 0) ≤ count
      → r.rv ≡ ckr_ok
      → r.out
        ≡ some (record {
          list =
              some
                (ids_of filter r.token.slots 0 ++ drop (length (ids_of filter r.token.slots 0)) l);
          count = length (ids_of filter r.token.slots 0);
        })
      → ListOutcome h filter list count r

module _ ⦃h : Host⦄ where
  into-outcome :
      (filter : Bool) (want : ℕ) (list : Option (List ℕ)) (count : ℕ) (t : Token h)
      → want ≡ length (ids_of filter t.slots 0)
      → ((l : List ℕ) → list ≡ some l → count ≤ length l)
      → ListOutcome h filter list count (list_into filter want list count t)
  into-outcome filter want none count t e room =
      counted_only refl refl (ap (λ (n : ℕ). some (record { list = none; count = n })) e)
  into-outcome filter want (some l) count t e room = elim (Bool-cases (ltb count want)) [
    | inl few ↦
        let lt : count < want = ground (arith, few) in
        rw few (
          too_small l refl (omega (arith, lt, e)) refl
            (ap (λ (n : ℕ). some (record { list = some l; count = n })) e))
    | inr enough ↦
        let le : want ≤ count = ground (arith, enough) in
        let fits : length (ids_of filter t.slots 0) ≤ length l =
          omega (arith, le, e, room l refl) in
        let ids = ids_of filter t.slots 0 in
        let same : 0 + length ids ≡ length ids = omega arith in
        rw enough (
          listed l refl (omega (arith, le, e)) refl (
            ap (λ (p : List ℕ × ℕ). some (record { list = some p.0; count = p.1 }))
              (write_ids_lem filter t.slots 0 [] l fits
                ∙ ap (λ (n : ℕ). (ids ++ drop (length ids) l, n)) same)))
  ]

  branch_list :
      (filter : Bool) (list : Option (List ℕ)) (count : ℕ) (b : Bool)
      (x y : Reply h (Option SlotList))
      → b ≡ true
      → ListOutcome h filter list count x
      → ListOutcome h filter list count (if b then x else y)
  branch_list filter list count true x y e v = v
  branch_list filter list count false x y e v = absurd (cc)

  -- In an initialized module, for a list pointer that is null or has room for as many ids as
  -- the count says: `C_GetSlotList` gives the number of slots, if the list is null; that
  -- number and CKR_BUFFER_TOO_SMALL, without a write to the list, if it exceeds the count; and
  -- else that number and the ids, in order, in front of the list, with the rest of the list as
  -- it was. The slots are those that pass the filter in the state after the call: all of them,
  -- or with CK_TRUE those whose token is present.
  pub get_slot_list-outcome :
      (cfg : Config) (present : ℕ) (mem : SlotList) (t : Token h)
      → t.initialized ≡ true
      → ((l : List ℕ) → mem.list ≡ some l → mem.count ≤ length l)
      → ListOutcome h (present == 1) mem.list mem.count (c_get_slot_list cfg present (some mem) t)
  unfolding c_get_slot_list
  get_slot_list-outcome cfg present mem t b room =
      let filter = present == 1 in
      let r = count_slots cfg filter (length t.slots) 0 0 t in
      let c = counted cfg filter t b in
      let z : r.0 ≡ length (ids_of filter c.rest 0) = omega (arith, c.number) in
      branch_list filter mem.list mem.count t.initialized _ _ b (
        into-outcome filter r.0 mem.list mem.count r.1
          (z ∙ ap (λ s. length (ids_of filter s 0)) (sym c.slots)) room)
