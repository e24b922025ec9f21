-- ===== src/Pkcs11/Listing.antt =====
-- `C_GetSlotList` of crates/p11rand/src/lib.rs: its two loops.
use mathlib.Core.Path.{subst}
use mathlib.Core.List.{append_assoc}
use pkcs11_rand.Base.{
  ℕ, suc, ◌+◌, ◌≤◌, ◌≡◌, refl, sym, ap, ◌∙◌, true, false, Bool, not, ◌&&◌, Bool-cases, inl, inr,
  some, List, [], ◌∷◌, ◌++◌, length, get_elem?, set, drop, length-append, arith, if◌then◌else◌,
}
use pkcs11_rand.Host.{Host}
use pkcs11_rand.Config.{Config}
use pkcs11_rand.Pkcs11.{SlotState, Token, marked, mark_at, refresh_slot}
use pkcs11_rand.Pkcs11.Slots.{write_ids, count_slots}

-- The ids of the slots that pass the filter, counted from `i`.
abbrev pub ids_of : Bool → List SlotState → ℕ → List ℕ
ids_of filter [] i = []
ids_of filter (x ∷ xs) i =
    let rest = ids_of filter xs (i + 1) in if filter && not x.token_present then rest else i ∷ rest

set_here :
    {A : Type 0} (front : List A) (y v : A) (l : List A)
    → set (front ++ (y ∷ l)) (length front) v ≡ front ++ (v ∷ l)
set_here [] y v l = refl
set_here (x ∷ xs) y v l = ap (◌∷◌ x) (set_here xs y v l)

get_here :
    {A : Type 0} (front : List A) (y : A) (l : List A)
    → get_elem? (front ++ (y ∷ l)) (length front) ≡ some y
get_here [] y l = refl
get_here (x ∷ xs) y l = get_here xs y l

-- The second loop from slot `i` on: it writes the ids one behind the other, and counts them.
abbrev pub Writes : Bool → List SlotState → ℕ → Type 0
Writes filter slots i =
    (front l : List ℕ)
    → length (ids_of filter slots i) ≤ length l
    → write_ids filter slots i (front ++ l) (length front) ≡ (
      front ++ (ids_of filter slots i ++ drop (length (ids_of filter slots i)) l),
      length front + length (ids_of filter slots i),
    )

kept_one :
    (filter : Bool) (xs : List SlotState) (i : ℕ) (front l : List ℕ)
    → Writes filter xs (i + 1)
    → length (i ∷ ids_of filter xs (i + 1)) ≤ length l
    → write_ids filter xs (i + 1) (set (front ++ l) (length front) i) (length front + 1) ≡ (
      front ++ (i ∷ ids_of filter xs (i + 1) ++ drop (length (i ∷ ids_of filter xs (i + 1))) l),
      length front + length (i ∷ ids_of filter xs (i + 1)),
    )
kept_one filter xs i front [] ih h = absurd (omega arith)
kept_one filter xs i front (y ∷ l) ih h =
    let front' = front ++ (i ∷ []) in
    let ids = ids_of filter xs (i + 1) in
    ap (λ (a : List ℕ). write_ids filter xs (i + 1) a (length front + 1))
      (set_here front y i l ∙ sym (append_assoc front (i ∷ []) l))
    ∙ ap (write_ids filter xs (i + 1) (front' ++ l)) (omega (arith, length-append front (i ∷ [])))
    ∙ ih front' l (omega (arith, h))
    ∙ ap (λ (a : List ℕ). (a, length front' + length ids))
        (append_assoc front (i ∷ []) (ids ++ drop (length ids) l))
    ∙ ap (λ (n : ℕ). (front ++ (i ∷ ids ++ drop (length ids) l), n))
        (omega (arith, length-append front (i ∷ [])))

pub write_ids_lem : (filter : Bool) (slots : List SlotState) (i : ℕ) → Writes filter slots i
unfolding write_ids
write_ids_lem filter [] i front l h = ap (λ (n : ℕ). (front ++ l, n)) (omega arith)
write_ids_lem filter (x ∷ xs) i front l h = elim (Bool-cases (filter && not x.token_present)) [
  | inl skip ↦ rw skip (write_ids_lem filter xs (i + 1) front l (rw skip at h))
  | inr keep ↦
      rw keep (kept_one filter xs i front l (write_ids_lem filter xs (i + 1)) (rw keep at h))
]

module _ ⦃h : Host⦄ (cfg : Config) where
  -- The first loop, from the slot behind `pre` on: it refreshes these slots, and adds how many of them
  -- the second loop will write.
  pub record Counted (filter : Bool) (pre : List SlotState) (n want : ℕ) (r : ℕ × Token h)
      : Type 0 where
    pub rest : List SlotState
    pub slots : r.1.slots ≡ pre ++ rest
    pub size : length rest ≡ n
    pub number : r.0 ≡ want + length (ids_of filter rest (length pre))
    pub initialized : r.1.initialized ≡ true

  one_more :
      (filter : Bool) (pre : List SlotState) (x : SlotState) (n want w : ℕ) (r : ℕ × Token h)
      → w ≡ want + (if filter && not x.token_present then 0 else 1)
      → Counted filter (pre ++ (x ∷ [])) n w r
      → Counted filter pre (suc n) want r
  one_more filter pre x n want w r e c = record {
    rest = x ∷ c.rest;
    slots = c.slots ∙ append_assoc pre (x ∷ []) c.rest;
    size = ap suc c.size;
    number =
        let q =
          c.number ∙ ap (λ k. w + length (ids_of filter c.rest k)) (length-append pre (x ∷ [])) in
        elim (Bool-cases (filter && not x.token_present)) [
          | inl skip ↦ rw skip (omega (arith, q, rw skip at e))
          | inr keep ↦ rw keep (omega (arith, q, rw keep at e))
        ];
    initialized = c.initialized;
  }

  count_all :
      (pre rest : List SlotState) (want : ℕ) (t : Token h)
      → t.initialized ≡ true
      → t.slots ≡ pre ++ rest
      → Counted false pre
          (length rest)
          want
          (count_slots cfg false (length rest) (length pre) want t)
  unfolding count_slots
  count_all pre [] want t b e = record {
    rest = [];
    slots = e;
    size = refl;
    number = omega arith;
    initialized = b;
  }
  count_all pre (x ∷ xs) want t b e = one_more false pre x (length xs) want (want + 1) _ refl (
      subst
        (λ (k : ℕ).
          Counted false (pre ++ (x ∷ [])) (length xs) (want + 1)
            (count_slots cfg false (length xs) k (want + 1) t))
        (length-append pre (x ∷ []))
        (count_all (pre ++ (x ∷ [])) xs (want + 1) t b (e ∙ sym (append_assoc pre (x ∷ []) xs))))

  mark_here :
      (b : Bool) (slots pre : List SlotState) (x : SlotState) (xs : List SlotState)
      → slots ≡ pre ++ (x ∷ xs)
      → marked b slots (length pre) ≡ pre ++ (record x { token_present = b } ∷ xs)
  mark_here b slots pre x xs e =
      ap (λ s. marked b s (length pre)) e
      ∙ ap (mark_at b (pre ++ (x ∷ xs)) (length pre)) (get_here pre x xs)
      ∙ set_here pre x (record x { token_present = b }) xs

  one_present :
      (b : Bool) (want : ℕ)
      → (if b then want + 1 else want) ≡ want + (if true && not b then 0 else 1)
  one_present true want = refl
  one_present false want = omega arith

  count_present :
      (pre rest : List SlotState) (want : ℕ) (t : Token h)
      → t.initialized ≡ true
      → t.slots ≡ pre ++ rest
      → Counted true pre (length rest) want (count_slots cfg true (length rest) (length pre) want t)
  unfolding count_slots refresh_slot
  count_present pre [] want t b e = record {
    rest = [];
    slots = e;
    size = refl;
    number = omega arith;
    initialized = b;
  }
  count_present pre (x ∷ xs) want t b e =
      let r = refresh_slot cfg (length pre) t in
      let y = record x { token_present = r.0 } in
      let w = if r.0 then want + 1 else want in
      one_more true pre y (length xs) want w _ (one_present r.0 want) (
        subst
          (λ (k : ℕ).
            Counted true (pre ++ (y ∷ [])) (length xs) w (count_slots cfg true (length xs) k w r.1))
          (length-append pre (y ∷ []))
          (count_present (pre ++ (y ∷ [])) xs w r.1 b
            (mark_here r.0 t.slots pre x xs e ∙ sym (append_assoc pre (y ∷ []) xs))))

  pub counted :
      (filter : Bool) (t : Token h)
      → t.initialized ≡ true
      → Counted filter [] (length t.slots) 0 (count_slots cfg filter (length t.slots) 0 0 t)
  counted true t b = count_present [] t.slots 0 t b refl
  counted false t b = count_all [] t.slots 0 t b refl
