-- ===== src/Pool/Claimed.antt =====
-- `Pool::open` of pool.rs: the loops that claim the slots.
use mathlib.Core.Path.{subst}
use mathlib.Core.List.{append_assoc, map-append}
use pkcs11_rand.Base.{
  ℕ, ◌+◌, ◌≤◌, ◌<◌, ◌≡◌, ◌≢◌, refl, sym, ap, ◌∙◌, Bool-cases, false, inl, inr, Option, none, some,
  List, [], ◌∷◌, ◌++◌, map, Result, ok, err, All, All-append, Apart, Fresh, get-append_one,
  replicate-succ, get_elem?, replicate, ltb, leb, arith,
}
use pkcs11_rand.Host.{Bytes, Host, Sys}
use pkcs11_rand.Pool.{SlotKind, SlotInner, Slot, Error, open_named, live_slot}
use pkcs11_rand.Pool.Open.{claim, claim_one, pushed, enough_claimed, claim_listed}
use pkcs11_rand.Pool.Coherent.{
  IsCoherent, IsOpen, drop_slots-global, open_named-global, open_named-Holds,
}
use pkcs11_rand.Pool.Distinct.{Distinct}

-- No slot of the kind holds one of the names.
abbrev pub Unheld : ⦃h : Host⦄ → List (Slot h) → SlotKind → Bytes → Type 0
Unheld ⦃h⦄ slots kind name =
    (j : ℕ) (b : Slot h) → get_elem? slots j ≡ some b → kind ≡ b.kind → b.name ≡ some name → ⊥

-- The slots so far: those of `pre`, and then `got` of the kind at hand.
pub record Claimed (h : Host) (pre : List SlotKind) (kind : SlotKind) (got : ℕ)
    (slots : List (Slot h)) : Type 0 where
  pub kinds : map (λ (x : Slot h). x.kind) slots ≡ pre ++ replicate got kind
  pub coherent : All (IsCoherent h) slots
  pub distinct : Distinct ⦃h = h⦄ slots
  pub live : All (IsOpen h) slots

module _ ⦃h : Host⦄ where
  Distinct-append :
      (slots : List (Slot h)) (kind : SlotKind) (name : Bytes) (inner : SlotInner h)
      → Distinct slots
      → Unheld slots kind name
      → Distinct (slots ++ (live_slot kind name inner ∷ []))
  Distinct-append slots kind name inner d u i j a b ne ea eb c =
      elim (get-append_one slots (live_slot kind name inner) i a ea) [
        | inl qa ↦ elim (get-append_one slots (live_slot kind name inner) j b eb) [
          | inl qb ↦ d i j a b ne qa qb c
          | inr (qj, qb) ↦
              u i a qa (ap (λ (x : Slot h). x.kind) qb ∙ sym c.kinds)
                (c.left ∙ sym c.right ∙ sym (ap (λ (x : Slot h). x.name) qb))
        ]
        | inr (qi, qa) ↦ elim (get-append_one slots (live_slot kind name inner) j b eb) [
          | inl qb ↦
              u j b qb (ap (λ (x : Slot h). x.kind) qa ∙ c.kinds)
                (c.right ∙ sym c.left ∙ sym (ap (λ (x : Slot h). x.name) qa))
          | inr (qj, qb) ↦ ne (qi ∙ sym qj)
        ]
      ]

  pushed-Claimed :
      (pre : List SlotKind) (kind : SlotKind) (got : ℕ) (slots : List (Slot h)) (name : Bytes)
      (inner : SlotInner h)
      → Claimed h pre kind got slots
      → Unheld slots kind name
      → IsCoherent h (live_slot kind name inner)
      → IsOpen h (live_slot kind name inner)
      → Claimed h pre kind (got + 1) (slots ++ (live_slot kind name inner ∷ []))
  pushed-Claimed pre kind got slots name inner v u c o = record {
    kinds =
        map-append (λ (x : Slot h). x.kind) slots _
        ∙ ap (λ a. a ++ (kind ∷ [])) v.kinds
        ∙ append_assoc pre (replicate got kind) (kind ∷ [])
        ∙ ap (◌++◌ pre) (sym (replicate-succ got kind));
    coherent = All-append (IsCoherent h) slots _ v.coherent (c, tt);
    distinct = Distinct-append slots kind name inner v.distinct u;
    live = All-append (IsOpen h) slots _ v.live (o, tt);
  }

  Unheld-append :
      (slots : List (Slot h)) (kind : SlotKind) (name other : Bytes) (inner : SlotInner h)
      → Unheld slots kind other
      → other ≢ name
      → Unheld (slots ++ (live_slot kind name inner ∷ [])) kind other
  Unheld-append slots kind name other inner u ne j b e ek en =
      elim (get-append_one slots (live_slot kind name inner) j b e) [
        | inl q ↦ u j b q ek en
        | inr (qj, q) ↦ ne (cc)
      ]

  Unheld-All :
      (slots : List (Slot h)) (kind : SlotKind) (name : Bytes) (inner : SlotInner h)
      (names : List Bytes)
      → All (Unheld slots kind) names
      → Apart name names
      → All (Unheld (slots ++ (live_slot kind name inner ∷ [])) kind) names
  Unheld-All slots kind name inner [] u a = tt
  Unheld-All slots kind name inner (n ∷ ns) u a =
      (Unheld-append slots kind name n inner u.0 a.0, Unheld-All slots kind name inner ns u.1 a.1)

  -- What claiming gives: no more than the limit, and the slots go on being well formed.
  record Claims (pre : List SlotKind) (kind : SlotKind) (limit : ℕ) (s : Sys h)
      (r : (ℕ × List (Slot h)) × Sys h) : Type 0 where
    bound : r.0.0 ≤ limit
    claimed : Claimed h pre kind r.0.0 r.0.1
    global : r.1.global ≡ s.global

  -- One more name tried.
  record Grown (pre : List SlotKind) (kind : SlotKind) (got : ℕ) (names : List Bytes) (s : Sys h)
      (c : (ℕ × List (Slot h)) × Sys h) : Type 0 where
    bound : c.0.0 ≤ got + 1
    claimed : Claimed h pre kind c.0.0 c.0.1
    unheld : All (Unheld c.0.1 kind) names
    global : c.1.global ≡ s.global

  pushed-Grown :
      (pre : List SlotKind) (kind : SlotKind) (got : ℕ) (slots : List (Slot h)) (n : Bytes)
      (ns : List Bytes) (s : Sys h) (r : Option (SlotInner h)) (s' : Sys h)
      → (open_named kind n s).0 ≡ r
      → Claimed h pre kind got slots
      → All (Unheld slots kind) (n ∷ ns)
      → Apart n ns
      → Grown pre kind got ns s' (pushed kind n (got, slots) r s')
  pushed-Grown pre kind got slots n ns s none s' e v u a = record {
    bound = omega arith;
    claimed = v;
    unheld = u.1;
    global = refl;
  }
  pushed-Grown pre kind got slots n ns s (some inner) s' e v u a = record {
    bound = omega arith;
    claimed =
        pushed-Claimed pre kind got slots n inner v u.0 (open_named-Holds kind n s inner e)
          (n, s, refl, e);
    unheld = Unheld-All slots kind n inner ns u.1 a;
    global = refl;
  }

  not_full : (limit got : ℕ) → leb limit got ≡ false → got < limit
  not_full limit got e = ground (arith, e)

  -- What a whole kind gives: all of its slots, or an error.
  pub record Gives (pre : List SlotKind) (kind : SlotKind) (limit : ℕ) (s : Sys h)
      (r : Result Error (List (Slot h)) × Sys h) : Type 0 where
    pub global : r.1.global ≡ s.global
    pub claimed : (slots : List (Slot h)) → r.0 ≡ ok slots → Claimed h pre kind limit slots

  claim-Claims :
      (pre : List SlotKind) (kind : SlotKind) (limit : ℕ) (names : List Bytes) (got : ℕ)
      (slots : List (Slot h)) (s : Sys h)
      → got ≤ limit
      → Claimed h pre kind got slots
      → All (Unheld slots kind) names
      → Fresh names
      → Claims pre kind limit s (claim kind limit names (got, slots) s)
  unfolding claim
  claim-Claims pre kind limit [] got slots s le v u f = record {
    bound = le;
    claimed = v;
    global = refl;
  }
  claim-Claims pre kind limit (n ∷ ns) got slots s le v u f = elim (Bool-cases (leb limit got)) [
    | inl full ↦ rw full (record { bound = le; claimed = v; global = refl })
    | inr more ↦
        let o = open_named kind n s in
        let a = pushed-Grown pre kind got slots n ns s o.0 o.1 refl v u f.0 in
        let c = claim_one kind n (got, slots) s in
        let le' : c.0.0 ≤ limit = omega (arith, a.bound, not_full limit got more) in
        let b = claim-Claims pre kind limit ns c.0.0 c.0.1 c.1 le' a.claimed a.unheld f.1 in
        rw more (record {
          bound = b.bound;
          claimed = b.claimed;
          global = b.global ∙ a.global ∙ open_named-global kind n s;
        })
  ]

  enough-law :
      (pre : List SlotKind) (kind : SlotKind) (limit : ℕ) (s : Sys h)
      (r : (ℕ × List (Slot h)) × Sys h)
      → Claims pre kind limit s r
      → Gives pre kind limit s (enough_claimed limit r)
  enough-law pre kind limit s r c = elim (Bool-cases (ltb r.0.0 limit)) [
    | inl few ↦ rw few (record {
      global = drop_slots-global r.0.1 r.1 ∙ c.global;
      claimed = λ slots e. absurd (cc);
    })
    | inr full ↦ rw full (record {
      global = c.global;
      claimed = λ slots e.
          let n : r.0.0 ≡ limit = ground (arith, full, c.bound) in
          let q : r.0.1 ≡ slots = cc in
          subst (λ (k : ℕ). Claimed h pre kind k slots) n
            (subst (Claimed h pre kind r.0.0) q c.claimed);
    })
  ]

  None-held :
      (slots : List (Slot h)) (kind : SlotKind) (names : List Bytes)
      → ((name : Bytes) → Unheld slots kind name)
      → All (Unheld slots kind) names
  None-held slots kind [] u = tt
  None-held slots kind (n ∷ ns) u = (u n, None-held slots kind ns u)

  pub listed-law :
      (pre : List SlotKind) (kind : SlotKind) (limit : ℕ) (slots : List (Slot h))
      (r : Result Error (List Bytes)) (s : Sys h)
      → ((names : List Bytes) → r ≡ ok names → Fresh names)
      → Claimed h pre kind 0 slots
      → ((name : Bytes) → Unheld slots kind name)
      → Gives pre kind limit s (claim_listed kind limit slots r s)
  listed-law pre kind limit slots (err e) s f v u = record {
    global = drop_slots-global slots s;
    claimed = λ slots' q. absurd (cc);
  }
  listed-law pre kind limit slots (ok names) s f v u = enough-law pre kind limit s _ (
      claim-Claims pre kind limit names 0 slots s (omega arith) v (None-held slots kind names u)
        (f names refl))
