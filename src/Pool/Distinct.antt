-- ===== src/Pool/Distinct.antt =====
-- pool.rs: no device is held by two slots, and the slots keep the shape that the configuration gives.
use mathlib.Core.Path.{subst}
use pkcs11_rand.Base.{
  ℕ, zero, suc, ◌+◌, ◌≡◌, refl, sym, ◌∙◌, ◌≢◌, true, false, inl, inr, none, some, List, [], ◌∷◌,
  ◌++◌, map, All, All-set, map-set_same, get_elem?, set, replicate, get-set_cases, bytes_eq_refl,
  arith,
}
use pkcs11_rand.Host.{Bytes, Host}
use pkcs11_rand.Config.{Config}
use pkcs11_rand.Pool.{SlotKind, iso7816, infnoise, kind_eq, SlotInner, Slot, live_slot}
use pkcs11_rand.Pool.Rebind.{name_in_use, name_in_use_from}
use pkcs11_rand.Pool.Coherent.{IsCoherent}

-- Two slots that hold the same device: one kind and one name.
pub record Clash (h : Host) (a b : Slot h) : Type 0 where
  pub name : Bytes
  pub kinds : a.kind ≡ b.kind
  pub left : a.name ≡ some name
  pub right : b.name ≡ some name

module _ ⦃h : Host⦄ where
  abbrev pub Distinct : List (Slot h) → Type 0
  Distinct slots =
      (i j : ℕ) (a b : Slot h)
      → i ≢ j
      → get_elem? slots i ≡ some a
      → get_elem? slots j ≡ some b
      → ¬ Clash h a b

  -- `x` may stand in slot `idx`.
  abbrev pub IsFree : List (Slot h) → ℕ → Slot h → Type 0
  IsFree slots idx x = (j : ℕ) (b : Slot h) → j ≢ idx → get_elem? slots j ≡ some b → ¬ Clash h x b

  flip : {a b : Slot h} → Clash h a b → Clash h b a
  flip c = record { name = c.name; kinds = sym c.kinds; left = c.right; right = c.left }

  Distinct-set :
      (slots : List (Slot h)) (i : ℕ) (y : Slot h)
      → Distinct slots
      → IsFree slots i y
      → Distinct (set slots i y)
  Distinct-set slots i y d f j k a b ne ea eb c = elim (get-set_cases slots i j y a ea) [
    | inl (ij, ay) ↦ elim (get-set_cases slots i k y b eb) [
      | inl (ik, by') ↦ ne (sym ij ∙ ik)
      | inr (nk, ek) ↦ f k b (λ e. nk (sym e)) ek (subst (λ x. Clash h x b) ay c)
    ]
    | inr (nj, ej) ↦ elim (get-set_cases slots i k y b eb) [
      | inl (ik, by') ↦ f j a (λ e. nj (sym e)) ej (flip (subst (Clash h a) by' c))
      | inr (nk, ek) ↦ d j k a b ne ej ek c
    ]
  ]

  pub IsFree-same :
      (slots : List (Slot h)) (i : ℕ) (x y : Slot h)
      → Distinct slots
      → get_elem? slots i ≡ some x
      → y.kind ≡ x.kind
      → y.name ≡ x.name
      → IsFree slots i y
  IsFree-same slots i x y d e ek en j b ne ej c =
      d i j x b (λ same. ne (sym same)) e ej
        (record {
          name = c.name;
          kinds = sym ek ∙ c.kinds;
          left = sym en ∙ c.left;
          right = c.right;
        })

  pub IsFree-closed :
      (slots : List (Slot h)) (i : ℕ) (y : Slot h) → y.name ≡ none → IsFree slots i y
  IsFree-closed slots i y e j b ne ej c = cc (e, c.left)

  kind_eq_refl : (k : SlotKind) → kind_eq k k ≡ true
  unfolding kind_eq
  kind_eq_refl iso7816 = refl
  kind_eq_refl infnoise = refl

  unused_from :
      (j : ℕ) (slots : List (Slot h)) (i skip : ℕ) (kind : SlotKind) (name : Bytes) (b : Slot h)
      → name_in_use_from j slots skip kind name ≡ false
      → get_elem? slots i ≡ some b
      → j + i ≢ skip
      → kind ≡ b.kind
      → b.name ≡ some name
      → ⊥
  unfolding name_in_use_from
  unused_from j [] i skip kind name b u e ne ek en = cc
  unused_from j (x ∷ slots) zero skip kind name b u e ne ek en =
      ground (arith, kind_eq_refl kind, bytes_eq_refl name)
  unused_from j (x ∷ slots) (suc i) skip kind name b u e ne ek en =
      unused_from (suc j) slots i skip kind name b (ground arith) e (λ q. ne (omega arith)) ek en

  -- A name that no other slot of the kind holds is free for the slot.
  pub IsFree-unused :
      (slots : List (Slot h)) (idx : ℕ) (kind : SlotKind) (name : Bytes) (inner : SlotInner h)
      → name_in_use slots idx kind name ≡ false
      → IsFree slots idx (live_slot kind name inner)
  unfolding name_in_use
  IsFree-unused slots idx kind name inner u j b ne ej c =
      unused_from 0 slots j idx kind name b u ej (λ q. ne (omega arith)) c.kinds
        (cc (c.left, c.right))

-- The slots of a pool: cards first, then devices, as many as configured; each coherent; no two on
-- one device.
pub record IsShaped (h : Host) (cfg : Config) (slots : List (Slot h)) : Type 0 where
  pub kinds :
      map (λ (x : Slot h). x.kind) slots
      ≡ replicate cfg.iso7816_cards iso7816 ++ replicate cfg.infnoise_devices infnoise
  pub coherent : All (IsCoherent h) slots
  pub distinct : Distinct ⦃h = h⦄ slots

module _ ⦃h : Host⦄ where
  pub IsShaped-set :
      (cfg : Config) (slots : List (Slot h)) (i : ℕ) (x y : Slot h)
      → IsShaped h cfg slots
      → get_elem? slots i ≡ some x
      → y.kind ≡ x.kind
      → IsCoherent h y
      → IsFree slots i y
      → IsShaped h cfg (set slots i y)
  IsShaped-set cfg slots i x y v e ek c f = record {
    kinds = map-set_same (λ (x : Slot h). x.kind) slots i x y e ek ∙ v.kinds;
    coherent = All-set (IsCoherent h) slots i y v.coherent c;
    distinct = Distinct-set slots i y v.distinct f;
  }
