-- ===== src/Base/Fill.antt =====
-- `while !buf.is_empty() { … buf = &mut buf[n..]; }`: the loop that fills a caller's buffer. The two
-- entropy sources and the pool all have it, each with its own body.
use Prim.Native.Nat.{ℕ, zero, suc, ◌<◌}
use mathlib.Core.Path.{◌≡◌, refl, ap}
use mathlib.Core.Logic.{◌⊎◌, inl, inr}
use mathlib.Core.List.{List, [], ◌∷◌, ◌++◌}
use native.Mathlib.Omega.{arith}
use pkcs11_rand.Base.Outcome.{Result, ok, err, Done}

-- What one turn of the body does: it returns, leaving `buf` in the rest of the slice, or it goes on,
-- having written `got` to the front, with the slice `rest` behind it.
pub data Turn (S E : Type 0) : Type 0 where
  stop : Result E Done → List ℕ → S → Turn S E
  go_on : (got rest : List ℕ) → S → Turn S E

-- The outcome: the returned value, the final contents of the whole slice, the final state.
pub record Filled (S E : Type 0) : Type 0 where
  pub status : Result E Done
  pub buf : List ℕ
  pub state : S

abbrev pub behind : {S E : Type 0} → List ℕ → Filled S E → Filled S E
behind got r = record r { buf = got ++ r.buf }

pub Turn-cases :
    {S E : Type 0} (t : Turn S E)
    → ((r : Result E Done) × (buf : List ℕ) × (s : S) × (t ≡ stop r buf s))
      ⊎ ((got rest : List ℕ) × (s : S) × (t ≡ go_on got rest s))
Turn-cases (stop r buf s) = inl (r, buf, s, refl)
Turn-cases (go_on got rest s) = inr (got, rest, s, refl)

module _ {S E : Type 0} (stuck : E) (body : List ℕ → S → Turn S E) where
  -- `stuck` is what a run out of fuel gives.
  unfoldable pub fill : ℕ → List ℕ → S → Filled S E
  fill fuel [] s = record { status = ok tt; buf = []; state = s }
  fill zero (b ∷ bs) s = record { status = err stuck; buf = b ∷ bs; state = s }
  fill (suc fuel) (b ∷ bs) s = elim (body (b ∷ bs) s) [
    | stop r buf s' ↦ record { status = r; buf = buf; state = s' }
    | go_on got rest s' ↦ behind got (fill fuel rest s')
  ]

  module _ (measure : List ℕ → S → ℕ)
      (falls : (b : ℕ) (bs : List ℕ) (s : S) (got rest : List ℕ) (s' : S)
        → body (b ∷ bs) s ≡ go_on got rest s'
        → measure rest s' < measure (b ∷ bs) s) where
    -- The loop rule: with a falling measure below the fuel, what holds of each way out holds of the
    -- outcome.
    pub fill_rule {ℓ} :
        (R : List ℕ → S → Filled S E → Type ℓ)
        → ((s : S) → R [] s (record { status = ok tt; buf = []; state = s }))
        → ((b : ℕ) (bs : List ℕ) (s : S) (r : Result E Done) (buf : List ℕ) (s' : S)
            → body (b ∷ bs) s ≡ stop r buf s'
            → R (b ∷ bs) s (record { status = r; buf = buf; state = s' }))
        → ((b : ℕ) (bs : List ℕ) (s : S) (got rest : List ℕ) (s' : S) (o : Filled S E)
            → body (b ∷ bs) s ≡ go_on got rest s'
            → R rest s' o
            → R (b ∷ bs) s (behind got o))
        → (fuel : ℕ) (buf : List ℕ) (s : S) → measure buf s < fuel
        → R buf s (fill fuel buf s)
    unfolding fill
    fill_rule R done out next zero [] s h = done s
    fill_rule R done out next zero (b ∷ bs) s h = absurd (omega arith)
    fill_rule R done out next (suc fuel) [] s h = done s
    fill_rule R done out next (suc fuel) (b ∷ bs) s h = elim (Turn-cases (body (b ∷ bs) s)) [
      | inl (r, buf, s', e) ↦ rw (e, fill) (out b bs s r buf s' e)
      | inr (got, rest, s', e) ↦
          rw (e, fill)
            (next b bs s got rest s' _ e
              (fill_rule R done out next fuel rest s' (omega (arith, falls b bs s got rest s' e))))
    ]

    -- Any two fuels above the measure agree: the clause that runs out of fuel is never reached.
    pub fill_fuel :
        (f g : ℕ) (buf : List ℕ) (s : S)
        → measure buf s < f
        → measure buf s < g
        → fill f buf s ≡ fill g buf s
    unfolding fill
    fill_fuel zero g buf s hf hg = absurd (omega arith)
    fill_fuel (suc f) zero buf s hf hg = absurd (omega arith)
    fill_fuel (suc f) (suc g) [] s hf hg = refl
    fill_fuel (suc f) (suc g) (b ∷ bs) s hf hg = elim (Turn-cases (body (b ∷ bs) s)) [
      | inl (r, buf, s', e) ↦ rw (e, fill)
      | inr (got, rest, s', e) ↦
          rw (e, fill)
            (ap (behind got) (
              fill_fuel f g rest s' (omega (arith, falls b bs s got rest s' e))
                (omega (arith, falls b bs s got rest s' e))))
    ]
