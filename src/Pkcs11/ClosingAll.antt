-- ===== src/Pkcs11/ClosingAll.antt =====
-- `C_CloseAllSessions` of crates/p11rand/src/lib.rs: which sessions it ends.
use mathlib.Core.Path.{subst}
use pkcs11_rand.Base.{
  Done, Bool, ℕ, zero, suc, ◌<◌, ◌≡◌, ◌≢◌, not, refl, sym, ap, ◌∙◌, true, false, Option, none, some,
  some_inj, List, [], ◌∷◌, length, get_elem?, leb, arith, if◌then◌else◌,
}
use pkcs11_rand.Host.{Host, Sys}
use pkcs11_rand.Pkcs11.{ckr_ok, Session, Token, Reply, answer, drop_session}
use pkcs11_rand.Pkcs11.Sessions.{of_slot, close_slot, emptied, c_close_all_sessions}

-- What becomes of a session: it is ended if it is on the slot, and else it stays.
pub record Ended (h : Host) (slot : ℕ) (x : Session h) (after : Option (Option (Session h)))
    : Type 0 where
  pub gone : x.slot ≡ slot → after ≡ some none
  pub kept : x.slot ≢ slot → after ≡ some (some x)

module _ ⦃h : Host⦄ where
  close_slot-Ended :
      (slot : ℕ) (xs : List (Option (Session h))) (s : Sys h) (i : ℕ) (x : Session h)
      → get_elem? xs i ≡ some (some x)
      → Ended h slot x (get_elem? (close_slot slot xs s).0 i)
  unfolding close_slot
  close_slot-Ended slot [] s i x e = absurd (cc)
  close_slot-Ended slot (y ∷ ys) s zero x e =
      let q : y ≡ some x = some_inj e in
      rw q (record { gone = λ p. ground (arith, p); kept = λ p. ground (arith, p) })
  close_slot-Ended slot (y ∷ ys) s (suc i) x e =
      close_slot-Ended slot ys (if of_slot slot y then drop_session y s else s) i x e

  passed : {A : Type 0} (b : Bool) (x y : A) → b ≡ false → (if b then x else y) ≡ y
  passed true x y e = absurd (cc)
  passed false x y e = refl

  all_passed :
      (slot : ℕ) (t : Token h)
      → t.initialized ≡ true
      → slot < length t.slots
      → c_close_all_sessions slot t ≡ answer ckr_ok tt (emptied slot t)
  unfolding c_close_all_sessions
  all_passed slot t b lt =
      passed (not t.initialized) _ _ (ground (arith, b))
      ∙ passed (leb (length t.slots) slot) _ _ (ground (arith, lt))

  -- In an initialized module, for a slot that is published: `C_CloseAllSessions` answers
  -- CKR_OK, and of every session in the table, one on the slot is gone afterwards, and one on
  -- another slot is where it was.
  pub close_all_sessions-Ended :
      (slot : ℕ) (t : Token h)
      → t.initialized ≡ true
      → slot < length t.slots
      → ((c_close_all_sessions slot t).rv ≡ ckr_ok)
        × ((i : ℕ) (x : Session h)
            → get_elem? t.sessions i ≡ some (some x)
            → Ended h slot x (get_elem? (c_close_all_sessions slot t).token.sessions i))
  close_all_sessions-Ended slot t b lt =
      let p = all_passed slot t b lt in
      (
        ap (λ (r : Reply h Done). r.rv) p,
        λ i x e.
            subst (λ (r : Reply h Done). Ended h slot x (get_elem? r.token.sessions i)) (sym p)
              (close_slot-Ended slot t.sessions t.sys i x e),
      )
