-- ===== src/Pkcs11/Closing.antt =====
-- `C_CloseSession` of crates/p11rand/src/lib.rs: what becomes of the handles.
use pkcs11_rand.Base.{
  ℕ, ◌+◌, ◌-◌, ◌<◌, ◌≡◌, ◌≢◌, refl, sym, ap, ◌∙◌, true, false, Bool, Bool-cases, inl, inr, Option,
  none, some, List, Done, length, get_elem?, set, get_elem?-set_self, get_elem?-set_ne, get-lt,
  ◌==◌, arith, if◌then◌else◌,
}
use pkcs11_rand.Host.{Host}
use pkcs11_rand.Pkcs11.{ckr_ok, Session, Module, Token, Reply, find_session, answer}
use pkcs11_rand.Pkcs11.Sessions.{close_found, close_entry, c_close_session}
use pkcs11_rand.Pkcs11.Handles.{found}

module _ ⦃h : Host⦄ where
  -- How `C_CloseSession` ends: the named session's entry is emptied, so that its handle is refused
  -- from then on, while every other handle finds what it found; or the code says why not, and the
  -- module stays as it was.
  pub data CloseOutcome (handle : ℕ) (t : Token h) (r : Reply h Done) : Type 0 where
    closed_as :
        (idx : ℕ)
        → r.rv ≡ ckr_ok
        → find_session t.state handle ≡ some idx
        → r.token.sessions ≡ set t.sessions idx none
        → find_session r.token.state handle ≡ none
        → ((other : ℕ)
            → other ≢ handle
            → find_session r.token.state other ≡ find_session t.state other)
        → CloseOutcome handle t r
    not_closed : r.rv ≢ ckr_ok → r.token ≡ t → CloseOutcome handle t r

  find_session-set-none :
      (m : Module h) (xs : List (Option (Session h))) (handle idx : ℕ)
      → handle ≡ idx + 1
      → xs ≡ set m.sessions idx none
      → idx < length m.sessions
      → find_session (record m { sessions = xs }) handle ≡ none
  unfolding find_session
  find_session-set-none m xs handle idx p e lt =
      let z : (handle == 0) ≡ false = ground (arith, p) in
      let q : handle - 1 ≡ idx = omega (arith, p) in
      let g : get_elem? xs idx ≡ some none =
        ap (λ ys. get_elem? ys idx) e ∙ get_elem?-set_self m.sessions idx none lt in
      rw (z, q, g) refl

  find_session-set_other :
      (m : Module h) (xs : List (Option (Session h))) (other idx : ℕ)
      → other ≢ idx + 1
      → xs ≡ set m.sessions idx none
      → find_session (record m { sessions = xs }) other ≡ find_session m other
  unfolding find_session
  find_session-set_other m xs other idx ne e = elim (Bool-cases (other == 0)) [
    | inl z ↦ rw z refl
    | inr z ↦
        let apart : idx ≢ other - 1 = λ q. ne (ground (arith, q, z)) in
        let g : get_elem? xs (other - 1) ≡ get_elem? m.sessions (other - 1) =
          ap (λ ys. get_elem? ys (other - 1)) e ∙ get_elem?-set_ne m.sessions none apart in
        rw (z, g) refl
  ]

  close_entry-outcome :
      (handle idx : ℕ) (x : Session h) (o : Option (Option (Session h))) (t : Token h)
      → find_session t.state handle ≡ some idx
      → handle ≡ idx + 1
      → get_elem? t.sessions idx ≡ o
      → o ≡ some (some x)
      → CloseOutcome handle t (answer ckr_ok tt (close_entry idx o t))
  close_entry-outcome handle idx x none t e p g q = absurd (cc)
  close_entry-outcome handle idx x (some y) t e p g q =
      closed_as idx refl e refl
        (find_session-set-none t.state _ handle idx p refl (get-lt t.sessions idx y g))
        (λ other ne. find_session-set_other t.state _ other idx (λ w. ne (w ∙ sym p)) refl)

  close_found-outcome :
      (handle : ℕ) (r : Option ℕ) (t : Token h)
      → find_session t.state handle ≡ r
      → CloseOutcome handle t (close_found r t)
  close_found-outcome handle none t e = not_closed (λ q. absurd (cc)) refl
  close_found-outcome handle (some idx) t e =
      let (p, x, q) = found t.state handle idx e in
      close_entry-outcome handle idx x (get_elem? t.sessions idx) t e p refl q

  branch-close :
      (handle : ℕ) (t : Token h) (b : Bool) (x y : Reply h Done)
      → CloseOutcome handle t x
      → CloseOutcome handle t y
      → CloseOutcome handle t (if b then x else y)
  branch-close handle t true x y f g = f
  branch-close handle t false x y f g = g

  -- `C_CloseSession` either answers CKR_OK and empties the entry that the handle names, so
  -- that the handle finds nothing afterwards while every other handle finds what it found
  -- before; or it does not answer CKR_OK, and changes nothing.
  pub close_session-outcome :
      (handle : ℕ) (t : Token h) → CloseOutcome handle t (c_close_session handle t)
  unfolding c_close_session
  close_session-outcome handle t =
      branch-close handle t t.initialized (close_found (find_session t.state handle) t) _
        (close_found-outcome handle (find_session t.state handle) t refl)
        (not_closed (λ q. absurd (cc)) refl)
