-- ===== src/Pkcs11/Handles.antt =====
-- Session handles of crates/p11rand/src/lib.rs: which sessions a call can reach.
use pkcs11_rand.Base.{
  ℕ, suc, ◌+◌, ◌-◌, ◌≡◌, ◌≢◌, ◌↔◌, not, refl, sym, ap, ◌∙◌, true, false, Bool, Bool-cases, inl, inr,
  Option, none, some, some_inj, List, [], ◌∷◌, Result, ok, err, length, get_elem?, set,
  get_elem?-set_self, get-lt, leb, ◌==◌, arith, if◌then◌else◌,
}
use pkcs11_rand.Host.{Host, Sys}
use pkcs11_rand.Config.{Config}
use pkcs11_rand.Pool.{Error, not_enough_sources, resource, read_failure, Pool}
use pkcs11_rand.Pool.Open.{open_pool}
use pkcs11_rand.Pkcs11.{ckr_ok, SessionFlags, Session, Module, Token, Reply, in_use, find_session}
use pkcs11_rand.Pkcs11.Sessions.{first_free, opened, open_at, c_open_session}

module _ ⦃h : Host⦄ where
  -- The session that a handle names: handle `i + 1` is entry `i` of the table.
  abbrev pub Names : Module h → ℕ → Session h → Type 0
  Names m handle x = (i : ℕ) × (handle ≡ i + 1) × (get_elem? m.sessions i ≡ some (some x))

  in_use-some :
      (i : ℕ) (o : Option (Option (Session h))) (x : Session h)
      → o ≡ some (some x)
      → in_use i o ≡ some i
  in_use-some i o x e = rw e refl

  in_use_inv :
      (i j : ℕ) (o : Option (Option (Session h)))
      → in_use i o ≡ some j
      → (i ≡ j) × (x : Session h) × (o ≡ some (some x))
  in_use_inv i j none e = absurd (cc)
  in_use_inv i j (some none) e = absurd (cc)
  in_use_inv i j (some (some x)) e = (some_inj e, x, refl)

  pub found :
      (m : Module h) (handle idx : ℕ)
      → find_session m handle ≡ some idx
      → (handle ≡ idx + 1) × (x : Session h) × (get_elem? m.sessions idx ≡ some (some x))
  unfolding find_session
  found m handle idx e = elim (Bool-cases (handle == 0)) [
    | inl z ↦ let n : none ≡ some idx = rw z at e in absurd (cc)
    | inr z ↦
        let (p, x, q) =
          in_use_inv (handle - 1) idx (get_elem? m.sessions (handle - 1)) (rw z at e) in
        (ground (arith, z, p), x, ap (get_elem? m.sessions) (sym p) ∙ q)
  ]

  -- `find_session` resolves a handle to an index exactly if the handle is the index plus one
  -- and the table has a session there.
  pub find_session-Names :
      (m : Module h) (handle idx : ℕ)
      → (find_session m handle ≡ some idx)
        ↔ ((handle ≡ idx + 1) × (x : Session h) × (get_elem? m.sessions idx ≡ some (some x)))
  unfolding find_session
  find_session-Names m handle idx = (
    λ e. found m handle idx e,
    λ (p, x, q).
        let z : (handle == 0) ≡ false = ground (arith, p) in
        let e : handle - 1 ≡ idx = omega (arith, p) in
        rw (z, e) (in_use-some idx (get_elem? m.sessions idx) x q),
  )

  first_free-empty :
      (xs : List (Option (Session h))) (i j : ℕ)
      → first_free xs i ≡ some j
      → (k : ℕ) × (j ≡ i + k) × (get_elem? xs k ≡ some none)
  unfolding first_free
  first_free-empty [] i j e = cc
  first_free-empty (none ∷ xs) i j e = (0, sym (some_inj e) ∙ omega arith, refl)
  first_free-empty (some x ∷ xs) i j e =
      let (k, p, q) = first_free-empty xs (i + 1) j e in (suc k, p ∙ omega arith, q)

  -- How `C_OpenSession` ends: with the session in the entry that was the first to be free, under the
  -- handle that it returns; or with an error, and then the sessions and the caller's memory stay.
  pub data OpenOutcome (cfg : Config) (slot : ℕ) (flags : SessionFlags) (p : Option ℕ) (t : Token h)
      (r : Reply h (Option ℕ)) : Type 0 where
    opened_as :
        (idx : ℕ) (pool : Pool h)
        → r.rv ≡ ckr_ok
        → (open_pool cfg t.sys).0 ≡ ok pool
        → r.out ≡ some (idx + 1)
        → get_elem? t.sessions idx ≡ some none
        → r.token.sessions
          ≡ set t.sessions idx (some (record { slot = slot; flags = flags; pool = pool }))
        → find_session r.token.state (idx + 1) ≡ some idx
        → OpenOutcome cfg slot flags p t r
    refused :
        r.rv ≢ ckr_ok → r.token.sessions ≡ t.sessions → r.out ≡ p → OpenOutcome cfg slot flags p t r

  opened-outcome :
      (cfg : Config) (slot : ℕ) (flags : SessionFlags) (free old : ℕ) (r : Result Error (Pool h))
      (s : Sys h) (t : Token h)
      → (open_pool cfg t.sys).0 ≡ r
      → get_elem? t.sessions free ≡ some none
      → OpenOutcome cfg slot flags
          (some old)
          t
          (opened slot flags free old r (record t { sys = s }))
  opened-outcome cfg slot flags free old (ok p) s t e g =
      let x : Session h = record { slot = slot; flags = flags; pool = p } in
      opened_as free p refl e refl g refl (
        (find_session-Names _ (free + 1) free).1
          (refl, x, get_elem?-set_self t.sessions free (some x) (get-lt t.sessions free none g)))
  opened-outcome cfg slot flags free old (err not_enough_sources) s t e g =
      refused (λ q. absurd (cc)) refl refl
  opened-outcome cfg slot flags free old (err resource) s t e g =
      refused (λ q. absurd (cc)) refl refl
  opened-outcome cfg slot flags free old (err read_failure) s t e g =
      refused (λ q. absurd (cc)) refl refl

  open_at-outcome :
      (cfg : Config) (slot : ℕ) (flags : SessionFlags) (old : ℕ) (free : Option ℕ) (t : Token h)
      → first_free t.sessions 0 ≡ free
      → OpenOutcome cfg slot flags (some old) t (open_at cfg slot flags old free t)
  open_at-outcome cfg slot flags old none t e = refused (λ q. absurd (cc)) refl refl
  open_at-outcome cfg slot flags old (some i) t e =
      let (k, p, q) = first_free-empty t.sessions 0 i e in
      opened-outcome cfg slot flags i old (open_pool cfg t.sys).0 (open_pool cfg t.sys).1 t refl
        (ap (get_elem? t.sessions) (p ∙ omega arith) ∙ q)

  branch-outcome :
      (cfg : Config) (slot : ℕ) (flags : SessionFlags) (p : Option ℕ) (t : Token h) (b : Bool)
      (x y : Reply h (Option ℕ))
      → OpenOutcome cfg slot flags p t x
      → OpenOutcome cfg slot flags p t y
      → OpenOutcome cfg slot flags p t (if b then x else y)
  branch-outcome cfg slot flags p t true x y f g = f
  branch-outcome cfg slot flags p t false x y f g = g

  -- `C_OpenSession` either puts a session of the given slot and flags, with a pool that
  -- `Pool::open` returned, into an entry of the table that was free, and returns a handle that
  -- `find_session` resolves to this entry; or it does not answer CKR_OK, and leaves the
  -- sessions and the caller's handle as they were.
  pub open_session-outcome :
      (cfg : Config) (slot : ℕ) (flags : SessionFlags) (p : Option ℕ) (t : Token h)
      → OpenOutcome cfg slot flags p t (c_open_session cfg slot flags p t)
  unfolding c_open_session
  open_session-outcome cfg slot flags none t = refused (λ q. absurd (cc)) refl refl
  open_session-outcome cfg slot flags (some old) t =
      branch-outcome cfg slot flags (some old) t (not flags.serial_session) _ _
        (refused (λ q. absurd (cc)) refl refl)
        (branch-outcome cfg slot flags (some old) t (not t.initialized) _ _
          (refused (λ q. absurd (cc)) refl refl)
          (branch-outcome cfg slot flags (some old) t (leb (length t.slots) slot) _ _
            (refused (λ q. absurd (cc)) refl refl)
            (open_at-outcome cfg slot flags old (first_free t.sessions 0) t refl)))
