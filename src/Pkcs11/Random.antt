-- ===== src/Pkcs11/Random.antt =====
-- `C_GenerateRandom` of crates/p11rand/src/lib.rs: what the caller's memory holds afterwards.
use pkcs11_rand.Base.{
  ℕ, ◌≡◌, ◌≢◌, refl, sym, ap, take-append-drop, ◌∙◌, true, false, Bool, Option, none, some, ◌++◌,
  ok, err, Filled, get_elem?, set, take, drop, All-get, if◌then◌else◌,
}
use pkcs11_rand.Host.{Bytes, Host, KernelLaws, DigestLaws}
use pkcs11_rand.Config.{Config}
use pkcs11_rand.Pool.{Error, Live}
use pkcs11_rand.Pool.Read.{read}
use pkcs11_rand.Pool.Raw.{ReadLaw, read-ReadLaw}
use pkcs11_rand.Pkcs11.{CkRv, ckr_ok, ckr_device_error, Session, Token, Reply, find_session, answer}
use pkcs11_rand.Pkcs11.Sessions.{
  entry, session_at, live_of, code_of, read_entry, read_found, put_back, c_generate_random,
}
use pkcs11_rand.Pkcs11.Handles.{found}
use pkcs11_rand.Pkcs11.Ready.{IsEntry, IsSession, IsReady}

-- How a call with a buffer ends: with an error, and nothing is changed; or with a read of the named
-- session's pool into the first `len` bytes, which decides the code, and the bytes behind them and all
-- other sessions stay.
pub data RandomOutcome (h : Host) (handle : ℕ) (mem : Bytes) (len : ℕ) (t : Token h)
    (r : Reply h (Option Bytes)) : Type 0 where
  no_session : r.rv ≢ ckr_ok → r.token ≡ t → r.out ≡ some mem → RandomOutcome h handle mem len t r
  delivered :
      (idx : ℕ) (x : Session h) (o : Filled (Live h) Error)
      → find_session ⦃h = h⦄ t.state handle ≡ some idx
      → get_elem? t.sessions idx ≡ some (some x)
      → ReadLaw h (take len mem) (live_of ⦃h = h⦄ x t) o
      → (o.status ≡ ok tt → r.rv ≡ ckr_ok)
      → ((e : Error) → o.status ≡ err e → r.rv ≡ ckr_device_error)
      → r.out ≡ some (o.buf ++ drop len mem)
      → r.token.sessions ≡ set t.sessions idx (some (record x { pool = o.state.pool }))
      → RandomOutcome h handle mem len t r

module _ ⦃h : Host⦄ (k : KernelLaws h) (d : DigestLaws h) (cfg : Config) (handle : ℕ) (mem : Bytes)
    (len : ℕ) (t : Token h) where
  nothing_done :
      (rv : CkRv)
      → rv ≢ ckr_ok
      → RandomOutcome h handle mem len t (put_back (drop len mem) (answer rv (take len mem) t))
  nothing_done rv n = no_session n refl (ap some (take-append-drop len mem))

  read_entry-outcome :
      (idx : ℕ) (x : Session h) (o : Option (Session h))
      → IsReady h cfg t
      → find_session t.state handle ≡ some idx
      → get_elem? t.sessions idx ≡ some (some x)
      → o ≡ some x
      → RandomOutcome h handle mem len t
          (put_back (drop len mem) (read_entry idx o (take len mem) t))
  read_entry-outcome idx x none v e q p = absurd (cc)
  read_entry-outcome idx x (some y) v e q p =
      let q' : get_elem? t.sessions idx ≡ some (some y) = q ∙ ap some (sym p) in
      let own : IsSession h cfg t.initialized y =
        All-get (IsEntry h cfg t.initialized) t.sessions idx (some y) v.sessions q' in
      delivered idx y (read (take len mem) (live_of y t)) e q'
        (read-ReadLaw k d (take len mem) (live_of y t) own.well) (λ w. ap code_of w)
        (λ x w. ap code_of w) refl refl

  read_found-outcome :
      (r : Option ℕ)
      → IsReady h cfg t
      → find_session t.state handle ≡ r
      → RandomOutcome h handle mem len t (put_back (drop len mem) (read_found r (take len mem) t))
  read_found-outcome none v e = nothing_done _ (λ q. absurd (cc))
  read_found-outcome (some idx) v e =
      let (p, x, q) = found t.state handle idx e in
      read_entry-outcome idx x (session_at t idx) v e q (ap entry q)

  branch-random :
      (b : Bool) (x y : Reply h Bytes)
      → RandomOutcome h handle mem len t (put_back (drop len mem) x)
      → RandomOutcome h handle mem len t (put_back (drop len mem) y)
      → RandomOutcome h handle mem len t (put_back (drop len mem) (if b then x else y))
  branch-random true x y f g = f
  branch-random false x y f g = g

  -- In a module that meets its invariant, with a kernel and a hasher that keep their
  -- documented laws: `C_GenerateRandom` into the first `len` bytes of the caller's memory
  -- either fails, and changes neither the module nor the memory; or it reads the pool of the
  -- session that the handle names, under the law of `Pool::read`, and answers CKR_OK if that
  -- read succeeds and CKR_DEVICE_ERROR if not. Then the bytes behind the first `len` and all
  -- other sessions are as they were.
  pub generate_random-outcome :
      IsReady h cfg t → RandomOutcome h handle mem len t (c_generate_random handle (some mem) len t)
  unfolding c_generate_random
  generate_random-outcome v =
      branch-random t.initialized (read_found (find_session t.state handle) (take len mem) t) _
        (read_found-outcome (find_session t.state handle) v refl)
        (nothing_done _ (λ q. absurd (cc)))
