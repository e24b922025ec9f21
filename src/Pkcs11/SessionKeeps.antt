-- ===== src/Pkcs11/SessionKeeps.antt =====
-- The session calls of crates/p11rand/src/lib.rs keep the module's invariant.
use mathlib.Core.Path.{subst}
use pkcs11_rand.Base.{
  ℕ, suc, ◌<◌, ◌≡◌, not, refl, sym, ap, ◌∙◌, true, false, Bool, ◌&&◌, Bool-cases, inl, inr, Option,
  none, some, List, [], ◌∷◌, Result, ok, err, All, All-get, length, get_elem?, ltb, leb, arith,
  take,
}
use pkcs11_rand.Host.{Bytes, Host, Sys, KernelLaws, DigestLaws, ListLaws}
use pkcs11_rand.Config.{Config}
use pkcs11_rand.Pool.{Error, not_enough_sources, resource, read_failure, Pool}
use pkcs11_rand.Pool.Open.{open_pool}
use pkcs11_rand.Pool.Opened.{IsOpened, open_pool-IsOpened}
use pkcs11_rand.Pool.Raw.{read-ReadLaw}
use pkcs11_rand.Pkcs11.{SessionFlags, Session, Token, answer, ckr_ok, find_session, drop_session}
use pkcs11_rand.Pkcs11.Sessions.{
  opened, open_at, first_free, c_open_session, close_found, close_entry, of_slot, entry, read_entry,
  nothing_to, c_close_session, close_slot, emptied, c_close_all_sessions, read_found, generate,
  session_at, live_of, c_generate_random,
}
use pkcs11_rand.Pkcs11.Context.{Held, drop_session-global}
use pkcs11_rand.Pkcs11.Ready.{
  IsSession, IsEntry, IsReady, published, IsReady-same, length-marked, entry-IsReady,
  branch-IsReady,
}

module _ ⦃h : Host⦄ (cfg : Config) where
  opened-IsReady :
      (slot : ℕ) (flags : SessionFlags) (free old : ℕ) (r : Result Error (Pool h)) (s : Sys h)
      (t : Token h)
      → t.initialized ≡ true
      → slot < length t.slots
      → IsReady h cfg t
      → IsOpened h cfg t.sys (r, s)
      → IsReady h cfg (opened slot flags free old r (record t { sys = s })).token
  opened-IsReady slot flags free old (ok p) s t b lt v o =
      let new = o.opened p refl in
      let only : slot ≡ 0 = omega (arith, lt, v.slots ∙ ap published b) in
      entry-IsReady cfg t _ free (some (record { slot = slot; flags = flags; pool = p })) v
        (record { initialized = b; slot = only; well = new.well; config = new.config }) refl
        (length-marked cfg true t.slots slot) refl o.global
  opened-IsReady slot flags free old (err not_enough_sources) s t b lt v o =
      IsReady-same cfg t _ v refl (length-marked cfg false t.slots slot) refl o.global
  opened-IsReady slot flags free old (err resource) s t b lt v o =
      IsReady-same cfg t _ v refl refl refl o.global
  opened-IsReady slot flags free old (err read_failure) s t b lt v o =
      IsReady-same cfg t _ v refl refl refl o.global

  open_at-IsReady :
      (laws : ListLaws h) (slot : ℕ) (flags : SessionFlags) (old : ℕ) (free : Option ℕ)
      (t : Token h)
      → t.initialized ≡ true
      → slot < length t.slots
      → IsReady h cfg t
      → IsReady h cfg (open_at cfg slot flags old free t).token
  open_at-IsReady laws slot flags old none t b lt v = v
  open_at-IsReady laws slot flags old (some free) t b lt v =
      opened-IsReady slot flags free old (open_pool cfg t.sys).0 (open_pool cfg t.sys).1 t b lt v
        (open_pool-IsOpened laws cfg t.sys)

  pub open_session-IsReady :
      (laws : ListLaws h) (slot : ℕ) (flags : SessionFlags) (p : Option ℕ) (t : Token h)
      → IsReady h cfg t
      → IsReady h cfg (c_open_session cfg slot flags p t).token
  unfolding c_open_session
  open_session-IsReady laws slot flags none t v = v
  open_session-IsReady laws slot flags (some old) t v =
      branch-IsReady cfg (not flags.serial_session) _ _ (λ e. v)
        λ serial.
          branch-IsReady cfg (not t.initialized) _ _ (λ e. v)
            λ on.
              branch-IsReady cfg (leb (length t.slots) slot) _ _ (λ e. v)
                λ inside.
                  open_at-IsReady laws slot flags old (first_free t.sessions 0) t
                    (ground (arith, on)) (ground (arith, inside)) v

  closed-IsReady :
      (idx : ℕ) (x : Option (Option (Session h))) (t : Token h)
      → IsReady h cfg t
      → IsReady h cfg (close_entry idx x t)
  closed-IsReady idx none t v = v
  closed-IsReady idx (some x) t v =
      entry-IsReady cfg t _ idx none v tt refl refl refl (drop_session-global x t.sys)

  close_found-IsReady :
      (r : Option ℕ) (t : Token h) → IsReady h cfg t → IsReady h cfg (close_found r t).token
  close_found-IsReady none t v = v
  close_found-IsReady (some idx) t v = closed-IsReady idx (get_elem? t.sessions idx) t v

  pub close_session-IsReady :
      (handle : ℕ) (t : Token h) → IsReady h cfg t → IsReady h cfg (c_close_session handle t).token
  unfolding c_close_session
  close_session-IsReady handle t v =
      branch-IsReady cfg t.initialized (close_found (find_session t.state handle) t) _
        (λ e. close_found-IsReady (find_session t.state handle) t v) (λ e. v)

  -- The table and the process after `C_CloseAllSessions`.
  record Emptied (b : Bool) (xs : List (Option (Session h))) (s : Sys h)
      (r : List (Option (Session h)) × Sys h) : Type 0 where
    size : length r.0 ≡ length xs
    sessions : All (IsEntry h cfg b) r.0
    global : r.1.global ≡ s.global

  close_slot-Emptied :
      (b : Bool) (slot : ℕ) (xs : List (Option (Session h))) (s : Sys h)
      → All (IsEntry h cfg b) xs
      → Emptied b xs s (close_slot slot xs s)
  unfolding close_slot
  close_slot-Emptied b slot [] s v = record { size = refl; sessions = tt; global = refl }
  close_slot-Emptied b slot (x ∷ xs) s v = elim (Bool-cases (of_slot slot x)) [
    | inl e ↦
        let a = close_slot-Emptied b slot xs (drop_session x s) v.1 in
        rw e (record {
          size = ap suc a.size;
          sessions = (tt, a.sessions);
          global = a.global ∙ drop_session-global x s;
        })
    | inr e ↦
        let a = close_slot-Emptied b slot xs s v.1 in
        rw e (record { size = ap suc a.size; sessions = (v.0, a.sessions); global = a.global })
  ]

  emptied-IsReady : (slot : ℕ) (t : Token h) → IsReady h cfg t → IsReady h cfg (emptied slot t)
  emptied-IsReady slot t v =
      let a = close_slot-Emptied t.initialized slot t.sessions t.sys v.sessions in
      record {
        table = a.size ∙ v.table;
        slots = v.slots;
        sessions = a.sessions;
        context =
            subst (Held h (t.initialized && ltb 0 cfg.iso7816_cards)) (sym a.global) v.context;
      }

  pub close_all-IsReady :
      (slot : ℕ) (t : Token h) → IsReady h cfg t → IsReady h cfg (c_close_all_sessions slot t).token
  unfolding c_close_all_sessions
  close_all-IsReady slot t v =
      branch-IsReady cfg (not t.initialized) _ _ (λ e. v)
        λ on.
          branch-IsReady cfg (leb (length t.slots) slot) _ (answer ckr_ok tt (emptied slot t))
            (λ e. v) λ inside. emptied-IsReady slot t v

module _ ⦃h : Host⦄ (k : KernelLaws h) (d : DigestLaws h) (cfg : Config) where
  entry-some :
      (o : Option (Option (Session h))) (x : Session h) → entry o ≡ some x → o ≡ some (some x)
  entry-some none x e = absurd (cc)
  entry-some (some y) x e = ap some e

  read_entry-IsReady :
      (idx : ℕ) (o : Option (Session h)) (buf : Bytes) (t : Token h)
      → session_at t idx ≡ o
      → IsReady h cfg t
      → IsReady h cfg (read_entry idx o buf t).token
  read_entry-IsReady idx none buf t e v = v
  read_entry-IsReady idx (some x) buf t e v =
      let own : IsSession h cfg t.initialized x =
        All-get (IsEntry h cfg t.initialized) t.sessions idx (some x) v.sessions
          (entry-some (get_elem? t.sessions idx) x e) in
      let a = read-ReadLaw k d buf (live_of x t) own.well in
      entry-IsReady cfg t _ idx _ v
        (record {
          initialized = own.initialized;
          slot = own.slot;
          well = a.well;
          config = a.config ∙ own.config;
        })
        refl refl refl a.global

  generate-IsReady :
      (handle : ℕ) (buf : Bytes) (t : Token h)
      → IsReady h cfg t
      → IsReady h cfg (generate handle buf t).token
  generate-IsReady handle buf t v =
      branch-IsReady cfg t.initialized (read_found (find_session t.state handle) buf t) _
        (λ e. found (find_session t.state handle)) (λ e. v)
    where
      found : (r : Option ℕ) → IsReady h cfg (read_found r buf t).token
      found none = v
      found (some idx) = read_entry-IsReady idx (session_at t idx) buf t refl v

  pub generate_random-IsReady :
      (handle : ℕ) (buf : Option Bytes) (len : ℕ) (t : Token h)
      → IsReady h cfg t
      → IsReady h cfg (c_generate_random handle buf len t).token
  unfolding c_generate_random
  generate_random-IsReady handle none len t v =
      branch-IsReady cfg (ltb 0 len) _ (nothing_to (generate handle [] t)) (λ e. v)
        (λ e. generate-IsReady handle [] t v)
  generate_random-IsReady handle (some mem) len t v = generate-IsReady handle (take len mem) t v
