-- ===== src/Pool/Raw.antt =====
-- `Pool::read` of pool.rs: the path without the chain, and both paths together.
use mathlib.Core.Path.{subst}
use pkcs11_rand.Base.{
  ◌≡◌, refl, sym, ap, ◌∙◌, inl, inr, true, false, Bool-cases, Option-cases, Result, ok, err, Done,
  Result-cases, Filled, get_elem?, length, arith,
}
use pkcs11_rand.Host.{Bytes, Host, Sys, KernelLaws, DigestLaws}
use pkcs11_rand.Config.{Config, use_chain}
use pkcs11_rand.Config.Valid.{IsValid}
use pkcs11_rand.Pool.{Slot, Error, read_failure, Live, SlotRead, slot_read}
use pkcs11_rand.Pool.Rebind.{rebind}
use pkcs11_rand.Pool.Read.{read_first, settled, rebound, retried, read_raw, read}
use pkcs11_rand.Pool.Distinct.{IsShaped}
use pkcs11_rand.Pool.Safe.{Safe, Safe-refl, Safe-trans, read-Safe, rebind-Safe}
use pkcs11_rand.Pool.Chain.{IsWell}
use pkcs11_rand.Pool.Stream.{Streamed, read_chain-StreamLaw}

-- The whole buffer is that of one slot's read, which succeeded.
pub record FromOne (h : Host) (buf : Bytes) (o : Filled (Live h) Error) : Type 0 where
  pub slot : Slot h
  pub before : Bytes
  pub sys : Sys h
  pub size : length before ≡ length buf
  pub done : (slot_read ⦃h = h⦄ slot before sys).done ≡ true
  pub given : o.buf ≡ (slot_read ⦃h = h⦄ slot before sys).buf

record RawLaw (h : Host) (buf : Bytes) (l : Live h) (o : Filled (Live h) Error) : Type 0 where
  safe : Safe h l.config l o.state
  size : length o.buf ≡ length buf
  one : o.status ≡ ok tt → FromOne h buf o

-- What a read promises its caller, whichever path it takes.
pub record ReadLaw (h : Host) (buf : Bytes) (l : Live h) (o : Filled (Live h) Error) : Type 0 where
  pub size : length o.buf ≡ length buf
  pub well : IsWell h o.state.pool
  pub config : o.state.config ≡ l.config
  pub global : o.state.sys.global ≡ l.sys.global
  pub chained : use_chain l.config ≡ true → Streamed h buf l o
  pub raw :
      use_chain l.config ≡ false
      → (o.state.pool.state ≡ l.pool.state) × (o.status ≡ ok tt → FromOne h buf o)

module _ ⦃h : Host⦄ (k : KernelLaws h) where
  settled_ok :
      (slot : Slot h) (buf : Bytes) (l : Live h) (x : SlotRead h)
      → x ≡ slot_read slot buf l.sys
      → (settled read_failure x l).status ≡ ok tt
      → FromOne h buf (settled read_failure x l)
  settled_ok slot buf l x q e = elim (Bool-cases x.done) [
    | inl t ↦ record {
      slot = slot;
      before = buf;
      sys = l.sys;
      size = refl;
      done = ap (λ (y : SlotRead h). y.done) (sym q) ∙ t;
      given = ap (λ (y : SlotRead h). y.buf) q;
    }
    | inr f ↦ absurd (ground (arith, f, e))
  ]

  read_first-RawLaw :
      (buf : Bytes) (l : Live h) → IsShaped h l.config l.slots → RawLaw h buf l (read_first buf l)
  unfolding read_first
  read_first-RawLaw buf l v = elim (Option-cases (get_elem? l.slots 0)) [
    | inl e ↦
        rw (e, read_first)
          (record { safe = Safe-refl l.config l v; size = refl; one = λ bad. absurd (cc) })
    | inr (slot, e) ↦
        let p = read-Safe l.config k l 0 slot buf v e in
        rw (e, read_first) (record { safe = p.0; size = p.1; one = settled_ok slot buf l _ refl })
  ]

  rebound-RawLaw :
      (buf : Bytes) (x : Result Error Done) (l m : Live h)
      → Safe h l.config l m
      → RawLaw h buf l (rebound buf x m)
  rebound-RawLaw buf (err e) l m s = record { safe = s; size = refl; one = λ bad. absurd (cc) }
  rebound-RawLaw buf (ok tt) l m s =
      let shaped = subst (λ (c : Config). IsShaped h c m.slots) (sym s.config) s.shaped in
      let a = read_first-RawLaw buf m shaped in
      record {
        safe =
            Safe-trans l.config l m (read_first buf m).state s
              (subst (λ (c : Config). Safe h c m (read_first buf m).state) s.config a.safe);
        size = a.size;
        one = a.one;
      }

  retried-RawLaw :
      (buf : Bytes) (l : Live h) (o : Filled (Live h) Error)
      → RawLaw h buf l o
      → RawLaw h buf l (retried o)
  retried-RawLaw buf l o a =
      let s = rebind-Safe l.config o.state 0 a.safe.shaped in
      let b =
        rebound-RawLaw o.buf (rebind 0 o.state).0 l (rebind 0 o.state).1
          (Safe-trans l.config l o.state _ a.safe s) in
      record {
        safe = b.safe;
        size = b.size ∙ a.size;
        one = λ e.
            let f = b.one e in
            record {
              slot = f.slot;
              before = f.before;
              sys = f.sys;
              size = f.size ∙ a.size;
              done = f.done;
              given = f.given;
            };
      }

  read_raw-RawLaw :
      (buf : Bytes) (l : Live h) → IsShaped h l.config l.slots → RawLaw h buf l (read_raw buf l)
  unfolding read_raw
  read_raw-RawLaw buf l v =
      let a = read_first-RawLaw buf l v in
      elim (Result-cases ((read_first buf l).status)) [
        | inl (u, e) ↦ rw (e, read_raw) a
        | inr (x, e) ↦ rw (e, read_raw) (retried-RawLaw buf l (read_first buf l) a)
      ]

  -- For a well-formed pool, with a kernel and a hasher that keep their documented laws:
  -- however `Pool::read` ends, the slice keeps its length, the pool stays well formed, and the
  -- configuration and the PC/SC context stay as they were. With the chain in use the slice is
  -- filled as in `Streamed`; without it the chain state stays, and on success the whole slice
  -- is that of one successful read of one source.
  pub read-ReadLaw :
      (d : DigestLaws h) (buf : Bytes) (l : Live h) → IsWell h l.pool → ReadLaw h buf l (read buf l)
  unfolding read
  read-ReadLaw d buf l v = elim (Bool-cases (use_chain l.config)) [
    | inl e ↦
        let a = read_chain-StreamLaw k d buf l v in
        rw (e, read)
          (record {
            size = a.size;
            well = a.well;
            config = a.config;
            global = a.global;
            chained = λ on. a.outcome;
            raw = λ off. absurd (cc);
          })
    | inr e ↦
        let a = read_raw-RawLaw buf l v.shaped in
        let s = a.safe in
        rw (e, read)
          (record {
            size = a.size;
            well = record {
              valid = subst IsValid (sym s.config) v.valid;
              shaped =
                  subst (λ (c : Config). IsShaped h c (read_raw buf l).state.slots) (sym s.config)
                    s.shaped;
              chain = ap length s.state ∙ v.chain;
            };
            config = s.config;
            global = s.global;
            chained = λ on. absurd (cc);
            raw = λ off. (s.state, a.one);
          })
  ]
