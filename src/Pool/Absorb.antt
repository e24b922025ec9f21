-- ===== src/Pool/Absorb.antt =====
-- What a round of `do_round_chain` in pool.rs feeds to the two SHA3-256 contexts.
use mathlib.Core.Path.{subst}
use mathlib.Core.List.{append-nil}
use pkcs11_rand.Base.{
  ℕ, zero, suc, ◌+◌, ◌≡◌, refl, sym, ap, ◌∙◌, inl, inr, Bool-cases, some, Option-cases, List, [],
  ◌∷◌, ◌++◌, Result, ok, err, Done, Act, and_then, get_elem?, length, length-append, leb,
  if◌then◌else◌, arith,
}
use pkcs11_rand.Host.{Bytes, Host, KernelLaws, DigestLaws}
use pkcs11_rand.Config.{Config, slot_ticks}
use pkcs11_rand.Pool.Fetched.{
  Later, read_slot, bound_anew, Fetched, Fetches, no_fetch, fetch, Fetches-append,
}
use pkcs11_rand.Pool.{Slot, Live, Error, slot_read}
use pkcs11_rand.Pool.Rebind.{rebind}
use pkcs11_rand.Pool.Distinct.{IsShaped}
use pkcs11_rand.Pool.Round.{Round, retried, retry_slot, retry, tick_zeros}
use pkcs11_rand.Pool.Safe.{Safe, Safe-refl, Safe-trans, read-Safe, rebind-Safe}

-- The bytes that a tick takes from `n` slots, the first of them slot `i`; and those of `n` ticks.
unfoldable pub owed : Config → ℕ → ℕ → ℕ → ℕ
owed cfg t zero i = 0
owed cfg t (suc n) i = (if leb (slot_ticks cfg i) t then 0 else 32) + owed cfg t n (i + 1)

unfoldable pub owed_ticks : Config → ℕ → ℕ → ℕ → ℕ
owed_ticks cfg size zero t = 0
owed_ticks cfg size (suc n) t = owed cfg t size 0 + owed_ticks cfg size n (t + 1)

-- In a round that began at `l0`, both contexts took the same bytes from `r` to `r'`; `n` of them, which
-- were fetched from the slots `is`, if nothing failed.
pub record Absorbs (h : Host) (cfg : Config) (l0 : Live h) (r : Round h) (x : Result Error Done)
    (r' : Round h) (n : ℕ) (is : List ℕ) : Type 0 where
  pub safe : Safe h cfg r.live r'.live
  pub eaten : Bytes
  pub out : r'.h_out ≡ h.update r.h_out eaten
  pub next : r'.h_state ≡ h.update r.h_state eaten
  pub amount : x ≡ ok tt → length eaten ≡ n
  pub later : Later h l0 r'.live
  pub fetches : x ≡ ok tt → Fetches h l0 is eaten

module _ ⦃h : Host⦄ (k : KernelLaws h) (d : DigestLaws h) (cfg : Config) (l0 : Live h) where
  pub unfed :
      (r r' : Round h) (x : Result Error Done) (n : ℕ) (is : List ℕ)
      → Safe h cfg r.live r'.live
      → Later h l0 r'.live
      → r'.h_out ≡ r.h_out
      → r'.h_state ≡ r.h_state
      → (x ≡ ok tt → (n ≡ 0) × (is ≡ []))
      → Absorbs h cfg l0 r x r' n is
  unfed r r' x n is s y o t e = record {
    safe = s;
    eaten = [];
    out = o ∙ sym (d.update_nil r.h_out);
    next = t ∙ sym (d.update_nil r.h_state);
    amount = λ q. sym (e q).0;
    later = y;
    fetches = λ q. subst (λ (is : List ℕ). Fetches h l0 is []) (sym (e q).1) no_fetch;
  }

  pub fed :
      (r r' : Round h) (buf : Bytes) (i : ℕ)
      → Safe h cfg r.live r'.live
      → Later h l0 r'.live
      → r'.h_out ≡ h.update r.h_out buf
      → r'.h_state ≡ h.update r.h_state buf
      → Fetched h l0 i buf
      → Absorbs h cfg l0 r (ok tt) r' 32 (i ∷ [])
  fed r r' buf i s y o t f = record {
    safe = s;
    eaten = buf;
    out = o;
    next = t;
    amount = λ q. f.len;
    later = y;
    fetches = λ q. subst (Fetches h l0 (i ∷ [])) (append-nil buf) (fetch i buf f no_fetch);
  }

  join_updates :
      (a b c : h.Hasher) (e f : Bytes)
      → b ≡ h.update a e
      → c ≡ h.update b f
      → c ≡ h.update a (e ++ f)
  join_updates a b c e f p q = q ∙ ap (λ (s : h.Hasher). h.update s f) p ∙ d.update_append a e f

  pub both :
      (r s t : Round h) (x : Result Error Done) (n m : ℕ) (is js : List ℕ)
      → Absorbs h cfg l0 r (ok tt) s n is
      → Absorbs h cfg l0 s x t m js
      → Absorbs h cfg l0 r x t (n + m) (is ++ js)
  both r s t x n m is js a b = record {
    safe = Safe-trans cfg r.live s.live t.live a.safe b.safe;
    eaten = a.eaten ++ b.eaten;
    out = join_updates r.h_out s.h_out t.h_out a.eaten b.eaten a.out b.out;
    next = join_updates r.h_state s.h_state t.h_state a.eaten b.eaten a.next b.next;
    amount = λ q. omega (arith, length-append a.eaten b.eaten, a.amount refl, b.amount q);
    later = b.later;
    fetches = λ q. Fetches-append (a.fetches refl) (b.fetches q);
  }

  failed_first :
      (r s : Round h) (e : Error) (n m : ℕ) (is js : List ℕ)
      → Absorbs h cfg l0 r (err e) s n is
      → Absorbs h cfg l0 r (err e) s m js
  failed_first r s e n m is js a = record {
    safe = a.safe;
    eaten = a.eaten;
    out = a.out;
    next = a.next;
    amount = λ q. absurd (cc);
    later = a.later;
    fetches = λ q. absurd (cc);
  }

  -- The rule for a step and the steps behind it.
  pub then-Absorbs :
      (r s : Round h) (x : Result Error Done) (f : Act (Round h) Error Done) (n m : ℕ)
      (is js : List ℕ)
      → Absorbs h cfg l0 r x s n is
      → (Safe h cfg r.live s.live → Later h l0 s.live → Absorbs h cfg l0 s (f s).0 (f s).1 m js)
      → let y = and_then x (λ _. f) s in Absorbs h cfg l0 r y.0 y.1 (n + m) (is ++ js)
  then-Absorbs r s (ok _) f n m is js a b = both r s (f s).1 (f s).0 n m is js a (b a.safe a.later)
  then-Absorbs r s (err e) f n m is js a b = failed_first r s e n (n + m) is (is ++ js) a

  retried-Absorbs :
      (r : Round h) (i : ℕ) (slot : Slot h)
      → IsShaped h cfg r.slots
      → Later h l0 r.live
      → get_elem? r.slots i ≡ some slot
      → let x = retried i (slot_read slot tick_zeros r.sys) r in
        Absorbs h cfg l0 r x.0 x.1 32 (i ∷ [])
  retried-Absorbs r i slot v y e =
      let x = slot_read slot tick_zeros r.sys in
      let (s, len) = read-Safe cfg k r.live i slot tick_zeros v e in
      elim (Bool-cases x.done) [
        | inl done ↦ rw done (
            fed r _ x.buf i s (read_slot i slot e y) refl refl (record {
              before = r.live;
              later = y;
              slot = slot;
              at = e;
              done = done;
              bytes = refl;
              len = len;
            }))
        | inr not_done ↦
            rw not_done
              (unfed r _ _ 32 (i ∷ []) s (read_slot i slot e y) refl refl (λ q. absurd (cc)))
      ]

  retry_slot-Absorbs :
      (r : Round h) (i : ℕ)
      → IsShaped h cfg r.slots
      → Later h l0 r.live
      → Absorbs h cfg l0 r (retry_slot i r).0 (retry_slot i r).1 32 (i ∷ [])
  retry_slot-Absorbs r i v y = elim (Option-cases (get_elem? r.slots i)) [
    | inl e ↦
        rw (e, retry_slot)
          (unfed r r _ 32 (i ∷ []) (Safe-refl cfg r.live v) y refl refl (λ q. absurd (cc)))
    | inr (slot, e) ↦ rw (e, retry_slot) (retried-Absorbs r i slot v y e)
  ]

  pub retry-Absorbs :
      (r : Round h) (i : ℕ)
      → IsShaped h cfg r.slots
      → Later h l0 r.live
      → Absorbs h cfg l0 r (retry i r).0 (retry i r).1 32 (i ∷ [])
  unfolding retry
  retry-Absorbs r i v y =
      let l = rebind i r.live in
      let r' : Round h = record r { live = l.1 } in
      then-Absorbs r r' l.0 (retry_slot i) 0 32 [] (i ∷ [])
        (unfed r r' l.0 0 [] (rebind-Safe cfg r.live i v) (bound_anew i y) refl refl
          (λ q. (refl, refl)))
        (λ q z. retry_slot-Absorbs r' i q.shaped z)
