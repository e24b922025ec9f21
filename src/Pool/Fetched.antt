-- ===== src/Pool/Fetched.antt =====
-- What a round of `do_round_chain` in pool.rs fetches, and from where.
use pkcs11_rand.Base.{
  ℕ, zero, suc, ◌+◌, ◌≡◌, sym, true, none, some, List, [], ◌∷◌, ◌++◌, get_elem?, replicate, length,
  leb, if◌then◌else◌,
}
use mathlib.Core.Path.{subst}
use mathlib.Core.List.{append_assoc}
use pkcs11_rand.Host.{Bytes, Host}
use pkcs11_rand.Config.{Config, slot_ticks}
use pkcs11_rand.Pool.{Slot, Live, slot_read}
use pkcs11_rand.Pool.Rebind.{rebind, put_slot}
use pkcs11_rand.Pool.Round.{tick_zeros}

abbrev pub after_read : (h : Host) → ℕ → Slot h → Live h → Live h
after_read h i slot m =
    let r = slot_read ⦃h = h⦄ slot tick_zeros m.sys in
    record (put_slot ⦃h = h⦄ i r.slot m) { sys = r.sys }

-- What a pool comes to from `l` on by the doings of a round: workers are scheduled, a slot is read, a
-- slot is bound anew.
pub data Later (h : Host) (l : Live h) : Live h → Type 0 where
  at_once : Later h l l
  scheduled :
      {m : Live h} (n : ℕ)
      → Later h l m
      → Later h l (record m { sys = record m.sys { world = (h.schedule n m.sys.world).1 } })
  read_slot :
      {m : Live h} (i : ℕ) (slot : Slot h)
      → get_elem? m.slots i ≡ some slot
      → Later h l m
      → Later h l (after_read h i slot m)
  bound_anew : {m : Live h} (i : ℕ) → Later h l m → Later h l (rebind ⦃h = h⦄ i m).1

-- The bytes of a read of slot `i` that succeeded, at some time after `l`.
pub record Fetched (h : Host) (l : Live h) (i : ℕ) (buf : Bytes) : Type 0 where
  pub before : Live h
  pub later : Later h l before
  pub slot : Slot h
  pub at : get_elem? before.slots i ≡ some slot
  pub done : (slot_read ⦃h = h⦄ slot tick_zeros before.sys).done ≡ true
  pub bytes : (slot_read ⦃h = h⦄ slot tick_zeros before.sys).buf ≡ buf
  pub len : length buf ≡ 32

-- Fetches from these slots, one behind the other.
pub data Fetches (h : Host) (l : Live h) : List ℕ → Bytes → Type 0 where
  no_fetch : Fetches h l [] []
  fetch :
      {is : List ℕ} {e : Bytes} (i : ℕ) (buf : Bytes)
      → Fetched h l i buf
      → Fetches h l is e
      → Fetches h l (i ∷ is) (buf ++ e)

pub Fetches-append :
    {h : Host} {l : Live h} {is js : List ℕ} {e f : Bytes}
    → Fetches h l is e
    → Fetches h l js f
    → Fetches h l (is ++ js) (e ++ f)
Fetches-append no_fetch b = b
Fetches-append {h} {l} {js = js} {f = f} (fetch {is} {e} i buf a more) b =
    subst (Fetches h l (i ∷ (is ++ js))) (sym (append_assoc buf e f))
      (fetch i buf a (Fetches-append more b))

-- The slots that owe a fetch at tick `t`, of the `n` slots from slot `i` on, in the order of the slots;
-- and those of `n` ticks from tick `t` on, tick after tick.
unfoldable pub owing : Config → ℕ → ℕ → ℕ → List ℕ
owing cfg t zero i = []
owing cfg t (suc n) i = (if leb (slot_ticks cfg i) t then [] else (i ∷ [])) ++ owing cfg t n (i + 1)

unfoldable pub owing_ticks : Config → ℕ → ℕ → ℕ → List ℕ
owing_ticks cfg size zero t = []
owing_ticks cfg size (suc n) t = owing cfg t size 0 ++ owing_ticks cfg size n (t + 1)

pub nothing_got :
    {A : Type 0} (n i : ℕ) (a : A) → get_elem? (replicate n none) i ≡ some (some a) → ⊥
nothing_got zero i a e = cc
nothing_got (suc n) zero a e = cc
nothing_got (suc n) (suc i) a e = nothing_got n i a e
