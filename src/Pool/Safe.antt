-- ===== src/Pool/Safe.antt =====
-- pool.rs: the steps of a round write slots, and leave the pool's shape and chain state alone.
use mathlib.Core.Path.{subst}
use pkcs11_rand.Base.{
  ℕ, ◌≡◌, refl, sym, ap, ◌∙◌, inl, inr, some, Option-cases, get_elem?, length, length-set,
}
use pkcs11_rand.Host.{Bytes, Host, KernelLaws}
use pkcs11_rand.Config.{Config}
use pkcs11_rand.Pool.{Slot, Pool, Live, slot_read}
use pkcs11_rand.Pool.Rebind.{rebind, put_slot}
use pkcs11_rand.Pool.Coherent.{IsCoherent, SlotKeeps, slot_read-Keeps}
use pkcs11_rand.Pool.Distinct.{IsShaped, IsShaped-set, IsFree-same}
use pkcs11_rand.Pool.Rebound.{Rebound, rebind-Rebound}
use pkcs11_rand.Base.{All-get}

pub record Safe (h : Host) (cfg : Config) (l l' : Live h) : Type 0 where
  pub shaped : IsShaped h cfg l'.slots
  pub size : length l'.slots ≡ length l.slots
  pub config : l'.config ≡ l.config
  pub state : l'.state ≡ l.state
  pub global : l'.sys.global ≡ l.sys.global

module _ ⦃h : Host⦄ (cfg : Config) where
  pub Safe-refl : (l : Live h) → IsShaped h cfg l.slots → Safe h cfg l l
  Safe-refl l v = record { shaped = v; size = refl; config = refl; state = refl; global = refl }

  pub Safe-trans : (l m n : Live h) → Safe h cfg l m → Safe h cfg m n → Safe h cfg l n
  Safe-trans l m n a b = record {
    shaped = b.shaped;
    size = b.size ∙ a.size;
    config = b.config ∙ a.config;
    state = b.state ∙ a.state;
    global = b.global ∙ a.global;
  }

  -- A read of one slot, written back.
  pub read-Safe :
      (k : KernelLaws h) (l : Live h) (i : ℕ) (slot : Slot h) (buf : Bytes)
      → IsShaped h cfg l.slots
      → get_elem? l.slots i ≡ some slot
      → let x = slot_read slot buf l.sys in
        Safe h cfg l (record (put_slot i x.slot l) { sys = x.sys }) × (length x.buf ≡ length buf)
  read-Safe k l i slot buf v e =
      let x = slot_read slot buf l.sys in
      let q : SlotKeeps h slot buf l.sys x =
        slot_read-Keeps k slot buf l.sys (All-get (IsCoherent h) l.slots i slot v.coherent e) in
      (
        record {
          shaped =
              IsShaped-set cfg l.slots i slot x.slot v e q.kind q.coherent
                (IsFree-same l.slots i slot x.slot v.distinct e q.kind q.name);
          size = length-set l.slots i x.slot;
          config = refl;
          state = refl;
          global = q.global;
        },
        q.len,
      )

  Rebound-Safe :
      (l l' : Live h) (i : ℕ) (slot : Slot h)
      → IsShaped h cfg l.slots
      → get_elem? l.slots i ≡ some slot
      → Rebound h i slot l (rebind i l).0 l'
      → Safe h cfg l l'
  Rebound-Safe l l' i slot v e b = record {
    shaped =
        subst (λ (p : Pool h). IsShaped h cfg p.slots) (sym b.pool)
          (IsShaped-set cfg l.slots i slot b.new v e b.kind b.coherent b.free);
    size = ap (λ (p : Pool h). length p.slots) b.pool ∙ length-set l.slots i b.new;
    config = ap (λ (p : Pool h). p.config) b.pool;
    state = ap (λ (p : Pool h). p.state) b.pool;
    global = b.global;
  }

  pub rebind-Safe : (l : Live h) (i : ℕ) → IsShaped h cfg l.slots → Safe h cfg l (rebind i l).1
  unfolding rebind
  rebind-Safe l i v = elim (Option-cases (get_elem? l.slots i)) [
    | inl e ↦ rw (e, rebind) (Safe-refl l v)
    | inr (slot, e) ↦ Rebound-Safe l _ i slot v e (rebind-Rebound i slot l e)
  ]
