-- ===== src/Pool/Round.antt =====
-- `do_round_chain` of pool.rs: the ticks of a round, its workers, and the two SHA3-256 contexts.
use pkcs11_rand.Base.{
  ℕ, zero, suc, ◌+◌, Option, none, some, List, [], ◌∷◌, Result, ok, err, Act, Done, ◌>>=◌, leb,
  get_elem?, set, length, replicate, if◌then◌else◌,
}
use pkcs11_rand.Host.{Bytes, Host, Sys}
use pkcs11_rand.Config.{Config, tick_bytes, slot_ticks, max_ticks}
use pkcs11_rand.Pool.{Slot, SlotRead, Error, not_enough_sources, read_failure, Live, slot_read}
use pkcs11_rand.Pool.Rebind.{rebind}

-- The workers of one tick: the slots that they borrow, and the results that are joined.
pub record Tick (h : Host) : Type 0 where
  pub slots : List (Slot h)
  pub scratch : List (Option Bytes)
  pub sys : Sys h

-- The round so far: `h_out` and `h_state` take the same bytes behind different tags.
pub record Round (h : Host) : Type 0 where
  pub live : Live h
  pub open live use *
  pub h_out : h.Hasher
  pub h_state : h.Hasher

abbrev pub tick_zeros : Bytes
tick_zeros = replicate tick_bytes 0

module _ ⦃h : Host⦄ where
  abbrev pub joined : ℕ → Tick h → SlotRead h → Tick h
  joined i k r = record {
    slots = set k.slots i r.slot;
    scratch = if r.done then set k.scratch i (some r.buf) else k.scratch;
    sys = r.sys;
  }

  -- Worker `i`, if slot `i` still owes bytes at tick `t`.
  unfoldable pub work : Config → ℕ → ℕ → Tick h → Tick h
  work cfg t i k = elim (get_elem? k.slots i) [
    | none ↦ k
    | some slot ↦
        if leb (slot_ticks cfg i) t then k else joined i k (slot_read slot tick_zeros k.sys)
  ]

  -- The workers in the order in which they are scheduled. Each has a source of its own, so a
  -- schedule decides only whose exchange comes first.
  unfoldable pub fan_out : Config → ℕ → List ℕ → Tick h → Tick h
  fan_out cfg t [] k = k
  fan_out cfg t (i ∷ order) k = fan_out cfg t order (work cfg t i k)

  abbrev pub absorb : Bytes → Round h → Round h
  absorb buf r = record r { h_out = h.update r.h_out buf; h_state = h.update r.h_state buf }

  abbrev pub retried : ℕ → SlotRead h → Round h → Result Error Done × Round h
  retried i x r =
      let l = record r.live {
        pool = record r.live.pool { slots = set r.slots i x.slot };
        sys = x.sys;
      } in
      if x.done
      then (ok tt, absorb x.buf (record r { live = l }))
      else (err read_failure, record r { live = l })

  abbrev pub retry_slot : ℕ → Act (Round h) Error Done
  retry_slot i r = elim (get_elem? r.slots i) [
    | none ↦ (err not_enough_sources, r)
    | some slot ↦ retried i (slot_read slot tick_zeros r.sys) r
  ]

  abbrev pub in_live : Act (Live h) Error Done → Act (Round h) Error Done
  in_live m r = let (x, l) = m r.live in (x, record r { live = l })

  unfoldable pub retry : ℕ → Act (Round h) Error Done
  retry i = do bound ← in_live (rebind i); retry_slot i

  -- Slot `i` after the join: what its worker fetched, or a rebind and a second read.
  unfoldable pub absorb_slot : Config → ℕ → List (Option Bytes) → ℕ → Act (Round h) Error Done
  absorb_slot cfg t scratch i r =
      let recover = retry i r in
      if leb (slot_ticks cfg i) t then (ok tt, r) else elim (get_elem? scratch i) [
        | none ↦ recover
        | some x ↦ elim x [ none ↦ recover | some buf ↦ (ok tt, absorb buf r) ]
      ]

  -- `for i in 0..pool_size`, with `n` rounds to go.
  unfoldable pub absorb_slots : Config → ℕ → List (Option Bytes) → ℕ → ℕ → Act (Round h) Error Done
  absorb_slots cfg t scratch zero i r = (ok tt, r)
  absorb_slots cfg t scratch (suc n) i r =
      (absorb_slot cfg t scratch i >>= λ _. absorb_slots cfg t scratch n (i + 1)) r

  abbrev pub spawn : Config → ℕ → Round h → Tick h
  spawn cfg t r =
      let (order, w) = h.schedule (length r.slots) r.sys.world in
      fan_out cfg t order (record {
        slots = r.slots;
        scratch = replicate (length r.slots) none;
        sys = record r.sys { world = w };
      })

  abbrev pub join : Tick h → Round h → Round h
  join k r = record r {
    live = record r.live { pool = record r.live.pool { slots = k.slots }; sys = k.sys };
  }

  unfoldable pub tick : Config → ℕ → Act (Round h) Error Done
  tick cfg t r = let k = spawn cfg t r in absorb_slots cfg t k.scratch (length r.slots) 0 (join k r)

  -- `for t in 0..max_ticks`, with `n` rounds to go.
  unfoldable pub ticks : Config → ℕ → ℕ → Act (Round h) Error Done
  ticks cfg zero t r = (ok tt, r)
  ticks cfg (suc n) t r = (tick cfg t >>= λ _. ticks cfg n (t + 1)) r

  abbrev pub start : Live h → Round h
  start l = record {
    live = l;
    h_out = h.update (h.update h.hasher l.state) (0x11 ∷ []);
    h_state = h.update (h.update h.hasher l.state) (0x00 ∷ []);
  }

  abbrev pub finish : Result Error Done → Round h → Result Error Bytes × Live h
  finish (err e) r = (err e, r.live)
  finish (ok _) r = (
    ok (h.finalize r.h_out),
    record r.live { pool = record r.live.pool { state = h.finalize r.h_state } },
  )

  -- The 32 bytes of `out`, and the next chain state.
  unfoldable pub do_round_chain : Act (Live h) Error Bytes
  do_round_chain l = let (x, r) = ticks l.config (max_ticks l.config) 0 (start l) in finish x r
