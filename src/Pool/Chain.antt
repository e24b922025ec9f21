-- ===== src/Pool/Chain.antt =====
-- `do_round_chain` of pool.rs against the hash chain in the comment at the top of that file.
use mathlib.Core.Path.{subst}
use pkcs11_rand.Base.{
  ℕ, ◌+◌, ◌*◌, ◌≡◌, refl, sym, ap, ◌∙◌, List, [], ◌∷◌, ◌++◌, Result, ok, err, Done, length,
  length-append, length-replicate, length-map, replicate, arith,
}
use pkcs11_rand.Host.{Bytes, Host, KernelLaws, DigestLaws, sha3_256}
use pkcs11_rand.Config.{Config, pool_size, max_ticks}
use pkcs11_rand.Config.Valid.{IsValid}
use pkcs11_rand.Pool.{iso7816, infnoise, Slot, Error, Pool, Live}
use pkcs11_rand.Pool.Distinct.{IsShaped}
use pkcs11_rand.Pool.Round.{Round, ticks, start, finish, do_round_chain}
use pkcs11_rand.Pool.Fetched.{Fetches, owing_ticks, at_once}
use pkcs11_rand.Pool.Absorb.{Absorbs, owed_ticks}
use pkcs11_rand.Pool.Ticks.{ticks-Absorbs}
use pkcs11_rand.Pool.Owed.{owed_round}

-- A pool as `open` makes it and every operation leaves it.
pub record IsWell (h : Host) (p : Pool h) : Type 0 where
  pub valid : IsValid p.config
  pub shaped : IsShaped h p.config p.slots
  pub chain : length p.state ≡ 32

pub length-slots :
    {h : Host} (cfg : Config) (slots : List (Slot h))
    → IsShaped h cfg slots
    → length slots ≡ pool_size cfg
unfolding pool_size
length-slots {h} cfg slots v = omega (
  arith,
  ap length v.kinds,
  length-map slots (λ (x : Slot h). x.kind),
  length-append (replicate cfg.iso7816_cards iso7816) (replicate cfg.infnoise_devices infnoise),
  length-replicate cfg.iso7816_cards iso7816,
  length-replicate cfg.infnoise_devices infnoise,
)

-- What a round makes of the pool in `l`: 32 bytes and the next chain state, both from the chain state
-- and the same bytes, in two domains, which were fetched in this round, from the slots in the order that
-- the configuration asks for; or an error, and then the chain does not move.
pub data Produced (h : Host) (l : Live h) (r : Result Error Bytes) (l' : Live h) : Type 0 where
  produced :
      (e : Bytes)
      → Fetches h l (owing_ticks l.config (pool_size l.config) (max_ticks l.config) 0) e
      → r ≡ ok (sha3_256 h (l.state ++ (0x11 ∷ e)))
      → l'.state ≡ sha3_256 h (l.state ++ (0x00 ∷ e))
      → length e
        ≡ l.config.iso7816_cards * l.config.iso7816_input_bytes
          + l.config.infnoise_devices * l.config.infnoise_input_bytes
      → Produced h l r l'
  not_produced : (x : Error) → r ≡ err x → l'.state ≡ l.state → Produced h l r l'

pub record RoundLaw (h : Host) (l : Live h) (r : Result Error Bytes) (l' : Live h) : Type 0 where
  pub well : IsWell h l'.pool
  pub config : l'.config ≡ l.config
  pub global : l'.sys.global ≡ l.sys.global
  pub outcome : Produced h l r l'

module _ ⦃h : Host⦄ (k : KernelLaws h) (d : DigestLaws h) (l : Live h) where
  tagged :
      (s : h.Hasher) (b : ℕ) (e : Bytes)
      → s ≡ h.update (h.update (h.update h.hasher l.state) (b ∷ [])) e
      → h.finalize s ≡ sha3_256 h (l.state ++ (b ∷ e))
  tagged s b e q =
      ap h.finalize (q ∙ d.update_append _ (b ∷ []) e ∙ d.update_append h.hasher l.state (b ∷ e))

  finish-RoundLaw :
      (x : Result Error Done) (r : Round h)
      → IsWell h l.pool
      → Absorbs h l.config l
          (start l)
          x
          r
          (owed_ticks l.config (pool_size l.config) (max_ticks l.config) 0)
          (owing_ticks l.config (pool_size l.config) (max_ticks l.config) 0)
      → RoundLaw h l (finish x r).0 (finish x r).1
  finish-RoundLaw (err e) r v a = record {
    well = record {
      valid = subst IsValid (sym a.safe.config) v.valid;
      shaped = subst (λ (c : Config). IsShaped h c r.slots) (sym a.safe.config) a.safe.shaped;
      chain = ap length a.safe.state ∙ v.chain;
    };
    config = a.safe.config;
    global = a.safe.global;
    outcome = not_produced e refl a.safe.state;
  }
  finish-RoundLaw (ok tt) r v a = record {
    well = record {
      valid = subst IsValid (sym a.safe.config) v.valid;
      shaped = subst (λ (c : Config). IsShaped h c r.slots) (sym a.safe.config) a.safe.shaped;
      chain = d.length-finalize r.h_state;
    };
    config = a.safe.config;
    global = a.safe.global;
    outcome =
        produced a.eaten (a.fetches refl) (ap ok (tagged r.h_out 0x11 a.eaten a.out))
          (tagged r.h_state 0x00 a.eaten a.next) (a.amount refl ∙ owed_round l.config v.valid);
  }

  -- For a well-formed pool, with a kernel and a hasher that keep their documented laws: a
  -- round of `do_round_chain` that succeeds returns SHA3-256 of the chain state, the byte 0x11
  -- and the fetched bytes, and moves the chain to SHA3-256 of the chain state, the byte 0x00
  -- and the same bytes. These are, tick after tick and in a tick slot after slot, 32 bytes for
  -- each slot that owes them at that tick, as a successful read of this slot in this round
  -- gave them; there are exactly as many as the configuration asks of all sources. A round
  -- that fails leaves the chain state. Either way the pool stays well formed, and the
  -- configuration and the PC/SC context stay as they were.
  pub do_round_chain-RoundLaw :
      IsWell h l.pool → RoundLaw h l (do_round_chain l).0 (do_round_chain l).1
  unfolding do_round_chain
  do_round_chain-RoundLaw v =
      let x = ticks l.config (max_ticks l.config) 0 (start l) in
      finish-RoundLaw x.0 x.1 v (
        ticks-Absorbs k d l.config l (max_ticks l.config) 0 (pool_size l.config) (start l) v.shaped
          at_once (length-slots l.config l.slots v.shaped))
