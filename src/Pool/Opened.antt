-- ===== src/Pool/Opened.antt =====
-- `Pool::open` of pool.rs: the slots that it claims.
use mathlib.Core.Path.{subst}
use mathlib.Core.List.{append-nil}
use pkcs11_rand.Base.{
  ℕ, ◌≡◌, refl, sym, ap, ◌∙◌, Bool-cases, inl, inr, List, [], map, Result, ok, err, map_err, ok_inj,
  Act, All, and_then, Fresh, map-replicate, replicate, ltb, arith,
}
use pkcs11_rand.Host.{Bytes, DirRead, entries, not_found, unreadable, Host, Sys, ListLaws}
use pkcs11_rand.Config.{Config, validate}
use pkcs11_rand.Config.Valid.{IsValid, validate-IsValid}
use pkcs11_rand.Infnoise
use pkcs11_rand.Infnoise.{dev_dir}
use pkcs11_rand.Infnoise.Fresh.{listed-Fresh}
use pkcs11_rand.Iso7816.Listed.{list_readers-Fresh}
use pkcs11_rand.Pool.{SlotKind, iso7816, infnoise, Slot, Error, Pool, zeros, resource, list_names}
use pkcs11_rand.Pool.Claimed.{Unheld, Claimed, Gives, listed-law}
use pkcs11_rand.Pool.Open.{claim_kind, open_pool}
use pkcs11_rand.Pool.Coherent.{IsOpen, list_names-global}
use pkcs11_rand.Pool.Chain.{IsWell}

pub record IsNew (h : Host) (cfg : Config) (p : Pool h) : Type 0 where
  pub well : IsWell h p
  pub live : All (IsOpen h) p.slots
  pub config : p.config ≡ cfg
  pub state : p.state ≡ replicate 32 0

-- What opening does to the process, and what it gives if it gives a pool.
pub record IsOpened (h : Host) (cfg : Config) (s : Sys h) (r : Result Error (Pool h) × Sys h)
    : Type 0 where
  pub global : r.1.global ≡ s.global
  pub opened : (p : Pool h) → r.0 ≡ ok p → IsNew h cfg p

module _ ⦃h : Host⦄ (laws : ListLaws h) where
  paths-Fresh :
      (s : Sys h) (r : DirRead) (w : h.World) (names : List Bytes)
      → h.read_dir dev_dir s.world ≡ (r, w)
      → Infnoise.paths_of r ≡ ok names
      → Fresh names
  paths-Fresh s (entries all) w names t e =
      subst Fresh (ok_inj e) (listed-Fresh all (laws.read_dir_fresh dev_dir s.world w all t))
  paths-Fresh s not_found w names t e = subst Fresh (ok_inj e) tt
  paths-Fresh s unreadable w names t e = absurd (cc)

  map_err_ok : {E F A : Type 0} (f : F) (r : Result E A) (a : A) → map_err f r ≡ ok a → r ≡ ok a
  map_err_ok f (ok x) a e = ap ok (ok_inj e)
  map_err_ok f (err x) a e = absurd (cc)

  list_names-Fresh :
      (kind : SlotKind) (s : Sys h) (names : List Bytes)
      → (list_names kind s).0 ≡ ok names
      → Fresh names
  unfolding list_names Infnoise.list_paths
  list_names-Fresh iso7816 s names e =
      list_readers-Fresh laws s names (map_err_ok resource _ names e)
  list_names-Fresh infnoise s names e =
      let d = h.read_dir dev_dir s.world in
      paths-Fresh s d.0 d.1 names refl (map_err_ok resource _ names e)

  claim_kind-law :
      (pre : List SlotKind) (kind : SlotKind) (limit : ℕ) (slots : List (Slot h)) (s : Sys h)
      → Claimed h pre kind 0 slots
      → ((name : Bytes) → Unheld slots kind name)
      → Gives pre kind limit s (claim_kind kind limit slots s)
  unfolding claim_kind
  claim_kind-law pre kind limit slots s v u = elim (Bool-cases (ltb 0 limit)) [
    | inl some' ↦
        let l = list_names kind s in
        let a = listed-law pre kind limit slots l.0 l.1 (list_names-Fresh kind s) v u in
        rw some' (record { global = a.global ∙ list_names-global kind s; claimed = a.claimed })
    | inr none' ↦ rw none' (record {
      global = refl;
      claimed = λ slots' q.
          let n : 0 ≡ limit = ground (arith, none') in
          let q' : slots ≡ slots' = cc in
          subst (λ (k : ℕ). Claimed h pre kind k slots') n (subst (Claimed h pre kind 0) q' v);
    })
  ]

  only-cards :
      (slots : List (Slot h)) (n : ℕ) (name : Bytes)
      → map (λ (x : Slot h). x.kind) slots ≡ replicate n iso7816
      → Unheld slots infnoise name
  only-cards slots n name e j b g k q =
      let c : b.kind ≡ iso7816 = map-replicate (λ (x : Slot h). x.kind) slots n iso7816 j b e g in
      cc

  then-IsOpened :
      {X : Type 0} (cfg : Config) (s : Sys h) (r : Result Error X) (t : Sys h)
      (f : X → Act (Sys h) Error (Pool h))
      → t.global ≡ s.global
      → ((x : X) → r ≡ ok x → IsOpened h cfg t (f x t))
      → IsOpened h cfg s (and_then r f t)
  then-IsOpened cfg s (err e) t f q g = record { global = q; opened = λ p e'. absurd (cc) }
  then-IsOpened cfg s (ok x) t f q g =
      let a = g x refl in record { global = a.global ∙ q; opened = a.opened }

  all-IsOpened :
      (cfg : Config) (s : Sys h) (slots : List (Slot h))
      → IsValid cfg
      → Claimed h (replicate cfg.iso7816_cards iso7816) infnoise cfg.infnoise_devices slots
      → IsOpened h cfg s (ok (record { config = cfg; slots = slots; state = zeros }), s)
  all-IsOpened cfg s slots v c = record {
    global = refl;
    opened = λ p e. subst (IsNew h cfg) (ok_inj e) (record {
      well = record {
        valid = v;
        shaped = record { kinds = c.kinds; coherent = c.coherent; distinct = c.distinct };
        chain = refl;
      };
      live = c.live;
      config = refl;
      state = refl;
    });
  }

  none_yet : Claimed h [] iso7816 0 []
  none_yet = record {
    kinds = refl;
    coherent = tt;
    distinct = λ i j a b ne e. absurd (cc);
    live = tt;
  }

  with_cards :
      (n : ℕ) (cards : List (Slot h))
      → Claimed h [] iso7816 n cards
      → Claimed h (replicate n iso7816) infnoise 0 cards
  with_cards n cards c = record {
    kinds = c.kinds ∙ sym (append-nil (replicate n iso7816));
    coherent = c.coherent;
    distinct = c.distinct;
    live = c.live;
  }

  -- With directory and reader listings that name nothing twice: `Pool::open` leaves the PC/SC
  -- context alone, and a pool that it returns is well formed (a valid configuration; as many
  -- slots of each kind as configured, cards first; each with the source that opening its name
  -- gave; no two on one device), has the configuration that was asked for, and starts its
  -- chain from zeros.
  pub open_pool-IsOpened : (cfg : Config) (s : Sys h) → IsOpened h cfg s (open_pool cfg s)
  unfolding open_pool
  open_pool-IsOpened cfg s = then-IsOpened cfg s (map_err resource (validate cfg)) s _ refl λ u e.
      let valid = (validate-IsValid cfg).0 (map_err_ok resource (validate cfg) tt e) in
      let a =
        claim_kind-law [] iso7816 cfg.iso7816_cards [] s none_yet (λ name j b q. absurd (cc)) in
      let x = claim_kind iso7816 cfg.iso7816_cards [] s in
      then-IsOpened cfg s x.0 x.1 _ a.global λ cards e1.
        let c = a.claimed cards e1 in
        let b =
          claim_kind-law (replicate cfg.iso7816_cards iso7816) infnoise cfg.infnoise_devices cards
            x.1 (with_cards cfg.iso7816_cards cards c)
            (λ name. only-cards cards cfg.iso7816_cards name c.kinds) in
        let y = claim_kind infnoise cfg.infnoise_devices cards x.1 in
        then-IsOpened cfg x.1 y.0 y.1 _ b.global
          λ all e2. all-IsOpened cfg y.1 all valid (b.claimed all e2)
