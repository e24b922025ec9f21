-- ===== src/Examples.antt =====
-- A small world in which every law that the theorems assume holds: two readers with cards that answer
-- any challenge, two infnoise nodes, and a read(2) that is interrupted as often as signals are due.
pub mod Sources
pub mod Pools
pub mod Calls
pub mod Bench
pub mod ToolRuns
pub mod CleanRun
use mathlib.Core.Path.{subst}
use mathlib.Core.List.{append-nil, append_assoc}
use pkcs11_rand.Base.{
  ℕ, zero, suc, ◌+◌, ◌-◌, ◌%◌, ◌≤◌, ◌<◌, ◌≡◌, ◌≢◌, refl, sym, ap, ◌∙◌, Option, none, some, List, [],
  ◌∷◌, ◌++◌, map, Result, ok, err, length, take, replicate, get_or, length-take, length-append,
  length-replicate, arith, bytes_eq, bytes_eq_refl, false, true, ltb, leb, ◌==◌, ◌||◌,
  if◌then◌else◌, Fresh, Apart,
}
use pkcs11_rand.Host.{
  Bytes, PcscError, FileRead, got, interrupted, failed, DirRead, entries, not_found, unreadable,
  Host, Global, Sys, KernelLaws, DigestLaws, ListLaws,
}
use pkcs11_rand.Config.{text}

-- A clock, which moves at every card exchange, and the signals that are still to come.
pub record Toy : Type 0 where
  pub clock : ℕ
  pub signals : ℕ

-- A card with number 0 answers a challenge for any number of bytes, another one only for its own.
abbrev pub reply : ℕ → Bytes → Toy → Result PcscError Bytes × Toy
reply le apdu w =
    let n = get_or apdu 4 0 in
    let next = record w { clock = w.clock + 1 } in
    if le == 0 || n == le
    then (ok (replicate n (w.clock % 256) ++ (0x90 ∷ 0x00 ∷ [])), next)
    else (ok (0x67 ∷ 0x00 ∷ []), next)

abbrev pub give : ℕ → ℕ → Toy → FileRead × Toy
give n zero w = (got (replicate n 9), w)
give n (suc s) w = (interrupted, record w { signals = s })

abbrev pub readers : List Bytes
readers = text "reader A" ∷ text "reader B" ∷ []

abbrev pub nodes : List Bytes
nodes = text "infnoise1" ∷ text "null" ∷ text "infnoise0" ∷ []

abbrev pub digest : Bytes → Bytes
digest s = take 32 (s ++ replicate 32 0)

abbrev pub in_turn : ℕ → List ℕ
in_turn zero = []
in_turn (suc n) = n ∷ in_turn n

instance abbrev pub toy : Host
toy = record {
  World = Toy;
  Context = ℕ;
  Card = ℕ;
  File = ℕ;
  Hasher = Bytes;
  establish = λ w. (ok 1, w);
  release = λ c w. w;
  list_readers_len = λ c w. (ok 19, w);
  list_readers = λ c n w. (ok readers, w);
  connect = λ c name w. (ok 0, w);
  transmit = reply;
  card_atr = λ c w. (ok (0x3B ∷ 0x00 ∷ []), w);
  disconnect = λ c w. w;
  drop_card = λ c w. w;
  read_dir = λ d w. (entries nodes, w);
  open_file = λ path w. (some 0, w);
  read_file = λ f n w. give n w.signals w;
  close_file = λ f w. w;
  to_string_lossy = λ b. b;
  hasher = [];
  update = λ s b. s ++ b;
  finalize = digest;
  schedule = λ n w. (in_turn n, w);
  pending = λ w. w.signals;
}

give_within :
    (n s : ℕ) (w w' : Toy) (d : Bytes)
    → w.signals ≡ s
    → give n s w ≡ (got d, w')
    → (length d ≤ n) × (w'.signals ≤ w.signals)
give_within n zero w w' d q e =
    let a : replicate n 9 ≡ d = cc in
    let b : w ≡ w' = cc in
    (
      omega (arith, ap length a, length-replicate {A = ℕ} n 9),
      omega (arith, ap (λ (x : Toy). x.signals) b),
    )
give_within n (suc s) w w' d q e = absurd (cc)

give_spent :
    (n s : ℕ) (w w' : Toy) → w.signals ≡ s → give n s w ≡ (interrupted, w') → w'.signals < w.signals
give_spent n zero w w' q e = absurd (cc)
give_spent n (suc s) w w' q e =
    let b : record w { signals = s } ≡ w' = cc in omega (arith, q, ap (λ (x : Toy). x.signals) b)

pub kernel : KernelLaws toy
kernel = record {
  read_within = λ f n w w' d e. give_within n w.signals w w' d refl e;
  interrupt_spent = λ f n w w' e. give_spent n w.signals w w' refl e;
}

pub digests : DigestLaws toy
digests = record {
  update_nil = λ s. append-nil s;
  update_append = λ s a b. append_assoc s a b;
  length-finalize = λ s. omega (
    arith,
    length-take 32 (s ++ replicate 32 0),
    length-append s (replicate 32 0),
    length-replicate {A = ℕ} 32 0,
  );
}

apart : (a b : Bytes) → bytes_eq a b ≡ false → a ≢ b
apart a b e q = let r : bytes_eq a b ≡ true = ap (bytes_eq a) (sym q) ∙ bytes_eq_refl a in cc

nodes-Fresh : Fresh nodes
unfolding bytes_eq
nodes-Fresh = ((apart _ _ refl, (apart _ _ refl, tt)), ((apart _ _ refl, tt), (tt, tt)))

readers-Fresh : Fresh readers
unfolding bytes_eq
readers-Fresh = ((apart _ _ refl, tt), (tt, tt))

map_id : (xs : List Bytes) → map (λ (b : Bytes). b) xs ≡ xs
map_id [] = refl
map_id (x ∷ xs) = ap (◌∷◌ x) (map_id xs)

pub listings : ListLaws toy
listings = record {
  read_dir_fresh = λ d w w' names e. let q : nodes ≡ names = cc in subst Fresh q nodes-Fresh;
  list_readers_fresh = λ c n w w' names e.
      let q : readers ≡ names = cc in subst Fresh (q ∙ sym (map_id names)) readers-Fresh;
}
