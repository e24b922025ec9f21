-- ===== src/Pool/Stream.antt =====
-- The loop of `Pool::read` over its rounds, pool.rs.
use mathlib.Core.Path.{subst}
use mathlib.Core.List.{append_assoc}
use pkcs11_rand.Base.{
  ℕ, suc, ◌+◌, ◌*◌, ◌-◌, ◌≤◌, ◌<◌, min, ◌≡◌, refl, sym, ap, ◌∙◌, [], ◌∷◌, ◌++◌, Result, ok, err,
  Done, Turn, stop, go_on, Filled, behind, fill, fill_rule, fill_fuel, length, take, drop, arith,
  length-append, length-take, length-drop, take_all, take-min, drop-drop, take-append,
}
use pkcs11_rand.Host.{Bytes, Host, KernelLaws, DigestLaws, sha3_256}
use pkcs11_rand.Config.{round_bytes}
use pkcs11_rand.Pool.{Error, read_failure, Live}
use pkcs11_rand.Pool.Read.{round_turn, copied, read_chain}
use pkcs11_rand.Pool.Chain.{
  IsWell, Produced, produced, not_produced, RoundLaw, do_round_chain-RoundLaw,
}

-- A run of rounds, each of which follows the hash chain from the state the last one left.
pub data Rounds (h : Host) : Live h → Bytes → ℕ → Live h → Type 0 where
  no_round : (l : Live h) → Rounds h l [] 0 l
  round :
      {l m n : Live h} {outs : Bytes} {c : ℕ} (out : Bytes)
      → RoundLaw h l (ok out) m
      → length out ≡ 32
      → Rounds h m outs c n
      → Rounds h l (out ++ outs) (suc c) n

-- How a read through the chain ends: the buffer is the rounds' output, cut to length, over as few
-- rounds as fill it; or a round fails, and the bytes behind the finished rounds are as they were.
pub data Streamed (h : Host) (buf : Bytes) (l : Live h) (o : Filled (Live h) Error) : Type 0 where
  filled :
      (outs : Bytes) (c : ℕ)
      → Rounds h l outs c o.state
      → o.status ≡ ok tt
      → o.buf ≡ take (length buf) outs
      → length buf ≤ c * 32
      → c * 32 < length buf + 32
      → Streamed h buf l o
  broke :
      (outs : Bytes) (c : ℕ) (m : Live h) (e : Error)
      → Rounds h l outs c m
      → RoundLaw h m (err e) o.state
      → c * 32 < length buf
      → o.status ≡ err e
      → o.buf ≡ outs ++ drop (c * 32) buf
      → Streamed h buf l o

pub record StreamLaw (h : Host) (buf : Bytes) (l : Live h) (o : Filled (Live h) Error)
    : Type 0 where
  pub size : length o.buf ≡ length buf
  pub well : IsWell h o.state.pool
  pub config : o.state.config ≡ l.config
  pub global : o.state.sys.global ≡ l.sys.global
  pub outcome : Streamed h buf l o

module _ ⦃h : Host⦄ where
  abbrev Falls : Bytes → Turn (Live h) Error → Type 0
  Falls buf (stop x buf' m) = Done
  Falls buf (go_on out rest m) = length rest < length buf

  copied-Falls :
      (b : ℕ) (bs : Bytes) (x : Result Error Bytes) (m : Live h)
      → Falls (b ∷ bs) (copied (b ∷ bs) x m)
  copied-Falls b bs (err e) m = tt
  copied-Falls b bs (ok out) m =
      omega (arith, length-drop (min (length (b ∷ bs)) round_bytes) (b ∷ bs))

  falls :
      (b : ℕ) (bs : Bytes) (l : Live h) (out rest : Bytes) (m : Live h)
      → round_turn (b ∷ bs) l ≡ go_on out rest m
      → length rest < length (b ∷ bs)
  unfolding round_turn
  falls b bs l out rest m e = subst (Falls (b ∷ bs)) e (copied-Falls b bs _ _)

  -- The loop of a read through the chain ends by itself: with more fuel than the model gives
  -- it the result is the same.
  pub read_chain_fuel :
      (buf : Bytes) (l : Live h) (more : ℕ)
      → fill read_failure round_turn (length buf + 1 + more) buf l ≡ read_chain buf l
  unfolding read_chain
  read_chain_fuel buf l more =
      fill_fuel read_failure round_turn (λ b _. length b) falls _ _ buf l (omega arith)
        (omega arith)

module _ ⦃h : Host⦄ (k : KernelLaws h) (d : DigestLaws h) where
  abbrev Law : Bytes → Live h → Filled (Live h) Error → Type 0
  Law buf l o = IsWell h l.pool → StreamLaw h buf l o

  abbrev Ends : Bytes → Live h → Turn (Live h) Error → Type 0
  Ends buf l (stop x buf' m) = Law buf l (record { status = x; buf = buf'; state = m })
  Ends buf l (go_on out rest m) =
      (o : Filled (Live h) Error) → Law rest m o → Law buf l (behind out o)

  cut_append :
      (n : ℕ) (out outs rest : Bytes)
      → length out ≡ 32
      → rest ≡ take (n - 32) outs
      → take (min n 32) out ++ rest ≡ take n (out ++ outs)
  cut_append n out outs rest len e =
      ap (◌++◌ (take (min n 32) out)) e
      ∙ ap (λ a. a ++ take (n - 32) outs) (rw len at (take-min n out))
      ∙ ap (λ m. take n out ++ take (n - m) outs) (sym len)
      ∙ sym (take-append n out outs)

  Produced-length :
      (l : Live h) (out : Bytes) (m : Live h) → Produced h l (ok out) m → length out ≡ 32
  Produced-length l out m (produced e f q s a) =
      let same : out ≡ sha3_256 h (l.state ++ (0x11 ∷ e)) = cc in
      ap length same ∙ d.length-finalize _
  Produced-length l out m (not_produced e q s) = absurd (cc)

  extended :
      (buf : Bytes) (l : Live h) (out : Bytes) (m : Live h) (o : Filled (Live h) Error)
      → 0 < length buf
      → RoundLaw h l (ok out) m
      → length out ≡ 32
      → Streamed h (drop (min (length buf) 32) buf) m o
      → Streamed h buf l (behind (take (min (length buf) 32) out) o)
  extended buf l out m o pos law len (filled outs c run s b lo hi) =
      let size = length-drop (min (length buf) 32) buf in
      filled (out ++ outs) (suc c) (round out law len run) s
        (cut_append (length buf) out outs o.buf len
          (b ∙ ap (λ n. take n outs) (size ∙ omega arith)))
        (omega (arith, lo, size)) (omega (arith, pos, hi, size))
  extended buf l out m o pos law len (broke outs c n e run last lt s b) =
      let size = length-drop (min (length buf) 32) buf in
      let more : 32 < length buf = omega (arith, lt, size) in
      let whole : min (length buf) 32 ≡ 32 = omega arith in
      broke (out ++ outs) (suc c) n e (round out law len run) last (omega (arith, lt, size)) s (
        ap (λ n. take n out ++ o.buf) whole
        ∙ ap (λ a. a ++ o.buf) (take_all 32 out (omega (arith, len)))
        ∙ ap (◌++◌ out) (b ∙ ap (λ n. outs ++ drop (c * 32) (drop n buf)) whole)
        ∙ ap (λ a. out ++ (outs ++ a)) (drop-drop (c * 32) 32 buf)
        ∙ ap (λ n. out ++ (outs ++ drop n buf)) (omega arith)
        ∙ sym (append_assoc out outs _))

  copied-Ends :
      (buf : Bytes) (l : Live h) (x : Result Error Bytes) (m : Live h)
      → 0 < length buf
      → (IsWell h l.pool → RoundLaw h l x m)
      → Ends buf l (copied buf x m)
  copied-Ends buf l (err e) m pos f = λ v. record {
    size = refl;
    well = (f v).well;
    config = (f v).config;
    global = (f v).global;
    outcome = broke [] 0 l e (no_round l) (f v) pos refl refl;
  }
  copied-Ends buf l (ok out) m pos f = λ o g v.
      let r = f v in
      let a = g r.well in
      let len = Produced-length l out m r.outcome in
      record {
        size = omega (
          arith,
          a.size,
          length-append (take (min (length buf) round_bytes) out) o.buf,
          length-take (min (length buf) round_bytes) out,
          length-drop (min (length buf) round_bytes) buf,
        );
        well = a.well;
        config = a.config ∙ r.config;
        global = a.global ∙ r.global;
        outcome = extended buf l out m o pos r len a.outcome;
      }

  -- For a well-formed pool, with a kernel and a hasher that keep their documented laws: a read
  -- through the chain that succeeds fills the slice with the outputs of consecutive rounds,
  -- cut to its length, and runs only as many rounds as that takes; if a round fails, the
  -- finished rounds' outputs are in front and the bytes behind them are as they were. The
  -- slice keeps its length, the pool stays well formed, and the configuration and the PC/SC
  -- context stay.
  pub read_chain-StreamLaw :
      (buf : Bytes) (l : Live h) → IsWell h l.pool → StreamLaw h buf l (read_chain buf l)
  unfolding read_chain round_turn
  read_chain-StreamLaw buf l =
      fill_rule read_failure round_turn (λ b _. length b) falls Law
        (λ l v. record {
          size = refl;
          well = v;
          config = refl;
          global = refl;
          outcome = filled [] 0 (no_round l) refl refl (omega arith) (omega arith);
        })
        (λ b bs l x buf' m e.
          subst (Ends (b ∷ bs) l) e
            (copied-Ends (b ∷ bs) l _ _ (omega arith) (do_round_chain-RoundLaw k d l)))
        (λ b bs l out rest m o e ih.
          subst (Ends (b ∷ bs) l) e
            (copied-Ends (b ∷ bs) l _ _ (omega arith) (do_round_chain-RoundLaw k d l)) o ih)
        _ buf l (omega arith)
