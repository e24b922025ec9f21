-- ===== src/Iso7816/Chunk.antt =====
-- What `Source::read` of iso7816.rs keeps on every path, and the chunk size that it learns.
use native.Mathlib.Nat.{pow-suc, one-le-pow, pow-le-pow_right}
use pkcs11_rand.Base.{
  ℕ, zero, suc, ◌+◌, ◌/◌, ◌^◌, ◌≤◌, ◌<◌, ◌≡◌, refl, Filled, fill, fill_fuel, length, arith,
  length-append, length-take, length-drop,
}
use pkcs11_rand.Host.{Bytes, Host, Sys}
use pkcs11_rand.Iso7816.{Error, transport, body_of}
use pkcs11_rand.Iso7816.Source.{Source, Reading, read, read_turn}
use pkcs11_rand.Iso7816.Turn.{measure, read_turn_falls, after, halved}
use pkcs11_rand.Iso7816.Read.{read_rule}

-- The sizes that the loop tries: 1, 2, 4, … 128.
abbrev pub IsChunk : ℕ → Type 0
IsChunk n = (k : ℕ) × (k ≤ 7) × (n ≡ 2 ^ k)

chunk_bounds : (n : ℕ) → IsChunk n → (0 < n) × (n ≤ 256)
chunk_bounds n (k, le, e) = (
  omega (arith, one-le-pow k 2),
  omega (arith, pow-le-pow_right {n = 2} (omega arith) {i = k} {j = 7} le),
)

halve-IsChunk : (n : ℕ) → 1 < n → IsChunk n → IsChunk (n / 2)
halve-IsChunk n h (zero, le, e) = absurd (omega arith)
halve-IsChunk n h (suc k, le, e) = (k, omega arith, omega (arith, pow-suc 2 k))

-- What holds of a source between any two reads, and what a read changes.
pub record Keeps (h : Host) (buf : Bytes) (r : Reading h) (o : Filled (Reading h) Error)
    : Type 0 where
  pub len : length o.buf ≡ length buf
  pub card : o.state.source.card ≡ r.source.card
  pub app : o.state.source.app ≡ r.source.app
  pub global : o.state.sys.global ≡ r.sys.global
  pub narrower : o.state.source.max_chunk ≤ r.source.max_chunk
  pub chunk : IsChunk o.state.source.max_chunk

module _ ⦃h : Host⦄ where
  abbrev Kept : Bytes → Reading h → Filled (Reading h) Error → Type 0
  Kept buf r o = IsChunk r.source.max_chunk → Keeps h buf r o

  narrowed :
      (buf : Bytes) (r : Reading h) (resp : Bytes) (w : h.World) (o : Filled (Reading h) Error)
      → 1 < r.source.max_chunk
      → Keeps h buf (halved (after r w)) o
      → Keeps h buf r o
  narrowed buf r resp w o many k = record {
    len = k.len;
    card = k.card;
    app = k.app;
    global = k.global;
    narrower = omega (arith, k.narrower);
    chunk = k.chunk;
  }

  -- For a card whose chunk is one of 1, 2, 4, … 128: whether it succeeds or not, a read keeps
  -- the buffer's length, the card, its applet and the PC/SC context, and the chunk stays one
  -- of these and does not grow.
  pub read-Keeps :
      (src : Source h) (buf : Bytes) (s : Sys h)
      → IsChunk src.max_chunk
      → Keeps h buf (record { source = src; sys = s }) (read src buf s)
  read-Keeps src buf s c =
      read_rule Kept
        (λ r k. record {
          len = refl;
          card = refl;
          app = refl;
          global = refl;
          narrower = omega arith;
          chunk = k;
        })
        (λ buf r w x k. record {
          len = refl;
          card = refl;
          app = refl;
          global = refl;
          narrower = omega arith;
          chunk = k;
        })
        (λ buf r resp w a short k. record {
          len = omega (arith, a.full, length-take (length buf) (body_of resp));
          card = refl;
          app = refl;
          global = refl;
          narrower = omega arith;
          chunk = k;
        })
        (λ buf r resp w o a long ih k. record {
          len = omega (
            arith,
            a.full,
            (ih k).len,
            length-append (body_of resp) o.buf,
            length-drop r.source.max_chunk buf,
          );
          card = (ih k).card;
          app = (ih k).app;
          global = (ih k).global;
          narrower = (ih k).narrower;
          chunk = (ih k).chunk;
        })
        (λ buf r resp w o d many ih k. narrowed buf r resp w o many (ih (halve-IsChunk _ many k)))
        src buf s (chunk_bounds _ c).0 (chunk_bounds _ c).1 c

  -- The loop of a card's read ends by itself: with more fuel than the model gives it the
  -- result is the same.
  pub read_fuel :
      (src : Source h) (buf : Bytes) (s : Sys h) (more : ℕ)
      → fill transport read_turn
          (length buf + src.max_chunk + 1 + more)
          buf
          (record { source = src; sys = s })
        ≡ read src buf s
  unfolding read
  read_fuel src buf s more =
      fill_fuel transport read_turn measure read_turn_falls _ _ buf _ (omega arith) (omega arith)
