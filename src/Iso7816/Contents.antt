-- ===== src/Iso7816/Contents.antt =====
-- `Source::read` of iso7816.rs delivers the card's challenges: its buffer against the exchanges.
use mathlib.Core.List.{append-nil}
use pkcs11_rand.Base.{
  ◌-◌, ◌≤◌, ◌<◌, ◌≡◌, refl, [], ◌++◌, ok, Filled, behind, length, take, drop, arith, length-append,
  length-drop, take-append, take_all,
}
use pkcs11_rand.Host.{Bytes, Host, Sys}
use pkcs11_rand.Iso7816.{Error, body_of}
use pkcs11_rand.Iso7816.Source.{Source, Reading, read}
use pkcs11_rand.Iso7816.Turn.{after, halved, Answered, Refused}
use pkcs11_rand.Iso7816.Read.{read_rule}

-- A run of GET CHALLENGE exchanges from one state of a source to another: the chunk halves on every
-- refusal and on nothing else, and the bytes are the bodies of the answers, in order.
pub data Exchanges (h : Host) : Reading h → Bytes → Reading h → Type 0 where
  no_more : (r : Reading h) → Exchanges h r [] r
  answered :
      {r t : Reading h} {e : Bytes} (resp : Bytes) (w : h.World)
      → Answered h r resp w
      → Exchanges h (after ⦃h = h⦄ r w) e t
      → Exchanges h r (body_of resp ++ e) t
  refused :
      {r t : Reading h} {e : Bytes} (resp : Bytes) (w : h.World)
      → Refused h r resp w
      → 1 < r.source.max_chunk
      → Exchanges h (halved ⦃h = h⦄ (after ⦃h = h⦄ r w)) e t
      → Exchanges h r e t

-- What a finished read has delivered.
pub record Delivered (h : Host) (buf : Bytes) (r : Reading h) (o : Filled (Reading h) Error)
    : Type 0 where
  pub challenges : Bytes
  pub run : Exchanges h r challenges o.state
  pub enough : length buf ≤ length challenges
  pub front : o.buf ≡ take (length buf) challenges

module _ ⦃h : Host⦄ where
  abbrev Outcome : Bytes → Reading h → Filled (Reading h) Error → Type 0
  Outcome buf r o = o.status ≡ ok tt → Delivered h buf r o

  Outcome-last :
      (buf : Bytes) (r : Reading h) (resp : Bytes) (w : h.World)
      → Answered h r resp w
      → length buf < r.source.max_chunk
      → Outcome buf r
          (record { status = ok tt; buf = take (length buf) (body_of resp); state = after r w })
  Outcome-last buf r resp w a short _ = record {
    challenges = body_of resp ++ [];
    run = answered resp w a (no_more _);
    enough = rw (append-nil (body_of resp)) (omega (arith, a.full));
    front = rw (append-nil (body_of resp));
  }

  Outcome-more :
      (buf : Bytes) (r : Reading h) (resp : Bytes) (w : h.World) (o : Filled (Reading h) Error)
      → Answered h r resp w
      → r.source.max_chunk ≤ length buf
      → Outcome (drop r.source.max_chunk buf) (after r w) o
      → Outcome buf r (behind (body_of resp) o)
  Outcome-more buf r resp w o a long ih e = record {
    challenges = body_of resp ++ d.challenges;
    run = answered resp w a d.run;
    enough = omega (
      arith,
      a.full,
      d.enough,
      length-append (body_of resp) d.challenges,
      length-drop r.source.max_chunk buf,
    );
    front = front_lem;
  }
    where
      d : Delivered h (drop r.source.max_chunk buf) (after r w) o
      d = ih e

      rest_lem : length (drop r.source.max_chunk buf) ≡ length buf - length (body_of resp)
      rest_lem = omega (arith, a.full, length-drop r.source.max_chunk buf)

      front_lem : body_of resp ++ o.buf ≡ take (length buf) (body_of resp ++ d.challenges)
      front_lem =
          rw (take-append (length buf) (body_of resp) d.challenges)
            (cc (d.front, rest_lem, take_all (length buf) (body_of resp) (omega (arith, a.full))))

  -- For a card whose chunk is between 1 and 256: a read that returns `Ok` has filled the
  -- buffer with a prefix of the challenges that the card answered in the exchanges of this
  -- read, in their order, so that no byte comes from anywhere else.
  pub read-Delivered :
      (src : Source h) (buf : Bytes) (s : Sys h)
      → 0 < src.max_chunk
      → src.max_chunk ≤ 256
      → (read src buf s).status ≡ ok tt
      → Delivered h buf (record { source = src; sys = s }) (read src buf s)
  read-Delivered src buf s pos fit =
      read_rule Outcome
        (λ r _. record { challenges = []; run = no_more r; enough = omega arith; front = refl })
        (λ buf r w x e. cc) Outcome-last Outcome-more
        (λ buf r resp w o d many ih e. record {
          challenges = (ih e).challenges;
          run = refused resp w d many (ih e).run;
          enough = (ih e).enough;
          front = (ih e).front;
        })
        src buf s pos fit
