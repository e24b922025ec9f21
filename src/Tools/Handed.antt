-- ===== src/Tools/Handed.antt =====
-- The cases in the loop of crates/p11rand-tools/src/bin/p11rand-read.rs.
use mathlib.Core.List.{append-nil, append_assoc}
use pkcs11_rand.Base.{
  ℕ, suc, ◌+◌, ◌*◌, ◌≤◌, ◌<◌, ◌≡◌, ◌≢◌, refl, sym, ap, ◌∙◌, Bool, true, false, ◌&&◌, [], ◌++◌,
  Result, ok, err, Done, length, take, length-append, ltb, ltb→le, ◌==◌, arith, if◌then◌else◌,
}
use pkcs11_rand.Host.{Bytes}
use pkcs11_rand.Tools.{IoError, Machine, Run, Ended, positive, not_ok}
use pkcs11_rand.Tools.Args.{pos}
use pkcs11_rand.Tools.Sent.{WriterLaws, Sent, write_full-Sent}
use pkcs11_rand.Tools.Hex.{hex_of, write_hex-Sent}
use pkcs11_rand.Tools.Steps.{Ends}
use pkcs11_rand.Tools.ReadTool.{Args, Left, hand, want}
use pkcs11_rand.Tools.Delivered.{
  encode, width, encode-append, length-encode, stream, Reason, complete, signalled, refused, given,
  Delivered,
}

pub map-Ends :
    {m : Machine} {A : Type 0} (Q R : A → Run m → Type 0) (o : Result Ended A × Run m)
    → Ends Q o
    → ((a : A) (s : Run m) → Q a s → Ends R (ok a, s))
    → Ends R o
map-Ends Q R (ok a, s) e f = f a s e
map-Ends Q R (err x, s) e f = e

counted_more :
    (hex : Bool) (q p n a b c : ℕ)
    → width hex * q ≤ width hex * (p + n) + b
    → a ≡ width hex * n
    → c ≡ a + b
    → width hex * q ≤ width hex * p + c
counted_more true q p n a b c h e f = omega arith
counted_more false q p n a b c h e f = omega arith

pub positive-nonzero : (c : ℕ) → positive c ≡ true → c ≢ 0
positive-nonzero c e z = ground (arith, e, z)

encode_nil : (hex : Bool) → encode hex [] ≡ []
unfolding hex_of
encode_nil true = refl
encode_nil false = refl

module _ (m : Machine) (pending : m.World → ℕ) (received : m.World → Bytes)
    (laws : WriterLaws m.write received pending) (args : Args) (sess total : ℕ) where
  abbrev a : Args
  a = record args { n_total = pos total }

  abbrev Due : ℕ → Bytes → m.World → Left → Run m → Type 0
  Due produced due w left s = Delivered m pending received a.hex sess total produced due w left s

  hand-Sent :
      (hex : Bool) (buf : Bytes) (w : m.World)
      → Sent received (encode hex buf) w (hand m pending hex buf w)
  hand-Sent true buf w = write_hex-Sent laws buf w
  hand-Sent false buf w = write_full-Sent laws buf w

  -- Nothing is handed over.
  pub nothing :
      (code produced : ℕ) (due : Bytes) (w : m.World) (s : Run m)
      → received s.world ≡ received w
      → produced ≤ total
      → Reason m pending a.hex sess total (code, produced) (encode a.hex due) s
      → Due produced due w (code, produced) s
  nothing code produced due w s e h r = record {
    out = [];
    rest = encode a.hex due;
    sent = e ∙ sym (append-nil (received w));
    front = refl;
    within = h;
    counted = omega arith;
    reason = r;
  }

  -- A front part of a chunk, and then the loop is left.
  pub partly :
      (code produced : ℕ) (chunk more : Bytes) (w : m.World) (r : Result IoError Done) (s : Run m)
      (w' : m.World)
      → received w' ≡ received w
      → hand m pending a.hex chunk w' ≡ (r, s.world)
      → produced ≤ total
      → ((rest : Bytes) → Reason m pending a.hex sess total (code, produced) rest s)
      → Due produced (chunk ++ more) w (code, produced) s
  partly code produced chunk more w r s w' e f h reason =
      let (c, d, p, q) = (hand-Sent a.hex chunk w').front in
      record {
        out = c;
        rest = d ++ encode a.hex more;
        sent =
            ap received (sym (ap (λ (o : Result IoError Done × m.World). o.1) f))
            ∙ q
            ∙ ap (λ x. x ++ c) e;
        front =
            encode-append a.hex chunk more
            ∙ ap (λ x. x ++ encode a.hex more) p
            ∙ append_assoc c d (encode a.hex more);
        within = h;
        counted = omega arith;
        reason = reason (d ++ encode a.hex more);
      }

  -- The whole chunk, and then the rest of the loop.
  pub wholly :
      (produced n : ℕ) (chunk more : Bytes) (w w' v : m.World) (left : Left) (s : Run m)
      → received w' ≡ received w
      → hand m pending a.hex chunk w' ≡ (ok tt, v)
      → length chunk ≡ n
      → Due (produced + n) more v left s
      → Due produced (chunk ++ more) w left s
  wholly produced n chunk more w w' v left s e f l d =
      let k = hand-Sent a.hex chunk w' in
      let given : received v ≡ received w ++ encode a.hex chunk =
        ap received (sym (ap (λ (o : Result IoError Done × m.World). o.1) f))
        ∙ k.on_ok (ap (λ (o : Result IoError Done × m.World). o.0) f)
        ∙ ap (λ x. x ++ encode a.hex chunk) e in
      record {
        out = encode a.hex chunk ++ d.out;
        rest = d.rest;
        sent =
            d.sent
            ∙ ap (λ x. x ++ d.out) given
            ∙ append_assoc (received w) (encode a.hex chunk) d.out;
        front =
            encode-append a.hex chunk more
            ∙ ap (◌++◌ (encode a.hex chunk)) d.front
            ∙ sym (append_assoc (encode a.hex chunk) d.out d.rest);
        within = d.within;
        counted =
            counted_more a.hex left.1 produced n (length (encode a.hex chunk)) (length d.out) _
              d.counted (length-encode a.hex chunk ∙ ap (λ k. width a.hex * k) l)
              (length-append (encode a.hex chunk) d.out);
        reason = d.reason;
      }

  pub failure-Reason :
      (b : Bool) (c produced n : ℕ) (rest buf : Bytes) (x : m.Module) (s : Run m)
      → positive c ≡ b
      → c ≡ s.count
      → not_ok (m.c_generate_random sess buf n x).0.0 ≡ true
      → s.mod_state ≡ (m.c_generate_random sess buf n x).1
      → Reason m pending a.hex sess total (if b then 0 else 1, produced) rest s
  failure-Reason true c produced n rest buf x s e g o f =
      signalled refl (λ z. positive-nonzero c e (g ∙ z))
  failure-Reason false c produced n rest buf x s e g o f = refused n buf x refl o f

module _ (m : Machine) (pending : m.World → ℕ) (args : Args) (sess total : ℕ) where
  -- `stream` while more is wanted, and at its end.
  pub stream_more :
      (calls produced : ℕ) (buf : Bytes) (x : m.Module)
      → ltb produced total ≡ true
      → let n = want (pos total) produced in
        let r = m.c_generate_random sess buf n x in
        stream m sess total (suc calls) produced buf x
        ≡ given r.0.0 (take n r.0.1 ++ stream m sess total calls (produced + n) r.0.1 r.1)
  unfolding stream
  stream_more calls produced buf x e =
      let n = want (pos total) produced in
      let r = m.c_generate_random sess buf n x in
      let more = take n r.0.1 ++ stream m sess total calls (produced + n) r.0.1 r.1 in
      ap (λ (b : Bool). if b then given r.0.0 more else []) e

  stream_end :
      (calls produced : ℕ) (buf : Bytes) (x : m.Module)
      → ltb produced total ≡ false
      → stream m sess total (suc calls) produced buf x ≡ []
  unfolding stream
  stream_end calls produced buf x e =
      let n = want (pos total) produced in
      let r = m.c_generate_random sess buf n x in
      let more = take n r.0.1 ++ stream m sess total calls (produced + n) r.0.1 r.1 in
      ap (λ (b : Bool). if b then given r.0.0 more else []) e

  -- The loop's test fails.
  pub at_end :
      (b : Bool) (c calls produced : ℕ) (buf : Bytes) (x : m.Module) (s : Run m)
      → ltb produced total ≡ b
      → (c == 0 && b) ≡ false
      → c ≡ s.count
      → produced ≤ total
      → Reason m pending args.hex sess total
          (0, produced)
          (encode args.hex (stream m sess total (suc calls) produced buf x))
          s
  at_end true c calls produced buf x s e f g h = signalled refl (λ z. ground (arith, f, g, z))
  at_end false c calls produced buf x s e f g h =
      complete refl (omega (arith, ltb→le produced total e, h))
        (ap (encode args.hex) (stream_end calls produced buf x e) ∙ encode_nil args.hex)

  pub want_fits :
      (produced : ℕ)
      → ltb produced total ≡ true
      → (want (pos total) produced ≤ 256)
        × (0 < want (pos total) produced)
        × (produced + want (pos total) produced ≤ total)
  want_fits produced e = ground (arith, e)
