-- ===== src/Tools/Sent.antt =====
-- What `write_full` and `write_hex` of crates/p11rand-tools/src/bin/p11rand-read.rs hand over.
use mathlib.Core.Path.{subst}
use mathlib.Core.List.{append-nil, append_assoc}
use pkcs11_rand.Base.{
  ℕ, zero, suc, ◌+◌, ◌≤◌, ◌<◌, ◌≡◌, ◌≢◌, refl, sym, ap, ◌∙◌, [], ◌∷◌, ◌++◌, Result, ok, err, Done,
  stop, go_on, Filled, fill_rule, length, take, drop, arith, length-drop, take-append-drop,
}
use pkcs11_rand.Host.{Bytes}
use pkcs11_rand.Tools.{IoError, write_zero, spent, Written, wrote, interrupted, failed}
use pkcs11_rand.Tools.Write.{taken, write_turn, write_full}

-- What `write(2)` promises, by what has been handed over so far: it takes bytes from the front of the
-- buffer, or none at all if it fails; and a signal that interrupted it is spent. The kind of an error
-- is never the model's own `spent`.
pub record WriterLaws {World : Type 0} (write : Bytes → World → Written × World)
    (received : World → Bytes) (pending : World → ℕ) : Type 0 where
  pub write_takes :
      (buf : Bytes) (w w' : World) (n : ℕ)
      → write buf w ≡ (wrote n, w')
      → (n ≤ length buf) × (received w' ≡ received w ++ take n buf) × (pending w' ≤ pending w)
  pub write_interrupted :
      (buf : Bytes) (w w' : World)
      → write buf w ≡ (interrupted, w')
      → (received w' ≡ received w) × (pending w' < pending w)
  pub write_fails :
      (buf : Bytes) (w w' : World) (e : IoError)
      → write buf w ≡ (failed e, w')
      → (received w' ≡ received w) × (e ≢ spent)

err_inj : {A : Type 0} {a b : IoError} → ◌≡◌ {A = Result IoError A} (err a) (err b) → a ≡ b
err_inj e = cc

-- The whole buffer, and only that, was handed over if the call succeeds, and a front part of it
-- otherwise; and the loop did not run out of fuel.
pub record Sent {World : Type 0} (received : World → Bytes) (buf : Bytes) (w : World)
    (r : Result IoError Done × World) : Type 0 where
  pub on_ok : r.0 ≡ ok tt → received r.1 ≡ received w ++ buf
  pub front : (a b : Bytes) × (buf ≡ a ++ b) × (received r.1 ≡ received w ++ a)
  pub unspent : r.0 ≢ err spent

module _ {World : Type 0} {write : Bytes → World → Written × World} {received : World → Bytes}
    {pending : World → ℕ} (laws : WriterLaws write received pending) where
  abbrev left : Bytes → World → ℕ
  left buf w = length buf + pending w

  taken-Falls :
      (b : ℕ) (bs : Bytes) (r : Written) (w w' : World) (got rest : Bytes) (w'' : World)
      → write (b ∷ bs) w ≡ (r, w')
      → taken write (b ∷ bs) r w' ≡ go_on got rest w''
      → left rest w'' < left (b ∷ bs) w
  taken-Falls b bs (wrote zero) w w' got rest w'' e q = absurd (cc)
  taken-Falls b bs (wrote (suc n)) w w' got rest w'' e q =
      let l = laws.write_takes (b ∷ bs) w w' (suc n) e in
      let p : drop n bs ≡ rest = cc in
      let v : w' ≡ w'' = cc in omega (arith, l.0, l.2, ap length p, ap pending v, length-drop n bs)
  taken-Falls b bs interrupted w w' got rest w'' e q =
      let l = laws.write_interrupted (b ∷ bs) w w' e in
      let p : b ∷ bs ≡ rest = cc in
      let v : w' ≡ w'' = cc in omega (arith, l.1, ap length p, ap pending v)
  taken-Falls b bs (failed x) w w' got rest w'' e q = absurd (cc)

  done-Sent : (w : World) → Sent received [] w (ok tt, w)
  done-Sent w = record {
    on_ok = λ e. sym (append-nil (received w));
    front = ([], [], refl, sym (append-nil (received w)));
    unspent = λ e. absurd (cc);
  }

  untaken :
      (buf : Bytes) (w w' : World) (x : IoError)
      → x ≢ spent
      → received w' ≡ received w
      → Sent received buf w (err x, w')
  untaken buf w w' x n e = record {
    on_ok = λ q. absurd (cc);
    front = ([], buf, refl, e ∙ sym (append-nil (received w)));
    unspent = λ q. n (err_inj q);
  }

  stop-Sent :
      (buf : Bytes) (r : Written) (w w' : World) (x : Result IoError Done) (out : Bytes)
      (w'' : World)
      → write buf w ≡ (r, w')
      → taken write buf r w' ≡ stop x out w''
      → Sent received buf w (x, w'')
  stop-Sent buf (wrote zero) w w' x out w'' e q =
      let a : err write_zero ≡ x = cc in
      let v : w' ≡ w'' = cc in
      rw (← a, ← v)
        (untaken buf w w' write_zero (λ p. absurd (cc))
          ((laws.write_takes buf w w' 0 e).1 ∙ append-nil (received w)))
  stop-Sent buf (wrote (suc n)) w w' x out w'' e q = absurd (cc)
  stop-Sent buf interrupted w w' x out w'' e q = absurd (cc)
  stop-Sent buf (failed y) w w' x out w'' e q =
      let a : err y ≡ x = cc in
      let v : w' ≡ w'' = cc in
      let l = laws.write_fails buf w w' y e in rw (← a, ← v) (untaken buf w w' y l.1 l.0)

  -- A front part was taken, and then the rest was dealt with.
  pub more-Sent :
      (a rest : Bytes) (w w' : World) (r : Result IoError Done × World)
      → received w' ≡ received w ++ a
      → Sent received rest w' r
      → Sent received (a ++ rest) w r
  more-Sent a rest w w' r e s =
      let (c, d, p, q) = s.front in
      record {
        on_ok = λ o. s.on_ok o ∙ ap (λ x. x ++ rest) e ∙ append_assoc (received w) a rest;
        front = (
          a ++ c,
          d,
          ap (◌++◌ a) p ∙ sym (append_assoc a c d),
          q ∙ ap (λ x. x ++ c) e ∙ append_assoc (received w) a c,
        );
        unspent = s.unspent;
      }

  go_on-Sent :
      (buf : Bytes) (r : Written) (w w' : World) (got rest : Bytes) (w'' : World)
      (o : Filled World IoError)
      → write buf w ≡ (r, w')
      → taken write buf r w' ≡ go_on got rest w''
      → Sent received rest w'' (o.status, o.state)
      → Sent received buf w (o.status, o.state)
  go_on-Sent buf (wrote zero) w w' got rest w'' o e q s = absurd (cc)
  go_on-Sent buf (wrote (suc n)) w w' got rest w'' o e q s =
      let p : drop (suc n) buf ≡ rest = cc in
      let v : w' ≡ w'' = cc in
      let t =
        more-Sent (take (suc n) buf) rest w w'' (o.status, o.state)
          (ap received (sym v) ∙ (laws.write_takes buf w w' (suc n) e).1) s in
      subst (λ (b : Bytes). Sent received b w (o.status, o.state))
        (ap (◌++◌ (take (suc n) buf)) (sym p) ∙ take-append-drop (suc n) buf) t
  go_on-Sent buf interrupted w w' got rest w'' o e q s =
      let p : buf ≡ rest = cc in
      let v : w' ≡ w'' = cc in
      let t =
        more-Sent [] rest w w'' (o.status, o.state)
          (ap received (sym v)
            ∙ (laws.write_interrupted buf w w' e).0
            ∙ sym (append-nil (received w)))
          s in
      subst (λ (b : Bytes). Sent received b w (o.status, o.state)) (sym p) t
  go_on-Sent buf (failed y) w w' got rest w'' o e q s = absurd (cc)

  -- For a stdout that keeps the documented laws of write(2), however short its writes are and
  -- however often a signal interrupts them: `write_full` ends by itself; if it succeeds, then
  -- it has handed over the buffer once, whole and in order, and else a front part of it and
  -- nothing more.
  pub write_full-Sent :
      (buf : Bytes) (w : World) → Sent received buf w (write_full write pending buf w)
  unfolding write_full
  write_full-Sent buf w =
      fill_rule spent (write_turn write) left
        (λ b bs w got rest w' e. taken-Falls b bs (write (b ∷ bs) w).0 w _ got rest w' refl e)
        (λ buf w o. Sent received buf w (o.status, o.state)) (λ w. done-Sent w)
        (λ b bs w r out w' e. stop-Sent (b ∷ bs) (write (b ∷ bs) w).0 w _ r out w' refl e)
        (λ b bs w got rest w' o e s.
          go_on-Sent (b ∷ bs) (write (b ∷ bs) w).0 w _ got rest w' o refl e s)
        (suc (length buf + pending w)) buf w (omega arith)
