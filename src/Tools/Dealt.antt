-- ===== src/Tools/Dealt.antt =====
-- The turn of the loop of crates/p11rand-tools/src/bin/p11rand-read.rs behind `C_GenerateRandom`.
use mathlib.Core.Path.{subst}
use pkcs11_rand.Base.{
  ℕ, ◌+◌, ◌≤◌, ◌≡◌, refl, sym, ◌∙◌, true, Bool, [], ◌++◌, Result, ok, err, Done, length, take,
  if◌then◌else◌,
}
use pkcs11_rand.Host.{Bytes}
use pkcs11_rand.Tools.{
  IoError, broken_pipe, write_zero, other_kind, spent, Machine, Run, Flow, positive, not_ok, pure,
  outside, signal_count,
}
use pkcs11_rand.Tools.Args.{pos}
use pkcs11_rand.Tools.Sent.{WriterLaws}
use pkcs11_rand.Tools.Steps.{Ends, Quiet, bind-Ends, branch-Ends, watched-Ends, count-Ends}
use pkcs11_rand.Tools.ReadTool.{Args, Left, hand, write_out, after_write, after_failure, deal}
use pkcs11_rand.Tools.Delivered.{encode, signalled, unread, unwritable, given, Delivered}
use pkcs11_rand.Tools.Handed.{map-Ends, positive-nonzero, nothing, partly, wholly, failure-Reason}

module _ (m : Machine) (pending : m.World → ℕ) (received : m.World → Bytes)
    (laws : WriterLaws m.write received pending)
    (quiet : (w : m.World) → received (m.arrived w).1 ≡ received w) (args : Args)
    (sess total : ℕ) where
  abbrev a : Args
  a = record args { n_total = pos total }

  abbrev Due : ℕ → Bytes → m.World → Left → Run m → Type 0
  Due produced due w left s = Delivered m pending received a.hex sess total produced due w left s

  -- The output is the same.
  abbrev Still : m.World → m.World → Type 0
  Still w w' = received w' ≡ received w

  module _ (produced : ℕ) (w : m.World) (h : produced ≤ total) where
    -- After a failed call.
    failure-Ends :
        (n : ℕ) (buf : Bytes) (x : m.Module) (s : Run m)
        → received s.world ≡ received w
        → not_ok (m.c_generate_random sess buf n x).0.0 ≡ true
        → s.mod_state ≡ (m.c_generate_random sess buf n x).1
        → Ends (Due produced [] w) (after_failure pending produced s)
    unfolding after_failure pure
    failure-Ends n buf x s e o f =
        bind-Ends (λ n s'. (n ≡ s'.count) × Quiet Still s s') (Due produced [] w) signal_count
          (λ c. pure (if positive c then 0 else 1, produced)) s (count-Ends Still quiet s)
          (λ c s' q.
            nothing m pending received laws args sess total (if positive c then 0 else 1) produced
              [] w s' (q.1.1 ∙ e) h
              (failure-Reason m pending received laws args sess total (positive c) c produced n
                (encode a.hex []) buf x s' refl q.0 o (q.1.0 ∙ f)))

    -- After a chunk was written, or not.
    written-Ends :
        (n : ℕ) (chunk more : Bytes) (again : Flow m Left) (r : Result IoError Done) (s : Run m)
        (w' : m.World)
        → received w' ≡ received w
        → hand m pending a.hex chunk w' ≡ (r, s.world)
        → length chunk ≡ n
        → Ends (Due (produced + n) more s.world) (again s)
        → Ends (Due produced (chunk ++ more) w) (after_write pending produced n again r s)
    unfolding pure
    written-Ends n chunk more again (ok d) s w' e f l ih =
        map-Ends (Due (produced + n) more s.world) (Due produced (chunk ++ more) w) (again s) ih
          (λ left t.
            wholly m pending received laws args sess total produced n chunk more w w' s.world left t
              e f l)
    written-Ends n chunk more again (err broken_pipe) s w' e f l ih =
        partly m pending received laws args sess total 0 produced chunk more w (err broken_pipe) s
          w' e f h (λ rest. unread chunk w' refl f)
    written-Ends n chunk more again (err write_zero) s w' e f l ih =
        partly m pending received laws args sess total 1 produced chunk more w (err write_zero) s w'
          e f h (λ rest. unwritable chunk w' write_zero refl f (λ z. absurd (cc)))
    written-Ends n chunk more again (err other_kind) s w' e f l ih =
        partly m pending received laws args sess total 1 produced chunk more w (err other_kind) s w'
          e f h (λ rest. unwritable chunk w' other_kind refl f (λ z. absurd (cc)))
    written-Ends n chunk more again (err spent) s w' e f l ih =
        partly m pending received laws args sess total 1 produced chunk more w (err spent) s w' e f
          h (λ rest. unwritable chunk w' spent refl f (λ z. absurd (cc)))

    -- After `C_GenerateRandom`.
    pub deal-Ends :
        (n : ℕ) (old : Bytes) (y : m.Module) (more : Bytes) (again : Bytes → Flow m Left)
        (s : Run m)
        → let (rv, buf) = (m.c_generate_random sess old n y).0 in
          let x = (m.c_generate_random sess old n y).1 in
          received s.world ≡ received w
          → s.mod_state ≡ x
          → length (take n buf) ≡ n
          → ((s' : Run m)
              → s'.mod_state ≡ x
              → Ends (Due (produced + n) more s'.world) (again buf s'))
          → Ends
              (Due produced (given rv (take n buf ++ more)) w)
              (deal pending a produced n again (rv, buf) s)
    unfolding deal write_out outside pure
    deal-Ends n old y more again s e f l ih =
        let rv = (m.c_generate_random sess old n y).0.0 in
        let buf = (m.c_generate_random sess old n y).0.1 in
        let R = Due produced (take n buf ++ more) w in
        let Q = Due produced (given rv (take n buf ++ more)) w in
        branch-Ends Q (not_ok rv) (after_failure pending produced) _ s
          (λ t.
            subst
              (λ (b : Bool).
                Ends (Due produced (if b then [] else take n buf ++ more) w)
                  (after_failure pending produced s))
              (sym t) (failure-Ends n old y s e t f))
          (λ t.
            map-Ends R Q _
              (bind-Ends (λ c s'. (c ≡ s'.count) × Quiet Still s s') R signal_count _ s
                (count-Ends Still quiet s)
                (λ c s' q.
                  branch-Ends R (positive c) (pure (0, produced)) _ s'
                    (λ p.
                      nothing m pending received laws args sess total 0 produced
                        (take n buf ++ more) w s' (q.1.1 ∙ e) h
                        (signalled refl (λ z. positive-nonzero c p (q.0 ∙ z))))
                    (λ p.
                      bind-Ends
                        (λ r t.
                          (v : m.World) × (hand m pending a.hex (take n buf) v ≡ (r, t.world))
                          × (t.mod_state ≡ s'.mod_state)
                          × (received v ≡ received s'.world))
                        R (write_out pending a.hex (take n buf))
                        (after_write pending produced n (again buf)) s'
                        (watched-Ends Still quiet _ (outside (hand m pending a.hex (take n buf))) s'
                          (λ u z. (u.world, refl, z.0, z.1)))
                        (λ r t (v, o, z, y).
                          written-Ends n (take n buf) more (again buf) r t v (y ∙ q.1.1 ∙ e) o l
                            (ih t (z ∙ q.1.0 ∙ f))))))
              (λ left u v.
                subst (λ (b : Bool). Due produced (if b then [] else take n buf ++ more) w left u)
                  (sym t) v))
