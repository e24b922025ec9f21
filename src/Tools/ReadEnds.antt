-- ===== src/Tools/ReadEnds.antt =====
-- The calls that crates/p11rand-tools/src/bin/p11rand-read.rs makes of the module, in their order.
use pkcs11_rand.Base.{
  ℕ, zero, suc, ◌+◌, Bool, false, ◌==◌, ◌&&◌, List, [], ◌∷◌, Result, ok, err, Done, take, replicate,
  ltb, if◌then◌else◌,
}
use pkcs11_rand.Host.{Bytes}
use pkcs11_rand.Tools.{
  IoError, broken_pipe, write_zero, other_kind, spent, Machine, Flow, returned, positive, not_ok,
  leave,
}
use pkcs11_rand.Tools.Protocol.{
  Phase, unloaded, opened, Lifecycle, Goes, bind-Goes, pure-Goes, leave-Goes, running-Goes,
  branch-Goes, outside-Goes, reset-Goes, watched-Goes, count-Goes,
}
use pkcs11_rand.Tools.Finished.{finalize-Goes, connect-Goes, generate-Goes, close-Goes}
use pkcs11_rand.Tools.ReadTool as Reader

module _ {m : Machine} {In : Phase → m.Module → Type 0} (laws : Lifecycle m In) where
  module _ (pending : m.World → ℕ) where
    after_write-Goes :
        (sess produced n : ℕ) (again : Flow m Reader.Left) (r : Result IoError Done)
        → Goes m In (opened sess) again (λ l. opened sess)
        → Goes m In (opened sess) (Reader.after_write pending produced n again r) (λ l. opened sess)
    after_write-Goes sess produced n again (ok d) g = g
    after_write-Goes sess produced n again (err broken_pipe) g =
        pure-Goes (λ l. opened sess) (0, produced)
    after_write-Goes sess produced n again (err write_zero) g =
        pure-Goes (λ l. opened sess) (1, produced)
    after_write-Goes sess produced n again (err other_kind) g =
        pure-Goes (λ l. opened sess) (1, produced)
    after_write-Goes sess produced n again (err spent) g =
        pure-Goes (λ l. opened sess) (1, produced)

    write_out-Goes :
        (p : Phase) (hex : Bool) (buf : Bytes)
        → Goes m In p (Reader.write_out pending hex buf) (λ r. p)
    unfolding Reader.write_out
    write_out-Goes p hex buf = watched-Goes (outside-Goes p (Reader.hand m pending hex buf))

    deal-Goes :
        (a : Reader.Args) (sess produced n : ℕ) (again : Bytes → Flow m Reader.Left) (r : ℕ × Bytes)
        → ((buf : Bytes) → Goes m In (opened sess) (again buf) (λ l. opened sess))
        → Goes m In (opened sess) (Reader.deal pending a produced n again r) (λ l. opened sess)
    unfolding Reader.deal Reader.after_failure
    deal-Goes a sess produced n again (rv, buf) g =
        branch-Goes (not_ok rv)
          (bind-Goes (count-Goes (opened sess))
            (λ s. pure-Goes (λ l. opened sess) (if positive s then 0 else 1, produced)))
          (bind-Goes (count-Goes (opened sess)) (λ s.
            branch-Goes (positive s) (pure-Goes (λ l. opened sess) (0, produced)) (
              bind-Goes (write_out-Goes (opened sess) a.hex (take n buf))
                (λ r. after_write-Goes sess produced n (again buf) r (g buf)))))

    read_loop-Goes :
        (fuel : ℕ) (a : Reader.Args) (sess : ℕ) (buf : Bytes) (produced : ℕ)
        → Goes m In
            (opened sess)
            (Reader.read_loop pending fuel a sess buf produced)
            (λ l. opened sess)
    unfolding Reader.read_loop
    read_loop-Goes zero a sess buf produced = running-Goes (opened sess) (λ l. opened sess)
    read_loop-Goes (suc fuel) a sess buf produced =
        let n = Reader.want a.n_total produced in
        bind-Goes (count-Goes (opened sess)) (λ s.
          branch-Goes (s == 0 && Reader.wants_more a.n_total produced)
            (bind-Goes (watched-Goes (generate-Goes laws sess buf n)) (λ r.
              deal-Goes a sess produced n _ r
                (λ buf. read_loop-Goes fuel a sess buf (produced + n))))
            (pure-Goes (λ l. opened sess) (0, produced)))

    newline-Goes :
        (p : Phase) (hex : Bool) (produced : ℕ)
        → Goes m In p (Reader.newline pending hex produced) (λ d. p)
    unfolding Reader.newline
    newline-Goes p hex produced =
        branch-Goes (hex && ltb 0 produced)
          (bind-Goes (write_out-Goes p false (0x0a ∷ [])) (λ r. pure-Goes (λ d. p) tt))
          (pure-Goes (λ d. p) tt)

    read_main-Goes :
        (fuel : ℕ) (a : Reader.Args)
        → Goes m In unloaded (Reader.main pending fuel a) (λ code. unloaded)
    unfolding Reader.main Reader.close
    read_main-Goes fuel a = bind-Goes (connect-Goes laws a.path) (λ sess.
        bind-Goes (reset-Goes (opened sess)) (λ d.
          bind-Goes (read_loop-Goes fuel a sess (replicate Reader.buf_len 0) 0) (λ l.
            bind-Goes (newline-Goes (opened sess) a.hex l.1) (λ d.
              bind-Goes
                (bind-Goes (watched-Goes (close-Goes laws sess))
                  (λ rv. watched-Goes (finalize-Goes laws)))
                (λ d. pure-Goes (λ code. unloaded) l.0)))))

    parsed :
        (fuel : ℕ) (r : Result ℕ Reader.Args)
        → Goes m In unloaded
            (elim r [ err c ↦ leave (returned c) | ok a ↦ Reader.main pending fuel a ])
            (λ code. unloaded)
    parsed fuel (err c) = leave-Goes c (λ code. unloaded)
    parsed fuel (ok a) = read_main-Goes fuel a

    pub read_run-Goes :
        (fuel : ℕ) (argv : List Bytes)
        → Goes m In unloaded (Reader.run pending fuel argv) (λ code. unloaded)
    unfolding Reader.run
    read_run-Goes fuel argv = parsed fuel (Reader.parse argv)
