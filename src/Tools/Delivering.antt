-- ===== src/Tools/Delivering.antt =====
-- The proof for the loop of crates/p11rand-tools/src/bin/p11rand-read.rs.
use mathlib.Core.Path.{subst}
use pkcs11_rand.Base.{
  ℕ, zero, suc, ◌+◌, ◌-◌, ◌≤◌, ◌<◌, ◌≡◌, refl, sym, ap, ◌∙◌, true, ◌&&◌, ◌++◌, length, take,
  replicate, length-replicate, length-take, ltb, ◌==◌, arith,
}
use pkcs11_rand.Host.{Bytes}
use pkcs11_rand.Tools.{Machine, Run, Flow, pure, call, ◌>>=◌, watched, signal_count}
use pkcs11_rand.Tools.Args.{pos}
use pkcs11_rand.Tools.Sent.{WriterLaws}
use pkcs11_rand.Tools.Hex.{and_right}
use pkcs11_rand.Tools.Steps.{Ends, Quiet, bind-Ends, branch-Ends, watched-Ends, count-Ends}
use pkcs11_rand.Tools.ReadTool.{Args, Left, want, deal, read_loop}
use pkcs11_rand.Tools.Delivered.{stream, given, Delivered}
use pkcs11_rand.Tools.Handed.{nothing, stream_more, at_end, want_fits}
use pkcs11_rand.Tools.Dealt.{deal-Ends}

module _ (m : Machine) (pending : m.World → ℕ) (received : m.World → Bytes)
    (laws : WriterLaws m.write received pending)
    (quiet : (w : m.World) → received (m.arrived w).1 ≡ received w)
    (full : (sess n : ℕ) (buf : Bytes) (x : m.Module)
      → length (m.c_generate_random sess buf n x).0.1 ≡ length buf)
    (args : Args) (sess total : ℕ) where
  abbrev a : Args
  a = record args { n_total = pos total }

  abbrev Due : ℕ → Bytes → m.World → Left → Run m → Type 0
  Due produced due w left s = Delivered m pending received a.hex sess total produced due w left s

  -- The output is the same.
  abbrev Still : m.World → m.World → Type 0
  Still w w' = received w' ≡ received w

  -- A turn that asks the module for bytes; `again` is the rest of the loop.
  turn-Ends :
      (fuel produced : ℕ) (buf : Bytes) (again : Bytes → Flow m Left) (s s' : Run m)
      → Quiet Still s s'
      → produced ≤ total
      → 256 ≤ length buf
      → ltb produced total ≡ true
      → let n = want (pos total) produced in
        let g = m.c_generate_random sess buf n s.mod_state in
        let more = stream m sess total fuel (produced + n) g.0.1 g.1 in
        ((t : Run m) → t.mod_state ≡ g.1 → Ends (Due (produced + n) more t.world) (again g.0.1 t))
        → Ends (Due produced (given g.0.0 (take n g.0.1 ++ more)) s.world) (
            (watched (call (m.c_generate_random sess buf n)) >>= deal pending a produced n again)
              s')
  unfolding call
  turn-Ends fuel produced buf again s s' q h l e ih =
      let n = want (pos total) produced in
      let g = m.c_generate_random sess buf n s.mod_state in
      let more = stream m sess total fuel (produced + n) g.0.1 g.1 in
      let R = Due produced (given g.0.0 (take n g.0.1 ++ more)) s.world in
      bind-Ends (λ r t. (r ≡ g.0) × (t.mod_state ≡ g.1) × (received t.world ≡ received s.world)) R
        (watched (call (m.c_generate_random sess buf n))) (deal pending a produced n again) s'
        (watched-Ends Still quiet
          (λ r t. (r ≡ g.0) × (t.mod_state ≡ g.1) × (received t.world ≡ received s.world))
          (call (m.c_generate_random sess buf n)) s'
          (λ t o. (
            ap (λ x. (m.c_generate_random sess buf n x).0) (o.0 ∙ q.0),
            ap (λ x. (m.c_generate_random sess buf n x).1) (o.0 ∙ q.0),
            o.1 ∙ q.1,
          )))
        (λ r t o.
          subst (λ (x : ℕ × Bytes). Ends R (deal pending a produced n again x t)) (sym o.0)
            (deal-Ends m pending received laws quiet args sess total produced s.world h n buf
              s.mod_state more again t o.2 o.1
              (omega (
                arith,
                length-take n g.0.1,
                full sess n buf s.mod_state,
                (want_fits m pending args sess total produced e).0,
                l,
              ))
              ih))

  loop-Ends :
      (fuel produced : ℕ) (buf : Bytes) (s : Run m)
      → produced ≤ total
      → total - produced < fuel
      → 256 ≤ length buf
      → Ends
          (Due produced (stream m sess total fuel produced buf s.mod_state) s.world)
          (read_loop pending fuel a sess buf produced s)
  unfolding read_loop pure
  loop-Ends zero produced buf s h f l = absurd (omega arith)
  loop-Ends (suc fuel) produced buf s h f l =
      let n = want (pos total) produced in
      let g = m.c_generate_random sess buf n s.mod_state in
      let again : Bytes → Flow m Left = λ buf. read_loop pending fuel a sess buf (produced + n) in
      let R = Due produced (stream m sess total (suc fuel) produced buf s.mod_state) s.world in
      bind-Ends (λ c s'. (c ≡ s'.count) × Quiet Still s s') R signal_count _ s
        (count-Ends Still quiet s)
        (λ c s' q.
          branch-Ends R (c == 0 && ltb produced total) _ (pure (0, produced)) s'
            (λ e.
              let e' = and_right (c == 0) (ltb produced total) e in
              let fits = want_fits m pending args sess total produced e' in
              subst
                (λ (d : Bytes). Ends (Due produced d s.world) (
                  (watched (call (m.c_generate_random sess buf n))
                      >>= deal pending a produced n again)
                    s'))
                (sym (stream_more m pending args sess total fuel produced buf s.mod_state e'))
                (turn-Ends fuel produced buf again s s' q.1 h l e' (λ t k.
                  subst
                    (λ (x : m.Module).
                      Ends
                        (Due (produced + n) (stream m sess total fuel (produced + n) g.0.1 x)
                          t.world)
                        (again g.0.1 t))
                    k
                    (loop-Ends fuel (produced + n) g.0.1 t fits.2 (omega (arith, fits.1, fits.2, f))
                      (omega (arith, full sess n buf s.mod_state, l))))))
            (λ e. nothing m pending received laws args sess total 0 produced _ s.world s' q.1.1 h (
              at_end m pending args sess total (ltb produced total) c fuel produced buf s.mod_state
                s' refl e q.0 h)))

  -- The loop of p11rand-read for `-n total`, when stdout keeps the documented laws of
  -- write(2), and `C_GenerateRandom` the length of its buffer: `total` turns are enough for it
  -- to end. It ends by the second signal; or it hands over a front part of the encoding of
  -- what the module gives, call after call up to the first that fails, where the bytes that it
  -- counts are at most `total` and have all been handed over. If its code is 0, then all
  -- `total` bytes have been, or a signal was counted, or a write failed as nobody reads any
  -- more; else its code is 1, and the last call of `C_GenerateRandom` failed, or a write did
  -- in another way.
  pub read_loop-Delivered :
      (fuel : ℕ) (s : Run m)
      → total < fuel
      → Ends
          (Delivered m pending received a.hex sess total 0
            (stream m sess total fuel 0 (replicate 256 0) s.mod_state)
            s.world)
          (read_loop pending fuel a sess (replicate 256 0) 0 s)
  read_loop-Delivered fuel s h =
      loop-Ends fuel 0 (replicate 256 0) s (omega arith) (omega arith)
        (omega (arith, length-replicate {A = ℕ} 256 0))
