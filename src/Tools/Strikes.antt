-- ===== src/Tools/Strikes.antt =====
-- The two-strikes counter of crates/p11rand-tools/src/lib.rs.
use pkcs11_rand.Base.{ℕ, zero, suc, ◌≡◌, refl, Result, ok, err, Done}
use pkcs11_rand.Tools.{
  Machine, Run, Ended, exited, ◌>>=◌, pure, handle_signal, handle_signals, signal_reset,
}

module _ {m : Machine} where
  -- What `n` signals do.
  abbrev pub struck : ℕ → Run m → Result Ended Done × Run m
  struck zero s = (ok tt, record s { count = 0 })
  struck (suc zero) s = (ok tt, record s { count = 1 })
  struck (suc (suc n)) s = (err (exited 130), record s { count = 2 })

  -- After `signal_reset`, whatever the counter was: one signal leaves the process running with
  -- a count of 1, and at the second it exits with 130.
  pub reset-Struck : (n : ℕ) (s : Run m) → (signal_reset >>= λ d. handle_signals n) s ≡ struck n s
  unfolding ◌>>=◌ signal_reset handle_signals handle_signal pure
  reset-Struck zero s = refl
  reset-Struck (suc zero) s = refl
  reset-Struck (suc (suc n)) s = refl
