-- ===== src/Tools/Clean.antt =====
-- The tools of crates/p11rand-tools on the module of crates/p11rand/src/lib.rs: how they leave it.
use pkcs11_rand.Base.{
  ℕ, Bool, true, false, ◌&&◌, ◌≡◌, refl, ◌∙◌, Option, none, some, List, [], ◌∷◌, Result, ok, err,
  Done, All, ltb, if◌then◌else◌,
}
use mathlib.Core.Path.{subst}
use pkcs11_rand.Host.{Bytes, Host, KernelLaws, DigestLaws, ListLaws}
use pkcs11_rand.Config.{Config}
use pkcs11_rand.Pkcs11.{CkRv, ckr_ok, Session, Token}
use pkcs11_rand.Pkcs11.Context.{Held}
use pkcs11_rand.Pkcs11.Lifecycle.{c_initialize}
use pkcs11_rand.Pkcs11.Sessions.{c_open_session}
use pkcs11_rand.Pkcs11.Reach.{
  Reachable, called, meanwhile, run, initialize, finalize, get_slot_list, get_slot_info,
  get_token_info, open_session, close_session, generate_random, Reachable-IsReady,
}
use pkcs11_rand.Pkcs11.Ready.{IsReady, IsEntry}
use pkcs11_rand.Pkcs11.Initialized.{
  accepted, get_slot_list-Same, get_slot_info-Same, get_token_info-Same, initialize-accepted,
  finalize-uninitialized, open_session-Same, close_session-Same, generate_random-Same,
}
use pkcs11_rand.Tools.{Machine, Run, Flow, Ended, returned, not_ok}
use pkcs11_rand.Tools.Protocol as Protocol
use pkcs11_rand.Tools.Protocol.{Phase, unloaded, ready, opened, Lifecycle, Finished, Arrives, Goes}
use pkcs11_rand.Tools.ReadEnds.{read_run-Goes}
use pkcs11_rand.Tools.SeedEnds.{seed_run-Goes}
use pkcs11_rand.Tools.WaitEnds.{wait_run-Goes, test_main-Goes}
use pkcs11_rand.Tools.P11rand.{p11rand, code_number, serial_session}
use pkcs11_rand.Tools.ReadTool as Reader
use pkcs11_rand.Tools.SeedTool as Seeder
use pkcs11_rand.Tools.WaitTool as Waiter
use pkcs11_rand.Tools.TestTool as Tester

-- The tools that load the module.
pub data Tool : Type 0 where
  read seed wait test : Tool

-- A tool on its arguments. `naps` is the fuel of a sleep of p11rand-seed.
abbrev pub process : {m : Machine} → (m.World → ℕ) → Tool → (fuel naps : ℕ) → List Bytes → Flow m ℕ
process pending read fuel naps argv = Reader.run pending fuel argv
process pending seed fuel naps argv = Seeder.run fuel naps argv
process pending wait fuel naps argv = Waiter.run fuel argv
process pending test fuel naps argv = Tester.main argv

-- `main` returned, early or at its end.
abbrev pub Returned : {m : Machine} → Result Ended ℕ × Run m → Type 0
Returned (ok code, s) = Done
Returned (err (returned code), s) = Done
Returned (err _, s) = ⊥

-- A module that calls of its interface can lead to, that is not initialized, that has no session, and
-- without a PC/SC context.
pub record IsClean (h : Host) (cfg : Config) (t : Token h) : Type 0 where
  pub reachable : Reachable h cfg t
  pub uninitialized : t.initialized ≡ false
  pub no_session : All (λ x. x ≡ none) t.sessions
  pub released : Held h false t.sys.global

module _ (h : Host) (cfg : Config) where
  abbrev IsIn : Phase → Token h → Type 0
  IsIn unloaded t = Reachable h cfg t × (t.initialized ≡ false)
  IsIn ready t = Reachable h cfg t × (t.initialized ≡ true)
  IsIn (opened sess) t = Reachable h cfg t × (t.initialized ≡ true)

module _ ⦃h : Host⦄ (cfg : Config) (elapse : ℕ → h.World → h.World) (m : Machine) where
  started :
      (rv : CkRv) (t : Token h)
      → Reachable h cfg t
      → t.initialized ≡ accepted rv
      → IsIn h cfg (Protocol.after_initialize (code_number rv)) t
  started ckr_ok t r e = (r, e)
  started _ t r e = (r, e)

  sessioned :
      (b : Bool) (sess : ℕ) (t : Token h)
      → Reachable h cfg t
      → t.initialized ≡ true
      → IsIn h cfg (if b then ready else opened sess) t
  sessioned true sess t r e = (r, e)
  sessioned false sess t r e = (r, e)

  slept :
      (p : Phase) (n : ℕ) (t : Token h)
      → IsIn h cfg p t
      → IsIn h cfg p (record t { sys = record t.sys { world = elapse n t.sys.world } })
  slept unloaded n t i = (meanwhile (elapse n t.sys.world) i.0, i.1)
  slept ready n t i = (meanwhile (elapse n t.sys.world) i.0, i.1)
  slept (opened sess) n t i = (meanwhile (elapse n t.sys.world) i.0, i.1)

  calls : Lifecycle (p11rand cfg elapse m) (IsIn h cfg)
  unfolding run
  calls = record {
    on_initialize = λ t i.
        started (c_initialize cfg none t).rv (c_initialize cfg none t).token
          (called (initialize none) i.0) (initialize-accepted cfg t i.1);
    on_finalize = λ t i. (called (finalize none) i.0, finalize-uninitialized cfg t i.1);
    on_list = λ present l t i.
        (called (get_slot_list present (some l)) i.0, get_slot_list-Same cfg present l t ∙ i.1);
    on_slot_info = λ slot x t i.
        (called (get_slot_info slot (some x)) i.0, get_slot_info-Same cfg slot x t ∙ i.1);
    on_token_info = λ sess slot x t i.
        (called (get_token_info slot (some x)) i.0, get_token_info-Same cfg slot x t ∙ i.1);
    on_open = λ slot old t i.
        sessioned (not_ok (code_number (c_open_session cfg slot serial_session (some old) t).rv)) _
          _ (called (open_session slot serial_session (some old)) i.0)
          (open_session-Same cfg slot serial_session old t ∙ i.1);
    on_close = λ sess t i. (called (close_session sess) i.0, close_session-Same sess t ∙ i.1);
    on_generate = λ sess buf n t i.
        (called (generate_random sess (some buf) n) i.0, generate_random-Same sess buf n t ∙ i.1);
    on_sleep = λ p n t i. slept p n t i;
  }

  process-Goes :
      (pending : m.World → ℕ) (tool : Tool) (fuel naps : ℕ) (argv : List Bytes)
      → Goes
          (p11rand cfg elapse m)
          (IsIn h cfg)
          unloaded
          (process pending tool fuel naps argv)
          (λ code. unloaded)
  process-Goes pending read fuel naps argv = read_run-Goes calls pending fuel argv
  process-Goes pending seed fuel naps argv = seed_run-Goes calls fuel naps argv
  process-Goes pending wait fuel naps argv = wait_run-Goes calls fuel argv
  process-Goes pending test fuel naps argv = test_main-Goes calls argv

  no_sessions :
      (b : Bool) (xs : List (Option (Session h)))
      → b ≡ false
      → All (IsEntry h cfg b) xs
      → All (λ x. x ≡ none) xs
  no_sessions b [] e v = tt
  no_sessions b (none ∷ xs) e v = (refl, no_sessions b xs e v.1)
  no_sessions b (some x ∷ xs) e v = let q = v.0.initialized in absurd (cc)

  cleaned : (t : Token h) → IsReady h cfg t → IsIn h cfg unloaded t → IsClean h cfg t
  cleaned t v (r, e) = record {
    reachable = r;
    uninitialized = e;
    no_session = no_sessions t.initialized t.sessions e v.sessions;
    released = subst (λ (b : Bool). Held h (b && ltb 0 cfg.iso7816_cards) t.sys.global) e v.context;
  }

  finished :
      (o : Result Ended ℕ × Run (p11rand cfg elapse m))
      → Returned o
      → Arrives (p11rand cfg elapse m) (IsIn h cfg) (λ (code : ℕ). unloaded) o
      → IsIn h cfg unloaded o.1.mod_state
  finished (ok code, s) e a = a
  finished (err (returned code), s) e a = a
  finished (err _, s) e a = absurd e

  -- The tools that load a module, p11rand-read, p11rand-seed, p11rand-wait and p11rand-test,
  -- run on the module of this repository, with outside code that keeps its documented laws:
  -- whatever the arguments, the output, the signals and the devices do, if the tool starts on
  -- a module that was left clean and its `main` returns, early or at its end, then what it did
  -- is a sequence of calls of the module's interface, and it leaves the module not
  -- initialized, with no session and with the PC/SC context released.
  pub process-IsClean :
      KernelLaws h
      → DigestLaws h
      → ListLaws h
      → (pending : m.World → ℕ) (tool : Tool) (fuel naps : ℕ) (argv : List Bytes)
        (s : Run (p11rand cfg elapse m))
      → IsClean h cfg s.mod_state
      → Returned (process pending tool fuel naps argv s)
      → IsClean h cfg (process pending tool fuel naps argv s).1.mod_state
  process-IsClean k d l pending tool fuel naps argv s c e =
      let o = process pending tool fuel naps argv s in
      let i =
        finished o e
          ((process-Goes pending tool fuel naps argv).moves s (c.reachable, c.uninitialized)) in
      cleaned o.1.mod_state (Reachable-IsReady k d l cfg o.1.mod_state i.0) i
