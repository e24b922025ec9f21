-- ===== src/Pkcs11/Reach.antt =====
-- The module of crates/p11rand/src/lib.rs as a state machine: its calls, in any order.
use pkcs11_rand.Base.{ℕ, false, Option, Done}
use pkcs11_rand.Host.{Bytes, Host, Sys, KernelLaws, DigestLaws, ListLaws}
use pkcs11_rand.Config.{Config}
use pkcs11_rand.Pkcs11.{SessionFlags, Token, new_module}
use pkcs11_rand.Pkcs11.Lifecycle.{InitializeArgs, c_initialize, c_finalize}
use pkcs11_rand.Pkcs11.Slots.{
  SlotList, SlotInfo, TokenInfo, c_get_slot_list, c_get_slot_info, c_get_token_info,
}
use pkcs11_rand.Pkcs11.Sessions.{
  c_open_session, c_close_session, c_close_all_sessions, c_generate_random,
}
use pkcs11_rand.Pkcs11.Context.{Held}
use pkcs11_rand.Pkcs11.Ready.{IsReady, new-IsReady}
use pkcs11_rand.Pkcs11.Keeps.{initialize-IsReady, finalize-IsReady}
use pkcs11_rand.Pkcs11.SlotKeeps.{
  get_slot_list-IsReady, get_slot_info-IsReady, get_token_info-IsReady,
}
use pkcs11_rand.Pkcs11.SessionKeeps.{
  open_session-IsReady, close_session-IsReady, close_all-IsReady, generate_random-IsReady,
}

-- The calls that can change the module, each with its arguments.
pub data Call : Type 0 where
  initialize : Option InitializeArgs → Call
  finalize : Option Done → Call
  get_slot_list : ℕ → Option SlotList → Call
  get_slot_info : ℕ → Option SlotInfo → Call
  get_token_info : ℕ → Option TokenInfo → Call
  open_session : ℕ → SessionFlags → Option ℕ → Call
  close_session : ℕ → Call
  close_all_sessions : ℕ → Call
  generate_random : ℕ → Option Bytes → ℕ → Call

module _ ⦃h : Host⦄ (cfg : Config) where
  unfoldable pub run : Call → Token h → Token h
  run (initialize args) t = (c_initialize cfg args t).token
  run (finalize reserved) t = (c_finalize cfg reserved t).token
  run (get_slot_list present mem) t = (c_get_slot_list cfg present mem t).token
  run (get_slot_info slot p) t = (c_get_slot_info cfg slot p t).token
  run (get_token_info slot p) t = (c_get_token_info cfg slot p t).token
  run (open_session slot flags p) t = (c_open_session cfg slot flags p t).token
  run (close_session handle) t = (c_close_session handle t).token
  run (close_all_sessions slot) t = (c_close_all_sessions slot t).token
  run (generate_random handle buf len) t = (c_generate_random handle buf len t).token

-- What the calls of an application can make of the module. Between two calls anything outside may
-- change: devices come and go.
pub data Reachable (h : Host) (cfg : Config) : Token h → Type 0 where
  loaded :
      (s : Sys h)
      → Held h false s.global
      → Reachable h cfg (record { state = new_module ⦃h = h⦄; sys = s })
  called : (c : Call) {t : Token h} → Reachable h cfg t → Reachable h cfg (run ⦃h = h⦄ cfg c t)
  meanwhile :
      (w : h.World) {t : Token h}
      → Reachable h cfg t
      → Reachable h cfg (record t { sys = record t.sys { world = w } })

module _ ⦃h : Host⦄ (k : KernelLaws h) (d : DigestLaws h) (laws : ListLaws h) (cfg : Config) where
  run-IsReady : (c : Call) (t : Token h) → IsReady h cfg t → IsReady h cfg (run cfg c t)
  unfolding run
  run-IsReady (initialize args) t v = initialize-IsReady cfg args t v
  run-IsReady (finalize reserved) t v = finalize-IsReady cfg reserved t v
  run-IsReady (get_slot_list present mem) t v = get_slot_list-IsReady cfg present mem t v
  run-IsReady (get_slot_info slot p) t v = get_slot_info-IsReady cfg slot p t v
  run-IsReady (get_token_info slot p) t v = get_token_info-IsReady cfg slot p t v
  run-IsReady (open_session slot flags p) t v = open_session-IsReady cfg laws slot flags p t v
  run-IsReady (close_session handle) t v = close_session-IsReady cfg handle t v
  run-IsReady (close_all_sessions slot) t v = close_all-IsReady cfg slot t v
  run-IsReady (generate_random handle buf len) t v =
      generate_random-IsReady k d cfg handle buf len t v

  -- From a module that was just loaded, with the PC/SC context not held, and with outside code
  -- that keeps its documented laws: after any sequence of calls, with any change of the
  -- devices between two calls, the session table has 64 entries; one slot is published while
  -- the module is initialized and none otherwise; sessions exist only while it is initialized,
  -- on slot 0, each with a well-formed pool of the build's configuration; and the PC/SC
  -- context is held, once, exactly while the module is initialized and uses cards.
  pub Reachable-IsReady : (t : Token h) → Reachable h cfg t → IsReady h cfg t
  Reachable-IsReady _ (loaded s v) = new-IsReady cfg s v
  Reachable-IsReady _ (called c {t = t} r) = run-IsReady c t (Reachable-IsReady t r)
  Reachable-IsReady _ (meanwhile w {t = t} r) =
      let v = Reachable-IsReady t r in
      record { table = v.table; slots = v.slots; sessions = v.sessions; context = v.context }
