-- ===== src/Examples/Calls.antt =====
-- The theorems on the PKCS#11 calls at concrete inputs.
use pkcs11_rand.Base.{
  drop, ltb, if◌then◌else◌, List, ◌≤◌, ◌++◌, length, take, some_inj, ap, arith, ℕ, zero, suc, ◌+◌,
  ◌≡◌, ◌↔◌, refl, none, some, true, false, [], ◌∷◌, get_elem?, All, replicate,
}
use pkcs11_rand.Host.{Sys}
use pkcs11_rand.Pkcs11.{SessionFlags, lib_mfr, pad_field, Session, Token, find_session, new_module}
use pkcs11_rand.Pkcs11.Sessions.{
  c_close_all_sessions, c_open_session, c_close_session, c_generate_random,
}
use pkcs11_rand.Pkcs11.Ready.{IsEntry, IsReady}
use pkcs11_rand.Pkcs11.Reach.{
  Reachable, loaded, called, run, initialize, open_session, generate_random, Reachable-IsReady,
}
use pkcs11_rand.Pkcs11.Handles.{OpenOutcome, open_session-outcome, find_session-Names}
use pkcs11_rand.Pkcs11.ClosingAll.{Ended, close_all_sessions-Ended}
use pkcs11_rand.Pkcs11.Closing.{CloseOutcome, close_session-outcome}
use pkcs11_rand.Pkcs11.Listed.{ListOutcome, get_slot_list-outcome}
use pkcs11_rand.Pkcs11.Slots.{SlotList, c_get_slot_list}
use pkcs11_rand.Pkcs11.Field.{pad_field_lem}
use pkcs11_rand.Config.{text}
use pkcs11_rand.Pkcs11.{ckr_ok, ckr_buffer_too_small}
use pkcs11_rand.Pkcs11.Interfaces.{
  Interface, fn_list, interfaces, matched, asked, c_get_interface, get_interface_lem,
  c_get_interface_list, get_interface_list_lem,
}
use pkcs11_rand.Pkcs11.Random.{RandomOutcome, generate_random-outcome}
use pkcs11_rand.Examples.{toy, kernel, digests, listings}
use pkcs11_rand.Examples.Sources.{world, buffer, mixed}
use pkcs11_rand.Examples.Pools.{pool, pool-IsWell}

abbrev unloaded : Sys toy
unloaded = record { global = record { ctx = none; refs = 0 }; world = world }

abbrev flags : SessionFlags
flags = record { serial_session = true; rw_session = false; others = 0 }

abbrev calls : Token toy
calls = run mixed (generate_random 1 (some buffer) 33) (
    run mixed (open_session 0 flags (some 0))
      (run mixed (initialize none) (record { state = new_module; sys = unloaded })))

calls-Reachable : Reachable toy mixed calls
calls-Reachable = called (generate_random 1 (some buffer) 33) (
    called (open_session 0 flags (some 0))
      (called (initialize none) (loaded unloaded (refl, refl))))

Reachable-IsReady_example : IsReady toy mixed calls
Reachable-IsReady_example = Reachable-IsReady kernel digests listings mixed calls calls-Reachable

abbrev session : Session toy
session = record { slot = 0; flags = flags; pool = pool }

-- An initialized module with one session, in the second entry.
abbrev token : Token toy
token = record {
  state = record {
    initialized = true;
    slots = record { name = []; token_present = true } ∷ [];
    sessions = none ∷ some session ∷ replicate 62 none;
  };
  sys = record { global = record { ctx = some 1; refs = 1 }; world = world };
}

token-IsReady : IsReady toy mixed token
token-IsReady = record {
  table = refl;
  slots = refl;
  sessions = (
    tt,
    (record { initialized = refl; slot = refl; well = pool-IsWell; config = refl }, no_more 62),
  );
  context = (refl, 1, refl);
}
  where
    no_more : (n : ℕ) → All (IsEntry toy mixed true) (replicate n none)
    no_more zero = tt
    no_more (suc n) = (tt, no_more n)

generate_random-outcome_example :
    RandomOutcome toy 2 buffer 33 token (c_generate_random 2 (some buffer) 33 token)
generate_random-outcome_example =
    generate_random-outcome kernel digests mixed 2 buffer 33 token token-IsReady

open_session-outcome_example :
    OpenOutcome mixed 0 flags (some 9) token (c_open_session mixed 0 flags (some 9) token)
open_session-outcome_example = open_session-outcome mixed 0 flags (some 9) token

close_session-outcome_example : CloseOutcome 2 token (c_close_session 2 token)
close_session-outcome_example = close_session-outcome 2 token

find_session-Names_example :
    (find_session token.state 2 ≡ some 1)
    ↔ ((2 ≡ 1 + 1) × (x : Session toy) × (get_elem? token.sessions 1 ≡ some (some x)))
find_session-Names_example = find_session-Names token.state 2 1

abbrev memory : SlotList
memory = record { list = some (7 ∷ 7 ∷ []); count = 2 }

memory_room : (l : List ℕ) → memory.list ≡ some l → memory.count ≤ length l
memory_room l e = omega (arith, ap length (some_inj e))

get_slot_list-outcome_example :
    ListOutcome toy true (some (7 ∷ 7 ∷ [])) 2 (c_get_slot_list mixed 1 (some memory) token)
get_slot_list-outcome_example = get_slot_list-outcome mixed 1 memory token refl memory_room

pad_field_lem_example : pad_field (replicate 32 0) lib_mfr ≡ take 32 (lib_mfr ++ replicate 32 0x20)
pad_field_lem_example = pad_field_lem (replicate 32 0) lib_mfr

abbrev second_interface : Interface
second_interface = record { function_list = fn_list; flags = 0 }

get_interface_lem_example :
    c_get_interface
      (some (text "PKCS 11"))
      (some (record { major = 2; minor = 40 }))
      (some second_interface)
      0
    ≡ matched second_interface
        (asked (some (text "PKCS 11")) (some (record { major = 2; minor = 40 })) 0)
get_interface_lem_example =
    get_interface_lem (some (text "PKCS 11")) (some (record { major = 2; minor = 40 }))
      second_interface 0

abbrev room : List Interface
room = second_interface ∷ second_interface ∷ second_interface ∷ []

get_interface_list_lem_example : c_get_interface_list (some room) (some 3) ≡ (
    if ltb 3 2
    then (ckr_buffer_too_small, some room, some 2)
    else (ckr_ok, some (interfaces ++ drop 2 room), some 2))
get_interface_list_lem_example = get_interface_list_lem room 3 (omega arith)

close_all_sessions-Ended_example :
    ((c_close_all_sessions 0 token).rv ≡ ckr_ok)
    × ((i : ℕ) (x : Session toy)
        → get_elem? token.sessions i ≡ some (some x)
        → Ended toy 0 x (get_elem? (c_close_all_sessions 0 token).token.sessions i))
close_all_sessions-Ended_example = close_all_sessions-Ended 0 token refl (omega arith)
