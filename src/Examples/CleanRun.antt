-- ===== src/Examples/CleanRun.antt =====
-- p11rand-wait on the module, from start to end.
use pkcs11_rand.Base.{ℕ, zero, suc, bytes_eq, ◌≡◌, refl, none, Option, [], ◌∷◌, replicate, All}
use pkcs11_rand.Config.{text, decimal, slot_name}
use pkcs11_rand.Pkcs11.{Session, new_module, drop_sessions, refresh_slot}
use pkcs11_rand.Pkcs11.Lifecycle.{c_initialize, c_finalize}
use pkcs11_rand.Pkcs11.Slots.{c_get_slot_list, count_slots}
use pkcs11_rand.Pkcs11.Functions.{c_get_function_list}
use pkcs11_rand.Pkcs11.Reach.{loaded}
use pkcs11_rand.Pool.{drop_inner, list_names, open_named}
use pkcs11_rand.Pool.Open.{
  global_init, global_shutdown, fillable, cards_fillable, devices_fillable, count_usable,
}
use pkcs11_rand.Iso7816 as Cards
use pkcs11_rand.Iso7816.Source as CardSource
use pkcs11_rand.Infnoise as Devices
use pkcs11_rand.Tools.{
  Run, ◌>>=◌, pure, leave, call, outside, pass, load_module, signal_reset, handle_signal,
  handle_signals, deliver, watched, signal_count,
}
use pkcs11_rand.Tools.Args.{parse_loop}
use pkcs11_rand.Tools.Connect.{load, initialize, finalize}
use pkcs11_rand.Tools.P11rand.{p11rand}
use pkcs11_rand.Tools.Clean.{wait, process, Returned, IsClean, process-IsClean}
use pkcs11_rand.Tools.WaitTool as Waiter
use pkcs11_rand.Examples.{toy, kernel, digests, listings}
use pkcs11_rand.Examples.Sources as Small
use pkcs11_rand.Examples.ToolRuns.{unloaded}
use pkcs11_rand.Examples.Bench.{bench, uninterrupted, desk}

none_open : (n : ℕ) → All (λ (x : Option (Session toy)). x ≡ none) (replicate n none)
none_open zero = tt
none_open (suc n) = (refl, none_open n)

abbrev fresh : Run (p11rand Small.mixed (λ n w. w) bench)
fresh = record {
  count = 0;
  mod_state = record { state = new_module; sys = unloaded };
  world = desk;
}

returns : Returned (process uninterrupted wait 3 0 (text "m.so" ∷ []) fresh)
unfolding Waiter.run Waiter.parse parse_loop Waiter.arg_turn Waiter.main Waiter.wait_loop
    Waiter.timed_out bytes_eq c_initialize c_finalize c_get_slot_list count_slots refresh_slot
    global_init global_shutdown fillable cards_fillable devices_fillable count_usable list_names
    open_named drop_inner drop_sessions decimal slot_name Cards.global_init Cards.global_shutdown
    Cards.list_readers CardSource.open_reader Cards.connect Cards.probe_app Cards.try_get_challenge
    Cards.sw_of Cards.body_of Cards.select_aid Cards.pcsc_no_card Devices.list_paths
    Devices.sort_by_key Devices.insert_key Devices.keyed Devices.node_suffix Devices.all_digits
    Devices.digits_value Devices.is_digit Devices.parse_u64 load initialize finalize ◌>>=◌ pure
    leave call outside pass load_module signal_reset handle_signal handle_signals deliver watched
    signal_count c_get_function_list
returns = tt

process-IsClean_example :
    IsClean toy Small.mixed (process uninterrupted wait 3 0 (text "m.so" ∷ []) fresh).1.mod_state
process-IsClean_example =
    process-IsClean Small.mixed (λ n w. w) bench kernel digests listings uninterrupted wait 3 0
      (text "m.so" ∷ []) fresh
      (record {
        reachable = loaded unloaded (refl, refl);
        uninitialized = refl;
        no_session = none_open 64;
        released = (refl, refl);
      })
      returns
