-- ===== src/Examples/ToolRuns.antt =====
-- The theorems on the command-line tools at concrete inputs.
use pkcs11_rand.Base.{
  ℕ, zero, suc, ◌≢◌, get_elem?, bytes_eq, fill, ◌+◌, ◌*◌, ◌^◌, ◌<◌, ◌≡◌, ◌↔◌, refl, true, false,
  some, none, List, [], ◌∷◌, ◌++◌, length, length-map, replicate, arith,
}
use pkcs11_rand.Host.{Bytes, Sys}
use pkcs11_rand.Config.{text}
use pkcs11_rand.Debug.{Call, looking, storing, Calls, interleaved, fresh}
use pkcs11_rand.Debug.Steady.{Steady, answers-Steady}
use pkcs11_rand.Pkcs11.{lib_mfr, pad_field}
use pkcs11_rand.Pkcs11.Context.{Held}
use pkcs11_rand.Tools.{Run, ◌>>=◌, signal_reset, handle_signals}
use pkcs11_rand.Tools.Trim.{trim_pkcs11, trim-pad_field}
use pkcs11_rand.Tools.Write.{write_full, write_hex}
use pkcs11_rand.Tools.Sent.{Sent, write_full-Sent}
use pkcs11_rand.Tools.Asked.{recorded, InOrder, main-InOrder}
use pkcs11_rand.Tools.Hex.{unhex, write_hex_reads_back}
use pkcs11_rand.Infnoise.{all_digits, is_digit, digits_value}
use pkcs11_rand.Tools.Args.{pos, parse_loop, parse_unsigned}
use pkcs11_rand.Tools.Parsed.{ParseLaw}
use pkcs11_rand.Tools.Reading.{IsReading}
use pkcs11_rand.Tools.Parsing.{IsSeeding, IsWaiting, parse-ParseLaw, pool_info-Fits}
use pkcs11_rand.Tools.Strikes.{struck, reset-Struck}
use pkcs11_rand.Tools.Steps.{Ends}
use pkcs11_rand.Tools.Delivered.{stream, Delivered}
use pkcs11_rand.Tools.Delivering.{read_loop-Delivered}
use pkcs11_rand.Tools.Waited.{Waited, wait_loop-Waited}
use pkcs11_rand.Tools.Inventory.{inventory-Counted}
use pkcs11_rand.Tools.Tallied.{usables}
use pkcs11_rand.Tools.ListTool.{inventory, list_cards, list_devices, probe_readers, probe_paths}
use pkcs11_rand.Iso7816 as Cards
use pkcs11_rand.Iso7816.Source as CardSource
use pkcs11_rand.Infnoise as Devices
use pkcs11_rand.Tools.ReadTool as Reader
use pkcs11_rand.Tools.SeedTool as Seeder
use pkcs11_rand.Tools.WaitTool as Waiter
use pkcs11_rand.Examples.{toy}
use pkcs11_rand.Examples.Sources as Small
use pkcs11_rand.Examples.Bench.{seven, bench, printed, uninterrupted, writer, clock, desk, session}

trim-pad_field_example : trim_pkcs11 (pad_field (replicate 32 0) lib_mfr) ≡ lib_mfr
trim-pad_field_example =
    trim-pad_field (replicate 32 0) lib_mfr (λ e. absurd (omega (arith, e))) (omega arith)

write_hex_reads_back_example :
    (d : Bytes) × (printed (write_hex seven uninterrupted (3 ∷ 250 ∷ []) desk).1
      ≡ printed desk ++ d)
    × (length d ≡ 2 * 2)
    × (unhex d ≡ some (3 ∷ 250 ∷ []))
unfolding write_hex fill
write_hex_reads_back_example =
    write_hex_reads_back writer (3 ∷ 250 ∷ []) desk (omega arith, (omega arith, tt)) refl

reset-Struck_example : (signal_reset >>= λ d. handle_signals 2) session ≡ struck 2 session
reset-Struck_example = reset-Struck 2 session

abbrev reading : Reader.Args
reading = record { n_total = pos 300; hex = true; quiet = false; path = text "m.so" }

read_loop-Delivered_example :
    Ends
      (Delivered bench uninterrupted printed true 1 300 0
        (stream bench 1 300 301 0 (replicate 256 0) 5)
        desk)
      (Reader.read_loop uninterrupted 301 reading 1 (replicate 256 0) 0 session)
read_loop-Delivered_example =
    read_loop-Delivered bench uninterrupted printed writer (λ w. refl)
      (λ sess n buf x. length-map buf _) reading 1 300 301 session (omega arith)

abbrev waiting : Waiter.Args bench
waiting = record { timeout = some 2000000; poll_ms = 1; quiet = false; path = text "m.so" }

wait_loop-Waited_example :
    Ends (λ code s. Waited bench 2000000 0 code s) (Waiter.wait_loop 2000001 waiting 0 session)
wait_loop-Waited_example =
    wait_loop-Waited (λ w. w.clock) clock waiting 2000000 2000000 (λ e h. ground (arith, h)) 0
      2000001 session (omega arith) (omega arith)

abbrev argv : List Bytes
argv = text "-n" ∷ text "16" ∷ text "m.so" ∷ []

parse-ParseLaw_example :
    ParseLaw (λ (a : Reader.Args). a.path) IsReading argv (Reader.parse argv)
    × ParseLaw (λ (a : Seeder.Args bench). a.path) IsSeeding argv (Seeder.parse argv)
    × ParseLaw (λ (a : Waiter.Args bench). a.path) IsWaiting argv (Waiter.parse argv)
parse-ParseLaw_example = parse-ParseLaw bench argv refl

abbrev seeding : Seeder.Args bench
seeding = record {
  interval = 60;
  nbytes = 16;
  no_credit = false;
  no_reseed = false;
  quiet = false;
  path = text "m.so";
}

pool_info-Fits_example :
    let info = Seeder.pool_info 16 (replicate 16 0) in
    (info.buf_size ≡ length info.buf)
    × (info.entropy_count ≡ 8 * length info.buf)
    × (0 < info.entropy_count)
    × (info.entropy_count < 2 ^ 31)
unfolding Seeder.parse parse_loop Seeder.arg_turn bytes_eq parse_unsigned all_digits is_digit
    digits_value
pool_info-Fits_example = pool_info-Fits bench argv seeding (replicate 16 0) refl refl refl

-- The first of two calls has stored, the second has not begun.
abbrev stored : Calls
stored = interleaved ((true, 0) ∷ (true, 0) ∷ (true, 0) ∷ []) (fresh 2)

stored_over : (j : ℕ) (c : Call) → get_elem? stored.0 j ≡ some c → (c ≢ looking) × (c ≢ storing)
unfolding interleaved
stored_over zero c e = (λ q. cc, λ q. cc)
stored_over (suc zero) c e = (λ q. cc, λ q. cc)
stored_over (suc (suc j)) c e = absurd (cc)

answers-Steady_example :
    Steady true stored (interleaved ((false, 1) ∷ (false, 1) ∷ (false, 0) ∷ []) stored)
unfolding interleaved
answers-Steady_example =
    answers-Steady 2 ((true, 0) ∷ (true, 0) ∷ (true, 0) ∷ [])
      ((false, 1) ∷ (false, 1) ∷ (false, 0) ∷ []) true
      (record { switch = refl; over = stored_over })

abbrev pub unloaded : Sys toy
unloaded = record { global = record { ctx = none; refs = 0 }; world = Small.world }

four_lines : length (inventory unloaded).cards.lines + length (inventory unloaded).devices.lines ≡ 4
unfolding inventory list_cards list_devices probe_readers probe_paths Cards.global_init
    Cards.list_readers CardSource.open_reader Cards.connect Cards.probe_app Cards.try_get_challenge
    Cards.sw_of Cards.body_of CardSource.read_atr CardSource.hex_bytes Cards.global_shutdown
    Devices.list_paths Devices.sort_by_key Devices.insert_key Devices.keyed Devices.node_suffix
    Devices.parse_u64 Devices.open_path bytes_eq all_digits digits_value is_digit
four_lines = refl

inventory-Counted_example :
    ((inventory unloaded).code ≡ 0
      ↔ 0 < usables (inventory unloaded).cards.lines + usables (inventory unloaded).devices.lines)
    × ((inventory unloaded).cards.usable ≡ usables (inventory unloaded).cards.lines)
    × ((inventory unloaded).devices.usable ≡ usables (inventory unloaded).devices.lines)
    × Held toy false (inventory unloaded).sys.global
inventory-Counted_example = inventory-Counted unloaded (refl, refl) (omega (arith, four_lines))

write_full-Sent_example :
    Sent printed (replicate 20 65) desk (write_full seven uninterrupted (replicate 20 65) desk)
write_full-Sent_example = write_full-Sent writer (replicate 20 65) desk

abbrev crediting : Seeder.Args (recorded bench)
crediting = record {
  interval = 60;
  nbytes = 64;
  no_credit = false;
  no_reseed = false;
  quiet = false;
  path = text "m.so";
}

abbrev watched_session : Run (recorded bench)
watched_session = record { count = 0; mod_state = 5; world = record { inner = desk; events = [] } }

main-InOrder_example :
    let o = Seeder.main 5 9 crediting watched_session in InOrder false false o.0 o.1.world.events
main-InOrder_example = main-InOrder bench 5 9 crediting watched_session refl
