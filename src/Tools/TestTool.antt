-- ===== src/Tools/TestTool.antt =====
-- crates/p11rand-tools/src/bin/p11rand-test.rs: the smoke test of a module. What it prints is not
-- modelled.
use pkcs11_rand.Base.{
  ℕ, false, Option, none, some, List, [], ◌∷◌, Done, get_or, take, replicate, ltb, ◌==◌,
  if◌then◌else◌,
}
use pkcs11_rand.Host.{Bytes}
use pkcs11_rand.Pkcs11.Slots.{SlotInfo, TokenInfo}
use pkcs11_rand.Tools.{Machine, Flow, returned, exited, not_ok, ◌>>=◌, pure, leave, call}
use pkcs11_rand.Tools.Args.{parse_unsigned}
use pkcs11_rand.Tools.Connect.{ck_true, empty_list, room, listed, load, finalize}

abbrev pub ck_false : ℕ
ck_false = 0

-- `args[2].parse().unwrap_or(32)`
abbrev pub count_of : Option ℕ → ℕ
count_of none = 32
count_of (some n) = n

abbrev pub byte_count : List Bytes → ℕ
byte_count [] = 32
byte_count (s ∷ rest) = count_of (parse_unsigned s)

abbrev pub no_slot_info : SlotInfo
no_slot_info = record {
  slot_description = replicate 64 0;
  manufacturer_id = replicate 32 0;
  token_present = false;
}

abbrev pub no_token_info : TokenInfo
no_token_info = record {
  label = replicate 32 0;
  manufacturer_id = replicate 32 0;
  model = replicate 16 0;
  serial_number = replicate 16 0;
  max_session_count = 0;
}

abbrev pub must_init : {X : Type 0} → ℕ × X → (ℕ × Done) × X
must_init (rv, x) = ((rv, tt), x)

module _ {m : Machine} where
  -- It exits on the spot: `C_Finalize` is not called.
  unfoldable pub die : {A : Type 0} → Flow m A
  unfolding leave
  die = leave (exited 2)

  -- A call that must succeed.
  unfoldable pub must : {A : Type 0} → (m.Module → (ℕ × A) × m.Module) → Flow m A
  unfolding ◌>>=◌ pure call die
  must f = call f >>= λ r. if not_ok r.0 then die else pure r.1

  -- All readers are asked for.
  unfoldable pub show_readers : List ℕ → Flow m Done
  unfolding ◌>>=◌ pure call
  show_readers [] = pure tt
  show_readers (slot ∷ slots) =
      call (m.c_get_slot_info slot no_slot_info) >>= λ r. show_readers slots

  unfoldable pub all_readers : ℕ → Flow m (List ℕ)
  unfolding ◌>>=◌ pure must
  all_readers n =
      if ltb 0 n
      then must (m.c_get_slot_list ck_false (room n)) >>= (λ r. pure (take r.count (listed r.list)))
      else pure []

  unfoldable pub no_token : Flow m ℕ
  unfolding ◌>>=◌ pure finalize
  no_token = finalize >>= λ d. leave (returned 3)

  -- The first slot with a usable token, of `n`.
  unfoldable pub pick : ℕ → Flow m ℕ
  unfolding ◌>>=◌ pure must no_token
  pick n =
      if n == 0
      then no_token
      else must (m.c_get_slot_list ck_true (room n)) >>= (λ r. pure (get_or (listed r.list) 0 0))

  unfoldable pub main : List Bytes → Flow m ℕ
  unfolding ◌>>=◌ pure leave call must load show_readers all_readers pick finalize
  main [] = leave (returned 1)
  main (path ∷ rest) = do
    let n = byte_count rest
    there ← load path
    ready ← must (λ x. must_init (m.c_initialize x))
    sized ← must (m.c_get_slot_list ck_false empty_list)
    slots ← all_readers sized.count
    shown ← show_readers slots
    present ← must (m.c_get_slot_list ck_true empty_list)
    picked ← pick present.count
    sess ← must (m.c_open_session picked 0)
    info ← call (m.c_get_token_info picked no_token_info)
    buf ← must (m.c_generate_random sess (replicate n 0) n)
    closed ← call (m.c_close_session sess)
    fin ← finalize
    pure 0
