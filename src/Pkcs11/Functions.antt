-- ===== src/Pkcs11/Functions.antt =====
-- The function lists of crates/p11rand/src/lib.rs, the stubs in them and `C_GetFunctionList`.
use pkcs11_rand.Base.{Option, none, some, List, [], ◌∷◌, ◌++◌, Done}
use pkcs11_rand.Host.{Host}
use pkcs11_rand.Pkcs11.{
  ckr_ok, ckr_arguments_bad, ckr_function_not_supported, ckr_mechanism_invalid, Token, Reply,
  answer,
}
use pkcs11_rand.Pkcs11.Interfaces.{FunctionList, fn_list, fn_list_3}

-- What the macro `stub!` makes.
pub data Stub : Type 0 where
  init_token init_pin set_pin get_operation_state set_operation_state login logout : Stub
  create_object copy_object destroy_object get_object_size get_attribute_value : Stub
  set_attribute_value find_objects_init find_objects find_objects_final : Stub
  encrypt_init encrypt encrypt_update encrypt_final decrypt_init decrypt : Stub
  decrypt_update decrypt_final digest_init digest digest_update digest_key : Stub
  digest_final sign_init sign sign_update sign_final sign_recover_init sign_recover : Stub
  verify_init verify verify_update verify_final verify_recover_init verify_recover : Stub
  digest_encrypt_update decrypt_digest_update sign_encrypt_update : Stub
  decrypt_verify_update generate_key generate_key_pair wrap_key unwrap_key : Stub
  derive_key get_function_status cancel_function login_user session_cancel : Stub
  message_encrypt_init encrypt_message encrypt_message_begin encrypt_message_next : Stub
  message_encrypt_final message_decrypt_init decrypt_message decrypt_message_begin : Stub
  decrypt_message_next message_decrypt_final message_sign_init sign_message : Stub
  sign_message_begin sign_message_next message_sign_final message_verify_init : Stub
  verify_message verify_message_begin verify_message_next message_verify_final : Stub

-- A function pointer: of one of the functions that do something, or of a stub.
pub data Function : Type 0 where
  initialize finalize get_info get_function_list get_slot_list get_slot_info : Function
  get_token_info get_mechanism_list get_mechanism_info open_session close_session : Function
  close_all_sessions get_session_info seed_random generate_random : Function
  wait_for_slot_event get_interface_list get_interface : Function
  stub : Stub → Function

-- The functions of the structure of 2.40, in its order, and those that the structure of 3.0 adds.
abbrev functions_2 : List Function
functions_2 =
    initialize
    ∷ finalize
    ∷ get_info
    ∷ get_function_list
    ∷ get_slot_list
    ∷ get_slot_info
    ∷ get_token_info
    ∷ get_mechanism_list
    ∷ get_mechanism_info
    ∷ stub init_token
    ∷ stub init_pin
    ∷ stub set_pin
    ∷ open_session
    ∷ close_session
    ∷ close_all_sessions
    ∷ get_session_info
    ∷ stub get_operation_state
    ∷ stub set_operation_state
    ∷ stub login
    ∷ stub logout
    ∷ stub create_object
    ∷ stub copy_object
    ∷ stub destroy_object
    ∷ stub get_object_size
    ∷ stub get_attribute_value
    ∷ stub set_attribute_value
    ∷ stub find_objects_init
    ∷ stub find_objects
    ∷ stub find_objects_final
    ∷ stub encrypt_init
    ∷ stub encrypt
    ∷ stub encrypt_update
    ∷ stub encrypt_final
    ∷ stub decrypt_init
    ∷ stub decrypt
    ∷ stub decrypt_update
    ∷ stub decrypt_final
    ∷ stub digest_init
    ∷ stub digest
    ∷ stub digest_update
    ∷ stub digest_key
    ∷ stub digest_final
    ∷ stub sign_init
    ∷ stub sign
    ∷ stub sign_update
    ∷ stub sign_final
    ∷ stub sign_recover_init
    ∷ stub sign_recover
    ∷ stub verify_init
    ∷ stub verify
    ∷ stub verify_update
    ∷ stub verify_final
    ∷ stub verify_recover_init
    ∷ stub verify_recover
    ∷ stub digest_encrypt_update
    ∷ stub decrypt_digest_update
    ∷ stub sign_encrypt_update
    ∷ stub decrypt_verify_update
    ∷ stub generate_key
    ∷ stub generate_key_pair
    ∷ stub wrap_key
    ∷ stub unwrap_key
    ∷ stub derive_key
    ∷ seed_random
    ∷ generate_random
    ∷ stub get_function_status
    ∷ stub cancel_function
    ∷ wait_for_slot_event
    ∷ []

abbrev functions_3 : List Function
functions_3 =
    get_interface_list
    ∷ get_interface
    ∷ stub login_user
    ∷ stub session_cancel
    ∷ stub message_encrypt_init
    ∷ stub encrypt_message
    ∷ stub encrypt_message_begin
    ∷ stub encrypt_message_next
    ∷ stub message_encrypt_final
    ∷ stub message_decrypt_init
    ∷ stub decrypt_message
    ∷ stub decrypt_message_begin
    ∷ stub decrypt_message_next
    ∷ stub message_decrypt_final
    ∷ stub message_sign_init
    ∷ stub sign_message
    ∷ stub sign_message_begin
    ∷ stub sign_message_next
    ∷ stub message_sign_final
    ∷ stub message_verify_init
    ∷ stub verify_message
    ∷ stub verify_message_begin
    ∷ stub verify_message_next
    ∷ stub message_verify_final
    ∷ []

-- The two static tables, without their version.
unfoldable pub functions : FunctionList → List Function
functions fn_list = functions_2
functions fn_list_3 = functions_2 ++ functions_3

module _ ⦃h : Host⦄ where
  -- The body of every stub; the arguments are not looked at.
  unfoldable pub call_stub : Stub → Token h → Reply h Done
  call_stub s t = answer ckr_function_not_supported tt t

  unfoldable pub c_get_mechanism_info : Token h → Reply h Done
  c_get_mechanism_info t = answer ckr_mechanism_invalid tt t

  -- The memory at `pp_list`, if it is not null.
  abbrev list_at : Option (Option FunctionList) → Token h → Reply h (Option (Option FunctionList))
  list_at none t = answer ckr_arguments_bad none t
  list_at (some old) t = answer ckr_ok (some (some fn_list)) t

  unfoldable pub c_get_function_list :
      Option (Option FunctionList) → Token h → Reply h (Option (Option FunctionList))
  c_get_function_list pp t = list_at pp t

  unfoldable pub c_wait_for_slot_event : Token h → Reply h Done
  c_wait_for_slot_event t = answer ckr_function_not_supported tt t
