-- ===== src/Pkcs11/Interfaces.antt =====
-- The interface discovery of crates/p11rand/src/lib.rs: `C_GetInterfaceList` and `C_GetInterface`. The
-- two interfaces are static, and no call of the module changes them.
use pkcs11_rand.Base.{
  ℕ, zero, suc, ◌+◌, ◌-◌, ◌*◌, ◌/◌, ◌%◌, ◌≡◌, ap, refl, true, Bool, not, ◌&&◌, ◌||◌, Option, none,
  some, List, [], ◌∷◌, ◌++◌, length, set, ◌≤◌, take, drop, bytes_eq, ltb, ◌==◌, arith,
  if◌then◌else◌,
}
use pkcs11_rand.Host.{Bytes}
use pkcs11_rand.Config.{text}
use pkcs11_rand.Pkcs11.{CkRv, ckr_ok, ckr_arguments_bad, ckr_function_failed, ckr_buffer_too_small}

-- What an interface points to: `FN_LIST_3` or `FN_LIST`.
pub data FunctionList : Type 0 where
  fn_list_3 fn_list : FunctionList

-- `CK_INTERFACE`. The name is that of IFACE_NAME_PKCS11 in both.
pub record Interface : Type 0 where
  pub function_list : FunctionList
  pub flags : ℕ

pub record Version : Type 0 where
  pub major : ℕ
  pub minor : ℕ

abbrev pub iface_name_pkcs11 : Bytes
iface_name_pkcs11 = text "PKCS 11" ++ (0 ∷ [])

abbrev pub interfaces : List Interface
interfaces =
    record { function_list = fn_list_3; flags = 0 }
    ∷ record { function_list = fn_list; flags = 0 }
    ∷ []

abbrev pub iface_version : ℕ → Version
iface_version zero = record { major = 3; minor = 1 }
iface_version (suc zero) = record { major = 2; minor = 40 }
iface_version (suc (suc i)) = record { major = 0; minor = 0 }

-- `a & b` on words of `w` bits.
unfoldable pub bit_and : ℕ → ℕ → ℕ → ℕ
bit_and zero a b = 0
bit_and (suc w) a b = (a % 2) * (b % 2) + 2 * bit_and w (a / 2) (b / 2)

abbrev name_fits : Option Bytes → Bool
name_fits none = true
name_fits (some w) = bytes_eq w (take (length iface_name_pkcs11 - 1) iface_name_pkcs11)

abbrev version_fits : Option Version → Version → Bool
version_fits none iv = true
version_fits (some v) iv = not (not (v.major == iv.major) || not (v.minor == iv.minor))

-- A CK_FLAGS has 64 bits.
abbrev flags_fit : ℕ → Interface → Bool
flags_fit flags ent = bit_and 64 ent.flags flags == flags

-- The loop over the interfaces, from number `i` on.
unfoldable pub first_match :
    Option Bytes → Option Version → ℕ → List Interface → ℕ → Option Interface
first_match name version flags [] i = none
first_match name version flags (ent ∷ rest) i =
    let later = first_match name version flags rest (i + 1) in
    if not (name_fits name)
    then later
    else if not (version_fits version (iface_version i))
    then later
    else if not (flags_fit flags ent)
    then later
    else some ent

abbrev pub matched : Interface → Option Interface → CkRv × Option Interface
matched old none = (ckr_function_failed, some old)
matched old (some ent) = (ckr_ok, some ent)

abbrev get_interface :
    Option Bytes → Option Version → Option Interface → ℕ → CkRv × Option Interface
get_interface name version none flags = (ckr_arguments_bad, none)
get_interface name version (some old) flags =
    matched old (first_match name version flags interfaces 0)

-- The code, and what stands at `pp_iface` afterwards. A name is its bytes before the NUL.
unfoldable pub c_get_interface :
    Option Bytes → Option Version → Option Interface → ℕ → CkRv × Option Interface
c_get_interface name version pp flags = get_interface name version pp flags

and_zero : (w b : ℕ) → bit_and w 0 b ≡ 0
unfolding bit_and
and_zero zero b = refl
and_zero (suc w) b = omega (arith, and_zero w (b / 2))

abbrev asked_version : Option Version → Option Interface
asked_version none = some (record { function_list = fn_list_3; flags = 0 })
asked_version (some v) =
    if v.major == 3 && v.minor == 1
    then some (record { function_list = fn_list_3; flags = 0 })
    else if v.major == 2 && v.minor == 40
    then some (record { function_list = fn_list; flags = 0 })
    else none

-- What a caller can ask for: no flags, the one name or none, and one of the two versions or none.
abbrev pub asked : Option Bytes → Option Version → ℕ → Option Interface
asked name version (suc flags) = none
asked none version zero = asked_version version
asked (some w) version zero = if bytes_eq w (text "PKCS 11") then asked_version version else none

asked_lem :
    (name : Option Bytes) (version : Option Version) (flags : ℕ)
    → first_match name version flags interfaces 0 ≡ asked name version flags
unfolding first_match
asked_lem name version (suc flags) = ground (arith, and_zero 64 (suc flags))
asked_lem none none zero = ground (arith, and_zero 64 0)
asked_lem none (some v) zero = ground (arith, and_zero 64 0)
asked_lem (some w) none zero = ground (arith, and_zero 64 0)
asked_lem (some w) (some v) zero = ground (arith, and_zero 64 0)

-- `C_GetInterface` with a place for its result resolves just these requests, and answers
-- CKR_FUNCTION_FAILED to all others without a write: no flag bits, no name or the name `PKCS
-- 11`, and no version or 3.1, which give the 3.1 interface, or version 2.40, which gives the
-- 2.40 interface.
pub get_interface_lem :
    (name : Option Bytes) (version : Option Version) (old : Interface) (flags : ℕ)
    → c_get_interface name version (some old) flags ≡ matched old (asked name version flags)
unfolding c_get_interface
get_interface_lem name version old flags = ap (matched old) (asked_lem name version flags)

-- `for (i, e) in INTERFACES.0.iter().enumerate()`
unfoldable pub write_interfaces : List Interface → ℕ → List Interface → List Interface
write_interfaces [] i list = list
write_interfaces (e ∷ es) i list = write_interfaces es (i + 1) (set list i e)

-- A call's code, and what stands at `p_list` and at `p_count` afterwards.
abbrev pub ListReply : Type 0
ListReply = CkRv × Option (List Interface) × Option ℕ

abbrev get_interface_list : Option (List Interface) → Option ℕ → ListReply
get_interface_list list none = (ckr_arguments_bad, list, none)
get_interface_list none (some count) = (ckr_ok, none, some (length interfaces))
get_interface_list (some l) (some count) =
    if ltb count (length interfaces)
    then (ckr_buffer_too_small, some l, some (length interfaces))
    else (ckr_ok, some (write_interfaces interfaces 0 l), some (length interfaces))

unfoldable pub c_get_interface_list : Option (List Interface) → Option ℕ → ListReply
c_get_interface_list list count = get_interface_list list count

-- With room for as many interfaces as the count says, `C_GetInterfaceList` answers
-- CKR_BUFFER_TOO_SMALL and leaves the list if the count is below 2, and else writes the two
-- interfaces to the front of the list and leaves the rest; either way the count becomes 2.
pub get_interface_list_lem :
    (l : List Interface) (count : ℕ)
    → count ≤ length l
    → c_get_interface_list (some l) (some count) ≡ (
        if ltb count 2
        then (ckr_buffer_too_small, some l, some 2)
        else (ckr_ok, some (interfaces ++ drop 2 l), some 2))
unfolding c_get_interface_list write_interfaces
get_interface_list_lem [] count room = ground arith
get_interface_list_lem (a ∷ []) count room = ground arith
get_interface_list_lem (a ∷ b ∷ l) count room = refl
