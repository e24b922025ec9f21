-- ===== src/Tools/Approach.antt =====
-- The way to a session in crates/p11rand-tools/src/bin, as the world outside the module sees it.
use pkcs11_rand.Base.{ℕ, ◌==◌, ◌||◌, get_or}
use pkcs11_rand.Host.{Bytes}
use pkcs11_rand.Tools.{Ended, Machine, returned, not_ok, load_module}
use pkcs11_rand.Tools.Connect.{
  load, initialize, finalize, give_up, first_slot, ck_true, empty_list, room, open_on, connect,
  listed,
}
use pkcs11_rand.Tools.Asking.{
  Asks, Others, loads, bind-Asks, pure-Asks, branch-Asks, call-Asks, leave-Asks,
}

module _ {m : Machine} {E : Ended → m.World → Type 0} {p : m.World → Type 0}
    (o : Others m E p) where
  module_there : (path : Bytes) → Asks m E p (load_module path) (λ b. p)
  unfolding load_module
  module_there path = record {
    moves = λ s i. let j = o.on_dlopen path s.world i in loads m E _ _ p s _ _ j (o.on_dlsym _ j);
  }

  load-Asks : (path : Bytes) → Asks m E p (load path) (λ d. p)
  unfolding load
  load-Asks path =
      bind-Asks (module_there path)
        (λ b. branch-Asks b (λ e. pure-Asks (λ d. p) tt) (λ e. leave-Asks o (returned 2) (λ d. p)))

  initialize-Asks : Asks m E p initialize (λ d. p)
  unfolding initialize
  initialize-Asks = bind-Asks (call-Asks p m.c_initialize) (λ rv.
      branch-Asks (not_ok rv) (λ e. leave-Asks o (returned 2) (λ d. p))
        (λ e. pure-Asks (λ d. p) tt))

  pub finalize-Asks : Asks m E p finalize (λ d. p)
  unfolding finalize
  finalize-Asks = bind-Asks (call-Asks p m.c_finalize) (λ rv. pure-Asks (λ d. p) tt)

  give_up-Asks : {A : Type 0} (code : ℕ) (q : A → m.World → Type 0) → Asks m E p (give_up code) q
  unfolding give_up
  give_up-Asks code q = bind-Asks finalize-Asks (λ d. leave-Asks o (returned code) q)

  first_slot-Asks : Asks m E p first_slot (λ slot. p)
  unfolding first_slot
  first_slot-Asks = bind-Asks (call-Asks p (m.c_get_slot_list ck_true empty_list)) (λ (rv, slots).
      branch-Asks (not_ok rv || slots.count == 0) (λ e. give_up-Asks 1 (λ slot. p))
        (λ e. bind-Asks (call-Asks p (m.c_get_slot_list ck_true (room slots.count))) (λ (rv, found).
          branch-Asks (not_ok rv) (λ e. give_up-Asks 1 (λ slot. p))
            (λ e. pure-Asks (λ slot. p) (get_or (listed found.list) 0 0)))))

  open_on-Asks : (slot : ℕ) → Asks m E p (open_on slot) (λ sess. p)
  unfolding open_on
  open_on-Asks slot = bind-Asks (call-Asks p (m.c_open_session slot 0)) (λ (rv, sess).
      branch-Asks (not_ok rv) (λ e. give_up-Asks 1 (λ sess. p)) (λ e. pure-Asks (λ sess. p) sess))

  pub connect-Asks : (path : Bytes) → Asks m E p (connect path) (λ sess. p)
  unfolding connect
  connect-Asks path =
      bind-Asks (load-Asks path) (λ d.
        bind-Asks initialize-Asks (λ d. bind-Asks first_slot-Asks (λ slot. open_on-Asks slot)))
