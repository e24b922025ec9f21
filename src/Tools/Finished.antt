-- ===== src/Tools/Finished.antt =====
-- The tools of crates/p11rand-tools/src/bin keep the order of the calls.
use pkcs11_rand.Base.{ℕ, Bool, true, false, ◌==◌, ◌||◌, get_or, if◌then◌else◌}
use pkcs11_rand.Host.{Bytes}
use pkcs11_rand.Pkcs11.Slots.{SlotList}
use pkcs11_rand.Tools.{Machine, returned, not_ok, pure, leave, call}
use pkcs11_rand.Tools.Connect.{
  load, initialize, finalize, give_up, first_slot, ck_true, empty_list, room, open_on, connect,
  listed,
}
use pkcs11_rand.Tools.Protocol.{
  Phase, unloaded, ready, opened, after_initialize, after_open, Lifecycle, Goes, bind-Goes,
  pure-Goes, leave-Goes, branch-Goes, call-Goes, load-Goes,
}

module _ {m : Machine} {In : Phase → m.Module → Type 0} (laws : Lifecycle m In) where
  pub load_lem : (path : Bytes) → Goes m In unloaded (load path) (λ d. unloaded)
  unfolding load
  load_lem path =
      bind-Goes (load-Goes unloaded path)
        (λ b. branch-Goes b (pure-Goes (λ d. unloaded) tt) (leave-Goes 2 (λ d. unloaded)))

  initialized :
      (b : Bool)
      → Goes m In
          (if b then unloaded else ready)
          (if b then leave (returned 2) else pure tt)
          (λ d. ready)
  initialized true = leave-Goes 2 (λ d. ready)
  initialized false = pure-Goes (λ d. ready) tt

  pub initialize-Goes : Goes m In unloaded initialize (λ d. ready)
  unfolding initialize
  initialize-Goes =
      bind-Goes (call-Goes m.c_initialize after_initialize laws.on_initialize)
        (λ rv. initialized (not_ok rv))

  pub finalize-Goes : Goes m In ready finalize (λ d. unloaded)
  unfolding finalize
  finalize-Goes =
      bind-Goes (call-Goes m.c_finalize (λ rv. unloaded) laws.on_finalize)
        (λ rv. pure-Goes (λ d. unloaded) tt)

  give_up-Goes : {A : Type 0} (code : ℕ) (q : A → Phase) → Goes m In ready (give_up code) q
  unfolding give_up
  give_up-Goes code q = bind-Goes finalize-Goes (λ d. leave-Goes code q)

  pub list-Goes :
      (present : ℕ) (l : SlotList)
      → Goes m In ready (call (m.c_get_slot_list present l)) (λ r. ready)
  list-Goes present l =
      call-Goes (m.c_get_slot_list present l) (λ r. ready) (laws.on_list present l)

  first_slot-Goes : Goes m In ready first_slot (λ slot. ready)
  unfolding first_slot
  first_slot-Goes = bind-Goes (list-Goes ck_true empty_list) (λ (rv, slots).
      branch-Goes (not_ok rv || slots.count == 0) (give_up-Goes 1 (λ slot. ready)) (
        bind-Goes (list-Goes ck_true (room slots.count)) (λ (rv, found).
          branch-Goes (not_ok rv) (give_up-Goes 1 (λ slot. ready))
            (pure-Goes (λ slot. ready) (get_or (listed found.list) 0 0)))))

  sessioned :
      (b : Bool) (sess : ℕ)
      → Goes m In (if b then ready else opened sess) (if b then give_up 1 else pure sess) opened
  sessioned true sess = give_up-Goes 1 opened
  sessioned false sess = pure-Goes opened sess

  open_on-Goes : (slot : ℕ) → Goes m In ready (open_on slot) opened
  unfolding open_on
  open_on-Goes slot =
      bind-Goes (call-Goes (m.c_open_session slot 0) after_open (laws.on_open slot 0))
        (λ (rv, sess). sessioned (not_ok rv) sess)

  pub connect-Goes : (path : Bytes) → Goes m In unloaded (connect path) opened
  unfolding connect
  connect-Goes path =
      bind-Goes (load_lem path) (λ d.
        bind-Goes initialize-Goes (λ d. bind-Goes first_slot-Goes (λ slot. open_on-Goes slot)))

  pub generate-Goes :
      (sess : ℕ) (buf : Bytes) (n : ℕ)
      → Goes m In (opened sess) (call (m.c_generate_random sess buf n)) (λ r. opened sess)
  generate-Goes sess buf n =
      call-Goes (m.c_generate_random sess buf n) (λ r. opened sess) (laws.on_generate sess buf n)

  pub close-Goes :
      (sess : ℕ) → Goes m In (opened sess) (call (m.c_close_session sess)) (λ rv. ready)
  close-Goes sess = call-Goes (m.c_close_session sess) (λ rv. ready) (laws.on_close sess)
