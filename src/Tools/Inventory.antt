-- ===== src/Tools/Inventory.antt =====
-- How crates/p11rand-tools/src/bin/p11rand-list.rs ends, and how it leaves the source layers.
use mathlib.Core.Path.{subst}
use pkcs11_rand.Base.{
  ℕ, ◌+◌, ◌%◌, ◌^◌, ◌<◌, ◌≡◌, refl, sym, ◌∙◌, ◌↔◌, Bool, true, false, List, [], ◌∷◌, Result, ok,
  err, Done, length, ltb, ltb→lt, ltb→le, map_err, arith, if◌then◌else◌,
}
use pkcs11_rand.Host.{Bytes, Host, Sys}
use pkcs11_rand.Iso7816 as Cards
use pkcs11_rand.Iso7816.Source as CardSource
use pkcs11_rand.Iso7816.Quiet.{
  IsQuiet, bind-IsQuiet, connect-IsQuiet, list_readers-IsQuiet, open_reader-IsQuiet,
}
use pkcs11_rand.Infnoise as Devices
use pkcs11_rand.Pool.{resource}
use pkcs11_rand.Pkcs11.Context.{Held, Entered, first_init, last_shutdown}
use pkcs11_rand.Tools.ListTool.{
  Tally, nothing_yet, card_line, probe_readers, listed_readers, initialized, list_cards,
  device_line, probe_paths, listed_paths, list_devices, inventory,
}
use pkcs11_rand.Tools.Tallied.{usables, list_cards-Counts, list_devices-Counts, tallied}

module _ ⦃h : Host⦄ where
  atr_text-global :
      (card : h.Card) (r : Result Cards.Error Bytes) (s : Sys h)
      → (CardSource.with_atr card r s).1.global ≡ s.global
  atr_text-global card (err e) s = refl
  atr_text-global card (ok []) s = refl
  atr_text-global card (ok (b ∷ bs)) s = refl

  read_atr-IsQuiet : (r : Bytes) → IsQuiet h (CardSource.read_atr r)
  unfolding CardSource.read_atr
  read_atr-IsQuiet r =
      bind-IsQuiet (Cards.connect r) _ (connect-IsQuiet r)
        (λ card. record { at = λ s. atr_text-global card _ _ })

  card_line-global :
      (r : Bytes) (src : Result Cards.Error (CardSource.Source h)) (t : Tally) (s : Sys h)
      → (card_line r src t s).1.global ≡ s.global
  card_line-global r (ok src) t s = (read_atr-IsQuiet r).at _
  card_line-global r (err Cards.no_card) t s = refl
  card_line-global r (err Cards.unsupported) t s = (read_atr-IsQuiet r).at s
  card_line-global r (err Cards.transport) t s = refl

  probe_readers-global :
      (rs : List Bytes) (t : Tally) (s : Sys h) → (probe_readers rs t s).1.global ≡ s.global
  unfolding probe_readers
  probe_readers-global [] t s = refl
  probe_readers-global (r ∷ rs) t s =
      let o = CardSource.open_reader r s in
      let l = card_line r o.0 t o.1 in
      probe_readers-global rs l.0 l.1 ∙ card_line-global r o.0 t o.1 ∙ (open_reader-IsQuiet r).at s

  listed_readers-global :
      (r : Result Cards.Error (List Bytes)) (s : Sys h) → (listed_readers r s).1.global ≡ s.global
  listed_readers-global (err e) s = refl
  listed_readers-global (ok rs) s = probe_readers-global rs nothing_yet s

  initialized-Held :
      (r : Result Cards.Error Done) (s : Sys h)
      → Entered true (map_err resource r) s.global
      → Held h false (initialized r s).1.global
  initialized-Held (err e) s v = v
  initialized-Held (ok d) s v =
      let o = Cards.list_readers s in
      let e = listed_readers-global o.0 o.1 ∙ list_readers-IsQuiet.at s in
      last_shutdown (listed_readers o.0 o.1).1 (subst (Held h true) (sym e) v)

  list_cards-Held : (s : Sys h) → Held h false s.global → Held h false (list_cards s).1.global
  unfolding list_cards
  list_cards-Held s v =
      initialized-Held (Cards.global_init s).0 (Cards.global_init s).1 (first_init s v)

  device_line-global :
      (p : Bytes) (src : Result Devices.Error (Devices.Source h)) (t : Tally) (s : Sys h)
      → (device_line p src t s).1.global ≡ s.global
  device_line-global p (ok src) t s = refl
  device_line-global p (err e) t s = refl

  probe_paths-global :
      (ps : List Bytes) (t : Tally) (s : Sys h) → (probe_paths ps t s).1.global ≡ s.global
  unfolding probe_paths Devices.open_path
  probe_paths-global [] t s = refl
  probe_paths-global (p ∷ ps) t s =
      let o = Devices.open_path p s in
      let l = device_line p o.0 t o.1 in
      probe_paths-global ps l.0 l.1 ∙ device_line-global p o.0 t o.1

  listed_paths-global :
      (r : Result Devices.Error (List Bytes)) (s : Sys h) → (listed_paths r s).1.global ≡ s.global
  listed_paths-global (err e) s = refl
  listed_paths-global (ok ps) s = probe_paths-global ps nothing_yet s

  list_devices-global : (s : Sys h) → (list_devices s).1.global ≡ s.global
  unfolding list_devices Devices.list_paths
  list_devices-global s = listed_paths-global (Devices.list_paths s).0 (Devices.list_paths s).1

  exit_code : (b : Bool) (n : ℕ) → ltb 0 n ≡ b → ◌≡◌ {A = ℕ} (if b then 0 else 1) 0 ↔ (0 < n)
  exit_code true n e = ((λ z. ltb→lt 0 n e), (λ z. refl))
  exit_code false n e =
      ((λ z. absurd (omega (arith, z))), (λ z. absurd (omega (arith, z, ltb→le 0 n e))))

  -- For a process without a PC/SC context, and fewer than 2^32 lines: p11rand-list exits with
  -- 0 exactly if one of its lines says `usable`, its two counts are the numbers of such lines,
  -- and it leaves the PC/SC context released.
  pub inventory-Counted :
      (s : Sys h)
      → Held h false s.global
      → length (inventory s).cards.lines + length (inventory s).devices.lines < 2 ^ 32
      → let o = inventory s in
        ((o.code ≡ 0) ↔ (0 < usables o.cards.lines + usables o.devices.lines))
        × (o.cards.usable ≡ usables o.cards.lines)
        × (o.devices.usable ≡ usables o.devices.lines)
        × Held h false o.sys.global
  unfolding inventory
  inventory-Counted s v f =
      let a = (list_cards s).0 in
      let t = (list_cards s).1 in
      let b = (list_devices t).0 in
      let (p, q, r) = tallied a b (list_cards-Counts s) (list_devices-Counts t) f in
      let n = (a.usable + b.usable) % 2 ^ 32 in
      let (to, from) = exit_code (ltb 0 n) n refl in
      (
        (
          (λ z. subst (λ (k : ℕ). 0 < k) r (to z)),
          (λ z. from (subst (λ (k : ℕ). 0 < k) (sym r) z)),
        ),
        p,
        q,
        subst (Held h false) (sym (list_devices-global t)) (list_cards-Held s v),
      )
