-- ===== src/Iso7816/Listed.antt =====
-- `list_readers` of iso7816.rs names no reader twice.
use mathlib.Core.Path.{subst}
use pkcs11_rand.Base.{
  ℕ, ◌≡◌, refl, ap, inl, inr, Bool-cases, some, Option-cases, List, [], map, Result, ok, err, leb,
  Fresh, ok_inj,
}
use pkcs11_rand.Host.{
  Bytes, PcscError, no_smartcard, removed_card, unpowered_card, unresponsive_card,
  no_readers_available, other, Host, Sys, ListLaws,
}
use pkcs11_rand.Iso7816.{transport, names_of, read_names, list_readers}

module _ ⦃h : Host⦄ (laws : ListLaws h) where
  names_of-Fresh :
      (lossy : Bytes → Bytes) (r : Result PcscError (List Bytes)) (names : List Bytes)
      → ((ns : List Bytes) → r ≡ ok ns → Fresh (map lossy ns))
      → names_of lossy r ≡ ok names
      → Fresh names
  names_of-Fresh lossy (ok ns) names f e =
      let q : map lossy ns ≡ names = cc in subst Fresh q (f ns refl)
  names_of-Fresh lossy (err no_readers_available) names f e =
      let q : [] ≡ names = cc in subst Fresh q tt
  names_of-Fresh lossy (err no_smartcard) names f e = absurd (cc)
  names_of-Fresh lossy (err removed_card) names f e = absurd (cc)
  names_of-Fresh lossy (err unpowered_card) names f e = absurd (cc)
  names_of-Fresh lossy (err unresponsive_card) names f e = absurd (cc)
  names_of-Fresh lossy (err (other n)) names f e = absurd (cc)

  read_names-Fresh :
      (ctx : h.Context) (r : Result PcscError ℕ) (s : Sys h) (names : List Bytes)
      → (read_names ctx r s).0 ≡ ok names
      → Fresh names
  read_names-Fresh ctx (err x) s names e = let q : [] ≡ names = cc in subst Fresh q tt
  read_names-Fresh ctx (ok len) s names e = elim (Bool-cases (leb len 1)) [
    | inl few ↦ subst Fresh (ok_inj (rw few at e)) tt
    | inr more ↦
        names_of-Fresh h.to_string_lossy (h.list_readers ctx len s.world).0 names
          (λ ns t.
            laws.list_readers_fresh ctx len s.world (h.list_readers ctx len s.world).1 ns
              (ap (λ r. (r, (h.list_readers ctx len s.world).1)) t))
          (rw more at e)
  ]

  pub list_readers-Fresh :
      (s : Sys h) (names : List Bytes) → (list_readers s).0 ≡ ok names → Fresh names
  unfolding list_readers
  list_readers-Fresh s names e = elim (Option-cases s.ctx) [
    | inl q ↦ let x : (list_readers s).0 ≡ err transport = rw (q, list_readers) in absurd (cc)
    | inr (ctx, q) ↦
        let l = h.list_readers_len ctx s.world in
        read_names-Fresh ctx l.0
          (record { global = record { ctx = some ctx; refs = s.refs }; world = l.1 }) names
          (rw (q, list_readers) at e)
  ]
