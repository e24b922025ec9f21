-- ===== src/Iso7816/Quiet.antt =====
-- No call of iso7816.rs but `global_init` and `global_shutdown` touches the shared context.
use pkcs11_rand.Base.{
  ℕ, ◌≡◌, refl, ◌∙◌, Bool, true, false, List, [], ◌∷◌, Result, ok, err, Act, ◌>>=◌, if◌then◌else◌,
  arith, and_then,
}
use pkcs11_rand.Host.{Bytes, Host, Sys}
use pkcs11_rand.Iso7816.{
  Error, AppId, fail, pure, list_readers, select_aid, try_get_challenge, attempt, probe_aids,
  probe_app, connect,
}
use pkcs11_rand.Iso7816.Source.{Source, open_reader, probe}

-- The action leaves the context and its count alone, whether it succeeds or not.
pub record IsQuiet (h : Host) {E A : Type 0} (m : Act (Sys h) E A) : Type 0 where
  pub at : (s : Sys h) → (m s).1.global ≡ s.global

module _ ⦃h : Host⦄ where
  and_then-global :
      {E A B : Type 0} (r : Result E A) (f : A → Act (Sys h) E B) (s : Sys h)
      → ((a : A) → IsQuiet h (f a))
      → (and_then r f s).1.global ≡ s.global
  and_then-global (ok a) f s q = (q a).at s
  and_then-global (err e) f s q = refl

  pub bind-IsQuiet :
      {E A B : Type 0} (m : Act (Sys h) E A) (f : A → Act (Sys h) E B)
      → IsQuiet h m
      → ((a : A) → IsQuiet h (f a))
      → IsQuiet h (m >>= f)
  bind-IsQuiet m f qm qf = record { at = λ s. and_then-global (m s).0 f (m s).1 qf ∙ qm.at s }

  if-IsQuiet :
      {E A : Type 0} (b : Bool) (m n : Act (Sys h) E A)
      → IsQuiet h m
      → IsQuiet h n
      → IsQuiet h (if b then m else n)
  if-IsQuiet true m n qm qn = qm
  if-IsQuiet false m n qm qn = qn

  pure-IsQuiet : {A : Type 0} (a : A) → IsQuiet h (pure a)
  pure-IsQuiet a = record { at = λ s. refl }

  fail-IsQuiet : {A : Type 0} (e : Error) → IsQuiet h (fail {A = A} e)
  fail-IsQuiet e = record { at = λ s. refl }

  pub list_readers-IsQuiet : IsQuiet h list_readers
  unfolding list_readers
  list_readers-IsQuiet = record { at = λ s. ground arith }

  select_aid-IsQuiet : (card : h.Card) (aid : Bytes) → IsQuiet h (select_aid card aid)
  unfolding select_aid
  select_aid-IsQuiet card aid = record { at = λ s. ground arith }

  try_get_challenge-IsQuiet :
      (card : h.Card) (n : ℕ) (out : Bytes) → IsQuiet h (try_get_challenge card n out)
  unfolding try_get_challenge
  try_get_challenge-IsQuiet card n out = record { at = λ s. ground arith }

ruleset quiet_rules = (
  bind-IsQuiet, if-IsQuiet, pure-IsQuiet, fail-IsQuiet, select_aid-IsQuiet,
  try_get_challenge-IsQuiet,
)

module _ ⦃h : Host⦄ where
  attempt-IsQuiet :
      (card : h.Card) (app : AppId) (next : Act (Sys h) Error AppId)
      → IsQuiet h next
      → IsQuiet h (attempt card app next)
  unfolding attempt
  attempt-IsQuiet card app next q = search quiet_rules

  probe_aids-IsQuiet :
      (card : h.Card) (aids : List (AppId × Bytes)) → IsQuiet h (probe_aids card aids)
  unfolding probe_aids
  probe_aids-IsQuiet card [] = search quiet_rules
  probe_aids-IsQuiet card ((app, aid) ∷ rest) =
      let next = probe_aids-IsQuiet card rest in
      bind-IsQuiet (select_aid card aid)
        (λ selected.
          if selected then attempt card app (probe_aids card rest) else probe_aids card rest)
        (select_aid-IsQuiet card aid)
        (λ selected. if-IsQuiet selected _ _ (attempt-IsQuiet card app _ next) next)

  probe_app-IsQuiet : (card : h.Card) → IsQuiet h (probe_app card)
  unfolding probe_app
  probe_app-IsQuiet card = search (quiet_rules, probe_aids-IsQuiet)

  pub connect-IsQuiet : (reader : Bytes) → IsQuiet h (connect reader)
  unfolding connect
  connect-IsQuiet reader = record { at = λ s. ground arith }

  probe-IsQuiet : (card : h.Card) → IsQuiet h (probe card)
  probe-IsQuiet card = record { at = λ s. ground (arith, (probe_app-IsQuiet card).at s) }

  pub open_reader-IsQuiet : (reader : Bytes) → IsQuiet h (open_reader reader)
  unfolding open_reader
  open_reader-IsQuiet reader = search (quiet_rules, connect-IsQuiet, probe-IsQuiet)

  -- A source is opened with the chunk at 128.
  pub open_reader-max_chunk :
      (reader : Bytes) (s : Sys h) (src : Source h)
      → (open_reader reader s).0 ≡ ok src
      → src.max_chunk ≡ 128
  unfolding open_reader
  open_reader-max_chunk reader s src e = ground arith
