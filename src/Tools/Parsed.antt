-- ===== src/Tools/Parsed.antt =====
-- What the tools of crates/p11rand-tools/src/bin accept on their command lines, and how they refuse the
-- rest.
use pkcs11_rand.Base.{
  ℕ, ◌≡◌, ◌≢◌, refl, sym, ap, ◌∙◌, ◌⊎◌, inl, inr, Bool, true, false, not, Option, none, some, List,
  [], ◌∷◌, ◌++◌, Result, ok, err, if◌then◌else◌,
}
use pkcs11_rand.Host.{Bytes}
use pkcs11_rand.Tools.Args.{
  ArgTurn, refuse, next, skip, leftover, parse_loop, starts_dash, is_help, more, is_nil,
}

-- Some argument asks for help.
abbrev pub Helps : List Bytes → Type 0
Helps [] = ⊥
Helps (s ∷ argv) = (is_help s ≡ true) ⊎ Helps argv

-- An error is 2, or 0 if an argument asks for help.
abbrev pub IsRefusal : List Bytes → ℕ → Type 0
IsRefusal argv c = (c ≡ 2) ⊎ ((c ≡ 0) × Helps argv)

-- `path` is the last argument, and does not begin with a dash.
abbrev pub IsLast : List Bytes → Bytes → Type 0
IsLast argv path = (front : List Bytes) × (argv ≡ front ++ (path ∷ [])) × (starts_dash path ≡ false)

no_more : (v : Option Bytes) → more v ≡ false → v ≡ none
no_more none e = refl
no_more (some v) e = absurd (cc)

no_dash : (b : Bool) → not b ≡ true → b ≡ false
no_dash true e = absurd (cc)
no_dash false e = refl

module _ {A : Type 0} (path : A → Bytes) (Good : A → Type 0) where
  abbrev PathOf : List Bytes → A → A → Type 0
  PathOf argv a b = (path b ≡ path a) ⊎ IsLast argv (path b)

  -- One turn of the loop keeps what is good, and only its last one sets the path.
  abbrev pub TurnLaw : Bytes → Option Bytes → A → ArgTurn A → Type 0
  TurnLaw s v a (refuse c) = (c ≡ 2) ⊎ ((c ≡ 0) × (is_help s ≡ true))
  TurnLaw s v a (next b) =
      Good b × ((path b ≡ path a) ⊎ ((path b ≡ s) × (v ≡ none) × (starts_dash s ≡ false)))
  TurnLaw s v a (skip b) = Good b × (path b ≡ path a)

  -- What a command line gives.
  abbrev pub LoopLaw : List Bytes → A → Result ℕ A → Type 0
  LoopLaw argv a (ok b) = Good b × PathOf argv a b
  LoopLaw argv a (err c) = IsRefusal argv c

  abbrev pub ParseLaw : List Bytes → Result ℕ A → Type 0
  ParseLaw argv (ok b) = Good b × (path b ≢ []) × IsLast argv (path b)
  ParseLaw argv (err c) = IsRefusal argv c

  later_path :
      (s : Bytes) (argv : List Bytes) (a b c : A)
      → path b ≡ path a
      → PathOf argv b c
      → PathOf (s ∷ argv) a c
  later_path s argv a b c e (inl f) = inl (f ∙ e)
  later_path s argv a b c e (inr (front, f, g)) = inr (s ∷ front, ap (◌∷◌ s) f, g)

  later-IsRefusal :
      (s : Bytes) (argv : List Bytes) (c : ℕ) → IsRefusal argv c → IsRefusal (s ∷ argv) c
  later-IsRefusal s argv c (inl e) = inl e
  later-IsRefusal s argv c (inr (e, h)) = inr (e, inr h)

  later :
      (s : Bytes) (argv : List Bytes) (a b : A) (r : Result ℕ A)
      → path b ≡ path a
      → LoopLaw argv b r
      → LoopLaw (s ∷ argv) a r
  later s argv a b (ok c) e l = (l.0, later_path s argv a b c e l.1)
  later s argv a b (err c) e l = later-IsRefusal s argv c l

  refused_here :
      (s : Bytes) (argv : List Bytes) (c : ℕ)
      → (c ≡ 2) ⊎ ((c ≡ 0) × (is_help s ≡ true))
      → IsRefusal (s ∷ argv) c
  refused_here s argv c (inl e) = inl e
  refused_here s argv c (inr (e, h)) = inr (e, inl h)

  last_turn :
      (s : Bytes) (a : A) (t : ArgTurn A) → TurnLaw s none a t → LoopLaw (s ∷ []) a (leftover t)
  last_turn s a (refuse c) l = refused_here s [] c l
  last_turn s a (next b) (g, inl e) = (g, inl e)
  last_turn s a (next b) (g, inr (e, v, d)) =
      (g, inr ([], ap (λ x. x ∷ []) (sym e), ap starts_dash e ∙ d))
  last_turn s a (skip b) l = (l.0, inl l.1)

  module _ (turn : Bytes → Option Bytes → A → ArgTurn A)
      (law : (s : Bytes) (v : Option Bytes) (a : A) → Good a → TurnLaw s v a (turn s v a)) where
    went_on :
        (s v : Bytes) (rest : List Bytes) (a : A) (t : ArgTurn A)
        → TurnLaw s (some v) a t
        → ((b : A) → Good b → LoopLaw (v ∷ rest) b (parse_loop turn (v ∷ rest) b))
        → ((b : A) → Good b → LoopLaw rest b (parse_loop turn rest b))
        → LoopLaw (s ∷ v ∷ rest) a (elim t [
          | refuse c ↦ err c
          | next b ↦ parse_loop turn (v ∷ rest) b
          | skip b ↦ parse_loop turn rest b
        ])
    went_on s v rest a (refuse c) l f g = refused_here s (v ∷ rest) c l
    went_on s v rest a (next b) (q, inl e) f g =
        later s (v ∷ rest) a b (parse_loop turn (v ∷ rest) b) e (f b q)
    went_on s v rest a (next b) (q, inr (e, n, d)) f g = absurd (cc)
    went_on s v rest a (skip b) (q, e) f g =
        later s (v ∷ rest) a b (parse_loop turn rest b) e
          (later v rest b b (parse_loop turn rest b) refl (g b q))

    pub loop-LoopLaw :
        (argv : List Bytes) (a : A) → Good a → LoopLaw argv a (parse_loop turn argv a)
    unfolding parse_loop
    loop-LoopLaw [] a q = (q, inl refl)
    loop-LoopLaw (s ∷ []) a q = last_turn s a (turn s none a) (law s none a q)
    loop-LoopLaw (s ∷ v ∷ rest) a q =
        went_on s v rest a (turn s (some v) a) (law s (some v) a q)
          (λ b g. loop-LoopLaw (v ∷ rest) b g) (λ b g. loop-LoopLaw rest b g)

  -- With no path before the first argument, the loop's path is the last one.
  path_given :
      (b : Bool) (argv : List Bytes) (a c : A)
      → is_nil (path c) ≡ b
      → path a ≡ []
      → LoopLaw argv a (ok c)
      → ParseLaw argv (if b then err 2 else ok c)
  path_given true argv a c e n l = inl refl
  path_given false argv a c e n (g, inl p) =
      let k : is_nil (path c) ≡ true = ap is_nil (p ∙ n) in absurd (cc)
  path_given false argv a c e n (g, inr l) =
      (g, (λ p. let k : is_nil (path c) ≡ true = ap is_nil p in cc), l)

  abbrev pub given : Result ℕ A → Result ℕ A
  given (err c) = err c
  given (ok a) = if is_nil (path a) then err 2 else ok a

  pub given-ParseLaw :
      (argv : List Bytes) (a : A) (r : Result ℕ A)
      → path a ≡ []
      → LoopLaw argv a r
      → ParseLaw argv (given r)
  given-ParseLaw argv a (err c) n l = l
  given-ParseLaw argv a (ok c) n l = path_given (is_nil (path c)) argv a c refl n l

  pub branch-TurnLaw :
      (s : Bytes) (v : Option Bytes) (a : A) (b : Bool) (x y : ArgTurn A)
      → (b ≡ true → TurnLaw s v a x)
      → (b ≡ false → TurnLaw s v a y)
      → TurnLaw s v a (if b then x else y)
  branch-TurnLaw s v a true x y f g = f refl
  branch-TurnLaw s v a false x y f g = g refl

  -- The last three arms of each `match`.
  pub rest-TurnLaw :
      (s : Bytes) (v : Option Bytes) (a b : A)
      → Good b
      → path b ≡ s
      → TurnLaw s v a (
          if is_help s
          then refuse 0
          else if not (starts_dash s)
          then (if more v then refuse 2 else next b)
          else refuse 2)
  rest-TurnLaw s v a b g e =
      branch-TurnLaw s v a (is_help s) _ _ (λ h. inr (refl, h))
        (λ h.
          branch-TurnLaw s v a (not (starts_dash s)) _ _
            (λ d.
              branch-TurnLaw s v a (more v) _ _ (λ m. inl refl)
                (λ m. (g, inr (e, no_more v m, no_dash (starts_dash s) d))))
            (λ d. inl refl))
