-- ===== src/Infnoise/Fresh.antt =====
-- `list_paths` of infnoise.rs names no node twice.
use pkcs11_rand.Base.{
  ℕ, ◌≡◌, ◌≢◌, sym, List, [], ◌∷◌, map, none, some, Option-cases, Bool-cases, inl, inr, Apart,
  Fresh, leb,
}
use pkcs11_rand.Host.{Bytes}
use pkcs11_rand.Infnoise.{node_suffix, parse_u64, path_of, keyed, insert_key, sort_by_key, second}

path_of-inj : (a b : Bytes) → path_of a ≡ path_of b → a ≡ b
path_of-inj a b e = cc

skipped : (n : Bytes) (ns : List Bytes) → node_suffix n ≡ none → keyed (n ∷ ns) ≡ keyed ns
unfolding keyed
skipped n ns e = rw (e, keyed)

kept :
    (n : Bytes) (ns : List Bytes) (suffix : Bytes)
    → node_suffix n ≡ some suffix
    → keyed (n ∷ ns) ≡ (parse_u64 suffix, path_of n) ∷ keyed ns
unfolding keyed
kept n ns suffix e = rw (e, keyed)

keyed-Apart :
    (name : Bytes) (names : List Bytes)
    → Apart name names
    → Apart (path_of name) (map second (keyed names))
unfolding keyed
keyed-Apart name [] a = tt
keyed-Apart name (n ∷ ns) a = elim (Option-cases (node_suffix n)) [
  | inl e ↦ rw (skipped n ns e) (keyed-Apart name ns a.1)
  | inr (x, e) ↦ rw (kept n ns x e) (λ q. a.0 (path_of-inj n name q), keyed-Apart name ns a.1)
]

keyed-Fresh : (names : List Bytes) → Fresh names → Fresh (map second (keyed names))
unfolding keyed
keyed-Fresh [] f = tt
keyed-Fresh (n ∷ ns) f = elim (Option-cases (node_suffix n)) [
  | inl e ↦ rw (skipped n ns e) (keyed-Fresh ns f.1)
  | inr (x, e) ↦ rw (kept n ns x e) (keyed-Apart n ns f.0, keyed-Fresh ns f.1)
]

insert-Apart :
    (q : Bytes) (k : ℕ) (p : Bytes) (es : List (ℕ × Bytes))
    → p ≢ q
    → Apart q (map second es)
    → Apart q (map second (insert_key (k, p) es))
unfolding insert_key
insert-Apart q k p [] ne a = (ne, tt)
insert-Apart q k p ((j, r) ∷ es) ne a = elim (Bool-cases (leb k j)) [
  | inl e ↦ rw e (ne, a)
  | inr e ↦ rw e (a.0, insert-Apart q k p es ne a.1)
]

insert-Fresh :
    (k : ℕ) (p : Bytes) (es : List (ℕ × Bytes))
    → Apart p (map second es)
    → Fresh (map second es)
    → Fresh (map second (insert_key (k, p) es))
unfolding insert_key
insert-Fresh k p [] a f = (tt, tt)
insert-Fresh k p ((j, r) ∷ es) a f = elim (Bool-cases (leb k j)) [
  | inl e ↦ rw e (a, f)
  | inr e ↦ rw e (insert-Apart r k p es (λ q. a.0 (sym q)) f.0, insert-Fresh k p es a.1 f.1)
]

sort-Apart :
    (q : Bytes) (es : List (ℕ × Bytes))
    → Apart q (map second es)
    → Apart q (map second (sort_by_key es))
unfolding sort_by_key
sort-Apart q [] a = tt
sort-Apart q ((k, p) ∷ es) a = insert-Apart q k p (sort_by_key es) a.0 (sort-Apart q es a.1)

sort-Fresh : (es : List (ℕ × Bytes)) → Fresh (map second es) → Fresh (map second (sort_by_key es))
unfolding sort_by_key
sort-Fresh [] f = tt
sort-Fresh ((k, p) ∷ es) f =
    insert-Fresh k p (sort_by_key es) (sort-Apart p es f.0) (sort-Fresh es f.1)

pub listed-Fresh :
    (names : List Bytes) → Fresh names → Fresh (map second (sort_by_key (keyed names)))
listed-Fresh names f = sort-Fresh (keyed names) (keyed-Fresh names f)
