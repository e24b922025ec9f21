-- ===== src/Infnoise/Paths.antt =====
-- `list_paths` of infnoise.rs: which nodes it names, and in which order.
use mathlib.Core.List.{Perm}
use mathlib.Core.List.Perm
use pkcs11_rand.Base.{ℕ, ◌≤◌, ◌≡◌, List, [], ◌∷◌, map, ok, arith, leb, Bool-cases, inl, inr}
use pkcs11_rand.Host.{Bytes, entries, Host, Sys}
use pkcs11_rand.Infnoise.Nodes.{Nodes, keyed-Nodes}
use pkcs11_rand.Infnoise.{keyed, insert_key, sort_by_key, second, list_paths, dev_dir}

abbrev pub AllFrom : ℕ → List (ℕ × Bytes) → Type 0
AllFrom k [] = Unit {0}
AllFrom k ((j, p) ∷ es) = (k ≤ j) × AllFrom k es

abbrev pub IsSorted : List (ℕ × Bytes) → Type 0
IsSorted [] = Unit {0}
IsSorted ((k, p) ∷ es) = AllFrom k es × IsSorted es

AllFrom-mono : (j k : ℕ) (es : List (ℕ × Bytes)) → j ≤ k → AllFrom k es → AllFrom j es
AllFrom-mono j k [] h a = tt
AllFrom-mono j k ((i, p) ∷ es) h a = (omega arith, AllFrom-mono j k es h a.1)

insert_key-AllFrom :
    (j k : ℕ) (p : Bytes) (es : List (ℕ × Bytes))
    → j ≤ k
    → AllFrom j es
    → AllFrom j (insert_key (k, p) es)
unfolding insert_key
insert_key-AllFrom j k p [] h a = (h, tt)
insert_key-AllFrom j k p ((i, q) ∷ es) h a = ground (arith, insert_key-AllFrom j k p es h a.1)

insert_key-IsSorted :
    (k : ℕ) (p : Bytes) (es : List (ℕ × Bytes)) → IsSorted es → IsSorted (insert_key (k, p) es)
unfolding insert_key
insert_key-IsSorted k p [] s = (tt, tt)
insert_key-IsSorted k p ((j, q) ∷ es) s =
    ground (arith, insert_key-IsSorted k p es s.1, AllFrom-mono k j es, insert_key-AllFrom j k p es)

sort-IsSorted : (es : List (ℕ × Bytes)) → IsSorted (sort_by_key es)
unfolding sort_by_key
sort-IsSorted [] = tt
sort-IsSorted ((k, p) ∷ es) = insert_key-IsSorted k p (sort_by_key es) (sort-IsSorted es)

insert_key-perm : (e : ℕ × Bytes) (es : List (ℕ × Bytes)) → Perm (insert_key e es) (e ∷ es)
unfolding insert_key
insert_key-perm (k, p) [] = Perm.refl _
insert_key-perm (k, p) ((j, q) ∷ es) = elim (Bool-cases (leb k j)) [
  | inl first ↦ rw first (Perm.refl _)
  | inr later ↦
      rw later
        (Perm.trans (Perm.cons (j, q) (insert_key-perm (k, p) es)) (Perm.swap (k, p) (j, q) es))
]

sort-perm : (es : List (ℕ × Bytes)) → Perm (sort_by_key es) es
unfolding sort_by_key
sort-perm [] = Perm.refl []
sort-perm (e ∷ es) = Perm.trans (insert_key-perm e (sort_by_key es)) (Perm.cons e (sort-perm es))

-- If `/dev` can be read: `list_paths` returns the paths of the directory's `infnoiseN` entries,
-- each as often as the directory has it, in the order of their numbers, where a number of 2^64
-- or more counts as 0. Such an entry is `infnoise` and at least one decimal digit, and nothing
-- else.
pub list_paths-IsSorted :
    ⦃h : Host⦄ (s : Sys h) (names : List Bytes) (w : h.World)
    → h.read_dir dev_dir s.world ≡ (entries names, w)
    → (es nodes : List (ℕ × Bytes)) × (list_paths s ≡ (ok (map second es), record s { world = w }))
      × Nodes names nodes
      × Perm es nodes
      × IsSorted es
unfolding list_paths
list_paths-IsSorted s names w e = (
  sort_by_key (keyed names),
  keyed names,
  rw e,
  keyed-Nodes names,
  sort-perm (keyed names),
  sort-IsSorted (keyed names),
)
