-- ===== src/Merge/Keys.antt =====
-- The loop of `dict_merge` of dict_mixin.py, and what its turns keep.
use text.Mathlib.Text.{◌==◌ as str_eq}
use radical_utils.Prelude.{
  ℕ, ◌≡◌, refl, String, Bool, false, Option, none, some, List, [], ◌∷◌, if◌then◌else◌, arith, inl,
  inr, ◌⊎◌, Bool-cases,
}
use radical_utils.Prelude.Eq.{string_eq}
use radical_utils.Merge.{
  Tree, leaf, node, Forest, no_entries, entry, find, put, Entry, insert_sorted, sort, turn,
  merge_entries,
}

pub find-put :
    (j k : String) (t : Tree) (f : Forest)
    → find k (put j t f) ≡ (if str_eq j k then some t else find k f)
unfolding find put
find-put j k t no_entries = refl
find-put j k t (entry i u rest) = ground (
  arith,
  string_eq.beq_iff j k,
  string_eq.beq_iff i j,
  string_eq.beq_iff i k,
  find-put j k t rest,
)

-- The value at the end of a path of keys, if it is no dictionary.
unfoldable pub at_path : List String → Tree → Option ℕ
at_path [] (leaf x) = some x
at_path [] (node f) = none
at_path (k ∷ path) (leaf x) = none
at_path (k ∷ path) (node f) = elim (find k f) [ none ↦ none | some t ↦ at_path path t ]

abbrev pub All : (Entry → Type 0) → List Entry → Type 0
All P [] = Unit {0}
All P (e ∷ es) = P e × All P es

abbrev pub HasKey : String → List Entry → Type 0
HasKey k [] = ⊥
HasKey k (e ∷ es) = (e.key ≡ k) ⊎ HasKey k es

insert_sorted-All :
    (P : Entry → Type 0) (before : String → String → Bool) (e : Entry) (es : List Entry)
    → P e
    → All P es
    → All P (insert_sorted before e es)
unfolding insert_sorted
insert_sorted-All P before e [] h a = (h, tt)
insert_sorted-All P before e (d ∷ ds) h (hd, a) = elim (Bool-cases (before e.key d.key)) [
  | inl y ↦ rw y (h, (hd, a))
  | inr n ↦ rw n (hd, insert_sorted-All P before e ds h a)
]

pub sort-All :
    (P : Entry → Type 0) (before : String → String → Bool) (es : List Entry)
    → All P es
    → All P (sort before es)
unfolding sort
sort-All P before [] a = tt
sort-All P before (e ∷ es) (h, a) =
    insert_sorted-All P before e (sort before es) h (sort-All P before es a)

insert_sorted-HasKey :
    (k : String) (before : String → String → Bool) (e : Entry) (es : List Entry)
    → (e.key ≡ k) ⊎ HasKey k es
    → HasKey k (insert_sorted before e es)
unfolding insert_sorted
insert_sorted-HasKey k before e [] h = h
insert_sorted-HasKey k before e (d ∷ ds) h = elim (Bool-cases (before e.key d.key)) [
  | inl y ↦ rw y h
  | inr n ↦ rw n (elim h [
    | inl mine ↦ inr (insert_sorted-HasKey k before e ds (inl mine))
    | inr (inl next) ↦ inl next
    | inr (inr later) ↦ inr (insert_sorted-HasKey k before e ds (inr later))
  ])
]

pub sort-HasKey :
    (k : String) (before : String → String → Bool) (es : List Entry)
    → HasKey k es
    → HasKey k (sort before es)
unfolding sort
sort-HasKey k before [] h = absurd h
sort-HasKey k before (e ∷ es) (inl mine) =
    insert_sorted-HasKey k before e (sort before es) (inl mine)
sort-HasKey k before (e ∷ es) (inr later) =
    insert_sorted-HasKey k before e (sort before es) (inr (sort-HasKey k before es later))

-- An entry that never raises, one whose turn keeps a property, and one whose turn brings it about if
-- it has the key.
abbrev pub Quiet : Entry → Type 0
Quiet e = (f : Forest) → (turn e f).1 ≡ false

abbrev pub Safe : (Forest → Type 0) → Entry → Type 0
Safe P e = (f : Forest) → P f → P (turn e f).0

abbrev pub Gives : (Forest → Type 0) → String → Entry → Type 0
Gives P k e = e.key ≡ k → (f : Forest) → P (turn e f).0

pub merge_entries-Quiet :
    (es : List Entry) → All Quiet es → (f : Forest) → (merge_entries es f).1 ≡ false
unfolding merge_entries
merge_entries-Quiet [] a f = refl
merge_entries-Quiet (e ∷ es) (h, a) f = rw (h f) (merge_entries-Quiet es a (turn e f).0)

pub merge_entries-Safe :
    (P : Forest → Type 0) (es : List Entry)
    → All Quiet es
    → All (Safe P) es
    → (f : Forest) → P f
    → P (merge_entries es f).0
unfolding merge_entries
merge_entries-Safe P [] q a f h = h
merge_entries-Safe P (e ∷ es) (qe, q) (se, a) f h =
    rw (qe f) (merge_entries-Safe P es q a (turn e f).0 (se f h))

pub merge_entries-Gives :
    (P : Forest → Type 0) (k : String) (es : List Entry)
    → All Quiet es
    → All (Safe P) es
    → All (Gives P k) es
    → HasKey k es
    → (f : Forest) → P (merge_entries es f).0
unfolding merge_entries
merge_entries-Gives P k [] q s g h f = absurd h
merge_entries-Gives P k (e ∷ es) (qe, q) (se, s) (ge, g) (inl mine) f =
    rw (qe f) (merge_entries-Safe P es q s (turn e f).0 (ge mine f))
merge_entries-Gives P k (e ∷ es) (qe, q) (se, s) (ge, g) (inr later) f =
    rw (qe f) (merge_entries-Gives P k es q s g later (turn e f).0)
