-- ===== src/Merge/Paths.antt =====
-- Paths of keys through the dictionaries of `dict_merge` of dict_mixin.py, and a turn of its loop.
use text.Mathlib.Text.{◌==◌ as str_eq}
use radical_utils.Prelude.{
  ℕ, ◌≡◌, refl, sym, ◌∙◌, String, true, false, none, some, List, [], ◌∷◌, if◌then◌else◌, arith, inl,
  inr, Bool-cases, Option-cases,
}
use radical_utils.Prelude.Eq.{string_eq}
use radical_utils.Merge.{Tree, node, Forest, entry, find, put, Entry, turn}
use radical_utils.Merge.Keys.{find-put, at_path, Quiet, Safe}

-- That a path of keys leads to a value.
abbrev pub Leads : String → List String → ℕ → Forest → Type 0
Leads k path x f = at_path (k ∷ path) (node f) ≡ some x

pub at_path-put :
    (j k : String) (path : List String) (t : Tree) (f : Forest)
    → at_path (k ∷ path) (node (put j t f))
      ≡ (if str_eq j k then at_path path t else at_path (k ∷ path) (node f))
unfolding at_path
at_path-put j k path t f = elim (Bool-cases (str_eq j k)) [
  | inl y ↦ rw (at_path, find-put j k t f, y) refl
  | inr n ↦ rw (at_path, find-put j k t f, n) refl
]

pub turn-Quiet : (e : Entry) → ((t : Tree) → (e.merge t).1 ≡ false) → Quiet e
unfolding turn
turn-Quiet e quiet f = elim (Option-cases (find e.key f)) [
  | inl none_there ↦ rw (none_there, turn) refl
  | inr (t, found) ↦ rw (found, turn) (quiet t)
]

-- A turn of another key.
pub turn_elsewhere :
    (e : Entry) (k : String) (path : List String) (x : ℕ)
    → str_eq e.key k ≡ false
    → Safe (Leads k path x) e
unfolding turn
turn_elsewhere e k path x other f h = elim (Option-cases (find e.key f)) [
  | inl none_there ↦ rw (none_there, turn) (at_path-put e.key k path e.value f ∙ rw other h)
  | inr (t, found) ↦ rw (found, turn) (at_path-put e.key k path (e.merge t).0 f ∙ rw other h)
]

-- A turn of this key, over what the first dictionary has there.
pub turn_same :
    (e : Entry) (k : String) (path : List String) (x : ℕ) (t : Tree) (f : Forest)
    → str_eq e.key k ≡ true
    → find e.key f ≡ some t
    → at_path path (e.merge t).0 ≡ some x
    → Leads k path x (turn e f).0
unfolding turn
turn_same e k path x t f same found h =
    rw (found, turn) (at_path-put e.key k path (e.merge t).0 f ∙ rw same h)

pub turn_new :
    (e : Entry) (k : String) (path : List String) (x : ℕ) (f : Forest)
    → str_eq e.key k ≡ true
    → find e.key f ≡ none
    → at_path path e.value ≡ some x
    → Leads k path x (turn e f).0
unfolding turn
turn_new e k path x f same none_there h =
    rw (none_there, turn) (at_path-put e.key k path e.value f ∙ rw same h)

pub at_path_next :
    (k : String) (path : List String) (f : Forest) (t : Tree)
    → find k f ≡ some t
    → at_path (k ∷ path) (node f) ≡ at_path path t
unfolding at_path
at_path_next k path f t e = rw (e, at_path) refl

pub at_path_lost :
    (k : String) (path : List String) (f : Forest)
    → find k f ≡ none
    → at_path (k ∷ path) (node f) ≡ none
unfolding at_path
at_path_lost k path f e = rw (e, at_path) refl

pub at_path_entry :
    (j k : String) (path : List String) (t : Tree) (rest : Forest)
    → at_path (k ∷ path) (node (entry j t rest))
      ≡ (if str_eq j k then at_path path t else at_path (k ∷ path) (node rest))
unfolding at_path find
at_path_entry j k path t rest = elim (Bool-cases (str_eq j k)) [
  | inl y ↦ rw (y, at_path, find) refl
  | inr n ↦ rw (n, at_path, find) refl
]

-- No path without keys ends in a dictionary.
pub node_path : {A : Type 0} (f : Forest) (x : ℕ) → at_path [] (node f) ≡ some x → A
unfolding at_path
node_path f x h = absurd (cc)

-- A turn keeps a path that its entry keeps below its key.
pub turn-Safe :
    (e : Entry) (k : String) (path : List String) (x : ℕ)
    → ((a : Tree) → at_path path a ≡ some x → at_path path (e.merge a).0 ≡ some x)
    → Safe (Leads k path x) e
unfolding at_path
turn-Safe e k path x keeps f h = elim (Bool-cases (str_eq e.key k)) [
  | inr other ↦ turn_elsewhere e k path x other f h
  | inl same ↦
      let here = rw (sym ((string_eq.beq_iff e.key k).0 same)) at h in
      elim (Option-cases (find e.key f)) [
        | inl none_there ↦ absurd (ground (arith, at_path_lost e.key path f none_there))
        | inr (t, found) ↦
            turn_same e k path x t f same found
              (keeps t (sym (at_path_next e.key path f t found) ∙ here))
      ]
]
