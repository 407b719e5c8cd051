-- ===== src/Merge.antt =====
-- src/radical/utils/dict_mixin.py: `dict_merge`, without wildcards. A value that is no dictionary is a
-- number, and the order of the keys is a parameter. In place of the object that is changed, the new one
-- is returned.
pub mod Keys
pub mod Paths
pub mod Preserve
pub mod Overwrite
pub mod Tests
use text.Mathlib.Text.{◌==◌ as str_eq}
use radical_utils.Prelude.{
  ℕ, String, Bool, true, false, Option, none, some, List, [], ◌∷◌, ◌==◌, if◌then◌else◌,
}

-- A dictionary of dictionaries.
mutual
  pub data Tree : Type 0 where
    leaf : ℕ → Tree
    node : Forest → Tree

  pub data Forest : Type 0 where
    no_entries : Forest
    entry : String → Tree → Forest → Forest

pub data Policy : Type 0 where
  refuse preserve overwrite : Policy

unfoldable pub find : String → Forest → Option Tree
find k no_entries = none
find k (entry j t rest) = if str_eq j k then some t else find k rest

unfoldable pub put : String → Tree → Forest → Forest
put k t no_entries = entry k t no_entries
put k t (entry j u rest) = if str_eq j k then entry j t rest else entry j u (put k t rest)

-- The conflict of two values that are not both dictionaries: the value that stays, and whether the
-- code raises.
unfoldable pub resolve : Policy → Tree → Tree → Tree × Bool
resolve refuse b a = (a, true)
resolve preserve b a = (a, false)
resolve overwrite b a = (b, false)

unfoldable pub resolve_leaf : Policy → ℕ → Tree → Tree × Bool
resolve_leaf p y (leaf x) = if x == y then (leaf x, false) else resolve p (leaf y) (leaf x)
resolve_leaf p y (node f) = resolve p (leaf y) (node f)

-- An entry of the second dictionary: its key and value, and what it makes of a value that the first
-- has under the key.
pub record Entry : Type 0 where
  pub key : String
  pub value : Tree
  pub merge : Tree → Tree × Bool

unfoldable pub insert_sorted : (String → String → Bool) → Entry → List Entry → List Entry
insert_sorted before e [] = e ∷ []
insert_sorted before e (d ∷ ds) =
    if before e.key d.key then e ∷ d ∷ ds else d ∷ insert_sorted before e ds

-- `sorted`
unfoldable pub sort : (String → String → Bool) → List Entry → List Entry
sort before [] = []
sort before (e ∷ es) = insert_sorted before e (sort before es)

-- A key of the second dictionary, added or resolved by its entry.
unfoldable pub turn : Entry → Forest → Forest × Bool
turn e f = elim (find e.key f) [
  | none ↦ (put e.key e.value f, false)
  | some t ↦ let (u, raised) = e.merge t in (put e.key u f, raised)
]

-- The loop over the keys of the second dictionary, which an exception ends.
unfoldable pub merge_entries : List Entry → Forest → Forest × Bool
merge_entries [] f = (f, false)
merge_entries (e ∷ es) f =
    let (f', raised) = turn e f in
    let later = merge_entries es f' in if raised then (f', true) else later

module _ (before : String → String → Bool) (p : Policy) where
  unfoldable mutual
    -- `merge_key`
    pub merge_key : Tree → Tree → Tree × Bool
    merge_key (leaf y) t = resolve_leaf p y t
    merge_key (node g) (leaf x) = resolve p (node g) (leaf x)
    merge_key (node g) (node f) =
        let (f', raised) = merge_entries (sort before (entries g)) f in (node f', raised)

    pub entries : Forest → List Entry
    entries no_entries = []
    entries (entry k t rest) = record { key = k; value = t; merge = merge_key t } ∷ entries rest

  -- `dict_merge` of the second dictionary into the first.
  unfoldable pub dict_merge : Forest → Forest → Forest × Bool
  dict_merge f g = merge_entries (sort before (entries g)) f
