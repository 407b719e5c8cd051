-- ===== src/Merge/Preserve.antt =====
-- The policy PRESERVE of `dict_merge` of dict_mixin.py.
use radical_utils.Prelude.{
  ℕ, ◌≡◌, refl, String, Bool, false, some, List, [], ◌∷◌, ◌==◌, inl, inr, Bool-cases,
}
use radical_utils.Prelude.Eq.{string_eq}
use radical_utils.Merge.{
  Tree, leaf, node, Forest, no_entries, entry, Policy, preserve, resolve, resolve_leaf, sort,
  merge_key, entries, dict_merge,
}
use radical_utils.Merge.Keys.{
  at_path, All, sort-All, Quiet, Safe, merge_entries-Quiet, merge_entries-Safe,
}
use radical_utils.Merge.Paths.{Leads, turn-Quiet, node_path, turn-Safe}

module _ (before : String → String → Bool) (p : Policy)
    (soft : (b a : Tree) → (resolve p b a).1 ≡ false) where
  resolve_leaf_quiet : (y : ℕ) (a : Tree) → (resolve_leaf p y a).1 ≡ false
  unfolding resolve_leaf
  resolve_leaf_quiet y (node f) = soft (leaf y) (node f)
  resolve_leaf_quiet y (leaf x) = elim (Bool-cases (x == y)) [
    | inl e ↦ rw e refl
    | inr n ↦ rw n (soft (leaf y) (leaf x))
  ]

  mutual
    unfolding merge_key

    pub merge_key_quiet : (b a : Tree) → (merge_key before p b a).1 ≡ false
    merge_key_quiet (leaf y) a = resolve_leaf_quiet y a
    merge_key_quiet (node g) (leaf x) = soft (node g) (leaf x)
    merge_key_quiet (node g) (node f) =
        merge_entries-Quiet (sort before (entries before p g))
          (sort-All Quiet before (entries before p g) (entries-Quiet g)) f

    pub entries-Quiet : (g : Forest) → All Quiet (entries before p g)
    entries-Quiet no_entries = tt
    entries-Quiet (entry k t rest) = (turn-Quiet _ (merge_key_quiet t), entries-Quiet rest)

resolve_leaf_preserves : (y : ℕ) (a : Tree) → (resolve_leaf preserve y a).0 ≡ a
unfolding resolve_leaf resolve
resolve_leaf_preserves y (node f) = refl
resolve_leaf_preserves y (leaf x) = elim (Bool-cases (x == y)) [
  | inl e ↦ rw e refl
  | inr n ↦ rw n refl
]

module _ (before : String → String → Bool) where
  soft_preserve : (b a : Tree) → (resolve preserve b a).1 ≡ false
  unfolding resolve
  soft_preserve b a = refl

  mutual
    unfolding merge_key resolve

    merge_key_preserves :
        (b a : Tree) (path : List String) (x : ℕ)
        → at_path path a ≡ some x
        → at_path path (merge_key before preserve b a).0 ≡ some x
    merge_key_preserves (leaf y) a path x h = rw (resolve_leaf_preserves y a) h
    merge_key_preserves (node g) (leaf z) path x h = h
    merge_key_preserves (node g) (node f) [] x h = node_path f x h
    merge_key_preserves (node g) (node f) (k ∷ path) x h =
        merge_entries-Safe (Leads k path x) (sort before (entries before preserve g))
          (sort-All Quiet before (entries before preserve g)
            (entries-Quiet before preserve soft_preserve g))
          (sort-All (Safe (Leads k path x)) before (entries before preserve g)
            (entries_preserve g k path x))
          f h

    entries_preserve :
        (g : Forest) (k : String) (path : List String) (x : ℕ)
        → All (Safe (Leads k path x)) (entries before preserve g)
    entries_preserve no_entries k path x = tt
    entries_preserve (entry j t rest) k path x =
        (turn-Safe _ k path x (λ a. merge_key_preserves t a path x), entries_preserve rest k path x)

  -- With the policy PRESERVE nothing is raised, and each path of keys through the first
  -- dictionary that ended in a value ends in the same value afterwards.
  pub dict_merge_preserves :
      (f g : Forest) (path : List String) (x : ℕ)
      → at_path path (node f) ≡ some x
      → ((dict_merge before preserve f g).1 ≡ false)
        × (at_path path (node (dict_merge before preserve f g).0) ≡ some x)
  unfolding dict_merge merge_key
  dict_merge_preserves f g path x h = (
    merge_key_quiet before preserve soft_preserve (node g) (node f),
    merge_key_preserves (node g) (node f) path x h,
  )
