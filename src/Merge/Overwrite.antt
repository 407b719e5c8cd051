-- ===== src/Merge/Overwrite.antt =====
-- The policy OVERWRITE of `dict_merge` of dict_mixin.py.
use mathlib.Core.Path.{subst}
use text.Mathlib.Text.{◌==◌ as str_eq}
use radical_utils.Prelude.{
  ℕ, ◌≡◌, refl, sym, ap, ◌∙◌, String, Bool, false, none, some, List, [], ◌∷◌, ◌==◌, arith, inl, inr,
  Bool-cases, Option-cases,
}
use radical_utils.Prelude.Eq.{string_eq}
use radical_utils.Merge.{
  Tree, leaf, node, Forest, no_entries, entry, find, overwrite, resolve, resolve_leaf, Entry, sort,
  turn, merge_key, entries, dict_merge,
}
use radical_utils.Merge.Keys.{
  at_path, All, HasKey, sort-All, sort-HasKey, Quiet, Safe, Gives, merge_entries-Gives,
}
use radical_utils.Merge.Paths.{
  Leads, turn_elsewhere, turn_same, turn_new, at_path_lost, at_path_entry, node_path,
}
use radical_utils.Merge.Preserve.{entries-Quiet, merge_key_quiet}

-- The keys of a dictionary differ, and so do those of the dictionaries in it.
abbrev mutual
  pub IsDictionary : Tree → Type 0
  IsDictionary (leaf x) = Unit {0}
  IsDictionary (node f) = HasDistinct f

  pub HasDistinct : Forest → Type 0
  HasDistinct no_entries = Unit {0}
  HasDistinct (entry k t rest) = IsDictionary t × (find k rest ≡ none) × HasDistinct rest

resolve_leaf_overwrites : (y : ℕ) (a : Tree) → (resolve_leaf overwrite y a).0 ≡ leaf y
unfolding resolve_leaf resolve
resolve_leaf_overwrites y (node f) = refl
resolve_leaf_overwrites y (leaf x) = elim (Bool-cases (x == y)) [
  | inl e ↦ rw e (ap leaf (ground arith))
  | inr n ↦ rw n refl
]

module _ (before : String → String → Bool) where
  ends_empty : (k : String) → find k no_entries ≡ none
  unfolding find
  ends_empty k = refl

  soft_overwrite : (b a : Tree) → (resolve overwrite b a).1 ≡ false
  unfolding resolve
  soft_overwrite b a = refl

  -- A turn over a path that ends in a value of the entry, and that its merge ends in as well.
  turn-Gives :
      (e : Entry) (k : String) (path : List String) (x : ℕ)
      → e.key ≡ k
      → at_path path e.value ≡ some x
      → ((a : Tree) → at_path path (e.merge a).0 ≡ some x)
      → (f : Forest) → Leads k path x (turn e f).0
  turn-Gives e k path x mine new over f =
      let same = (string_eq.beq_iff e.key k).1 mine in
      elim (Option-cases (find e.key f)) [
        | inl none_there ↦ turn_new e k path x f same none_there new
        | inr (t, found) ↦ turn_same e k path x t f same found (over t)
      ]

  kept_if_given :
      (e : Entry) (k : String) (path : List String) (x : ℕ)
      → (e.key ≡ k → (f : Forest) → Leads k path x (turn e f).0)
      → Safe (Leads k path x) e
  kept_if_given e k path x gives f h = elim (Bool-cases (str_eq e.key k)) [
    | inl same ↦ gives ((string_eq.beq_iff e.key k).0 same) f
    | inr other ↦ turn_elsewhere e k path x other f h
  ]

  -- No entry has a key that the dictionary has not.
  absent-Gives :
      (g : Forest) (k : String) (P : Forest → Type 0)
      → find k g ≡ none
      → All (Gives P k) (entries before overwrite g)
  unfolding merge_key find
  absent-Gives no_entries k P e = tt
  absent-Gives (entry j t rest) k P e = elim (Bool-cases (str_eq j k)) [
    | inl same ↦ absurd (ground arith)
    | inr other ↦ (
      λ mine f. absurd (ground (arith, string_eq.beq_iff j k)),
      absent-Gives rest k P (rw other at e),
    )
  ]

  keep_paths :
      (es : List Entry) (k : String) (path : List String) (x : ℕ)
      → All (Gives (Leads k path x) k) es
      → All (Safe (Leads k path x)) es
  keep_paths [] k path x a = tt
  keep_paths (e ∷ es) k path x (g, a) = (kept_if_given e k path x g, keep_paths es k path x a)

  mutual
    unfolding merge_key resolve

    merge_key_overwrites :
        (b a : Tree) (path : List String) (x : ℕ)
        → IsDictionary b
        → at_path path b ≡ some x
        → at_path path (merge_key before overwrite b a).0 ≡ some x
    merge_key_overwrites (leaf y) a path x d h = rw (resolve_leaf_overwrites y a) h
    merge_key_overwrites (node g) (leaf z) path x d h = h
    merge_key_overwrites (node g) (node f) [] x d h = node_path g x h
    merge_key_overwrites (node g) (node f) (k ∷ path) x d h =
        let es = entries before overwrite g in
        let (gives, has) = entries_overwrite g k path x d h in
        merge_entries-Gives (Leads k path x) k (sort before es)
          (sort-All Quiet before es (entries-Quiet before overwrite soft_overwrite g))
          (sort-All (Safe (Leads k path x)) before es (keep_paths es k path x gives))
          (sort-All (Gives (Leads k path x) k) before es gives) (sort-HasKey k before es has) f

    entries_overwrite :
        (g : Forest) (k : String) (path : List String) (x : ℕ)
        → HasDistinct g
        → Leads k path x g
        → All (Gives (Leads k path x) k) (entries before overwrite g)
          × HasKey k (entries before overwrite g)
    entries_overwrite no_entries k path x d h =
        let lost : at_path (k ∷ path) (node no_entries) ≡ none =
          at_path_lost k path no_entries (ends_empty k) in
        absurd (ground (arith, lost))
    entries_overwrite (entry j t rest) k path x (dt, new, dr) h = elim (Bool-cases (str_eq j k)) [
      | inl same ↦
          let at_k = (string_eq.beq_iff j k).0 same in
          let here : at_path path t ≡ some x =
            rw same at (sym (at_path_entry j k path t rest) ∙ h) in
          (
            (
              λ mine.
                  turn-Gives _ k path x mine here (λ a. merge_key_overwrites t a path x dt here),
              absent-Gives rest k (Leads k path x) (subst (λ i. find i rest ≡ none) at_k new),
            ),
            inl at_k,
          )
      | inr other ↦
          let (gives, has) =
            entries_overwrite rest k path x dr
              (rw other at (sym (at_path_entry j k path t rest) ∙ h)) in
          ((λ mine. absurd (ground (arith, string_eq.beq_iff j k)), gives), inr has)
    ]

  -- With the policy OVERWRITE nothing is raised, and each path of keys through the second
  -- dictionary that ends in a value ends in the same value in the merged one, if the keys of each
  -- dictionary in the second one differ.
  pub dict_merge_overwrites :
      (f g : Forest) (path : List String) (x : ℕ)
      → HasDistinct g
      → at_path path (node g) ≡ some x
      → ((dict_merge before overwrite f g).1 ≡ false)
        × (at_path path (node (dict_merge before overwrite f g).0) ≡ some x)
  unfolding dict_merge merge_key
  dict_merge_overwrites f g path x d h = (
    merge_key_quiet before overwrite soft_overwrite (node g) (node f),
    merge_key_overwrites (node g) (node f) path x d h,
  )
