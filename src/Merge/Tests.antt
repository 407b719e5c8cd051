-- ===== src/Merge/Tests.antt =====
-- A merge by `dict_merge` of dict_mixin.py, and the theorems at it.
use text.Mathlib.Text.{◌==◌ as str_eq}
use radical_utils.Prelude.{◌≡◌, refl, String, Bool, true, false, some, [], ◌∷◌}
use radical_utils.Merge.{
  leaf, node, Forest, no_entries, entry, find, put, refuse, preserve, overwrite, resolve,
  resolve_leaf, insert_sorted, sort, turn, merge_entries, merge_key, dict_merge,
}
use radical_utils.Merge.Keys.{at_path}
use radical_utils.Merge.Preserve.{dict_merge_preserves}
use radical_utils.Merge.Overwrite.{dict_merge_overwrites}

program : Unit {0}
unfolding find put resolve resolve_leaf insert_sorted sort turn merge_entries merge_key dict_merge
    at_path
program = tt

-- An order of the keys: "b" comes last.
abbrev before : String → String → Bool
before j k = str_eq k "b"

abbrev first : Forest
first = entry "a" (node (entry "b" (leaf 1) no_entries)) (entry "c" (leaf 2) no_entries)

abbrev second : Forest
second =
    entry "b" (leaf 5)
      (entry "a" (node (entry "b" (leaf 3) (entry "d" (leaf 4) no_entries))) no_entries)

merged : dict_merge before overwrite first second ≡ (
  entry "a"
      (node (entry "b" (leaf 3) (entry "d" (leaf 4) no_entries)))
      (entry "c" (leaf 2) (entry "b" (leaf 5) no_entries)),
  false,
)
unfolding program
merged = refl

-- Without a policy the first conflict raises, and what came before it stays done.
refused :
    (dict_merge before refuse first (entry "b" (leaf 5) (entry "c" (leaf 9) no_entries)))
    ≡ (first, true)
unfolding program
refused = refl

dict_merge_preserves_example :
    ((dict_merge before preserve first second).1 ≡ false)
    × (at_path ("a" ∷ "b" ∷ []) (node (dict_merge before preserve first second).0) ≡ some 1)
unfolding at_path find
dict_merge_preserves_example = dict_merge_preserves before first second ("a" ∷ "b" ∷ []) 1 refl

dict_merge_overwrites_example :
    ((dict_merge before overwrite first second).1 ≡ false)
    × (at_path ("a" ∷ "d" ∷ []) (node (dict_merge before overwrite first second).0) ≡ some 4)
unfolding at_path find
dict_merge_overwrites_example =
    dict_merge_overwrites before first second ("a" ∷ "d" ∷ []) 4
      (tt, refl, ((tt, refl, (tt, refl, tt)), refl, tt)) refl
