-- ===== src/Prefix/Tests.antt =====
-- Calls of `remove_common_prefix` of algorithms.py, and the theorem at one.
use radical_utils.Prelude.{◌≤◌, ◌≡◌, refl, List, [], ◌∷◌, length}
use radical_utils.Prelude.Chars.{Text, codes}
use radical_utils.Prefix.{
  less, min_text, max_text, common, up_to, shorten, strip, or_else, find_after, or_whole,
  split_last, ok, empty_separator, remove_all, remove_found, remove_common_prefix,
}
use radical_utils.Prefix.Order.{All}
use radical_utils.Prefix.Longest.{StartsWith, Removed, remove_common_prefix-Removed}

abbrev hosts : List Text
hosts = codes "node02" ∷ codes "node13" ∷ codes "node14" ∷ []

program : Unit {0}
unfolding less min_text max_text common up_to shorten strip or_else find_after or_whole split_last
    remove_all remove_found remove_common_prefix
program = tt

numbers : remove_common_prefix hosts 0 ≡ ok (codes "02" ∷ codes "13" ∷ codes "14" ∷ [])
unfolding program
numbers = refl

one_letter_kept : remove_common_prefix hosts 1 ≡ ok (codes "e02" ∷ codes "e13" ∷ codes "e14" ∷ [])
unfolding program
one_letter_kept = refl

nothing_in_common : remove_common_prefix (codes "a" ∷ codes "b" ∷ []) 0 ≡ empty_separator
unfolding program
nothing_in_common = refl

-- Five letters of a prefix of four cannot be kept: the place is counted from the end, and more than the
-- prefix is taken from the first.
too_many_kept : remove_common_prefix hosts 5 ≡ ok (codes "2" ∷ codes "node13" ∷ codes "node14" ∷ [])
unfolding program
too_many_kept = refl

remove_common_prefix-Removed_example :
    (p : Text) × All (StartsWith p) hosts
    × ((q : Text) → All (StartsWith q) hosts → length q ≤ length p)
    × Removed p hosts (remove_common_prefix hosts 0)
remove_common_prefix-Removed_example =
    remove_common_prefix-Removed (codes "node02") (codes "node13" ∷ codes "node14" ∷ [])
