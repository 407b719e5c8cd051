-- ===== src/Prefix.antt =====
-- src/radical/utils/algorithms.py: `remove_common_prefix`. A text is the list of its code points; an
-- `extend` that is not above 0 is 0.
pub mod Order
pub mod Longest
pub mod Tests
use radical_utils.Prelude.{
  ℕ, zero, suc, ◌-◌, Bool, true, false, not, Option, none, some, List, [], ◌∷◌, map, length, take,
  ltb, leb, ◌==◌, if◌then◌else◌, ◌&&◌,
}
use radical_utils.Prelude.Chars.{Text}

-- `<` on texts.
unfoldable pub less : Text → Text → Bool
less [] [] = false
less [] (d ∷ ds) = true
less (c ∷ cs) [] = false
less (c ∷ cs) (d ∷ ds) = if ltb c d then true else if ltb d c then false else less cs ds

-- `min`
unfoldable pub min_text : Text → List Text → Text
min_text x [] = x
min_text x (y ∷ ys) = min_text (if less y x then y else x) ys

-- `max`
unfoldable pub max_text : Text → List Text → Text
max_text x [] = x
max_text x (y ∷ ys) = max_text (if less x y then y else x) ys

-- The loop over the letters of the first text; none where the second is read past its end.
unfoldable pub common : Text → Text → Option Text
common [] s2 = some []
common (c ∷ cs) [] = none
common (c ∷ cs) (d ∷ ds) =
    if c == d then elim (common cs ds) [ none ↦ none | some p ↦ some (c ∷ p) ] else some []

-- The letters before a place that is counted from the end where it is negative.
unfoldable pub up_to : ℕ → ℕ → Text → Text
up_to n back s = if leb back n then take (n - back) s else take (length s - (back - n)) s

unfoldable pub shorten : ℕ → Text → Text → Text
shorten zero s1 p = p
shorten (suc e) s1 p = if ltb (length p) (length s1) then up_to (length p) (suc e) s1 else p

unfoldable pub strip : Text → Text → Option Text
strip [] x = some x
strip (c ∷ p) [] = none
strip (c ∷ p) (d ∷ x) = if c == d then strip p x else none

unfoldable pub or_else : Option Text → Option Text → Option Text
or_else none b = b
or_else (some a) b = some a

-- What follows the first place where the separator is.
unfoldable pub find_after : Text → Text → Option Text
find_after sep [] = strip sep []
find_after sep (c ∷ cs) = let later = find_after sep cs in or_else (strip sep (c ∷ cs)) later

unfoldable pub or_whole : Option Text → Text → Text
or_whole none x = x
or_whole (some rest) x = rest

-- `split`, once, and its last part.
unfoldable pub split_last : Text → Text → Text
split_last sep x = or_whole (find_after sep x) x

pub data Result : Type 0 where
  ok : List Text → Result
  index_error empty_separator : Result

-- Python's `split` takes no empty separator.
unfoldable pub remove_all : Text → List Text → Result
remove_all [] xs = empty_separator
remove_all (c ∷ p) xs = ok (map (split_last (c ∷ p)) xs)

unfoldable pub remove_found : ℕ → Text → Option Text → List Text → Result
remove_found extend s1 none xs = index_error
remove_found extend s1 (some p) xs = remove_all (shorten extend s1 p) xs

unfoldable pub remove_common_prefix : List Text → ℕ → Result
remove_common_prefix [] extend = ok []
remove_common_prefix (x ∷ xs) extend =
    remove_found extend (min_text x xs) (common (min_text x xs) (max_text x xs)) (x ∷ xs)
