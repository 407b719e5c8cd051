-- ===== src/Concurrency.antt =====
-- src/radical/utils/algorithms.py: `range_concurrency`. Times are natural numbers, which the code
-- asserts. The concurrency is kept as two counts, of the starts and of the ends so far, and stands
-- for their difference, which the code computes.
pub mod Sorted
pub mod Times
pub mod Counts
pub mod Tests
use radical_utils.Prelude.{
  ℕ, suc, Bool, true, false, Option, none, some, List, [], ◌∷◌, map, ◌==◌, if◌then◌else◌,
}
use radical_utils.Ranges.{Range, ordered, sort_ranges}

abbrev pub mark_start : ℕ
mark_start = 0

abbrev pub mark_end : ℕ
mark_end = 1

-- Starts and ends that were counted.
abbrev pub Level : Type 0
Level = ℕ × ℕ

-- The boundaries of the ranges, each marked as a start or an end.
unfoldable pub boundaries : List Range → List (ℕ × ℕ)
boundaries [] = []
boundaries (r ∷ rs) = (r.0, mark_start) ∷ (r.1, mark_end) ∷ boundaries rs

unfoldable pub count_mark : ℕ → Level → Level
count_mark mode (ups, downs) = if mode == mark_start then (suc ups, downs) else (ups, suc downs)

-- The loop over the boundaries after the first, and the entry that follows it.
unfoldable pub levels : ℕ → Level → List (ℕ × ℕ) → List (ℕ × Level)
levels last level [] = (last, level) ∷ []
levels last level ((t, mode) ∷ rest) =
    let more = levels t (count_mark mode level) rest in
    if t == last then more else (last, level) ∷ more

-- The level after the last boundary, of which the code asserts that it is 0.
unfoldable pub final_level : Level → List (ℕ × ℕ) → Level
final_level level [] = level
final_level level ((t, mode) ∷ rest) = final_level (count_mark mode level) rest

-- What follows the sort; `none` stands for an assertion that fails.
unfoldable pub sweep : List (ℕ × ℕ) → Option (List (ℕ × Level))
sweep [] = some []
sweep ((t, mode) ∷ rest) =
    let (ups, downs) = final_level (1, 0) rest in
    if mode == mark_start
    then if ups == downs then some ((t, (0, 0)) ∷ levels t (1, 0) rest) else none
    else none

-- `range_concurrency`
unfoldable pub range_concurrency : List Range → Option (List (ℕ × Level))
range_concurrency ranges = sweep (sort_ranges (boundaries (map ordered ranges)))
