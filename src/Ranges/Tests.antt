-- ===== src/Ranges/Tests.antt =====
-- Runs of the range functions, and the theorems about them at the ranges of the module's own test.
use radical_utils.Prelude.{◌≡◌, refl, List, [], ◌∷◌}
use radical_utils.Ranges.{
  Range, ordered, insert_by_start, sort_by_start, same_range, add_range, collapse_from, range_le,
  insert_range, sort_ranges, collapse_sorted, collapse_ranges,
}
use radical_utils.Ranges.Cover.{covers, spans, covers-collapse_ranges}
use radical_utils.Ranges.Gaps.{Chain, collapse_ranges-Chain}

-- The list under `__main__` in algorithms.py, with one range given backwards.
abbrev sample : List Range
sample = (0, 10) ∷ (20, 30) ∷ (50, 40) ∷ (60, 70) ∷ (80, 90) ∷ (5, 15) ∷ (35, 55) ∷ []

sample_collapsed : collapse_ranges sample ≡ (0, 15) ∷ (20, 30) ∷ (35, 55) ∷ (60, 70) ∷ (80, 90) ∷ []
unfolding collapse_ranges collapse_sorted sort_by_start insert_by_start ordered sort_ranges
    collapse_from add_range same_range insert_range range_le
sample_collapsed = refl

-- An empty range that comes first is kept.
empty_first : collapse_ranges ((5, 5) ∷ (7, 9) ∷ (8, 8) ∷ []) ≡ (5, 5) ∷ (7, 9) ∷ []
unfolding collapse_ranges collapse_sorted sort_by_start insert_by_start ordered sort_ranges
    collapse_from add_range same_range insert_range range_le
empty_first = refl

covers-collapse_ranges_example : covers 45 (collapse_ranges sample) ≡ spans 45 sample
covers-collapse_ranges_example = covers-collapse_ranges 45 sample

collapse_ranges-Chain_example : Chain 0 (collapse_ranges sample)
collapse_ranges-Chain_example = collapse_ranges-Chain sample
