-- ===== src/Concurrency/Tests.antt =====
-- A run of `range_concurrency`, and its theorem at it.
use radical_utils.Prelude.{ℕ, ◌≡◌, refl, some, List, [], ◌∷◌}
use radical_utils.Ranges.{Range, ordered, sort_ranges, insert_range, range_le}
use radical_utils.Concurrency.{
  Level, boundaries, count_mark, levels, final_level, sweep, range_concurrency,
}
use radical_utils.Concurrency.Counts.{started, finished, Series, range_concurrency-Counted}

abbrev busy : List Range
busy = (5, 8) ∷ (9, 7) ∷ (1, 5) ∷ []

-- At time 5 one range ends where another starts.
busy_levels :
    range_concurrency ((0, 6) ∷ busy)
    ≡ some (
        (0, (0, 0))
        ∷ (0, (1, 0))
        ∷ (1, (2, 0))
        ∷ (5, (3, 1))
        ∷ (6, (3, 2))
        ∷ (7, (4, 2))
        ∷ (8, (4, 3))
        ∷ (9, (4, 4))
        ∷ [])
unfolding range_concurrency sweep boundaries ordered sort_ranges insert_range range_le levels
    final_level count_mark
busy_levels = refl

range_concurrency-Counted_example :
    (t : ℕ) × (out : List (ℕ × Level)) × (range_concurrency ((0, 6) ∷ busy)
      ≡ some ((t, (0, 0)) ∷ out))
    × Series t
        (λ x. started x ((0, 6) ∷ busy))
        (λ x. finished x ((0, 6) ∷ busy))
        ((0, 6) ∷ busy)
        out
range_concurrency-Counted_example = range_concurrency-Counted (0, 6) busy
