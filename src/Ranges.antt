-- ===== src/Ranges.antt =====
-- src/radical/utils/algorithms.py: `collapse_ranges` and `in_range`. A range is a pair of numbers; the
-- code only compares them, and natural numbers stand for its floats.
pub mod Cover
pub mod Gaps
pub mod Tests
use radical_utils.Prelude.{
  ℕ, Bool, true, false, ◌&&◌, ◌||◌, List, [], ◌∷◌, ◌++◌, map, max, ltb, leb, ◌==◌, if◌then◌else◌,
}

abbrev pub Range : Type 0
Range = ℕ × ℕ

-- A range with its ends in order.
unfoldable pub ordered : Range → Range
ordered (start, end) = if ltb end start then (end, start) else (start, end)

-- `sorted(ranges, key=lambda x: x[START])`, which is stable: an element goes before the later ones
-- that are not less.
unfoldable pub insert_by_start : Range → List Range → List Range
insert_by_start r [] = r ∷ []
insert_by_start r (q ∷ qs) =
    let rest = insert_by_start r qs in if leb r.0 q.0 then r ∷ q ∷ qs else q ∷ rest

unfoldable pub sort_by_start : List Range → List Range
sort_by_start [] = []
sort_by_start (r ∷ rs) = insert_by_start r (sort_by_start rs)

unfoldable pub same_range : Range → Range → Bool
same_range (a, b) (c, d) = a == c && b == d

-- `set.add`
unfoldable pub add_range : Range → List Range → List Range
add_range r [] = r ∷ []
add_range r (q ∷ qs) = if same_range r q then q ∷ qs else q ∷ add_range r qs

-- The loop over the sorted ranges, with the range that is being extended and the final ones.
unfoldable pub collapse_from : Range → List Range → List Range → List Range
collapse_from base final [] = add_range base final
collapse_from base final (r ∷ rs) =
    let skipped = collapse_from base final rs in
    let extended = collapse_from (base.0, max base.1 r.1) final rs in
    let moved = collapse_from r (add_range base final) rs in
    if r.0 == r.1 then skipped else if leb r.0 base.1 then extended else moved

-- The order of Python's lists, on pairs.
unfoldable pub range_le : Range → Range → Bool
range_le (a, b) (c, d) = ltb a c || (a == c && leb b d)

unfoldable pub insert_range : Range → List Range → List Range
insert_range r [] = r ∷ []
insert_range r (q ∷ qs) = if range_le r q then r ∷ q ∷ qs else q ∷ insert_range r qs

unfoldable pub sort_ranges : List Range → List Range
sort_ranges [] = []
sort_ranges (r ∷ rs) = insert_range r (sort_ranges rs)

unfoldable pub collapse_sorted : List Range → List Range
collapse_sorted [] = []
collapse_sorted (base ∷ rs) = sort_ranges (collapse_from base [] rs)

-- `collapse_ranges`
unfoldable pub collapse_ranges : List Range → List Range
collapse_ranges ranges = collapse_sorted (sort_by_start (map ordered ranges))

-- `in_range`, for a list of ranges.
unfoldable pub in_range : ℕ → List Range → Bool
in_range value [] = false
in_range value (r ∷ rs) = leb r.0 value && leb value r.1 || in_range value rs
