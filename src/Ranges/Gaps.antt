-- ===== src/Ranges/Gaps.antt =====
-- The order of the ranges that `collapse_ranges` of algorithms.py returns, and the gaps between them.
use radical_utils.Prelude.{
  ℕ, suc, ◌≤◌, ◌<◌, ◌≡◌, refl, false, ◌&&◌, inl, inr, List, [], ◌∷◌, map, arith, max, leb, ◌==◌,
  Bool-cases,
}
use radical_utils.Ranges.{
  Range, ordered, sort_by_start, same_range, add_range, collapse_from, range_le, insert_range,
  sort_ranges, collapse_sorted, collapse_ranges,
}
use radical_utils.Ranges.Cover.{StartsFrom, StartsFrom-mono, sort-StartsFrom}

-- Ranges in order, each with its ends in order, with a gap between one and the next.
abbrev pub Chain : ℕ → List Range → Type 0
Chain lo [] = Unit {0}
Chain lo (r ∷ rs) = (lo ≤ r.0) × (r.0 ≤ r.1) × Chain (suc r.1) rs

-- The ends of these ranges lie below a number.
abbrev EndsBelow : ℕ → List Range → Type 0
EndsBelow b [] = Unit {0}
EndsBelow b (r ∷ rs) = (r.0 ≤ r.1) × (r.1 < b) × EndsBelow b rs

EndsBelow-mono : (a b : ℕ) (rs : List Range) → a ≤ b → EndsBelow a rs → EndsBelow b rs
EndsBelow-mono a b [] h v = tt
EndsBelow-mono a b (r ∷ rs) h (o, lt, v) = (o, omega arith, EndsBelow-mono a b rs h v)

add_range-Chain :
    (lo : ℕ) (base : Range) (final : List Range)
    → lo ≤ base.0
    → base.0 ≤ base.1
    → EndsBelow base.0 final
    → Chain lo final
    → Chain lo (add_range base final)
unfolding add_range same_range
add_range-Chain lo base [] h o e v = (h, o, tt)
add_range-Chain lo base (q ∷ qs) h o (_, lt, e) (hq, oq, v) =
    let other : same_range base q ≡ false = ground arith in
    rw (add_range, other) (hq, oq, add_range-Chain (suc q.1) base qs lt o e v)

add_range-EndsBelow :
    (b : ℕ) (base : Range) (final : List Range)
    → base.0 ≤ base.1
    → base.1 < b
    → EndsBelow b final
    → EndsBelow b (add_range base final)
unfolding add_range same_range
add_range-EndsBelow b base [] o lt e = (o, lt, tt)
add_range-EndsBelow b base (q ∷ qs) o lt (oq, lq, e) =
    elim (Bool-cases (base.0 == q.0 && base.1 == q.1)) [
      | inl t ↦ rw t (oq, lq, e)
      | inr f ↦ rw f (oq, lq, add_range-EndsBelow b base qs o lt e)
    ]

collapse_from-Chain :
    (base : Range) (final rs : List Range)
    → base.0 ≤ base.1
    → StartsFrom base.0 rs
    → EndsBelow base.0 final
    → Chain 0 final
    → Chain 0 (collapse_from base final rs)
unfolding collapse_from
collapse_from-Chain base final [] o v e c = add_range-Chain 0 base final (omega arith) o e c
collapse_from-Chain base final (r ∷ rs) o (h, o', v) e c =
    let v' = StartsFrom-mono base.0 r.0 rs h v in
    elim (Bool-cases (r.0 == r.1)) [
      | inl s ↦ rw s (collapse_from-Chain base final rs o v' e c)
      | inr ne ↦ elim (Bool-cases (leb r.0 base.1)) [
        | inl t ↦
            rw (ne, t) (collapse_from-Chain (base.0, max base.1 r.1) final rs (omega arith) v' e c)
        | inr f ↦
            let apart : base.1 < r.0 = ground arith in
            rw (ne, f)
              (collapse_from-Chain r (add_range base final) rs o' v
                (add_range-EndsBelow r.0 base final o apart (EndsBelow-mono base.0 r.0 final h e))
                (add_range-Chain 0 base final (omega arith) o e c))
      ]
    ]

insert_range_first :
    (r : Range) (rs : List Range) → r.0 ≤ r.1 → Chain (suc r.1) rs → insert_range r rs ≡ r ∷ rs
unfolding insert_range range_le
insert_range_first r [] o c = refl
insert_range_first r (q ∷ qs) o c = ground arith

sort_ranges-Chain : (lo : ℕ) (rs : List Range) → Chain lo rs → sort_ranges rs ≡ rs
unfolding sort_ranges
sort_ranges-Chain lo [] c = refl
sort_ranges-Chain lo (r ∷ rs) (h, o, c) =
    rw (sort_ranges-Chain (suc r.1) rs c) (insert_range_first r rs o c)

collapse_sorted-Chain : (rs : List Range) → StartsFrom 0 rs → Chain 0 (collapse_sorted rs)
unfolding collapse_sorted
collapse_sorted-Chain [] v = tt
collapse_sorted-Chain (base ∷ rs) (h, o, v) =
    let c = collapse_from-Chain base [] rs o v tt tt in
    rw (sort_ranges-Chain 0 (collapse_from base [] rs) c) c

-- The collapsed ranges come in order, each with its ends in order, and each starts above the end
-- of the one before: no two of them overlap or touch.
pub collapse_ranges-Chain : (ranges : List Range) → Chain 0 (collapse_ranges ranges)
unfolding collapse_ranges
collapse_ranges-Chain ranges =
    collapse_sorted-Chain (sort_by_start (map ordered ranges)) (sort-StartsFrom ranges)
