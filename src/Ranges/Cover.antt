-- ===== src/Ranges/Cover.antt =====
-- The points that `collapse_ranges` of algorithms.py covers.
use radical_utils.Prelude.{
  ℕ, ◌≤◌, ◌≡◌, refl, ◌∙◌, Bool, false, ◌&&◌, ◌||◌, inl, inr, List, [], ◌∷◌, map, arith, min, max,
  tests, ltb, leb, ◌==◌, Bool-cases,
}
use radical_utils.Ranges.{
  Range, ordered, insert_by_start, sort_by_start, same_range, add_range, collapse_from,
  insert_range, sort_ranges, collapse_sorted, collapse_ranges,
}

-- Whether a point lies in a range, its end excluded.
unfoldable pub covers : ℕ → List Range → Bool
covers x [] = false
covers x (r ∷ rs) = leb r.0 x && ltb x r.1 || covers x rs

covers-insert_by_start :
    (x : ℕ) (r : Range) (rs : List Range)
    → covers x (insert_by_start r rs) ≡ (leb r.0 x && ltb x r.1 || covers x rs)
unfolding covers insert_by_start
covers-insert_by_start x r [] = refl
covers-insert_by_start x r (q ∷ qs) = ground (arith, covers-insert_by_start x r qs)

covers-sort_by_start : (x : ℕ) (rs : List Range) → covers x (sort_by_start rs) ≡ covers x rs
unfolding covers sort_by_start
covers-sort_by_start x [] = refl
covers-sort_by_start x (r ∷ rs) =
    ground (arith, covers-insert_by_start x r (sort_by_start rs), covers-sort_by_start x rs)

covers-insert_range :
    (x : ℕ) (r : Range) (rs : List Range)
    → covers x (insert_range r rs) ≡ (leb r.0 x && ltb x r.1 || covers x rs)
unfolding covers insert_range
covers-insert_range x r [] = refl
covers-insert_range x r (q ∷ qs) = ground (arith, covers-insert_range x r qs)

covers-sort_ranges : (x : ℕ) (rs : List Range) → covers x (sort_ranges rs) ≡ covers x rs
unfolding covers sort_ranges
covers-sort_ranges x [] = refl
covers-sort_ranges x (r ∷ rs) =
    ground (arith, covers-insert_range x r (sort_ranges rs), covers-sort_ranges x rs)

covers-add_range :
    (x : ℕ) (r : Range) (rs : List Range)
    → covers x (add_range r rs) ≡ (leb r.0 x && ltb x r.1 || covers x rs)
unfolding covers add_range same_range
covers-add_range x r [] = refl
covers-add_range x r (q ∷ qs) = ground (arith, covers-add_range x r qs)

-- Whether a point lies in a range of the input, whichever of its ends comes first.
unfoldable pub spans : ℕ → List Range → Bool
spans x [] = false
spans x (r ∷ rs) = leb (min r.0 r.1) x && ltb x (max r.0 r.1) || spans x rs

covers-ordered : (x : ℕ) (rs : List Range) → covers x (map ordered rs) ≡ spans x rs
unfolding covers spans ordered
covers-ordered x [] = refl
covers-ordered x (r ∷ rs) = ground (arith, covers-ordered x rs)

-- Ranges in the order of their starts, none of which lies below `lo`.
abbrev pub StartsFrom : ℕ → List Range → Type 0
StartsFrom lo [] = Unit {0}
StartsFrom lo (r ∷ rs) = (lo ≤ r.0) × (r.0 ≤ r.1) × StartsFrom r.0 rs

insert-StartsFrom :
    (lo : ℕ) (r : Range) (rs : List Range)
    → lo ≤ r.0
    → r.0 ≤ r.1
    → StartsFrom lo rs
    → StartsFrom lo (insert_by_start r rs)
unfolding insert_by_start
insert-StartsFrom lo r [] h o v = (h, o, tt)
insert-StartsFrom lo r (q ∷ qs) h o (hq, oq, v) = elim (Bool-cases (leb r.0 q.0)) [
  | inl t ↦ rw t (h, o, (omega (tests, t), oq, v))
  | inr f ↦ rw f (hq, oq, insert-StartsFrom q.0 r qs (ground arith) o v)
]

pub sort-StartsFrom : (rs : List Range) → StartsFrom 0 (sort_by_start (map ordered rs))
unfolding sort_by_start ordered
sort-StartsFrom [] = tt
sort-StartsFrom (r ∷ rs) =
    insert-StartsFrom 0 (ordered r) (sort_by_start (map ordered rs)) (omega arith) (ground arith)
      (sort-StartsFrom rs)

pub StartsFrom-mono : (lo hi : ℕ) (rs : List Range) → lo ≤ hi → StartsFrom hi rs → StartsFrom lo rs
StartsFrom-mono lo hi [] h v = tt
StartsFrom-mono lo hi (r ∷ rs) h (h', o, v) = (omega arith, o, v)

covers-collapse_from :
    (x : ℕ) (base : Range) (final rs : List Range)
    → base.0 ≤ base.1
    → StartsFrom base.0 rs
    → covers x (collapse_from base final rs)
      ≡ (leb base.0 x && ltb x base.1 || covers x final || covers x rs)
unfolding collapse_from covers
covers-collapse_from x base final [] o v = ground (arith, covers-add_range x base final)
covers-collapse_from x base final (r ∷ rs) o (h, o', v) =
    let v' = StartsFrom-mono base.0 r.0 rs h v in
    elim (Bool-cases (r.0 == r.1)) [
      | inl e ↦ rw e (ground (arith, covers-collapse_from x base final rs o v'))
      | inr ne ↦ elim (Bool-cases (leb r.0 base.1)) [
        | inl t ↦
            rw (ne, t)
              (ground
                (arith, covers-collapse_from x (base.0, max base.1 r.1) final rs (omega arith) v'))
        | inr f ↦
            rw (ne, f)
              (ground (
                arith,
                covers-collapse_from x r (add_range base final) rs o' v,
                covers-add_range x base final,
              ))
      ]
    ]

covers-collapse_sorted :
    (x : ℕ) (rs : List Range) → StartsFrom 0 rs → covers x (collapse_sorted rs) ≡ covers x rs
unfolding collapse_sorted covers
covers-collapse_sorted x [] v = refl
covers-collapse_sorted x (base ∷ rs) (h, o, v) =
    ground (
      arith,
      covers-sort_ranges x (collapse_from base [] rs),
      covers-collapse_from x base [] rs o v,
    )

-- The collapsed ranges cover exactly the points that lie in some range of the input, an end being
-- excluded and the ends of an input range given in either order.
pub covers-collapse_ranges :
    (x : ℕ) (ranges : List Range) → covers x (collapse_ranges ranges) ≡ spans x ranges
unfolding collapse_ranges
covers-collapse_ranges x ranges =
    covers-collapse_sorted x (sort_by_start (map ordered ranges)) (sort-StartsFrom ranges)
    ∙ covers-sort_by_start x (map ordered ranges)
    ∙ covers-ordered x ranges
