-- ===== src/Concurrency/Counts.antt =====
-- What the entries that `range_concurrency` of algorithms.py returns count.
use radical_utils.Prelude.{
  ℕ, zero, suc, ◌+◌, ◌≤◌, ◌<◌, ◌≡◌, refl, sym, ◌∙◌, true, some, List, [], ◌∷◌, map, arith, inl, inr,
  leb, min, max, ◌==◌, if◌then◌else◌, Bool-cases,
}
use radical_utils.Ranges.{Range, ordered, insert_range, sort_ranges}
use radical_utils.Concurrency.{
  Level, boundaries, count_mark, levels, final_level, sweep, range_concurrency,
}
use radical_utils.Concurrency.Times.{
  StartsAt, Named, BothEnds, BothEnds-map, Among, sort-Among, ends_there, levels-StartsAt,
  levels-Named,
}
use radical_utils.Concurrency.Sorted.{
  starts_upto, ends_upto, TimesFrom, none_before, LexFrom, sort-LexFrom, LexFrom-TimesFrom,
  no_start_behind,
}

-- The ranges that have started, and those that have ended, at a time.
unfoldable pub started : ℕ → List Range → ℕ
started x [] = 0
started x (r ∷ rs) = (if leb (min r.0 r.1) x then 1 else 0) + started x rs

unfoldable pub finished : ℕ → List Range → ℕ
finished x [] = 0
finished x (r ∷ rs) = (if leb (max r.0 r.1) x then 1 else 0) + finished x rs

starts-insert :
    (x : ℕ) (b : ℕ × ℕ) (bs : List (ℕ × ℕ))
    → starts_upto x (insert_range b bs) ≡ starts_upto x (b ∷ bs)
unfolding starts_upto insert_range
starts-insert x b [] = refl
starts-insert x b (c ∷ cs) = ground (arith, starts-insert x b cs)

ends-insert :
    (x : ℕ) (b : ℕ × ℕ) (bs : List (ℕ × ℕ)) → ends_upto x (insert_range b bs) ≡ ends_upto x (b ∷ bs)
unfolding ends_upto insert_range
ends-insert x b [] = refl
ends-insert x b (c ∷ cs) = ground (arith, ends-insert x b cs)

starts-sort : (x : ℕ) (bs : List (ℕ × ℕ)) → starts_upto x (sort_ranges bs) ≡ starts_upto x bs
unfolding starts_upto sort_ranges
starts-sort x [] = refl
starts-sort x (b ∷ bs) = ground (arith, starts-insert x b (sort_ranges bs), starts-sort x bs)

ends-sort : (x : ℕ) (bs : List (ℕ × ℕ)) → ends_upto x (sort_ranges bs) ≡ ends_upto x bs
unfolding ends_upto sort_ranges
ends-sort x [] = refl
ends-sort x (b ∷ bs) = ground (arith, ends-insert x b (sort_ranges bs), ends-sort x bs)

starts-boundaries :
    (x : ℕ) (rs : List Range) → starts_upto x (boundaries (map ordered rs)) ≡ started x rs
unfolding starts_upto boundaries started ordered
starts-boundaries x [] = refl
starts-boundaries x (r ∷ rs) = ground (arith, starts-boundaries x rs)

ends-boundaries :
    (x : ℕ) (rs : List Range) → ends_upto x (boundaries (map ordered rs)) ≡ finished x rs
unfolding ends_upto boundaries finished ordered
ends-boundaries x [] = refl
ends-boundaries x (r ∷ rs) = ground (arith, ends-boundaries x rs)

-- Each entry counts the ranges that have started and that have ended by its time.
abbrev pub Counted : (ℕ → ℕ) → (ℕ → ℕ) → List (ℕ × Level) → Type 0
Counted starts ends [] = Unit {0}
Counted starts ends ((t, level) ∷ rest) =
    (level.0 ≡ starts t) × (level.1 ≡ ends t) × Counted starts ends rest

levels-Counted :
    (starts ends : ℕ → ℕ) (last : ℕ) (level : Level) (bs : List (ℕ × ℕ))
    → TimesFrom last bs
    → ((x : ℕ) → last ≤ x → starts x ≡ level.0 + starts_upto x bs)
    → ((x : ℕ) → last ≤ x → ends x ≡ level.1 + ends_upto x bs)
    → Counted starts ends (levels last level bs)
unfolding levels starts_upto ends_upto count_mark
levels-Counted starts ends last level [] v s e =
    (omega (arith, s last (omega arith)), omega (arith, e last (omega arith)), tt)
levels-Counted starts ends last level ((t, mode) ∷ rest) (h, v) s e =
    let more : Counted starts ends (levels t (count_mark mode level) rest) =
      levels-Counted starts ends t (count_mark mode level) rest v
        (λ x p. ground (arith, s x (omega arith))) (λ x p. ground (arith, e x (omega arith))) in
    elim (Bool-cases (t == last)) [
      | inl same ↦ rw same more
      | inr other ↦
          let after : last < t = ground arith in
          let (no_start, no_end) = none_before last t rest after v in
          rw other
            (ground (arith, s last (omega arith)), ground (arith, e last (omega arith)), more)
    ]

-- The time at which the first of the ranges start.
abbrev pub FirstStart : ℕ → (ℕ → ℕ) → Type 0
FirstStart t starts = (0 < starts t) × ((x : ℕ) → x < t → starts x ≡ 0)

-- What the entries behind the marker at `t` are: they begin at `t`, in ascending order, with one
-- at each end of each range, and their counts are right.
abbrev pub Series : ℕ → (ℕ → ℕ) → (ℕ → ℕ) → List Range → List (ℕ × Level) → Type 0
Series t starts ends ranges out =
    FirstStart t starts
    × StartsAt t out
    × BothEnds (λ x. Named x out) ranges
    × Counted starts ends out

finished-le-started : (x : ℕ) (rs : List Range) → finished x rs ≤ started x rs
unfolding started finished
finished-le-started x [] = omega arith
finished-le-started x (r ∷ rs) = ground (arith, finished-le-started x rs)

-- The boundaries by their mark.
starts_all : List (ℕ × ℕ) → ℕ
starts_all [] = 0
starts_all ((t, mode) ∷ rest) = (if mode == 0 then 1 else 0) + starts_all rest

ends_all : List (ℕ × ℕ) → ℕ
ends_all [] = 0
ends_all ((t, mode) ∷ rest) = (if mode == 0 then 0 else 1) + ends_all rest

all-insert :
    (b : ℕ × ℕ) (bs : List (ℕ × ℕ))
    → (starts_all (insert_range b bs) ≡ starts_all (b ∷ bs))
      × (ends_all (insert_range b bs) ≡ ends_all (b ∷ bs))
unfolding starts_all ends_all insert_range
all-insert b [] = (refl, refl)
all-insert b (c ∷ cs) = let (s, e) = all-insert b cs in (ground arith, ground arith)

all-sort :
    (bs : List (ℕ × ℕ))
    → (starts_all (sort_ranges bs) ≡ starts_all bs) × (ends_all (sort_ranges bs) ≡ ends_all bs)
unfolding starts_all ends_all sort_ranges
all-sort [] = (refl, refl)
all-sort (b ∷ bs) =
    let (s, e) = all-sort bs in
    let (s', e') = all-insert b (sort_ranges bs) in (ground arith, ground arith)

all-boundaries : (rs : List Range) → starts_all (boundaries rs) ≡ ends_all (boundaries rs)
unfolding starts_all ends_all boundaries
all-boundaries [] = refl
all-boundaries (r ∷ rs) = omega (arith, all-boundaries rs)

final_level-all :
    (level : Level) (bs : List (ℕ × ℕ))
    → ((final_level level bs).0 ≡ level.0 + starts_all bs)
      × ((final_level level bs).1 ≡ level.1 + ends_all bs)
unfolding final_level count_mark starts_all ends_all
final_level-all level [] = (omega arith, omega arith)
final_level-all level ((t, mode) ∷ rest) =
    let (s, e) = final_level-all (count_mark mode level) rest in (ground arith, ground arith)

sweep-Counted :
    (starts ends : ℕ → ℕ) (ranges : List Range) (bs : List (ℕ × ℕ))
    → LexFrom (0, 0) bs
    → ((x : ℕ) → starts x ≡ starts_upto x bs)
    → ((x : ℕ) → ends x ≡ ends_upto x bs)
    → ((x : ℕ) → ends x ≤ starts x)
    → starts_all bs ≡ ends_all bs
    → 0 < ends_all bs
    → BothEnds (λ x. Among x bs) ranges
    → (t : ℕ) × (out : List (ℕ × Level)) × (sweep bs ≡ some ((t, (0, 0)) ∷ out))
      × Series t starts ends ranges out
unfolding sweep starts_upto ends_upto starts_all ends_all
sweep-Counted starts ends ranges [] v s e le same pos among = absurd (omega arith)
sweep-Counted starts ends ranges ((t, zero) ∷ rest) (h, v) s e le same pos among =
    let times = LexFrom-TimesFrom (t, zero) rest v in
    let (fs, fe) = final_level-all (1, 0) rest in
    let closed : ((final_level (1, 0) rest).0 == (final_level (1, 0) rest).1) ≡ true =
      ground arith in
    (
      t,
      levels t (1, 0) rest,
      rw (closed, sweep),
      (
        (
          ground (arith, s t),
          λ x p. let (no_start, _) = none_before x t rest p times in ground (arith, s x),
        ),
        levels-StartsAt t (1, 0) rest times,
        BothEnds-map (λ x. Among x ((t, zero) ∷ rest)) (λ x. Named x (levels t (1, 0) rest)) ranges
            (λ x h. levels-Named x t (1, 0) rest h) among,
        levels-Counted starts ends t (1, 0) rest times (λ x p. ground (arith, s x))
            (λ x p. ground (arith, e x)),
      ),
    )
sweep-Counted starts ends ranges ((t, suc m) ∷ rest) (h, v) s e le same pos among =
    absurd (ground (arith, no_start_behind t m rest v, s t, e t, le t))

some_end : (r : Range) (rs : List Range) → 0 < ends_all (boundaries (map ordered (r ∷ rs)))
unfolding ends_all boundaries
some_end r rs = omega arith

-- For ranges, one at least and their ends in either order, no assertion fails: the result is a
-- marker and the entries behind it. The marker is at the first start of a range, and so is the
-- first entry; the times of the entries ascend strictly; there is one at each end of each range;
-- and the concurrency of each entry is the number of ranges that have started by its time less
-- the number of those that have ended.
pub range_concurrency-Counted :
    (r : Range) (rs : List Range)
    → (t : ℕ) × (out : List (ℕ × Level)) × (range_concurrency (r ∷ rs) ≡ some ((t, (0, 0)) ∷ out))
      × Series t (λ x. started x (r ∷ rs)) (λ x. finished x (r ∷ rs)) (r ∷ rs) out
unfolding range_concurrency
range_concurrency-Counted r rs =
    let bs = boundaries (map ordered (r ∷ rs)) in
    let (s, e) = all-sort bs in
    sweep-Counted (λ x. started x (r ∷ rs)) (λ x. finished x (r ∷ rs)) (r ∷ rs) (sort_ranges bs)
      (sort-LexFrom bs) (λ x. sym (starts-sort x bs ∙ starts-boundaries x (r ∷ rs)))
      (λ x. sym (ends-sort x bs ∙ ends-boundaries x (r ∷ rs))) (λ x. finished-le-started x (r ∷ rs))
      (s ∙ all-boundaries (map ordered (r ∷ rs)) ∙ sym e) (omega (arith, e, some_end r rs))
      (BothEnds-map (λ x. Among x bs) (λ x. Among x (sort_ranges bs)) (r ∷ rs)
        (λ x. sort-Among x bs) (ends_there (r ∷ rs)))
