-- ===== src/Concurrency/Sorted.antt =====
-- The sorted boundaries of `range_concurrency` of algorithms.py.
use radical_utils.Prelude.{
  ℕ, zero, suc, ◌+◌, ◌≤◌, ◌<◌, ◌≡◌, refl, true, false, ◌&&◌, List, [], ◌∷◌, arith, inl, inr, leb,
  ◌==◌, if◌then◌else◌, Bool-cases,
}
use radical_utils.Ranges.{range_le, insert_range, sort_ranges}

-- The boundaries up to a time, by their mark.
unfoldable pub starts_upto : ℕ → List (ℕ × ℕ) → ℕ
starts_upto x [] = 0
starts_upto x ((t, mode) ∷ rest) = (if mode == 0 && leb t x then 1 else 0) + starts_upto x rest

unfoldable pub ends_upto : ℕ → List (ℕ × ℕ) → ℕ
ends_upto x [] = 0
ends_upto x ((t, mode) ∷ rest) =
    (if mode == 0 then 0 else if leb t x then 1 else 0) + ends_upto x rest

-- Boundaries in the order of their times, none before `lo`.
abbrev pub TimesFrom : ℕ → List (ℕ × ℕ) → Type 0
TimesFrom lo [] = Unit {0}
TimesFrom lo (b ∷ bs) = (lo ≤ b.0) × TimesFrom b.0 bs

insert-TimesFrom :
    (lo : ℕ) (b : ℕ × ℕ) (bs : List (ℕ × ℕ))
    → lo ≤ b.0
    → TimesFrom lo bs
    → TimesFrom lo (insert_range b bs)
unfolding insert_range range_le
insert-TimesFrom lo b [] h v = (h, tt)
insert-TimesFrom lo b (c ∷ cs) h (hc, v) = elim (Bool-cases (range_le b c)) [
  | inl t ↦ rw t (h, (ground arith, v))
  | inr f ↦ rw f (hc, insert-TimesFrom c.0 b cs (ground arith) v)
]

pub sort-TimesFrom : (bs : List (ℕ × ℕ)) → TimesFrom 0 (sort_ranges bs)
unfolding sort_ranges
sort-TimesFrom [] = tt
sort-TimesFrom (b ∷ bs) = insert-TimesFrom 0 b (sort_ranges bs) (omega arith) (sort-TimesFrom bs)

-- Nothing is counted before the first boundary.
pub none_before :
    (x lo : ℕ) (bs : List (ℕ × ℕ))
    → x < lo
    → TimesFrom lo bs
    → (starts_upto x bs ≡ 0) × (ends_upto x bs ≡ 0)
unfolding starts_upto ends_upto
none_before x lo [] h v = (refl, refl)
none_before x lo (b ∷ bs) h (hb, v) =
    let (s, e) = none_before x b.0 bs (omega arith) v in (ground arith, ground arith)

-- The boundaries in the order in which the code sorts them, none before `b`.
abbrev pub LexFrom : ℕ × ℕ → List (ℕ × ℕ) → Type 0
LexFrom b [] = Unit {0}
LexFrom b (c ∷ cs) = (range_le b c ≡ true) × LexFrom c cs

range_le_total : (b c : ℕ × ℕ) → range_le b c ≡ false → range_le c b ≡ true
unfolding range_le
range_le_total (a, m) (b, n) f = ground arith

insert-LexFrom :
    (a b : ℕ × ℕ) (bs : List (ℕ × ℕ))
    → range_le a b ≡ true
    → LexFrom a bs
    → LexFrom a (insert_range b bs)
unfolding insert_range
insert-LexFrom a b [] h v = (h, tt)
insert-LexFrom a b (c ∷ cs) h (hc, v) = elim (Bool-cases (range_le b c)) [
  | inl t ↦ rw t (h, (t, v))
  | inr f ↦ rw f (hc, insert-LexFrom c b cs (range_le_total b c f) v)
]

pub sort-LexFrom : (bs : List (ℕ × ℕ)) → LexFrom (0, 0) (sort_ranges bs)
unfolding sort_ranges range_le
sort-LexFrom [] = tt
sort-LexFrom (b ∷ bs) = insert-LexFrom (0, 0) b (sort_ranges bs) (ground arith) (sort-LexFrom bs)

pub LexFrom-TimesFrom : (b : ℕ × ℕ) (bs : List (ℕ × ℕ)) → LexFrom b bs → TimesFrom b.0 bs
unfolding range_le
LexFrom-TimesFrom b [] v = tt
LexFrom-TimesFrom b (c ∷ cs) (h, v) = (ground arith, LexFrom-TimesFrom c cs v)

-- No start follows an end of the same time.
pub no_start_behind :
    (t mode : ℕ) (bs : List (ℕ × ℕ)) → LexFrom (t, suc mode) bs → starts_upto t bs ≡ 0
unfolding starts_upto range_le
no_start_behind t mode [] v = refl
no_start_behind t mode ((u, zero) ∷ rest) (h, v) =
    let later : t < u = ground arith in
    let (s, e) = none_before t u rest later (LexFrom-TimesFrom (u, zero) rest v) in ground arith
no_start_behind t mode ((u, suc m) ∷ rest) (h, v) = elim (Bool-cases (t == u)) [
  | inl same ↦
      let alike : t ≡ u = ground arith in
      let behind = no_start_behind u m rest v in
      let behind' : starts_upto t rest ≡ 0 = rw alike behind in ground arith
  | inr other ↦
      let later : t < u = ground arith in
      let (s, e) = none_before t u rest later (LexFrom-TimesFrom (u, suc m) rest v) in ground arith
]
