-- ===== src/Concurrency/Times.antt =====
-- The times of the entries that `range_concurrency` of algorithms.py returns.
use mathlib.Core.Path.{subst}
use radical_utils.Prelude.{
  ℕ, ◌<◌, ◌≡◌, refl, ◌∙◌, ◌⊎◌, List, [], ◌∷◌, map, arith, inl, inr, min, max, ◌==◌, Bool-cases,
}
use radical_utils.Ranges.{Range, ordered, insert_range, sort_ranges, range_le}
use radical_utils.Concurrency.{Level, boundaries, count_mark, levels}
use radical_utils.Concurrency.Sorted.{TimesFrom}

-- The first entry is at this time, and each entry is later than the one before it.
abbrev pub Ascends : ℕ → List (ℕ × Level) → Type 0
Ascends lo [] = Unit {0}
Ascends lo ((t, level) ∷ rest) = (lo < t) × Ascends t rest

abbrev pub StartsAt : ℕ → List (ℕ × Level) → Type 0
StartsAt t [] = ⊥
StartsAt t ((u, level) ∷ rest) = (u ≡ t) × Ascends u rest

-- There is an entry at the time `x`.
abbrev pub Named : ℕ → List (ℕ × Level) → Type 0
Named x [] = ⊥
Named x ((t, level) ∷ rest) = (t ≡ x) ⊎ Named x rest

-- What holds of both ends of each range.
abbrev pub BothEnds : (ℕ → Type 0) → List Range → Type 0
BothEnds P [] = Unit {0}
BothEnds P (r ∷ rs) = P (min r.0 r.1) × P (max r.0 r.1) × BothEnds P rs

pub BothEnds-map :
    (P Q : ℕ → Type 0) (rs : List Range) → ((x : ℕ) → P x → Q x) → BothEnds P rs → BothEnds Q rs
BothEnds-map P Q [] f h = tt
BothEnds-map P Q (r ∷ rs) f (lo, hi, h) = (f _ lo, f _ hi, BothEnds-map P Q rs f h)

abbrev pub Among : ℕ → List (ℕ × ℕ) → Type 0
Among x [] = ⊥
Among x ((t, mode) ∷ bs) = (t ≡ x) ⊎ Among x bs

insert_behind :
    (x : ℕ) (b c : ℕ × ℕ) (cs later : List (ℕ × ℕ))
    → (Among x (b ∷ cs) → Among x later)
    → Among x (b ∷ c ∷ cs)
    → Among x (c ∷ later)
insert_behind x b c cs later f (inl here) = inr (f (inl here))
insert_behind x b c cs later f (inr (inl next)) = inl next
insert_behind x b c cs later f (inr (inr behind)) = inr (f (inr behind))

insert-Among :
    (x : ℕ) (b : ℕ × ℕ) (bs : List (ℕ × ℕ)) → Among x (b ∷ bs) → Among x (insert_range b bs)
unfolding insert_range
insert-Among x b [] h = h
insert-Among x b (c ∷ cs) h = elim (Bool-cases (range_le b c)) [
  | inl t ↦ rw t h
  | inr f ↦ rw f (insert_behind x b c cs (insert_range b cs) (insert-Among x b cs) h)
]

pub sort-Among : (x : ℕ) (bs : List (ℕ × ℕ)) → Among x bs → Among x (sort_ranges bs)
unfolding sort_ranges
sort-Among x [] h = h
sort-Among x (b ∷ bs) (inl here) = insert-Among x b (sort_ranges bs) (inl here)
sort-Among x (b ∷ bs) (inr later) = insert-Among x b (sort_ranges bs) (inr (sort-Among x bs later))

pub ends_there : (rs : List Range) → BothEnds (λ x. Among x (boundaries (map ordered rs))) rs
unfolding boundaries ordered
ends_there [] = tt
ends_there (r ∷ rs) = (
  inl (ground arith),
  inr (inl (ground arith)),
  BothEnds-map (λ x. Among x (boundaries (map ordered rs)))
      (λ x. Among x (boundaries (map ordered (r ∷ rs)))) rs (λ x h. inr (inr h)) (ends_there rs),
)

StartsAt-Ascends : (lo t : ℕ) (out : List (ℕ × Level)) → lo < t → StartsAt t out → Ascends lo out
StartsAt-Ascends lo t [] h v = tt
StartsAt-Ascends lo t ((u, level) ∷ rest) h (e, v) = (omega (arith, e), v)

pub levels-StartsAt :
    (last : ℕ) (level : Level) (bs : List (ℕ × ℕ))
    → TimesFrom last bs
    → StartsAt last (levels last level bs)
unfolding levels
levels-StartsAt last level [] v = (refl, tt)
levels-StartsAt last level ((t, mode) ∷ rest) (h, v) =
    let more = levels-StartsAt t (count_mark mode level) rest v in
    elim (Bool-cases (t == last)) [
      | inl same ↦
          let alike : t ≡ last = ground arith in
          rw same (subst (λ u. StartsAt u (levels t (count_mark mode level) rest)) alike more)
      | inr other ↦ rw other (
        refl,
        StartsAt-Ascends last t (levels t (count_mark mode level) rest) (ground arith) more,
      )
    ]

merged : (x t last : ℕ) (P : Type 0) → t ≡ last → (last ≡ x) ⊎ ((t ≡ x) ⊎ P) → (t ≡ x) ⊎ P
merged x t last P e (inl here) = inl (e ∙ here)
merged x t last P e (inr behind) = behind

kept :
    (x t last : ℕ) (P Q : Type 0) → (last ≡ x) ⊎ ((t ≡ x) ⊎ P) → ((t ≡ x) ⊎ P → Q) → (last ≡ x) ⊎ Q
kept x t last P Q (inl here) f = inl here
kept x t last P Q (inr behind) f = inr (f behind)

pub levels-Named :
    (x last : ℕ) (level : Level) (bs : List (ℕ × ℕ))
    → (last ≡ x) ⊎ Among x bs
    → Named x (levels last level bs)
unfolding levels
levels-Named x last level [] (inl e) = inl e
levels-Named x last level [] (inr none_left) = absurd none_left
levels-Named x last level ((t, mode) ∷ rest) h = elim (Bool-cases (t == last)) [
  | inl same ↦ rw same (
      levels-Named x t (count_mark mode level) rest
        (merged x t last (Among x rest) (ground arith) h))
  | inr other ↦ rw other (
      kept x t last (Among x rest) (Named x (levels t (count_mark mode level) rest)) h
        (levels-Named x t (count_mark mode level) rest))
]
