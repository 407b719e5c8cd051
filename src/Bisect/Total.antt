-- ===== src/Bisect/Total.antt =====
-- The end of `lazy_bisect` of algorithms.py: the number of its rounds, and its lists.
use radical_utils.Prelude.{
  ℕ, zero, suc, ◌+◌, ◌*◌, ◌≤◌, ◌<◌, ◌≡◌, refl, sym, ◌∙◌, inl, inr, Option, none, some, List, [],
  ◌∷◌, ◌++◌, arith, length, length-append, length-map, count, count-append, ltb, if◌then◌else◌,
}
use radical_utils.Bisect.{
  Hooks, Search, Round, broke, assertion, next, left, returns, fail_indices, step, loop, finish,
  empty_search, lazy_bisect,
}
use radical_utils.Bisect.Invariant.{total}
use radical_utils.Bisect.Rounds.{frontier, slack, Ready, Progress, RoundOk, step-RoundOk}

abbrev pub measure : ℕ → Option ℕ → Option ℕ → ℕ
measure n good bad = frontier n good bad * (n + 2) + slack n good bad

slack-le : (n : ℕ) (good bad : Option ℕ) → frontier n good bad ≤ n → slack n good bad ≤ n + 1
slack-le n none none h = omega arith
slack-le n (some good) none h = omega arith
slack-le n none (some bad) h = omega arith
slack-le n (some good) (some bad) h = ground arith

row-lt : (f f' k a b : ℕ) → f' < f → b < k → f' * k + b < f * k + a
row-lt f f' k a b h l = grind arith

Progress-measure :
    (n : ℕ) (good bad good' bad' : Option ℕ)
    → frontier n good' bad' ≤ n
    → Progress n good bad good' bad'
    → measure n good' bad' < measure n good bad
Progress-measure n good bad good' bad' le (inl lt) =
    row-lt _ _ (n + 2) _ _ lt (omega (arith, slack-le n good' bad' le))
Progress-measure n good bad good' bad' le (inr (same, lt)) = rw same (omega arith)

-- Each of `n` indices is noted once, and no other.
abbrev pub Complete : {S : Type 0} → ℕ → Search S → Type 0
Complete n s = (i : ℕ) → total i s ≡ (if ltb i n then 1 else 0)

-- The same, by cases.
abbrev Placed : {S : Type 0} → ℕ → Search S → Type 0
Placed n s = ((i : ℕ) → i < n → total i s ≡ 1) × ((i : ℕ) → n ≤ i → total i s ≡ 0)

sum_count : ℕ → List ℕ → ℕ
unfolding count
sum_count zero ws = 0
sum_count (suc n) ws = sum_count n ws + count n ws

sum_count-nil : (n : ℕ) → sum_count n [] ≡ 0
unfolding sum_count
sum_count-nil zero = refl
sum_count-nil (suc n) = omega (arith, sum_count-nil n)

sum_count-cons :
    (n w : ℕ) (ws : List ℕ) → sum_count n (w ∷ ws) ≡ (if ltb w n then 1 else 0) + sum_count n ws
unfolding sum_count
sum_count-cons zero w ws = ground arith
sum_count-cons (suc n) w ws = ground (arith, sum_count-cons n w ws)

length-sum_count :
    (n : ℕ) (ws : List ℕ) → ((i : ℕ) → n ≤ i → count i ws ≡ 0) → length ws ≡ sum_count n ws
unfolding count
length-sum_count n [] h = sym (sum_count-nil n)
length-sum_count n (w ∷ ws) h =
    ground (arith, h w, sum_count-cons n w ws, length-sum_count n ws (λ i p. omega (arith, h i p)))

sum_count_ones : (n : ℕ) (ws : List ℕ) → ((i : ℕ) → i < n → count i ws ≡ 1) → sum_count n ws ≡ n
unfolding sum_count
sum_count_ones zero ws h = refl
sum_count_ones (suc n) ws h =
    omega (arith, h n (omega arith), sum_count_ones n ws (λ i p. h i (omega arith)))

count_thrice :
    (i : ℕ) (xs ys zs : List ℕ) → count i (xs ++ (ys ++ zs)) ≡ count i xs + count i ys + count i zs
count_thrice i xs ys zs = omega (arith, count-append i xs (ys ++ zs), count-append i ys zs)

Placed-length :
    {S : Type 0} (n : ℕ) (s : Search S)
    → Placed n s
    → n ≡ length s.check_good + length s.check_bad + length s.check_fail
Placed-length n s (ones, zeros) =
    let goods = s.check_good in
    let bads = s.check_bad in
    let fails = fail_indices s.check_fail in
    let counts = λ (i : ℕ). count_thrice i goods bads fails in
    let all = goods ++ (bads ++ fails) in
    omega (
      arith,
      length-append goods (bads ++ fails),
      length-append bads fails,
      length-map s.check_fail (λ f. f.0),
      length-sum_count n all (λ i p. counts i ∙ zeros i p),
      sum_count_ones n all (λ i p. counts i ∙ ones i p),
    )

loop_total :
    {A S : Type 0} (hooks : Hooks A S) (items : List A) (num den n : ℕ)
    → n ≡ length items
    → 0 < n
    → ((w : S) (x : A) → (hooks.on_skip w x).1 ≡ none)
    → (fuel : ℕ) (s : Search S) → measure n s.last_good s.last_bad < fuel
    → Ready n s.last_good s.last_bad s
    → (s' : Search S) × (loop hooks items num den fuel s ≡ some (returns s')) × Placed n s'
unfolding loop
loop_total hooks items num den n size pos calm zero s m v = absurd (omega arith)
loop_total hooks items num den n size pos calm (suc fuel) s m v =
    go (step hooks items num den s) refl (step-RoundOk hooks items num den n size calm s pos v)
      (loop_total hooks items num den n size pos calm fuel)
  where
    go :
        (r : Round _)
        → step hooks items num den s ≡ r
        → RoundOk n s.last_good s.last_bad r
        → ((s' : Search _)
            → measure n s'.last_good s'.last_bad < fuel
            → Ready n s'.last_good s'.last_bad s'
            → (s'' : Search _) × (loop hooks items num den fuel s' ≡ some (returns s''))
              × Placed n s'')
        → (s'' : Search _) × (loop hooks items num den (suc fuel) s ≡ some (returns s''))
          × Placed n s''
    go broke e ok ih = (s, rw (loop, e), ((λ i p. v.0.above i (omega arith) p), v.0.beyond))
    go assertion e ok ih = absurd ok
    go (left w e) e' ok ih = absurd ok
    go (next s') e (v', progress) ih =
        let less =
          Progress-measure n s.last_good s.last_bad s'.last_good s'.last_bad v'.1 progress in
        let (s'', found, complete) = ih s' (omega arith) v' in (s'', rw (loop, e) found, complete)

finish-Complete :
    {A S : Type 0} (hooks : Hooks A S) (items : List A) (num den : ℕ) (s : Search S)
    → Placed (length items) s
    → finish hooks items num den (returns s) ≡ some (returns s)
unfolding finish
finish-Complete hooks items num den s c = ground (arith, Placed-length (length items) s c)

empty_search-Ready : {S : Type 0} (n : ℕ) (w : S) → Ready n none none (empty_search w)
unfolding count
empty_search-Ready n w = (
  record {
    above = λ i p q. absurd (omega arith);
    below = λ i p. (omega arith, refl, refl);
    beyond = λ i p. refl;
  },
  omega arith,
  (refl, λ i. refl),
)

-- Rounds that are enough for `n` elements.
abbrev pub enough_rounds : ℕ → ℕ
enough_rounds n = n * (n + 2) + n + 2

Placed-Complete : {S : Type 0} (n : ℕ) (s : Search S) → Placed n s → Complete n s
Placed-Complete n s (ones, zeros) i = ground (arith, ones i, zeros i)

-- If `on_skip` does not raise, then with rounds enough for its elements `lazy_bisect` returns,
-- whatever the checks and the callbacks give otherwise, exceptions included: no assertion fails,
-- and each element stands in exactly one of the three lists, once.
pub lazy_bisect-Complete :
    {A S : Type 0} (hooks : Hooks A S) (items : List A) (num den : ℕ) (w : S)
    → ((v : S) (x : A) → (hooks.on_skip v x).1 ≡ none)
    → (s : Search S) × (lazy_bisect hooks items num den (enough_rounds (length items)) w
        ≡ some (returns s))
      × Complete (length items) s
unfolding lazy_bisect count
lazy_bisect-Complete hooks [] num den w calm = (empty_search w, refl, λ i. ground arith)
lazy_bisect-Complete hooks (x ∷ xs) num den w calm =
    let items = x ∷ xs in
    let n = length items in
    let (s, found, complete) =
      loop_total hooks items num den n refl (omega arith) calm (enough_rounds n) (empty_search w)
        (omega arith) (empty_search-Ready n w) in
    (
      s,
      rw (found, lazy_bisect) (finish-Complete hooks items num den s complete),
      Placed-Complete n s complete,
    )
