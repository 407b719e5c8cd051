-- ===== src/Bisect/Rounds.antt =====
-- The rounds of the loop of `lazy_bisect` of algorithms.py: the invariant, and the progress of each.
use radical_utils.Prelude.{
  ℕ, suc, ◌+◌, ◌-◌, ◌≤◌, ◌<◌, ◌≡◌, refl, sym, ◌∙◌, Bool, true, false, ◌⊎◌, inl, inr, Option, none,
  some, List, arith, length, ltb, ◌==◌, if◌then◌else◌, Bool-cases,
}
use radical_utils.Bisect.{
  Hooks, Search, Round, broke, assertion, next, left, Passage, passed, escapes, lower_bad, probe,
  lookup_or_probe, skip_below, check_first, check_next, candidate, good_below, found_good,
  found_bad, check_between, choose, step,
}
use radical_utils.Bisect.Invariant.{
  total, Inv, Mid, Looked, Passed, Noted-Looked, probe-Noted, lookup_or_probe-Looked,
  skip_below-Inv,
}

-- From here up, all is decided.
abbrev pub frontier : ℕ → Option ℕ → Option ℕ → ℕ
frontier n none none = n
frontier n (some good) none = good
frontier n good (some bad) = bad

-- How far the last good index is from the frontier.
abbrev pub slack : ℕ → Option ℕ → Option ℕ → ℕ
slack n none none = n + 1
slack n (some good) none = 0
slack n none (some bad) = bad + 1
slack n (some good) (some bad) = if ltb bad good then bad + 1 else bad - good

abbrev pub Fresh : {S : Type 0} → Option ℕ → Option ℕ → Search S → Type 0
Fresh none none s = (s.first ≡ true) × ((i : ℕ) → total i s ≡ 0)
Fresh (some good) none s = Unit {0}
Fresh good (some bad) s = Unit {0}

abbrev pub Ready : {S : Type 0} → ℕ → Option ℕ → Option ℕ → Search S → Type 0
Ready n good bad s = Inv n (frontier n good bad) s × (frontier n good bad ≤ n) × Fresh good bad s

abbrev pub Progress : ℕ → Option ℕ → Option ℕ → Option ℕ → Option ℕ → Type 0
Progress n good bad good' bad' =
    (frontier n good' bad' < frontier n good bad)
    ⊎ ((frontier n good' bad' ≡ frontier n good bad) × (slack n good' bad' < slack n good bad))

-- What a round may do, from these two indices.
abbrev pub RoundOk : {S : Type 0} → ℕ → Option ℕ → Option ℕ → Round S → Type 0
RoundOk n good bad broke = frontier n good bad ≡ 0
RoundOk n good bad assertion = ⊥
RoundOk n good bad (left w e) = ⊥
RoundOk n good bad (next s) =
    Ready n s.last_good s.last_bad s × Progress n good bad s.last_good s.last_bad

Inv-indices :
    {S : Type 0} {n f : ℕ} {s : Search S} (b : Bool) (good bad : Option ℕ)
    → Inv n f s
    → Inv n f (record s { first = b; last_good = good; last_bad = bad })
Inv-indices b good bad v = record { above = v.above; below = v.below; beyond = v.beyond }

Inv-lower :
    {S : Type 0} (n f idx : ℕ) (s : Search S)
    → f ≡ suc idx
    → total idx s ≡ 1
    → Inv n f s
    → Inv n idx s
Inv-lower n f idx s e one v = record {
  above = λ i p q. ground (arith, v.above i);
  below = λ i p. v.below i (omega arith);
  beyond = v.beyond;
}

Mid-Inv : {S : Type 0} (n idx f : ℕ) (s : Search S) → f ≡ suc idx → Mid n idx f s → Inv n idx s
Mid-Inv n idx f s e v = record {
  above = λ i p q. ground (arith, v.above i, v.here);
  below = λ i p. v.below i (omega arith) (omega arith);
  beyond = v.beyond;
}

-- The round ends with a good index just below the frontier.
Ready-good :
    {S : Type 0} (n idx : ℕ) (good bad bad' : Option ℕ) (s : Search S)
    → bad' ≡ none
    → idx < frontier n good bad
    → frontier n good bad ≤ n
    → Inv n idx s
    → Ready n (some idx) bad' s × Progress n good bad (some idx) bad'
Ready-good n idx good bad none s e lt le v = ((v, omega arith, tt), inl lt)
Ready-good n idx good bad (some b) s e lt le v = absurd (cc)

next-good :
    {S : Type 0} (n idx : ℕ) (good bad : Option ℕ) (s : Search S)
    → s.last_bad ≡ none
    → idx < frontier n good bad
    → frontier n good bad ≤ n
    → Inv n idx s
    → RoundOk n good bad (next (record s { last_good = some idx }))
next-good n idx good bad s e lt le v =
    Ready-good n idx good bad s.last_bad (record s { last_good = some idx }) e lt le
      (Inv-indices s.first (some idx) s.last_bad v)

-- The round ends with a bad index as the new frontier.
next-bad :
    {S : Type 0} (n idx : ℕ) (good bad good' : Option ℕ) (s : Search S)
    → idx < frontier n good bad
    → frontier n good bad ≤ n
    → Inv n idx s
    → RoundOk n good bad (next (record s { last_good = good'; last_bad = some idx }))
next-bad n idx good bad good' s lt le v =
    ((Inv-indices s.first good' (some idx) v, omega arith, tt), inl lt)

candidate_lem :
    (num den n bad : ℕ) (good : Option ℕ)
    → 1 ≤ bad
    → let low = good_below good bad in
      let idx = candidate num den low bad in
      (idx < bad) × ((suc idx ≡ bad) ⊎ (bad - idx < slack n good (some bad)))
unfolding good_below candidate
candidate_lem num den n bad none h = ground arith
candidate_lem num den n bad (some good) h = ground arith

abbrev either : {S : Type 0} → ℕ → Search S × Bool → Round S
either idx (s, ret) =
    next (if ret then record s { last_good = some idx } else record s { last_bad = some idx })

-- A check just below the frontier moves it down by one, whatever the result.
either-RoundOk :
    {S : Type 0} (n idx : ℕ) (good : Option ℕ) (s : Search S) (r : Search S × Bool)
    → frontier n good none ≡ suc idx
    → frontier n good none ≤ n
    → s.last_bad ≡ none
    → Looked n (frontier n good none) idx s r
    → RoundOk n good none (either idx r)
either-RoundOk n idx good s (s', true) e le eb (v, one, same) =
    next-good n idx good none s' (same.1 ∙ eb) (omega arith) le
      (Inv-lower n (frontier n good none) idx s' e one v)
either-RoundOk n idx good s (s', false) e le eb (v, same) =
    next-bad n idx good none s'.last_good s' (omega arith) le
      (Mid-Inv n idx (frontier n good none) s' e v)

-- A new good index below the frontier, which stays.
Ready-between :
    {S : Type 0} (n idx bad : ℕ) (good bad' : Option ℕ) (s : Search S)
    → bad' ≡ some bad
    → idx < bad
    → bad - idx < slack n good (some bad)
    → bad ≤ n
    → Inv n bad s
    → Ready n (some idx) bad' s × Progress n good (some bad) (some idx) bad'
Ready-between n idx bad good none s e lt closer le v = absurd (cc)
Ready-between n idx bad good (some b) s e lt closer le v =
    let eq : bad ≡ b = ground arith in ((rw (← eq) v, omega arith, tt), inr (sym eq, ground arith))

found_good-RoundOk :
    {S : Type 0} (n idx bad : ℕ) (good : Option ℕ) (s : Search S)
    → s.last_bad ≡ some bad
    → idx < bad
    → (suc idx ≡ bad) ⊎ (bad - idx < slack n good (some bad))
    → bad ≤ n
    → total idx s ≡ 1
    → Inv n bad s
    → RoundOk n good (some bad) (next (found_good idx bad s))
unfolding found_good
found_good-RoundOk n idx bad good s eb lt closer le one v =
    let order : ltb bad idx ≡ false = ground arith in
    elim (Bool-cases (bad - idx == 1)) [
      | inl last ↦
          rw (order, found_good, last)
            (
              (
                Inv-indices s.first (some idx) none (Inv-lower n bad idx s (ground arith) one v),
                omega arith,
                tt,
              ),
              inl lt,
            )
      | inr more ↦
          rw (order, found_good, more)
            (Ready-between n idx bad good s.last_bad (record s { last_good = some idx }) eb lt
              (ground arith) le (Inv-indices s.first (some idx) s.last_bad v))
    ]

module _ {A S : Type 0} (hooks : Hooks A S) (items : List A) (num den n : ℕ)
    (size : n ≡ length items) (calm : (w : S) (x : A) → (hooks.on_skip w x).1 ≡ none) where
  check_first-RoundOk :
      (s : Search S)
      → 0 < n
      → s.last_bad ≡ none
      → Ready n none none s
      → RoundOk n none none (check_first hooks items num den s)
  unfolding check_first
  check_first-RoundOk s pos eb (v, le, (first, nothing)) =
      simp (check_first, first)
        (either-RoundOk n idx none s' (probe hooks items num den idx s') (omega arith) le eb (
          Noted-Looked n n idx s' (probe hooks items num den idx s')
            (Inv-indices false s.last_good s.last_bad v) (omega arith) le
            (omega (arith, nothing idx)) (probe-Noted hooks items num den idx s')))
    where
      idx : ℕ
      idx = length items - 1

      s' : Search S
      s' = record s { first = false }

  check_next-RoundOk :
      (good : ℕ) (s : Search S)
      → s.last_bad ≡ none
      → Ready n (some good) none s
      → RoundOk n (some good) none (check_next hooks items num den good s)
  unfolding check_next
  check_next-RoundOk good s eb (v, le, _) = elim (Bool-cases (good == 0)) [
    | inl z ↦ rw (check_next, z) (ground arith)
    | inr nz ↦
        rw (check_next, nz)
          (either-RoundOk n (good - 1) (some good) s
            (lookup_or_probe hooks items num den (good - 1) s) (ground arith) le eb
            (lookup_or_probe-Looked hooks items num den n good (good - 1) s v (ground arith) le))
  ]

  lower_bad-RoundOk :
      (idx bad : ℕ) (good : Option ℕ) (p : Passage S)
      → idx < bad
      → bad ≤ n
      → Passed (Inv n idx) p
      → RoundOk n good (some bad) (lower_bad idx p)
  unfolding lower_bad
  lower_bad-RoundOk idx bad good (passed s) lt le v =
      next-bad n idx good (some bad) (good_below s.last_good idx) s lt le v
  lower_bad-RoundOk idx bad good (escapes w e) lt le v = absurd v

  found-RoundOk :
      (idx bad : ℕ) (good : Option ℕ) (s : Search S) (r : Search S × Bool)
      → s.last_bad ≡ some bad
      → idx < bad
      → (suc idx ≡ bad) ⊎ (bad - idx < slack n good (some bad))
      → bad ≤ n
      → Looked n bad idx s r
      → RoundOk n good
          (some bad)
          (if r.1 then next (found_good idx bad r.0) else found_bad hooks items num den idx bad r.0)
  unfolding found_bad
  found-RoundOk idx bad good s (s', true) eb lt closer le (v, one, same) =
      found_good-RoundOk n idx bad good s' (same.1 ∙ eb) lt closer le one v
  found-RoundOk idx bad good s (s', false) eb lt closer le (v, same) =
      lower_bad-RoundOk idx bad good (skip_below hooks items num den (bad - idx - 1) bad s') lt le (
        skip_below-Inv hooks items num den calm (bad - idx - 1) n idx bad s' size (omega arith) le
          v)

  check_between-RoundOk :
      (good : Option ℕ) (bad : ℕ) (s : Search S)
      → s.last_good ≡ good
      → s.last_bad ≡ some bad
      → Ready n good (some bad) s
      → RoundOk n good (some bad) (check_between hooks items num den bad s)
  unfolding check_between
  check_between-RoundOk good bad s eg eb (v, le, _) = elim (Bool-cases (bad == 0)) [
    | inl z ↦ rw (check_between, z) (ground arith)
    | inr nz ↦
        let (lt, closer) = candidate_lem num den n bad good (ground arith) in
        let low = good_below good bad in
        let idx = candidate num den low bad in
        let s' = record s { last_good = low } in
        simp (check_between, nz, eg)
          (found-RoundOk idx bad good s' (lookup_or_probe hooks items num den idx s') eb lt closer
            le
            (lookup_or_probe-Looked hooks items num den n bad idx s'
              (Inv-indices s.first low s.last_bad v) lt le))
  ]

  choose-RoundOk :
      (good bad : Option ℕ) (s : Search S)
      → 0 < n
      → s.last_good ≡ good
      → s.last_bad ≡ bad
      → Ready n good bad s
      → RoundOk n good bad (choose hooks items num den good bad s)
  unfolding choose
  choose-RoundOk none none s pos eg eb v = check_first-RoundOk s pos eb v
  choose-RoundOk (some good) none s pos eg eb v = check_next-RoundOk good s eb v
  choose-RoundOk good (some bad) s pos eg eb v = check_between-RoundOk good bad s eg eb v

  -- Every round ends the search with nothing left open, or goes on and makes progress. The assertion
  -- in the first branch holds.
  pub step-RoundOk :
      (s : Search S)
      → 0 < n
      → Ready n s.last_good s.last_bad s
      → RoundOk n s.last_good s.last_bad (step hooks items num den s)
  unfolding step
  step-RoundOk s pos v = choose-RoundOk s.last_good s.last_bad s pos refl refl v
