-- ===== src/Bisect/Agreement.antt =====
-- `lazy_bisect` of algorithms.py with a check that changes nothing, against checking each element.
use radical_utils.Prelude.{
  ℕ, zero, suc, ◌+◌, ◌-◌, ◌≡◌, refl, sym, Bool, true, false, inl, inr, Option, none, some, List, [],
  ◌∷◌, arith, length, ltb, ◌==◌, if◌then◌else◌, Bool-cases,
}
use mathlib.Core.Path.{subst}
use radical_utils.Bisect.{
  Verdict, Search, Round, broke, assertion, next, left, Passage, passed, escapes, Outcome, returns,
  raises, lower_bad, candidate, good_below, found_good, empty_search, check_first, check_next,
  skip_below, found_bad, check_between, choose, step, loop, finish, lazy_bisect,
}
use radical_utils.Bisect.Total.{Complete, enough_rounds, lazy_bisect-Complete}
use radical_utils.Bisect.Verdicts.{
  pure_hooks, verdict_at, IsMonotone, Agrees, Answers, probe-Answers, lookup_or_probe-Answers,
  skip_below-Agrees, PassageAgrees,
}

module _ {A : Type 0} (f : A → Verdict) (items : List A) (num den : ℕ) where
  found_good-Agrees :
      (idx bad : ℕ) (s : Search (Unit {0}))
      → (Agrees f items) s
      → (Agrees f items) (found_good idx bad s)
  unfolding found_good
  found_good-Agrees idx bad s a = elim (Bool-cases (ltb bad idx)) [
    | inl t ↦ rw (t, found_good) a
    | inr n ↦ elim (Bool-cases ((bad - idx) == 1)) [
      | inl t ↦ rw (n, found_good, t) a
      | inr m ↦ rw (n, found_good, m) a
    ]
  ]

  -- What holds of a round that goes on.
  abbrev RoundAgrees : Round (Unit {0}) → Type 0
  RoundAgrees broke = Unit {0}
  RoundAgrees assertion = Unit {0}
  RoundAgrees (left w e) = Unit {0}
  RoundAgrees (next s) = (Agrees f items) s

  lower_bad-Agrees :
      (idx : ℕ) (p : Passage (Unit {0}))
      → PassageAgrees f items num den p
      → RoundAgrees (lower_bad idx p)
  unfolding lower_bad
  lower_bad-Agrees idx (passed s) a = a
  lower_bad-Agrees idx (escapes w e) a = tt

  found_bad-Agrees :
      (idx bad : ℕ) (s : Search (Unit {0}))
      → (IsMonotone f items)
      → (verdict_at f items) idx ≡ false
      → (Agrees f items) s
      → RoundAgrees (found_bad (pure_hooks f) items num den idx bad s)
  unfolding found_bad skip_below
  found_bad-Agrees idx bad s mono h a =
      lower_bad-Agrees idx (skip_below (pure_hooks f) items num den (bad - idx - 1) bad s)
        (elim (Bool-cases (ltb (idx + 1) bad)) [
          | inl between ↦
              skip_below-Agrees f items num den idx (bad - idx - 1) bad s (ground arith)
                (λ j p. mono idx j (omega arith) h) a
          | inr none_between ↦
              let nothing : bad - idx - 1 ≡ 0 = ground arith in rw (nothing, skip_below) a
        ])

  noted :
      (idx : ℕ) (p : Search (Unit {0}) × Bool)
      → Answers f items idx p
      → RoundAgrees (
          next (
            if p.1
            then record (p.0) { last_good = some idx }
            else record (p.0) { last_bad = some idx }))
  noted idx (s, true) (a, r) = a
  noted idx (s, false) (a, r) = a

  check_first-Agrees :
      (s : Search (Unit {0}))
      → (Agrees f items) s
      → RoundAgrees (check_first (pure_hooks f) items num den s)
  unfolding check_first
  check_first-Agrees s a = elim (Bool-cases s.first) [
    | inr n ↦ rw (n, check_first) tt
    | inl t ↦
        rw (t, check_first)
          (noted (length items - 1) _
            (probe-Answers f items num den (length items - 1) (record s { first = false }) a))
  ]

  check_next-Agrees :
      (good : ℕ) (s : Search (Unit {0}))
      → (Agrees f items) s
      → RoundAgrees (check_next (pure_hooks f) items num den good s)
  unfolding check_next
  check_next-Agrees good s a = elim (Bool-cases (good == 0)) [
    | inl t ↦ rw (t, check_next) tt
    | inr n ↦
        rw (n, check_next)
          (noted (good - 1) _ (lookup_or_probe-Answers f items num den (good - 1) s a))
  ]

  bisected :
      (idx bad : ℕ) (p : Search (Unit {0}) × Bool)
      → (IsMonotone f items)
      → Answers f items idx p
      → RoundAgrees (
          if p.1
          then next (found_good idx bad p.0)
          else found_bad (pure_hooks f) items num den idx bad p.0)
  bisected idx bad (s, true) mono (a, r) = found_good-Agrees idx bad s a
  bisected idx bad (s, false) mono (a, r) = found_bad-Agrees idx bad s mono (sym r) a

  check_between-Agrees :
      (bad : ℕ) (s : Search (Unit {0}))
      → (IsMonotone f items)
      → (Agrees f items) s
      → RoundAgrees (check_between (pure_hooks f) items num den bad s)
  unfolding check_between
  check_between-Agrees bad s mono a = elim (Bool-cases (bad == 0)) [
    | inl t ↦ rw (t, check_between) tt
    | inr n ↦
        let low = good_below s.last_good bad in
        let idx = candidate num den low bad in
        rw (n, check_between)
          (bisected idx bad _ mono
            (lookup_or_probe-Answers f items num den idx (record s { last_good = low }) a))
  ]

  choose-Agrees :
      (good bad : Option ℕ) (s : Search (Unit {0}))
      → (IsMonotone f items)
      → (Agrees f items) s
      → RoundAgrees (choose (pure_hooks f) items num den good bad s)
  unfolding choose
  choose-Agrees none none s mono a = check_first-Agrees s a
  choose-Agrees (some good) none s mono a = check_next-Agrees good s a
  choose-Agrees none (some bad) s mono a = check_between-Agrees bad s mono a
  choose-Agrees (some good) (some bad) s mono a = check_between-Agrees bad s mono a

  -- What holds of what is returned.
  abbrev OutcomeAgrees : Outcome (Unit {0}) → Type 0
  OutcomeAgrees (returns s) = (Agrees f items) s
  OutcomeAgrees (raises w e) = Unit {0}

  settled :
      (rest : Search (Unit {0}) → Option (Outcome (Unit {0}))) (r : Round (Unit {0}))
      (s : Search (Unit {0})) (o : Outcome (Unit {0}))
      → (Agrees f items) s
      → RoundAgrees r
      → ((s₁ : Search (Unit {0})) → (Agrees f items) s₁ → rest s₁ ≡ some o → OutcomeAgrees o)
      → ◌≡◌ {A = Option (Outcome (Unit {0}))}
          (elim r [
            | broke ↦ some (returns s)
            | assertion ↦ none
            | next s₁ ↦ rest s₁
            | left w e ↦ some (raises w e)
          ])
          (some o)
      → OutcomeAgrees o
  settled rest broke s o a ra ih e = subst OutcomeAgrees {x = returns s} {y = o} (ground arith) a
  settled rest assertion s o a ra ih e = absurd (cc)
  settled rest (next s₁) s o a ra ih e = ih s₁ ra e
  settled rest (left w e) s o a ra ih e' =
      subst OutcomeAgrees {x = raises w e} {y = o} (ground arith) tt

  loop-Agrees :
      (fuel : ℕ) (s : Search (Unit {0})) (o : Outcome (Unit {0}))
      → (IsMonotone f items)
      → (Agrees f items) s
      → loop (pure_hooks f) items num den fuel s ≡ some o
      → OutcomeAgrees o
  unfolding loop step
  loop-Agrees zero s o mono a e = absurd (cc)
  loop-Agrees (suc fuel) s o mono a e =
      settled (loop (pure_hooks f) items num den fuel)
        (choose (pure_hooks f) items num den s.last_good s.last_bad s) s o a
        (choose-Agrees s.last_good s.last_bad s mono a)
        (λ s₁ a₁ e₁. loop-Agrees fuel s₁ o mono a₁ e₁) e

  finished :
      (r : Option (Outcome (Unit {0}))) (o : Outcome (Unit {0}))
      → ((p : Outcome (Unit {0})) → r ≡ some p → OutcomeAgrees p)
      → ◌≡◌ {A = Option (Outcome (Unit {0}))}
          (elim r [ none ↦ none | some p ↦ finish (pure_hooks f) items num den p ])
          (some o)
      → OutcomeAgrees o
  unfolding finish
  finished none o k e = absurd (cc)
  finished (some (returns s)) o k e =
      subst OutcomeAgrees {x = returns s} {y = o} (ground arith) (k (returns s) refl)
  finished (some (raises w e)) o k e' =
      subst OutcomeAgrees {x = raises w e} {y = o} (ground arith) tt

returned-Agrees :
    {A : Type 0} (f : A → Verdict) (items : List A) (num den fuel : ℕ) (s : Search (Unit {0}))
    → IsMonotone f items
    → lazy_bisect (pure_hooks f) items num den fuel tt ≡ some (returns s)
    → Agrees f items s
unfolding lazy_bisect
returned-Agrees f [] num den fuel s mono e =
    subst (Agrees f []) {x = empty_search tt} {y = s} (ground arith) (tt, tt, tt)
returned-Agrees f (x ∷ xs) num den fuel s mono e =
    finished f (x ∷ xs) num den (loop (pure_hooks f) (x ∷ xs) num den fuel (empty_search tt))
      (returns s)
      (λ p e'. loop-Agrees f (x ∷ xs) num den fuel (empty_search tt) p mono (tt, tt, tt) e') e

-- If the check has no effects, and accepts no element above one that it does not accept, then
-- `lazy_bisect` returns, with each element in one of its lists, and puts an element among the
-- good ones just if the check accepts it, though it does not check all of them.
pub lazy_bisect-Agrees :
    {A : Type 0} (f : A → Verdict) (items : List A) (num den : ℕ)
    → IsMonotone f items
    → (s : Search (Unit {0})) × (lazy_bisect
          (pure_hooks f)
          items
          num
          den
          (enough_rounds (length items))
          tt
        ≡ some (returns s))
      × Complete (length items) s
      × Agrees f items s
lazy_bisect-Agrees f items num den mono =
    let (s, found, complete) = lazy_bisect-Complete (pure_hooks f) items num den tt (λ w x. refl) in
    (
      s,
      found,
      complete,
      returned-Agrees f items num den (enough_rounds (length items)) s mono found,
    )
