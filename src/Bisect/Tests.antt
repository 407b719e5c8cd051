-- ===== src/Bisect/Tests.antt =====
-- Runs of `lazy_bisect`, and its theorems at them.
use radical_utils.Prelude.{
  ℕ, zero, suc, arith, ◌+◌, ◌≡◌, refl, none, some, Option, List, [], ◌∷◌, length, ltb,
  if◌then◌else◌, contains, ◌==◌,
}
use radical_utils.Bisect.{
  Hooks, Verdict, accepted, rejected, failed, Search, lazy_bisect, wrapcheck, after_hook,
  record_verdict, Outcome, returns, raises, note_skipped, after_skip, lower_bad, probe,
  lookup_or_probe, check_first, check_next, ceil_ratio, candidate, skip, skip_below, good_below,
  found_good, found_bad, check_between, choose, step, loop, finish,
}
use radical_utils.Bisect.Agreement.{lazy_bisect-Agrees}
use radical_utils.Bisect.Verdicts.{pure_hooks, is_accepted, verdict_at, IsMonotone, Agrees}
use radical_utils.Bisect.Total.{Complete, enough_rounds, lazy_bisect-Complete}

program : Unit {0}
unfolding lazy_bisect wrapcheck after_hook record_verdict probe lookup_or_probe check_first
    check_next ceil_ratio candidate skip skip_below good_below found_good found_bad check_between
    choose step loop finish contains note_skipped after_skip lower_bad
program = tt

-- Sizes below 5 are accepted.
abbrev fits : ℕ → Verdict
fits x = if ltb x 5 then accepted else rejected

abbrev even_sizes : List ℕ
even_sizes = 2 ∷ 4 ∷ 6 ∷ 8 ∷ []

even_sizes-IsMonotone : IsMonotone fits even_sizes
unfolding verdict_at is_accepted
even_sizes-IsMonotone zero j p h = absurd (cc)
even_sizes-IsMonotone (suc zero) j p h = absurd (cc)
even_sizes-IsMonotone (suc (suc i)) zero p h = absurd (omega arith)
even_sizes-IsMonotone (suc (suc i)) (suc zero) p h = absurd (omega arith)
even_sizes-IsMonotone (suc (suc i)) (suc (suc zero)) p h = refl
even_sizes-IsMonotone (suc (suc i)) (suc (suc (suc zero))) p h = refl
even_sizes-IsMonotone (suc (suc i)) (suc (suc (suc (suc j)))) p h = refl

lazy_bisect-Agrees_example :
    (s : Search (Unit {0})) × (lazy_bisect
        (pure_hooks fits)
        even_sizes
        1
        2
        (enough_rounds (length even_sizes))
        tt
      ≡ some (returns s))
    × Complete (length even_sizes) s
    × Agrees fits even_sizes s
lazy_bisect-Agrees_example = lazy_bisect-Agrees fits even_sizes 1 2 even_sizes-IsMonotone

-- Tasks below 5 fit, and the check of task 7 raises. The world counts the checks.
abbrev sizes : Hooks ℕ ℕ
sizes = record {
  check = λ w x. (w + 1, if x == 7 then failed "boom" else if ltb x 5 then accepted else rejected);
  on_ok = λ w x. (w, none);
  on_nok = λ w x. (w, none);
  on_skip = λ w x. (w, none);
}

abbrev tasks : List ℕ
tasks = 0 ∷ 1 ∷ 2 ∷ 3 ∷ 4 ∷ 5 ∷ 6 ∷ 7 ∷ 8 ∷ 9 ∷ []

view : Option (Outcome ℕ) → Option (List ℕ × List ℕ × ℕ)
view none = none
view (some (raises w e)) = none
view (some (returns s)) = some (s.check_good, s.check_bad, s.world)

lazy_bisect-Complete_example :
    (s : Search ℕ) × (lazy_bisect sizes tasks 1 2 (enough_rounds (length tasks)) 0
      ≡ some (returns s))
    × Complete (length tasks) s
lazy_bisect-Complete_example = lazy_bisect-Complete sizes tasks 1 2 0 (λ w x. refl)

-- The checks find that tasks up to 4 are good, in seven checks.
tasks_searched :
    view (lazy_bisect sizes tasks 1 2 (enough_rounds (length tasks)) 0)
    ≡ some (3 ∷ 4 ∷ 2 ∷ 1 ∷ 0 ∷ [], 9 ∷ 5 ∷ 8 ∷ 7 ∷ 6 ∷ [], 7)
unfolding program view
tasks_searched = refl

-- The first element that is skipped ends the search with the exception of `on_skip`.
abbrev unskippable : Hooks ℕ ℕ
unskippable = record sizes { on_skip = λ w x. (w, some "stop") }

skip_raises :
    lazy_bisect unskippable tasks 1 2 (enough_rounds (length tasks)) 0 ≡ some (raises 2 "stop")
unfolding program
skip_raises = refl
