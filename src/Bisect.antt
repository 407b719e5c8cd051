-- ===== src/Bisect.antt =====
-- src/radical/utils/algorithms.py: `lazy_bisect`. The checks, the callbacks and what they change are
-- parameters; a callback that is not given is the one that does nothing. `ratio` is a fraction of
-- two numbers, computed exactly.
pub mod Invariant
pub mod Rounds
pub mod Total
pub mod Verdicts
pub mod Agreement
pub mod Tests
use radical_utils.Prelude.{
  ℕ, zero, suc, ◌+◌, ◌-◌, ◌*◌, ◌/◌, String, Bool, true, false, ◌&&◌, not, Option, none, some, List,
  [], ◌∷◌, ◌++◌, map, min, length, get_elem?, contains, ltb, ◌==◌, if◌then◌else◌,
}

-- What a call of `check` gives: `True`, `False`, any other value, or an exception with its text.
pub data Verdict : Type 0 where
  accepted rejected unclear : Verdict
  failed : String → Verdict

-- `check` and the callbacks, over the state `S` of the program around. A callback may raise.
pub record Hooks (A S : Type 0) : Type 0 where
  pub check : S → A → S × Verdict
  pub on_ok : S → A → S × Option String
  pub on_nok : S → A → S × Option String
  pub on_skip : S → A → S × Option String

pub record Search (S : Type 0) : Type 0 where
  pub first : Bool
  pub last_good : Option ℕ
  pub last_bad : Option ℕ
  pub check_good : List ℕ
  pub check_bad : List ℕ
  pub check_fail : List (ℕ × String)
  pub world : S

-- What the skipped elements leave: a search that goes on, or an exception that nothing catches.
pub data Passage (S : Type 0) : Type 0 where
  passed : Search S → Passage S
  escapes : S → String → Passage S

-- How a round of the loop ends.
pub data Round (S : Type 0) : Type 0 where
  broke assertion : Round S
  next : Search S → Round S
  left : S → String → Round S

-- How `lazy_bisect` ends: it returns its lists, or an exception of `on_skip` leaves it.
pub data Outcome (S : Type 0) : Type 0 where
  returns : Search S → Outcome S
  raises : S → String → Outcome S

-- The verdict that stands after a callback.
unfoldable pub after_hook : {S : Type 0} → Verdict → S × Option String → S × Verdict
after_hook v (w, none) = (w, v)
after_hook v (w, some e) = (w, failed e)

abbrev pub fail_indices : List (ℕ × String) → List ℕ
fail_indices = map (λ f. f.0)

-- Where the verdict on an index is noted, and whether it was good.
unfoldable pub record_verdict : {S : Type 0} → ℕ → Search S → S × Verdict → Search S × Bool
record_verdict idx s (w, accepted) =
    (record s { check_good = s.check_good ++ idx ∷ []; world = w }, true)
record_verdict idx s (w, rejected) =
    (record s { check_bad = s.check_bad ++ idx ∷ []; world = w }, false)
record_verdict idx s (w, unclear) =
    (record s { check_bad = s.check_bad ++ idx ∷ []; world = w }, false)
record_verdict idx s (w, failed e) =
    (record s { check_fail = s.check_fail ++ (idx, e) ∷ []; world = w }, false)

-- `math.ceil(a * ratio)`, the ratio at most 1.
unfoldable pub ceil_ratio : ℕ → ℕ → ℕ → ℕ
ceil_ratio num den a = (a * min num den + den - 1) / den

-- The candidate between the last good and the last bad index, if the former is known.
unfoldable pub candidate : ℕ → ℕ → Option ℕ → ℕ → ℕ
candidate num den none bad = min (ceil_ratio num den (bad + 1)) (bad - 1)
candidate num den (some good) bad =
    let idx = min (good + ceil_ratio num den (bad - good + 1)) (bad - 1) in
    let idx' = if idx == good then good + 1 else idx in if idx' == bad then bad - 1 else idx'

-- `last_good`, unless it lies above the index.
unfoldable pub good_below : Option ℕ → ℕ → Option ℕ
good_below none bad = none
good_below (some good) bad = if ltb bad good then none else some good

unfoldable pub found_good : {S : Type 0} → ℕ → ℕ → Search S → Search S
found_good idx bad s =
    if ltb bad idx
    then record s { last_good = none }
    else if (bad - idx) == 1
    then record s { last_good = some idx; last_bad = none }
    else record s { last_good = some idx }

abbrev pub empty_search : {S : Type 0} → S → Search S
empty_search w = record {
  first = true;
  last_good = none;
  last_bad = none;
  check_good = [];
  check_bad = [];
  check_fail = [];
  world = w;
}

-- A skipped element is bad, unless `on_skip` raised.
unfoldable pub note_skipped : {S : Type 0} → ℕ → Search S → S × Option String → Passage S
note_skipped this s (w, none) =
    passed (record s { check_bad = s.check_bad ++ this ∷ []; world = w })
note_skipped this s (w, some e) = escapes w e

unfoldable pub after_skip : {S : Type 0} → (Search S → Passage S) → Passage S → Passage S
after_skip later (passed s) = later s
after_skip later (escapes w e) = escapes w e

-- What follows the skipped elements.
unfoldable pub lower_bad : {S : Type 0} → ℕ → Passage S → Round S
lower_bad idx (passed s) =
    next (record s { last_bad = some idx; last_good = good_below s.last_good idx })
lower_bad idx (escapes w e) = left w e

module _ {A S : Type 0} (hooks : Hooks A S) (items : List A) (num den : ℕ) where
  -- `wrapcheck` without `skip`
  unfoldable pub wrapcheck : S → A → S × Verdict
  wrapcheck w thing =
      let (w', ret) = hooks.check w thing in
      elim ret [
        | accepted ↦ after_hook accepted (hooks.on_ok w' thing)
        | rejected ↦ after_hook rejected (hooks.on_nok w' thing)
        | unclear ↦ (w', unclear)
        | failed e ↦ (w', failed e)
      ]

  -- The `try` block of each branch.
  unfoldable pub probe : ℕ → Search S → Search S × Bool
  probe idx s = elim (get_elem? items idx) [
    | none ↦ record_verdict idx s (s.world, failed "list index out of range")
    | some thing ↦ record_verdict idx s (wrapcheck s.world thing)
  ]

  unfoldable pub lookup_or_probe : ℕ → Search S → Search S × Bool
  lookup_or_probe idx s =
      if contains idx s.check_good
      then (s, true)
      else if contains idx s.check_bad
      then (s, false)
      else probe idx s

  -- The first check, of the largest element.
  unfoldable pub check_first : Search S → Round S
  check_first s =
      if s.first
      then (let idx = length items - 1 in
          let (s', ret) = probe idx (record s { first = false }) in
          next
            (if ret then record s' { last_good = some idx } else record s' { last_bad = some idx }))
      else assertion

  -- The step down from a good element.
  unfoldable pub check_next : ℕ → Search S → Round S
  check_next good s =
      if good == 0
      then broke
      else (let idx = good - 1 in
          let (s', ret) = lookup_or_probe idx s in
          next
            (if ret then record s' { last_good = some idx } else record s' { last_bad = some idx }))

  -- `wrapcheck` with `skip`, for one index.
  unfoldable pub skip : ℕ → Search S → Passage S
  skip this s =
      if not (contains this s.check_bad) && not (contains this s.check_good)
      then elim (get_elem? items this) [
        | none ↦ escapes s.world "list index out of range"
        | some thing ↦ note_skipped this s (hooks.on_skip s.world thing)
      ]
      else passed s

  -- The loop over the indices between a new bad index and the previous one, from the top.
  unfoldable pub skip_below : ℕ → ℕ → Search S → Passage S
  skip_below zero top s = passed s
  skip_below (suc n) top s = after_skip (skip_below n (top - 1)) (skip (top - 1) s)

  unfoldable pub found_bad : ℕ → ℕ → Search S → Round S
  found_bad idx bad s = lower_bad idx (skip_below (bad - idx - 1) bad s)

  -- The bisection below a bad element.
  unfoldable pub check_between : ℕ → Search S → Round S
  check_between bad s =
      if bad == 0
      then broke
      else (let low = good_below s.last_good bad in
          let idx = candidate num den low bad in
          let (s', ret) = lookup_or_probe idx (record s { last_good = low }) in
          if ret then next (found_good idx bad s') else found_bad idx bad s')

  unfoldable pub choose : Option ℕ → Option ℕ → Search S → Round S
  choose none none s = check_first s
  choose (some good) none s = check_next good s
  choose good (some bad) s = check_between bad s

  -- One round of the `while` loop.
  unfoldable pub step : Search S → Round S
  step s = choose s.last_good s.last_bad s

  -- The loop. `none` means that the fuel ran out or that the assertion failed.
  unfoldable pub loop : ℕ → Search S → Option (Outcome S)
  loop zero s = none
  loop (suc n) s = elim (step s) [
    | broke ↦ some (returns s)
    | assertion ↦ none
    | next s' ↦ loop n s'
    | left w e ↦ some (raises w e)
  ]

  -- The lists of the result. The final assertion counts the three of them.
  unfoldable pub finish : Outcome S → Option (Outcome S)
  finish (returns s) =
      if length items == length s.check_good + length s.check_bad + length s.check_fail
      then some (returns s)
      else none
  finish (raises w e) = some (raises w e)

  -- `lazy_bisect`, with the indices of the elements and this many rounds at most.
  unfoldable pub lazy_bisect : ℕ → S → Option (Outcome S)
  lazy_bisect fuel w = elim items [
    | [] ↦ some (returns (empty_search w))
    | x ∷ xs ↦ elim (loop fuel (empty_search w)) [ none ↦ none | some o ↦ finish o ]
  ]
