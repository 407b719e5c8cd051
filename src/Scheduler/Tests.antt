-- ===== src/Scheduler/Tests.antt =====
-- A bit array as a function, runs of the scheduler on it, and the theorems at them.
use radical_utils.Prelude.{
  ℕ, zero, suc, ◌+◌, ◌-◌, ◌≤◌, ◌<◌, ◌≡◌, ◌≢◌, refl, Bool, true, false, ◌&&◌, none, some, List, [],
  ◌∷◌, arith, inl, inr, contains, ltb, leb, ◌==◌, if◌then◌else◌, Bool-cases,
}
use radical_utils.Scheduler.Bits.{BitArray, IsRun, AllRuns, IsLawful}
use radical_utils.Scheduler.{
  cores, Allocation, or_else, same_node, has_core, last_core, searching, align_fuel, Scheduler,
  granted, init, align_loop, align, take_cores, take_block, scatter, place_block, alloc, dealloc,
}
use radical_utils.Prelude.Dict.{insert}
use radical_utils.Scheduler.Stats.{
  Stats, bump, close, next_core, stretches, count_free, zeros, cores_from, node_count, node_loop,
  get_stats,
}
use radical_utils.Scheduler.History.{
  take_nth, owns, owners, keep, give_back, created, allocated, freed, each_core_once,
}

record Row : Type 0 where
  size : ℕ
  free : ℕ → Bool

unfoldable bit : Row → ℕ → Bool
bit b i = ltb i b.size && b.free i

unfoldable is_run : Row → ℕ → ℕ → Bool
is_run b zero h = true
is_run b (suc req) h = bit b h && is_run b req (suc h)

unfoldable scan : Row → ℕ → ℕ → ℕ → ℕ → List ℕ
scan b req zero limit h = []
scan b req (suc fuel) zero h = []
scan b req (suc fuel) (suc limit) h =
    let hits = scan b req fuel limit (suc h) in
    let others = scan b req fuel (suc limit) (suc h) in if is_run b req h then h ∷ hits else others

unfoldable write_range : Row → ℕ → ℕ → Bool → Row
write_range b lo stop v = record b { free = λ i. if leb lo i && ltb i stop then v else b.free i }

unfoldable write_list : Row → List ℕ → Bool → Row
write_list b is v = record b { free = λ i. if contains i is then v else b.free i }

abbrev row : BitArray
row = record {
  State = Row;
  make = λ n. record { size = n; free = λ i. true };
  size = λ b. b.size;
  get = bit;
  find = λ b req limit start. scan b req (suc b.size - start) limit start;
  set_range = write_range;
  set_list = write_list;
}

is_run-IsRun : (b : Row) (req h : ℕ) → is_run b req h ≡ true → IsRun row b req h
unfolding is_run
is_run-IsRun b zero h r = λ i lo hi. absurd (omega arith)
is_run-IsRun b (suc req) h r = λ i lo hi. elim (Bool-cases (h == i)) [
  | inl e ↦ ground arith
  | inr n ↦ is_run-IsRun b req (suc h) (ground arith) i (ground arith) (omega arith)
]

IsRun-is_run : (b : Row) (req h : ℕ) → IsRun row b req h → is_run b req h ≡ true
unfolding is_run
IsRun-is_run b zero h r = refl
IsRun-is_run b (suc req) h r =
    let here = r h (omega arith) (omega arith) in
    let rest = IsRun-is_run b req (suc h) (λ i lo hi. r i (omega arith) (omega arith)) in
    rw (here, rest) refl

weaken :
    (b : Row) (req start : ℕ) (hs : List ℕ)
    → AllRuns row b req (suc start) hs
    → AllRuns row b req start hs
weaken b req start [] r = tt
weaken b req start (h ∷ hs) r = (omega (arith, r.0), r.1, weaken b req start hs r.2)

scan-AllRuns : (b : Row) (req fuel limit h : ℕ) → AllRuns row b req h (scan b req fuel limit h)
unfolding scan
scan-AllRuns b req zero limit h = tt
scan-AllRuns b req (suc fuel) zero h = tt
scan-AllRuns b req (suc fuel) (suc limit) h =
    let others = weaken b req h _ (scan-AllRuns b req fuel (suc limit) (suc h)) in
    elim (Bool-cases (is_run b req h)) [
      | inl t ↦ rw t (
        omega arith,
        is_run-IsRun b req h t,
        weaken b req h _ (scan-AllRuns b req fuel limit (suc h)),
      )
      | inr f ↦ rw f others
    ]

scan_complete :
    (b : Row) (req fuel limit start h : ℕ)
    → IsRun row b req h
    → start ≤ h
    → h < start + fuel
    → scan b req fuel (suc limit) start ≢ []
unfolding scan
scan_complete b req zero limit start h r lo hi = absurd (omega arith)
scan_complete b req (suc fuel) limit start h r lo hi = elim (Bool-cases (is_run b req start)) [
  | inl t ↦ rw t (λ e. ground arith)
  | inr f ↦ elim (Bool-cases (h == start)) [
    | inl e ↦ absurd (ground (arith, IsRun-is_run b req h r))
    | inr n ↦ rw f (scan_complete b req fuel limit (suc start) h r (ground arith) (omega arith))
  ]
]

row-IsLawful : IsLawful row
unfolding bit write_range write_list
row-IsLawful = record {
  get_bounded = λ b i e. ground arith;
  get-make = λ n i. ground arith;
  size-make = λ n. refl;
  find-runs = λ b req limit start. scan-AllRuns b req (suc b.size - start) limit start;
  find_complete = λ b req limit start h r lo hi.
      scan_complete b req (suc b.size - start) limit start h r lo (omega arith);
  get-set_range = λ b lo stop i v hi. ground arith;
  size-set_range = λ b lo stop v. refl;
  get-set_list = λ b is v i. ground arith;
  size-set_list = λ b is v. refl;
}

program : Unit {0}
unfolding init or_else alloc place_block align align_loop align_fuel same_node has_core last_core
    searching take_cores take_block scatter dealloc bit is_run scan write_range write_list take_nth
    owns owners keep give_back contains
program = tt

-- Eight cores, four on a node.
abbrev fresh : Scheduler row
fresh = record {
  free = row.make 8;
  pos = 0;
  settings = record { size = 8; ppn = 4; flag_align = true; flag_scatter = true };
}

abbrev loose : Scheduler row
loose = record fresh { settings = record (fresh.settings) { flag_align = false } }

-- Three of eight cores are left; a request for five of them is granted three.
few_left :
    (alloc row 5 (alloc row 5 loose).0).1
    ≡ granted
        (record { req = 5; place = cores (5 ∷ 6 ∷ 7 ∷ []); scattered = true; aligned = false })
unfolding program
few_left = refl

-- Three cores, three cores, and the first three given back.
abbrev one_held : Scheduler row × List Allocation
one_held = keep row (alloc row 3 loose) []

abbrev two_held : Scheduler row × List Allocation
two_held = keep row (alloc row 3 one_held.0) one_held.1

abbrev one_left : Scheduler row × List Allocation
one_left = give_back row 1 two_held.0 two_held.1

one_left_owns : owners 3 one_left.1 ≡ 1
unfolding program
one_left_owns = refl

loose_created : init row (some 8) (some 4) (some false) none ≡ some loose
unfolding program
loose_created = refl

each_core_once_example :
    owners 3 one_left.1 + (if row.get (one_left.0).free 3 then 1 else 0)
    ≡ (if ltb 3 8 then 1 else 0)
each_core_once_example =
    each_core_once row row-IsLawful 8 one_left.0 one_left.1
      (freed {s = two_held.0} {held = two_held.1} 1 (
        allocated {s = one_held.0} {held = one_held.1} 3 (omega arith) (
          allocated {s = loose} {held = []} 3 (omega arith)
            (created (some 4) (some false) none loose_created))))
      3

stats_program : Unit {0}
unfolding get_stats node_loop node_count cores_from stretches next_core close bump zeros count_free
    insert bit
stats_program = tt

-- A free scheduler is one stretch, which no table has.
abbrev stats_of_fresh : Stats
stats_of_fresh = record {
  total = 8;
  free = 8;
  busy = 0;
  free_dist = [];
  busy_dist = [];
  node_free = (0, 0) ∷ (1, 0) ∷ (2, 0) ∷ (3, 0) ∷ (4, 2) ∷ [];
}

stats_when_free : get_stats row fresh ≡ some stats_of_fresh
unfolding stats_program
stats_when_free = refl

-- Six cores do not fill their nodes.
stats_when_partial :
    get_stats row
      (record { free = row.make 6; pos = 0; settings = record (fresh.settings) { size = 6 } })
    ≡ none
unfolding stats_program
stats_when_partial = refl
