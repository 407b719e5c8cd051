-- ===== src/Scheduler/Stretches.antt =====
-- What `get_stats` of scheduler_bitarray.py counts, and when it ends.
use mathlib.Core.Path.{subst₂}
use radical_utils.Prelude.{
  ℕ, zero, suc, ◌+◌, ◌-◌, ◌*◌, ◌≤◌, ◌<◌, ◌≡◌, refl, ap, Bool, true, false, some, List, [], ◌∷◌,
  length, ltb, ◌==◌, if◌then◌else◌, arith, inl, inr, Bool-cases,
}
use radical_utils.Prelude.Dict.{Dict}
use radical_utils.Scheduler.Bits.{BitArray}
use radical_utils.Scheduler.{Settings, Scheduler}
use radical_utils.Scheduler.Stats.{
  bump, Stretch, close, next_core, stretches, no_stretch, count_free, Stats, counted, zeros,
  cores_from, node_count, node_loop, get_stats,
}

-- How many cores the stretches of a table have together.
unfoldable pub weight : Dict ℕ ℕ → ℕ
weight [] = 0
weight ((k, n) ∷ rest) = n * k + weight rest

weight-bump : (k : ℕ) (d : Dict ℕ ℕ) → weight (bump k d) ≡ weight d + k
unfolding weight bump
weight-bump k [] = omega arith
weight-bump k ((j, n) ∷ rest) = elim (Bool-cases (j == k)) [
  | inl e ↦
      let same : n * j ≡ n * k = ap (λ a. n * a) (ground arith) in
      let more : suc n * j ≡ n * j + j = grind arith in rw e (ground (arith, more, same))
  | inr f ↦ rw f (omega (arith, weight-bump k rest))
]

weight-close : (n : ℕ) (d : Dict ℕ ℕ) → weight (close n d) ≡ weight d + n
unfolding close
weight-close n d = ground (arith, weight-bump n d)

-- What is counted of the cores so far: all but the current stretch, which is of one kind.
record Counted (free busy : ℕ) (s : Stretch) : Type 0 where
  free_are : weight s.free_dict + s.free_cnt ≡ free
  busy_are : weight s.busy_dict + s.busy_cnt ≡ busy

count_free_bounded : (cs : List Bool) → count_free cs ≤ length cs
unfolding count_free
count_free_bounded [] = omega arith
count_free_bounded (true ∷ cs) = omega (arith, count_free_bounded cs)
count_free_bounded (false ∷ cs) = omega (arith, count_free_bounded cs)

stretches-Counted :
    (cs : List Bool) (free busy : ℕ) (s : Stretch)
    → Counted free busy s
    → Counted (free + count_free cs) (busy + (length cs - count_free cs)) (stretches cs s)
unfolding stretches count_free next_core
stretches-Counted [] free busy s c = record {
  free_are = omega (arith, c.free_are);
  busy_are = omega (arith, c.busy_are);
}
stretches-Counted (true ∷ cs) free busy s c =
    let next : Counted (suc free) busy (next_core true s) = record {
      free_are = omega (arith, c.free_are);
      busy_are = omega (arith, c.busy_are, weight-close s.busy_cnt s.busy_dict);
    } in
    subst₂ (λ f b. Counted f b (stretches cs (next_core true s))) {y = free + suc (count_free cs)}
      {v = busy + (suc (length cs) - suc (count_free cs))} (omega arith) (omega arith)
      (stretches-Counted cs (suc free) busy (next_core true s) next)
stretches-Counted (false ∷ cs) free busy s c =
    let next : Counted free (suc busy) (next_core false s) = record {
      free_are = omega (arith, c.free_are, weight-close s.free_cnt s.free_dict);
      busy_are = omega (arith, c.busy_are);
    } in
    subst₂ (λ f b. Counted f b (stretches cs (next_core false s))) {y = free + count_free cs}
      {v = busy + (suc (length cs) - count_free cs)} (omega arith)
      (omega (arith, count_free_bounded cs))
      (stretches-Counted cs free (suc busy) (next_core false s) next)

-- The current stretch is not empty once a core was seen.
open_stretch :
    (cs : List Bool) (s : Stretch)
    → 0 < length cs + s.free_cnt + s.busy_cnt
    → 0 < (stretches cs s).free_cnt + (stretches cs s).busy_cnt
unfolding stretches next_core
open_stretch [] s h = omega arith
open_stretch (true ∷ cs) s h = open_stretch cs (next_core true s) (omega arith)
open_stretch (false ∷ cs) s h = open_stretch cs (next_core false s) (omega arith)

node_count_there :
    (core : ℕ → Bool) (size i n : ℕ) → i + n ≤ size → (m : ℕ) × (node_count core size i n ≡ some m)
unfolding node_count
node_count_there core size i zero h = (0, refl)
node_count_there core size i (suc n) h =
    let (m, rest) = node_count_there core size (suc i) n (omega arith) in
    let inside : ltb i size ≡ true = ground arith in
    (if core i then suc m else m, rw (inside, rest) refl)

-- A node that the loop reaches is there, if the cores fill the nodes.
node_fits :
    (ppn n node size : ℕ) → size ≡ n * ppn → node * (ppn + 1) < size → node * ppn + ppn ≤ size
node_fits ppn n node size full below = elim (Bool-cases (ltb node n)) [
  | inl before ↦
      let next : suc node ≤ n = ground arith in
      let product : suc node * ppn ≤ n * ppn = grind arith in
      let same : suc node * ppn ≡ node * ppn + ppn = grind arith in omega (arith, product)
  | inr beyond ↦
      let past : n ≤ node = ground arith in
      let product : n * ppn ≤ node * ppn = grind arith in
      let spread : node * (ppn + 1) ≡ node * ppn + node = grind arith in
      absurd (omega (arith, product, spread))
]

node_loop_ends :
    (fuel : ℕ) (core : ℕ → Bool) (s : Settings) (n node : ℕ) (d : Dict ℕ ℕ)
    → s.size ≡ n * s.ppn
    → s.size < node + fuel
    → node ≤ s.size
    → (d' : Dict ℕ ℕ) × (node_loop fuel core s node d ≡ counted d')
unfolding node_loop
node_loop_ends zero core s n node d full enough inside = absurd (omega arith)
node_loop_ends (suc fuel) core s n node d full enough inside =
    elim (Bool-cases (ltb (node * (s.ppn + 1)) s.size)) [
      | inr over ↦ (d, rw (over, node_loop) refl)
      | inl on ↦
          let below : node * (s.ppn + 1) < s.size = ground arith in
          let spread : node * (s.ppn + 1) ≡ node * s.ppn + node = grind arith in
          let fits : node * s.ppn + s.ppn ≤ s.size = node_fits s.ppn n node s.size full below in
          let (m, found) = node_count_there core s.size (node * s.ppn) s.ppn fits in
          let (d', rest) =
            node_loop_ends fuel core s n (suc node) (bump m d) full (omega arith)
              (omega (arith, spread)) in
          (d', rw (on, node_loop, found) rest)
    ]

length-cores_from : (core : ℕ → Bool) (i n : ℕ) → length (cores_from core i n) ≡ n
unfolding cores_from
length-cores_from core i zero = refl
length-cores_from core i (suc n) = ap suc (length-cores_from core (suc i) n)

module _ (bits : BitArray) where
  -- Where the cores fill their nodes, `get_stats` has a result. Its free and busy cores are all
  -- the cores; the stretches in its tables have no more cores than that, of either kind, and if
  -- there are cores at all, then one of the two tables lacks some: the last stretch is never
  -- entered.
  pub get_stats_lem :
      (s : Scheduler bits) (n : ℕ)
      → s.settings.size ≡ n * s.settings.ppn
      → 0 < s.settings.size
      → (r : Stats) × (get_stats bits s ≡ some r)
        × (r.free + r.busy ≡ s.settings.size)
        × (weight r.free_dist ≤ r.free)
        × (weight r.busy_dist ≤ r.busy)
        × (weight r.free_dist + weight r.busy_dist < s.settings.size)
  unfolding get_stats weight
  get_stats_lem s n full some_core =
      let size = s.settings.size in
      let cores = cores_from (bits.get s.free) 0 size in
      let all = length-cores_from (bits.get s.free) 0 size in
      let counts =
        stretches-Counted cores 0 0 no_stretch (record { free_are = refl; busy_are = refl }) in
      let free_are = counts.free_are in
      let busy_are = counts.busy_are in
      let last = open_stretch cores no_stretch (omega arith) in
      let bounded = count_free_bounded cores in
      let (d, ends) =
        node_loop_ends (suc size) (bits.get s.free) s.settings n 0 (zeros (suc s.settings.ppn)) full
          (omega arith) (omega arith) in
      rw (ends, get_stats) (_, refl, omega arith, omega arith, omega arith, omega arith)
