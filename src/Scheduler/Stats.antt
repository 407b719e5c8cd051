-- ===== src/Scheduler/Stats.antt =====
-- `get_stats` of scheduler_bitarray.py.
use radical_utils.Prelude.{
  ℕ, zero, suc, ◌+◌, ◌-◌, ◌*◌, Bool, true, false, Option, none, some, List, [], ◌∷◌, ltb, ◌==◌,
  if◌then◌else◌,
}
use radical_utils.Prelude.Eq.{nat_eq}
use radical_utils.Prelude.Dict.{Dict, insert}
use radical_utils.Scheduler.Bits.{BitArray}
use radical_utils.Scheduler.{Settings, Scheduler}

-- How often a number was met is one more.
unfoldable pub bump : ℕ → Dict ℕ ℕ → Dict ℕ ℕ
bump k [] = (k, 1) ∷ []
bump k ((j, n) ∷ rest) = if j == k then (j, suc n) ∷ rest else (j, n) ∷ bump k rest

-- The stretches of free and of busy cores that have ended, and the current one.
pub record Stretch : Type 0 where
  pub free_dict : Dict ℕ ℕ
  pub free_cnt : ℕ
  pub busy_dict : Dict ℕ ℕ
  pub busy_cnt : ℕ

-- The end of a stretch, if it is not empty.
unfoldable pub close : ℕ → Dict ℕ ℕ → Dict ℕ ℕ
close n d = if n == 0 then d else bump n d

unfoldable pub next_core : Bool → Stretch → Stretch
next_core true s = record {
  free_dict = s.free_dict;
  free_cnt = suc s.free_cnt;
  busy_dict = close s.busy_cnt s.busy_dict;
  busy_cnt = 0;
}
next_core false s = record {
  free_dict = close s.free_cnt s.free_dict;
  free_cnt = 0;
  busy_dict = s.busy_dict;
  busy_cnt = suc s.busy_cnt;
}

unfoldable pub stretches : List Bool → Stretch → Stretch
stretches [] s = s
stretches (c ∷ cs) s = stretches cs (next_core c s)

abbrev pub no_stretch : Stretch
no_stretch = record { free_dict = []; free_cnt = 0; busy_dict = []; busy_cnt = 0 }

unfoldable pub count_free : List Bool → ℕ
count_free [] = 0
count_free (true ∷ cs) = suc (count_free cs)
count_free (false ∷ cs) = count_free cs

pub record Stats : Type 0 where
  pub total : ℕ
  pub free : ℕ
  pub busy : ℕ
  pub free_dist : Dict ℕ ℕ
  pub busy_dist : Dict ℕ ℕ
  pub node_free : Dict ℕ ℕ

-- No core has this position, or the loop has more turns than are allowed.
pub data Nodes : Type 0 where
  counted : Dict ℕ ℕ → Nodes
  index_error too_long : Nodes

unfoldable pub zeros : ℕ → Dict ℕ ℕ
zeros zero = []
zeros (suc n) = insert n 0 (zeros n)

-- The cores from a position on.
unfoldable pub cores_from : (ℕ → Bool) → ℕ → ℕ → List Bool
cores_from core i zero = []
cores_from core i (suc n) = core i ∷ cores_from core (suc i) n

-- The free cores among this many from a position on, if all of them are there.
unfoldable pub node_count : (ℕ → Bool) → ℕ → ℕ → ℕ → Option ℕ
node_count core size i zero = some 0
node_count core size i (suc n) =
    let rest = node_count core size (suc i) n in
    if ltb i size
    then elim rest [ none ↦ none | some m ↦ some (if core i then suc m else m) ]
    else none

-- The loop over the nodes.
unfoldable pub node_loop : ℕ → (ℕ → Bool) → Settings → ℕ → Dict ℕ ℕ → Nodes
node_loop zero core s node d = too_long
node_loop (suc fuel) core s node d =
    let again = λ (d' : Dict ℕ ℕ). node_loop fuel core s (suc node) d' in
    if ltb (node * (s.ppn + 1)) s.size
    then elim (node_count core s.size (node * s.ppn) s.ppn) [
      | none ↦ index_error
      | some free_count ↦ again (bump free_count d)
    ]
    else counted d

module _ (bits : BitArray) where
  -- `get_stats`; there is no result where a position is out of range.
  unfoldable pub get_stats : Scheduler bits → Option Stats
  get_stats s =
      let size = s.settings.size in
      let cores = cores_from (bits.get s.free) 0 size in
      let r = stretches cores no_stretch in
      elim (node_loop (suc size) (bits.get s.free) s.settings 0 (zeros (suc s.settings.ppn))) [
        | index_error ↦ none
        | too_long ↦ none
        | counted d ↦ some (record {
          total = size;
          free = count_free cores;
          busy = size - count_free cores;
          free_dist = r.free_dict;
          busy_dist = r.busy_dict;
          node_free = d;
        })
      ]
