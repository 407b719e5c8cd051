-- ===== src/Partition/Tests.antt =====
-- Partitions by `partition` of algorithms.py, and the theorem at one.
use mathlib.Core.List.{flatten}
use radical_utils.Prelude.{ℕ, ◌≡◌, refl, List, [], ◌∷◌, length, ◌/◌, arith}
use radical_utils.Partition.{next_end, slice, parts_from, partition}
use radical_utils.Partition.Balance.{IsBalanced, partition_lem}

abbrev space : List ℕ
space = 1 ∷ 2 ∷ 3 ∷ 4 ∷ 5 ∷ 6 ∷ 7 ∷ []

partition_seven : partition space 3 ≡ (1 ∷ 2 ∷ 3 ∷ []) ∷ (4 ∷ 5 ∷ []) ∷ (6 ∷ 7 ∷ []) ∷ []
unfolding partition parts_from slice next_end
partition_seven = refl

-- More parts than elements.
abbrev two : List ℕ
two = 1 ∷ 2 ∷ []

two_in_four : partition two 4 ≡ (1 ∷ []) ∷ (2 ∷ []) ∷ [] ∷ [] ∷ []
unfolding partition parts_from slice next_end
two_in_four = refl

partition_lem_example :
    (length (partition space 3) ≡ 3)
    × (flatten (partition space 3) ≡ space)
    × IsBalanced (length space / 3) (partition space 3)
partition_lem_example = partition_lem space 3 (omega arith)
