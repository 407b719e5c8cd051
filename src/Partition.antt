-- ===== src/Partition.antt =====
-- src/radical/utils/algorithms.py: `partition`. The quotient and rest of a negative number, which Python
-- rounds down, are written out.
pub mod Balance
pub mod Tests
use radical_utils.Prelude.{
  ℕ, zero, suc, ◌+◌, ◌-◌, ◌/◌, ◌%◌, List, [], ◌∷◌, length, take, drop, leb, ◌==◌, if◌then◌else◌,
}

-- The end of the part `k`, which starts at `b`. Below zero, the quotient and the one that is added for
-- a rest come to the quotient of the amount, as a negative number.
unfoldable pub next_end : ℕ → ℕ → ℕ → ℕ → ℕ
next_end n nparts k b =
    if leb k n
    then b + (n - k) / nparts + (if (n - k) % nparts == 0 then 0 else 1)
    else b - (k - n) / nparts

-- `space[a:b]`
unfoldable pub slice : {A : Type 0} → ℕ → ℕ → List A → List A
slice a b space = take (b - a) (drop a space)

-- The loop: this many parts, from the part `k` on.
unfoldable pub parts_from : {A : Type 0} → ℕ → ℕ → ℕ → ℕ → List A → List (List A)
parts_from nparts zero k b space = []
parts_from nparts (suc left) k b space =
    let end = next_end (length space) nparts k b in
    slice b end space ∷ parts_from nparts left (suc k) end space

-- `partition`
unfoldable pub partition : {A : Type 0} → List A → ℕ → List (List A)
partition space nparts = parts_from nparts nparts 0 0 space
