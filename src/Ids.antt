-- ===== src/Ids.antt =====
-- src/radical/utils/ids.py: `_IDRegistry`, whose methods run under its lock, one after the other.
pub mod Counters
pub mod Tests
use radical_utils.Prelude.{
  ℕ, ◌+◌, Bool, true, false, Option, none, some, List, [], ◌∷◌, if◌then◌else◌,
}
use radical_utils.Prelude.Eq.{Eq}
use radical_utils.Prelude.Dict.{Dict, lookup, insert}

-- `self._registry[prefix]`, which is there when it is read.
unfoldable pub read : Option ℕ → ℕ
read none = 0
read (some n) = n

module _ {K : Type 0} ⦃e : Eq K⦄ where
  unfoldable pub ensure : K → Option ℕ → Dict K ℕ → Dict K ℕ
  ensure k none r = insert k 0 r
  ensure k (some n) r = r

  -- `get_counter`
  unfoldable pub get_counter : K → Dict K ℕ → ℕ × Dict K ℕ
  get_counter k r =
      let r' = ensure k (lookup k r) r in let n = read (lookup k r') in (n, insert k (n + 1) r')

  -- The loop over the other prefixes.
  unfoldable pub reset_others : K → Dict K ℕ → Dict K ℕ
  reset_others k [] = []
  reset_others k ((j, n) ∷ r) = (if e.beq j k then (j, n) else (j, 0)) ∷ reset_others k r

  -- `reset_counter`
  unfoldable pub reset_counter : K → Bool → Dict K ℕ → Dict K ℕ
  reset_counter k true r = reset_others k r
  reset_counter k false r = insert k 0 r
