-- ===== src/DictMixin.antt =====
-- src/radical/utils/dict_mixin.py: `DictMixin`, the methods of a dictionary over the four that a class
-- brings along.
pub mod Minimal
pub mod Methods
pub mod Tests
use radical_utils.Prelude.{
  ℕ, zero, suc, Bool, true, false, not, ◌||◌, Option, none, some, List, [], ◌∷◌, length,
  if◌then◌else◌,
}
use radical_utils.Prelude.Eq.{Eq}
use Minimal.{Base}

unfoldable pub and_then : {A B : Type 0} → Option A → (A → Option B) → Option B
and_then none f = none
and_then (some a) f = f a

module _ {K : Type 0} ⦃e : Eq K⦄ where
  unfoldable pub mem : K → List K → Bool
  mem k [] = false
  mem k (j ∷ js) = e.beq k j || mem k js

module _ {K V : Type 0} ⦃e : Eq K⦄ (base : Base K V) where
  -- `has_key`, and `__contains__`
  unfoldable pub has_key : K → base.State → Bool
  has_key k s = mem k (base.keys s)

  unfoldable pub items_of : List K → base.State → Option (List (K × V))
  items_of [] s = some []
  items_of (k ∷ ks) s =
      and_then (base.get_item k s) (λ v. and_then (items_of ks s) (λ rest. some ((k, v) ∷ rest)))

  -- `items`, to its end
  unfoldable pub items : base.State → Option (List (K × V))
  items s = items_of (base.keys s) s

  unfoldable pub clear_keys : List K → base.State → Option base.State
  clear_keys [] s = some s
  clear_keys (k ∷ ks) s = and_then (base.del_item k s) (clear_keys ks)

  -- `clear`
  unfoldable pub clear : base.State → Option base.State
  clear s = clear_keys (base.keys s) s

  -- `setdefault`
  unfoldable pub set_default : K → V → base.State → Option (base.State × V)
  set_default k default s =
      if not (has_key k s)
      then some (base.set_item k default s, default)
      else and_then (base.get_item k s) (λ v. some (s, v))

  -- `popitem`; there is no result where there is no key.
  unfoldable pub pop_item : base.State → Option (base.State × (K × V))
  pop_item s = elim (base.keys s) [
    | [] ↦ none
    | k ∷ _ ↦
        and_then (base.get_item k s) (λ v. and_then (base.del_item k s) (λ s'. some (s', (k, v))))
  ]

  unfoldable pub update_keys : List K → base.State → base.State → Option base.State
  update_keys [] other s = some s
  update_keys (k ∷ ks) other s =
      and_then (base.get_item k other) (λ v. update_keys ks other (base.set_item k v s))

  -- `update`
  unfoldable pub update : base.State → base.State → Option base.State
  update other s = update_keys (base.keys other) other s

  -- `get`
  unfoldable pub get : K → V → base.State → Option V
  get k default s = if has_key k s then base.get_item k s else some default

  -- `__len__`
  unfoldable pub len : base.State → ℕ
  len s = length (base.keys s)
