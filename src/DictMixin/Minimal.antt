-- ===== src/DictMixin/Minimal.antt =====
-- What a class that uses `DictMixin` of dict_mixin.py brings along, and what a dictionary promises of it.
use radical_utils.Prelude.{◌⊎◌, ◌≡◌, Option, none, some, List, [], ◌∷◌, if◌then◌else◌}
use radical_utils.Prelude.Eq.{Eq}

-- There is no result where a key is missing.
pub record Base (K V : Type 0) : Type 1 where
  pub State : Type 0
  pub get_item : K → State → Option V
  pub set_item : K → V → State → State
  pub del_item : K → State → Option State
  pub keys : State → List K

abbrev pub IsIn : {K : Type 0} → K → List K → Type 0
IsIn k [] = ⊥
IsIn k (j ∷ js) = (j ≡ k) ⊎ IsIn k js

abbrev pub AreDistinct : {K : Type 0} → List K → Type 0
AreDistinct [] = Unit {0}
AreDistinct (k ∷ ks) = (IsIn k ks → ⊥) × AreDistinct ks

module _ {K V : Type 0} ⦃e : Eq K⦄ (base : Base K V) where
  abbrev pub AreThere : List K → base.State → Type 0
  AreThere [] s = Unit {0}
  AreThere (k ∷ ks) s = ((v : V) × (base.get_item k s ≡ some v)) × AreThere ks s

  pub record IsLawful : Type 0 where
    pub get_item-set_item :
        (k j : K) (v : V) (s : base.State)
        → base.get_item j (base.set_item k v s) ≡ (if e.beq k j then some v else base.get_item j s)
    pub del_item_there :
        (k : K) (v : V) (s : base.State)
        → base.get_item k s ≡ some v
        → (s' : base.State) × (base.del_item k s ≡ some s')
          × ((j : K) → base.get_item j s' ≡ (if e.beq k j then none else base.get_item j s))
    pub keys_there : (s : base.State) → AreThere (base.keys s) s
    pub keys_distinct : (s : base.State) → AreDistinct (base.keys s)
    pub keys_complete :
        (k : K) (v : V) (s : base.State) → base.get_item k s ≡ some v → IsIn k (base.keys s)
