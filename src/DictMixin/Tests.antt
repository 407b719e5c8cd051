-- ===== src/DictMixin/Tests.antt =====
-- A class with two possible keys, with the methods of `DictMixin` of dict_mixin.py.
use radical_utils.Prelude.{
  ℕ, ◌≡◌, refl, Bool, true, false, not, Option, none, some, List, [], ◌∷◌, if◌then◌else◌, inl, inr,
  ◌↔◌,
}
use radical_utils.Prelude.Eq.{Eq}
use radical_utils.DictMixin.Minimal.{Base, IsIn, AreThere, AreDistinct, IsLawful}
use radical_utils.DictMixin.{and_then, has_key, clear, set_default, pop_item, update}
use radical_utils.DictMixin.Methods.{methods_refine}

unfoldable same : Bool → Bool → Bool
same true b = b
same false b = not b

same_iff : (a b : Bool) → (same a b ≡ true) ↔ (a ≡ b)
unfolding same
same_iff true true = (λ h. refl, λ h. refl)
same_iff true false = (λ h. absurd (cc), λ h. absurd (cc))
same_iff false true = (λ h. absurd (cc), λ h. absurd (cc))
same_iff false false = (λ h. refl, λ h. refl)

instance abbrev bool_eq : Eq Bool
bool_eq = record { beq = same; beq_iff = same_iff }

-- The values under the keys true and false.
abbrev Pair : Type 0
Pair = Option ℕ × Option ℕ

unfoldable get_pair : Bool → Pair → Option ℕ
get_pair true (a, b) = a
get_pair false (a, b) = b

unfoldable set_pair : Bool → Option ℕ → Pair → Pair
set_pair true v (a, b) = (v, b)
set_pair false v (a, b) = (a, v)

unfoldable del_pair : Bool → Pair → Option Pair
del_pair true (none, b) = none
del_pair true (some v, b) = some (none, b)
del_pair false (a, none) = none
del_pair false (a, some v) = some (a, none)

unfoldable keys_pair : Pair → List Bool
keys_pair (none, none) = []
keys_pair (none, some v) = false ∷ []
keys_pair (some v, none) = true ∷ []
keys_pair (some v, some w) = true ∷ false ∷ []

abbrev pair : Base Bool ℕ
pair = record {
  State = Pair;
  get_item = get_pair;
  set_item = λ k v s. set_pair k (some v) s;
  del_item = del_pair;
  keys = keys_pair;
}

get_item-set_item_pair :
    (k j : Bool) (v : ℕ) (s : Pair)
    → get_pair j (set_pair k (some v) s) ≡ (if same k j then some v else get_pair j s)
unfolding get_pair set_pair same
get_item-set_item_pair true true v (a, b) = refl
get_item-set_item_pair true false v (a, b) = refl
get_item-set_item_pair false true v (a, b) = refl
get_item-set_item_pair false false v (a, b) = refl

del_pair_there :
    (k : Bool) (v : ℕ) (s : Pair)
    → get_pair k s ≡ some v
    → (s' : Pair) × (del_pair k s ≡ some s')
      × ((j : Bool) → get_pair j s' ≡ (if same k j then none else get_pair j s))
unfolding get_pair del_pair same
del_pair_there true v (none, b) h = absurd (cc)
del_pair_there true v (some w, b) h = (
  (none, b),
  refl,
  λ j.
      elim j
        as (λ i. get_pair i (none, b) ≡ (if same true i then none else get_pair i (some w, b))) [
          | true ↦ refl
          | false ↦ refl
        ],
)
del_pair_there false v (a, none) h = absurd (cc)
del_pair_there false v (a, some w) h = (
  (a, none),
  refl,
  λ j.
      elim j
        as (λ i. get_pair i (a, none) ≡ (if same false i then none else get_pair i (a, some w))) [
          | true ↦ refl
          | false ↦ refl
        ],
)

keys_pair_there : (s : Pair) → AreThere pair (keys_pair s) s
unfolding keys_pair get_pair
keys_pair_there (none, none) = tt
keys_pair_there (none, some v) = ((v, refl), tt)
keys_pair_there (some v, none) = ((v, refl), tt)
keys_pair_there (some v, some w) = ((v, refl), ((w, refl), tt))

true_alone : IsIn true (false ∷ []) → ⊥
true_alone (inl h) = absurd (cc)
true_alone (inr h) = h

keys_pair_distinct : (s : Pair) → AreDistinct (keys_pair s)
unfolding keys_pair
keys_pair_distinct (none, none) = tt
keys_pair_distinct (none, some v) = (λ h. h, tt)
keys_pair_distinct (some v, none) = (λ h. h, tt)
keys_pair_distinct (some v, some w) = (true_alone, (λ h. h, tt))

keys_pair_complete : (k : Bool) (v : ℕ) (s : Pair) → get_pair k s ≡ some v → IsIn k (keys_pair s)
unfolding keys_pair get_pair
keys_pair_complete true v (none, b) h = absurd (cc)
keys_pair_complete true v (some w, none) h = inl refl
keys_pair_complete true v (some w, some x) h = inl refl
keys_pair_complete false v (a, none) h = absurd (cc)
keys_pair_complete false v (none, some x) h = inl refl
keys_pair_complete false v (some w, some x) h = inr (inl refl)

pair-IsLawful : IsLawful pair
pair-IsLawful = record {
  get_item-set_item = get_item-set_item_pair;
  del_item_there = del_pair_there;
  keys_there = keys_pair_there;
  keys_distinct = keys_pair_distinct;
  keys_complete = keys_pair_complete;
}

methods_refine_example :
    ((s' : Pair) × (update pair (none, some 2) (some 1, none) ≡ some s')
      × ((j : Bool)
          → get_pair j s' ≡ (
              if has_key pair j (none, some 2)
              then get_pair j (none, some 2)
              else get_pair j (some 1, none))))
    × ((s' : Pair) × (clear pair (some 1, none) ≡ some s') × ((j : Bool) → get_pair j s' ≡ none))
    × ((s' : Pair) × (v : ℕ) × (set_default pair true 5 (some 1, none) ≡ some (s', v))
        × (some v ≡ elim (get_pair true (some 1, none)) [ none ↦ some 5 | some w ↦ some w ])
        × ((j : Bool)
            → get_pair j s' ≡ (if same true j then some v else get_pair j (some 1, none))))
methods_refine_example = methods_refine pair pair-IsLawful (some 1, none) (none, some 2) true 5

-- The first key, its value, and what is left.
pop_first : pop_item pair (some 1, some 2) ≡ some ((none, some 2), (true, 1))
unfolding pop_item and_then keys_pair get_pair del_pair
pop_first = refl
