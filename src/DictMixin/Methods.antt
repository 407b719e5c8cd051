-- ===== src/DictMixin/Methods.antt =====
-- What the methods of `DictMixin` of dict_mixin.py come to, over any class that behaves as a dictionary.
use radical_utils.Prelude.{
  ◌≡◌, refl, sym, ap, ◌∙◌, true, false, none, some, List, [], ◌∷◌, if◌then◌else◌, arith, inl, inr,
  Bool-cases, Option-cases,
}
use radical_utils.Prelude.Eq.{Eq}
use radical_utils.DictMixin.Minimal.{Base, IsIn, AreThere, AreDistinct, IsLawful}
use radical_utils.DictMixin.{
  and_then, mem, has_key, clear_keys, clear, update_keys, update, set_default,
}

module _ {K : Type 0} ⦃e : Eq K⦄ where
  mem-IsIn : (k : K) (ks : List K) → IsIn k ks → mem k ks ≡ true
  unfolding mem
  mem-IsIn k [] h = absurd h
  mem-IsIn k (j ∷ js) (inl same) = rw ((e.beq_iff k j).1 (sym same)) refl
  mem-IsIn k (j ∷ js) (inr later) = ground (arith, mem-IsIn k js later)

  IsIn-mem : (k : K) (ks : List K) → mem k ks ≡ true → IsIn k ks
  unfolding mem
  IsIn-mem k [] h = absurd (cc)
  IsIn-mem k (j ∷ js) h = elim (Bool-cases (e.beq k j)) [
    | inl same ↦ inl (sym ((e.beq_iff k j).0 same))
    | inr other ↦ inr (IsIn-mem k js (rw other at h))
  ]

module _ {K V : Type 0} ⦃e : Eq K⦄ (base : Base K V) (lawful : IsLawful base) where
  -- The loop of `update`: the keys that it has passed have the other's values.
  update_keys_lem :
      (ks : List K) (other s : base.State)
      → AreThere base ks other
      → (s' : base.State) × (update_keys base ks other s ≡ some s')
        × ((j : K)
            → base.get_item j s' ≡ (if mem j ks then base.get_item j other else base.get_item j s))
  unfolding update_keys and_then mem
  update_keys_lem [] other s there = (s, refl, λ j. refl)
  update_keys_lem (k ∷ ks) other s ((v, found), there) =
      let (s', ends, gets) = update_keys_lem ks other (base.set_item k v s) there in
      (
        s',
        rw (found, update_keys, and_then) ends,
        λ j.
            ground (
              arith,
              gets j,
              lawful.get_item-set_item k j v s,
              e.beq_iff j k,
              e.beq_iff k j,
              found,
            ),
      )

  still_there :
      (k : K) (ks : List K) (s s' : base.State)
      → (IsIn k ks → ⊥)
      → ((j : K) → base.get_item j s' ≡ (if e.beq k j then none else base.get_item j s))
      → AreThere base ks s
      → AreThere base ks s'
  still_there k [] s s' absent gets there = tt
  still_there k (j ∷ js) s s' absent gets ((v, found), there) = elim (Bool-cases (e.beq k j)) [
    | inl same ↦ absurd (absent (inl (sym ((e.beq_iff k j).0 same))))
    | inr apart ↦ (
      (v, gets j ∙ rw apart found),
      still_there k js s s' (λ later. absent (inr later)) gets there,
    )
  ]

  -- The loop of `clear`.
  clear_keys_lem :
      (ks : List K) (s : base.State)
      → AreThere base ks s
      → AreDistinct ks
      → (s' : base.State) × (clear_keys base ks s ≡ some s')
        × ((j : K) → base.get_item j s' ≡ (if mem j ks then none else base.get_item j s))
  unfolding clear_keys and_then mem
  clear_keys_lem [] s there distinct = (s, refl, λ j. refl)
  clear_keys_lem (k ∷ ks) s ((v, found), there) (absent, distinct) =
      let (s₁, gone, gets₁) = lawful.del_item_there k v s found in
      let (s', ends, gets) =
        clear_keys_lem ks s₁ (still_there k ks s s₁ absent gets₁ there) distinct in
      (
        s',
        rw (gone, clear_keys, and_then) ends,
        λ j. ground (arith, gets j, gets₁ j, e.beq_iff j k, e.beq_iff k j),
      )

  there_value :
      (k : K) (ks : List K) (s : base.State)
      → AreThere base ks s
      → IsIn k ks
      → (v : V) × (base.get_item k s ≡ some v)
  there_value k [] s there h = absurd h
  there_value k (j ∷ js) s ((v, found), there) (inl same) =
      (v, ap (λ i. base.get_item i s) (sym same) ∙ found)
  there_value k (j ∷ js) s ((v, found), there) (inr later) = there_value k js s there later

  no_keys_left :
      (j : K) (s s' : base.State)
      → base.get_item j s' ≡ (if mem j (base.keys s) then none else base.get_item j s)
      → base.get_item j s' ≡ none
  no_keys_left j s s' gets = elim (Option-cases (base.get_item j s)) [
    | inl gone ↦ ground (arith, gets)
    | inr (v, found) ↦
        ground (arith, gets, mem-IsIn j (base.keys s) (lawful.keys_complete j v s found))
  ]

  missing : (k : K) (s : base.State) → mem k (base.keys s) ≡ false → base.get_item k s ≡ none
  missing k s new = elim (Option-cases (base.get_item k s)) [
    | inl gone ↦ gone
    | inr (v, found) ↦
        let old : mem k (base.keys s) ≡ true =
          mem-IsIn k (base.keys s) (lawful.keys_complete k v s found) in
        absurd (cc)
  ]

  set_default_lem :
      (k : K) (default : V) (s : base.State)
      → (s' : base.State) × (v : V) × (set_default base k default s ≡ some (s', v))
        × (some v ≡ elim (base.get_item k s) [ none ↦ some default | some w ↦ some w ])
        × ((j : K) → base.get_item j s' ≡ (if e.beq k j then some v else base.get_item j s))
  unfolding set_default has_key and_then
  set_default_lem k default s = elim (Bool-cases (mem k (base.keys s))) [
    | inr new ↦ (
      base.set_item k default s,
      default,
      rw (set_default, has_key, new) refl,
      rw (missing k s new) refl,
      λ j. lawful.get_item-set_item k j default s,
    )
    | inl old ↦
        let (v, found) =
          there_value k (base.keys s) s (lawful.keys_there s) (IsIn-mem k (base.keys s) old) in
        (
          s,
          v,
          rw (set_default, has_key, old, found, and_then) refl,
          rw found refl,
          λ j. ground (arith, e.beq_iff k j, found),
        )
  ]

  -- Over a class that behaves as a dictionary, `update`, `clear` and `setdefault` always end
  -- without an exception. After `update` each key of the other dictionary has the other's value
  -- and each further key its own; after `clear` no key has a value; and `setdefault` returns the
  -- value that its key had, or the default if it had none, which is the value of the key
  -- afterwards, all other keys keeping theirs.
  pub methods_refine :
      (s other : base.State) (k : K) (default : V)
      → ((s' : base.State) × (update base other s ≡ some s')
          × ((j : K)
              → base.get_item j s'
                ≡ (if has_key base j other then base.get_item j other else base.get_item j s)))
        × ((s' : base.State) × (clear base s ≡ some s') × ((j : K) → base.get_item j s' ≡ none))
        × ((s' : base.State) × (v : V) × (set_default base k default s ≡ some (s', v))
            × (some v ≡ elim (base.get_item k s) [ none ↦ some default | some w ↦ some w ])
            × ((j : K) → base.get_item j s' ≡ (if e.beq k j then some v else base.get_item j s)))
  unfolding update clear has_key
  methods_refine s other k default =
      let (s', ends, gets) =
        clear_keys_lem (base.keys s) s (lawful.keys_there s) (lawful.keys_distinct s) in
      (
        update_keys_lem (base.keys other) other s (lawful.keys_there other),
        (s', ends, λ j. no_keys_left j s s' (gets j)),
        set_default_lem k default s,
      )
