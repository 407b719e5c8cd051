-- ===== src/TypedDict/Kept.antt =====
-- What is kept of the data of a `TypedDict` of typeddict.py: the kinds of its values.
use mathlib.Core.Path.{subst}
use radical_utils.Prelude.{
  arith, ◌≡◌, refl, sym, ap, ◌∙◌, ◌&&◌, String, true, false, some, List, [], ◌∷◌, inl, inr, ◌⊎◌,
  Bool-cases,
}
use radical_utils.Prelude.Eq.{string_eq}
use radical_utils.Prelude.Dict.{Dict, lookup, insert, remove}
use radical_utils.TypedDict.{
  Value, any, unknown, scalar, tuple_of, list_of, dict_of, Kind, Result, ok, raised, is_private,
  Python,
}
use radical_utils.TypedDict.Access.{Settings, Data, untyped, is_dict}
use radical_utils.TypedDict.Types.{has_kind, Passes}

module _ (py : Python) (schema : Dict String Kind) where
  -- The value of a key is of the kind that the schema has for it.
  abbrev pub Typed : String → Value → Type 0
  Typed k v = (t : Kind) × (lookup k schema ≡ some t) × (has_kind py t v ≡ true)

  -- So is every value.
  abbrev pub AllTyped : Data → Type 0
  AllTyped [] = Unit {0}
  AllTyped ((k, v) ∷ rest) = Typed k v × AllTyped rest

  -- So is every value, private keys left aside.
  abbrev pub PublicTyped : Data → Type 0
  PublicTyped [] = Unit {0}
  PublicTyped ((k, v) ∷ rest) = ((is_private k ≡ true) ⊎ Typed k v) × PublicTyped rest

  pub insert-AllTyped :
      (k : String) (v : Value) (d : Data) → Typed k v → AllTyped d → AllTyped (insert k v d)
  unfolding insert
  insert-AllTyped k v [] h a = (h, tt)
  insert-AllTyped k v ((j, w) ∷ rest) h (hw, a) = elim (Bool-cases (string_eq.beq j k)) [
    | inl e ↦ rw e ((subst (λ i. Typed i v) (sym ((string_eq.beq_iff j k).0 e)) h), a)
    | inr n ↦ rw n (hw, insert-AllTyped k v rest h a)
  ]

  pub remove-AllTyped : (k : String) (d : Data) → AllTyped d → AllTyped (remove k d)
  unfolding remove
  remove-AllTyped k [] a = tt
  remove-AllTyped k ((j, w) ∷ rest) (hw, a) = elim (Bool-cases (string_eq.beq j k)) [
    | inl e ↦ rw e (remove-AllTyped k rest a)
    | inr n ↦ rw n (hw, remove-AllTyped k rest a)
  ]

  -- What a setter may store.
  abbrev pub MayStore : String → Result Value → Type 0
  MayStore k (ok w) = Typed k w
  MayStore k (raised e) = Unit {0}

  pub Passes-MayStore :
      (k : String) (t : Kind) (r : Result Value)
      → lookup k schema ≡ some t
      → Passes (has_kind py t) r
      → MayStore k r
  Passes-MayStore k t (ok w) e h = (t, e, h)
  Passes-MayStore k t (raised f) e h = tt

-- No dictionary for a key whose kind in the schema is `None`: it would become a `TypedDict` there.
abbrev pub IsPlain : Settings → String × Value → Type 0
IsPlain s (k, v) = lookup k s.schema ≡ some any → is_dict v ≡ false

abbrev pub ArePlain : Settings → List (String × Value) → Type 0
ArePlain s [] = Unit {0}
ArePlain s (kv ∷ kvs) = IsPlain s kv × ArePlain s kvs

untyped-any : (t : Kind) → untyped (some t) ≡ true → t ≡ any
unfolding untyped
untyped-any any h = refl
untyped-any unknown h = absurd (cc)
untyped-any (scalar t) h = absurd (cc)
untyped-any (tuple_of t) h = absurd (cc)
untyped-any (list_of t) h = absurd (cc)
untyped-any (dict_of j t) h = absurd (cc)

module _ (s : Settings) where
  pub typed_dict_refused :
      (k : String) (v : Value) (t : Kind)
      → IsPlain s (k, v)
      → lookup k s.schema ≡ some t
      → (is_dict v && untyped (lookup k s.schema)) ≡ true
      → ⊥
  typed_dict_refused k v t p found inner =
      let open_kind : untyped (lookup k s.schema) ≡ true = ground arith in
      let t_any : t ≡ any = untyped-any t (ap untyped (sym found) ∙ open_kind) in
      let plain : is_dict v ≡ false = p (found ∙ ap some t_any) in absurd (ground arith)
