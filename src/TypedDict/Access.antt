-- ===== src/TypedDict/Access.antt =====
-- The operations of `TypedDict` of typeddict.py on its data, errors included.
use radical_utils.Prelude.{
  String, Bool, true, false, not, ◌||◌, ◌&&◌, Option, none, some, List, [], ◌∷◌, if◌then◌else◌,
}
use radical_utils.Prelude.Eq.{string_eq}
use radical_utils.Prelude.Dict.{Dict, lookup, insert, remove}
use radical_utils.TypedDict.{
  Value, nothing, dict, Kind, any, unknown, scalar, tuple_of, list_of, dict_of, Error, key_error,
  value_missing, no_data, Result, ok, raised, is_none, is_private, Python, verify_kvt,
}

-- What a class fixes.
pub record Settings : Type 0 where
  pub schema : Dict String Kind
  pub check : Bool
  pub cast : Bool

abbrev pub Data : Type 0
Data = Dict String Value

pub data Reply : Type 0 where
  value : Value → Reply
  pair : String → Value → Reply
  done : Reply
  failed : Error → Reply

unfoldable pub is_empty : {A : Type 0} → List A → Bool
is_empty [] = true
is_empty (x ∷ xs) = false

-- A turn of the loop of `verify`, and what the later ones make of the rest.
unfoldable pub replace_item :
    String → Value → Data → Result Value → Data × Option Error → Data × Option Error
replace_item k v rest (ok w) later = ((k, w) ∷ later.0, later.1)
replace_item k v rest (raised e) later = ((k, v) ∷ rest, some e)

module _ (py : Python) (s : Settings) where
  -- `_verify_setter`
  unfoldable pub verify_setter : String → Value → Result Value
  verify_setter k v = if not s.check || is_empty s.schema then ok v else elim (lookup k s.schema) [
    | none ↦ raised key_error
    | some t ↦ verify_kvt py s.cast true t v
  ]

  unfoldable pub store : String → Result Value → Reply → Data → Data × Reply
  store k (ok v) r d = (insert k v d, r)
  store k (raised e) r d = (d, failed e)

  -- `__setitem__`, and `__setattr__`
  unfoldable pub set_item : String → Value → Data → Data × Reply
  set_item k v d = store k (verify_setter k v) done d

  -- `__delitem__`, and `__delattr__`
  unfoldable pub del_item : String → Data → Data × Reply
  del_item k d = elim (lookup k d) [
    | none ↦ (d, failed value_missing)
    | some v ↦ (remove k d, done)
  ]

  -- `get`
  unfoldable pub get : String → Value → Data → Reply
  get k default d = elim (lookup k d) [ none ↦ value default | some v ↦ value v ]

  -- `setdefault`, which gives the default as it was given.
  unfoldable pub set_default : String → Value → Data → Data × Reply
  set_default k default d = elim (lookup k d) [
    | none ↦ store k (verify_setter k default) (value default) d
    | some v ↦ (d, value v)
  ]

  -- `pop`
  unfoldable pub pop : String → Value → Data → Data × Reply
  pop k default d = elim (lookup k d) [
    | some v ↦ (remove k d, value v)
    | none ↦ (d, if is_none default then failed key_error else value default)
  ]

  unfoldable pub last_item : String → Value → Data → String × Value
  last_item k v [] = (k, v)
  last_item k v ((j, w) ∷ rest) = last_item j w rest

  -- `popitem`
  unfoldable pub pop_item : Data → Data × Reply
  pop_item [] = ([], failed no_data)
  pop_item ((k, v) ∷ rest) = let (j, w) = last_item k v rest in (remove j ((k, v) ∷ rest), pair j w)

  -- `clear`
  unfoldable pub clear : Data → Data × Reply
  clear d = ([], done)

  -- `__getattr__`
  unfoldable pub get_attr : String → Data → Reply
  get_attr k d = elim (lookup k d) [
    | some v ↦ value v
    | none ↦
        if is_empty s.schema
        then value nothing
        else elim (lookup k s.schema) [ none ↦ failed value_missing | some t ↦ value nothing ]
  ]

  -- The loop of `verify`: what has been replaced when it ends, and the error that ended it.
  unfoldable pub verify_data : Data → Data × Option Error
  verify_data [] = ([], none)
  verify_data ((k, v) ∷ rest) =
      let later = verify_data rest in
      if is_private k then ((k, v) ∷ later.0, later.1) else elim (lookup k s.schema) [
        | none ↦ ((k, v) ∷ rest, some key_error)
        | some t ↦ replace_item k v rest (verify_kvt py s.cast true t v) later
      ]

  -- `verify`
  unfoldable pub verify : Data → Data × Option Error
  verify d = if is_empty s.schema then (d, none) else verify_data d

-- Whether `or` passes over what the schema has for a key.
unfoldable pub untyped : Option Kind → Bool
untyped none = true
untyped (some any) = true
untyped (some unknown) = false
untyped (some (scalar t)) = false
untyped (some (tuple_of t)) = false
untyped (some (list_of t)) = false
untyped (some (dict_of k t)) = false

unfoldable pub is_dict : Value → Bool
is_dict (dict m) = true
is_dict _ = false

unfoldable pub then_next : (Data → Data × Reply) → Data × Reply → Data × Reply
then_next later (d, failed e) = (d, failed e)
then_next later (d, r) = later d

module _ (py : Python) (s : Settings) (nested : String → Value → Data → Data × Reply) where
  -- A dictionary that becomes a `TypedDict` of its own: `setdefault` may refuse it.
  unfoldable pub update_nested : String → Value → Data → Data × Reply
  update_nested k v d = elim (lookup k d) [
    | some w ↦ nested k v d
    | none ↦
        if not s.check || is_empty s.schema
        then nested k v d
        else elim (lookup k s.schema) [ none ↦ (d, failed key_error) | some t ↦ nested k v d ]
  ]

  unfoldable pub update_item : String → Value → Data → Data × Reply
  update_item k v d =
      if is_dict v && untyped (lookup k s.schema) then update_nested k v d else set_item py s k v d

  -- `update`
  unfoldable pub update : List (String × Value) → Data → Data × Reply
  update [] d = (d, done)
  update ((k, v) ∷ rest) d = then_next (update rest) (update_item k v d)
