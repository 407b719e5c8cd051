-- ===== src/TypedDict.antt =====
-- src/radical/utils/typeddict.py: the verification of values, and the operations of `TypedDict`, for
-- schemas that name no other `TypedDict`. Numbers are codes. Conversions between base types and the
-- lower-case text of a value are Python's, and parameters.
pub mod Access
pub mod Types
pub mod Kept
pub mod Setters
pub mod Tests
use Prim.Native.Char.{code}
use Prim.Native.String.{[] as empty, ◌∷◌ as ◌∷ₛ◌}
use text.Mathlib.Text.{◌==◌ as str_eq}
use radical_utils.Prelude.{
  ℕ, ◌≡◌, String, Bool, true, false, not, ◌&&◌, ◌||◌, Option, none, some, List, [], ◌∷◌, ◌++◌, ◌==◌,
  if◌then◌else◌,
}
use radical_utils.Prelude.Eq.{string_eq}
use radical_utils.Prelude.Dict.{Dict, lookup, insert, remove}

-- Values. An object has a class, and so has an instance of it.
mutual
  pub data Value : Type 0 where
    nothing : Value
    string : String → Value
    whole real : ℕ → Value
    flag : Bool → Value
    object : ℕ → ℕ → Value
    tuple list : Values → Value
    dict : Items → Value

  pub data Values : Type 0 where
    nil : Values
    cons : Value → Values → Values

  pub data Items : Type 0 where
    no_items : Items
    item : Value → Value → Items → Items

-- The types of Python that a schema names.
pub data Scalar : Type 0 where
  str int float bool : Scalar
  class : ℕ → Scalar

-- What a schema says of a value. `unknown` is anything that `_verify_kvt` has no verifier for.
pub data Kind : Type 0 where
  any unknown : Kind
  scalar : Scalar → Kind
  tuple_of list_of : Kind → Kind
  dict_of : Kind → Kind → Kind

pub data Error : Type 0 where
  type_error key_error value_missing no_data bad_name no_items_method : Error

pub data Result (A : Type 0) : Type 0 where
  ok : A → Result A
  raised : Error → Result A

unfoldable pub then_do : {A B : Type 0} → Result A → (A → Result B) → Result B
then_do (ok a) k = k a
then_do (raised e) k = raised e

unfoldable pub is_none : Value → Bool
is_none nothing = true
is_none _ = false

unfoldable pub is_str : Value → Bool
is_str (string s) = true
is_str _ = false

-- `isinstance`; a truth value is an integer as well.
unfoldable pub is_instance : (ℕ → ℕ → Bool) → Scalar → Value → Bool
is_instance sub str v = is_str v
is_instance sub int (whole n) = true
is_instance sub int (flag b) = true
is_instance sub int _ = false
is_instance sub float (real x) = true
is_instance sub float _ = false
is_instance sub bool (flag b) = true
is_instance sub bool _ = false
is_instance sub (class c) (object d n) = sub d c
is_instance sub (class c) _ = false

-- `as_tuple`
unfoldable pub as_tuple : Value → Values
as_tuple nothing = nil
as_tuple (tuple vs) = vs
as_tuple v = cons v nil

-- `as_list`
unfoldable pub as_list : Value → Values
as_list nothing = nil
as_list (list vs) = vs
as_list v = cons v nil

unfoldable pub one_of : String → List String → Bool
one_of s [] = false
one_of s (t ∷ ts) = str_eq s t || one_of s ts

-- Whether a key starts with two underscores.
unfoldable pub is_private : String → Bool
is_private empty = false
is_private (c ∷ₛ empty) = false
is_private (c ∷ₛ (d ∷ₛ s)) = code c == 95 && code d == 95

-- A list comprehension that may raise.
unfoldable pub verify_each : (Value → Result Value) → Values → Result Values
verify_each f nil = ok nil
verify_each f (cons v vs) =
    let rest = verify_each f vs in then_do (f v) (λ w. then_do rest (λ ws. ok (cons w ws)))

-- An element of a tuple or list. Its name is made of the name of the whole, which may be no text.
unfoldable pub named : Bool → Result Value → Result Value
named true r = r
named false r = raised bad_name

unfoldable pub whole_tuple : Value → Result Value
whole_tuple (tuple vs) = ok (tuple vs)
whole_tuple _ = raised type_error

unfoldable pub whole_list : Value → Result Value
whole_list (list vs) = ok (list vs)
whole_list _ = raised type_error

unfoldable pub whole_dict : Value → Result Value
whole_dict (dict m) = ok (dict m)
whole_dict _ = raised type_error

-- What the code uses of Python: `issubclass`, `t(v)` with `none` where it raises, `str(v).lower()`,
-- and the equality of keys.
pub record Python : Type 0 where
  pub sub : ℕ → ℕ → Bool
  pub convert : Scalar → Value → Option Value
  pub lower : Value → String
  pub same : Value → Value → Bool

module _ (py : Python) where
  unfoldable pub put_item : Value → Value → Items → Items
  put_item k v no_items = item k v no_items
  put_item k v (item j w rest) = if py.same j k then item j v rest else item j w (put_item k v rest)

  -- The dictionary comprehension of `_verify_dict`; `into` is what it has made so far.
  unfoldable pub verify_items :
      (Value → Result Value) → (Value → Value → Result Value) → Items → Items → Result Items
  verify_items f g no_items into = ok into
  verify_items f g (item k v rest) into =
      let later = verify_items f g rest in
      then_do (f k) (λ k'. then_do (g k v) (λ v'. later (put_item k' v' into)))

  -- `_verify_base`
  unfoldable pub verify_base : Bool → Scalar → Value → Result Value
  verify_base cast t v =
      if cast
      then elim (py.convert t v) [ some w ↦ ok w | none ↦ raised type_error ]
      else raised type_error

  -- `_verify_bool`
  unfoldable pub verify_bool : Bool → Value → Result Value
  verify_bool cast v =
      if not cast
      then raised type_error
      else if one_of (py.lower v) ("true" ∷ "yes" ∷ "1" ∷ [])
      then ok (flag true)
      else if one_of (py.lower v) ("false" ∷ "no" ∷ "0" ∷ [])
      then ok (flag false)
      else raised type_error

  -- `_verify_kvt` for a type, once the value is no instance of it.
  unfoldable pub verify_scalar : Bool → Scalar → Value → Result Value
  verify_scalar cast bool v = verify_bool cast v
  verify_scalar cast (class c) v = raised type_error
  verify_scalar cast t v = verify_base cast t v

  unfoldable pub verify_entries :
      (Value → Result Value) → (Value → Value → Result Value) → Value → Result Value
  verify_entries f g (dict m) = then_do (verify_items f g m no_items) (λ m'. ok (dict m'))
  verify_entries f g _ = raised no_items_method

  -- `_verify_kvt` with `_verify_tuple`, `_verify_list` and `_verify_dict`. The first flag is the
  -- class's `_cast`, the second says whether the name of the value is a text.
  unfoldable pub verify_kvt : Bool → Bool → Kind → Value → Result Value
  verify_kvt cast name any v = ok v
  verify_kvt cast name unknown v = if is_none v || cast then ok v else raised type_error
  verify_kvt cast name (scalar t) v =
      if is_none v || is_instance py.sub t v then ok v else verify_scalar cast t v
  verify_kvt cast name (tuple_of t) v =
      let each = verify_kvt cast true t in
      if is_none v
      then ok v
      else if cast
      then then_do (verify_each (λ w. named name (each w)) (as_tuple v)) (λ ws. ok (tuple ws))
      else whole_tuple v
  verify_kvt cast name (list_of t) v =
      let each = verify_kvt cast true t in
      if is_none v
      then ok v
      else if cast
      then then_do (verify_each (λ w. named name (each w)) (as_list v)) (λ ws. ok (list ws))
      else whole_list v
  verify_kvt cast name (dict_of tk tv) v =
      let key = λ (k : Value). verify_kvt cast (is_str k) tk k in
      let value = λ (k w : Value). verify_kvt cast (is_str k) tv w in
      if is_none v then ok v else if cast then verify_entries key value v else whole_dict v
