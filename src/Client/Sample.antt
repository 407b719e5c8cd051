-- ===== src/Client/Sample.antt =====
-- A small encoding in the place of msgpack, for runs of the client of client.py: a program for a stack
-- that builds the value, as pairs of an instruction and a number.
use mathlib.Core.Path.{subst}
use radical_utils.Prelude.{
  ℕ, ◌≡◌, refl, ◌∙◌, Option, none, some, List, [], ◌∷◌, ◌==◌, if◌then◌else◌,
}
use radical_utils.Prelude.Chars.{Text, codes}
use radical_utils.Message.{
  Value, null, number, str, list, dict, Values, nil, cons, Fields, no_fields, field,
}
use radical_utils.Server.{Fault, undecodable, unhashable, not_iterable, not_mapping, missing}
use radical_utils.Server.Requests.{Runtime}
use radical_utils.Client.Calls.{IsLawful}

pub data Item : Type 0 where
  a_value : Value → Item
  a_list : Values → Item
  a_dict : Fields → Item
  a_text : Text → Item

unfoldable pub write_text : Text → Text → Text
write_text [] k = 2 ∷ 0 ∷ k
write_text (c ∷ cs) k = write_text cs (3 ∷ c ∷ k)

unfoldable mutual
  pub write : Value → Text → Text
  write null k = 0 ∷ 0 ∷ k
  write (number n) k = 1 ∷ n ∷ k
  write (str t) k = write_text t (4 ∷ 0 ∷ k)
  write (list vs) k = write_list vs (7 ∷ 0 ∷ k)
  write (dict f) k = write_dict f (10 ∷ 0 ∷ k)

  pub write_list : Values → Text → Text
  write_list nil k = 5 ∷ 0 ∷ k
  write_list (cons v vs) k = write_list vs (write v (6 ∷ 0 ∷ k))

  pub write_dict : Fields → Text → Text
  write_dict no_fields k = 8 ∷ 0 ∷ k
  write_dict (field j v rest) k = write_dict rest (write_text j (write v (9 ∷ 0 ∷ k)))

unfoldable pub add_char : ℕ → List Item → List Item
add_char c (a_text t ∷ st) = a_text (c ∷ t) ∷ st
add_char c st = []

unfoldable pub to_value : List Item → List Item
to_value (a_text t ∷ st) = a_value (str t) ∷ st
to_value (a_list vs ∷ st) = a_value (list vs) ∷ st
to_value (a_dict f ∷ st) = a_value (dict f) ∷ st
to_value st = []

unfoldable pub add_item : List Item → List Item
add_item (a_value v ∷ a_list vs ∷ st) = a_list (cons v vs) ∷ st
add_item (a_value v ∷ a_text j ∷ a_dict f ∷ st) = a_dict (field j v f) ∷ st
add_item st = []

unfoldable pub step : ℕ → ℕ → List Item → List Item
step op a st =
    if op == 0
    then a_value null ∷ st
    else if op == 1
    then a_value (number a) ∷ st
    else if op == 2
    then a_text [] ∷ st
    else if op == 3
    then add_char a st
    else if op == 5
    then a_list nil ∷ st
    else if op == 8
    then a_dict no_fields ∷ st
    else if op == 6
    then add_item st
    else if op == 9
    then add_item st
    else to_value st

unfoldable pub built : List Item → Option Value
built (a_value v ∷ []) = some v
built st = none

unfoldable pub read : Text → List Item → Option Value
read [] st = built st
read (op ∷ []) st = none
read (op ∷ a ∷ k) st = read k (step op a st)

read-write_text : (t k : Text) (st : List Item) → read (write_text t k) st ≡ read k (a_text t ∷ st)
unfolding read write_text step add_char
read-write_text [] k st = refl
read-write_text (c ∷ cs) k st = read-write_text cs (3 ∷ c ∷ k) st

mutual
  unfolding read write step to_value add_item

  read-write :
      (v : Value) (k : Text) (st : List Item) → read (write v k) st ≡ read k (a_value v ∷ st)
  read-write null k st = refl
  read-write (number n) k st = refl
  read-write (str t) k st = read-write_text t (4 ∷ 0 ∷ k) st
  read-write (list vs) k st = read-write_list vs (7 ∷ 0 ∷ k) st
  read-write (dict f) k st = read-write_dict f (10 ∷ 0 ∷ k) st

  read-write_list :
      (vs : Values) (k : Text) (st : List Item)
      → read (write_list vs k) st ≡ read k (a_list vs ∷ st)
  read-write_list nil k st = refl
  read-write_list (cons v vs) k st =
      read-write_list vs (write v (6 ∷ 0 ∷ k)) st ∙ read-write v (6 ∷ 0 ∷ k) (a_list vs ∷ st)

  read-write_dict :
      (f : Fields) (k : Text) (st : List Item) → read (write_dict f k) st ≡ read k (a_dict f ∷ st)
  read-write_dict no_fields k st = refl
  read-write_dict (field j v rest) k st =
      read-write_dict rest (write_text j (write v (9 ∷ 0 ∷ k))) st
      ∙ read-write_text j (write v (9 ∷ 0 ∷ k)) (a_dict rest ∷ st)
      ∙ read-write v (9 ∷ 0 ∷ k) (a_text j ∷ a_dict rest ∷ st)

unfoldable pub fault_text : Fault → Text
fault_text undecodable = codes "undecodable"
fault_text unhashable = codes "unhashable"
fault_text not_iterable = codes "not iterable"
fault_text not_mapping = codes "not a mapping"
fault_text (missing key) = key

unfoldable pub runtime : Runtime
runtime = record {
  pack = λ v. some (write v []);
  unpack = λ b. read b [];
  message = fault_text;
  trace = λ m. codes "trace";
  digits = λ n. b'0' ∷ [];
}

pub runtime-IsLawful : IsLawful runtime
unfolding runtime built read
runtime-IsLawful = record {
  packs = λ v. (write v [], refl);
  unpack-pack = λ v b e.
      let same : write v [] ≡ b = cc in subst (λ c. read c [] ≡ some v) same (read-write v [] []);
}
