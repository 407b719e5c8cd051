-- ===== src/TypedDict/Tests.antt =====
-- A `TypedDict` of typeddict.py with a schema, and the theorems at it.
use text.Mathlib.Text.{◌==◌ as str_eq}
use mathlib.Core.Path.{subst}
use radical_utils.Prelude.{
  String, ◌≡◌, refl, ap, Bool, true, false, Option, none, some, List, [], ◌∷◌, ◌==◌, if◌then◌else◌,
  Bool-cases, inl, inr,
}
use radical_utils.Prelude.Eq.{string_eq}
use radical_utils.Prelude.Dict.{lookup, insert, remove, keys}
use radical_utils.TypedDict.{
  Value, nothing, string, whole, flag, list, dict, nil, cons, no_items, item, Scalar, str, int,
  float, bool, class, scalar, list_of, dict_of, bad_name, then_do, is_none, is_str, is_instance,
  as_tuple, as_list, one_of, is_private, verify_each, Python, put_item, verify_items, verify_base,
  verify_bool, verify_scalar, named, whole_tuple, whole_list, whole_dict, verify_entries,
  verify_kvt,
}
use radical_utils.TypedDict.Access.{
  Settings, Reply, done, is_dict, Data, value, is_empty, verify_setter, store, set_item, del_item,
  get, set_default, pop, last_item, pop_item, clear, get_attr, replace_item, verify_data, verify,
}
use radical_utils.TypedDict.Types.{IsConverting}
use radical_utils.TypedDict.Kept.{AllTyped, PublicTyped}
use radical_utils.TypedDict.Setters.{
  Call, sets, defaults, pops, updates, verifies, do_call, run, run-AllTyped, verify-PublicTyped,
}

-- A conversion to an integer that knows one number, and of texts only.
unfoldable convert : Scalar → Value → Option Value
convert str v = some (string "5")
convert int v = if is_str v then some (whole 5) else none
convert float v = none
convert bool v = none
convert (class c) v = none

unfoldable same : Value → Value → Bool
same (string s) (string t) = str_eq s t
same (whole n) (whole m) = n == m
same _ _ = false

abbrev python : Python
python = record { sub = ◌==◌; convert = convert; lower = λ v. "yes"; same = same }

program : Unit {0}
unfolding then_do is_none is_str is_instance as_tuple as_list one_of is_private verify_each put_item
    verify_items verify_base verify_bool verify_scalar named whole_tuple whole_list whole_dict
    verify_entries verify_kvt is_empty verify_setter store set_item del_item get set_default pop
    last_item pop_item clear get_attr replace_item verify_data verify lookup insert remove do_call
    run convert same
program = tt

-- Whether a value, if there is one, is of a type.
unfoldable is_good : Scalar → Option Value → Bool
is_good t none = true
is_good t (some w) = is_instance python.sub t w

is_good-convert : (t : Scalar) (v : Value) → is_good t (convert t v) ≡ true
unfolding is_good convert is_instance is_str
is_good-convert str v = refl
is_good-convert int v = elim (Bool-cases (is_str v)) [ inl y ↦ rw y refl | inr n ↦ rw n refl ]
is_good-convert float v = refl
is_good-convert bool v = refl
is_good-convert (class c) v = refl

python-IsConverting : IsConverting python
unfolding is_good
python-IsConverting t v w e = subst (λ o. is_good t o ≡ true) e (is_good-convert t v)

abbrev settings : Settings
settings = record {
  schema = ("cores", scalar int) ∷ ("hosts", dict_of (scalar int) (list_of (scalar str))) ∷ [];
  check = true;
  cast = true;
}

schemed : is_empty settings.schema ≡ false
unfolding is_empty
schemed = refl

abbrev hosts : Value
hosts = dict (item (string "5") (list (cons (whole 1) nil)) no_items)

abbrev data_before : Data
data_before = ("cores", string "5") ∷ ("__id", flag true) ∷ ("hosts", hosts) ∷ []

abbrev data_after : Data
data_after =
    ("cores", whole 5)
    ∷ ("__id", flag true)
    ∷ ("hosts", dict (item (whole 5) (list (cons (string "5") nil)) no_items))
    ∷ []

verify_casts : verify python settings data_before ≡ (data_after, none)
unfolding program
verify_casts = refl

-- What has been verified is refused when it is verified again.
verify_twice : (verify python settings data_after).1 ≡ some bad_name
unfolding program
verify_twice = refl

-- The default that was stored is not the one that is returned.
set_default_uncast :
    set_default python settings "cores" (string "5") []
    ≡ (("cores", whole 5) ∷ [], value (string "5"))
unfolding program
set_default_uncast = refl

verify-PublicTyped_example :
    PublicTyped python settings.schema (verify python settings data_before).0
    × (keys (verify python settings data_before).0 ≡ keys data_before)
verify-PublicTyped_example =
    verify-PublicTyped python python-IsConverting settings refl data_before schemed
      (ap (λ r. r.1) verify_casts)

-- A `TypedDict` within the other one stays as it is.
abbrev kept : String → Value → Data → Data × Reply
kept k v d = (d, done)

abbrev calls : List Call
calls =
    sets "cores" (string "5")
    ∷ sets "other" nothing
    ∷ defaults "hosts" hosts
    ∷ pops "cores" nothing
    ∷ updates (("cores", string "5") ∷ ("hosts", hosts) ∷ [])
    ∷ verifies
    ∷ []

run-AllTyped_example : AllTyped python settings.schema (run python settings kept calls [])
unfolding program is_dict
run-AllTyped_example =
    run-AllTyped python python-IsConverting settings refl refl schemed kept calls []
      (tt, (tt, (tt, (tt, ((λ e. refl, (λ e. absurd (cc), tt)), (tt, tt)))))) tt
