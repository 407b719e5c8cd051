-- ===== src/Diff.antt =====
-- src/radical/utils/dict_mixin.py: `dict_diff`, on dictionaries with texts for keys. The calls of the
-- code that exchange its two arguments are those with `true` here.
pub mod Keys
pub mod Orders
pub mod Explained
pub mod Reports
pub mod Tests
use radical_utils.Prelude.{
  ℕ, ◌+◌, Bool, true, false, not, ◌&&◌, Option, none, some, List, [], ◌∷◌, map, ltb, ◌==◌,
  if◌then◌else◌,
}
use radical_utils.Prelude.Chars.{Text, same_text}
use radical_utils.Message.{
  Value, null, number, str, list, dict, Values, nil, cons, Fields, no_fields, field,
}
use radical_utils.Message.Entries.{get_field}
use radical_utils.Prefix.{less}

-- What is returned: `changed`, `only_a` and `only_b` are the dictionaries with the keys 'a' and 'b', or
-- one of them, and `lengths` is the text that names two lengths, the smaller one first.
mutual
  pub data Delta : Type 0 where
    only_a only_b : Value → Delta
    changed : Value → Value → Delta
    lengths : ℕ → ℕ → Delta
    nested : Deltas → Delta
    listed : DeltaList → Delta

  pub data Deltas : Type 0 where
    no_deltas : Deltas
    delta : Text → Delta → Deltas → Deltas

  pub data DeltaList : Type 0 where
    no_items : DeltaList
    item : Delta → DeltaList → DeltaList

unfoldable pub find_delta : Text → Deltas → Option Delta
find_delta k no_deltas = none
find_delta k (delta j d rest) = if same_text j k then some d else find_delta k rest

unfoldable pub put_delta : Text → Delta → Deltas → Deltas
put_delta k d no_deltas = delta k d no_deltas
put_delta k d (delta j e rest) =
    if same_text j k then delta j d rest else delta j e (put_delta k d rest)

-- `!=`, where the two are not both dictionaries and not both lists.
unfoldable pub differ : Value → Value → Bool
differ null null = false
differ (number n) (number m) = not (n == m)
differ (str s) (str t) = not (same_text s t)
differ v w = true

unfoldable pub pair_of : Bool → Value → Value → Delta
pair_of false v w = changed v w
pair_of true v w = changed w v

unfoldable pub plain_diff : Bool → Value → Value → Option Delta
plain_diff exchanged v w = if differ v w then some (pair_of exchanged v w) else none

unfoldable pub keys_of : Fields → List Text
keys_of no_fields = []
keys_of (field k v rest) = k ∷ keys_of rest

unfoldable pub insert_sorted : Text → List Text → List Text
insert_sorted k [] = k ∷ []
insert_sorted k (j ∷ js) =
    let more = insert_sorted k js in if less j k then j ∷ more else k ∷ j ∷ js

-- `sorted`
unfoldable pub sort : List Text → List Text
sort [] = []
sort (k ∷ ks) = insert_sorted k (sort ks)

unfoldable pub size : Values → ℕ
size nil = 0
size (cons v vs) = size vs + 1

unfoldable pub sorted_lengths : ℕ → ℕ → Delta
sorted_lengths n m = if ltb m n then lengths m n else lengths n m

unfoldable pub if_any : Deltas → Option Delta
if_any no_deltas = none
if_any (delta k d rest) = some (nested (delta k d rest))

unfoldable pub if_items : DeltaList → Option Delta
if_items no_items = none
if_items (item d rest) = some (listed (item d rest))

unfoldable pub add_item : Option Delta → DeltaList → DeltaList
add_item none rest = rest
add_item (some d) rest = item d rest

abbrev pub both_dicts : Value → Value → Bool
both_dicts (dict f) (dict g) = true
both_dicts v w = false

-- An entry of the first dictionary, with the comparison of its value to another.
pub record Entry : Type 0 where
  pub key : Text
  pub value : Value
  pub diff : Bool → Value → Option Delta

unfoldable pub find_entry : Text → List Entry → Option Entry
find_entry k [] = none
find_entry k (e ∷ es) = if same_text e.key k then some e else find_entry k es

unfoldable pub entry_keys : List Entry → List Text
entry_keys [] = []
entry_keys (e ∷ es) = e.key ∷ entry_keys es

-- The first loop, at a key of its first dictionary.
unfoldable pub first_turn : Bool → Option Entry → Option Value → Option Delta
first_turn exchanged (some e) (some w) = e.diff exchanged w
first_turn false (some e) none = some (only_a e.value)
first_turn true none (some w) = some (only_a w)
first_turn exchanged o p = none

-- The second loop, at a key of its second dictionary: two dictionaries are compared the other way
-- round.
unfoldable pub second_turn : Bool → Option Entry → Option Value → Option Delta
second_turn exchanged (some e) (some w) =
    e.diff (if both_dicts e.value w then not exchanged else exchanged) w
second_turn false none (some w) = some (only_b w)
second_turn true (some e) none = some (only_b e.value)
second_turn exchanged o p = none

unfoldable pub put_found : Text → Option Delta → Deltas → Deltas
put_found k none ret = ret
put_found k (some d) ret = put_delta k d ret

unfoldable pub pass : (Text → Option Delta) → List Text → Deltas → Deltas
pass turn [] ret = ret
pass turn (k ∷ ks) ret = pass turn ks (put_found k (turn k) ret)

-- `_dict_diff`
unfoldable pub diff_dicts : Bool → List Entry → Fields → Deltas
diff_dicts exchanged es g =
    let of_first = sort (entry_keys es) in
    let of_second = sort (keys_of g) in
    let ka = if exchanged then of_second else of_first in
    let kb = if exchanged then of_first else of_second in
    pass (λ k. second_turn exchanged (find_entry k es) (get_field k g)) kb
      (pass (λ k. first_turn exchanged (find_entry k es) (get_field k g)) ka no_deltas)

unfoldable mutual
  pub diff_values : Value → Bool → Value → Option Delta
  diff_values (dict f) exchanged (dict g) = if_any (diff_dicts exchanged (entries f) g)
  diff_values (list vs) exchanged (list ws) =
      let n = size vs in
      let m = size ws in
      let items = diff_items vs exchanged ws in
      if n == m then if_items items else some (listed (item (sorted_lengths n m) no_items))
  diff_values null exchanged w = plain_diff exchanged null w
  diff_values (number n) exchanged w = plain_diff exchanged (number n) w
  diff_values (str t) exchanged w = plain_diff exchanged (str t) w
  diff_values (dict f) exchanged w = plain_diff exchanged (dict f) w
  diff_values (list vs) exchanged w = plain_diff exchanged (list vs) w

  -- The loop of `_list_diff` over two lists of one length.
  pub diff_items : Values → Bool → Values → DeltaList
  diff_items nil exchanged ws = no_items
  diff_items (cons v vs) exchanged nil = no_items
  diff_items (cons v vs) exchanged (cons w ws) =
      add_item (diff_values v exchanged w) (diff_items vs exchanged ws)

  pub entries : Fields → List Entry
  entries no_fields = []
  entries (field k v rest) = record { key = k; value = v; diff = diff_values v } ∷ entries rest

unfoldable pub dict_diff : Fields → Fields → Deltas
dict_diff f g = diff_dicts false (entries f) g
