-- ===== src/Storage.antt =====
-- src/radical/utils/zmq/registry.py: `Registry`, with its data in memory, and `RegistryClient`. The
-- texts of Python's exceptions are parameters.
pub mod Paths
pub mod Undotted
pub mod Remote
pub mod Tests
use radical_utils.Prelude.{
  ℕ, Bool, true, false, Option, none, some, List, [], ◌∷◌, ◌++◌, if◌then◌else◌,
}
use radical_utils.Prelude.Chars.{Text, codes, split}
use radical_utils.Message.{
  Value, null, number, str, list, dict, Values, nil, cons, Fields, no_fields, field, names,
}
use radical_utils.Message.Entries.{get_field, set_field, del_field, get_or_null}
use radical_utils.Server.{
  bind_params, Outcome, returns, raises, Handler, Server, register_request, init,
}
use radical_utils.Server.Requests.{Runtime}
use radical_utils.Client.{Result, returned, raised, broken, blocks, request}

pub data Trouble : Type 0 where
  misfit no_split : Trouble
  no_key : Value → Trouble

abbrev pub is_null : Value → Bool
is_null null = true
is_null (number n) = false
is_null (str t) = false
is_null (list vs) = false
is_null (dict f) = false

-- The loop of `put`, which goes down only into the dictionaries that it makes.
unfoldable pub put_path : List Text → Value → Fields → Fields
put_path [] v f = f
put_path (k ∷ []) v f = set_field k v f
put_path (k ∷ j ∷ rest) v f =
    let fresh = put_path (j ∷ rest) v no_fields in
    let same = put_path (j ∷ rest) v f in
    if is_null (get_or_null k f) then set_field k (dict fresh) f else same

-- The loop of `get`; what is no dictionary has no `get`, and no dictionary is under it.
unfoldable pub get_path : List Text → Fields → Value
get_path [] f = null
get_path (k ∷ []) f = get_or_null k f
get_path (k ∷ j ∷ rest) f = elim (get_or_null k f) [
  | null ↦ null
  | number n ↦ null
  | str t ↦ null
  | list vs ↦ null
  | dict g ↦ get_path (j ∷ rest) g
]

module _ (text_of : Trouble → Text) where
  -- `put`, on any key.
  unfoldable pub put_key : Value → Value → Fields → Outcome × Fields
  put_key null v f = (raises (text_of no_split), f)
  put_key (number n) v f = (raises (text_of no_split), f)
  put_key (str key) v f = (returns null, put_path (split b'.' key) v f)
  put_key (list vs) v f = (raises (text_of no_split), f)
  put_key (dict g) v f = (raises (text_of no_split), f)

  unfoldable pub put_args : Option Values → Fields → Outcome × Fields
  put_args (some (cons key (cons v nil))) f = put_key key v f
  put_args other f = (raises (text_of misfit), f)

  unfoldable pub put : Handler Fields
  put args kwargs f = put_args (bind_params (codes "key" ∷ codes "val" ∷ []) args kwargs) f

  -- `get`, which answers `None` to a key that is no text too.
  unfoldable pub get_key : Value → Fields → Value
  get_key null f = null
  get_key (number n) f = null
  get_key (str key) f = get_path (split b'.' key) f
  get_key (list vs) f = null
  get_key (dict g) f = null

  unfoldable pub get_args : Option Values → Fields → Outcome × Fields
  get_args (some (cons key nil)) f = (returns (get_key key f), f)
  get_args other f = (raises (text_of misfit), f)

  unfoldable pub get : Handler Fields
  get args kwargs f = get_args (bind_params (codes "key" ∷ []) args kwargs) f

  unfoldable pub keys_args : Option Values → Fields → Outcome × Fields
  keys_args (some nil) f = (returns (list (names f)), f)
  keys_args other f = (raises (text_of misfit), f)

  unfoldable pub keys : Handler Fields
  keys args kwargs f = keys_args (bind_params [] args kwargs) f

  unfoldable pub del_found : Text → Option Value → Fields → Outcome × Fields
  del_found key none f = (raises (text_of (no_key (str key))), f)
  del_found key (some v) f = (returns null, del_field key f)

  -- `delitem`, of the key as it is.
  unfoldable pub del_key : Value → Fields → Outcome × Fields
  del_key null f = (raises (text_of (no_key null)), f)
  del_key (number n) f = (raises (text_of (no_key (number n))), f)
  del_key (str key) f = del_found key (get_field key f) f
  del_key (list vs) f = (raises (text_of (no_key (list vs))), f)
  del_key (dict g) f = (raises (text_of (no_key (dict g))), f)

  unfoldable pub del_args : Option Values → Fields → Outcome × Fields
  del_args (some (cons key nil)) f = del_key key f
  del_args other f = (raises (text_of misfit), f)

  unfoldable pub delitem : Handler Fields
  delitem args kwargs f = del_args (bind_params (codes "key" ∷ []) args kwargs) f

  -- The constructor: a server with the data's four commands beside its own two.
  unfoldable pub new_registry : Server Fields
  new_registry = register_request (codes "del") delitem (
      register_request (codes "keys") keys (
        register_request (codes "get") get
          (register_request (codes "put") put (init (text_of misfit) no_fields))))

-- What the client's methods make of a result.
unfoldable pub or_default : Value → Result → Result
or_default d (returned v) = returned v
or_default d (raised m) = returned d
or_default d broken = returned d
or_default d blocks = blocks

unfoldable pub assert_none : Result → Result
assert_none (returned v) = if is_null v then returned v else broken
assert_none (raised m) = raised m
assert_none broken = broken
assert_none blocks = blocks

unfoldable pub assert_list : Result → Result
assert_list (returned null) = broken
assert_list (returned (number n)) = broken
assert_list (returned (str t)) = broken
assert_list (returned (list vs)) = returned (list vs)
assert_list (returned (dict f)) = broken
assert_list (raised m) = raised m
assert_list broken = broken
assert_list blocks = blocks

-- The methods of `RegistryClient`, with the turn of the registry that answers them.
module _ {S : Type 0} (show : Value → Text) (rt : Runtime) where
  unfoldable pub client_get : Text → Value → Server S → Result × Server S
  client_get key d s =
      let (r, s') = request show rt (codes "get") nil (field (codes "key") (str key) no_fields) s in
      (or_default d r, s')

  unfoldable pub client_put : Text → Value → Server S → Result × Server S
  client_put key v s =
      let (r, s') =
        request show rt (codes "put") nil
          (field (codes "key") (str key) (field (codes "val") v no_fields)) s in
      (assert_none r, s')

  unfoldable pub client_del : Text → Server S → Result × Server S
  client_del key s =
      let (r, s') = request show rt (codes "del") nil (field (codes "key") (str key) no_fields) s in
      (assert_none r, s')

  unfoldable pub client_keys : Server S → Result × Server S
  client_keys s =
      let (r, s') = request show rt (codes "keys") nil no_fields s in (assert_list r, s')
