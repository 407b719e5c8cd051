-- ===== src/Message/Entries.antt =====
-- The dictionaries among the messages of src/radical/utils/zmq: an old key keeps its place, and a new
-- one goes to the end.
use radical_utils.Prelude.{◌≡◌, refl, Option, none, some, if◌then◌else◌, arith}
use radical_utils.Prelude.Chars.{Text, same_text, same_text_iff}
use radical_utils.Message.{Value, null, Fields, no_fields, field}

unfoldable pub get_field : Text → Fields → Option Value
get_field k no_fields = none
get_field k (field j v rest) = if same_text j k then some v else get_field k rest

unfoldable pub set_field : Text → Value → Fields → Fields
set_field k v no_fields = field k v no_fields
set_field k v (field j w rest) =
    if same_text j k then field j v rest else field j w (set_field k v rest)

unfoldable pub del_field : Text → Fields → Fields
del_field k no_fields = no_fields
del_field k (field j w rest) =
    let later = del_field k rest in if same_text j k then rest else field j w later

unfoldable pub or_null : Option Value → Value
or_null none = null
or_null (some v) = v

-- `get`, with `None` where the key is missing.
unfoldable pub get_or_null : Text → Fields → Value
unfolding or_null
get_or_null k f = or_null (get_field k f)

pub get_field-set_field :
    (k j : Text) (v : Value) (f : Fields)
    → get_field j (set_field k v f) ≡ (if same_text k j then some v else get_field j f)
unfolding get_field set_field
get_field-set_field k j v no_fields = refl
get_field-set_field k j v (field i w rest) =
    ground (
      arith,
      same_text_iff k j,
      same_text_iff i k,
      same_text_iff i j,
      get_field-set_field k j v rest,
    )

pub get_field-set_field_self :
    (k : Text) (v : Value) (f : Fields) → get_field k (set_field k v f) ≡ some v
get_field-set_field_self k v f = ground (arith, same_text_iff k k, get_field-set_field k k v f)
