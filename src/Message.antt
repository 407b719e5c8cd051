-- ===== src/Message.antt =====
-- What client.py, server.py and registry.py of src/radical/utils/zmq send each other: the values that
-- msgpack carries, as Python's dictionaries and lists of them. Numbers are natural numbers.
pub mod Entries
use radical_utils.Prelude.{ℕ, zero, suc, Bool, true, false, Option, none, some, List, [], ◌∷◌, ◌++◌}
use radical_utils.Prelude.Chars.{Text}

mutual
  pub data Value : Type 0 where
    null : Value
    number : ℕ → Value
    str : Text → Value
    list : Values → Value
    dict : Fields → Value

  pub data Values : Type 0 where
    nil : Values
    cons : Value → Values → Values

  pub data Fields : Type 0 where
    no_fields : Fields
    field : Text → Value → Fields → Fields

-- Python's truth value.
unfoldable pub truthy : Value → Bool
truthy null = false
truthy (number zero) = false
truthy (number (suc n)) = true
truthy (str []) = false
truthy (str (c ∷ cs)) = true
truthy (list nil) = false
truthy (list (cons v vs)) = true
truthy (dict no_fields) = false
truthy (dict (field k v rest)) = true

unfoldable pub letters : Text → Values
letters [] = nil
letters (c ∷ cs) = cons (str (c ∷ [])) (letters cs)

unfoldable pub names : Fields → Values
names no_fields = nil
names (field k v rest) = cons (str k) (names rest)

-- What a loop over a value goes through; nothing where Python raises `TypeError`.
unfoldable pub elements : Value → Option Values
elements null = none
elements (number n) = none
elements (str s) = some (letters s)
elements (list vs) = some vs
elements (dict f) = some (names f)
