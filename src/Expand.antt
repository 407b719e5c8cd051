-- ===== src/Expand.antt =====
-- src/radical/utils/dict_mixin.py: `dict_stringexpand`. Python's `%` on a text and a dictionary is a
-- parameter, which tells the two exceptions that the code ignores from the TypeError that it lets out.
pub mod Rounds
pub mod Tests
use text.Mathlib.Text.{◌==◌ as str_eq}
use radical_utils.Prelude.{
  ℕ, zero, suc, String, Bool, true, false, ◌||◌, Option, none, some, List, [], ◌∷◌, if◌then◌else◌,
}
use radical_utils.Prelude.Eq.{string_eq}
use radical_utils.Prelude.Dict.{Dict, insert}

-- `other` is a value that is neither a text, a number, a list nor a dictionary.
mutual
  pub data Value : Type 0 where
    string : String → Value
    number other : ℕ → Value
    list : Values → Value
    dict : Fields → Value

  pub data Values : Type 0 where
    nil : Values
    cons : Value → Values → Values

  pub data Fields : Type 0 where
    no_fields : Fields
    field : String → Value → Fields → Fields

abbrev pub Source : Type 0
Source = Dict String Value

unfoldable pub add_primitive : String → Value → Source → Source
add_primitive k (string s) src = insert k (string s) src
add_primitive k (number n) src = insert k (number n) src
add_primitive k (other n) src = src
add_primitive k (list vs) src = src
add_primitive k (dict f) src = src

unfoldable pub add_source : Fields → Source → Source
add_source no_fields src = src
add_source (field k v rest) src = add_source rest (add_primitive k v src)

unfoldable pub add_sources : List Fields → Source → Source
add_sources [] src = src
add_sources (f ∷ fs) src = add_sources fs (add_source f src)

-- What the texts are expanded from: the target first, so that the other sources win.
unfoldable pub repl_source : Fields → List Fields → Source
repl_source target sources = add_sources (target ∷ sources) []

-- What `%` gives: a text, one of the two exceptions that the code ignores, or its TypeError, which
-- is not caught.
pub data Format : Type 0 where
  formatted : String → Format
  incomplete type_error : Format

-- A loop over the elements of a list or a dictionary: an exception ends it, and one element that
-- changed is enough to go on.
unfoldable pub join_rounds :
    {A B C : Type 0} → (A → B → C) → Option (A × Bool) → Option (B × Bool) → Option (C × Bool)
join_rounds join none rest = none
join_rounds join (some r) none = none
join_rounds join (some (a, again)) (some (b, all_again)) = some (join a b, again || all_again)

unfoldable pub wrap_round : {A B : Type 0} → (A → B) → Option (A × Bool) → Option (B × Bool)
wrap_round wrap none = none
wrap_round wrap (some (a, again)) = some (wrap a, again)

-- How the expansion ends: with the expanded dictionary, or with the TypeError of a `%`.
pub data Outcome : Type 0 where
  returns : Fields → Outcome
  raises : Outcome

unfoldable pub format_ends : String → Format → Option (String × Bool)
format_ends s (formatted t) = if str_eq s t then some (t, false) else some (t, true)
format_ends s incomplete = some (s, false)
format_ends s type_error = none

-- What follows a round: another one, or the end. There is no outcome where the rounds are used up.
unfoldable pub after_round : (Fields → Option Outcome) → Option (Fields × Bool) → Option Outcome
after_round later none = some raises
after_round later (some (target, again)) =
    let more = later target in if again then more else some (returns target)

module _ (format : String → Source → Format) (src : Source) where
  -- `_string_stringexpand`, with no result where it raises.
  unfoldable pub string_expand : String → Option (String × Bool)
  string_expand s = format_ends s (format s src)

  -- `_generic_stringexpand`, with `_list_stringexpand` and `_dict_stringexpand`.
  unfoldable mutual
    pub generic_expand : Value → Option (Value × Bool)
    generic_expand (string s) = wrap_round string (string_expand s)
    generic_expand (number n) = some (number n, false)
    generic_expand (other n) = some (other n, false)
    generic_expand (list vs) = wrap_round list (list_expand vs)
    generic_expand (dict f) = wrap_round dict (dict_expand f)

    pub list_expand : Values → Option (Values × Bool)
    list_expand nil = some (nil, false)
    list_expand (cons v vs) = join_rounds cons (generic_expand v) (list_expand vs)

    pub dict_expand : Fields → Option (Fields × Bool)
    dict_expand no_fields = some (no_fields, false)
    dict_expand (field k v rest) = join_rounds (field k) (generic_expand v) (dict_expand rest)

  -- The loop; it has no outcome where it takes more rounds than are allowed.
  unfoldable pub expand_loop : ℕ → Fields → Option Outcome
  expand_loop zero target = none
  expand_loop (suc fuel) target = after_round (expand_loop fuel) (dict_expand target)

-- `dict_stringexpand`
unfoldable pub dict_stringexpand :
    (String → Source → Format) → ℕ → Fields → List Fields → Option Outcome
dict_stringexpand format fuel target sources =
    expand_loop format (repl_source target sources) fuel target
