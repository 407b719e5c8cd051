-- ===== src/Expand/Tests.antt =====
-- Expansions by `dict_stringexpand` of dict_mixin.py, and the theorem at one.
use text.Mathlib.Text.{◌==◌ as str_eq}
use radical_utils.Prelude.{ℕ, ◌≡◌, refl, String, none, some, [], if◌then◌else◌}
use radical_utils.Prelude.Eq.{string_eq}
use radical_utils.Prelude.Dict.{insert}
use radical_utils.Expand.{
  string, number, list, nil, cons, Fields, no_fields, field, Source, add_primitive, add_source,
  add_sources, repl_source, Format, formatted, incomplete, type_error, returns, raises, join_rounds,
  wrap_round, format_ends, after_round, string_expand, generic_expand, expand_loop,
  dict_stringexpand,
}
use radical_utils.Expand.Rounds.{value_size}

-- Two texts have something in them to expand.
unfoldable step : String → String
step s =
    if str_eq s "%(resource)s" then "%(host)s" else if str_eq s "%(host)s" then "localhost" else s

unfoldable steps_left : String → ℕ
steps_left s = if str_eq s "%(resource)s" then 2 else if str_eq s "%(host)s" then 1 else 0

abbrev format : String → Source → Format
format s src = formatted (step s)

abbrev target : Fields
target = field "url" (list (cons (string "%(resource)s") (cons (number 1) nil))) no_fields

program : Unit {0}
unfolding add_primitive add_source add_sources repl_source join_rounds wrap_round format_ends
    after_round string_expand generic_expand expand_loop dict_stringexpand insert step steps_left
    value_size
program = tt

expanded :
    dict_stringexpand format 3 target []
    ≡ some
        (returns (field "url" (list (cons (string "localhost") (cons (number 1) nil))) no_fields))
unfolding program
expanded = refl

get_text : Format → String
get_text (formatted t) = t
get_text incomplete = ""
get_text type_error = ""

-- A text that is replaced by another one again and again uses up all rounds.
abbrev swap : String → Source → Format
swap s src = formatted (if str_eq s "%(a)s" then "%(b)s" else "%(a)s")

never_done :
    dict_stringexpand swap 20 (field "a" (string "%(b)s") (field "b" (string "%(a)s") no_fields)) []
    ≡ none
unfolding program
never_done = refl

-- A text such as "50% off", at which `%` raises a TypeError, ends the expansion with it.
abbrev percents : String → Source → Format
percents s src = if str_eq s "50% off" then type_error else incomplete

raised :
    dict_stringexpand percents 3
      (field "a" (string "%(b)s") (field "b" (string "50% off") no_fields))
      []
    ≡ some raises
unfolding program
raised = refl
