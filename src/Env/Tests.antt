-- ===== src/Env/Tests.antt =====
-- Environments that env.py reads and quotes, and the theorems at some.
use radical_utils.Prelude.{◌≡◌, refl, List, [], ◌∷◌}
use radical_utils.Prelude.Chars.{codes, text_eq, same_text, has_char, split_max, add_first}
use radical_utils.Prelude.Dict.{insert}
use radical_utils.Env.{
  escape, needs_double, quote, unescape, starts_with, ends_with, drop_last, inner, unquote,
  is_letter, is_word, all_word, is_snake_case, function_end, function_name, after_prefix,
  is_bash_function, has_text, is_space, strip_left, add_unless, strip_right, strip, rstrip_breaks,
  store_found, store_last, continue_value, begin_key, read_split, read_stripped, read_lines,
  env_read_lines,
}
use radical_utils.Env.Quotes.{unquote-quote}
use radical_utils.Env.Lines.{Variable, print_env, set_all, env_read_lines-print_env}

program : Unit {0}
unfolding same_text has_char split_max add_first insert escape needs_double quote unescape
    starts_with ends_with drop_last inner unquote is_letter is_word all_word is_snake_case
    function_end function_name after_prefix is_bash_function has_text is_space strip_left add_unless
    strip_right strip rstrip_breaks store_found store_last continue_value begin_key read_split
    read_stripped read_lines env_read_lines
program = tt

abbrev variables : List Variable
variables =
    record { name = codes "HOME"; first = codes "/root"; more = [] }
    ∷ record { name = codes "MSG"; first = codes "two"; more = codes "lines" ∷ [] }
    ∷ []

read_back :
    env_read_lines (
      codes "HOME=/root"
      ∷ codes "MSG=two"
      ∷ codes "lines"
      ∷ codes "PS1=x"
      ∷ codes "BASH_FUNC_ml%%=() {"
      ∷ [])
    ≡ (codes "HOME", codes "/root")
      ∷ (codes "MSG", codes "two\nlines")
      ∷ (codes "BASH_FUNC_ml%%", codes "() {")
      ∷ []
unfolding program
read_back = refl

-- An empty line of a value is lost.
empty_line :
    env_read_lines (codes "MSG=two" ∷ [] ∷ codes "lines" ∷ [])
    ≡ (codes "MSG", codes "two\nlines") ∷ []
unfolding program
empty_line = refl

-- A dollar sign comes back with a backslash.
dollar : unquote (quote (codes "a$b")) ≡ codes "a\\$b"
unfolding program
dollar = refl

unquote-quote_example : unquote (quote (codes "it's \"1\"")) ≡ codes "it's \"1\""
unfolding has_char
unquote-quote_example = unquote-quote (codes "it's \"1\"") refl

env_read_lines-print_env_example : env_read_lines (print_env variables) ≡ set_all variables []
unfolding is_snake_case all_word is_word is_letter has_text same_text strip strip_left strip_right
    add_unless is_space has_char
env_read_lines-print_env_example = env_read_lines-print_env variables (
  record { valid = refl; listed = refl; stripped = refl; one_line = refl; rest = tt },
  (
    record {
      valid = refl;
      listed = refl;
      stripped = refl;
      one_line = refl;
      rest = (record { some_text = λ e. absurd (cc); no_sign = refl; one_line = refl }, tt);
    },
    tt,
  ),
)
