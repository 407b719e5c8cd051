-- ===== src/Env.antt =====
-- src/radical/utils/env.py: `env_read_lines`, `_quote` and `_unquote`. Texts are lists of
-- ASCII code points.
pub mod Quotes
pub mod Lines
pub mod Tests
use radical_utils.Prelude.{
  ℕ, zero, suc, ◌+◌, Bool, true, false, ◌&&◌, ◌||◌, not, Option, none, some, List, [], ◌∷◌, ◌++◌,
  ltb, leb, ◌==◌, if◌then◌else◌,
}
use radical_utils.Prelude.Eq.{Eq}
use radical_utils.Prelude.Chars.{Text, codes, text_eq, same_text, has_char, split_max, lstrip}
use radical_utils.Prelude.Dict.{Dict, insert, lookup}

-- `_quote`: a backslash before each double quote, and one before each dollar sign.
unfoldable pub escape : ℕ → Text → Text
escape q [] = []
escape q (c ∷ cs) = if c == q then b'\\' ∷ c ∷ escape q cs else c ∷ escape q cs

unfoldable pub needs_double : Text → Bool
needs_double d = has_char b'\'' d || has_char b'$' d || has_char b'`' d

unfoldable pub quote : Text → Text
quote d =
    if needs_double d
    then b'"' ∷ (escape b'$' (escape b'"' d) ++ b'"' ∷ [])
    else b'\'' ∷ (d ++ b'\'' ∷ [])

-- `replace` of a backslash and a double quote by the double quote.
unfoldable pub unescape : Text → Text
unescape [] = []
unescape (c ∷ []) = c ∷ []
unescape (c ∷ d ∷ cs) =
    let skipped = unescape cs in
    let kept = unescape (d ∷ cs) in if c == b'\\' && d == b'"' then d ∷ skipped else c ∷ kept

unfoldable pub starts_with : ℕ → Text → Bool
starts_with q [] = false
starts_with q (c ∷ cs) = c == q

unfoldable pub ends_with : ℕ → Text → Bool
ends_with q [] = false
ends_with q (c ∷ []) = c == q
ends_with q (c ∷ d ∷ cs) = ends_with q (d ∷ cs)

unfoldable pub drop_last : Text → Text
drop_last [] = []
drop_last (c ∷ []) = []
drop_last (c ∷ d ∷ cs) = c ∷ drop_last (d ∷ cs)

-- `[1:-1]`
unfoldable pub inner : Text → Text
inner [] = []
inner (c ∷ cs) = drop_last cs

unfoldable pub unquote : Text → Text
unquote d =
    if starts_with b'\'' d && ends_with b'\'' d
    then inner d
    else if starts_with b'"' d && ends_with b'"' d
    then unescape (inner d)
    else d

abbrev pub between : ℕ → ℕ → ℕ → Bool
between lo hi c = leb lo c && leb c hi

unfoldable pub is_letter : ℕ → Bool
is_letter c = between b'a' b'z' c || between b'A' b'Z' c || c == b'_'

unfoldable pub is_word : ℕ → Bool
is_word c = is_letter c || between b'0' b'9' c

unfoldable pub all_word : Text → Bool
all_word [] = true
all_word (c ∷ cs) = is_word c && all_word cs

-- `re_snake_case`
unfoldable pub is_snake_case : Text → Bool
is_snake_case [] = false
is_snake_case (c ∷ cs) = is_letter c && all_word cs

-- The end of a function's key, after at least one more character of its name.
unfoldable pub function_end : Bool → Text → Bool
function_end more [] = false
function_end more (c ∷ cs) =
    let later = function_end true cs in
    if is_word c
    then later
    else more && (same_text (c ∷ cs) (codes "%%") || same_text (c ∷ cs) (codes "()"))

unfoldable pub function_name : Text → Bool
function_name [] = false
function_name (c ∷ cs) = is_letter c && function_end false cs

unfoldable pub after_prefix : Text → Text → Option Text
after_prefix [] t = some t
after_prefix (p ∷ ps) [] = none
after_prefix (p ∷ ps) (c ∷ cs) = if p == c then after_prefix ps cs else none

-- `re_bash_function`
unfoldable pub is_bash_function : Text → Bool
is_bash_function t = elim (after_prefix (codes "BASH_FUNC_") t) [
  | none ↦ false
  | some r ↦ function_name r
]

abbrev pub blacklist : List Text
blacklist =
    codes "PS1" ∷ codes "LS_COLORS" ∷ codes "_" ∷ codes "SHLVL" ∷ codes "PROMPT_COMMAND" ∷ []

unfoldable pub has_text : Text → List Text → Bool
has_text t [] = false
has_text t (u ∷ us) = same_text t u || has_text t us

unfoldable pub is_space : ℕ → Bool
is_space c = c == 32 || between 9 13 c || between 28 31 c

unfoldable pub strip_left : Text → Text
strip_left [] = []
strip_left (c ∷ cs) = let rest = strip_left cs in if is_space c then rest else c ∷ cs

unfoldable pub add_unless : Bool → ℕ → Text → Text
add_unless drops c [] = if drops then [] else c ∷ []
add_unless drops c (d ∷ ds) = c ∷ d ∷ ds

-- `strip`, at the end.
unfoldable pub strip_right : Text → Text
strip_right [] = []
strip_right (c ∷ cs) = add_unless (is_space c) c (strip_right cs)

unfoldable pub strip : Text → Text
strip t = strip_right (strip_left t)

-- `rstrip` of line breaks.
unfoldable pub rstrip_breaks : Text → Text
rstrip_breaks [] = []
rstrip_breaks (c ∷ cs) = add_unless (c == 10) c (rstrip_breaks cs)

pub record Reading : Type 0 where
  pub env : Dict Text Text
  pub key : Option Text
  pub val : Text

-- The previous key and its value, if there is one that is not on the blacklist.
unfoldable pub store_found : Option Text → Text → Dict Text Text → Dict Text Text
store_found none v env = env
store_found (some []) v env = env
store_found (some (c ∷ cs)) v env =
    if has_text (c ∷ cs) blacklist then env else insert (c ∷ cs) v env

unfoldable pub store_last : Reading → Dict Text Text
store_last r = store_found r.key r.val r.env

unfoldable pub continue_value : Text → Reading → Reading
continue_value line r = record r { val = r.val ++ (10 ∷ line) }

unfoldable pub begin_key : Text → Text → Reading → Reading
begin_key k v r = record { env = store_last r; key = some k; val = strip v }

unfoldable pub read_split : Text → List Text → Reading → Reading
read_split line [] r = continue_value line r
read_split line (k ∷ []) r =
    if is_snake_case k || is_bash_function k then begin_key k [] r else continue_value line r
read_split line (k ∷ v ∷ more) r =
    if is_snake_case k || is_bash_function k then begin_key k v r else continue_value line r

unfoldable pub read_stripped : Text → Reading → Reading
read_stripped [] r = r
read_stripped (c ∷ cs) r =
    if has_char b'=' (c ∷ cs)
    then read_split (c ∷ cs) (split_max b'=' 1 (c ∷ cs)) r
    else continue_value (c ∷ cs) r

unfoldable pub read_lines : List Text → Reading → Reading
read_lines [] r = r
read_lines (line ∷ more) r = read_lines more (read_stripped (rstrip_breaks line) r)

unfoldable pub env_read_lines : List Text → Dict Text Text
env_read_lines lines = store_last (read_lines lines (record { env = []; key = none; val = [] }))
