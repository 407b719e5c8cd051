-- ===== src/Env/Lines.antt =====
-- The lines of an environment that env.py reads.
use radical_utils.Prelude.{
  ℕ, ◌≡◌, ◌≢◌, refl, ap, ◌∙◌, true, false, none, some, List, [], ◌∷◌, ◌++◌, ◌==◌, inl, inr,
  Bool-cases, if◌then◌else◌, arith,
}
use radical_utils.Prelude.Chars.{Text, text_eq, has_char, split_max, add_first}
use radical_utils.Prelude.Dict.{Dict, insert}
use radical_utils.Env.{
  is_letter, is_word, all_word, is_snake_case, blacklist, has_text, strip, rstrip_breaks,
  add_unless, Reading, store_found, store_last, continue_value, begin_key, read_split,
  read_stripped, read_lines, env_read_lines,
}

-- A variable: its name, the first line of its value, and the lines that follow it.
pub record Variable : Type 0 where
  pub name : Text
  pub first : Text
  pub more : List Text

-- A line that is read as part of a value.
pub record Continues (line : Text) : Type 0 where
  pub some_text : line ≢ []
  pub no_sign : has_char b'=' line ≡ false
  pub one_line : has_char 10 line ≡ false

abbrev pub AllContinue : List Text → Type 0
AllContinue [] = Unit
AllContinue (l ∷ ls) = Continues l × AllContinue ls

-- A variable with a valid name, without spaces around the first line of its value.
pub record IsPlain (v : Variable) : Type 0 where
  pub valid : is_snake_case v.name ≡ true
  pub listed : has_text v.name blacklist ≡ false
  pub stripped : strip v.first ≡ v.first
  pub one_line : has_char 10 v.first ≡ false
  pub rest : AllContinue v.more

abbrev pub AllPlain : List Variable → Type 0
AllPlain [] = Unit
AllPlain (v ∷ vs) = IsPlain v × AllPlain vs

-- What `env` prints.
unfoldable pub print_env : List Variable → List Text
print_env [] = []
print_env (v ∷ vs) = ((v.name ++ (b'=' ∷ v.first)) ∷ v.more) ++ print_env vs

unfoldable pub add_lines : Text → List Text → Text
add_lines t [] = t
add_lines t (l ∷ ls) = add_lines (t ++ (10 ∷ l)) ls

unfoldable pub value_of : Variable → Text
value_of v = add_lines v.first v.more

unfoldable pub set_all : List Variable → Dict Text Text → Dict Text Text
set_all [] env = env
set_all (v ∷ vs) env = set_all vs (insert v.name (value_of v) env)

add_unless-false : (c : ℕ) (t : Text) → add_unless false c t ≡ c ∷ t
unfolding add_unless
add_unless-false c [] = refl
add_unless-false c (d ∷ ds) = refl

rstrip_breaks_none : (t : Text) → has_char 10 t ≡ false → rstrip_breaks t ≡ t
unfolding rstrip_breaks has_char
rstrip_breaks_none [] h = refl
rstrip_breaks_none (c ∷ cs) h =
    let other : (c == 10) ≡ false = ground arith in
    let fewer : has_char 10 cs ≡ false = ground arith in
    rw other (add_unless-false c (rstrip_breaks cs) ∙ ap (λ t. c ∷ t) (rstrip_breaks_none cs fewer))

has_char-append :
    (x : ℕ) (a b : Text) → has_char x (a ++ b) ≡ (if has_char x a then true else has_char x b)
unfolding has_char
has_char-append x [] b = refl
has_char-append x (c ∷ cs) b = ground (arith, has_char-append x cs b)

split_once :
    (k v : Text) → has_char b'=' k ≡ false → split_max b'=' 1 (k ++ (b'=' ∷ v)) ≡ k ∷ v ∷ []
unfolding split_max has_char add_first
split_once [] v h = refl
split_once (c ∷ cs) v h = ground (arith, split_once cs v)

no_word : (x c : ℕ) → is_word x ≡ false → is_word c ≡ true → (c == x) ≡ false
no_word x c hx hc = elim (Bool-cases (c == x)) [
  | inl e ↦ let same : c ≡ x = ground arith in absurd (let clash = ap is_word same in cc)
  | inr n ↦ n
]

has_char-all_word :
    (x : ℕ) (t : Text) → is_word x ≡ false → all_word t ≡ true → has_char x t ≡ false
unfolding has_char all_word
has_char-all_word x [] hx h = refl
has_char-all_word x (c ∷ cs) hx h = ground (arith, no_word x c, has_char-all_word x cs)

snake_case-all_word : (t : Text) → is_snake_case t ≡ true → all_word t ≡ true
unfolding is_snake_case all_word is_word
snake_case-all_word [] h = absurd (cc)
snake_case-all_word (c ∷ cs) h = ground arith

continue_line :
    (line : Text) (r : Reading)
    → Continues line
    → read_stripped (rstrip_breaks line) r ≡ continue_value line r
unfolding read_stripped
continue_line [] r h = absurd (h.some_text refl)
continue_line (c ∷ cs) r h =
    ap (λ t. read_stripped t r) (rstrip_breaks_none (c ∷ cs) h.one_line) ∙ rw (h.no_sign) refl

valid_key :
    (k v : Text) (more : List Text) (line : Text) (r : Reading)
    → is_snake_case k ≡ true
    → read_split line (k ∷ v ∷ more) r ≡ begin_key k v r
unfolding read_split
valid_key k v more line r valid = rw valid refl

has_sign : (k v : Text) → has_char b'=' k ≡ false → has_char b'=' (k ++ (b'=' ∷ v)) ≡ true
unfolding has_char
has_sign k v h = has_char-append b'=' k (b'=' ∷ v) ∙ rw h refl

one_key_line :
    (k v : Text)
    → has_char 10 k ≡ false
    → has_char 10 v ≡ false
    → has_char 10 (k ++ (b'=' ∷ v)) ≡ false
unfolding has_char
one_key_line k v hk hv = has_char-append 10 k (b'=' ∷ v) ∙ rw hk hv

read_signed :
    (line : Text) (r : Reading)
    → has_char b'=' line ≡ true
    → read_stripped line r ≡ read_split line (split_max b'=' 1 line) r
unfolding read_stripped has_char
read_signed [] r h = absurd (cc)
read_signed (c ∷ cs) r h = rw h refl

key_line :
    (k v : Text) (r : Reading)
    → is_snake_case k ≡ true
    → has_char 10 v ≡ false
    → read_stripped (rstrip_breaks (k ++ (b'=' ∷ v))) r ≡ begin_key k v r
unfolding is_word is_letter
key_line k v r valid one =
    let words = snake_case-all_word k valid in
    let no_sign = has_char-all_word b'=' k refl words in
    let no_break = has_char-all_word 10 k refl words in
    let line = k ++ (b'=' ∷ v) in
    ap (λ t. read_stripped t r) (rstrip_breaks_none line (one_key_line k v no_break one))
    ∙ read_signed line r (has_sign k v no_sign)
    ∙ ap (λ ws. read_split line ws r) (split_once k v no_sign)
    ∙ valid_key k v [] line r valid

read_more :
    (ls rest : List Text) (r : Reading)
    → AllContinue ls
    → read_lines (ls ++ rest) r ≡ read_lines rest (record r { val = add_lines r.val ls })
unfolding read_lines add_lines continue_value
read_more [] rest r h = refl
read_more (l ∷ ls) rest r (first, others) =
    ap (λ s. read_lines (ls ++ rest) s) (continue_line l r first)
    ∙ read_more ls rest (record r { val = r.val ++ (10 ∷ l) }) others

store_valid :
    (k v : Text) (env : Dict Text Text)
    → is_snake_case k ≡ true
    → has_text k blacklist ≡ false
    → store_found (some k) v env ≡ insert k v env
unfolding store_found is_snake_case
store_valid [] v env valid listed = absurd (cc)
store_valid (c ∷ cs) v env valid listed = rw listed refl

read_env :
    (vs : List Variable) (r : Reading)
    → AllPlain vs
    → store_last (read_lines (print_env vs) r) ≡ set_all vs (store_last r)
unfolding print_env set_all read_lines store_last begin_key value_of
read_env [] r h = refl
read_env (v ∷ vs) r (plain, others) =
    let begun = begin_key v.name v.first r in
    let whole : Reading = record begun { val = add_lines (strip v.first) v.more } in
    ap (λ s. store_last (read_lines (v.more ++ print_env vs) s))
      (key_line v.name v.first r plain.valid plain.one_line)
    ∙ ap store_last (read_more v.more (print_env vs) begun plain.rest)
    ∙ read_env vs whole others
    ∙ ap (λ env. set_all vs env)
        (store_valid v.name (add_lines (strip v.first) v.more) (store_last r) plain.valid
            plain.listed
          ∙ ap (λ t. insert v.name (add_lines t v.more) (store_last r)) plain.stripped)

-- What `env` prints of variables with valid names that are not on the blacklist, without spaces
-- around the first lines of their values, and without empty lines, equality signs or line breaks
-- in the others, is read back: each variable, in its order, with its whole value.
pub env_read_lines-print_env :
    (vs : List Variable) → AllPlain vs → env_read_lines (print_env vs) ≡ set_all vs []
unfolding env_read_lines store_last store_found
env_read_lines-print_env vs h = read_env vs (record { env = []; key = none; val = [] }) h
