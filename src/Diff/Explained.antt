-- ===== src/Diff/Explained.antt =====
-- What explains a difference that `dict_diff` of dict_mixin.py reports of two values.
use radical_utils.Prelude.{
  ℕ, min, max, ltb, ◌≡◌, ◌≢◌, refl, ap, Bool, true, false, not, Option, none, some, inl, inr,
  Bool-cases, if◌then◌else◌, arith, ◌==◌,
}
use radical_utils.Prelude.Chars.{Text, same_text, same_text_iff}
use radical_utils.Message.{Value, null, number, str, list, dict, Values, nil, cons, Fields}
use radical_utils.Message.Entries.{get_field}
use radical_utils.Diff.{
  Delta, only_a, only_b, Deltas, no_deltas, delta, DeltaList, no_items, item, find_delta, differ,
  pair_of, sorted_lengths, only_b, changed, lengths, nested, listed, plain_diff, size, if_any,
  if_items, both_dicts,
}

-- Values that are compared as a whole: they are not two dictionaries or two lists.
abbrev pub ArePlain : Value → Value → Type 0
ArePlain (dict f) (dict g) = ⊥
ArePlain (list vs) (list ws) = ⊥
ArePlain v w = Unit

-- What is reported of two dictionaries with these differences.
abbrev pub Nested : Deltas → Option Delta → Type 0
Nested no_deltas d = d ≡ none
Nested (delta j e rest) d = d ≡ some (nested (delta j e rest))

-- What is reported of two lists of one length with these differences.
abbrev pub Listed : DeltaList → Option Delta → Type 0
Listed no_items d = d ≡ none
Listed (item e rest) d = d ≡ some (listed (item e rest))

-- What is reported of two values; with `true` for the comparison with the sides exchanged. Equal
-- values have no difference, other plain ones are both named, and dictionaries and lists are
-- compared key by key and item by item.
mutual
  pub data Explained : Bool → Value → Value → Option Delta → Type 0 where
    alike : {x : Bool} {v w : Value} → ArePlain v w → v ≡ w → Explained x v w none
    unlike : {v w : Value} → ArePlain v w → v ≢ w → Explained false v w (some (changed v w))
    unlike_exchanged :
        {v w : Value} → ArePlain v w → v ≢ w → Explained true v w (some (changed w v))
    of_dicts :
        {x : Bool} {f g : Fields} (ds : Deltas) {d : Option Delta}
        → ((j : Text) → get_field j f ≡ none → get_field j g ≡ none → find_delta j ds ≡ none)
        → ((j : Text) (v : Value)
            → get_field j f ≡ some v
            → get_field j g ≡ none
            → find_delta j ds ≡ some (if x then only_b v else only_a v))
        → ((j : Text) (w : Value)
            → get_field j f ≡ none
            → get_field j g ≡ some w
            → find_delta j ds ≡ some (if x then only_a w else only_b w))
        → ((j : Text) (v w : Value)
            → get_field j f ≡ some v
            → get_field j g ≡ some w
            → Explained (if both_dicts v w then not x else x) v w (find_delta j ds))
        → Nested ds d
        → Explained x (dict f) (dict g) d
    of_lengths :
        {x : Bool} {vs ws : Values}
        → size vs ≢ size ws
        → Explained x (list vs) (list ws) (
            some (
              listed (item (lengths (min (size vs) (size ws)) (max (size vs) (size ws))) no_items)))
    of_lists :
        {x : Bool} {vs ws : Values} {ds : DeltaList} {d : Option Delta}
        → size vs ≡ size ws
        → ExplainedItems x vs ws ds
        → Listed ds d
        → Explained x (list vs) (list ws) d

  pub data ExplainedItems : Bool → Values → Values → DeltaList → Type 0 where
    no_more : {x : Bool} → ExplainedItems x nil nil no_items
    same_item :
        {x : Bool} {v w : Value} {vs ws : Values} {ds : DeltaList}
        → Explained x v w none
        → ExplainedItems x vs ws ds
        → ExplainedItems x (cons v vs) (cons w ws) ds
    other_item :
        {x : Bool} {v w : Value} {vs ws : Values} {d : Delta} {ds : DeltaList}
        → Explained x v w (some d)
        → ExplainedItems x vs ws ds
        → ExplainedItems x (cons v vs) (cons w ws) (item d ds)

-- `differ` tells unequal plain values.
abbrev Told : Value → Value → Bool → Type 0
Told v w true = v ≢ w
Told v w false = v ≡ w

differ-Told : (v w : Value) → ArePlain v w → Told v w (differ v w)
unfolding differ
differ-Told null null p = refl
differ-Told (number n) (number m) p = elim (Bool-cases (n == m)) [
  | inl e ↦ rw e (ap number (ground arith))
  | inr d ↦ rw d (λ same. let alike : n ≡ m = cc in ground arith)
]
differ-Told (str s) (str t) p = elim (Bool-cases (same_text s t)) [
  | inl e ↦ rw e (ap str ((same_text_iff s t).0 e))
  | inr d ↦ rw d (λ same. let alike : s ≡ t = cc in ground (arith, same_text_iff s t))
]
differ-Told null (number m) p = λ e. absurd (cc)
differ-Told null (str t) p = λ e. absurd (cc)
differ-Told null (list ws) p = λ e. absurd (cc)
differ-Told null (dict g) p = λ e. absurd (cc)
differ-Told (number n) null p = λ e. absurd (cc)
differ-Told (number n) (str t) p = λ e. absurd (cc)
differ-Told (number n) (list ws) p = λ e. absurd (cc)
differ-Told (number n) (dict g) p = λ e. absurd (cc)
differ-Told (str s) null p = λ e. absurd (cc)
differ-Told (str s) (number m) p = λ e. absurd (cc)
differ-Told (str s) (list ws) p = λ e. absurd (cc)
differ-Told (str s) (dict g) p = λ e. absurd (cc)
differ-Told (list vs) null p = λ e. absurd (cc)
differ-Told (list vs) (number m) p = λ e. absurd (cc)
differ-Told (list vs) (str t) p = λ e. absurd (cc)
differ-Told (list vs) (dict g) p = λ e. absurd (cc)
differ-Told (list vs) (list ws) p = absurd p
differ-Told (dict f) null p = λ e. absurd (cc)
differ-Told (dict f) (number m) p = λ e. absurd (cc)
differ-Told (dict f) (str t) p = λ e. absurd (cc)
differ-Told (dict f) (list ws) p = λ e. absurd (cc)
differ-Told (dict f) (dict g) p = absurd p

pub plain_diff-Explained :
    (x : Bool) (v w : Value) → ArePlain v w → Explained x v w (plain_diff x v w)
unfolding plain_diff pair_of
plain_diff-Explained x v w p = go x (differ v w) (differ-Told v w p)
  where
    go : (x b : Bool) → Told v w b → Explained x v w (if b then some (pair_of x v w) else none)
    go x false same = alike p same
    go false true apart = unlike p apart
    go true true apart = unlike_exchanged p apart

pub if_any-Nested : (ds : Deltas) → Nested ds (if_any ds)
unfolding if_any
if_any-Nested no_deltas = refl
if_any-Nested (delta j d rest) = refl

if_items-Listed : (ds : DeltaList) → Listed ds (if_items ds)
unfolding if_items
if_items-Listed no_items = refl
if_items-Listed (item d rest) = refl

sorted_lengths-min : (n m : ℕ) → sorted_lengths n m ≡ lengths (min n m) (max n m)
unfolding sorted_lengths
sorted_lengths-min n m = elim (Bool-cases (ltb m n)) [
  | inl t ↦ rw t (ground arith)
  | inr f ↦ rw f (ground arith)
]

pub lists-Explained :
    (x : Bool) (vs ws : Values) (ds : DeltaList)
    → (size vs ≡ size ws → ExplainedItems x vs ws ds)
    → Explained x (list vs) (list ws) (
        if size vs == size ws
        then if_items ds
        else some (listed (item (sorted_lengths (size vs) (size ws)) no_items)))
lists-Explained x vs ws ds h = elim (Bool-cases (size vs == size ws)) [
  | inl e ↦
      let same : size vs ≡ size ws = ground arith in
      rw e (of_lists same (h same) (if_items-Listed ds))
  | inr n ↦ rw (n, sorted_lengths-min (size vs) (size ws)) (of_lengths (λ e. ground arith))
]
