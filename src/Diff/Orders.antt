-- ===== src/Diff/Orders.antt =====
-- `dict_diff` of dict_mixin.py with its two dictionaries exchanged.
use mathlib.Core.Path.{subst}
use radical_utils.Prelude.{
  ◌≡◌, refl, sym, ap, ◌∙◌, Bool, true, false, not, Option, none, some, List, [], ◌∷◌, inl, inr,
  Bool-cases, if◌then◌else◌, arith, ◌==◌,
}
use radical_utils.Prelude.Chars.{Text, same_text, same_text_iff}
use radical_utils.Message.{
  Value, null, number, str, list, dict, Values, nil, cons, Fields, no_fields, field,
}
use radical_utils.Message.Entries.{get_field}
use radical_utils.Diff.{
  Delta, Deltas, no_deltas, delta, DeltaList, no_items, item, find_delta, differ, plain_diff, size,
  if_any, if_items, add_item, both_dicts, Entry, find_entry, first_turn, second_turn, diff_dicts,
  diff_values, diff_items, entries,
}
use radical_utils.Diff.Keys.{or_delta, find_delta-diff_dicts}

-- Whether there is a difference does not depend on the order of the two.
abbrev Balanced : (Bool → Value → Option Delta) → Type 0
Balanced diff = (x y : Bool) (w : Value) → diff x w ≡ none → diff y w ≡ none

abbrev AllBalanced : List Entry → Type 0
AllBalanced [] = Unit
AllBalanced (e ∷ es) = Balanced e.diff × AllBalanced es

find_entry-Balanced :
    (j : Text) (es : List Entry) (e : Entry)
    → AllBalanced es
    → find_entry j es ≡ some e
    → Balanced e.diff
unfolding find_entry
find_entry-Balanced j [] e h found = absurd (cc)
find_entry-Balanced j (d ∷ es) e (hd, hs) found = elim (Bool-cases (same_text d.key j)) [
  | inl same ↦
      let found' = rw same at found in
      let is_it : d ≡ e = cc in subst (λ i. Balanced i.diff) is_it hd
  | inr n ↦ find_entry-Balanced j es e hs (rw n at found)
]

no_deltas_if_none : (ds : Deltas) → ((j : Text) → find_delta j ds ≡ none) → ds ≡ no_deltas
unfolding find_delta
no_deltas_if_none no_deltas h = refl
no_deltas_if_none (delta k d rest) h = absurd (ground (arith, h k, same_text_iff k k))

or_delta_quiet : (a b : Option Delta) → or_delta a b ≡ none → (a ≡ none) × (b ≡ none)
or_delta_quiet none b h = (refl, h)
or_delta_quiet (some a) b h = absurd (cc)

-- A key without a turn that reports has none in the other order either.
quiet_turns :
    (x y : Bool) (p : Option Entry) (q : Option Value)
    → ((e : Entry) → p ≡ some e → Balanced e.diff)
    → or_delta (second_turn x p q) (first_turn x p q) ≡ none
    → or_delta (second_turn y p q) (first_turn y p q) ≡ none
unfolding first_turn second_turn
quiet_turns x y none none b h = ground arith
quiet_turns true y none (some w) b h = absurd (cc)
quiet_turns false y none (some w) b h = absurd (cc)
quiet_turns true y (some e) none b h = absurd (cc)
quiet_turns false y (some e) none b h = absurd (cc)
quiet_turns x y (some e) (some w) b h =
    let (_, quiet) = or_delta_quiet _ _ h in
    let balanced = b e refl in
    let other = if both_dicts e.value w then not y else y in
    rw (balanced x other w quiet) (balanced x y w quiet)

if_any_quiet : (ds : Deltas) → if_any ds ≡ none → ds ≡ no_deltas
unfolding if_any
if_any_quiet no_deltas h = refl
if_any_quiet (delta k d rest) h = absurd (cc)

if_items_quiet : (ds : DeltaList) → if_items ds ≡ none → ds ≡ no_items
unfolding if_items
if_items_quiet no_items h = refl
if_items_quiet (item d rest) h = absurd (cc)

add_item_quiet :
    (o : Option Delta) (ds : DeltaList) → add_item o ds ≡ no_items → (o ≡ none) × (ds ≡ no_items)
unfolding add_item
add_item_quiet none ds h = (refl, h)
add_item_quiet (some d) ds h = absurd (cc)

diff_dicts_quiet :
    (es : List Entry) (g : Fields) (x y : Bool)
    → AllBalanced es
    → if_any (diff_dicts x es g) ≡ none
    → if_any (diff_dicts y es g) ≡ none
unfolding if_any find_delta
diff_dicts_quiet es g x y h quiet =
    let empty = if_any_quiet (diff_dicts x es g) quiet in
    ap if_any (
      no_deltas_if_none (diff_dicts y es g) (λ j.
        find_delta-diff_dicts es g y j
        ∙ quiet_turns x y (find_entry j es) (get_field j g) (λ e. find_entry-Balanced j es e h)
            (sym (find_delta-diff_dicts es g x j) ∙ ap (find_delta j) empty)))

plain_diff_quiet : (x y : Bool) (v w : Value) → plain_diff x v w ≡ none → plain_diff y v w ≡ none
unfolding plain_diff
plain_diff_quiet x y v w h = elim (Bool-cases (differ v w)) [
  | inl e ↦ absurd (let broken = rw e at h in cc)
  | inr n ↦ rw n refl
]

list_quiet :
    (b : Bool) (xs ys : DeltaList) (d : Delta)
    → (xs ≡ no_items → ys ≡ no_items)
    → (if b then if_items xs else some d) ≡ none
    → (if b then if_items ys else some d) ≡ none
unfolding if_items
list_quiet true xs ys d f h = ap if_items (f (if_items_quiet xs h))
list_quiet false xs ys d f h = absurd (cc)

mutual
  unfolding diff_values add_item

  pub diff_values-Balanced : (v : Value) → Balanced (diff_values v)
  diff_values-Balanced null x y w h = plain_diff_quiet x y null w h
  diff_values-Balanced (number n) x y w h = plain_diff_quiet x y (number n) w h
  diff_values-Balanced (str t) x y w h = plain_diff_quiet x y (str t) w h
  diff_values-Balanced (list vs) x y null h = plain_diff_quiet x y (list vs) null h
  diff_values-Balanced (list vs) x y (number n) h = plain_diff_quiet x y (list vs) (number n) h
  diff_values-Balanced (list vs) x y (str t) h = plain_diff_quiet x y (list vs) (str t) h
  diff_values-Balanced (list vs) x y (dict g) h = plain_diff_quiet x y (list vs) (dict g) h
  diff_values-Balanced (list vs) x y (list ws) h =
      list_quiet (size vs == size ws) (diff_items vs x ws) (diff_items vs y ws) _
        (diff_items_quiet vs x y ws) h
  diff_values-Balanced (dict f) x y null h = plain_diff_quiet x y (dict f) null h
  diff_values-Balanced (dict f) x y (number n) h = plain_diff_quiet x y (dict f) (number n) h
  diff_values-Balanced (dict f) x y (str t) h = plain_diff_quiet x y (dict f) (str t) h
  diff_values-Balanced (dict f) x y (list ws) h = plain_diff_quiet x y (dict f) (list ws) h
  diff_values-Balanced (dict f) x y (dict g) h =
      diff_dicts_quiet (entries f) g x y (entries-AllBalanced f) h

  diff_items_quiet :
      (vs : Values) (x y : Bool) (ws : Values)
      → diff_items vs x ws ≡ no_items
      → diff_items vs y ws ≡ no_items
  diff_items_quiet nil x y ws h = refl
  diff_items_quiet (cons v vs) x y nil h = refl
  diff_items_quiet (cons v vs) x y (cons w ws) h =
      let (head, rest) = add_item_quiet _ _ h in
      rw (diff_values-Balanced v x y w head, diff_items_quiet vs x y ws rest, add_item) refl

  entries-AllBalanced : (f : Fields) → AllBalanced (entries f)
  entries-AllBalanced no_fields = tt
  entries-AllBalanced (field k v rest) = (diff_values-Balanced v, entries-AllBalanced rest)

abbrev pub entry_of : Text → Option Value → Option Entry
entry_of j none = none
entry_of j (some v) = some (record { key = j; value = v; diff = diff_values v })

pub find_entry-entries :
    (j : Text) (f : Fields) → find_entry j (entries f) ≡ entry_of j (get_field j f)
unfolding find_entry diff_values get_field
find_entry-entries j no_fields = refl
find_entry-entries j (field k v rest) = elim (Bool-cases (same_text k j)) [
  | inl e ↦
      let same : k ≡ j = (same_text_iff k j).0 e in
      rw e (ap (λ i. some (record { key = i; value = v; diff = diff_values v })) same)
  | inr n ↦ rw n (find_entry-entries j rest)
]

pub or_delta_same : (a b : Option Delta) → (a ≡ none → b ≡ none) → or_delta a b ≡ a
or_delta_same none b h = h refl
or_delta_same (some a) b h = refl
