-- ===== src/Diff/Reports.antt =====
-- The differences that `dict_diff` of dict_mixin.py reports, key by key.
use mathlib.Core.Path.{subst}
use radical_utils.Prelude.{
  ◌≡◌, refl, sym, ap, ◌∙◌, Bool, true, false, not, Option, none, some, List, [], ◌∷◌, inl, inr,
  Bool-cases, if◌then◌else◌, arith,
}
use radical_utils.Prelude.Chars.{Text, same_text}
use radical_utils.Message.{
  Value, null, number, str, list, dict, Values, nil, cons, Fields, no_fields, field,
}
use radical_utils.Message.Entries.{get_field}
use radical_utils.Diff.{
  Delta, only_a, only_b, DeltaList, find_delta, only_b, size, if_any, add_item, both_dicts, Entry,
  find_entry, first_turn, second_turn, diff_dicts, diff_values, diff_items, entries, dict_diff,
}
use radical_utils.Diff.Orders.{diff_values-Balanced, entry_of, find_entry-entries, or_delta_same}
use radical_utils.Diff.Explained.{
  Explained, of_dicts, ExplainedItems, no_more, same_item, other_item, plain_diff-Explained,
  if_any-Nested, lists-Explained,
}
use radical_utils.Diff.Keys.{or_delta, find_delta-diff_dicts}

-- What is reported of a key: nothing where both dictionaries lack it, the value where one has it,
-- and where both have it what explains the difference of the values, of two dictionaries with
-- their sides exchanged.
abbrev pub Reported : Option Value → Option Value → Option Delta → Type 0
Reported none none d = d ≡ none
Reported (some v) none d = d ≡ some (only_a v)
Reported none (some w) d = d ≡ some (only_b w)
Reported (some v) (some w) d = Explained (both_dicts v w) v w d

-- An entry whose comparison is explained, in both orders.
abbrev Explains : Entry → Type 0
Explains e = (x : Bool) (w : Value) → Explained x e.value w (e.diff x w)

abbrev AllExplain : List Entry → Type 0
AllExplain [] = Unit
AllExplain (e ∷ es) = Explains e × AllExplain es

find_entry-Explains :
    (j : Text) (es : List Entry) (e : Entry) → AllExplain es → find_entry j es ≡ some e → Explains e
unfolding find_entry
find_entry-Explains j [] e h found = absurd (cc)
find_entry-Explains j (d ∷ es) e (hd, hs) found = elim (Bool-cases (same_text d.key j)) [
  | inl same ↦ let found' = rw same at found in let is_it : d ≡ e = cc in subst Explains is_it hd
  | inr n ↦ find_entry-Explains j es e hs (rw n at found)
]

nothing_told : (x : Bool) → or_delta (second_turn x none none) (first_turn x none none) ≡ none
unfolding first_turn second_turn
nothing_told true = refl
nothing_told false = refl

first_told :
    (x : Bool) (e : Entry)
    → or_delta (second_turn x (some e) none) (first_turn x (some e) none)
      ≡ some (if x then only_b e.value else only_a e.value)
unfolding first_turn second_turn
first_told true e = refl
first_told false e = refl

second_told :
    (x : Bool) (w : Value)
    → or_delta (second_turn x none (some w)) (first_turn x none (some w))
      ≡ some (if x then only_a w else only_b w)
unfolding first_turn second_turn
second_told true w = refl
second_told false w = refl

both_told :
    (x : Bool) (j : Text) (v w : Value)
    → or_delta
        (second_turn x (entry_of j (some v)) (some w))
        (first_turn x (entry_of j (some v)) (some w))
      ≡ diff_values v (if both_dicts v w then not x else x) w
unfolding first_turn second_turn
both_told x j v w = or_delta_same _ _ (diff_values-Balanced v _ x w)

module _ (x : Bool) (f g : Fields) (j : Text) where
  -- What is found for a key whose values are these.
  found_at :
      (o p : Option Value)
      → get_field j f ≡ o
      → get_field j g ≡ p
      → find_delta j (diff_dicts x (entries f) g)
        ≡ or_delta (second_turn x (entry_of j o) p) (first_turn x (entry_of j o) p)
  found_at o p a b =
      find_delta-diff_dicts (entries f) g x j
      ∙ ap (λ e. or_delta (second_turn x e (get_field j g)) (first_turn x e (get_field j g)))
          (find_entry-entries j f ∙ ap (entry_of j) a)
      ∙ ap (λ q. or_delta (second_turn x (entry_of j o) q) (first_turn x (entry_of j o) q)) b

  both-Explained :
      (v w : Value)
      → AllExplain (entries f)
      → get_field j f ≡ some v
      → get_field j g ≡ some w
      → Explained
          (if both_dicts v w then not x else x)
          v
          w
          (find_delta j (diff_dicts x (entries f) g))
  both-Explained v w all a b =
      let c = if both_dicts v w then not x else x in
      subst (Explained c v w) (sym (found_at (some v) (some w) a b ∙ both_told x j v w)) (
        find_entry-Explains j (entries f) (record { key = j; value = v; diff = diff_values v }) all
          (find_entry-entries j f ∙ ap (entry_of j) a) c w)

diff_dicts-Explained :
    (x : Bool) (f g : Fields)
    → AllExplain (entries f)
    → Explained x (dict f) (dict g) (if_any (diff_dicts x (entries f) g))
diff_dicts-Explained x f g all =
    of_dicts (diff_dicts x (entries f) g) (λ j a b. found_at x f g j none none a b ∙ nothing_told x)
      (λ j v a b. found_at x f g j (some v) none a b ∙ first_told x _)
      (λ j w a b. found_at x f g j none (some w) a b ∙ second_told x w)
      (λ j v w a b. both-Explained x f g j v w all a b) (if_any-Nested (diff_dicts x (entries f) g))

add_item-Explained :
    (x : Bool) (v w : Value) (vs ws : Values) (o : Option Delta) (ds : DeltaList)
    → Explained x v w o
    → ExplainedItems x vs ws ds
    → ExplainedItems x (cons v vs) (cons w ws) (add_item o ds)
unfolding add_item
add_item-Explained x v w vs ws none ds h rest = same_item h rest
add_item-Explained x v w vs ws (some d) ds h rest = other_item h rest

mutual
  unfolding diff_values size

  diff_values-Explained : (v : Value) (x : Bool) (w : Value) → Explained x v w (diff_values v x w)
  diff_values-Explained null x w = plain_diff-Explained x null w tt
  diff_values-Explained (number n) x w = plain_diff-Explained x (number n) w tt
  diff_values-Explained (str t) x w = plain_diff-Explained x (str t) w tt
  diff_values-Explained (list vs) x null = plain_diff-Explained x (list vs) null tt
  diff_values-Explained (list vs) x (number n) = plain_diff-Explained x (list vs) (number n) tt
  diff_values-Explained (list vs) x (str t) = plain_diff-Explained x (list vs) (str t) tt
  diff_values-Explained (list vs) x (dict g) = plain_diff-Explained x (list vs) (dict g) tt
  diff_values-Explained (list vs) x (list ws) =
      lists-Explained x vs ws (diff_items vs x ws) (diff_items-Explained vs x ws)
  diff_values-Explained (dict f) x null = plain_diff-Explained x (dict f) null tt
  diff_values-Explained (dict f) x (number n) = plain_diff-Explained x (dict f) (number n) tt
  diff_values-Explained (dict f) x (str t) = plain_diff-Explained x (dict f) (str t) tt
  diff_values-Explained (dict f) x (list ws) = plain_diff-Explained x (dict f) (list ws) tt
  diff_values-Explained (dict f) x (dict g) = diff_dicts-Explained x f g (entries-AllExplain f)

  diff_items-Explained :
      (vs : Values) (x : Bool) (ws : Values)
      → size vs ≡ size ws
      → ExplainedItems x vs ws (diff_items vs x ws)
  diff_items-Explained nil x nil same = no_more
  diff_items-Explained nil x (cons w ws) same = absurd (omega (arith, same))
  diff_items-Explained (cons v vs) x nil same = absurd (omega (arith, same))
  diff_items-Explained (cons v vs) x (cons w ws) same =
      add_item-Explained x v w vs ws (diff_values v x w) (diff_items vs x ws)
        (diff_values-Explained v x w) (diff_items-Explained vs x ws (omega (arith, same)))

  entries-AllExplain : (f : Fields) → AllExplain (entries f)
  entries-AllExplain no_fields = tt
  entries-AllExplain (field k v rest) = (diff_values-Explained v, entries-AllExplain rest)

exchanged_if : (b : Bool) → (if b then not false else false) ≡ b
exchanged_if true = refl
exchanged_if false = refl

Reported-found :
    (f g : Fields) (j : Text) (o p : Option Value)
    → get_field j f ≡ o
    → get_field j g ≡ p
    → Reported o p (find_delta j (diff_dicts false (entries f) g))
Reported-found f g j none none a b = found_at false f g j none none a b ∙ nothing_told false
Reported-found f g j (some v) none a b = found_at false f g j (some v) none a b ∙ first_told false _
Reported-found f g j none (some w) a b =
    found_at false f g j none (some w) a b ∙ second_told false w
Reported-found f g j (some v) (some w) a b =
    subst (λ c. Explained c v w (find_delta j (diff_dicts false (entries f) g)))
      (exchanged_if (both_dicts v w)) (both-Explained false f g j v w (entries-AllExplain f) a b)

-- What `dict_diff` reports of a key: nothing where both dictionaries lack it, and its value where
-- one has it, under 'a' or 'b' as it should be. Where both have it, nothing is reported of equal
-- plain values, and both of unequal ones; of two lists the two lengths, the smaller one first,
-- or, of one length, what is reported of the items that differ; and of two dictionaries what is
-- reported of each key, with the sides exchanged.
pub dict_diff-Reported :
    (f g : Fields) (j : Text)
    → Reported (get_field j f) (get_field j g) (find_delta j (dict_diff f g))
unfolding dict_diff
dict_diff-Reported f g j = Reported-found f g j _ _ refl refl
