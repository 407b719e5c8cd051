-- ===== src/Diff/Keys.antt =====
-- What `dict_diff` of dict_mixin.py returns under a key.
use radical_utils.Prelude.{
  ◌≡◌, refl, ap, ◌∙◌, Bool, true, false, ◌||◌, Option, none, some, List, [], ◌∷◌, inl, inr,
  Bool-cases, if◌then◌else◌, arith,
}
use radical_utils.Prelude.Chars.{Text, same_text, same_text_iff}
use radical_utils.Message.{Value, Fields, no_fields, field}
use radical_utils.Message.Entries.{get_field}
use radical_utils.Diff.{
  Delta, Deltas, no_deltas, delta, find_delta, put_delta, keys_of, insert_sorted, sort, Entry,
  find_entry, entry_keys, first_turn, second_turn, put_found, pass, diff_dicts,
}

mem : Text → List Text → Bool
mem j [] = false
mem j (k ∷ ks) = same_text k j || mem j ks

abbrev pub or_delta : Option Delta → Option Delta → Option Delta
or_delta none b = b
or_delta (some a) b = some a

abbrev is_some : {A : Type 0} → Option A → Bool
is_some none = false
is_some (some a) = true

mem-insert_sorted :
    (j k : Text) (ks : List Text) → mem j (insert_sorted k ks) ≡ (same_text k j || mem j ks)
unfolding mem insert_sorted
mem-insert_sorted j k [] = refl
mem-insert_sorted j k (i ∷ ks) = ground (arith, mem-insert_sorted j k ks)

mem-sort : (j : Text) (ks : List Text) → mem j (sort ks) ≡ mem j ks
unfolding mem sort
mem-sort j [] = refl
mem-sort j (k ∷ ks) = mem-insert_sorted j k (sort ks) ∙ ap (λ b. same_text k j || b) (mem-sort j ks)

mem-entry_keys : (j : Text) (es : List Entry) → mem j (entry_keys es) ≡ is_some (find_entry j es)
unfolding mem entry_keys find_entry
mem-entry_keys j [] = refl
mem-entry_keys j (e ∷ es) = ground (arith, mem-entry_keys j es)

mem-keys_of : (j : Text) (g : Fields) → mem j (keys_of g) ≡ is_some (get_field j g)
unfolding mem keys_of get_field
mem-keys_of j no_fields = refl
mem-keys_of j (field k v rest) = ground (arith, mem-keys_of j rest)

find_delta-put_delta :
    (k j : Text) (d : Delta) (f : Deltas)
    → find_delta j (put_delta k d f) ≡ (if same_text k j then some d else find_delta j f)
unfolding find_delta put_delta
find_delta-put_delta k j d no_deltas = refl
find_delta-put_delta k j d (delta i e rest) = ground (
  arith,
  same_text_iff k j,
  same_text_iff i k,
  same_text_iff i j,
  find_delta-put_delta k j d rest,
)

find_delta-put_found :
    (k j : Text) (o : Option Delta) (f : Deltas)
    → find_delta j (put_found k o f)
      ≡ (if same_text k j then or_delta o (find_delta j f) else find_delta j f)
unfolding put_found
find_delta-put_found k j none f = ground arith
find_delta-put_found k j (some d) f = find_delta-put_delta k j d f

find_delta-pass :
    (turn : Text → Option Delta) (j : Text) (ks : List Text) (ret : Deltas)
    → find_delta j (pass turn ks ret)
      ≡ (if mem j ks then or_delta (turn j) (find_delta j ret) else find_delta j ret)
unfolding pass mem
find_delta-pass turn j [] ret = refl
find_delta-pass turn j (k ∷ ks) ret =
    let step = find_delta-put_found k j (turn k) ret in
    let later = find_delta-pass turn j ks (put_found k (turn k) ret) in
    elim (Bool-cases (same_text k j)) [
      | inl e ↦
          let same : turn k ≡ turn j = ap turn ((same_text_iff k j).0 e) in
          ground (arith, step, later, same, e)
      | inr n ↦ ground (arith, step, later, n)
    ]

-- Which keys a loop goes over makes no difference: at another key its turn would do nothing.
turns_at :
    (exchanged : Bool) (p : Option Entry) (q : Option Value)
    → (if (if exchanged then is_some p else is_some q)
        then or_delta (second_turn exchanged p q) (
            if (if exchanged then is_some q else is_some p)
            then or_delta (first_turn exchanged p q) none
            else none)
        else (if (if exchanged then is_some q else is_some p)
            then or_delta (first_turn exchanged p q) none
            else none))
      ≡ or_delta (second_turn exchanged p q) (first_turn exchanged p q)
unfolding first_turn second_turn
turns_at true none none = refl
turns_at true none (some w) = refl
turns_at true (some e) none = refl
turns_at true (some e) (some w) = ground arith
turns_at false none none = refl
turns_at false none (some w) = refl
turns_at false (some e) none = refl
turns_at false (some e) (some w) = ground arith

module _ (es : List Entry) (g : Fields) where
  passes_at :
      (exchanged : Bool) (ka kb : List Text) (j : Text) (a b : Bool)
      → mem j ka ≡ a
      → mem j kb ≡ b
      → find_delta j (
          pass
            (λ k. second_turn exchanged (find_entry k es) (get_field k g))
            kb
            (pass (λ k. first_turn exchanged (find_entry k es) (get_field k g)) ka no_deltas))
        ≡ (if b
            then or_delta (second_turn exchanged (find_entry j es) (get_field j g)) (
                if a
                then or_delta (first_turn exchanged (find_entry j es) (get_field j g)) none
                else none)
            else (if a
                then or_delta (first_turn exchanged (find_entry j es) (get_field j g)) none
                else none))
  unfolding find_delta
  passes_at exchanged ka kb j a b in_a in_b =
      let first : Text → Option Delta =
        λ k. first_turn exchanged (find_entry k es) (get_field k g) in
      let second : Text → Option Delta =
        λ k. second_turn exchanged (find_entry k es) (get_field k g) in
      find_delta-pass second j kb (pass first ka no_deltas)
      ∙ ap
          (λ c.
            if c
            then or_delta (second j) (find_delta j (pass first ka no_deltas))
            else find_delta j (pass first ka no_deltas))
          in_b
      ∙ ap (λ x. if b then or_delta (second j) x else x)
          (find_delta-pass first j ka no_deltas
            ∙ ap (λ c. if c then or_delta (first j) none else none) in_a)

  in_first : (j : Text) → mem j (sort (entry_keys es)) ≡ is_some (find_entry j es)
  in_first j = mem-sort j (entry_keys es) ∙ mem-entry_keys j es

  in_second : (j : Text) → mem j (sort (keys_of g)) ≡ is_some (get_field j g)
  in_second j = mem-sort j (keys_of g) ∙ mem-keys_of j g

  pub find_delta-diff_dicts :
      (exchanged : Bool) (j : Text)
      → find_delta j (diff_dicts exchanged es g)
        ≡ or_delta
            (second_turn exchanged (find_entry j es) (get_field j g))
            (first_turn exchanged (find_entry j es) (get_field j g))
  unfolding diff_dicts
  find_delta-diff_dicts true j =
      passes_at true _ _ j _ _ (in_second j) (in_first j)
      ∙ turns_at true (find_entry j es) (get_field j g)
  find_delta-diff_dicts false j =
      passes_at false _ _ j _ _ (in_first j) (in_second j)
      ∙ turns_at false (find_entry j es) (get_field j g)
