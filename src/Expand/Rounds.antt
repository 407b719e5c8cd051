-- ===== src/Expand/Rounds.antt =====
-- The rounds of `dict_stringexpand` of dict_mixin.py.
use text.Mathlib.Text.{◌==◌ as str_eq}
use radical_utils.Prelude.{
  ℕ, ◌+◌, ◌<◌, ◌≡◌, ◌≢◌, refl, sym, ap, ◌∙◌, String, Bool, true, false, Option, none, some, arith,
  inl, inr, Bool-cases,
}
use radical_utils.Prelude.Eq.{string_eq}
use radical_utils.Expand.{
  Value, string, number, other, list, dict, Values, nil, cons, Fields, no_fields, field, Source,
  Format, formatted, incomplete, type_error, Outcome, returns, join_rounds, wrap_round, format_ends,
  string_expand, generic_expand, list_expand, dict_expand,
}

module _ (size : String → ℕ) where
  -- The sizes of all texts in a value.
  unfoldable mutual
    pub value_size : Value → ℕ
    value_size (string s) = size s
    value_size (number n) = 0
    value_size (other n) = 0
    value_size (list vs) = values_size vs
    value_size (dict f) = fields_size f

    pub values_size : Values → ℕ
    values_size nil = 0
    values_size (cons v vs) = value_size v + values_size vs

    pub fields_size : Fields → ℕ
    fields_size no_fields = 0
    fields_size (field k v rest) = value_size v + fields_size rest

-- A round that raised nothing made the texts smaller, or changed nothing.
abbrev Round : {A : Type 0} → (A → ℕ) → A → Option (A × Bool) → Type 0
Round weigh a none = ⊥
Round weigh a (some (b, true)) = weigh b < weigh a
Round weigh a (some (b, false)) = b ≡ a

wrap-Round :
    {A B : Type 0} (weigh : A → ℕ) (weigh' : B → ℕ) (wrap : A → B) (a : A) (r : Option (A × Bool))
    → ((b : A) → weigh' (wrap b) ≡ weigh b)
    → Round weigh a r
    → Round weigh' (wrap a) (wrap_round wrap r)
unfolding wrap_round
wrap-Round weigh weigh' wrap a none same h = absurd h
wrap-Round weigh weigh' wrap a (some (b, true)) same h = omega (arith, same a, same b)
wrap-Round weigh weigh' wrap a (some (b, false)) same h = ap wrap h

join_rounds-Round :
    {A B C : Type 0} (wa : A → ℕ) (wb : B → ℕ) (wc : C → ℕ) (join : A → B → C) (a : A) (b : B)
    (r : Option (A × Bool)) (q : Option (B × Bool))
    → ((x : A) (y : B) → wc (join x y) ≡ wa x + wb y)
    → Round wa a r
    → Round wb b q
    → Round wc (join a b) (join_rounds join r q)
unfolding join_rounds
join_rounds-Round wa wb wc join a b none q sum h g = absurd h
join_rounds-Round wa wb wc join a b (some r) none sum h g = absurd g
join_rounds-Round wa wb wc join a b (some (x, true)) (some (y, true)) sum h g =
    omega (arith, sum a b, sum x y)
join_rounds-Round wa wb wc join a b (some (x, true)) (some (y, false)) sum h g =
    let same = ap wb g in omega (arith, sum a b, sum x y, same)
join_rounds-Round wa wb wc join a b (some (x, false)) (some (y, true)) sum h g =
    let same = ap wa h in omega (arith, sum a b, sum x y, same)
join_rounds-Round wa wb wc join a b (some (x, false)) (some (y, false)) sum h g =
    ap (λ z. join z y) h ∙ ap (λ z. join a z) g

-- What a format does to a text: no TypeError, and a text that changed is smaller.
abbrev Shrinks : (String → ℕ) → String → Format → Type 0
Shrinks size s (formatted t) = s ≢ t → size t < size s
Shrinks size s incomplete = Unit
Shrinks size s type_error = ⊥

format_ends-Round :
    (size : String → ℕ) (s : String) (r : Format)
    → Shrinks size s r
    → Round size s (format_ends s r)
unfolding format_ends
format_ends-Round size s incomplete h = refl
format_ends-Round size s type_error h = absurd h
format_ends-Round size s (formatted t) h = elim (Bool-cases (str_eq s t)) [
  | inl same ↦ rw same (sym ((string_eq.beq_iff s t).0 same))
  | inr apart ↦ rw apart (h (λ e. ground (arith, string_eq.beq_iff s t)))
]

module _ (size : String → ℕ) (format : String → Source → Format) (src : Source)
    (no_error : (s : String) → format s src ≢ type_error)
    (shrinks : (s t : String) → format s src ≡ formatted t → s ≢ t → size t < size s) where
  format-Shrinks : (s : String) (r : Format) → format s src ≡ r → Shrinks size s r
  format-Shrinks s (formatted t) e = shrinks s t e
  format-Shrinks s incomplete e = tt
  format-Shrinks s type_error e = no_error s e

  string_expand-Round : (s : String) → Round size s (string_expand format src s)
  unfolding string_expand
  string_expand-Round s = format_ends-Round size s _ (format-Shrinks s _ refl)

  mutual
    unfolding generic_expand value_size

    generic_expand-Round : (v : Value) → Round (value_size size) v (generic_expand format src v)
    generic_expand-Round (string s) =
        wrap-Round size (value_size size) string s (string_expand format src s) (λ b. refl)
          (string_expand-Round s)
    generic_expand-Round (number n) = refl
    generic_expand-Round (other n) = refl
    generic_expand-Round (list vs) =
        wrap-Round (values_size size) (value_size size) list vs (list_expand format src vs)
          (λ b. refl) (list_expand-Round vs)
    generic_expand-Round (dict f) =
        wrap-Round (fields_size size) (value_size size) dict f (dict_expand format src f)
          (λ b. refl) (dict_expand-Round f)

    list_expand-Round : (vs : Values) → Round (values_size size) vs (list_expand format src vs)
    list_expand-Round nil = refl
    list_expand-Round (cons v vs) =
        join_rounds-Round (value_size size) (values_size size) (values_size size) cons v vs
          (generic_expand format src v) (list_expand format src vs) (λ x y. refl)
          (generic_expand-Round v) (list_expand-Round vs)

    dict_expand-Round : (f : Fields) → Round (fields_size size) f (dict_expand format src f)
    dict_expand-Round no_fields = refl
    dict_expand-Round (field k v rest) =
        join_rounds-Round (value_size size) (fields_size size) (fields_size size) (field k) v rest
          (generic_expand format src v) (dict_expand format src rest) (λ x y. refl)
          (generic_expand-Round v) (dict_expand-Round rest)

  -- What the loop comes to from a dictionary: a result that one more round leaves as it is.
  abbrev Finishes : Option Outcome → Type 0
  Finishes o =
      (result : Fields) × (o ≡ some (returns result))
      × (dict_expand format src result ≡ some (result, false))
