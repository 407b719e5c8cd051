-- ===== src/Storage/Paths.antt =====
-- Dotted keys of the registry of src/radical/utils/zmq/registry.py.
use radical_utils.Prelude.{
  ◌≡◌, ◌≢◌, refl, ap, ◌∙◌, false, some, List, [], ◌∷◌, if◌then◌else◌, arith,
}
use radical_utils.Prelude.Chars.{Text, same_text, same_text_iff}
use radical_utils.Message.{Value, null, number, str, list, dict, Fields, no_fields}
use radical_utils.Message.Entries.{
  get_field, set_field, or_null, get_or_null, get_field-set_field, get_field-set_field_self,
}
use radical_utils.Storage.{is_null, put_path, get_path}

-- Nothing is stored where the path starts, unless it ends there too.
abbrev pub IsFresh : List Text → Fields → Type 0
IsFresh [] f = ⊥
IsFresh (k ∷ []) f = Unit
IsFresh (k ∷ j ∷ rest) f = get_or_null k f ≡ null

pub get_or_null-set_field :
    (k : Text) (v : Value) (f : Fields) → get_or_null k (set_field k v f) ≡ v
unfolding get_or_null
get_or_null-set_field k v f = ap or_null (get_field-set_field_self k v f)

pub get_or_null_other :
    (k j : Text) (v : Value) (f : Fields)
    → k ≢ j
    → get_or_null j (set_field k v f) ≡ get_or_null j f
unfolding get_or_null
get_or_null_other k j v f ne =
    let apart : same_text k j ≡ false = ground (arith, same_text_iff k j, ne) in
    ap or_null (get_field-set_field k j v f ∙ ap (λ b. if b then some v else get_field j f) apart)

IsFresh-no_fields : (path : List Text) (k : Text) → IsFresh (k ∷ path) no_fields
unfolding get_or_null get_field
IsFresh-no_fields [] k = tt
IsFresh-no_fields (j ∷ rest) k = refl

below : Value → List Text → Value
below v path = elim v [
  | null ↦ null
  | number n ↦ null
  | str t ↦ null
  | list vs ↦ null
  | dict g ↦ get_path path g
]

put_path_fresh :
    (k j : Text) (rest : List Text) (v : Value) (f : Fields)
    → get_or_null k f ≡ null
    → put_path (k ∷ j ∷ rest) v f ≡ set_field k (dict (put_path (j ∷ rest) v no_fields)) f
unfolding put_path
put_path_fresh k j rest v f fresh = rw fresh refl

-- What is put under a path that starts at no stored value is found under it.
pub get_path-put_path :
    (path : List Text) (v : Value) (f : Fields)
    → IsFresh path f
    → get_path path (put_path path v f) ≡ v
unfolding get_path put_path below
get_path-put_path [] v f fresh = absurd fresh
get_path-put_path (k ∷ []) v f fresh = get_or_null-set_field k v f
get_path-put_path (k ∷ j ∷ rest) v f fresh =
    ap (λ g. get_path (k ∷ j ∷ rest) g) (put_path_fresh k j rest v f fresh)
    ∙ ap (λ w. below w (j ∷ rest))
        (get_or_null-set_field k (dict (put_path (j ∷ rest) v no_fields)) f)
    ∙ get_path-put_path (j ∷ rest) v no_fields (IsFresh-no_fields rest j)

is_null_not : (v : Value) → v ≢ null → is_null v ≡ false
is_null_not null ne = absurd (ne refl)
is_null_not (number n) ne = refl
is_null_not (str t) ne = refl
is_null_not (list vs) ne = refl
is_null_not (dict f) ne = refl

-- A path whose first step leads to a stored value is not followed: that step is left out.
pub put_path_existing :
    (k j : Text) (rest : List Text) (v : Value) (f : Fields)
    → get_or_null k f ≢ null
    → put_path (k ∷ j ∷ rest) v f ≡ put_path (j ∷ rest) v f
unfolding put_path
put_path_existing k j rest v f there = rw (is_null_not (get_or_null k f) there) refl

-- A value that is put under a stored dictionary does not get there: it is stored at the top, under the
-- last step of its key alone, and what is found under the key stays what it was.
pub put_path_lost :
    (k j : Text) (v : Value) (f : Fields)
    → get_or_null k f ≢ null
    → j ≢ k
    → (get_path (k ∷ j ∷ []) (put_path (k ∷ j ∷ []) v f) ≡ get_path (k ∷ j ∷ []) f)
      × (get_path (j ∷ []) (put_path (k ∷ j ∷ []) v f) ≡ v)
unfolding get_path put_path below
put_path_lost k j v f there apart = (
  ap (λ g. get_path (k ∷ j ∷ []) g) (put_path_existing k j [] v f there)
      ∙ ap (λ w. below w (j ∷ [])) (get_or_null_other j k v f apart),
  ap (λ g. get_path (j ∷ []) g) (put_path_existing k j [] v f there) ∙ get_or_null-set_field j v f,
)
