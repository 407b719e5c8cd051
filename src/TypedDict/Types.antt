-- ===== src/TypedDict/Types.antt =====
-- What the verification of typeddict.py makes of a value.
use radical_utils.Prelude.{
  ◌≡◌, refl, Bool, true, false, ◌&&◌, ◌||◌, some, [], ◌∷◌, arith, inl, inr, Bool-cases,
  Option-cases,
}
use radical_utils.TypedDict.{
  Value, nothing, string, whole, real, flag, object, tuple, list, dict, Values, nil, cons, Items,
  no_items, item, Scalar, str, int, float, bool, class, Kind, any, unknown, scalar, tuple_of,
  list_of, dict_of, Result, ok, raised, then_do, is_none, is_str, is_instance, as_tuple, as_list,
  verify_each, Python, put_item, verify_items, verify_base, verify_bool, one_of, verify_scalar,
  named, verify_entries, verify_kvt,
}

unfoldable pub all_of : (Value → Bool) → Values → Bool
all_of p nil = true
all_of p (cons v vs) = p v && all_of p vs

unfoldable pub all_items : (Value → Bool) → (Value → Bool) → Items → Bool
all_items p q no_items = true
all_items p q (item k v rest) = p k && q v && all_items p q rest

unfoldable pub tuple_of_all : (Value → Bool) → Value → Bool
tuple_of_all p (tuple vs) = all_of p vs
tuple_of_all p _ = false

unfoldable pub list_of_all : (Value → Bool) → Value → Bool
list_of_all p (list vs) = all_of p vs
list_of_all p _ = false

unfoldable pub dict_of_all : (Value → Bool) → (Value → Bool) → Value → Bool
dict_of_all p q (dict m) = all_items p q m
dict_of_all p q _ = false

-- Whether a value is of a kind, all the way down. Nothing is of every kind.
unfoldable pub has_kind : Python → Kind → Value → Bool
has_kind py any v = true
has_kind py unknown v = true
has_kind py (scalar t) v = is_none v || is_instance py.sub t v
has_kind py (tuple_of t) v = is_none v || tuple_of_all (has_kind py t) v
has_kind py (list_of t) v = is_none v || list_of_all (has_kind py t) v
has_kind py (dict_of tk tv) v = is_none v || dict_of_all (has_kind py tk) (has_kind py tv) v

or_true : (b : Bool) → (b || true) ≡ true
or_true b = ground arith

or_left : (a b : Bool) → a ≡ true → (a || b) ≡ true
or_left a b h = ground arith

-- That a result, if there is one, passes a test.
abbrev pub Passes : {A : Type 0} → (A → Bool) → Result A → Type 0
Passes p (ok a) = p a ≡ true
Passes p (raised e) = Unit {0}

-- What is made of a result passes a test, if it does so of every value that passes the first one.
then_do-Passes :
    {A B : Type 0} (p : A → Bool) (q : B → Bool) (r : Result A) (k : A → Result B)
    → Passes p r
    → ((a : A) → p a ≡ true → Passes q (k a))
    → Passes q (then_do r k)
unfolding then_do
then_do-Passes p q (ok a) k h next = next a h
then_do-Passes p q (raised e) k h next = tt

named-Passes :
    (p : Value → Bool) (name : Bool) (r : Result Value) → Passes p r → Passes p (named name r)
unfolding named
named-Passes p true r h = h
named-Passes p false r h = tt

verify_each-Passes :
    (p : Value → Bool) (f : Value → Result Value) (vs : Values)
    → ((v : Value) → Passes p (f v))
    → Passes (all_of p) (verify_each f vs)
unfolding verify_each all_of
verify_each-Passes p f nil h = refl
verify_each-Passes p f (cons v vs) h = then_do-Passes p (all_of p) (f v) _ (h v) (λ w a.
    then_do-Passes (all_of p) (all_of p) (verify_each f vs) _ (verify_each-Passes p f vs h)
      (λ ws b. rw (a, b) refl))

module _ (py : Python) where
  all_items-put_item :
      (p q : Value → Bool) (k v : Value) (m : Items)
      → p k ≡ true
      → q v ≡ true
      → all_items p q m ≡ true
      → all_items p q (put_item py k v m) ≡ true
  unfolding all_items put_item
  all_items-put_item p q k v no_items a b h = rw (a, b) refl
  all_items-put_item p q k v (item j w rest) a b h =
      let deeper = all_items-put_item p q k v rest a b in
      elim (Bool-cases (py.same j k)) [ inl t ↦ rw t (ground arith) | inr f ↦ rw f (ground arith) ]

  verify_items-Passes :
      (p q : Value → Bool) (f : Value → Result Value) (g : Value → Value → Result Value)
      (m into : Items)
      → ((k : Value) → Passes p (f k))
      → ((k v : Value) → Passes q (g k v))
      → all_items p q into ≡ true
      → Passes (all_items p q) (verify_items py f g m into)
  unfolding verify_items
  verify_items-Passes p q f g no_items into hf hg h = h
  verify_items-Passes p q f g (item k v rest) into hf hg h =
      then_do-Passes p _ (f k) _ (hf k) (λ k' a. then_do-Passes q _ (g k v) _ (hg k v) (λ v' b.
        verify_items-Passes p q f g rest (put_item py k' v' into) hf hg
          (all_items-put_item p q k' v' into a b h)))

  verify_entries-Passes :
      (p q : Value → Bool) (f : Value → Result Value) (g : Value → Value → Result Value) (v : Value)
      → ((k : Value) → Passes p (f k))
      → ((k w : Value) → Passes q (g k w))
      → Passes (λ w. is_none w || dict_of_all p q w) (verify_entries py f g v)
  unfolding verify_entries is_none dict_of_all all_items
  verify_entries-Passes p q f g (dict m) hf hg =
      then_do-Passes (all_items p q) _ (verify_items py f g m no_items) _
        (verify_items-Passes p q f g m no_items hf hg refl) (λ m' h. h)
  verify_entries-Passes p q f g nothing hf hg = tt
  verify_entries-Passes p q f g (string s) hf hg = tt
  verify_entries-Passes p q f g (whole n) hf hg = tt
  verify_entries-Passes p q f g (real n) hf hg = tt
  verify_entries-Passes p q f g (flag b) hf hg = tt
  verify_entries-Passes p q f g (object c n) hf hg = tt
  verify_entries-Passes p q f g (tuple vs) hf hg = tt
  verify_entries-Passes p q f g (list vs) hf hg = tt

-- A conversion to a type gives a value of the type.
abbrev pub IsConverting : Python → Type 0
IsConverting py =
    (t : Scalar) (v w : Value) → py.convert t v ≡ some w → is_instance py.sub t w ≡ true

module _ (py : Python) (converting : IsConverting py) where
  verify_base-Passes :
      (cast : Bool) (t : Scalar) (v : Value)
      → Passes (has_kind py (scalar t)) (verify_base py cast t v)
  unfolding verify_base has_kind
  verify_base-Passes false t v = tt
  verify_base-Passes true t v = elim (Option-cases (py.convert t v)) [
    | inl e ↦ rw (e, verify_base) tt
    | inr (w, e) ↦ rw (e, verify_base, converting t v w e) (or_true (is_none w))
  ]

  verify_bool-Passes :
      (cast : Bool) (v : Value) → Passes (has_kind py (scalar bool)) (verify_bool py cast v)
  unfolding verify_bool has_kind is_none is_instance
  verify_bool-Passes false v = tt
  verify_bool-Passes true v = elim (Bool-cases (one_of (py.lower v) ("true" ∷ "yes" ∷ "1" ∷ []))) [
    | inl y ↦ rw y refl
    | inr n ↦ elim (Bool-cases (one_of (py.lower v) ("false" ∷ "no" ∷ "0" ∷ []))) [
      | inl y ↦ rw (n, y) refl
      | inr m ↦ rw (n, m) tt
    ]
  ]

  verify_scalar-Passes :
      (cast : Bool) (t : Scalar) (v : Value)
      → Passes (has_kind py (scalar t)) (verify_scalar py cast t v)
  unfolding verify_scalar
  verify_scalar-Passes cast str v = verify_base-Passes cast str v
  verify_scalar-Passes cast int v = verify_base-Passes cast int v
  verify_scalar-Passes cast float v = verify_base-Passes cast float v
  verify_scalar-Passes cast bool v = verify_bool-Passes cast v
  verify_scalar-Passes cast (class c) v = tt

  -- What a cast leaves of a value is of the kind that the schema asks for.
  pub verify_kvt-Passes :
      (name : Bool) (t : Kind) (v : Value) → Passes (has_kind py t) (verify_kvt py true name t v)
  unfolding verify_kvt has_kind tuple_of_all list_of_all is_none
  verify_kvt-Passes name any v = refl
  verify_kvt-Passes name unknown v = rw (or_true (is_none v)) refl
  verify_kvt-Passes name (scalar t) v = elim (Bool-cases (is_none v || is_instance py.sub t v)) [
    | inl h ↦ rw h h
    | inr h ↦ rw h (verify_scalar-Passes true t v)
  ]
  verify_kvt-Passes name (tuple_of t) v = elim (Bool-cases (is_none v)) [
    | inl h ↦ rw h (or_left (is_none v) _ h)
    | inr h ↦ rw h (
        then_do-Passes (all_of (has_kind py t)) _ _ _
          (verify_each-Passes (has_kind py t) _ (as_tuple v)
            (λ w. named-Passes (has_kind py t) name _ (verify_kvt-Passes true t w)))
          (λ ws a. a))
  ]
  verify_kvt-Passes name (list_of t) v = elim (Bool-cases (is_none v)) [
    | inl h ↦ rw h (or_left (is_none v) _ h)
    | inr h ↦ rw h (
        then_do-Passes (all_of (has_kind py t)) _ _ _
          (verify_each-Passes (has_kind py t) _ (as_list v)
            (λ w. named-Passes (has_kind py t) name _ (verify_kvt-Passes true t w)))
          (λ ws a. a))
  ]
  verify_kvt-Passes name (dict_of tk tv) v = elim (Bool-cases (is_none v)) [
    | inl h ↦ rw h (or_left (is_none v) _ h)
    | inr h ↦ rw h (
        verify_entries-Passes py (has_kind py tk) (has_kind py tv) _ _ v
          (λ k. verify_kvt-Passes (is_str k) tk k) (λ k w. verify_kvt-Passes (is_str k) tv w))
  ]
