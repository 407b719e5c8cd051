-- ===== src/TypedDict/Setters.antt =====
-- The data of a `TypedDict` of typeddict.py, through its operations and its `verify`.
use radical_utils.Prelude.{
  ◌≡◌, refl, sym, ap, ◌∙◌, ◌&&◌, String, true, false, not, ◌||◌, Option, none, some, List, [], ◌∷◌,
  inl, inr, Bool-cases, Option-cases,
}
use radical_utils.Prelude.Eq.{string_eq}
use radical_utils.Prelude.Dict.{lookup, keys}
use radical_utils.TypedDict.{Value, Kind, Error, Result, ok, raised, is_private, Python, verify_kvt}
use radical_utils.TypedDict.Access.{
  Settings, Data, Reply, done, is_empty, verify_setter, store, set_item, del_item, set_default, pop,
  last_item, then_next, untyped, is_dict, update_nested, update_item, update, value, pair, failed,
  pop_item, clear, replace_item, verify_data, verify,
}
use radical_utils.TypedDict.Kept.{
  AllTyped, PublicTyped, insert-AllTyped, remove-AllTyped, MayStore, Passes-MayStore, IsPlain,
  ArePlain, typed_dict_refused,
}
use radical_utils.TypedDict.Types.{has_kind, Passes, IsConverting, verify_kvt-Passes}

pub data Call : Type 0 where
  sets : String → Value → Call
  deletes : String → Call
  defaults : String → Value → Call
  pops : String → Value → Call
  pops_item : Call
  clears verifies : Call
  updates : List (String × Value) → Call

module _ (py : Python) (s : Settings) (nested : String → Value → Data → Data × Reply) where
  unfoldable pub do_call : Call → Data → Data
  do_call (sets k v) d = (set_item py s k v d).0
  do_call (deletes k) d = (del_item py s k d).0
  do_call (defaults k v) d = (set_default py s k v d).0
  do_call (pops k v) d = (pop py s k v d).0
  do_call pops_item d = (pop_item py s d).0
  do_call clears d = (clear py s d).0
  do_call verifies d = (verify py s d).0
  do_call (updates kvs) d = (update py s nested kvs d).0

  unfoldable pub run : List Call → Data → Data
  run [] d = d
  run (c ∷ more) d = run more (do_call c d)

module _ (py : Python) (converting : IsConverting py) (s : Settings) (casts : s.cast ≡ true) where
  cast-Passes : (t : Kind) (v : Value) → Passes (has_kind py t) (verify_kvt py s.cast true t v)
  cast-Passes t v = rw casts (verify_kvt-Passes py converting true t v)

  -- What `verify` comes to: an error, or typed values under the same keys.
  abbrev Verified : Data → Data × Option Error → Type 0
  Verified d (d', none) = PublicTyped py s.schema d' × (keys d' ≡ keys d)
  Verified d (d', some e) = Unit {0}

  kept-Verified :
      (k : String) (v : Value) (rest : Data) (later : Data × Option Error)
      → is_private k ≡ true
      → Verified rest later
      → Verified ((k, v) ∷ rest) ((k, v) ∷ later.0, later.1)
  kept-Verified k v rest (d', none) hidden (typed, same) = ((inl hidden, typed), ap (◌∷◌ k) same)
  kept-Verified k v rest (d', some e) hidden h = tt

  replace_item-Verified :
      (k : String) (v : Value) (t : Kind) (rest : Data) (r : Result Value)
      (later : Data × Option Error)
      → lookup k s.schema ≡ some t
      → Passes (has_kind py t) r
      → Verified rest later
      → Verified ((k, v) ∷ rest) (replace_item k v rest r later)
  unfolding replace_item
  replace_item-Verified k v t rest (ok w) (d', none) found h (typed, same) =
      ((inr (t, found, h), typed), ap (◌∷◌ k) same)
  replace_item-Verified k v t rest (ok w) (d', some e) found h g = tt
  replace_item-Verified k v t rest (raised e) later found h g = tt

  verify_data-Verified : (d : Data) → Verified d (verify_data py s d)
  unfolding verify_data
  verify_data-Verified [] = (tt, refl)
  verify_data-Verified ((k, v) ∷ rest) =
      let later = verify_data-Verified rest in
      elim (Bool-cases (is_private k)) [
        | inl hidden ↦ rw (hidden, verify_data) (kept-Verified k v rest _ hidden later)
        | inr shown ↦ elim (Option-cases (lookup k s.schema)) [
          | inl none_there ↦ rw (shown, verify_data, none_there) tt
          | inr (t, found) ↦
              rw (shown, verify_data, found)
                (replace_item-Verified k v t rest _ _ found (cast-Passes t v) later)
        ]
      ]

  typed_unless_raised :
      (d : Data) (r : Data × Option Error)
      → Verified d r
      → r.1 ≡ none
      → PublicTyped py s.schema r.0 × (keys r.0 ≡ keys d)
  typed_unless_raised d (d', none) h e = h
  typed_unless_raised d (d', some f) h e = absurd (cc)

  -- If `verify` raises nothing, with casts on and a schema that is not empty, then each value,
  -- but for those of private keys, is of the kind that the schema has for its key, down to the
  -- elements, and the keys are those from before.
  pub verify-PublicTyped :
      (d : Data)
      → is_empty s.schema ≡ false
      → (verify py s d).1 ≡ none
      → PublicTyped py s.schema (verify py s d).0 × (keys (verify py s d).0 ≡ keys d)
  unfolding verify
  verify-PublicTyped d schemed e =
      let same : verify py s d ≡ verify_data py s d = rw (schemed, verify) refl in
      typed_unless_raised d (verify py s d) (rw same (verify_data-Verified d)) e

abbrev pub PlainCall : Settings → Call → Type 0
PlainCall s (updates kvs) = ArePlain s kvs
PlainCall s c = Unit {0}

abbrev pub PlainCalls : Settings → List Call → Type 0
PlainCalls s [] = Unit {0}
PlainCalls s (c ∷ cs) = PlainCall s c × PlainCalls s cs

module _ (py : Python) (converting : IsConverting py) (s : Settings) (checked : s.check ≡ true)
    (casts : s.cast ≡ true) (schemed : is_empty s.schema ≡ false)
    (nested : String → Value → Data → Data × Reply) where
  setter-MayStore : (k : String) (v : Value) → MayStore py s.schema k (verify_setter py s k v)
  unfolding verify_setter
  setter-MayStore k v =
      let on : (not s.check || is_empty s.schema) ≡ false = rw (checked, schemed) refl in
      elim (Option-cases (lookup k s.schema)) [
        | inl none_there ↦ rw (on, verify_setter, none_there) tt
        | inr (t, found) ↦
            rw (on, verify_setter, found)
              (Passes-MayStore py s.schema k t _ found (cast-Passes py converting s casts t v))
      ]

  store-AllTyped :
      (k : String) (o : Result Value) (r : Reply) (d : Data)
      → MayStore py s.schema k o
      → AllTyped py s.schema d
      → AllTyped py s.schema (store py s k o r d).0
  unfolding store
  store-AllTyped k (ok v) r d h a = insert-AllTyped py s.schema k v d h a
  store-AllTyped k (raised e) r d h a = a

  -- `verify` replaces values by typed ones, also where it raises before it is through.
  replace_item-AllTyped :
      (k : String) (v : Value) (t : Kind) (rest : Data) (r : Result Value)
      (later : Data × Option Error)
      → lookup k s.schema ≡ some t
      → Passes (has_kind py t) r
      → AllTyped py s.schema ((k, v) ∷ rest)
      → AllTyped py s.schema later.0
      → AllTyped py s.schema (replace_item k v rest r later).0
  unfolding replace_item
  replace_item-AllTyped k v t rest (ok w) later found h a b = ((t, found, h), b)
  replace_item-AllTyped k v t rest (raised e) later found h a b = a

  verify_data-AllTyped :
      (d : Data) → AllTyped py s.schema d → AllTyped py s.schema (verify_data py s d).0
  unfolding verify_data
  verify_data-AllTyped [] a = tt
  verify_data-AllTyped ((k, v) ∷ rest) (h, a) =
      let later = verify_data-AllTyped rest a in
      elim (Bool-cases (is_private k)) [
        | inl hidden ↦ rw (hidden, verify_data) (h, later)
        | inr shown ↦ elim (Option-cases (lookup k s.schema)) [
          | inl none_there ↦ rw (shown, verify_data, none_there) (h, a)
          | inr (t, found) ↦
              rw (shown, verify_data, found)
                (replace_item-AllTyped k v t rest _ _ found (cast-Passes py converting s casts t v)
                  (h, a) later)
        ]
      ]

  lookup-Typed :
      (k : String) (w : Value) (d : Data)
      → AllTyped py s.schema d
      → lookup k d ≡ some w
      → (t : Kind) × (lookup k s.schema ≡ some t)
  unfolding lookup
  lookup-Typed k w [] a e = absurd (cc)
  lookup-Typed k w ((j, v) ∷ rest) ((t, found, h), a) e = elim (Bool-cases (string_eq.beq j k)) [
    | inl same ↦ (t, ap (λ i. lookup i s.schema) (sym ((string_eq.beq_iff j k).0 same)) ∙ found)
    | inr apart ↦ lookup-Typed k w rest a (rw apart at e)
  ]

  update_nested-AllTyped :
      (k : String) (v : Value) (d : Data)
      → lookup k s.schema ≡ none
      → AllTyped py s.schema d
      → AllTyped py s.schema (update_nested py s nested k v d).0
  unfolding update_nested
  update_nested-AllTyped k v d missing a = elim (Option-cases (lookup k d)) [
    | inl new ↦
        let on : (not s.check || is_empty s.schema) ≡ false = rw (checked, schemed) refl in
        rw (new, update_nested, on, missing) a
    | inr (w, there) ↦ let (t, found) = lookup-Typed k w d a there in absurd (cc)
  ]

  update_item-AllTyped :
      (k : String) (v : Value) (d : Data)
      → IsPlain s (k, v)
      → AllTyped py s.schema d
      → AllTyped py s.schema (update_item py s nested k v d).0
  unfolding update_item set_item
  update_item-AllTyped k v d p a = elim (Bool-cases (is_dict v && untyped (lookup k s.schema))) [
    | inr plain ↦ rw (plain, update_item) (store-AllTyped k _ done d (setter-MayStore k v) a)
    | inl inner ↦
        rw (inner, update_item)
          (elim (Option-cases (lookup k s.schema)) [
            | inl missing ↦ update_nested-AllTyped k v d missing a
            | inr (t, found) ↦ absurd (typed_dict_refused s k v t p found inner)
          ])
  ]

  then_next-AllTyped :
      (later : Data → Data × Reply) (r : Data × Reply)
      → AllTyped py s.schema r.0
      → ((d : Data) → AllTyped py s.schema d → AllTyped py s.schema (later d).0)
      → AllTyped py s.schema (then_next later r).0
  unfolding then_next
  then_next-AllTyped later (d, failed e) a h = a
  then_next-AllTyped later (d, done) a h = h d a
  then_next-AllTyped later (d, value v) a h = h d a
  then_next-AllTyped later (d, pair k v) a h = h d a

  update-AllTyped :
      (kvs : List (String × Value)) (d : Data)
      → ArePlain s kvs
      → AllTyped py s.schema d
      → AllTyped py s.schema (update py s nested kvs d).0
  unfolding update
  update-AllTyped [] d p a = a
  update-AllTyped ((k, v) ∷ rest) d (p, ps) a =
      then_next-AllTyped (update py s nested rest) (update_item py s nested k v d)
        (update_item-AllTyped k v d p a) (λ d' a'. update-AllTyped rest d' ps a')

  do_call-AllTyped :
      (c : Call) (d : Data)
      → PlainCall s c
      → AllTyped py s.schema d
      → AllTyped py s.schema (do_call py s nested c d)
  unfolding do_call set_item del_item set_default pop pop_item clear verify
  do_call-AllTyped (sets k v) d p a = store-AllTyped k _ done d (setter-MayStore k v) a
  do_call-AllTyped (deletes k) d p a = elim (Option-cases (lookup k d)) [
    | inl e ↦ rw (e, do_call, del_item) a
    | inr (v, e) ↦ rw (e, do_call, del_item) (remove-AllTyped py s.schema k d a)
  ]
  do_call-AllTyped (defaults k v) d p a = elim (Option-cases (lookup k d)) [
    | inl e ↦ rw (e, do_call, set_default) (store-AllTyped k _ _ d (setter-MayStore k v) a)
    | inr (w, e) ↦ rw (e, do_call, set_default) a
  ]
  do_call-AllTyped (pops k v) d p a = elim (Option-cases (lookup k d)) [
    | inl e ↦ rw (e, do_call, pop) a
    | inr (w, e) ↦ rw (e, do_call, pop) (remove-AllTyped py s.schema k d a)
  ]
  do_call-AllTyped pops_item [] p a = tt
  do_call-AllTyped pops_item ((k, v) ∷ rest) p a =
      remove-AllTyped py s.schema (last_item py s k v rest).0 ((k, v) ∷ rest) a
  do_call-AllTyped clears d p a = tt
  do_call-AllTyped verifies d p a = elim (Bool-cases (is_empty s.schema)) [
    | inl e ↦ rw (e, do_call, verify) a
    | inr n ↦ rw (n, do_call, verify) (verify_data-AllTyped d a)
  ]
  do_call-AllTyped (updates kvs) d p a = update-AllTyped kvs d p a

  -- With checks and casts on, and a schema that is not empty: if each value of a `TypedDict` is
  -- of the kind that the schema has for its key, down to the elements, then this is so after any
  -- item assignments, deletions and calls of `setdefault`, `pop`, `popitem`, `clear`, `verify`
  -- and `update`, whichever of them raise, if no `update` brings a dictionary for a key whose
  -- kind in the schema is `None`.
  pub run-AllTyped :
      (calls : List Call) (d : Data)
      → PlainCalls s calls
      → AllTyped py s.schema d
      → AllTyped py s.schema (run py s nested calls d)
  unfolding run
  run-AllTyped [] d p a = a
  run-AllTyped (c ∷ more) d (p, ps) a =
      run-AllTyped more (do_call py s nested c d) ps (do_call-AllTyped c d p a)
