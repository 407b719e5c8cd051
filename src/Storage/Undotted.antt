-- ===== src/Storage/Undotted.antt =====
-- The keys at the top of the registry of src/radical/utils/zmq/registry.py.
use mathlib.Core.Path.{subst}
use radical_utils.Prelude.{
  ◌≡◌, refl, sym, ap, true, false, Option, none, some, List, [], ◌∷◌, inl, inr, Bool-cases, arith,
}
use radical_utils.Prelude.Chars.{
  Text, codes, text_eq, split, has_char, NoneHave, NoneHave-split, same_text, same_text_iff,
}
use radical_utils.Prelude.Dict.{Dict, lookup, insert_cases}
use radical_utils.Message.{
  Value, null, number, str, list, dict, Values, nil, cons, Fields, no_fields, field,
}
use radical_utils.Message.Entries.{get_field, set_field, del_field, get_or_null}
use radical_utils.Server.{
  bind_params, echo_args, fail_args, raises, Handler, Server, register_request, init, request_echo,
  request_fail,
}
use radical_utils.Server.Requests.{Runtime, Action, run}
use radical_utils.Server.Order.{run-InOrder}
use radical_utils.Server.Induction.{answers_keep}
use radical_utils.Storage.{
  Trouble, misfit, no_key, is_null, put_path, put_key, put_args, put, get_args, get, keys_args,
  keys, del_found, del_key, del_args, delitem, new_registry,
}

-- No key at the top has a dot.
abbrev pub Undotted : Fields → Type 0
Undotted no_fields = Unit
Undotted (field k v rest) = (has_char b'.' k ≡ false) × Undotted rest

set_field-Undotted :
    (k : Text) (v : Value) (f : Fields)
    → has_char b'.' k ≡ false
    → Undotted f
    → Undotted (set_field k v f)
unfolding set_field
set_field-Undotted k v no_fields plain h = (plain, tt)
set_field-Undotted k v (field j w rest) plain (hj, hr) = elim (Bool-cases (same_text j k)) [
  | inl e ↦ rw e (hj, hr)
  | inr n ↦ rw n (hj, set_field-Undotted k v rest plain hr)
]

del_field-Undotted : (k : Text) (f : Fields) → Undotted f → Undotted (del_field k f)
unfolding del_field
del_field-Undotted k no_fields h = tt
del_field-Undotted k (field j w rest) (hj, hr) = elim (Bool-cases (same_text j k)) [
  | inl e ↦ rw e hr
  | inr n ↦ rw n (hj, del_field-Undotted k rest hr)
]

put_path-Undotted :
    (path : List Text) (v : Value) (f : Fields)
    → NoneHave b'.' path
    → Undotted f
    → Undotted (put_path path v f)
unfolding put_path
put_path-Undotted [] v f plain h = h
put_path-Undotted (k ∷ []) v f (hk, _) h = set_field-Undotted k v f hk h
put_path-Undotted (k ∷ j ∷ rest) v f (hk, more) h = elim (Bool-cases (is_null (get_or_null k f))) [
  | inl e ↦ rw e (set_field-Undotted k _ f hk h)
  | inr n ↦ rw n (put_path-Undotted (j ∷ rest) v f more h)
]

-- A handler keeps the keys at the top without dots.
abbrev KeepsUndotted : Handler Fields → Type 0
KeepsUndotted cb = (vs : Values) (fs f : Fields) → Undotted f → Undotted (cb vs fs f).1

AllKeep : Dict Text (Handler Fields) → Type 0
AllKeep cbs = (name : Text) (cb : Handler Fields) → lookup name cbs ≡ some cb → KeepsUndotted cb

module _ (text_of : Trouble → Text) where
  put_key-keeps : (key v : Value) (f : Fields) → Undotted f → Undotted (put_key text_of key v f).1
  unfolding put_key
  put_key-keeps null v f h = h
  put_key-keeps (number n) v f h = h
  put_key-keeps (str key) v f h = put_path-Undotted (split b'.' key) v f (NoneHave-split b'.' key) h
  put_key-keeps (list vs) v f h = h
  put_key-keeps (dict g) v f h = h

  put_args-keeps :
      (args : Option Values) (f : Fields) → Undotted f → Undotted (put_args text_of args f).1
  unfolding put_args
  put_args-keeps none f h = h
  put_args-keeps (some nil) f h = h
  put_args-keeps (some (cons key nil)) f h = h
  put_args-keeps (some (cons key (cons v nil))) f h = put_key-keeps key v f h
  put_args-keeps (some (cons key (cons v (cons w ws)))) f h = h

  get_args-keeps :
      (args : Option Values) (f : Fields) → Undotted f → Undotted (get_args text_of args f).1
  unfolding get_args
  get_args-keeps none f h = h
  get_args-keeps (some nil) f h = h
  get_args-keeps (some (cons key nil)) f h = h
  get_args-keeps (some (cons key (cons v vs))) f h = h

  keys_args-keeps :
      (args : Option Values) (f : Fields) → Undotted f → Undotted (keys_args text_of args f).1
  unfolding keys_args
  keys_args-keeps none f h = h
  keys_args-keeps (some nil) f h = h
  keys_args-keeps (some (cons v vs)) f h = h

  del_found-keeps :
      (key : Text) (o : Option Value) (f : Fields)
      → Undotted f
      → Undotted (del_found text_of key o f).1
  unfolding del_found
  del_found-keeps key none f h = h
  del_found-keeps key (some v) f h = del_field-Undotted key f h

  del_key-keeps : (key : Value) (f : Fields) → Undotted f → Undotted (del_key text_of key f).1
  unfolding del_key
  del_key-keeps null f h = h
  del_key-keeps (number n) f h = h
  del_key-keeps (str key) f h = del_found-keeps key (get_field key f) f h
  del_key-keeps (list vs) f h = h
  del_key-keeps (dict g) f h = h

  del_args-keeps :
      (args : Option Values) (f : Fields) → Undotted f → Undotted (del_args text_of args f).1
  unfolding del_args
  del_args-keeps none f h = h
  del_args-keeps (some nil) f h = h
  del_args-keeps (some (cons key nil)) f h = del_key-keeps key f h
  del_args-keeps (some (cons key (cons v vs))) f h = h

echo_args-keeps :
    (m : Text) (args : Option Values) (f : Fields) → Undotted f → Undotted (echo_args m args f).1
unfolding echo_args
echo_args-keeps m none f h = h
echo_args-keeps m (some nil) f h = h
echo_args-keeps m (some (cons v nil)) f h = h
echo_args-keeps m (some (cons v (cons w ws))) f h = h

fail_args-keeps :
    (m : Text) (args : Option Values) (f : Fields) → Undotted f → Undotted (fail_args m args f).1
unfolding fail_args
fail_args-keeps m none f h = h
fail_args-keeps m (some nil) f h = h
fail_args-keeps m (some (cons v nil)) f h = h
fail_args-keeps m (some (cons v (cons w ws))) f h = h

register-AllKeep :
    (name : Text) (cb : Handler Fields) (s : Server Fields)
    → KeepsUndotted cb
    → AllKeep s.cbs
    → AllKeep (register_request name cb s).cbs
unfolding AllKeep register_request
register-AllKeep name cb s keeps all j found e = elim (insert_cases name j cb found s.cbs e) [
  | inl same ↦ subst KeepsUndotted same keeps
  | inr old ↦ all j found old
]

module _ (text_of : Trouble → Text) where
  registry-AllKeep : AllKeep (new_registry text_of).cbs
  unfolding new_registry init request_echo request_fail AllKeep put get keys delitem lookup
  registry-AllKeep =
      register-AllKeep (codes "del") (delitem text_of) _
        (λ vs fs f h. del_args-keeps text_of (bind_params (codes "key" ∷ []) vs fs) f h)
        (register-AllKeep (codes "keys") (keys text_of) _
          (λ vs fs f h. keys_args-keeps text_of (bind_params [] vs fs) f h)
          (register-AllKeep (codes "get") (get text_of) _
            (λ vs fs f h. get_args-keeps text_of (bind_params (codes "key" ∷ []) vs fs) f h)
            (register-AllKeep (codes "put") (put text_of) _
              (λ vs fs f h.
                put_args-keeps text_of (bind_params (codes "key" ∷ codes "val" ∷ []) vs fs) f h)
              (register-AllKeep (codes "fail") (request_fail (text_of misfit)) _
                (λ vs fs f h.
                  fail_args-keeps (text_of misfit) (bind_params (codes "arg" ∷ []) vs fs) f h)
                (register-AllKeep (codes "echo") (request_echo (text_of misfit)) _
                  (λ vs fs f h.
                    echo_args-keeps (text_of misfit) (bind_params (codes "arg" ∷ []) vs fs) f h)
                  (λ name cb e. absurd (cc)))))))

  -- Whatever requests reach a registry, and however its turns and a stop are mixed with them: if
  -- no key at the top of its data has a dot before, none has one afterwards.
  pub run-Undotted :
      (rt : Runtime) (actions : List Action) (s : Server Fields)
      → s.cbs ≡ (new_registry text_of).cbs
      → Undotted s.store
      → Undotted (run rt actions s).store
  unfolding AllKeep
  run-Undotted rt actions s same h =
      let order = run-InOrder rt actions s in
      let keeps = subst AllKeep (sym same) registry-AllKeep in
      subst Undotted (sym order.store_is) (
        answers_keep rt s.cbs Undotted
          (λ name cb vs fs store known. keeps name cb known vs fs store) order.served s.store h)

  missing_dotted :
      (key : Text) (f : Fields) → has_char b'.' key ≡ true → Undotted f → get_field key f ≡ none
  unfolding get_field
  missing_dotted key no_fields dotted h = refl
  missing_dotted key (field j v rest) dotted (hj, hr) = elim (Bool-cases (same_text j key)) [
    | inl e ↦
        absurd (
          ground
            (arith, same_text_iff j key, ap (λ t. has_char b'.' t) ((same_text_iff j key).0 e)))
    | inr n ↦ rw n (missing_dotted key rest dotted hr)
  ]

  -- Whatever requests have reached a registry with no key at the top of its data that has a dot:
  -- the deletion of a key with a dot raises and changes nothing, though `get` and `put` take such
  -- a key for a path.
  pub del_dotted :
      (rt : Runtime) (actions : List Action) (s : Server Fields) (key : Text)
      → s.cbs ≡ (new_registry text_of).cbs
      → Undotted s.store
      → has_char b'.' key ≡ true
      → del_key text_of (str key) (run rt actions s).store
        ≡ (raises (text_of (no_key (str key))), (run rt actions s).store)
  unfolding del_key del_found
  del_dotted rt actions s key same h dotted =
      let f = (run rt actions s).store in
      ap (λ o. del_found text_of key o f)
        (missing_dotted key f dotted (run-Undotted rt actions s same h))
