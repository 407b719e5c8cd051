-- ===== src/Server/Verdicts.antt =====
-- What the server of server.py replies: a handler's result, or an error.
use radical_utils.Prelude.{
  ◌≡◌, ◌≢◌, refl, Option, none, some, [], ◌∷◌, ◌⊎◌, inl, inr, Bool-cases, arith,
}
use radical_utils.Prelude.Chars.{Text, codes, text_eq}
use radical_utils.Prelude.Dict.{Dict, lookup}
use radical_utils.Message.{Value, null, number, str, list, dict, Values, Fields, truthy, elements}
use radical_utils.Message.Entries.{get_field}
use radical_utils.Server.{
  Outcome, returns, raises, exits, Reply, Handler, success, or_invalid, error,
}
use radical_utils.Server.Requests.{
  Runtime, mapping, settle, call_with, call, find_and_call, dispatch, read_keys, attempt, finish,
}

-- The reply has no error and a result of the kind `P`, or an error that says something and no result.
abbrev pub Judged : (Value → Type 0) → Reply → Type 0
Judged P r = ((r.err ≡ none) × P r.res) ⊎ ((r.err ≢ none) × (r.err ≢ some []) × (r.res ≡ null))

-- The result comes from a handler: the one that is registered for the command of the request, called
-- with the request's arguments.
pub record Called {S : Type 0} (cbs : Dict Text (Handler S)) (f : Fields) (store : S) (v : Value)
    : Type 0 where
  pub name : Text
  pub cb : Handler S
  pub positional : Value
  pub args : Values
  pub kwargs : Fields
  pub has_cmd : get_field (codes "cmd") f ≡ some (str name)
  pub has_args : get_field (codes "args") f ≡ some positional
  pub spreads : elements positional ≡ some args
  pub has_kwargs : get_field (codes "kwargs") f ≡ some (dict kwargs)
  pub known : lookup name cbs ≡ some cb
  pub returned : (cb args kwargs store).0 ≡ returns v

-- What a decoded request has to be for its reply to have a result.
abbrev pub Answerable : {S : Type 0} → Dict Text (Handler S) → Option Value → S → Value → Type 0
Answerable cbs (some (dict f)) store v = Called cbs f store v
Answerable cbs o store v = ⊥

or_invalid_says : (o : Option Text) → or_invalid o ≢ []
unfolding or_invalid
or_invalid_says none e = absurd (cc)
or_invalid_says (some []) e = absurd (cc)
or_invalid_says (some (c ∷ cs)) e = absurd (cc)

error-Judged : (P : Value → Type 0) (err exc : Option Text) → Judged P (error err exc)
unfolding error
error-Judged P err exc = inr (λ e. absurd (cc), λ e. or_invalid_says err (ground (arith, e)), refl)

module _ (rt : Runtime) where
  settle-Judged :
      (P : Value → Type 0) (o : Outcome)
      → ((v : Value) → o ≡ returns v → P v)
      → Judged P (finish rt.trace (settle o))
  unfolding settle finish success
  settle-Judged P (returns v) good = inl (refl, good v refl)
  settle-Judged P (raises m) good = error-Judged P _ _
  settle-Judged P exits good = error-Judged P _ _

module _ {S : Type 0} (rt : Runtime) where
  call-Judged :
      (P : Value → Type 0) (cb : Handler S) (args : Option Values) (kwargs : Option Fields)
      (store : S)
      → ((vs : Values) (fs : Fields) (v : Value)
          → args ≡ some vs
          → kwargs ≡ some fs
          → (cb vs fs store).0 ≡ returns v
          → P v)
      → Judged P (finish rt.trace (call_with rt.message cb args kwargs store).0)
  unfolding call_with finish
  call-Judged P cb none kwargs store good = error-Judged P _ _
  call-Judged P cb (some vs) none store good = error-Judged P _ _
  call-Judged P cb (some vs) (some fs) store good =
      settle-Judged rt P (cb vs fs store).0 (λ v e. good vs fs v refl refl e)

  module _ (cbs : Dict Text (Handler S)) (f : Fields) (store : S) where
    mapping_lem : (v : Value) (fs : Fields) → mapping v ≡ some fs → v ≡ dict fs
    unfolding mapping
    mapping_lem null fs e = absurd (cc)
    mapping_lem (number n) fs e = absurd (cc)
    mapping_lem (str s) fs e = absurd (cc)
    mapping_lem (list vs) fs e = absurd (cc)
    mapping_lem (dict g) fs e = cc

    lookup-Judged :
        (name : Text) (o : Option (Handler S)) (args kwargs : Value)
        → lookup name cbs ≡ o
        → get_field (codes "cmd") f ≡ some (str name)
        → get_field (codes "args") f ≡ some args
        → get_field (codes "kwargs") f ≡ some kwargs
        → Judged (Called cbs f store) (finish rt.trace (call rt.message o name args kwargs store).0)
    unfolding call finish
    lookup-Judged name none args kwargs e hc ha hk = error-Judged (Called cbs f store) _ _
    lookup-Judged name (some cb) args kwargs e hc ha hk =
        call-Judged (Called cbs f store) cb (elements args) (mapping kwargs) store
          (λ vs fs v spreads maps returned. record {
            name = name;
            cb = cb;
            positional = args;
            args = vs;
            kwargs = fs;
            has_cmd = hc;
            has_args = ha;
            spreads = spreads;
            has_kwargs = rw (← mapping_lem kwargs fs maps) hk;
            known = e;
            returned = returned;
          })

    command-Judged :
        (cmd args kwargs : Value)
        → get_field (codes "cmd") f ≡ some cmd
        → get_field (codes "args") f ≡ some args
        → get_field (codes "kwargs") f ≡ some kwargs
        → Judged
            (Called cbs f store)
            (finish rt.trace (find_and_call rt.message rt.digits cbs cmd args kwargs store).0)
    unfolding find_and_call call finish
    command-Judged null args kwargs hc ha hk = error-Judged (Called cbs f store) _ _
    command-Judged (number n) args kwargs hc ha hk = error-Judged (Called cbs f store) _ _
    command-Judged (str name) args kwargs hc ha hk =
        lookup-Judged name (lookup name cbs) args kwargs refl hc ha hk
    command-Judged (list vs) args kwargs hc ha hk = error-Judged (Called cbs f store) _ _
    command-Judged (dict g) args kwargs hc ha hk = error-Judged (Called cbs f store) _ _

    dispatch-Judged :
        (cmd args kwargs : Value)
        → get_field (codes "cmd") f ≡ some cmd
        → get_field (codes "args") f ≡ some args
        → get_field (codes "kwargs") f ≡ some kwargs
        → Judged
            (Called cbs f store)
            (finish rt.trace (dispatch rt.message rt.digits cbs cmd args kwargs store).0)
    unfolding dispatch finish
    dispatch-Judged cmd args kwargs hc ha hk = elim (Bool-cases (truthy cmd)) [
      | inl e ↦ rw e (command-Judged cmd args kwargs hc ha hk)
      | inr n ↦ rw n (error-Judged (Called cbs f store) _ _)
    ]

    keys-Judged :
        (cmd args kwargs : Option Value)
        → get_field (codes "cmd") f ≡ cmd
        → get_field (codes "args") f ≡ args
        → get_field (codes "kwargs") f ≡ kwargs
        → Judged
            (Called cbs f store)
            (finish rt.trace (read_keys rt.message rt.digits cbs cmd args kwargs store).0)
    unfolding read_keys finish
    keys-Judged none args kwargs hc ha hk = error-Judged (Called cbs f store) _ _
    keys-Judged (some cmd) none kwargs hc ha hk = error-Judged (Called cbs f store) _ _
    keys-Judged (some cmd) (some args) none hc ha hk = error-Judged (Called cbs f store) _ _
    keys-Judged (some cmd) (some args) (some kwargs) hc ha hk =
        dispatch-Judged cmd args kwargs hc ha hk

  -- A reply has no error, and its result is what the handler of the request's command returned
  -- for the request's arguments, or it has an error that is not empty, and no result.
  pub attempt-Judged :
      (cbs : Dict Text (Handler S)) (o : Option Value) (store : S)
      → Judged
          (Answerable cbs o store)
          (finish rt.trace (attempt rt.message rt.digits cbs o store).0)
  unfolding attempt finish
  attempt-Judged cbs none store = error-Judged (λ v. ⊥) _ _
  attempt-Judged cbs (some null) store = error-Judged (λ v. ⊥) _ _
  attempt-Judged cbs (some (number n)) store = error-Judged (λ v. ⊥) _ _
  attempt-Judged cbs (some (str t)) store = error-Judged (λ v. ⊥) _ _
  attempt-Judged cbs (some (list vs)) store = error-Judged (λ v. ⊥) _ _
  attempt-Judged cbs (some (dict f)) store = keys-Judged cbs f store _ _ _ refl refl refl
