-- ===== src/Server/Induction.antt =====
-- What holds of every request to the server of server.py if it holds of the calls of its handlers.
use radical_utils.Prelude.{
  ◌≡◌, refl, false, Option, none, some, List, [], ◌∷◌, inl, inr, Bool-cases,
}
use radical_utils.Prelude.Chars.{Text, text_eq}
use radical_utils.Prelude.Dict.{Dict, lookup}
use radical_utils.Message.{Value, null, number, str, list, dict, Values, Fields, truthy, elements}
use radical_utils.Server.{Attempt, Handler}
use radical_utils.Server.Requests.{
  Runtime, mapping, settle, call_with, call, find_and_call, dispatch, read_keys, attempt, is_exit,
}
use radical_utils.Server.Order.{answer_to, answer, answers}

module _ {S : Type 0} (rt : Runtime) (cbs : Dict Text (Handler S)) where
  module _ (store : S) (Q : Attempt × S → Type 0)
      (plain : (a : Attempt) → is_exit a ≡ false → Q (a, store))
      (called : (name : Text) (cb : Handler S) (vs : Values) (fs : Fields)
        → lookup name cbs ≡ some cb
        → Q (settle (cb vs fs store).0, (cb vs fs store).1)) where
    call_with_induction :
        (name : Text) (cb : Handler S) (args : Option Values) (kwargs : Option Fields)
        → lookup name cbs ≡ some cb
        → Q (call_with rt.message cb args kwargs store)
    unfolding call_with
    call_with_induction name cb none kwargs e = plain _ refl
    call_with_induction name cb (some vs) none e = plain _ refl
    call_with_induction name cb (some vs) (some fs) e = called name cb vs fs e

    call_induction :
        (name : Text) (o : Option (Handler S)) (args kwargs : Value)
        → lookup name cbs ≡ o
        → Q (call rt.message o name args kwargs store)
    unfolding call
    call_induction name none args kwargs e = plain _ refl
    call_induction name (some cb) args kwargs e =
        call_with_induction name cb (elements args) (mapping kwargs) e

    command_induction :
        (cmd args kwargs : Value) → Q (find_and_call rt.message rt.digits cbs cmd args kwargs store)
    unfolding find_and_call call
    command_induction null args kwargs = plain _ refl
    command_induction (number n) args kwargs = plain _ refl
    command_induction (str name) args kwargs =
        call_induction name (lookup name cbs) args kwargs refl
    command_induction (list vs) args kwargs = plain _ refl
    command_induction (dict f) args kwargs = plain _ refl

    dispatch_induction :
        (cmd args kwargs : Value) → Q (dispatch rt.message rt.digits cbs cmd args kwargs store)
    unfolding dispatch
    dispatch_induction cmd args kwargs = elim (Bool-cases (truthy cmd)) [
      | inl e ↦ rw e (command_induction cmd args kwargs)
      | inr n ↦ rw n (plain _ refl)
    ]

    keys_induction :
        (cmd args kwargs : Option Value)
        → Q (read_keys rt.message rt.digits cbs cmd args kwargs store)
    unfolding read_keys
    keys_induction none args kwargs = plain _ refl
    keys_induction (some cmd) none kwargs = plain _ refl
    keys_induction (some cmd) (some args) none = plain _ refl
    keys_induction (some cmd) (some args) (some kwargs) = dispatch_induction cmd args kwargs

    pub attempt_induction : (o : Option Value) → Q (attempt rt.message rt.digits cbs o store)
    unfolding attempt
    attempt_induction none = plain _ refl
    attempt_induction (some null) = plain _ refl
    attempt_induction (some (number n)) = plain _ refl
    attempt_induction (some (str t)) = plain _ refl
    attempt_induction (some (list vs)) = plain _ refl
    attempt_induction (some (dict f)) = keys_induction _ _ _

  -- What each handler keeps true of the store stays true through a batch of requests.
  module _ (P : S → Type 0)
      (keeps : (name : Text) (cb : Handler S) (vs : Values) (fs : Fields) (store : S)
        → lookup name cbs ≡ some cb
        → P store
        → P (cb vs fs store).1) where
    pub answers_keep : (l : List Text) (store : S) → P store → P (answers rt cbs l store).1
    unfolding answers answer answer_to
    answers_keep [] store h = h
    answers_keep (bytes ∷ rest) store h = answers_keep rest (answer rt cbs bytes store).1 (
        attempt_induction store (λ p. P p.1) (λ a calm. h)
          (λ name cb vs fs known. keeps name cb vs fs store known h) (rt.unpack bytes))
