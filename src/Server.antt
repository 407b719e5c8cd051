-- ===== src/Server.antt =====
-- src/radical/utils/zmq/server.py: `Server`. The handlers work on a store of their own; the encoding by
-- msgpack, the texts of Python's exceptions and their traces are parameters. One turn of the loop is one
-- step, and requests come in and `stop` is called between turns.
pub mod Requests
pub mod Verdicts
pub mod Induction
pub mod Replies
pub mod Order
pub mod Ports
pub mod Tests
use radical_utils.Prelude.{
  ℕ, zero, suc, Bool, true, false, Option, none, some, List, [], ◌∷◌, ◌++◌, if◌then◌else◌,
}
use radical_utils.Prelude.Eq.{Eq}
use radical_utils.Prelude.Chars.{Text, codes, text_eq}
use radical_utils.Prelude.Dict.{Dict, lookup, insert}
use radical_utils.Message.{
  Value, null, number, str, list, dict, Values, nil, cons, Fields, no_fields, field, truthy,
  elements,
}
use radical_utils.Message.Entries.{get_field, del_field}

-- `exits` is an exception that is no `Exception`, such as `SystemExit`.
pub data Outcome : Type 0 where
  returns : Value → Outcome
  raises : Text → Outcome
  exits : Outcome

-- Python's own exceptions on the way to a handler.
pub data Fault : Type 0 where
  undecodable unhashable not_iterable not_mapping : Fault
  missing : Text → Fault

pub record Reply : Type 0 where
  pub err : Option Text
  pub exc : Option Text
  pub res : Value

pub data Attempt : Type 0 where
  replied : Reply → Attempt
  failed : Text → Attempt
  exited : Attempt

-- A callback, by the positional and the named arguments of the call.
abbrev pub Handler : Type 0 → Type 0
Handler S = Values → Fields → S → Outcome × S

-- `_success`
unfoldable pub success : Value → Reply
success v = record { err = none; exc = none; res = v }

unfoldable pub or_invalid : Option Text → Text
or_invalid none = codes "invalid request"
or_invalid (some []) = codes "invalid request"
or_invalid (some (c ∷ cs)) = c ∷ cs

-- `_error`
unfoldable pub error : Option Text → Option Text → Reply
error err exc = record { err = some (or_invalid err); exc = exc; res = null }

-- The replies' form on the wire.
unfoldable pub or_none : Option Text → Value
or_none none = null
or_none (some t) = str t

unfoldable pub encode : Reply → Value
encode r = dict (
    field (codes "err") (or_none r.err)
      (field (codes "exc") (or_none r.exc) (field (codes "res") r.res no_fields)))

-- The parameters of a method, by position and then by name.
unfoldable pub bind_params : List Text → Values → Fields → Option Values
bind_params [] nil no_fields = some nil
bind_params [] nil (field k v rest) = none
bind_params [] (cons v vs) kwargs = none
bind_params (p ∷ ps) (cons v vs) kwargs = elim (bind_params ps vs kwargs) [
  | none ↦ none
  | some ws ↦ some (cons v ws)
]
bind_params (p ∷ ps) nil kwargs =
    let rest = bind_params ps nil (del_field p kwargs) in
    elim (get_field p kwargs) [
      | none ↦ none
      | some v ↦ elim rest [ none ↦ none | some ws ↦ some (cons v ws) ]
    ]

unfoldable pub echo_args : {S : Type 0} → Text → Option Values → S → Outcome × S
echo_args misfit (some (cons v nil)) s = (returns v, s)
echo_args misfit other s = (raises misfit, s)

-- `_request_echo`; Python has its own message for a call that does not fit its one parameter.
unfoldable pub request_echo : {S : Type 0} → Text → Handler S
request_echo misfit args kwargs s = echo_args misfit (bind_params (codes "arg" ∷ []) args kwargs) s

unfoldable pub fail_args : {S : Type 0} → Text → Option Values → S → Outcome × S
fail_args misfit (some (cons v nil)) s = (raises (codes "task failed successfully"), s)
fail_args misfit other s = (raises misfit, s)

-- `_request_fail`
unfoldable pub request_fail : {S : Type 0} → Text → Handler S
request_fail misfit args kwargs s = fail_args misfit (bind_params (codes "arg" ∷ []) args kwargs) s

pub data Thread : Type 0 where
  unstarted running ended died : Thread

pub record Server (S : Type 0) : Type 0 where
  pub cbs : Dict Text (Handler S)
  pub inbox : List Text
  pub outbox : List Text
  pub stopping : Bool
  pub thread : Thread
  pub store : S

unfoldable pub register_request : {S : Type 0} → Text → Handler S → Server S → Server S
register_request name cb s = record s { cbs = insert name cb s.cbs }

-- A new server with its two handlers.
unfoldable pub init : {S : Type 0} → Text → S → Server S
init misfit store = register_request (codes "fail") (request_fail misfit) (
    register_request (codes "echo") (request_echo misfit) (record {
      cbs = [];
      inbox = [];
      outbox = [];
      stopping = false;
      thread = unstarted;
      store = store;
    }))

unfoldable pub stop : {S : Type 0} → Server S → Server S
stop s = record s { stopping = true }
