-- ===== src/Server/Tests.antt =====
-- Runs of the server of server.py, and the theorems at them.
use mathlib.Core.Path.{subst}
use radical_utils.Prelude.{
  ℕ, ◌≡◌, refl, false, Option, none, some, [], ◌∷◌, length, inl, inr, leb, if◌then◌else◌,
}
use radical_utils.Prelude.Eq.{string_eq}
use radical_utils.Prelude.Chars.{
  Text, codes, text_eq, same_text, add_first, split, split_max, replace, lstrip,
}
use radical_utils.Prelude.Dict.{lookup, insert, insert_cases}
use radical_utils.Message.{
  Value, number, str, list, dict, Values, nil, cons, no_fields, field, truthy, elements,
}
use radical_utils.Message.Entries.{get_field, del_field}
use radical_utils.Server.{
  bind_params, echo_args, fail_args, success, or_invalid, error, or_none, encode, request_echo,
  request_fail, running, Server, register_request, init, stop,
}
use radical_utils.Server.Requests.{
  Runtime, mapping, settle, call_with, call, find_and_call, dispatch, read_keys, attempt, finish,
  is_exit, send, reply_to, serve_request, take_request, turn, work_in, work, arrives, stops, works,
  act, run,
}
use radical_utils.Server.Order.{arrivals, packed, answer_to, answer, answers, InOrder, run-InOrder}
use radical_utils.Server.Verdicts.{Judged, Answerable, attempt-Judged}
use radical_utils.Server.Replies.{Polite, run_answers_all}
use radical_utils.Server.Ports.{
  parsed, invalid, no_number, range, single_port, port_or, make_range, read_ports, with_ports,
  read_parts, read_url, star, port, Port, Binding, binds, in_use, bound, after_bind, try_range,
  bind_ports, First, bind_ports-First,
}

-- A wire of two texts: 0 is a call of echo, all else no request; all that is sent is empty.
call_echo : Value
call_echo = dict (
    field (codes "cmd") (str (codes "echo")) (
      field (codes "args") (list (cons (number 7) nil))
        (field (codes "kwargs") (dict no_fields) no_fields)))

unpack : Text → Option Value
unfolding call_echo
unpack [] = none
unpack (c ∷ cs) = some call_echo

abbrev packing : Runtime
packing = record {
  pack = λ v. some [];
  unpack = unpack;
  message = λ f. codes "fault";
  trace = λ m. m;
  digits = λ n. b'0' ∷ [];
}

abbrev refusing : Runtime
refusing = record {
  pack = λ v. none;
  unpack = unpack;
  message = λ f. codes "fault";
  trace = λ m. m;
  digits = λ n. b'0' ∷ [];
}

abbrev server : Server ℕ
server = record (init (codes "misfit") 5) { thread = running; inbox = (1 ∷ []) ∷ [] ∷ [] }

program : Unit {0}
unfolding unpack same_text insert lookup get_field truthy elements success or_invalid error or_none
    encode request_echo request_fail register_request init stop mapping settle call_with call
    find_and_call dispatch read_keys attempt finish send reply_to serve_request take_request turn
    work_in work act run arrivals packed answer_to answer answers
program = tt

both_answered : (run packing (works ∷ works ∷ []) server).outbox ≡ [] ∷ [] ∷ []
unfolding program call_echo bind_params echo_args
both_answered = refl

echoed :
    (finish (λ m. m) (attempt packing.message packing.digits server.cbs (unpack (1 ∷ [])) 5).0).res
    ≡ number 7
unfolding program call_echo bind_params echo_args fail_args get_field del_field
echoed = refl

run-InOrder_example :
    InOrder packing server
      (run packing (works ∷ arrives (1 ∷ []) ∷ works ∷ stops ∷ works ∷ []) server)
      ((1 ∷ []) ∷ [])
unfolding arrivals
run-InOrder_example =
    run-InOrder packing (works ∷ arrives (1 ∷ []) ∷ works ∷ stops ∷ works ∷ []) server

attempt-Judged_example :
    Judged (Answerable server.cbs (unpack (1 ∷ [])) 5) (
      finish packing.trace
        (attempt packing.message packing.digits server.cbs (unpack (1 ∷ [])) 5).0)
attempt-Judged_example = attempt-Judged packing server.cbs (unpack (1 ∷ [])) 5

echo-polite :
    (o : Option Values) (n : ℕ) → is_exit (settle (echo_args (codes "misfit") o n).0) ≡ false
unfolding echo_args settle
echo-polite none n = refl
echo-polite (some nil) n = refl
echo-polite (some (cons v nil)) n = refl
echo-polite (some (cons v (cons w ws))) n = refl

fail-polite :
    (o : Option Values) (n : ℕ) → is_exit (settle (fail_args (codes "misfit") o n).0) ≡ false
unfolding fail_args settle
fail-polite none n = refl
fail-polite (some nil) n = refl
fail-polite (some (cons v nil)) n = refl
fail-polite (some (cons v (cons w ws))) n = refl

server-Polite : Polite server.cbs
unfolding init register_request lookup request_echo request_fail
server-Polite name cb vs fs store known =
    elim (insert_cases (codes "fail") name (request_fail (codes "misfit")) cb
      (insert (codes "echo") (request_echo (codes "misfit")) []) known) [
        | inl same ↦
            subst (λ h. is_exit (settle (h vs fs store).0) ≡ false) same
              (fail-polite (bind_params (codes "arg" ∷ []) vs fs) store)
        | inr old ↦
            elim (insert_cases (codes "echo") name (request_echo (codes "misfit")) cb [] old) [
              | inl same ↦
                  subst (λ h. is_exit (settle (h vs fs store).0) ≡ false) same
                    (echo-polite (bind_params (codes "arg" ∷ []) vs fs) store)
              | inr never ↦ absurd (cc)
            ]
      ]

run_answers_all_example :
    ((run packing (works ∷ works ∷ []) server).inbox ≡ [])
    × (length (run packing (works ∷ works ∷ []) server).outbox ≡ 2)
    × ((run packing (works ∷ works ∷ []) server).thread ≡ running)
unfolding init register_request
run_answers_all_example = run_answers_all packing (λ v. ([], refl)) server server-Polite refl refl

-- The ports 10000 and 10001 are in use.
bind : Port → Binding
bind star = binds
bind (port p) = if leb p 10001 then in_use else binds

third_port : bind_ports bind 0 (range 10000 (some 11000)) ≡ bound (port 10002)
unfolding bind bind_ports try_range after_bind
third_port = refl

bind_ports-First_example : First bind 10000 3 (bind_ports bind 0 (range 10000 (some 10002)))
bind_ports-First_example = bind_ports-First bind 0 10000 10002

int : Text → Option ℕ
int w =
    if same_text w (codes "10000")
    then some 10000
    else if same_text w (codes "11000")
    then some 11000
    else none

default_url :
    read_url int []
    ≡ parsed (record { proto = codes "tcp"; iface = codes "*"; ports = range 10000 (some 11000) })
unfolding int same_text read_url read_parts with_ports read_ports make_range port_or single_port
    split split_max add_first replace lstrip
default_url = refl

-- The form that the comment in the constructor gives, with a slash at its end, is no valid URL.
slash_at_end : read_url int (codes "tcp://*:10000-11000/") ≡ invalid no_number
unfolding int same_text read_url read_parts with_ports read_ports make_range port_or single_port
    split split_max add_first replace lstrip
slash_at_end = refl
