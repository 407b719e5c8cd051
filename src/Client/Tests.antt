-- ===== src/Client/Tests.antt =====
-- Runs of the client of client.py against a server, and the theorem at one.
use radical_utils.Prelude.{ℕ, ◌≡◌, refl, some, []}
use radical_utils.Prelude.Chars.{Text, codes, text_eq, same_text}
use radical_utils.Prelude.Dict.{lookup, insert}
use radical_utils.Message.{Value, number, nil, cons, no_fields}
use radical_utils.Server.{
  bind_params, fail_args, running, Server, register_request, init, request_fail,
}
use radical_utils.Client.{raised, request}
use radical_utils.Client.Calls.{Ready, told, served, request-told}
use radical_utils.Client.Sample.{runtime, runtime-IsLawful}

abbrev server : Server ℕ
server = record (init (codes "misfit") 5) { thread = running }

abbrev show : Value → Text
show v = []

server-Ready : Ready server
unfolding init register_request
server-Ready = record { on = refl; stays = refl; idle = refl }

fail_is_known : lookup (codes "fail") server.cbs ≡ some (request_fail (codes "misfit"))
unfolding init register_request lookup insert same_text
fail_is_known = refl

request-told_example :
    (back : Text) × (request show runtime (codes "fail") (cons (number 1) nil) no_fields server ≡ (
      told runtime.trace
          (request_fail (codes "misfit") (cons (number 1) nil) no_fields server.store).0,
      served runtime server
          (request_fail (codes "misfit") (cons (number 1) nil) no_fields server.store)
          back,
    ))
request-told_example =
    request-told runtime show _ _ (cons (number 1) nil) no_fields server
      (request_fail (codes "misfit")) runtime-IsLawful server-Ready fail_is_known

told_fail :
    told runtime.trace
      (request_fail (codes "misfit") (cons (number 1) nil) no_fields server.store).0
    ≡ raised (codes "ERROR: command failed: task failed successfully\ntrace")
unfolding request_fail fail_args bind_params runtime
told_fail = refl
