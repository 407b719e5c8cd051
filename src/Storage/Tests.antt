-- ===== src/Storage/Tests.antt =====
-- Runs of the registry of src/radical/utils/zmq/registry.py, and the theorems at them.
use radical_utils.Prelude.{◌≡◌, ◌≢◌, refl, true, [], ◌∷◌}
use radical_utils.Prelude.Chars.{
  Text, codes, text_eq, same_text, same_text_iff, split, has_char, add_first,
}
use radical_utils.Message.{Value, null, number, dict, Fields, no_fields, field}
use radical_utils.Message.Entries.{get_field, or_null, get_or_null}
use radical_utils.Server.{running, Server, register_request, init}
use radical_utils.Server.Requests.{arrives, works, run}
use radical_utils.Client.{returned}
use radical_utils.Client.Sample.{runtime, runtime-IsLawful}
use radical_utils.Storage.{Trouble, misfit, no_split, no_key, new_registry, client_get, client_put}
use radical_utils.Storage.Undotted.{Undotted, run-Undotted}
use radical_utils.Storage.Remote.{IsServing, client_get-client_put, client_put_lost}

abbrev text_of : Trouble → Text
text_of misfit = codes "misfit"
text_of no_split = codes "no split"
text_of (no_key v) = codes "no key"

abbrev show : Value → Text
show v = []

-- With a dictionary under `a`.
abbrev registry : Server Fields
registry = record (new_registry text_of) {
  thread = running;
  store = field (codes "a") (dict (field (codes "x") (number 1) no_fields)) no_fields;
}

registry-IsServing : IsServing text_of registry
unfolding new_registry init register_request
registry-IsServing = record {
  ready = record { on = refl; stays = refl; idle = refl };
  commands = refl;
}

client_get-client_put_example :
    (client_get show runtime
      (codes "b.c")
      null
      (client_put show runtime (codes "b.c") (number 2) registry).1).0
    ≡ returned (number 2)
unfolding split add_first get_or_null or_null get_field same_text
client_get-client_put_example =
    client_get-client_put text_of show runtime runtime-IsLawful (codes "b.c") (number 2) null
      registry registry-IsServing refl

c-ne-a : codes "c" ≢ codes "a"
unfolding same_text
c-ne-a e =
    let same : same_text (codes "c") (codes "a") ≡ true =
      (same_text_iff (codes "c") (codes "a")).1 e in
    absurd (cc)

client_put_lost_example :
    ((client_get show runtime
        (codes "a.c")
        null
        (client_put show runtime (codes "a.c") (number 2) registry).1).0
      ≡ (client_get show runtime (codes "a.c") null registry).0)
    × ((client_get show runtime
          (codes "c")
          null
          (client_put show runtime (codes "a.c") (number 2) registry).1).0
        ≡ returned (number 2))
unfolding split add_first get_or_null or_null get_field same_text
client_put_lost_example =
    client_put_lost text_of show runtime runtime-IsLawful (codes "a.c") (codes "c") (codes "a")
      (number 2) null registry registry-IsServing refl refl (λ e. absurd (cc)) c-ne-a

run-Undotted_example : Undotted (run runtime (arrives [] ∷ works ∷ []) registry).store
unfolding has_char
run-Undotted_example =
    run-Undotted text_of runtime (arrives [] ∷ works ∷ []) registry refl (refl, tt)
