-- ===== src/Getter/Tests.antt =====
-- Runs of the getter, and its theorems at them. The bridge holds one list of messages, and gives two
-- at a time to whoever asks for `default`.
use radical_utils.Prelude.{
  ℕ, ◌≡◌, refl, String, true, false, none, some, List, [], ◌∷◌, take, drop, if◌then◌else◌,
}
use text.Mathlib.Text.{◌==◌ as str_eq}
use radical_utils.Queue.{name_or_default}
use radical_utils.Getter.{
  Getter, Turn, start_listener, stop_listener, add_callback, remove_callback, subscribe,
  unsubscribe, listen, get, get_nowait, fetch, request, poll_reply, take_reply, init, deliver,
  endpoint_get, next_idx, new_endpoint,
}
use radical_utils.Getter.Calls.{gets, tries, Call, do_call, run_calls}

program : Unit {0}
unfolding start_listener stop_listener add_callback remove_callback subscribe unsubscribe listen get
    get_nowait fetch request poll_reply take_reply init deliver endpoint_get next_idx do_call
    run_calls name_or_default
program = tt

abbrev serve : List ℕ → String → List ℕ × List ℕ
serve w qname = if str_eq qname "default" then (drop 2 w, take 2 w) else (w, [])

abbrev calls : List Call
calls = gets "" ∷ tries "default" false ∷ gets "b" ∷ tries "default" false ∷ []

calls_return : (run_calls serve calls (init (1 ∷ 2 ∷ 3 ∷ 4 ∷ 5 ∷ []) none).0).1 ≡ 1 ∷ 2 ∷ 3 ∷ 4 ∷ []
unfolding program
calls_return = refl

abbrev fresh : Getter (List ℕ) ℕ
fresh = record {
  socket = record { world = 1 ∷ 2 ∷ 3 ∷ []; inbox = none };
  requested = false;
  interactive = true;
  endpoint = some (new_endpoint false);
}

abbrev listener : Getter (List ℕ) ℕ
listener = record fresh {
  interactive = false;
  endpoint = some (record (new_endpoint false) { thread = true; callbacks = (7, none) ∷ [] });
}

abbrev turn : Turn (List ℕ)
turn = record { others = λ w. w; arrives = true }

-- A listener delivers bulks to its callback.
delivered :
    (listen serve (turn ∷ turn ∷ turn ∷ []) 0 listener).1 ≡ (7, 1 ∷ 2 ∷ []) ∷ (7, 3 ∷ []) ∷ []
unfolding program
delivered = refl
