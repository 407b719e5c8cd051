-- ===== src/Channel/Tests.antt =====
-- A run of a channel, and its theorem at it.
use radical_utils.Prelude.{ℕ, ◌≡◌, refl, true, false, none, some, List, [], ◌∷◌}
use radical_utils.Prelude.Dict.{lookup, insert}
use radical_utils.Queue.{
  name_or_default, buffered, bulk_size_or_default, store, handle_put, serve, is_empty, handle_get,
  put,
}
use radical_utils.Queue as Queue
use radical_utils.Getter.{Getter, get_nowait, fetch, request, poll_reply, take_reply}
use radical_utils.Getter as Getter
use radical_utils.Channel.{Action, puts, tries, answer, receive, act, run}

abbrev actions : List (Action ℕ)
actions =
    puts (1 ∷ 2 ∷ 3 ∷ []) none
    ∷ tries false
    ∷ puts (9 ∷ []) (some "other")
    ∷ puts (4 ∷ []) (some "default")
    ∷ tries true
    ∷ tries true
    ∷ []

-- Two messages at a time: the late reply first, then the next two.
run_returns : (run "" actions (Getter.init (Queue.init 2) none).0).1 ≡ 1 ∷ 2 ∷ 3 ∷ 4 ∷ []
unfolding run act answer receive get_nowait fetch request poll_reply take_reply Getter.init
    Queue.init lookup insert name_or_default buffered bulk_size_or_default store handle_put serve
    is_empty handle_get put
run_returns = refl
