-- ===== src/Ids/Tests.antt =====
-- Calls of the registry of ids.py, and the theorem at some.
use radical_utils.Prelude.{◌≡◌, refl, String, true, List, [], ◌∷◌}
use radical_utils.Prelude.Eq.{string_eq}
use radical_utils.Prelude.Dict.{lookup, insert}
use radical_utils.Ids.{ensure, read, get_counter, reset_others, reset_counter}
use radical_utils.Ids.Counters.{
  Call, gets, resets, apply, after, got_since_reset, get_counter-after,
}

-- The latest first.
abbrev calls : List (Call String)
calls =
    gets "task" ∷ gets "task" ∷ gets "pilot" ∷ resets "pilot" true ∷ gets "task" ∷ gets "pilot" ∷ []

get_counter-after_example : (get_counter "task" (after calls)).0 ≡ 2
unfolding got_since_reset
get_counter-after_example = get_counter-after "task" calls

pilots : (get_counter "pilot" (after calls)).0 ≡ 2
unfolding ensure read get_counter reset_others reset_counter apply after lookup insert
pilots = refl
