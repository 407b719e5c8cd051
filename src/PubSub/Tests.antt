-- ===== src/PubSub/Tests.antt =====
-- Runs of a channel of pubsub.py whose messages are bytes, and the theorems at them.
use radical_utils.Prelude.{
  ℕ, ◌≡◌, refl, Option, none, some, List, [], ◌∷◌, length, Bool, true, false, ◌&&◌, ◌||◌, ◌==◌,
}
use radical_utils.PubSub.{
  Bytes, escape, same_bytes, has_topic, split_once, running, Subscriber, Reply, start_listener,
  add_callback, add_topic, subscribe, subscribe_all, connected, create, without, stop_listener,
  unsubscribe, stop, deliver, frame, decode, get, get_nowait, dispatch, listen,
  forward_subscription, forward_message, bridge_work,
}
use radical_utils.PubSub.Order.{quiet}
use radical_utils.PubSub.Pending.{
  Action, puts, requests, works, listens, act, run, due_of, due, let_through, put_due,
}

abbrev pack : ℕ → Bytes
pack n = n ∷ []

abbrev unpack : Bytes → Option ℕ
unpack [] = none
unpack (n ∷ []) = some n
unpack (n ∷ m ∷ rest) = none

unfoldable is_prefix : Bytes → Bytes → Bool
is_prefix [] bytes = true
is_prefix (c ∷ cs) [] = false
is_prefix (c ∷ cs) (d ∷ ds) = c == d && is_prefix cs ds

-- A filter lets through what it is a prefix of.
unfoldable matches : List Bytes → Bytes → Bool
matches [] bytes = false
matches (f ∷ fs) bytes = is_prefix f bytes || matches fs bytes

program : Unit {0}
unfolding escape same_bytes has_topic split_once start_listener add_callback add_topic subscribe
    subscribe_all connected create without stop_listener unsubscribe stop deliver frame decode get
    get_nowait dispatch listen forward_subscription forward_message bridge_work act run due_of due
    let_through put_due is_prefix matches
program = tt

-- The topics "a b" and "c": the first is there twice then, and the callback three times.
abbrev topics : List Bytes
topics = (97 ∷ 32 ∷ 98 ∷ []) ∷ (99 ∷ []) ∷ []

abbrev subscriber : Subscriber
subscriber = record {
  topics = (97 ∷ 32 ∷ 98 ∷ []) ∷ (99 ∷ []) ∷ (97 ∷ 95 ∷ 98 ∷ []) ∷ [];
  filters = (97 ∷ 95 ∷ 98 ∷ []) ∷ (99 ∷ []) ∷ (97 ∷ 95 ∷ 98 ∷ []) ∷ [];
  inbox = [];
  callbacks = (7, none) ∷ (7, none) ∷ (7, none) ∷ [];
  thread = running;
  interactive = false;
}

both_subscribed : create topics (some 7) ≡ some subscriber
unfolding program
both_subscribed = refl

-- A subscriber cannot `get` any more once its last callback is gone.
get_after_unsubscribe :
    (get unpack (unsubscribe 7 (unsubscribe 7 (unsubscribe 7 subscriber)))).1 ≡ Reply.invalid
unfolding program
get_after_unsubscribe = refl

-- A message for "cd" passes the filter for "c".
abbrev actions : List (Action ℕ)
actions =
    puts (97 ∷ 32 ∷ 98 ∷ []) 1
    ∷ puts (100 ∷ []) 2
    ∷ requests (1 ∷ [])
    ∷ works
    ∷ listens
    ∷ works
    ∷ puts (99 ∷ 100 ∷ []) 3
    ∷ works
    ∷ []

-- One of the two deliverable messages has arrived: three times.
run_delivers_thrice : length (run pack unpack matches actions (quiet, subscriber)).1 ≡ 3
unfolding program
run_delivers_thrice = refl
