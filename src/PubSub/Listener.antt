-- ===== src/PubSub/Listener.antt =====
-- A listener of pubsub.py that has met a message it cannot read.
use radical_utils.Prelude.{ℕ, ◌≡◌, refl, Option, none, some, List, [], ◌∷◌, ◌++◌}
use radical_utils.PubSub.{
  Bytes, running, died, Subscriber, undecodable, Delivered, start_listener, add_callback, add_topic,
  subscribe, decode, dispatch, listen,
}

pub data Action : Type 0 where
  arrives : Bytes → Action
  subscribes : Bytes → Option ℕ → Option ℕ → Action
  listens : Action

module _ {M : Type 0} (unpack : Bytes → Option M) where
  unfoldable pub act : Action → Subscriber → Subscriber × List (Delivered M)
  act (arrives bytes) s = (record s { inbox = s.inbox ++ bytes ∷ [] }, [])
  act (subscribes topic cb lock) s = (subscribe topic cb lock s, [])
  act listens s = listen unpack s

  unfoldable pub run : List Action → Subscriber → Subscriber × List (Delivered M)
  run [] s = (s, [])
  run (a ∷ more) s =
      let (s', first) = act a s in let (s'', rest) = run more s' in (s'', first ++ rest)

  died-subscribe :
      (s : Subscriber) (topic : Bytes) (cb lock : Option ℕ)
      → s.thread ≡ died
      → (subscribe topic cb lock s).thread ≡ died
  unfolding subscribe add_topic add_callback start_listener
  died-subscribe s topic none lock e = e
  died-subscribe s topic (some cb) lock e = rw e refl

  run_died : (actions : List Action) (s : Subscriber) → s.thread ≡ died → (run actions s).1 ≡ []
  unfolding run act listen
  run_died [] s e = refl
  run_died (arrives bytes ∷ more) s e = run_died more (record s { inbox = s.inbox ++ bytes ∷ [] }) e
  run_died (subscribes topic cb lock ∷ more) s e =
      run_died more (subscribe topic cb lock s) (died-subscribe s topic cb lock e)
  run_died (listens ∷ more) s e = rw (e, listen) (run_died more s e)

  -- Once the listener has met a message that it cannot read, it delivers nothing more, whatever
  -- arrives, and whatever callbacks are subscribed: a listener that died counts as one that runs.
  pub run_after_undecodable :
      (actions : List Action) (s : Subscriber) (bytes : Bytes) (rest : List Bytes)
      → s.thread ≡ running
      → s.inbox ≡ bytes ∷ rest
      → decode unpack bytes ≡ undecodable
      → (run (listens ∷ actions) s).1 ≡ []
  unfolding run act listen dispatch
  run_after_undecodable actions s bytes rest on next bad =
      rw (on, listen, next, bad) (run_died actions (record s { inbox = rest; thread = died }) refl)
