-- ===== src/Getter/Listener.antt =====
-- The listener of zmq/queue.py after its last callback has gone.
use radical_utils.Prelude.{
  String, ℕ, ◌≡◌, refl, Bool, true, false, Option, none, some, List, [], ◌∷◌, arith,
}
use radical_utils.Getter.{
  Getter, Endpoint, Turn, no_unset, start_listener, stop_listener, add_callback, remove_callback,
  subscribe, unsubscribe, listen,
}

-- A listener that is told to end delivers nothing.
listen_ended :
    {S M : Type 0} (serve : S → String → S × List M) (turns : List (Turn S)) (idx : ℕ)
    (g : Getter S M) (ep : Endpoint)
    → g.endpoint ≡ some ep
    → ep.term ≡ true
    → (listen serve turns idx g).1 ≡ []
unfolding listen
listen_ended serve [] idx g ep e t = refl
listen_ended serve (turn ∷ turns) idx g ep e t = ground arith

module _ {S M : Type 0} (serve : S → String → S × List M) (g : Getter S M) (requested : Bool)
    (cb : ℕ) (lock : Option ℕ) where
  -- The entry of a listener with one callback.
  abbrev pub listening : Endpoint
  listening = record {
    requested = requested;
    thread = true;
    term = false;
    callbacks = (cb, lock) ∷ [];
  }

  abbrev pub ended : Endpoint
  ended = record { requested = requested; thread = true; term = true; callbacks = [] }

  module _ (running : g.endpoint ≡ some listening) where
    unsubscribe_last : unsubscribe cb g ≡ (record g { endpoint = some ended }, some no_unset)
    unfolding unsubscribe stop_listener remove_callback
    unsubscribe_last = ground arith

    -- Taking the only callback away from a running listener raises, since the code calls a method
    -- that events do not have; and a callback that is subscribed afterwards is accepted, but
    -- nothing is ever delivered to it.
    pub subscribe_after_unsubscribe :
        (next : ℕ) (its_lock : Option ℕ) (turns : List (Turn S)) (idx : ℕ)
        → ((unsubscribe cb g).1 ≡ some no_unset)
          × (let (g', e) = subscribe next its_lock (unsubscribe cb g).0 in
              (e ≡ none) × ((listen serve turns idx g').1 ≡ []))
    unfolding subscribe add_callback start_listener
    subscribe_after_unsubscribe next its_lock turns idx =
        rw unsubscribe_last (refl, (refl, listen_ended serve turns idx _ _ refl refl))
