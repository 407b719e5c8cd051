-- ===== src/PubSub/Order.antt =====
-- pubsub.py, end to end: a publisher, the bridge and the listener of a subscriber.
use radical_utils.Prelude.{ℕ, ◌≡◌, Option, some, List, [], ◌∷◌, ◌++◌, Bool}
use radical_utils.PubSub.{Bytes, running, Subscriber, message, Delivered, decode, Bridge}
use radical_utils.PubSub.Pending.{Action, due, pending, put_due}

module _ {M : Type 0} (pack : M → Bytes) (unpack : Bytes → Option M)
    (matches : List Bytes → Bytes → Bool) (unpack-pack : (m : M) → unpack (pack m) ≡ some m)
    (filters : List Bytes) (cbs : List (ℕ × Option ℕ)) where
  abbrev IsReadable : List Bytes → Type 0
  IsReadable [] = Unit {0}
  IsReadable (bytes ∷ rest) =
      ((topic : Bytes) × (m : M) × (decode unpack bytes ≡ message topic m)) × IsReadable rest

  -- A channel with a live listener, nothing but frames of the publishers on their way, and these
  -- filters and callbacks.
  record Live (ch : Bridge × Subscriber) : Type 0 where
    thread_runs : ch.1.thread ≡ running
    filters_are : ch.1.filters ≡ filters
    callbacks_are : ch.1.callbacks ≡ cbs
    readable : IsReadable (pending matches ch)

  abbrev owed : Bridge × Subscriber → List (Delivered M)
  owed ch = due unpack cbs (pending matches ch)

  -- What a step that delivers these keeps.
  abbrev Kept : Action M → Bridge × Subscriber → (Bridge × Subscriber) × List (Delivered M) → Type 0
  Kept a ch (ch', out) =
      Live ch' × (owed ch ++ put_due matches pack filters cbs (a ∷ []) ≡ out ++ owed ch')

-- A bridge that nothing has arrived at.
abbrev pub quiet : Bridge
quiet = record { from_subs = []; from_pubs = []; to_pubs = [] }
