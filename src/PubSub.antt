-- ===== src/PubSub.antt =====
-- src/radical/utils/zmq/pubsub.py: `Publisher`, the loop of the bridge, and `Subscriber`. Text is the
-- list of its bytes. The encoding of messages and the filter of the sockets are parameters.
pub mod Create
pub mod Frames
pub mod Listener
pub mod Pending
pub mod Order
pub mod Tests
use radical_utils.Prelude.{
  ℕ, zero, suc, ◌+◌, ◌≡◌, Bool, true, false, ◌&&◌, ◌||◌, not, Option, none, some, List, [], ◌∷◌,
  ◌++◌, map, length, get_elem?, String, ◌==◌, if◌then◌else◌,
}

abbrev pub Bytes : Type 0
Bytes = List ℕ

-- Spaces become underscores.
unfoldable pub escape : Bytes → Bytes
escape [] = []
escape (c ∷ cs) = (if c == 32 then 95 else c) ∷ escape cs

unfoldable pub same_bytes : Bytes → Bytes → Bool
same_bytes [] [] = true
same_bytes [] (d ∷ ds) = false
same_bytes (c ∷ cs) [] = false
same_bytes (c ∷ cs) (d ∷ ds) = c == d && same_bytes cs ds

unfoldable pub has_topic : Bytes → List Bytes → Bool
has_topic t [] = false
has_topic t (u ∷ us) = same_bytes t u || has_topic t us

-- `split`, once, at the first space.
unfoldable pub split_once : Bytes → Option (Bytes × Bytes)
split_once [] = none
split_once (c ∷ cs) =
    if c == 32
    then some ([], cs)
    else elim (split_once cs) [ none ↦ none | some r ↦ some (c ∷ r.0, r.1) ]

pub data Thread : Type 0 where
  idle running died : Thread

-- A callback is a number, and so is the lock that it is called under.
pub record Subscriber : Type 0 where
  pub topics : List Bytes
  pub filters : List Bytes
  pub inbox : List Bytes
  pub callbacks : List (ℕ × Option ℕ)
  pub thread : Thread
  pub interactive : Bool

pub data Reply (M : Type 0) : Type 0 where
  message : Bytes → M → Reply M
  nothing blocked invalid undecodable : Reply M

pub record Delivered (M : Type 0) : Type 0 where
  pub callback : ℕ
  pub lock : Option ℕ
  pub topic : Bytes
  pub msg : M

-- `_start_listener`
unfoldable pub start_listener : Thread → Thread
start_listener idle = running
start_listener running = running
start_listener died = died

unfoldable pub add_callback : Option ℕ → Option ℕ → Subscriber → Subscriber
add_callback none lock s = s
add_callback (some cb) lock s = record s {
  interactive = false;
  thread = start_listener s.thread;
  callbacks = s.callbacks ++ (cb, lock) ∷ [];
}

-- The rest of `subscribe`, for a topic without spaces.
unfoldable pub add_topic : Bytes → Subscriber → Subscriber
add_topic t s = record s {
  filters = s.filters ++ t ∷ [];
  topics = if has_topic t s.topics then s.topics else s.topics ++ t ∷ [];
}

-- `subscribe`
unfoldable pub subscribe : Bytes → Option ℕ → Option ℕ → Subscriber → Subscriber
subscribe topic cb lock s = add_topic (escape topic) (add_callback cb lock s)

-- The loop of `__init__`, over a list that `subscribe` adds to.
unfoldable pub subscribe_all : ℕ → ℕ → Option ℕ → Subscriber → Option Subscriber
subscribe_all zero i cb s = none
subscribe_all (suc fuel) i cb s = elim (get_elem? s.topics i) [
  | none ↦ some s
  | some topic ↦ subscribe_all fuel (suc i) cb (subscribe topic cb none s)
]

unfoldable pub connected : List Bytes → Subscriber
connected topics = record {
  topics = topics;
  filters = [];
  inbox = [];
  callbacks = [];
  thread = idle;
  interactive = true;
}

-- `__init__`, once the url is known.
unfoldable pub create : List Bytes → Option ℕ → Option Subscriber
create topics cb = subscribe_all (suc (length topics + length topics)) 0 cb (connected topics)

unfoldable pub without : ℕ → List (ℕ × Option ℕ) → List (ℕ × Option ℕ)
without cb [] = []
without cb ((c, lock) ∷ rest) = if cb == c then rest else (c, lock) ∷ without cb rest

-- `_stop_listener`
unfoldable pub stop_listener : Bool → Subscriber → Subscriber
stop_listener force s = elim s.callbacks [
  | [] ↦ record s { thread = idle }
  | _ ∷ _ ↦ if force then record s { thread = idle } else s
]

-- `unsubscribe`
unfoldable pub unsubscribe : ℕ → Subscriber → Subscriber
unsubscribe cb s = stop_listener false (record s { callbacks = without cb s.callbacks })

-- `stop`
unfoldable pub stop : Subscriber → Subscriber
stop s = stop_listener true s

-- What the callbacks are given for a message. An empty topic counts as no message.
unfoldable pub deliver : {M : Type 0} → List (ℕ × Option ℕ) → Bytes → M → List (Delivered M)
deliver cbs [] m = []
deliver [] (c ∷ cs) m = []
deliver ((cb, lock) ∷ rest) (c ∷ cs) m =
    record { callback = cb; lock = lock; topic = c ∷ cs; msg = m } ∷ deliver rest (c ∷ cs) m

module _ {M : Type 0} (pack : M → Bytes) where
  -- `put`: what is sent.
  unfoldable pub frame : Bytes → M → Bytes
  frame topic m = escape topic ++ 32 ∷ pack m

module _ {M : Type 0} (unpack : Bytes → Option M) where
  unfoldable pub decode : Bytes → Reply M
  decode bytes = elim (split_once bytes) [
    | none ↦ undecodable
    | some r ↦ elim (unpack r.1) [ none ↦ undecodable | some m ↦ message r.0 m ]
  ]

  -- `get`
  unfoldable pub get : Subscriber → Subscriber × Reply M
  get s = if not s.interactive then (s, invalid) else elim s.inbox [
    | [] ↦ (s, blocked)
    | bytes ∷ rest ↦ (record s { inbox = rest }, decode bytes)
  ]

  -- `get_nowait`
  unfoldable pub get_nowait : Subscriber → Subscriber × Reply M
  get_nowait s = if not s.interactive then (s, invalid) else elim s.inbox [
    | [] ↦ (s, nothing)
    | bytes ∷ rest ↦ (record s { inbox = rest }, decode bytes)
  ]

  -- A message that the listener has read. An exception ends the thread.
  unfoldable pub dispatch : Reply M → Subscriber → Subscriber × List (Delivered M)
  dispatch (message topic m) s = (s, deliver s.callbacks topic m)
  dispatch undecodable s = (record s { thread = died }, [])
  dispatch nothing s = (s, [])
  dispatch blocked s = (s, [])
  dispatch invalid s = (s, [])

  -- A turn of the loop of `_listener`.
  unfoldable pub listen : Subscriber → Subscriber × List (Delivered M)
  listen s = elim s.thread [
    | running ↦ elim s.inbox [
      | [] ↦ dispatch nothing s
      | bytes ∷ rest ↦ dispatch (decode bytes) (record s { inbox = rest })
    ]
    | idle ↦ (s, [])
    | died ↦ (s, [])
  ]

-- The bridge: what has arrived at its sockets, and what it has sent to the publishers.
pub record Bridge : Type 0 where
  pub from_subs : List Bytes
  pub from_pubs : List Bytes
  pub to_pubs : List Bytes

-- The first half of a turn of `_bridge_work`.
unfoldable pub forward_subscription : Bridge → Bridge
forward_subscription b = elim b.from_subs [
  | [] ↦ b
  | msg ∷ rest ↦ record b { from_subs = rest; to_pubs = b.to_pubs ++ msg ∷ [] }
]

module _ (matches : List Bytes → Bytes → Bool) where
  -- The second half: a message reaches the subscriber if one of its filters lets it through.
  unfoldable pub forward_message : Bridge → Subscriber → Bridge × Subscriber
  forward_message b s = elim b.from_pubs [
    | [] ↦ (b, s)
    | msg ∷ rest ↦ (
      record b { from_pubs = rest },
      record s { inbox = if matches s.filters msg then s.inbox ++ msg ∷ [] else s.inbox },
    )
  ]

  unfoldable pub bridge_work : Bridge → Subscriber → Bridge × Subscriber
  bridge_work b s = forward_message (forward_subscription b) s
