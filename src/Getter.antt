-- ===== src/Getter.antt =====
-- src/radical/utils/zmq/queue.py: `Getter`, one per address. The bridge at the other end is the
-- parameter `serve`, which answers each request as it arrives; as zmq documents for a REQ socket, a
-- reply waits in the socket until it is received, and no second request can be sent before. A
-- callback is a number. The thread of the listener runs `listen`.
pub mod Keeps
pub mod Calls
pub mod Listener
pub mod Tests
use radical_utils.Prelude.{
  ℕ, suc, ◌+◌, String, Bool, true, false, ◌||◌, Option, none, some, List, [], ◌∷◌, ◌++◌, length,
  get_elem?, leb, ◌==◌, if◌then◌else◌,
}
use radical_utils.Queue.{name_or_default}

pub record Socket (S M : Type 0) : Type 0 where
  pub world : S
  pub inbox : Option (List M)

pub data Error : Type 0 where
  has_callbacks busy_socket many_callbacks no_endpoint no_unset : Error

-- What a call gives: messages, `None`, an exception, or a wait without end.
pub data Got (M : Type 0) : Type 0 where
  got : List M → Got M
  nothing blocked : Got M
  raised : Error → Got M

-- The entry of `_callbacks` for the address.
pub record Endpoint : Type 0 where
  pub requested : Bool
  pub thread : Bool
  pub term : Bool
  pub callbacks : List (ℕ × Option ℕ)

pub record Getter (S M : Type 0) : Type 0 where
  pub socket : Socket S M
  pub requested : Bool
  pub interactive : Bool
  pub endpoint : Option Endpoint

-- One turn of the listener: what happens at the bridge before it, and whether a reply comes in time.
pub record Turn (S : Type 0) : Type 0 where
  pub others : S → S
  pub arrives : Bool

abbrev pub new_endpoint : Bool → Endpoint
new_endpoint requested = record {
  requested = requested;
  thread = false;
  term = false;
  callbacks = [];
}

-- The index of the callback that is next in turn.
unfoldable pub next_idx : ℕ → ℕ → ℕ
next_idx count idx = if leb count (suc idx) then 0 else suc idx

-- `callbacks.remove`, for the first entry of a callback.
unfoldable pub remove_callback : ℕ → List (ℕ × Option ℕ) → List (ℕ × Option ℕ)
remove_callback cb [] = []
remove_callback cb ((c, lock) ∷ rest) =
    if cb == c then rest else (c, lock) ∷ remove_callback cb rest

-- `_start_listener`
unfoldable pub start_listener : Endpoint → Endpoint
start_listener ep = record ep { thread = true }

module _ {S M : Type 0} where
  unfoldable pub take_reply : Bool × Socket S M → (Bool × Socket S M) × Got M
  take_reply (requested, s) = elim s.inbox [
    | none ↦ ((requested, s), blocked)
    | some msgs ↦ ((false, record s { inbox = none }), got msgs)
  ]

  unfoldable pub poll_reply : Bool → Bool × Socket S M → (Bool × Socket S M) × Got M
  poll_reply true c = take_reply c
  poll_reply false c = (c, nothing)

  -- `_stop_listener`. Python's events have no method `unset`.
  unfoldable pub stop_listener : Bool → Getter S M → Getter S M × Option Error
  stop_listener force g = elim g.endpoint [
    | none ↦ (g, some no_endpoint)
    | some ep ↦
        if (force || leb (length ep.callbacks) 0)
        then if ep.thread
          then (record g { endpoint = some (record ep { term = true }) }, some no_unset)
          else (g, none)
        else (g, none)
  ]

  -- `stop`
  unfoldable pub stop : Getter S M → Getter S M × Option Error
  stop g = stop_listener true g

  -- The rest of `subscribe`, once there is an entry for the address.
  unfoldable pub add_callback : ℕ → Option ℕ → Endpoint → Getter S M → Getter S M × Option Error
  add_callback cb lock ep g =
      if leb (length ep.callbacks) 0
      then (
        record g {
          interactive = false;
          endpoint =
              some (start_listener (record ep { callbacks = ep.callbacks ++ (cb, lock) ∷ [] }));
        },
        none,
      )
      else (record g { endpoint = some ep }, some many_callbacks)

  -- `subscribe`
  unfoldable pub subscribe : ℕ → Option ℕ → Getter S M → Getter S M × Option Error
  subscribe cb lock g = elim g.endpoint [
    | none ↦ add_callback cb lock (new_endpoint g.requested) g
    | some ep ↦ add_callback cb lock ep g
  ]

  -- `unsubscribe`
  unfoldable pub unsubscribe : ℕ → Getter S M → Getter S M × Option Error
  unsubscribe cb g = elim g.endpoint [
    | none ↦ stop_listener false g
    | some ep ↦
        stop_listener false
          (record g { endpoint = some (record ep { callbacks = remove_callback cb ep.callbacks }) })
  ]

  -- `__init__`, with the callback that it may be given.
  unfoldable pub init : S → Option ℕ → Getter S M × Option Error
  init w cb =
      let g : Getter S M = record {
        socket = record { world = w; inbox = none };
        requested = false;
        interactive = true;
        endpoint = some (new_endpoint false);
      } in
      elim cb [ none ↦ (g, none) | some f ↦ subscribe f none g ]

  module _ (serve : S → String → S × List M) where
    -- The request of a call, unless one is under way; the flag says whether one is.
    unfoldable pub request : String → Bool × Socket S M → Option (Bool × Socket S M)
    request qname (true, s) = some (true, s)
    request qname (false, s) = elim s.inbox [
      | some _ ↦ none
      | none ↦
          let (w, msgs) = serve s.world qname in
          some (true, record { world = w; inbox = some msgs })
    ]

    -- The request, and the reply if it comes in time.
    unfoldable pub fetch : String → Bool → Bool × Socket S M → (Bool × Socket S M) × Got M
    fetch qname arrives c = elim (request (name_or_default qname) c) [
      | none ↦ (c, raised busy_socket)
      | some c' ↦ poll_reply arrives c'
    ]

    -- `get_nowait`; `get` is the same with a reply that comes in the end.
    unfoldable pub get_nowait : String → Bool → Getter S M → Getter S M × Got M
    get_nowait qname arrives g =
        if g.interactive
        then (let ((flag, s), reply) = fetch qname arrives (g.requested, g.socket) in
            (record g { requested = flag; socket = s }, reply))
        else (g, raised has_callbacks)

    -- `get`
    unfoldable pub get : String → Getter S M → Getter S M × Got M
    get qname g = get_nowait qname true g

    -- `_get_nowait`, on the entry for the address.
    unfoldable pub endpoint_get : Bool → Endpoint → Getter S M → Getter S M × Got M
    endpoint_get arrives ep g =
        let ((flag, s), reply) = fetch "" arrives (ep.requested, g.socket) in
        (record g { endpoint = some (record ep { requested = flag }); socket = s }, reply)

    -- What the listener does with a reply: the callback whose turn it is, and the rest of the loop.
    unfoldable pub deliver :
        (ℕ → Getter S M → Getter S M × List (ℕ × List M))
        → Endpoint
        → ℕ
        → Getter S M × Got M
        → Getter S M × List (ℕ × List M)
    deliver rest ep idx (g, got []) = rest idx g
    deliver rest ep idx (g, got (m ∷ ms)) =
        let idx' = next_idx (length ep.callbacks) idx in
        let (g', later) = rest idx' g in
        elim (get_elem? ep.callbacks idx') [
          | none ↦ (g, [])
          | some (cb, lock) ↦ (g', (cb, m ∷ ms) ∷ later)
        ]
    deliver rest ep idx (g, nothing) = rest idx g
    deliver rest ep idx (g, blocked) = (g, [])
    deliver rest ep idx (g, raised e) = (g, [])

    -- `_listener`, with the bulks that it hands to callbacks. An exception ends it.
    unfoldable pub listen : List (Turn S) → ℕ → Getter S M → Getter S M × List (ℕ × List M)
    listen [] idx g = (g, [])
    listen (turn ∷ turns) idx g =
        let s = record (g.socket) { world = turn.others g.socket.world } in
        let g' = record g { socket = s } in
        elim g.endpoint [
          | none ↦ (g, [])
          | some ep ↦
              if ep.term
              then (g, [])
              else if leb (length ep.callbacks) 0
              then listen turns idx g'
              else deliver (listen turns) ep idx (endpoint_get turn.arrives ep g')
        ]
