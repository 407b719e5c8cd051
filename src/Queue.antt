-- ===== src/Queue.antt =====
-- src/radical/utils/zmq/queue.py: the bridge of `Queue`, and `Putter.put`. The sockets are the rounds
-- that the bridge is run on: what a round's two polls find. Messages are opaque; msgpack's decoding
-- is left to the environment, which gives the name and the messages of a frame.
pub mod Order
pub mod Drain
pub mod Tests
use text.Mathlib.Text.{◌==◌}
use radical_utils.Prelude.{
  ℕ, ◌+◌, String, Bool, true, false, Option, none, some, List, [], ◌∷◌, ◌++◌, length, take, drop,
  leb, if◌then◌else◌,
}
use radical_utils.Prelude.Eq.{string_eq}
use radical_utils.Prelude.Dict.{Dict, lookup, insert}

-- What arrives at the put socket: two frames, or another number of them.
pub data Incoming (M : Type 0) : Type 0 where
  bulk : String → List M → Incoming M
  malformed : ℕ → Incoming M

pub record Bridge (M : Type 0) : Type 0 where
  pub buf : Dict String (List M)
  pub nin : ℕ
  pub nout : ℕ
  pub bulk_size : ℕ

-- One round of the work loop: what the polls find at the put and the get socket.
pub record Round (M : Type 0) : Type 0 where
  pub put : Option (Incoming M)
  pub get : Option String

-- `Queue.__init__`: a bulk size that is not positive gives the default.
unfoldable pub bulk_size_or_default : ℕ → ℕ
bulk_size_or_default n = if leb n 0 then 1024 else n

unfoldable pub init : {M : Type 0} → ℕ → Bridge M
init n = record { buf = []; nin = 0; nout = 0; bulk_size = bulk_size_or_default n }

unfoldable pub name_or_default : String → String
name_or_default qname = if qname == "" then "default" else qname

module _ {M : Type 0} where
  -- The messages that are buffered under a name.
  unfoldable pub buffered : Dict String (List M) → String → List M
  buffered buf qname = elim (lookup qname buf) [ none ↦ [] | some msgs ↦ msgs ]

  unfoldable pub store : String → List M → Bridge M → Bridge M
  store qname msgs b = record b {
    buf = insert qname (buffered b.buf qname ++ msgs) b.buf;
    nin = b.nin + length msgs;
  }

  -- The first half of a round. `none` stands for the exception, which ends the loop.
  unfoldable pub handle_put : Option (Incoming M) → Bridge M → Option (Bridge M)
  handle_put none b = some b
  handle_put (some (malformed frames)) b = none
  handle_put (some (bulk qname msgs)) b = some (store qname msgs b)

  unfoldable pub is_empty : List M → Bool
  is_empty [] = true
  is_empty (m ∷ ms) = false

  -- What is sent in reply to a request, and what it leaves.
  unfoldable pub serve : String → Bridge M → Bridge M × List M
  serve qname b =
      let msgs = take b.bulk_size (buffered b.buf qname) in
      let rest = insert qname (drop b.bulk_size (buffered b.buf qname)) b.buf in
      (record b { buf = if is_empty msgs then b.buf else rest; nout = b.nout + length msgs }, msgs)

  -- The second half of a round, with the reply that it sends.
  unfoldable pub handle_get : Option String → Bridge M → Bridge M × Option (String × List M)
  handle_get none b = (b, none)
  handle_get (some request) b =
      let qname = name_or_default request in
      let (b', msgs) = serve qname b in (b', some (qname, msgs))

  -- One round, and the rest of the loop. An exception ends the loop.
  unfoldable pub after_put :
      (Bridge M → Bridge M × List (String × List M))
      → Option String
      → Bridge M
      → Option (Bridge M)
      → Bridge M × List (String × List M)
  after_put rest get b none = (b, [])
  after_put rest get b (some b') =
      let (b'', reply) = handle_get get b' in
      let (final, replies) = rest b'' in
      (final, elim reply [ none ↦ replies | some r ↦ r ∷ replies ])

  -- `_bridge_work` over the rounds until it is told to terminate, with the replies in order.
  unfoldable pub bridge_work : List (Round M) → Bridge M → Bridge M × List (String × List M)
  bridge_work [] b = (b, [])
  bridge_work (r ∷ rs) b = after_put (bridge_work rs) r.get b (handle_put r.put b)

  -- `Putter.put`, for a list of messages: what it sends to the bridge.
  unfoldable pub put : List M → Option String → Incoming M
  put msgs none = bulk "default" msgs
  put msgs (some qname) = bulk (name_or_default qname) msgs
