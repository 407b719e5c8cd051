-- ===== src/Channel.antt =====
-- src/radical/utils/zmq/queue.py, end to end: a `Putter`, the bridge and a `Getter` on one channel. The
-- bridge of Queue fills the place of the parameter `serve` of Getter.
pub mod Order
pub mod Tests
use mathlib.Core.List.{append_assoc, append-nil}
use text.Mathlib.Text.{◌==◌ as str_eq}
use radical_utils.Prelude.{
  ℕ, ◌≡◌, refl, sym, ap, ◌∙◌, String, Bool, true, false, Option, none, some, List, [], ◌∷◌, ◌++◌,
  arith, if◌then◌else◌, Bool-cases, inl, inr,
}
use radical_utils.Prelude.Eq.{string_eq}
use radical_utils.Prelude.Dict.{lookup}
use radical_utils.Queue.{
  Incoming, bulk, Bridge, name_or_default, buffered, store, handle_put, serve, handle_get, put,
}
use radical_utils.Queue as Queue
use radical_utils.Queue.Order.{select, buffered-store, buffered-serve}
use radical_utils.Getter.{Getter, get_nowait}
use radical_utils.Getter as Getter
use radical_utils.Getter.Keeps.{received, waiting, Kept, get_nowait-Kept}

module _ {M : Type 0} where
  -- The reply of the bridge to a request.
  unfoldable pub answer : Bridge M → String → Bridge M × List M
  answer b request =
      let (b', reply) = handle_get (some request) b in (b', elim reply [ none ↦ [] | some r ↦ r.1 ])

  -- What arrives at the bridge from a putter. The frames of a putter never end its loop.
  unfoldable pub receive : Incoming M → Bridge M → Bridge M
  receive i b = elim (handle_put (some i) b) [ none ↦ b | some b' ↦ b' ]

pub data Action (M : Type 0) : Type 0 where
  puts : List M → Option String → Action M
  tries : Bool → Action M

module _ {M : Type 0} (qname : String) where
  -- A put, or a call of a getter that asks for one name. The flag says whether the reply comes in
  -- time, as it does in a `get`.
  unfoldable pub act : Action M → Getter (Bridge M) M → Getter (Bridge M) M × List M
  act (puts msgs name) g = (
    record g { socket = record (g.socket) { world = receive (put msgs name) g.socket.world } },
    [],
  )
  act (tries arrives) g =
      let (g', reply) = get_nowait answer qname arrives g in (g', received reply)

  unfoldable pub run : List (Action M) → Getter (Bridge M) M → Getter (Bridge M) M × List M
  run [] g = (g, [])
  run (a ∷ more) g =
      let (g', first) = act a g in let (g'', rest) = run more g' in (g'', first ++ rest)

-- What the actions put under a name.
unfoldable pub put_under : {M : Type 0} → String → List (Action M) → List M
put_under k [] = []
put_under k (puts msgs none ∷ rest) = select k "default" msgs ++ put_under k rest
put_under k (puts msgs (some name) ∷ rest) =
    select k (name_or_default name) msgs ++ put_under k rest
put_under k (tries arrives ∷ rest) = put_under k rest
