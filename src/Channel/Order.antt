-- ===== src/Channel/Order.antt =====
-- The messages that go through a channel of zmq/queue.py, from a putter to a getter.
use text.Mathlib.Text.{◌==◌ as str_eq}
use radical_utils.Prelude.{◌≡◌, String, List, ◌++◌}
use radical_utils.Queue.{Incoming, Bridge, name_or_default, buffered, store, serve}
use radical_utils.Queue as Queue
use radical_utils.Getter.{Getter}
use radical_utils.Getter as Getter

module _ {M : Type 0} (qname : String) where
  -- What was put is what was returned, what waits, and what the bridge holds.
  abbrev Carried : List M → Bridge M → List M → List M → Type 0
  Carried ins b due out = ins ≡ out ++ (due ++ buffered b.buf (name_or_default qname))
