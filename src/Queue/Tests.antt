-- ===== src/Queue/Tests.antt =====
-- Runs of the queue bridge, and its theorems at them.
use radical_utils.Prelude.{ℕ, ◌≡◌, refl, ◌++◌, none, some, List, [], ◌∷◌, arith}
use radical_utils.Prelude.Dict.{lookup, insert}
use radical_utils.Queue.{
  Incoming, Bridge, Round, name_or_default, buffered, bridge_work, put, store, handle_put,
  handle_get, after_put, serve, is_empty,
}
use radical_utils.Queue.Order.{puts, sent, bridge_work_fifo}
use radical_utils.Queue.Drain.{requests, drain}

abbrev arrives : Incoming ℕ → Round ℕ
arrives i = record { put = some i; get = none }

abbrev traffic : List (Round ℕ)
traffic =
    arrives (put (1 ∷ 2 ∷ 3 ∷ []) none)
    ∷ record { put = some (put (4 ∷ []) (some "b")); get = some "" }
    ∷ arrives (put (5 ∷ []) (some ""))
    ∷ record { put = none; get = some "default" }
    ∷ []

abbrev pair_bridge : Bridge ℕ
pair_bridge = record { buf = []; nin = 0; nout = 0; bulk_size = 2 }

abbrev loaded : Bridge ℕ
loaded = record { buf = ("default", 1 ∷ 2 ∷ 3 ∷ []) ∷ []; nin = 3; nout = 0; bulk_size = 2 }

traffic_replies :
    (bridge_work traffic pair_bridge).1 ≡ ("default", 1 ∷ 2 ∷ []) ∷ ("default", 3 ∷ 5 ∷ []) ∷ []
unfolding bridge_work put store handle_put handle_get after_put serve is_empty buffered insert
    lookup name_or_default
traffic_replies = refl

bridge_work_fifo_example :
    let (final, replies) = bridge_work traffic pair_bridge in
    buffered pair_bridge.buf "b" ++ puts "b" traffic ≡ sent "b" replies ++ buffered final.buf "b"
bridge_work_fifo_example = bridge_work_fifo "b" traffic pair_bridge

drain_example :
    let (final, replies) = bridge_work (requests 2 "") loaded in
    (sent "default" replies ≡ 1 ∷ 2 ∷ 3 ∷ []) × (buffered final.buf "default" ≡ [])
unfolding buffered lookup name_or_default
drain_example = drain 2 "" loaded (omega arith)
