-- ===== src/Server/Requests.antt =====
-- The loop of `Server._work` of server.py: what is made of a request, and the turns of the loop.
use radical_utils.Prelude.{
  ℕ, Bool, true, false, Option, none, some, List, [], ◌∷◌, ◌++◌, if◌then◌else◌,
}
use radical_utils.Prelude.Chars.{Text, codes, text_eq}
use radical_utils.Prelude.Dict.{Dict, lookup}
use radical_utils.Message.{Value, null, number, str, list, dict, Values, Fields, truthy, elements}
use radical_utils.Message.Entries.{get_field}
use radical_utils.Server.{
  Outcome, returns, raises, exits, Fault, undecodable, unhashable, not_iterable, not_mapping,
  missing, Reply, Attempt, replied, failed, exited, Handler, success, error, encode, unstarted,
  running, ended, died, Thread, Server, stop,
}

-- `**kwargs`
unfoldable pub mapping : Value → Option Fields
mapping null = none
mapping (number n) = none
mapping (str s) = none
mapping (list vs) = none
mapping (dict f) = some f

unfoldable pub settle : Outcome → Attempt
settle (returns v) = replied (success v)
settle (raises m) = failed m
settle exits = exited

module _ {S : Type 0} (message : Fault → Text) where
  unfoldable pub call_with : Handler S → Option Values → Option Fields → S → Attempt × S
  call_with cb none kwargs store = (failed (message not_iterable), store)
  call_with cb (some vs) none store = (failed (message not_mapping), store)
  call_with cb (some vs) (some fs) store = let (o, store') = cb vs fs store in (settle o, store')

  unfoldable pub call : Option (Handler S) → Text → Value → Value → S → Attempt × S
  call none name args kwargs store =
      (replied (error (some (codes "command [" ++ (name ++ codes "] unknown"))) none), store)
  call (some cb) name args kwargs store = call_with cb (elements args) (mapping kwargs) store

  -- A command that is no text is no key of the callbacks; Python writes a number in its own way.
  unfoldable pub find_and_call :
      (ℕ → Text) → Dict Text (Handler S) → Value → Value → Value → S → Attempt × S
  find_and_call digits cbs null args kwargs store = call none (codes "None") args kwargs store
  find_and_call digits cbs (number n) args kwargs store = call none (digits n) args kwargs store
  find_and_call digits cbs (str name) args kwargs store =
      call (lookup name cbs) name args kwargs store
  find_and_call digits cbs (list vs) args kwargs store = (failed (message unhashable), store)
  find_and_call digits cbs (dict f) args kwargs store = (failed (message unhashable), store)

  unfoldable pub dispatch :
      (ℕ → Text) → Dict Text (Handler S) → Value → Value → Value → S → Attempt × S
  dispatch digits cbs cmd args kwargs store =
      if truthy cmd
      then find_and_call digits cbs cmd args kwargs store
      else (replied (error (some (codes "no command in request")) none), store)

  -- The three keys of a request, read in this order.
  unfoldable pub read_keys :
      (ℕ → Text)
      → Dict Text (Handler S)
      → Option Value
      → Option Value
      → Option Value
      → S
      → Attempt × S
  read_keys digits cbs none args kwargs store = (failed (message (missing (codes "cmd"))), store)
  read_keys digits cbs (some cmd) none kwargs store =
      (failed (message (missing (codes "args"))), store)
  read_keys digits cbs (some cmd) (some args) none store =
      (failed (message (missing (codes "kwargs"))), store)
  read_keys digits cbs (some cmd) (some args) (some kwargs) store =
      dispatch digits cbs cmd args kwargs store

  -- The body of `try`, on what `unpackb` makes of the bytes.
  unfoldable pub attempt : (ℕ → Text) → Dict Text (Handler S) → Option Value → S → Attempt × S
  attempt digits cbs none store = (failed (message undecodable), store)
  attempt digits cbs (some (dict f)) store =
      read_keys digits cbs (get_field (codes "cmd") f) (get_field (codes "args") f)
        (get_field (codes "kwargs") f) store
  attempt digits cbs (some other) store =
      (replied (error (some (codes "invalid message type")) none), store)

-- What is sent: after an exception, and after one that goes on when the reply is sent.
unfoldable pub finish : (Text → Text) → Attempt → Reply
finish trace (replied r) = r
finish trace (failed m) = error (some (codes "command failed: " ++ m)) (some (trace m))
finish trace exited = error (some (codes "server error")) none

abbrev pub is_exit : Attempt → Bool
is_exit (replied r) = false
is_exit (failed m) = false
is_exit exited = true

-- Python's and msgpack's part: encoding and decoding, the texts of exceptions, of traces and of numbers.
pub record Runtime : Type 0 where
  pub pack : Value → Option Text
  pub unpack : Text → Option Value
  pub message : Fault → Text
  pub trace : Text → Text
  pub digits : ℕ → Text

pub data Action : Type 0 where
  arrives : Text → Action
  stops works : Action

module _ {S : Type 0} (rt : Runtime) where
  -- The reply is sent; an exception of `packb` ends the thread, and so does one that goes on.
  unfoldable pub send : Option Text → Bool → Server S → Server S
  send none exit s = record s { thread = died }
  send (some bytes) exit s = record s {
    outbox = s.outbox ++ bytes ∷ [];
    thread = if exit then died else s.thread;
  }

  unfoldable pub reply_to : Attempt × S → Server S → Server S
  reply_to (a, store) s =
      send (rt.pack (encode (finish rt.trace a))) (is_exit a) (record s { store = store })

  unfoldable pub serve_request : Text → Server S → Server S
  serve_request bytes s = reply_to (attempt rt.message rt.digits s.cbs (rt.unpack bytes) s.store) s

  unfoldable pub take_request : List Text → Server S → Server S
  take_request [] s = s
  take_request (bytes ∷ rest) s = serve_request bytes (record s { inbox = rest })

  unfoldable pub turn : Bool → Server S → Server S
  turn true s = record s { thread = ended }
  turn false s = take_request s.inbox s

  unfoldable pub work_in : Thread → Server S → Server S
  work_in unstarted s = s
  work_in running s = turn s.stopping s
  work_in ended s = s
  work_in died s = s

  -- One turn of the loop.
  unfoldable pub work : Server S → Server S
  work s = work_in s.thread s

  unfoldable pub act : Action → Server S → Server S
  act (arrives bytes) s = record s { inbox = s.inbox ++ bytes ∷ [] }
  act stops s = stop s
  act works s = work s

  unfoldable pub run : List Action → Server S → Server S
  run [] s = s
  run (a ∷ more) s = run more (act a s)
