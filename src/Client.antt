-- ===== src/Client.antt =====
-- src/radical/utils/zmq/client.py: `Client`, and its request to the server of server.py. The sockets
-- carry bytes in order; encoding and decoding are the server's parameters.
pub mod Calls
pub mod Sample
pub mod Tests
use radical_utils.Prelude.{
  ℕ, Bool, true, false, Option, none, some, List, [], ◌∷◌, ◌++◌, length, drop, if◌then◌else◌,
}
use radical_utils.Prelude.Chars.{Text, codes}
use radical_utils.Message.{
  Value, null, number, str, list, dict, Values, nil, cons, Fields, no_fields, field, truthy,
  elements,
}
use radical_utils.Message.Entries.{get_field, get_or_null}
use radical_utils.Server.{Server}
use radical_utils.Server.Requests.{Runtime, arrives, act, work}

-- The constructor: the URL of a named server's configuration, or the one that is given; none where it
-- raises.
unfoldable pub url_from : (Text → Option Text) → Option Text → Option Text → Option Text
url_from read_addr (some (c ∷ cs)) url = read_addr (c ∷ cs)
url_from read_addr (some []) (some (d ∷ ds)) = some (d ∷ ds)
url_from read_addr none (some (d ∷ ds)) = some (d ∷ ds)
url_from read_addr (some []) url = none
url_from read_addr none url = none

-- `raised` is the `RuntimeError` of the client, `broken` any other exception, and `blocks` a client
-- that waits for its reply for good.
pub data Result : Type 0 where
  returned : Value → Result
  raised : Text → Result
  broken blocks : Result

unfoldable pub request_value : Text → Values → Fields → Value
request_value cmd args kwargs = dict (
    field (codes "cmd") (str cmd)
      (field (codes "args") (list args) (field (codes "kwargs") (dict kwargs) no_fields)))

-- `''.join`, on texts only.
unfoldable pub concat : Values → Option Text
concat nil = some []
concat (cons null vs) = none
concat (cons (number n) vs) = none
concat (cons (list ws) vs) = none
concat (cons (dict f) vs) = none
concat (cons (str t) vs) = elim (concat vs) [ none ↦ none | some u ↦ some (t ++ u) ]

unfoldable pub joined : Option Values → Option Text
joined none = none
joined (some vs) = concat vs

module _ (show : Value → Text) where
  -- `%s`
  unfoldable pub shown : Value → Text
  shown null = show null
  shown (number n) = show (number n)
  shown (str t) = t
  shown (list vs) = show (list vs)
  shown (dict f) = show (dict f)

  unfoldable pub add_trace : Text → Option Text → Result
  add_trace msg none = broken
  add_trace msg (some t) = raised (msg ++ (codes "\n" ++ t))

  unfoldable pub raise_error : Value → Option Value → Result
  raise_error err none = broken
  raise_error err (some exc) =
      if truthy exc
      then add_trace (codes "ERROR: " ++ shown err) (joined (elements exc))
      else raised (codes "ERROR: " ++ shown err)

  unfoldable pub take_result : Option Value → Result
  take_result none = broken
  take_result (some v) = returned v

  -- What is made of the reply.
  unfoldable pub read_reply : Option Value → Result
  read_reply none = broken
  read_reply (some null) = broken
  read_reply (some (number n)) = broken
  read_reply (some (str t)) = broken
  read_reply (some (list vs)) = broken
  read_reply (some (dict f)) =
      if truthy (get_or_null (codes "err") f)
      then raise_error (get_or_null (codes "err") f) (get_field (codes "exc") f)
      else take_result (get_field (codes "res") f)

  unfoldable pub receive : Runtime → List Text → Result
  receive rt [] = blocks
  receive rt (bytes ∷ more) = read_reply (rt.unpack bytes)

  unfoldable pub exchange : {S : Type 0} → Runtime → Option Text → Server S → Result × Server S
  exchange rt none s = (broken, s)
  exchange rt (some bytes) s =
      let s' = work rt (act rt (arrives bytes) s) in
      (receive rt (drop (length s.outbox) s'.outbox), s')

  -- `request`, with the turn of the server that answers it.
  unfoldable pub request :
      {S : Type 0} → Runtime → Text → Values → Fields → Server S → Result × Server S
  request rt cmd args kwargs s = exchange rt (rt.pack (request_value cmd args kwargs)) s
