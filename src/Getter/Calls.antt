-- ===== src/Getter/Calls.antt =====
-- Sequences of calls of `get` and `get_nowait` of zmq/queue.py.
use radical_utils.Prelude.{◌≡◌, String, Bool, true, false, none, List, [], ◌∷◌, ◌++◌, arith}
use radical_utils.Queue.{name_or_default}
use radical_utils.Getter.Keeps.{received, Kept}
use radical_utils.Getter.{Got, got, Getter, take_reply, poll_reply, request, fetch, get_nowait, get}

-- A bridge that notes what it replies.
abbrev pub logged :
    {S M : Type 0} → (S → String → S × List M) → S × List M → String → (S × List M) × List M
logged serve (w, log) qname = let (w', msgs) = serve w qname in ((w', log ++ msgs), msgs)

pub data Call : Type 0 where
  gets : String → Call
  tries : String → Bool → Call

module _ {S M : Type 0} where
  unfoldable pub do_call : (S → String → S × List M) → Call → Getter S M → Getter S M × Got M
  do_call serve (gets qname) g = get serve qname g
  do_call serve (tries qname arrives) g = get_nowait serve qname arrives g

  -- The calls in order, with all that they return.
  unfoldable pub run_calls :
      (S → String → S × List M) → List Call → Getter S M → Getter S M × List M
  run_calls serve [] g = (g, [])
  run_calls serve (c ∷ cs) g =
      let (g', reply) = do_call serve c g in
      let (g'', msgs) = run_calls serve cs g' in (g'', received reply ++ msgs)

module _ {S M : Type 0} (serve : S → String → S × List M) where
  -- What the bridge has replied is what was received and what waits.
  abbrev Noted : S × List M → List M → List M → Type 0
  Noted (w, log) due out = log ≡ out ++ due

  abbrev Accounted : List M → Getter (S × List M) M → Type 0
  Accounted = Kept Noted

module _ {S M : Type 0} (serve : S → String → S × List M) (qname other : String) (g : Getter S M)
    (open_to_calls : g.interactive ≡ true) (idle : g.requested ≡ false)
    (free : g.socket.inbox ≡ none) where
  -- After a `get_nowait` that timed out, of a getter with no callback and no request under way,
  -- the next `get` returns what the bridge replied to the name of the former, whatever name it is
  -- called with itself.
  pub get_after_timeout :
      (get serve other (get_nowait serve qname false g).0).1
      ≡ got (serve g.socket.world (name_or_default qname)).1
  unfolding get get_nowait fetch request poll_reply take_reply
  get_after_timeout = ground arith
