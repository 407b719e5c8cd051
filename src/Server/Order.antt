-- ===== src/Server/Order.antt =====
-- Requests that reach the server of server.py between the turns of its loop.
use mathlib.Core.List.{append-nil, append_assoc}
use radical_utils.Prelude.{
  ◌≡◌, refl, sym, ap, ◌∙◌, Bool, true, false, Option, none, some, List, [], ◌∷◌, ◌++◌,
}
use radical_utils.Prelude.Chars.{Text}
use radical_utils.Prelude.Dict.{Dict}
use radical_utils.Server.{
  Attempt, Handler, unstarted, running, ended, died, Thread, Server, stop, encode,
}
use radical_utils.Server.Requests.{
  Runtime, attempt, finish, is_exit, send, reply_to, serve_request, take_request, turn, work_in,
  work, Action, arrives, stops, works, act, run,
}

-- What came in, in its order.
unfoldable pub arrivals : List Action → List Text
arrivals [] = []
arrivals (arrives bytes ∷ more) = bytes ∷ arrivals more
arrivals (stops ∷ more) = arrivals more
arrivals (works ∷ more) = arrivals more

unfoldable pub packed : Option Text → List Text
packed none = []
packed (some bytes) = bytes ∷ []

module _ {S : Type 0} (rt : Runtime) where
  unfoldable pub answer_to : Attempt × S → List Text × S
  answer_to (a, store) = (packed (rt.pack (encode (finish rt.trace a))), store)

  -- A request, worked upon alone.
  unfoldable pub answer : Dict Text (Handler S) → Text → S → List Text × S
  answer cbs bytes store = answer_to (attempt rt.message rt.digits cbs (rt.unpack bytes) store)

  -- A batch of requests, worked upon one after the other.
  unfoldable pub answers : Dict Text (Handler S) → List Text → S → List Text × S
  answers cbs [] store = ([], store)
  answers cbs (bytes ∷ rest) store =
      let (r, store') = answer cbs bytes store in
      let (rs, store'') = answers cbs rest store' in (r ++ rs, store'')

  -- A turn that adds to what was sent, and nothing else but the store.
  pub record Step (s s' : Server S) (out : List Text) (store : S) : Type 0 where
    pub cbs : s'.cbs ≡ s.cbs
    pub inbox : s'.inbox ≡ s.inbox
    pub outbox : s'.outbox ≡ s.outbox ++ out
    pub store_is : s'.store ≡ store
    pub stopping : s'.stopping ≡ s.stopping

  send-Step :
      (o : Option Text) (exit : Bool) (store : S) (s : Server S)
      → Step s (send rt o exit (record s { store = store })) (packed o) store
  unfolding send packed
  send-Step none exit store s = record {
    cbs = refl;
    inbox = refl;
    outbox = sym (append-nil s.outbox);
    store_is = refl;
    stopping = refl;
  }
  send-Step (some bytes) exit store s = record {
    cbs = refl;
    inbox = refl;
    outbox = refl;
    store_is = refl;
    stopping = refl;
  }

  reply_to-Step :
      (p : Attempt × S) (s : Server S) → Step s (reply_to rt p s) (answer_to p).0 (answer_to p).1
  unfolding reply_to answer_to
  reply_to-Step (a, store) s = send-Step (rt.pack (encode (finish rt.trace a))) (is_exit a) store s

  pub serve_request-Step :
      (bytes : Text) (s : Server S)
      → Step s
          (serve_request rt bytes s)
          (answer s.cbs bytes s.store).0
          (answer s.cbs bytes s.store).1
  unfolding serve_request answer
  serve_request-Step bytes s =
      reply_to-Step (attempt rt.message rt.digits s.cbs (rt.unpack bytes) s.store) s

  -- After a run: which requests were served, which wait, and what the served ones made.
  pub record InOrder (s s' : Server S) (arrived : List Text) : Type 0 where
    pub served : List Text
    pub all : s.inbox ++ arrived ≡ served ++ s'.inbox
    pub outbox : s'.outbox ≡ s.outbox ++ (answers s.cbs served s.store).0
    pub store_is : s'.store ≡ (answers s.cbs served s.store).1

  -- Nothing is served where a step leaves all but the thread.
  InOrder-same :
      (s s' : Server S) (arrived : List Text)
      → InOrder s s' arrived
      → (t : Server S) → t.cbs ≡ s.cbs
      → t.inbox ≡ s.inbox
      → t.outbox ≡ s.outbox
      → t.store ≡ s.store
      → InOrder t s' arrived
  InOrder-same s s' arrived h t cbs inbox outbox store = record {
    served = h.served;
    all = rw inbox (h.all);
    outbox = rw (outbox, cbs, store) (h.outbox);
    store_is = rw (cbs, store) (h.store_is);
  }

  InOrder-arrives :
      (s s' : Server S) (bytes : Text) (arrived : List Text)
      → InOrder (record s { inbox = s.inbox ++ bytes ∷ [] }) s' arrived
      → InOrder s s' (bytes ∷ arrived)
  InOrder-arrives s s' bytes arrived h = record {
    served = h.served;
    all = sym (append_assoc s.inbox (bytes ∷ []) arrived) ∙ h.all;
    outbox = h.outbox;
    store_is = h.store_is;
  }

  InOrder-serves :
      (s t s' : Server S) (bytes : Text) (rest arrived : List Text)
      → s.inbox ≡ bytes ∷ rest
      → Step
          (record s { inbox = rest })
          t
          (answer s.cbs bytes s.store).0
          (answer s.cbs bytes s.store).1
      → InOrder t s' arrived
      → InOrder s s' arrived
  unfolding answers
  InOrder-serves s t s' bytes rest arrived waits step h =
      let first = answer s.cbs bytes s.store in
      record {
        served = bytes ∷ h.served;
        all = rw waits (ap (λ l. bytes ∷ l) (rw (sym step.inbox) (h.all)));
        outbox =
            h.outbox
            ∙ rw (step.outbox, step.cbs, step.store_is)
                (append_assoc s.outbox first.0 (answers s.cbs h.served first.1).0);
        store_is = h.store_is ∙ rw (step.cbs, step.store_is) refl;
      }

  take_request-InOrder :
      (s s' : Server S) (arrived l : List Text)
      → s.inbox ≡ l
      → InOrder (take_request rt l s) s' arrived
      → InOrder s s' arrived
  unfolding take_request
  take_request-InOrder s s' arrived [] e h = h
  take_request-InOrder s s' arrived (bytes ∷ rest) e h =
      let after = record s { inbox = rest } in
      InOrder-serves s (serve_request rt bytes after) s' bytes rest arrived e
        (serve_request-Step bytes after) h

  turn-InOrder :
      (b : Bool) (s s' : Server S) (arrived : List Text)
      → InOrder (turn rt b s) s' arrived
      → InOrder s s' arrived
  unfolding turn
  turn-InOrder true s s' arrived h =
      InOrder-same (record s { thread = ended }) s' arrived h s refl refl refl refl
  turn-InOrder false s s' arrived h = take_request-InOrder s s' arrived s.inbox refl h

  work-InOrder :
      (t : Thread) (s s' : Server S) (arrived : List Text)
      → InOrder (work_in rt t s) s' arrived
      → InOrder s s' arrived
  unfolding work_in
  work-InOrder unstarted s s' arrived h = h
  work-InOrder running s s' arrived h = turn-InOrder s.stopping s s' arrived h
  work-InOrder ended s s' arrived h = h
  work-InOrder died s s' arrived h = h

  -- However arrivals, turns of the loop and a stop are interleaved: the requests that were taken
  -- are the first that arrived, and the replies and the store are those of a server that works
  -- upon them one after the other.
  pub run-InOrder :
      (actions : List Action) (s : Server S) → InOrder s (run rt actions s) (arrivals actions)
  unfolding run act arrivals work answers stop
  run-InOrder [] s = record {
    served = [];
    all = append-nil s.inbox;
    outbox = sym (append-nil s.outbox);
    store_is = refl;
  }
  run-InOrder (arrives bytes ∷ more) s =
      InOrder-arrives s (run rt more (act rt (arrives bytes) s)) bytes (arrivals more)
        (run-InOrder more (act rt (arrives bytes) s))
  run-InOrder (stops ∷ more) s =
      InOrder-same (stop s) (run rt more (stop s)) (arrivals more) (run-InOrder more (stop s)) s
        refl refl refl refl
  run-InOrder (works ∷ more) s =
      work-InOrder s.thread s (run rt more (work rt s)) (arrivals more)
        (run-InOrder more (work rt s))
