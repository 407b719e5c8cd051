-- ===== src/Server/Replies.antt =====
-- The replies of the server of server.py: one for each request, and the exceptions that end the loop.
use mathlib.Core.Path.{subst}
use radical_utils.Prelude.{
  suc, ◌+◌, ◌≡◌, refl, sym, ap, ◌∙◌, true, false, Option, none, some, List, [], ◌∷◌, ◌++◌, length,
  length-append, replicate, arith,
}
use radical_utils.Prelude.Chars.{Text, text_eq}
use radical_utils.Prelude.Dict.{Dict, lookup}
use radical_utils.Message.{Value, Values, Fields}
use radical_utils.Server.{Attempt, Handler, running, died, Server, stop, encode}
use radical_utils.Server.Requests.{
  Runtime, settle, attempt, finish, is_exit, send, reply_to, serve_request, take_request, turn,
  work_in, work, Action, arrives, stops, works, act, run,
}
use radical_utils.Server.Induction.{attempt_induction}

module _ {S : Type 0} where
  -- No handler ends in an exception that is no `Exception`.
  abbrev pub Polite : Dict Text (Handler S) → Type 0
  Polite cbs =
      (name : Text) (cb : Handler S) (vs : Values) (fs : Fields) (store : S)
      → lookup name cbs ≡ some cb
      → is_exit (settle (cb vs fs store).0) ≡ false

  pub work_serves :
      (rt : Runtime) (s : Server S) (bytes : Text) (rest : List Text)
      → s.inbox ≡ bytes ∷ rest
      → s.thread ≡ running
      → s.stopping ≡ false
      → work rt s
        ≡ reply_to rt
            (attempt rt.message rt.digits s.cbs (rt.unpack bytes) s.store)
            (record s { inbox = rest })
  unfolding work work_in turn take_request serve_request
  work_serves rt s bytes rest waits on stays =
      ap (λ t. work_in rt t s) on
      ∙ ap (λ b. turn rt b s) stays
      ∙ ap (λ l. take_request rt l s) waits

  attempt_stays :
      (rt : Runtime) (cbs : Dict Text (Handler S)) (o : Option Value) (store : S)
      → Polite cbs
      → is_exit (attempt rt.message rt.digits cbs o store).0 ≡ false
  attempt_stays rt cbs o store polite =
      attempt_induction rt cbs store (λ p. is_exit p.0 ≡ false) (λ a calm. calm)
        (λ name cb vs fs known. polite name cb vs fs store known) o

  module _ (rt : Runtime) (packs : (v : Value) → (b : Text) × (rt.pack v ≡ some b)) where
    -- A reply was sent, and the thread goes on.
    record Replied (s s' : Server S) (rest : List Text) : Type 0 where
      pub cbs : s'.cbs ≡ s.cbs
      pub inbox : s'.inbox ≡ rest
      pub sent : length s'.outbox ≡ suc (length s.outbox)
      pub on : s'.thread ≡ running
      pub stays : s'.stopping ≡ false

    reply_to-Replied :
        (p : Attempt × S) (s : Server S) (rest : List Text)
        → is_exit p.0 ≡ false
        → s.thread ≡ running
        → s.stopping ≡ false
        → Replied s (reply_to rt p (record s { inbox = rest })) rest
    unfolding reply_to send
    reply_to-Replied (a, store) s rest calm on stays =
        let (bytes, fits) = packs (encode (finish rt.trace a)) in
        rw (fits, send, calm)
          (record {
            cbs = refl;
            inbox = refl;
            sent = omega (arith, length-append s.outbox (bytes ∷ []));
            on = on;
            stays = stays;
          })

    work-Replied :
        (s : Server S) (bytes : Text) (rest : List Text)
        → Polite s.cbs
        → s.inbox ≡ bytes ∷ rest
        → s.thread ≡ running
        → s.stopping ≡ false
        → Replied s (work rt s) rest
    work-Replied s bytes rest polite waits on stays =
        subst (λ t. Replied s t rest) (sym (work_serves rt s bytes rest waits on stays))
          (reply_to-Replied (attempt rt.message rt.digits s.cbs (rt.unpack bytes) s.store) s rest
            (attempt_stays rt s.cbs (rt.unpack bytes) s.store polite) on stays)

    drain :
        (l : List Text) (s : Server S)
        → s.inbox ≡ l
        → Polite s.cbs
        → s.thread ≡ running
        → s.stopping ≡ false
        → ((run rt (replicate (length l) works) s).inbox ≡ [])
          × (length (run rt (replicate (length l) works) s).outbox ≡ length s.outbox + length l)
          × ((run rt (replicate (length l) works) s).thread ≡ running)
    unfolding run act
    drain [] s e polite on stays = (e, omega arith, on)
    drain (bytes ∷ rest) s e polite on stays =
        let r = work-Replied s bytes rest polite e on stays in
        let (empty, count, alive) =
          drain rest (work rt s) r.inbox (rw (r.cbs) polite) r.on r.stays in
        (empty, omega (arith, count, r.sent), alive)

    -- If every value that is sent can be encoded, and no handler ends the thread: a server that
    -- runs and is not stopped answers one request in each turn of its loop. After as many turns
    -- as there are requests no request waits, there is one reply more for each, whatever the
    -- requests were, and the loop goes on.
    pub run_answers_all :
        (s : Server S)
        → Polite s.cbs
        → s.thread ≡ running
        → s.stopping ≡ false
        → ((run rt (replicate (length s.inbox) works) s).inbox ≡ [])
          × (length (run rt (replicate (length s.inbox) works) s).outbox
              ≡ length s.outbox + length s.inbox)
          × ((run rt (replicate (length s.inbox) works) s).thread ≡ running)
    run_answers_all s = drain s.inbox s refl

  run_died :
      (rt : Runtime) (actions : List Action) (s : Server S)
      → s.thread ≡ died
      → (run rt actions s).outbox ≡ s.outbox
  unfolding run act stop work work_in
  run_died rt [] s e = refl
  run_died rt (arrives bytes ∷ more) s e =
      run_died rt more (record s { inbox = s.inbox ++ bytes ∷ [] }) e
  run_died rt (stops ∷ more) s e = run_died rt more (record s { stopping = true }) e
  run_died rt (works ∷ more) s e =
      let still : work rt s ≡ s = ap (λ t. work_in rt t s) e in
      subst (λ t. (run rt more t).outbox ≡ s.outbox) (sym still) (run_died rt more s e)

  -- A result that cannot be encoded ends the thread: the request is not answered, and neither is any
  -- request after it, whatever still arrives and however long the server is left running.
  pub run_after_unsendable :
      (rt : Runtime) (actions : List Action) (s : Server S) (bytes : Text) (rest : List Text)
      → s.inbox ≡ bytes ∷ rest
      → s.thread ≡ running
      → s.stopping ≡ false
      → rt.pack (
          encode (finish rt.trace (attempt rt.message rt.digits s.cbs (rt.unpack bytes) s.store).0))
        ≡ none
      → (run rt (works ∷ actions) s).outbox ≡ s.outbox
  unfolding run act reply_to send
  run_after_unsendable rt actions s bytes rest waits on stays unsendable =
      subst (λ t. (run rt actions t).outbox ≡ s.outbox)
        (sym (work_serves rt s bytes rest waits on stays ∙ rw (unsendable) refl))
        (run_died rt actions
          (record s {
            inbox = rest;
            thread = died;
            store = (attempt rt.message rt.digits s.cbs (rt.unpack bytes) s.store).1;
          })
          refl)
