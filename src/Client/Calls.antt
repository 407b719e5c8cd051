-- ===== src/Client/Calls.antt =====
-- A request of client.py to the server of server.py, from the call to its result.
use mathlib.Core.List.{append-nil}
use radical_utils.Prelude.{
  ℕ, ◌≡◌, refl, sym, ap, ◌∙◌, false, some, List, [], ◌∷◌, ◌++◌, length, drop, if◌then◌else◌,
}
use radical_utils.Prelude.Chars.{Text, codes, text_eq, same_text}
use radical_utils.Prelude.Dict.{lookup}
use radical_utils.Message.{Value, str, Values, Fields, truthy, letters, elements}
use radical_utils.Message.Entries.{get_field, get_or_null}
use radical_utils.Server.{
  Outcome, returns, raises, exits, Handler, success, or_invalid, error, or_none, encode, running,
  died, Server,
}
use radical_utils.Server.Requests.{
  Runtime, mapping, settle, call_with, call, find_and_call, dispatch, read_keys, attempt, finish,
  is_exit, send, reply_to, work, arrives, act,
}
use radical_utils.Server.Replies.{work_serves}
use radical_utils.Client.{
  Result, returned, raised, request_value, concat, joined, shown, add_trace, raise_error,
  take_result, read_reply, receive, exchange, request,
}

-- Every value can be encoded, which for numbers is so in msgpack's range, and is decoded as it was.
pub record IsLawful (rt : Runtime) : Type 0 where
  pub packs : (v : Value) → (b : Text) × (rt.pack v ≡ some b)
  pub unpack-pack : (v : Value) (b : Text) → rt.pack v ≡ some b → rt.unpack b ≡ some v

-- A server that waits for a request.
pub record Ready {S : Type 0} (s : Server S) : Type 0 where
  pub on : s.thread ≡ running
  pub stays : s.stopping ≡ false
  pub idle : s.inbox ≡ []

abbrev pub traced : Text → Text
traced [] = []
traced (c ∷ cs) = codes "\n" ++ (c ∷ cs)

-- What a client is told of the end of its call.
abbrev pub told : (Text → Text) → Outcome → Result
told trace (returns v) = returned v
told trace (raises m) = raised (codes "ERROR: command failed: " ++ (m ++ traced (trace m)))
told trace exits = raised (codes "ERROR: server error")

concat-letters : (t : Text) → concat (letters t) ≡ some t
unfolding concat letters
concat-letters [] = refl
concat-letters (c ∷ cs) = rw (concat-letters cs) refl

raise_error_told :
    (show : Value → Text) (msg t : Text)
    → raise_error show (str msg) (some (str t)) ≡ raised (codes "ERROR: " ++ (msg ++ traced t))
unfolding raise_error truthy shown add_trace joined elements
raise_error_told show msg [] = ap (λ u. raised (codes "ERROR: " ++ u)) (sym (append-nil msg))
raise_error_told show msg (c ∷ cs) = rw (concat-letters (c ∷ cs)) refl

after_told :
    (show : Value → Text) (trace : Text → Text) (o : Outcome)
    → read_reply show (some (encode (finish trace (settle o)))) ≡ told trace o
unfolding read_reply encode finish settle success error or_invalid or_none get_or_null get_field
    take_result truthy same_text raise_error shown
after_told show trace (returns v) = refl
after_told show trace (raises m) = raise_error_told show (codes "command failed: " ++ m) (trace m)
after_told show trace exits = refl

drop_sent : {A : Type 0} (xs : List A) (x : A) → drop (length xs) (xs ++ x ∷ []) ≡ x ∷ []
drop_sent [] x = refl
drop_sent (y ∷ ys) x = drop_sent ys x

module _ {S : Type 0} (rt : Runtime) where
  attempt_request :
      (c : ℕ) (cs : Text) (args : Values) (kwargs : Fields) (s : Server S) (cb : Handler S)
      → lookup (c ∷ cs) s.cbs ≡ some cb
      → attempt rt.message rt.digits s.cbs (some (request_value (c ∷ cs) args kwargs)) s.store
        ≡ (settle (cb args kwargs s.store).0, (cb args kwargs s.store).1)
  unfolding attempt request_value read_keys get_field same_text dispatch truthy find_and_call call
      call_with mapping elements
  attempt_request c cs args kwargs s cb e = rw (e, call) refl

  -- The server after a request.
  abbrev pub served : Server S → Outcome × S → Text → Server S
  served s (o, store) bytes = record s {
    inbox = [];
    outbox = s.outbox ++ bytes ∷ [];
    thread = if is_exit (settle o) then died else s.thread;
    store = store;
  }

  reply_to-served :
      (o : Outcome) (store : S) (s : Server S) (bytes : Text)
      → rt.pack (encode (finish rt.trace (settle o))) ≡ some bytes
      → reply_to rt (settle o, store) (record s { inbox = [] }) ≡ served s (o, store) bytes
  unfolding reply_to send
  reply_to-served o store s bytes fits = rw (fits, send) refl

  work-served :
      (c : ℕ) (cs : Text) (args : Values) (kwargs : Fields) (s : Server S) (cb : Handler S)
      (bytes back : Text)
      → Ready s
      → lookup (c ∷ cs) s.cbs ≡ some cb
      → rt.unpack bytes ≡ some (request_value (c ∷ cs) args kwargs)
      → rt.pack (encode (finish rt.trace (settle (cb args kwargs s.store).0))) ≡ some back
      → work rt (act rt (arrives bytes) s) ≡ served s (cb args kwargs s.store) back
  unfolding act
  work-served c cs args kwargs s cb bytes back ready known reads fits =
      work_serves rt (record s { inbox = s.inbox ++ bytes ∷ [] }) bytes []
        (ap (λ l. l ++ bytes ∷ []) ready.idle) ready.on ready.stays
      ∙ ap
          (λ v.
            reply_to rt (attempt rt.message rt.digits s.cbs v s.store) (record s { inbox = [] }))
          reads
      ∙ ap (λ p. reply_to rt p (record s { inbox = [] }))
          (attempt_request c cs args kwargs s cb known)
      ∙ reply_to-served (cb args kwargs s.store).0 (cb args kwargs s.store).1 s back fits

  exchange_after :
      (show : Value → Text) (bytes back : Text) (s s' : Server S) (v : Value)
      → work rt (act rt (arrives bytes) s) ≡ s'
      → s'.outbox ≡ s.outbox ++ back ∷ []
      → rt.unpack back ≡ some v
      → exchange show rt (some bytes) s ≡ (read_reply show (some v), s')
  unfolding exchange receive
  exchange_after show bytes back s s' v works sent reads =
      ap (λ t. (receive show rt (drop (length s.outbox) t.outbox), t)) works
      ∙ ap (λ l. (receive show rt (drop (length s.outbox) l), s')) sent
      ∙ ap (λ l. (receive show rt l, s')) (drop_sent s.outbox back)
      ∙ ap (λ o. (read_reply show o, s')) reads

  -- If every value that is sent can be encoded and is decoded as it was, and the server waits for
  -- a request: a client's call of a registered command that is not empty is the call of its
  -- handler. What the handler returns is returned, and of its exception the text and the trace
  -- are raised; the changes that it makes to the store are those of the server, which has sent
  -- one reply more, and whose thread goes on unless the handler ended it.
  pub request-told :
      (show : Value → Text) (c : ℕ) (cs : Text) (args : Values) (kwargs : Fields) (s : Server S)
      (cb : Handler S)
      → IsLawful rt
      → Ready s
      → lookup (c ∷ cs) s.cbs ≡ some cb
      → (back : Text) × (request show rt (c ∷ cs) args kwargs s
          ≡ (told rt.trace (cb args kwargs s.store).0, served s (cb args kwargs s.store) back))
  unfolding request
  request-told show c cs args kwargs s cb lawful ready known =
      let o = (cb args kwargs s.store).0 in
      let asked = request_value (c ∷ cs) args kwargs in
      let (bytes, sends) = lawful.packs asked in
      let (back, fits) = lawful.packs (encode (finish rt.trace (settle o))) in
      let after = served s (cb args kwargs s.store) back in
      let works =
        work-served c cs args kwargs s cb bytes back ready known
          (lawful.unpack-pack asked bytes sends) fits in
      (
        back,
        ap (λ b. exchange show rt b s) sends
            ∙ exchange_after show bytes back s after (encode (finish rt.trace (settle o))) works
                refl (lawful.unpack-pack (encode (finish rt.trace (settle o))) back fits)
            ∙ ap (λ r. (r, after)) (after_told show rt.trace o),
      )
