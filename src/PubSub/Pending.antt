-- ===== src/PubSub/Pending.antt =====
-- Runs of a channel of pubsub.py, and the messages that are on their way in it.
use mathlib.Core.List.{append_assoc}
use radical_utils.Prelude.{
  ℕ, ◌≡◌, refl, sym, ap, ◌∙◌, Option, List, [], ◌∷◌, ◌++◌, Bool, true, false, inl, inr, Bool-cases,
  List-cases, if◌then◌else◌, map,
}
use radical_utils.PubSub.{
  Bytes, escape, Subscriber, Reply, message, Delivered, deliver, frame, decode, listen, Bridge,
  forward_subscription, forward_message, bridge_work,
}

pub data Action (M : Type 0) : Type 0 where
  puts : Bytes → M → Action M
  requests : Bytes → Action M
  works listens : Action M

module _ {M : Type 0} (pack : M → Bytes) (unpack : Bytes → Option M)
    (matches : List Bytes → Bytes → Bool) where
  -- A publisher sends, some subscriber asks for a topic, the bridge turns, or the listener turns.
  unfoldable pub act : Action M → Bridge × Subscriber → (Bridge × Subscriber) × List (Delivered M)
  act (puts topic m) (b, s) =
      ((record b { from_pubs = b.from_pubs ++ frame pack topic m ∷ [] }, s), [])
  act (requests msg) (b, s) = ((record b { from_subs = b.from_subs ++ msg ∷ [] }, s), [])
  act works (b, s) = (bridge_work matches b s, [])
  act listens (b, s) = let (s', out) = listen unpack s in ((b, s'), out)

  unfoldable pub run :
      List (Action M) → Bridge × Subscriber → (Bridge × Subscriber) × List (Delivered M)
  run [] ch = (ch, [])
  run (a ∷ more) ch =
      let (ch', first) = act a ch in let (ch'', rest) = run more ch' in (ch'', first ++ rest)

-- One delivery to each of the callbacks, in their order, unless the topic is empty.
abbrev pub to_each : {M : Type 0} → List (ℕ × Option ℕ) → Bytes → M → List (Delivered M)
to_each cbs [] m = []
to_each cbs (c ∷ cs) m =
    map (λ cb. record { callback = cb.0; lock = cb.1; topic = c ∷ cs; msg = m }) cbs

pub deliver-to_each :
    {M : Type 0} (cbs : List (ℕ × Option ℕ)) (topic : Bytes) (m : M)
    → deliver cbs topic m ≡ to_each cbs topic m
unfolding deliver
deliver-to_each cbs [] m = refl
deliver-to_each [] (c ∷ cs) m = refl
deliver-to_each ((cb, lock) ∷ rest) (c ∷ cs) m =
    ap
      (λ (more : List (Delivered _)).
        record { callback = cb; lock = lock; topic = c ∷ cs; msg = m } ∷ more)
      (deliver-to_each rest (c ∷ cs) m)

module _ {M : Type 0} (unpack : Bytes → Option M) (cbs : List (ℕ × Option ℕ)) where
  -- What messages are to be delivered as.
  unfoldable pub due_of : Reply M → List (Delivered M)
  due_of (message topic m) = to_each cbs topic m
  due_of _ = []

  unfoldable pub due : List Bytes → List (Delivered M)
  due [] = []
  due (bytes ∷ rest) = due_of (decode unpack bytes) ++ due rest

  pub due-append : (xs ys : List Bytes) → due (xs ++ ys) ≡ due xs ++ due ys
  unfolding due
  due-append [] ys = refl
  due-append (x ∷ xs) ys =
      rw (due-append xs ys) (sym (append_assoc (due_of (decode unpack x)) (due xs) (due ys)))

turn_pending :
    (let_in : Bool) (inbox : List Bytes) (msg : Bytes) (rest : List Bytes)
    → (if let_in then inbox ++ msg ∷ [] else inbox) ++ rest
      ≡ inbox ++ (if let_in then msg ∷ rest else rest)
turn_pending true inbox msg rest = append_assoc inbox (msg ∷ []) rest
turn_pending false inbox msg rest = refl

module _ (matches : List Bytes → Bytes → Bool) where
  unfoldable pub let_through : List Bytes → List Bytes → List Bytes
  let_through filters [] = []
  let_through filters (bytes ∷ rest) =
      if matches filters bytes then bytes ∷ let_through filters rest else let_through filters rest

  -- What is on its way: read already, or still at the bridge.
  abbrev pub pending : Bridge × Subscriber → List Bytes
  pending (b, s) = s.inbox ++ let_through s.filters b.from_pubs

  -- What a subscriber with these filters and callbacks is to be given for what was put.
  unfoldable pub put_due :
      {M : Type 0}
      → (M → Bytes)
      → List Bytes
      → List (ℕ × Option ℕ)
      → List (Action M)
      → List (Delivered M)
  put_due pack filters cbs [] = []
  put_due pack filters cbs (puts topic m ∷ more) =
      (if matches filters (frame pack topic m) then to_each cbs (escape topic) m else [])
      ++ put_due pack filters cbs more
  put_due pack filters cbs (requests msg ∷ more) = put_due pack filters cbs more
  put_due pack filters cbs (works ∷ more) = put_due pack filters cbs more
  put_due pack filters cbs (listens ∷ more) = put_due pack filters cbs more

  pub let_through-append :
      (filters xs ys : List _)
      → let_through filters (xs ++ ys) ≡ let_through filters xs ++ let_through filters ys
  unfolding let_through
  let_through-append filters [] ys = refl
  let_through-append filters (x ∷ xs) ys = elim (Bool-cases (matches filters x)) [
    | inl t ↦ rw (t, let_through-append filters xs ys) refl
    | inr f ↦ rw (f, let_through-append filters xs ys) refl
  ]

  from_pubs-forward_subscription : (b : Bridge) → (forward_subscription b).from_pubs ≡ b.from_pubs
  unfolding forward_subscription
  from_pubs-forward_subscription b = elim (List-cases b.from_subs) [
    | inl e ↦ rw (e, forward_subscription) refl
    | inr (msg, rest, e) ↦ rw (e, forward_subscription) refl
  ]

  -- What a turn of the bridge keeps.
  pub record Same (r : Bridge × Subscriber) (b : Bridge) (s : Subscriber) : Type 0 where
    pub thread_same : r.1.thread ≡ s.thread
    pub filters_same : r.1.filters ≡ s.filters
    pub callbacks_same : r.1.callbacks ≡ s.callbacks
    pub pending_same : pending r ≡ s.inbox ++ let_through s.filters b.from_pubs

  forward_message-Same : (b : Bridge) (s : Subscriber) → Same (forward_message matches b s) b s
  unfolding forward_message let_through
  forward_message-Same b s = elim (List-cases b.from_pubs) [
    | inl e ↦
        rw (e, forward_message)
          (record {
            thread_same = refl;
            filters_same = refl;
            callbacks_same = refl;
            pending_same = ap (λ ps. s.inbox ++ let_through s.filters ps) e;
          })
    | inr (msg, rest, e) ↦
        rw (e, forward_message)
          (record {
            thread_same = refl;
            filters_same = refl;
            callbacks_same = refl;
            pending_same =
                turn_pending (matches s.filters msg) s.inbox msg (let_through s.filters rest);
          })
  ]

  pub bridge_work-Same : (b : Bridge) (s : Subscriber) → Same (bridge_work matches b s) b s
  unfolding bridge_work
  bridge_work-Same b s =
      let r = forward_message-Same (forward_subscription b) s in
      record {
        thread_same = r.thread_same;
        filters_same = r.filters_same;
        callbacks_same = r.callbacks_same;
        pending_same =
            r.pending_same
            ∙ ap (λ ps. s.inbox ++ let_through s.filters ps) (from_pubs-forward_subscription b);
      }
