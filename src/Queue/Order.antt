-- ===== src/Queue/Order.antt =====
-- The order in which messages leave the bridge of zmq/queue.py.
use mathlib.Core.List.{append_assoc, append-nil}
use radical_utils.Prelude.{
  ◌≡◌, refl, sym, ap, ◌∙◌, String, true, inl, inr, Option, none, some, List, [], ◌∷◌, ◌++◌, arith,
  take, drop, take-append-drop, if◌then◌else◌, Bool-cases,
}
use radical_utils.Prelude.Eq.{string_eq}
use radical_utils.Prelude.Dict.{Dict, insert, lookup-insert}
use radical_utils.Queue.{
  Incoming, bulk, malformed, Bridge, Round, name_or_default, buffered, store, handle_put, is_empty,
  serve, handle_get, after_put, bridge_work,
}

module _ {M : Type 0} where
  -- The messages of a list, if they go by the name `k`.
  abbrev pub select : String → String → List M → List M
  select k qname msgs = if string_eq.beq qname k then msgs else []

  -- What arrives under `k`, before what comes later. Nothing does after a malformed message.
  unfoldable pub arrive : String → Option (Incoming M) → List M → List M
  arrive k none later = later
  arrive k (some (bulk qname msgs)) later = select k qname msgs ++ later
  arrive k (some (malformed n)) later = []

  -- What the rounds put under `k`, up to the first malformed message.
  unfoldable pub puts : String → List (Round M) → List M
  puts k [] = []
  puts k (r ∷ rs) = arrive k r.put (puts k rs)

  -- What the replies deliver under `k`.
  unfoldable pub sent : String → List (String × List M) → List M
  sent k [] = []
  sent k ((qname, msgs) ∷ rs) = select k qname msgs ++ sent k rs

  buffered-insert :
      (k qname : String) (msgs : List M) (buf : Dict String (List M))
      → buffered (insert qname msgs buf) k
        ≡ (if string_eq.beq qname k then msgs else buffered buf k)
  unfolding buffered
  buffered-insert k qname msgs buf = ground (arith, lookup-insert qname k msgs buf)

  buffered_eq :
      (k qname : String) (buf : Dict String (List M))
      → string_eq.beq qname k ≡ true
      → buffered buf qname ≡ buffered buf k
  buffered_eq k qname buf e = ap (buffered buf) ((string_eq.beq_iff qname k).0 e)

  -- Storing appends.
  pub buffered-store :
      (k qname : String) (msgs : List M) (b : Bridge M)
      → buffered (store qname msgs b).buf k ≡ buffered b.buf k ++ select k qname msgs
  unfolding store
  buffered-store k qname msgs b = elim (Bool-cases (string_eq.beq qname k)) [
    | inl t ↦ rw (
      buffered-insert k qname (buffered b.buf qname ++ msgs) b.buf,
      t,
      buffered_eq k qname b.buf t,
    )
    | inr f ↦
        rw (buffered-insert k qname (buffered b.buf qname ++ msgs) b.buf, f)
          (sym (append-nil (buffered b.buf k)))
  ]

  is_empty-nil : (xs : List M) → is_empty xs ≡ true → xs ≡ []
  unfolding is_empty
  is_empty-nil [] h = refl
  is_empty-nil (x ∷ xs) h = absurd (cc)

  -- Serving splits off a front part.
  pub buffered-serve :
      (k qname : String) (b : Bridge M)
      → select k qname (serve qname b).1 ++ buffered (serve qname b).0.buf k ≡ buffered b.buf k
  unfolding serve
  buffered-serve k qname b = elim (Bool-cases (is_empty msgs)) [
    | inl nil ↦ elim (Bool-cases (string_eq.beq qname k)) [
      | inl t ↦ rw (nil, t, is_empty-nil msgs nil)
      | inr f ↦ rw (nil, f)
    ]
    | inr more ↦ elim (Bool-cases (string_eq.beq qname k)) [
      | inl t ↦
          rw (more, buffered-insert k qname rest b.buf, t)
            (take-append-drop b.bulk_size (buffered b.buf qname) ∙ buffered_eq k qname b.buf t)
      | inr f ↦ rw (more, buffered-insert k qname rest b.buf, f)
    ]
  ]
    where
      msgs : List M
      msgs = take b.bulk_size (buffered b.buf qname)

      rest : List M
      rest = drop b.bulk_size (buffered b.buf qname)

  regroup : (a b c d e : List M) → b ++ c ≡ d ++ e → (a ++ b) ++ c ≡ (a ++ d) ++ e
  regroup a b c d e h = rw (append_assoc, append_assoc) (ap (◌++◌ a) h)

  round_fifo :
      (k : String) (rest : Bridge M → Bridge M × List (String × List M)) (later : List M)
      (get : Option String) (b b₀ : Bridge M)
      → ((b' : Bridge M)
          → buffered b'.buf k ++ later ≡ sent k (rest b').1 ++ buffered (rest b').0.buf k)
      → buffered b.buf k ++ later
        ≡ sent k (after_put rest get b₀ (some b)).1
          ++ buffered (after_put rest get b₀ (some b)).0.buf k
  unfolding after_put handle_get sent
  round_fifo k rest later none b b₀ ih = ih b
  round_fifo k rest later (some request) b b₀ ih =
      let qname = name_or_default request in
      let b' = (serve qname b).0 in
      rw (← buffered-serve k qname b) (
        regroup (select k qname (serve qname b).1) (buffered b'.buf k) later (sent k (rest b').1)
          (buffered (rest b').0.buf k) (ih b'))

  put_fifo :
      (k : String) (rest : Bridge M → Bridge M × List (String × List M)) (later : List M)
      (put : Option (Incoming M)) (get : Option String) (b : Bridge M)
      → ((b' : Bridge M)
          → buffered b'.buf k ++ later ≡ sent k (rest b').1 ++ buffered (rest b').0.buf k)
      → let (final, replies) = after_put rest get b (handle_put put b) in
        buffered b.buf k ++ arrive k put later ≡ sent k replies ++ buffered final.buf k
  unfolding handle_put arrive after_put sent
  put_fifo k rest later none get b ih = round_fifo k rest later get b b ih
  put_fifo k rest later (some (malformed n)) get b ih = append-nil (buffered b.buf k)
  put_fifo k rest later (some (bulk qname msgs)) get b ih =
      sym (append_assoc (buffered b.buf k) (select k qname msgs) later)
      ∙ rw (← buffered-store k qname msgs b) (round_fifo k rest later get (store qname msgs b) b ih)

  -- For each name, what was buffered and what then was put is what the replies deliver, in the
  -- same order, followed by what is left in the buffer: no message is lost, doubled or overtaken.
  -- After malformed frames, which end the loop, nothing more counts as put.
  pub bridge_work_fifo :
      (k : String) (rs : List (Round M)) (b : Bridge M)
      → let (final, replies) = bridge_work rs b in
        buffered b.buf k ++ puts k rs ≡ sent k replies ++ buffered final.buf k
  unfolding bridge_work puts sent
  bridge_work_fifo k [] b = append-nil (buffered b.buf k)
  bridge_work_fifo k (r ∷ rs) b =
      put_fifo k (bridge_work rs) (puts k rs) r.put r.get b (λ b'. bridge_work_fifo k rs b')
