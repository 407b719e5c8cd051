-- ===== src/Queue/Drain.antt =====
-- The sizes of the replies of the bridge of zmq/queue.py, and what a client gets that asks repeatedly.
use mathlib.Core.List.{append-nil}
use radical_utils.Prelude.{
  sym, ℕ, zero, suc, ◌-◌, ◌*◌, ◌≡◌, ◌≤◌, refl, ap, ◌∙◌, String, Option, none, some, List, [], ◌∷◌,
  arith, length, length-append, length-take, replicate, min,
}
use radical_utils.Prelude.Eq.{string_eq}
use radical_utils.Queue.{
  Incoming, Bridge, Round, name_or_default, buffered, handle_put, serve, handle_get, after_put,
  bridge_work, bulk_size_or_default, init, store, malformed, bulk,
}
use radical_utils.Queue.Order.{buffered-serve, bridge_work_fifo, arrive, sent, puts}

module _ {M : Type 0} where
  -- Every reply is at most this long.
  abbrev pub Bulks : ℕ → List (String × List M) → Type 0
  Bulks n [] = Unit {0}
  Bulks n ((qname, msgs) ∷ rs) = (length msgs ≤ n) × Bulks n rs

  serve-length :
      (qname : String) (b : Bridge M)
      → length (serve qname b).1 ≡ min b.bulk_size (length (buffered b.buf qname))
  unfolding serve
  serve-length qname b = length-take b.bulk_size (buffered b.buf qname)

  serve-bulk_size : (qname : String) (b : Bridge M) → (serve qname b).0.bulk_size ≡ b.bulk_size
  unfolding serve
  serve-bulk_size qname b = refl

  -- A request for a name takes a bulk from its buffer, or all if there is less.
  length-serve :
      (qname : String) (b : Bridge M)
      → length (buffered (serve qname b).0.buf qname) ≡ length (buffered b.buf qname) - b.bulk_size
  length-serve qname b =
      let self = (string_eq.beq_iff qname qname).1 refl in
      let split = ap length (rw self at (buffered-serve qname qname b)) in
      omega (
        arith,
        split,
        length-append (serve qname b).1 (buffered (serve qname b).0.buf qname),
        serve-length qname b,
      )

  round-Bulks :
      (n : ℕ) (rest : Bridge M → Bridge M × List (String × List M)) (get : Option String)
      (b b₀ : Bridge M)
      → ((b' : Bridge M) → b'.bulk_size ≡ n → Bulks n (rest b').1)
      → b.bulk_size ≡ n
      → Bulks n (after_put rest get b₀ (some b)).1
  unfolding after_put handle_get
  round-Bulks n rest none b b₀ ih e = ih b e
  round-Bulks n rest (some request) b b₀ ih e =
      let qname = name_or_default request in
      (omega (arith, serve-length qname b), ih (serve qname b).0 (serve-bulk_size qname b ∙ e))

  put-Bulks :
      (n : ℕ) (rest : Bridge M → Bridge M × List (String × List M)) (put : Option (Incoming M))
      (get : Option String) (b : Bridge M)
      → ((b' : Bridge M) → b'.bulk_size ≡ n → Bulks n (rest b').1)
      → b.bulk_size ≡ n
      → Bulks n (after_put rest get b (handle_put put b)).1
  unfolding handle_put store
  put-Bulks n rest none get b ih e = round-Bulks n rest get b b ih e
  put-Bulks n rest (some (malformed k)) get b ih e = unfold after_put in tt
  put-Bulks n rest (some (bulk qname msgs)) get b ih e =
      round-Bulks n rest get (store qname msgs b) b ih e

  bridge_work-Bulks :
      (n : ℕ) (rs : List (Round M)) (b : Bridge M) → b.bulk_size ≡ n → Bulks n (bridge_work rs b).1
  unfolding bridge_work
  bridge_work-Bulks n [] b e = tt
  bridge_work-Bulks n (r ∷ rs) b e =
      put-Bulks n (bridge_work rs) r.put r.get b (bridge_work-Bulks n rs) e

  -- No reply of a bridge holds more messages than the bulk size that it was configured with, or
  -- 1024 if that is not positive.
  pub init-Bulks :
      (n : ℕ) (rs : List (Round M)) → Bulks (bulk_size_or_default n) (bridge_work rs (init n)).1
  unfolding init
  init-Bulks n rs = bridge_work-Bulks (bulk_size_or_default n) rs (init n) refl

  -- A round in which nothing is put and one request arrives.
  abbrev pub request : String → Round M
  request qname = record { put = none; get = some qname }

  abbrev pub requests : ℕ → String → List (Round M)
  requests n qname = replicate n (request qname)

  drain-length :
      (n : ℕ) (qname : String) (b : Bridge M)
      → let k = name_or_default qname in
        length (buffered (bridge_work (requests n qname) b).0.buf k)
        ≡ length (buffered b.buf k) - n * b.bulk_size
  unfolding bridge_work after_put handle_put handle_get
  drain-length zero qname b = omega arith
  drain-length (suc n) qname b =
      let k = name_or_default qname in
      let b' = (serve k b).0 in
      grind (arith, drain-length n qname b', length-serve k b, serve-bulk_size k b)

  requests-puts : (n : ℕ) (k qname : String) → puts k (requests n qname) ≡ []
  unfolding puts arrive
  requests-puts zero k qname = refl
  requests-puts (suc n) k qname = requests-puts n k qname

  nil_of_length : (xs : List M) → length xs ≡ 0 → xs ≡ []
  nil_of_length [] h = refl
  nil_of_length (x ∷ xs) h = absurd (omega arith)

  -- A client that asks often enough, while nothing else happens, gets all that is buffered under
  -- its name, in order, and leaves nothing behind.
  pub drain :
      (n : ℕ) (qname : String) (b : Bridge M)
      → length (buffered b.buf (name_or_default qname)) ≤ n * b.bulk_size
      → let k = name_or_default qname in
        let (final, replies) = bridge_work (requests n qname) b in
        (sent k replies ≡ buffered b.buf k) × (buffered final.buf k ≡ [])
  drain n qname b enough =
      let k = name_or_default qname in
      let rs = requests n qname in
      let final = (bridge_work rs b).0 in
      let replies = (bridge_work rs b).1 in
      let empty : buffered final.buf k ≡ [] =
        nil_of_length (buffered final.buf k) (omega (arith, drain-length n qname b)) in
      let fifo = rw (requests-puts n k qname, append-nil) at (bridge_work_fifo k rs b) in
      (sym (fifo ∙ rw (empty, append-nil)), empty)
