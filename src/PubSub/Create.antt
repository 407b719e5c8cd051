-- ===== src/PubSub/Create.antt =====
-- `__init__` of a subscriber of pubsub.py, and its loop over a list that grows.
use mathlib.Core.List.{append_assoc, append-nil, map-append}
use mathlib.Core.Path.{subst}
use radical_utils.Prelude.{
  ℕ, zero, suc, ◌+◌, ◌≤◌, ◌<◌, ◌≡◌, refl, sym, ap, ◌∙◌, true, false, Option, none, some, List, [],
  ◌∷◌, ◌++◌, map, length, get_elem?, replicate, length-append, if◌then◌else◌, arith, inl, inr,
  Bool-cases,
}
use radical_utils.PubSub.{
  Bytes, escape, same_bytes, has_topic, Subscriber, add_callback, add_topic, subscribe,
  subscribe_all, connected, create,
}
use radical_utils.PubSub.Frames.{escape_twice, same_bytes_refl, same_bytes-eq}

-- The callbacks after this many subscriptions.
abbrev pub copies : ℕ → Option ℕ → List (ℕ × Option ℕ)
copies n none = []
copies n (some cb) = replicate n (cb, none)

-- A topic that has spaces may add another.
unfoldable pub turns : List Bytes → ℕ
turns [] = 0
turns (t ∷ ts) = (if same_bytes t (escape t) then 1 else 2) + turns ts

turns-append : (ts us : List Bytes) → turns (ts ++ us) ≡ turns ts + turns us
unfolding turns
turns-append [] us = omega arith
turns-append (t ∷ ts) us = ground (arith, turns-append ts us)

turns_bounded : (ts : List Bytes) → turns ts ≤ length ts + length ts
unfolding turns
turns_bounded [] = omega arith
turns_bounded (t ∷ ts) = ground (arith, turns_bounded ts)

get_elem?_next :
    (before : List Bytes) (t : Bytes) (after : List Bytes)
    → get_elem? (before ++ t ∷ after) (length before) ≡ some t
get_elem?_next [] t after = refl
get_elem?_next (b ∷ before) t after = get_elem?_next before t after

get_elem?_end : (before : List Bytes) → get_elem? before (length before) ≡ none
get_elem?_end [] = refl
get_elem?_end (b ∷ before) = get_elem?_end before

has_topic-middle :
    (before : List Bytes) (t : Bytes) (after : List Bytes)
    → has_topic t (before ++ t ∷ after) ≡ true
unfolding has_topic
has_topic-middle [] t after = rw (same_bytes_refl t) refl
has_topic-middle (b ∷ before) t after = elim (Bool-cases (same_bytes t b)) [
  | inl e ↦ rw e refl
  | inr f ↦ rw (f, has_topic-middle before t after) refl
]

copies_snoc : {A : Type 0} (n : ℕ) (a : A) → replicate n a ++ a ∷ [] ≡ replicate (suc n) a
copies_snoc zero a = refl
copies_snoc (suc n) a = ap (λ r. a ∷ r) (copies_snoc n a)

length_snoc : (before : List Bytes) (t : Bytes) → length (before ++ t ∷ []) ≡ suc (length before)
length_snoc before t = omega (arith, length-append before (t ∷ []))

-- What the loop keeps: each topic that it has passed was subscribed once.
pub record Passed (cb : Option ℕ) (before : List Bytes) (s : Subscriber) : Type 0 where
  pub filters_are : s.filters ≡ map escape before
  pub callbacks_are : s.callbacks ≡ copies (length before) cb

subscribe-Passed :
    (cb : Option ℕ) (before : List Bytes) (t : Bytes) (s : Subscriber)
    → Passed cb before s
    → Passed cb (before ++ t ∷ []) (subscribe t cb none s)
unfolding subscribe add_topic add_callback
subscribe-Passed none before t s p = record {
  filters_are = rw (map-append escape before (t ∷ []), p.filters_are) refl;
  callbacks_are = p.callbacks_are;
}
subscribe-Passed (some cb) before t s p = record {
  filters_are = rw (map-append escape before (t ∷ []), p.filters_are) refl;
  callbacks_are =
      rw
        (
          p.callbacks_are,
          copies_snoc {A = ℕ × Option ℕ} (length before) (cb, none),
          length_snoc before t,
        )
        refl;
}

-- The topics that are added on the way.
topics-subscribe :
    (cb : Option ℕ) (t : Bytes) (s : Subscriber)
    → (subscribe t cb none s).topics
      ≡ (if has_topic (escape t) s.topics then s.topics else s.topics ++ escape t ∷ [])
unfolding subscribe add_topic add_callback
topics-subscribe none t s = refl
topics-subscribe (some cb) t s = refl

-- The loop ends with every topic passed.
abbrev pub Ended : Option ℕ → Option Subscriber → Type 0
Ended cb none = ⊥
Ended cb (some s) = Passed cb s.topics s

ends_with :
    (cb : Option ℕ) (o : Option Subscriber)
    → Ended cb o
    → (s : Subscriber) × (o ≡ some s)
      × (s.filters ≡ map escape s.topics)
      × (s.callbacks ≡ copies (length s.topics) cb)
ends_with cb none e = absurd e
ends_with cb (some s) e = (s, refl, e.filters_are, e.callbacks_are)

fewer_turns : (t : Bytes) (after : List Bytes) → turns after < turns (t ∷ after)
unfolding turns
fewer_turns t after = ground arith

-- A topic that is not there yet when it is subscribed had spaces.
new_topic-turns :
    (before after : List Bytes) (t : Bytes)
    → has_topic (escape t) (before ++ t ∷ after) ≡ false
    → turns (after ++ escape t ∷ []) < turns (t ∷ after)
unfolding turns
new_topic-turns before after t new = elim (Bool-cases (same_bytes t (escape t))) [
  | inl same ↦
      let there =
        subst (λ u. has_topic u (before ++ t ∷ after) ≡ true) (same_bytes-eq t (escape t) same)
          (has_topic-middle before t after) in
      absurd (ground arith)
  | inr other ↦
      rw
        (
          turns-append after (escape t ∷ []),
          other,
          turns,
          escape_twice t,
          same_bytes_refl (escape t),
        )
        (omega arith)
]

subscribe_all_end :
    (fuel i : ℕ) (cb : Option ℕ) (s : Subscriber)
    → get_elem? s.topics i ≡ none
    → subscribe_all (suc fuel) i cb s ≡ some s
unfolding subscribe_all
subscribe_all_end fuel i cb s e = rw (e, subscribe_all) refl

subscribe_all_next :
    (fuel i : ℕ) (cb : Option ℕ) (s : Subscriber) (t : Bytes)
    → get_elem? s.topics i ≡ some t
    → subscribe_all (suc fuel) i cb s ≡ subscribe_all fuel (suc i) cb (subscribe t cb none s)
unfolding subscribe_all
subscribe_all_next fuel i cb s t e = rw (e, subscribe_all) refl

subscribe_all-Ended :
    (fuel : ℕ) (cb : Option ℕ) (before after : List Bytes) (s : Subscriber)
    → turns after < fuel
    → s.topics ≡ before ++ after
    → Passed cb before s
    → Ended cb (subscribe_all fuel (length before) cb s)
subscribe_all-Ended zero cb before after s enough e p = absurd (omega arith)
subscribe_all-Ended (suc fuel) cb before [] s enough e p =
    let all = e ∙ append-nil before in
    rw
      (subscribe_all_end fuel (length before) cb s
        (ap (λ ts. get_elem? ts (length before)) all ∙ get_elem?_end before))
      (subst (λ ts. Passed cb ts s) (sym all) p)
subscribe_all-Ended (suc fuel) cb before (t ∷ after) s enough e p =
    let s' = subscribe t cb none s in
    let later =
      λ (more : List Bytes) (less : turns more < fuel) (e' : s'.topics ≡ before ++ t ∷ more).
        subst (λ n. Ended cb (subscribe_all fuel n cb s')) (length_snoc before t)
          (subscribe_all-Ended fuel cb (before ++ t ∷ []) more s' less
            (e' ∙ sym (append_assoc before (t ∷ []) more)) (subscribe-Passed cb before t s p)) in
    rw
      (subscribe_all_next fuel (length before) cb s t
        (ap (λ ts. get_elem? ts (length before)) e ∙ get_elem?_next before t after))
      (elim (Bool-cases (has_topic (escape t) (before ++ t ∷ after))) [
        | inl there ↦
            later after (omega (arith, fewer_turns t after))
              (topics-subscribe cb t s ∙ rw (e, there) refl)
        | inr new ↦
            later (after ++ escape t ∷ []) (omega (arith, new_topic-turns before after t new)) (
              topics-subscribe cb t s
              ∙ rw (e, new) (append_assoc before (t ∷ after) (escape t ∷ [])))
      ])

no_copies : (cb : Option ℕ) → [] ≡ copies 0 cb
no_copies none = refl
no_copies (some c) = refl

-- The constructor ends, also if the list of topics grows under its loop. Each topic that it has
-- then, those that were added included, was subscribed once, without its spaces, and the
-- callback, if there is one, is registered once for each of them.
pub create_ends :
    (topics : List Bytes) (cb : Option ℕ)
    → (s : Subscriber) × (create topics cb ≡ some s)
      × (s.filters ≡ map escape s.topics)
      × (s.callbacks ≡ copies (length s.topics) cb)
unfolding create connected
create_ends topics cb = ends_with cb (create topics cb) (
    subscribe_all-Ended _ cb [] topics (connected topics) (omega (arith, turns_bounded topics)) refl
      (record { filters_are = refl; callbacks_are = no_copies cb }))
