-- ===== src/Getter/Keeps.antt =====
-- One call of `get` or `get_nowait` of zmq/queue.py, and what it keeps.
use mathlib.Core.List.{append-nil}
use mathlib.Core.Path.{subst}
use radical_utils.Prelude.{
  ◌≡◌, refl, String, Bool, true, false, Option, none, some, List, [], ◌++◌, arith, ◌⊎◌, inl, inr,
}
use radical_utils.Queue.{name_or_default}
use radical_utils.Getter.{
  Got, got, nothing, blocked, raised, Getter, take_reply, poll_reply, request, fetch, get_nowait,
}

module _ {M : Type 0} where
  abbrev pub received : Got M → List M
  received (got msgs) = msgs
  received nothing = []
  received blocked = []
  received (raised e) = []

  -- The reply that waits in the socket.
  abbrev pub waiting : Option (List M) → List M
  waiting none = []
  waiting (some msgs) = msgs

-- The flag says whether a reply is due, and there is no callback.
abbrev pub Ready : {S M : Type 0} → Getter S M → Type 0
Ready {M} g =
    (g.interactive ≡ true)
    × (((g.requested ≡ false) × (g.socket.inbox ≡ none))
        ⊎ ((g.requested ≡ true) × (msgs : List M) × (g.socket.inbox ≡ some msgs)))

-- A relation of the bridge, the reply that waits and what was returned holds of a getter.
abbrev pub Kept : {S M : Type 0} → (S → List M → List M → Type 0) → List M → Getter S M → Type 0
Kept Inv out g = Ready g × Inv g.socket.world (waiting g.socket.inbox) out

module _ {S M : Type 0} (serve : S → String → S × List M) where
  -- The calls by the state of the flag and of the socket.
  module _ (qname : String) (g : Getter S M) (i : g.interactive ≡ true) where
    asked : S × List M
    asked = serve g.socket.world (name_or_default qname)

    get_fresh :
        g.requested ≡ false
        → g.socket.inbox ≡ none
        → get_nowait serve qname true g ≡ (
          record g { requested = false; socket = record { world = asked.0; inbox = none } },
          got asked.1,
        )
    unfolding get_nowait fetch request poll_reply take_reply asked
    get_fresh r b = ground arith

    miss_fresh :
        g.requested ≡ false
        → g.socket.inbox ≡ none
        → get_nowait serve qname false g ≡ (
          record g { requested = true; socket = record { world = asked.0; inbox = some asked.1 } },
          nothing,
        )
    unfolding get_nowait fetch request poll_reply take_reply asked
    miss_fresh r b = ground arith

    get_due :
        (msgs : List M)
        → g.requested ≡ true
        → g.socket.inbox ≡ some msgs
        → get_nowait serve qname true g ≡ (
          record g { requested = false; socket = record { world = g.socket.world; inbox = none } },
          got msgs,
        )
    unfolding get_nowait fetch request poll_reply take_reply
    get_due msgs r b = ground arith

    miss_due : (msgs : List M) → g.requested ≡ true → get_nowait serve qname false g ≡ (g, nothing)
    unfolding get_nowait fetch request poll_reply
    miss_due msgs r = ground arith

  -- A call keeps what its request and the receipt of a reply keep.
  module _ (Inv : S → List M → List M → Type 0) where
    pub get_nowait-Kept :
        (out : List M) (qname : String) (arrives : Bool) (g : Getter S M)
        → ((w : S)
            → Inv w [] out
            → Inv (serve w (name_or_default qname)).0 (serve w (name_or_default qname)).1 out)
        → ((w : S) (due : List M) → Inv w due out → Inv w [] (out ++ due))
        → Kept Inv out g
        → Kept Inv
            (out ++ received (get_nowait serve qname arrives g).1)
            (get_nowait serve qname arrives g).0
    unfolding asked
    get_nowait-Kept out qname true g asks takes ((i, inl (r, b)), h) =
        rw (get_fresh qname g i r b) (
          (i, inl (refl, refl)),
          takes _ _ (asks g.socket.world (subst (λ x. Inv g.socket.world (waiting x) out) b h)),
        )
    get_nowait-Kept out qname false g asks takes ((i, inl (r, b)), h) =
        rw (miss_fresh qname g i r b, append-nil out)
          (
            (i, inr (refl, _, refl)),
            asks g.socket.world (subst (λ x. Inv g.socket.world (waiting x) out) b h),
          )
    get_nowait-Kept out qname true g asks takes ((i, inr (r, msgs, b)), h) =
        rw (get_due qname g i msgs r b) (
          (i, inl (refl, refl)),
          takes g.socket.world msgs (subst (λ x. Inv g.socket.world (waiting x) out) b h),
        )
    get_nowait-Kept out qname false g asks takes ((i, inr (r, msgs, b)), h) =
        rw (miss_due qname g i msgs r, append-nil out) ((i, inr (r, msgs, b)), h)
