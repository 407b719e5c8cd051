-- ===== src/Heartbeat.antt =====
-- src/radical/utils/heartbeat.py: `Heartbeat`. The keys of the time stamps are of a type `K`, with the
-- key 'default' and the value `True`, which the watcher also uses as a key. Times are whole numbers of
-- some unit, and none is negative.
pub mod Watch
pub mod Startup
pub mod Tests
use radical_utils.Prelude.{
  ℕ, zero, suc, ◌+◌, ◌-◌, Bool, true, false, ◌&&◌, Option, none, some, List, [], ◌∷◌, ltb, ◌==◌,
  if◌then◌else◌,
}
use radical_utils.Prelude.Eq.{Eq}
use radical_utils.Prelude.Dict.{Dict, lookup, insert, remove, keys}

pub record Heartbeat (K : Type 0) : Type 0 where
  pub tstamps : Dict K ℕ
  pub timeout : Option ℕ
  pub interval : ℕ

-- How the check of a heartbeat ends: the watcher goes on, the process is killed, or the watcher dies
-- of an exception.
pub data Watched (K : Type 0) : Type 0 where
  goes_on killed crashed : Heartbeat K → Watched K

-- `__init__`; `none` stands for its `ValueError`.
unfoldable pub init : {K : Type 0} → Option ℕ → ℕ → Option (Heartbeat K)
init none interval = some (record { tstamps = []; timeout = none; interval = interval })
init (some t) interval =
    if ltb 0 t && ltb t interval
    then none
    else some (record { tstamps = []; timeout = some t; interval = interval })

-- What is given, unless it is missing or false.
unfoldable pub given_or : Option ℕ → ℕ → ℕ
given_or none now = now
given_or (some zero) now = now
given_or (some (suc n)) now = suc n

module _ {K : Type 0} ⦃e : Eq K⦄ where
  unfoldable pub stamp : K → ℕ → Heartbeat K → Heartbeat K
  stamp uid t h = record h { tstamps = insert uid t h.tstamps }

  -- `beat`, at time `now`; no key stands for the default one.
  unfoldable pub beat : K → Option K → Option ℕ → ℕ → Heartbeat K → Heartbeat K
  beat default none timestamp now h = stamp default (given_or timestamp now) h
  beat default (some uid) timestamp now h = stamp uid (given_or timestamp now) h

  -- The beats of other threads, each with the time stamp that it leaves.
  unfoldable pub beat_all : List (K × ℕ) → Heartbeat K → Heartbeat K
  beat_all [] h = h
  beat_all ((uid, t) ∷ rest) h = beat_all rest (stamp uid t h)

  module _ (yes : K) (term_cb : Option (K → Option K)) where
    -- Who takes the place of a key whose beat is late; a timeout of 0 asks nobody.
    unfoldable pub ask : ℕ → K → Option K
    ask zero uid = some yes
    ask (suc t) uid = elim term_cb [ none ↦ none | some f ↦ f uid ]

    -- What follows: the kill, or the new key in place of the old one.
    unfoldable pub replace : ℕ → K → Option K → Heartbeat K → Watched K
    replace later uid none h = killed h
    replace later uid (some new) h =
        goes_on (record h { tstamps = insert new later (remove uid h.tstamps) })

    -- The body of the inner loop of `_watch`, for one key.
    unfoldable pub check : ℕ → ℕ → K → Heartbeat K → Watched K
    check now later uid h = elim (lookup uid h.tstamps) [
      | none ↦ goes_on h
      | some last ↦ elim h.timeout [
        | none ↦ crashed h
        | some t ↦ if ltb t (now - last) then replace later uid (ask t uid) h else goes_on h
      ]
    ]

    unfoldable pub and_then : (Heartbeat K → Watched K) → Watched K → Watched K
    and_then next (goes_on h) = next h
    and_then next (killed h) = killed h
    and_then next (crashed h) = crashed h

    -- The inner loop of `_watch` over the keys it saw. `beats` are the beats that arrive just before
    -- the check of a key, and `later` is the time just after it.
    unfoldable pub check_all : ℕ → (K → List (K × ℕ)) → (K → ℕ) → List K → Heartbeat K → Watched K
    check_all now beats later [] h = goes_on h
    check_all now beats later (uid ∷ uids) h =
        and_then (check_all now beats later uids)
          (check now (later uid) uid (beat_all (beats uid) h))

    -- A round of `_watch`, after its sleep.
    unfoldable pub watch_round : ℕ → (K → List (K × ℕ)) → (K → ℕ) → Heartbeat K → Watched K
    watch_round now beats later h = check_all now beats later (keys h.tstamps) h

  -- Whether a key has a time stamp, other than 0.
  unfoldable pub seen : Heartbeat K → K → Bool
  seen h uid = elim (lookup uid h.tstamps) [ none ↦ false | some t ↦ ltb 0 t ]

  -- The keys of the list that were not seen.
  unfoldable pub unseen : Heartbeat K → List K → List K
  unseen h [] = []
  unseen h (uid ∷ uids) = let rest = unseen h uids in if seen h uid then rest else uid ∷ rest

  -- The loop of `wait_startup`, over what other threads do between its looks and the times at which
  -- it looks. `none` is the loop that still waits; a list of keys is the result, empty for `None`.
  unfoldable pub wait_loop :
      Option ℕ → ℕ → List K → List ((Heartbeat K → Heartbeat K) × ℕ) → Heartbeat K → Option (List K)
  wait_loop timeout start uids [] h = none
  wait_loop timeout start uids ((others, now) ∷ rest) h =
      let h' = others h in
      let more = wait_loop timeout start uids rest h' in
      elim (unseen h' uids) [
        | [] ↦ some []
        | u ∷ us ↦ elim timeout [
          | none ↦ more
          | some t ↦ if ltb 0 t && ltb t (now - start) then some (u ∷ us) else more
        ]
      ]

  -- `wait_startup`; no keys stands for the default one.
  unfoldable pub wait_startup :
      K
      → Option ℕ
      → ℕ
      → List K
      → List ((Heartbeat K → Heartbeat K) × ℕ)
      → Heartbeat K
      → Option (List K)
  wait_startup default timeout start [] rounds h = wait_loop timeout start (default ∷ []) rounds h
  wait_startup default timeout start (uid ∷ uids) rounds h =
      wait_loop timeout start (uid ∷ uids) rounds h
