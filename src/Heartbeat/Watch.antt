-- ===== src/Heartbeat/Watch.antt =====
-- The rounds of the watcher of heartbeat.py.
use radical_utils.Prelude.{
  ℕ, suc, ◌-◌, ◌≤◌, ◌≡◌, refl, Bool, true, false, Option, none, some, List, [], ◌∷◌, ◌||◌, arith,
  ◌⊎◌, inl, inr, ltb, if◌then◌else◌, Bool-cases, Option-cases,
}
use mathlib.Core.Path.{subst}
use radical_utils.Prelude.Eq.{Eq}
use radical_utils.Prelude.Dict.{Dict, lookup, remove, keys, lookup-insert, lookup-remove}
use radical_utils.Heartbeat.{
  Heartbeat, Watched, goes_on, killed, crashed, stamp, beat_all, ask, replace, check, and_then,
  check_all, watch_round,
}

module _ {K : Type 0} ⦃e : Eq K⦄ where
  -- Whether the last beat of a key is older than this.
  unfoldable pub is_late : ℕ → ℕ → Heartbeat K → K → Bool
  is_late t now h uid = elim (lookup uid h.tstamps) [
    | none ↦ false
    | some last ↦ ltb t (now - last)
  ]

  unfoldable pub some_late : ℕ → ℕ → Heartbeat K → List K → Bool
  some_late t now h [] = false
  some_late t now h (uid ∷ uids) = is_late t now h uid || some_late t now h uids

  module _ (yes : K) (now : ℕ) (later : K → ℕ) (h : Heartbeat K) (t : ℕ)
      (limit : h.timeout ≡ some (suc t)) where
    check_decides :
        (uid : K)
        → check yes none now (later uid) uid h
          ≡ (if is_late (suc t) now h uid then killed h else goes_on h)
    unfolding check is_late ask replace
    check_decides uid = elim (Option-cases (lookup uid h.tstamps)) [
      | inl miss ↦ ground arith
      | inr (last, hit) ↦ elim (Bool-cases (ltb (suc t) (now - last))) [
        | inl late ↦ ground (arith)
        | inr fine ↦ ground (arith)
      ]
    ]

    check_all_decides :
        (uids : List K)
        → check_all yes none now (λ k. []) later uids h
          ≡ (if some_late (suc t) now h uids then killed h else goes_on h)
    unfolding check_all some_late beat_all and_then
    check_all_decides [] = refl
    check_all_decides (uid ∷ uids) = elim (Bool-cases (is_late (suc t) now h uid)) [
      | inl late ↦ rw (check_decides uid, late)
      | inr fine ↦ rw (check_decides uid, fine) (check_all_decides uids)
    ]

    -- A watcher with a timeout other than 0 and no callback, to which nobody beats meanwhile,
    -- kills the process in a round if some key's last beat is older than the timeout, and else
    -- changes nothing.
    pub watch_round_decides :
        watch_round yes none now (λ k. []) later h
        ≡ (if some_late (suc t) now h (keys h.tstamps) then killed h else goes_on h)
    unfolding watch_round
    watch_round_decides = check_all_decides (keys h.tstamps)

  -- Whether each beat of the list is recent.
  abbrev pub Recent : ℕ → ℕ → List (K × ℕ) → Type 0
  Recent t now [] = Unit {0}
  Recent t now ((k, s) ∷ rest) = (now - s ≤ t) × Recent t now rest

  has : K → List K → Bool
  has k [] = false
  has k (x ∷ xs) = e.beq x k || has k xs

  has-keys : (k : K) (s : ℕ) (m : Dict K ℕ) → lookup k m ≡ some s → has k (keys m) ≡ true
  unfolding has lookup
  has-keys k s [] h = absurd (cc)
  has-keys k s ((j, w) ∷ m) h = ground (arith, has-keys k s m)

  -- Every time stamp is recent, but for those of keys of the list.
  abbrev Fresh : ℕ → ℕ → List K → Heartbeat K → Type 0
  Fresh t now uids h =
      (h.timeout ≡ some t)
      × ((k : K) (s : ℕ) → lookup k h.tstamps ≡ some s → (has k uids ≡ true) ⊎ (now - s ≤ t))

  stamp-Fresh :
      (t now : ℕ) (uids : List K) (k : K) (s : ℕ) (h : Heartbeat K)
      → now - s ≤ t
      → Fresh t now uids h
      → Fresh t now uids (stamp k s h)
  unfolding stamp
  stamp-Fresh t now uids k s h near (limit, f) =
      (limit, λ j u hit. ground (arith, lookup-insert k j s h.tstamps, f j u))

  beat_all-Fresh :
      (t now : ℕ) (uids : List K) (beats : List (K × ℕ)) (h : Heartbeat K)
      → Recent t now beats
      → Fresh t now uids h
      → Fresh t now uids (beat_all beats h)
  unfolding beat_all
  beat_all-Fresh t now uids [] h r f = f
  beat_all-Fresh t now uids ((k, s) ∷ rest) h (near, r) f =
      beat_all-Fresh t now uids rest (stamp k s h) r (stamp-Fresh t now uids k s h near f)

  -- What holds of a round that goes on.
  abbrev IfGoesOn : (Heartbeat K → Type 0) → Watched K → Type 0
  IfGoesOn P (goes_on h) = P h
  IfGoesOn P (killed h) = Unit {0}
  IfGoesOn P (crashed h) = Unit {0}

  module _ (yes : K) (term_cb : Option (K → Option K)) (now t : ℕ) where
    replace-Fresh :
        (later : ℕ) (uid : K) (uids : List K) (new : Option K) (h : Heartbeat K)
        → now ≤ later
        → Fresh t now (uid ∷ uids) h
        → IfGoesOn (Fresh t now uids) (replace yes term_cb later uid new h)
    unfolding replace has
    replace-Fresh later uid uids none h le f = tt
    replace-Fresh later uid uids (some new) h le (limit, f) = (
      limit,
      λ j u hit. ground (
        arith,
        lookup-insert new j later (remove uid h.tstamps),
        lookup-remove uid j h.tstamps,
        f j u,
      ),
    )

    check-Fresh :
        (later : ℕ) (uid : K) (uids : List K) (h : Heartbeat K)
        → now ≤ later
        → Fresh t now (uid ∷ uids) h
        → IfGoesOn (Fresh t now uids) (check yes term_cb now later uid h)
    unfolding check has
    check-Fresh later uid uids h le (limit, f) = elim (Option-cases (lookup uid h.tstamps)) [
      | inl miss ↦ rw (miss, check) (limit, λ j u hit. ground (arith, f j u hit, e.beq_iff uid j))
      | inr (last, found) ↦ elim (Bool-cases (ltb t (now - last))) [
        | inl late ↦
            rw (found, check, limit, late)
              (replace-Fresh later uid uids (ask yes term_cb t uid) h le (limit, f))
        | inr fine ↦
            rw (found, check, limit, fine)
              (limit, λ j u hit. ground (arith, f j u hit, e.beq_iff uid j))
      ]
    ]

    and_then-IfGoesOn :
        (P Q : Heartbeat K → Type 0) (next : Heartbeat K → Watched K) (w : Watched K)
        → ((h : Heartbeat K) → P h → IfGoesOn Q (next h))
        → IfGoesOn P w
        → IfGoesOn Q (and_then yes term_cb next w)
    unfolding and_then
    and_then-IfGoesOn P Q next (goes_on h) k p = k h p
    and_then-IfGoesOn P Q next (killed h) k p = tt
    and_then-IfGoesOn P Q next (crashed h) k p = tt

    check_all-Fresh :
        (beats : K → List (K × ℕ)) (later : K → ℕ) (uids : List K) (h : Heartbeat K)
        → ((k : K) → Recent t now (beats k))
        → ((k : K) → now ≤ later k)
        → Fresh t now uids h
        → IfGoesOn (Fresh t now []) (check_all yes term_cb now beats later uids h)
    unfolding check_all
    check_all-Fresh beats later [] h r le f = f
    check_all-Fresh beats later (uid ∷ uids) h r le f =
        and_then-IfGoesOn (Fresh t now uids) (Fresh t now [])
          (check_all yes term_cb now beats later uids)
          (check yes term_cb now (later uid) uid (beat_all (beats uid) h))
          (λ h' f'. check_all-Fresh beats later uids h' r le f')
          (check-Fresh (later uid) uid uids (beat_all (beats uid) h) (le uid)
            (beat_all-Fresh t now (uid ∷ uids) (beats uid) h (r uid) f))

    -- After a round that goes on, no time stamp is older than the timeout, whatever the callback
    -- does with the late keys, if the beats that arrive meanwhile are recent.
    pub watch_round-Recent :
        (beats : K → List (K × ℕ)) (later : K → ℕ) (h h' : Heartbeat K)
        → h.timeout ≡ some t
        → ((k : K) → Recent t now (beats k))
        → ((k : K) → now ≤ later k)
        → watch_round yes term_cb now beats later h ≡ goes_on h'
        → (k : K) (s : ℕ) → lookup k h'.tstamps ≡ some s
        → now - s ≤ t
    unfolding watch_round has
    watch_round-Recent beats later h h' limit r le went k s hit =
        let f =
          check_all-Fresh beats later (keys h.tstamps) h r le
            (limit, λ j u there. inl (has-keys j u h.tstamps there)) in
        let f' = subst (IfGoesOn (Fresh t now [])) went f in ground (arith, f'.1 k s hit)
