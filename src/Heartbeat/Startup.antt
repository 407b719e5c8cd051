-- ===== src/Heartbeat/Startup.antt =====
-- `wait_startup` of heartbeat.py.
use radical_utils.Prelude.{
  ℕ, ◌-◌, ◌<◌, ◌≡◌, refl, true, ◌&&◌, Option, some, List, [], ◌∷◌, ◌++◌, arith, ◌⊎◌, inl, inr, ltb,
  Bool-cases, List-cases,
}
use radical_utils.Prelude.Eq.{Eq}
use radical_utils.Heartbeat.{Heartbeat, unseen, wait_loop, wait_startup}

module _ {K : Type 0} ⦃e : Eq K⦄ where
  -- The states at which the loop looks.
  abbrev pub Looked : List ((Heartbeat K → Heartbeat K) × ℕ) → Heartbeat K → Heartbeat K → Type 0
  Looked [] h h' = ⊥
  Looked ((others, now) ∷ rest) h h' = (h' ≡ others h) ⊎ Looked rest (others h) h'

  -- The keys that are waited for.
  abbrev pub wanted : K → List K → List K
  wanted default [] = default ∷ []
  wanted default (uid ∷ uids) = uid ∷ uids

  -- What the loop returns.
  abbrev pub Answer :
      Option (List K) → List K → List ((Heartbeat K → Heartbeat K) × ℕ) → Heartbeat K → Type 0
  Answer result uids rounds h =
      (missing : List K) × (h' : Heartbeat K) × (result ≡ some missing)
      × (missing ≡ unseen h' uids)
      × Looked rounds h h'

  wait_loop_ends :
      (t start : ℕ) (uids : List K) (rounds : List ((Heartbeat K → Heartbeat K) × ℕ))
      (others : Heartbeat K → Heartbeat K) (now : ℕ) (h : Heartbeat K)
      → 0 < t
      → t < now - start
      → let all = rounds ++ (others, now) ∷ [] in
        Answer (wait_loop (some t) start uids all h) uids all h
  unfolding wait_loop
  wait_loop_ends t start uids [] others now h pos over =
      elim (List-cases (unseen (others h) uids)) [
        | inl nil ↦ ([], others h, rw (nil, wait_loop), rw nil, inl refl)
        | inr (u, us, more) ↦
            let expired : (ltb 0 t && ltb t (now - start)) ≡ true = ground arith in
            (u ∷ us, others h, rw (more, wait_loop, expired), rw more, inl refl)
      ]
  wait_loop_ends t start uids ((first, at_time) ∷ rest) others now h pos over =
      elim (List-cases (unseen (first h) uids)) [
        | inl nil ↦ ([], first h, rw (nil, wait_loop), rw nil, inl refl)
        | inr (u, us, more) ↦ elim (Bool-cases (ltb 0 t && ltb t (at_time - start))) [
          | inl expired ↦ (u ∷ us, first h, rw (more, wait_loop, expired), rw more, inl refl)
          | inr running ↦
              let (missing, h', found, which, looked) =
                wait_loop_ends t start uids rest others now (first h) pos over in
              (missing, h', rw (more, wait_loop, running) found, which, inr looked)
        ]
      ]

  -- With a timeout other than 0, `wait_startup` returns by the first look after the timeout has
  -- passed, whatever the other threads do, and what it returns are the keys not seen at one of
  -- its looks.
  pub wait_startup_ends :
      (default : K) (t start : ℕ) (uids : List K) (rounds : List ((Heartbeat K → Heartbeat K) × ℕ))
      (others : Heartbeat K → Heartbeat K) (now : ℕ) (h : Heartbeat K)
      → 0 < t
      → t < now - start
      → let all = rounds ++ (others, now) ∷ [] in
        Answer (wait_startup default (some t) start uids all h) (wanted default uids) all h
  unfolding wait_startup
  wait_startup_ends default t start [] rounds others now h pos over =
      wait_loop_ends t start (default ∷ []) rounds others now h pos over
  wait_startup_ends default t start (uid ∷ uids) rounds others now h pos over =
      wait_loop_ends t start (uid ∷ uids) rounds others now h pos over
