-- ===== src/Lease/Faults.antt =====
-- Sequences of calls of lease_manager.py in which an object is released twice, or leased while another
-- thread still waits.
use mathlib.Core.Path.{subst}
use radical_utils.Prelude.{
  ℕ, ◌≡◌, refl, String, Bool, true, false, Option, none, some, List, [], ◌∷◌, ◌++◌, arith, inl, inr,
  Bool-cases, Option-cases,
}
use radical_utils.Prelude.Eq.{string_eq}
use radical_utils.Prelude.Dict.{
  Dict, keys, lookup, insert, lookup-insert, lookup-insert_self, keys-insert,
}
use radical_utils.Lease.{lease_now, lease_wake, create_if_none, take_freed, find_pool, release}
use radical_utils.Lease.Objects.{
  LeaseObject, Limits, Pool, Manager, Reply, leased, raised, full, again, ok, err, already_leased,
  not_leased, set_pool, lease_object, scan, create_object, add_object, at_cap,
}
use radical_utils.Lease.Release.{
  find_pool_sound, release_free, release_held, release-Frame, unlocked,
}
use radical_utils.Lease.Effects.{Safe, visit_cases, lease_now-Safe}
use radical_utils.Lease.Invariant.{IsValid}
use radical_utils.Lease.Selection.{lease_now-scan}

-- Whether the event of a pool is set, with this object as the one that was freed.
abbrev pub Pending : String → ℕ → Manager → Type 0
Pending pid uid m =
    (p : Pool) × (lookup pid m.pools ≡ some p) × (p.event ≡ true) × (p.freed ≡ some uid)

-- An object that still is in a pool is found again.
find_pool_again :
    (uid : ℕ) (pids : List String) (pools : Dict String Pool) (pid : String) (pool after : Pool)
    → lookup pid pools ≡ some pool
    → after.objects ≡ pool.objects
    → find_pool uid pids (insert pid after pools) ≡ none
    → find_pool uid pids pools ≡ none
unfolding find_pool
find_pool_again uid [] pools pid pool after there e h = refl
find_pool_again uid (p ∷ pids) pools pid pool after there e h = ground (
  arith,
  lookup-insert pid p after pools,
  string_eq.beq_iff pid p,
  find_pool_again uid pids pools pid pool after there e,
)

scan-pools :
    (pid : String) (now : ℕ) (m : Manager) (uids : List ℕ) → (scan pid now uids m).0.pools ≡ m.pools
unfolding scan lease_object
scan-pools pid now m [] = refl
scan-pools pid now m (uid ∷ uids) =
    visit_cases (λ r. r.0.pools ≡ m.pools) pid now uid (scan pid now uids) m
      (scan-pools pid now m uids) refl (ground arith)

create_object-Pending :
    (pid : String) (creator : ℕ → Option ℕ) (now uid : ℕ) (m : Manager)
    → Pending pid uid m
    → Pending pid uid (create_object pid creator now m).0
unfolding create_object add_object
create_object-Pending pid creator now uid m (p, there, ev, fr) = elim (Bool-cases (at_cap m p)) [
  | inl t ↦ rw (create_object, there, t) (p, there, ev, fr)
  | inr f ↦ elim (Option-cases (creator now)) [
    | inl c ↦ rw (create_object, there, f, c) (p, there, ev, fr)
    | inr (a, c) ↦
        rw (create_object, there, f, c)
          (
            record p { objects = p.objects ++ m.next_uid ∷ [] },
            lookup-insert_self pid _ m.pools,
            ev,
            fr,
          )
  ]
]

create_if_none-Pending :
    (pid : String) (creator : ℕ → Option ℕ) (now uid : ℕ) (r : Manager × Reply)
    → Pending pid uid r.0
    → Pending pid uid (create_if_none pid creator now r).0
unfolding create_if_none
create_if_none-Pending pid creator now uid (m, again) h =
    create_object-Pending pid creator now uid m h
create_if_none-Pending pid creator now uid (m, leased v) h = h
create_if_none-Pending pid creator now uid (m, raised e) h = h
create_if_none-Pending pid creator now uid (m, full) h = h

lease_now-Pending :
    (pid : String) (creator : ℕ → Option ℕ) (now uid : ℕ) (m : Manager)
    → Pending pid uid m
    → Pending pid uid (lease_now pid creator now m).0
lease_now-Pending pid creator now uid m (p, there, ev, fr) =
    rw (lease_now-scan pid creator now m p there) (
      create_if_none-Pending pid creator now uid (scan pid now p.objects m)
        (p, rw (scan-pools pid now m p.objects) there, ev, fr))

-- A thread that waits for pool `pid` after `uid` was released and leased again by another call is
-- given an exception, not an object.
pub lease_wake_stale :
    (pid : String) (creator : ℕ → Option ℕ) (now uid : ℕ) (m : Manager)
    → Pending pid uid m
    → (m.heap uid).used ≡ true
    → (lease_wake pid creator now m).1 ≡ raised already_leased
unfolding lease_wake take_freed lease_object
lease_wake_stale pid creator now uid m (p, there, ev, fr) used =
    rw (lease_wake, there, ev, take_freed, fr, lease_object, used)

leased-used :
    (h : ℕ → LeaseObject) (n : ℕ) (l : Limits) (m : Manager) (uid : ℕ)
    → Safe h n l (m, leased uid)
    → (m.heap uid).used ≡ true
leased-used h n l m uid (_, (_, used), _) = ground (arith, used uid)

module _ (uid now : ℕ) (m : Manager) (pid : String) (pool : Pool)
    (found : find_pool uid (keys m.pools) m.pools ≡ some (pid, pool))
    (used : (m.heap uid).used ≡ true) where
  -- After a leased object of a pool was given back, a second release of it raises, though the
  -- code means to ignore double releases.
  pub release_twice :
      {m' : Manager} (delete : Bool) (later : ℕ)
      → release uid false now m ≡ ok m'
      → release uid delete later m' ≡ err not_leased
  release_twice {m'} delete later e =
      let (after, e', (ev, (fr, same_objects))) =
        release_held uid false now m pid pool found used in
      let m₁ = set_pool pid after (unlocked now uid m) in
      let there = (find_pool_sound uid (keys m.pools) m.pools pid pool found).0 in
      let e₁ : m₁ ≡ m' = ground arith in
      subst (λ k. release uid delete later k ≡ err not_leased) e₁
        (elim (Option-cases (find_pool uid (keys m₁.pools) m₁.pools)) [
          | inl missing ↦ absurd (
              cc (
                found,
                find_pool_again uid (keys m.pools) m.pools pid pool after there same_objects
                    (rw (← keys-insert pid after pool m.pools there) missing),
              ))
          | inr ((p, q), refound) ↦ release_free uid delete later m₁ p q refound (ground arith)
        ])

  -- A released object stays pending for its pool until a waiter sees the event.
  release-Pending : {m' : Manager} → release uid false now m ≡ ok m' → Pending pid uid m'
  release-Pending {m'} e =
      let (after, e', (ev, (fr, same_objects))) =
        release_held uid false now m pid pool found used in
      subst (Pending pid uid) {x = set_pool pid after (unlocked now uid m)} {y = m'} (ground arith)
        (after, lookup-insert_self pid after m.pools, ev, fr)

  -- After a leased object of a valid manager was released, and leased again by the next call on
  -- its pool, a thread that waits on that pool is given an exception, since the pool still offers
  -- it the leased object.
  pub lease_wake_after_lease :
      {m₁ m₂ : Manager} (creator : ℕ → Option ℕ) (t₁ t₂ : ℕ)
      → IsValid m
      → release uid false now m ≡ ok m₁
      → lease_now pid creator t₁ m₁ ≡ (m₂, leased uid)
      → (lease_wake pid creator t₂ m₂).1 ≡ raised already_leased
  lease_wake_after_lease {m₁} {m₂} creator t₁ t₂ v e₁ e₂ =
      lease_wake_stale pid creator t₂ uid m₂
        (subst (λ r. Pending pid uid r.0) e₂
          (lease_now-Pending pid creator t₁ uid m₁ (release-Pending e₁)))
        (leased-used m₁.heap m₁.next_uid m₁.limits m₂ uid (
          subst (Safe m₁.heap m₁.next_uid m₁.limits) e₂
            (lease_now-Safe pid creator t₁ m₁ (release-Frame uid false now m m₁ v e₁).0)))
