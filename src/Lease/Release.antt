-- ===== src/Lease/Release.antt =====
-- `LeaseManager.release` in lease_manager.py.
use radical_utils.Prelude.{
  contains, ℕ, suc, ◌≡◌, ◌≢◌, refl, ap, ◌∙◌, String, Bool, true, false, ◌⊎◌, none, some, List, [],
  ◌∷◌, ◌++◌, arith, inl, inr, ◌==◌, Bool-cases, Option-cases, if◌then◌else◌, length, ◌<◌,
}
use mathlib.Core.Path.{subst}
use radical_utils.Prelude.Eq.{string_eq}
use radical_utils.Prelude.Dict.{Dict, keys, lookup}
use radical_utils.Lease.{find_pool, announce, release_found, release}
use radical_utils.Lease.Objects.{
  Pool, Manager, ok, err, not_leased, update, set_pool, list_remove, same, release_object,
}
use radical_utils.Lease.Invariant.{Below, PoolOk, IsValid, set_pool-IsValid, list_remove-Below}

-- The pool that `release` finds is in the dictionary and holds the instance.
pub find_pool_sound :
    (uid : ℕ) (pids : List String) (pools : Dict String Pool) (pid : String) (pool : Pool)
    → find_pool uid pids pools ≡ some (pid, pool)
    → (lookup pid pools ≡ some pool) × (contains uid pool.objects ≡ true)
unfolding find_pool
find_pool_sound uid [] pools pid pool e = absurd (cc)
find_pool_sound uid (p ∷ pids) pools pid pool e = elim (Option-cases (lookup p pools)) [
  | inl none_there ↦ find_pool_sound uid pids pools pid pool (ground arith)
  | inr (q, there) ↦ elim (Bool-cases (contains uid q.objects)) [
    | inl t ↦ (ground arith, ground arith)
    | inr f ↦ find_pool_sound uid pids pools pid pool (ground arith)
  ]
]

abbrev Among : String → List String → Type 0
Among pid [] = ⊥
Among pid (p ∷ pids) = (p ≡ pid) ⊎ Among pid pids

-- Where the search finds nothing, none of the pools holds the instance.
find_pool_complete :
    (uid : ℕ) (pids : List String) (pools : Dict String Pool) (pid : String) (pool : Pool)
    → find_pool uid pids pools ≡ none
    → Among pid pids
    → lookup pid pools ≡ some pool
    → contains uid pool.objects ≡ false
unfolding find_pool
find_pool_complete uid [] pools pid pool e h there = absurd h
find_pool_complete uid (p ∷ pids) pools pid pool e (inl match) there =
    let here : lookup p pools ≡ some pool = ap (λ i. lookup i pools) match ∙ there in ground arith
find_pool_complete uid (p ∷ pids) pools pid pool e (inr later) there =
    elim (Option-cases (lookup p pools)) [
      | inl none_there ↦ find_pool_complete uid pids pools pid pool (ground arith) later there
      | inr (q, other) ↦ find_pool_complete uid pids pools pid pool (ground arith) later there
    ]

keys-Among :
    (pid : String) (pools : Dict String Pool) (pool : Pool)
    → lookup pid pools ≡ some pool
    → Among pid (keys pools)
unfolding lookup
keys-Among pid [] pool there = absurd (cc)
keys-Among pid ((p, q) ∷ pools) pool there = elim (Bool-cases (string_eq.beq p pid)) [
  | inl same ↦ inl ((string_eq.beq_iff p pid).0 same)
  | inr other ↦ inr (keys-Among pid pools pool (rw other at there))
]

contains-Below : (x n : ℕ) (xs : List ℕ) → contains x xs ≡ true → Below n xs → x < n
unfolding contains
contains-Below x n [] e b = absurd (cc)
contains-Below x n (y ∷ ys) e b = ground (arith, contains-Below x n ys)

pub list_remove-contains :
    (x : ℕ) (xs : List ℕ)
    → contains x xs ≡ true
    → (ys : List ℕ) × (list_remove (some x) xs ≡ some ys) × (suc (length ys) ≡ length xs)
unfolding contains list_remove same
list_remove-contains x [] e = absurd (cc)
list_remove-contains x (y ∷ ys) e = elim (Bool-cases (x == y)) [
  | inl t ↦ (ys, ground arith, refl)
  | inr f ↦
      let (zs, hit, len) = list_remove-contains x ys (ground arith) in
      (y ∷ zs, ground arith, omega arith)
]

-- The pool that a release leaves behind.
abbrev pub Announced : ℕ → Bool → Pool → Pool → Type 0
Announced uid delete before after =
    (after.event ≡ true)
    × (if delete
        then (after.freed ≡ none)
          × (list_remove (some uid) before.objects ≡ some after.objects)
          × (suc (length after.objects) ≡ length before.objects)
        else (after.freed ≡ some uid) × (after.objects ≡ before.objects))

announce_lem :
    (pid : String) (pool : Pool) (uid : ℕ) (delete : Bool) (m : Manager)
    → contains uid pool.objects ≡ true
    → (after : Pool) × (announce pid pool uid delete m ≡ set_pool pid after m)
      × Announced uid delete pool after
unfolding announce
announce_lem pid pool uid true m held =
    let (rest, e, len) = list_remove-contains uid pool.objects held in
    (
      record { objects = rest; freed = none; event = true },
      rw (e, announce),
      (refl, (refl, e, len)),
    )
announce_lem pid pool uid false m held =
    (record pool { freed = some uid; event = true }, refl, (refl, (refl, refl)))

-- The manager in which `uid` is unlocked.
abbrev pub unlocked : ℕ → ℕ → Manager → Manager
unlocked now uid m = record m {
  heap = update m.heap uid (record (m.heap uid) { used = false; t_released = now });
}

release_object_held :
    (now uid : ℕ) (m : Manager)
    → (m.heap uid).used ≡ true
    → release_object now uid m ≡ ok (unlocked now uid m)
unfolding release_object
release_object_held now uid m t = simp (t)

release_object_free :
    (now uid : ℕ) (m : Manager)
    → (m.heap uid).used ≡ false
    → release_object now uid m ≡ err not_leased
unfolding release_object
release_object_free now uid m f = simp (f)

module _ (uid : ℕ) (delete : Bool) (now : ℕ) (m : Manager) where
  pub release_unknown :
      find_pool uid (keys m.pools) m.pools ≡ none → release uid delete now m ≡ ok m
  unfolding release release_found
  release_unknown e = rw e

  module _ (pid : String) (pool : Pool)
      (found : find_pool uid (keys m.pools) m.pools ≡ some (pid, pool)) where
    pub release_free : (m.heap uid).used ≡ false → release uid delete now m ≡ err not_leased
    unfolding release release_found
    release_free f = rw (found, release_found, release_object_free now uid m f)

    pub release_held :
        (m.heap uid).used ≡ true
        → (after : Pool) × (release uid delete now m ≡ ok (set_pool pid after (unlocked now uid m)))
          × Announced uid delete pool after
    unfolding release release_found
    release_held t =
        let held = (find_pool_sound uid (keys m.pools) m.pools pid pool found).1 in
        let (after, e, a) = announce_lem pid pool uid delete (unlocked now uid m) held in
        (after, rw (found, release_found, release_object_held now uid m t, e), a)

-- One list is the other without an entry that is the instance.
abbrev pub TakenOut : ℕ → List ℕ → List ℕ → Type 0
TakenOut uid before after =
    (front : List ℕ) × (back : List ℕ) × (before ≡ front ++ uid ∷ back) × (after ≡ front ++ back)

list_remove-TakenOut :
    (x : ℕ) (xs ys : List ℕ) → list_remove (some x) xs ≡ some ys → TakenOut x xs ys
unfolding list_remove same
list_remove-TakenOut x [] ys e = absurd (cc)
list_remove-TakenOut x (y ∷ xs) ys e = elim (Bool-cases (x == y)) [
  | inl t ↦
      let alike : y ≡ x = ground arith in
      let kept : ys ≡ xs = ground arith in ([], xs, ap (λ z. z ∷ xs) alike, kept)
  | inr f ↦ elim (Option-cases (list_remove (some x) xs)) [
    | inl missing ↦ absurd (ground arith)
    | inr (zs, found) ↦
        let (front, back, p, q) = list_remove-TakenOut x xs zs found in
        let kept : ys ≡ y ∷ zs = ground arith in
        (y ∷ front, back, ap (◌∷◌ y) p, kept ∙ ap (◌∷◌ y) q)
  ]
]

Announced-TakenOut :
    (uid : ℕ) (delete : Bool) (before after : Pool)
    → Announced uid delete before after
    → if delete then TakenOut uid before.objects after.objects else (after.objects ≡ before.objects)
Announced-TakenOut uid true before after (_, (f, e, len)) =
    list_remove-TakenOut uid before.objects after.objects e
Announced-TakenOut uid false before after (_, (f, e)) = e

-- The pool of this name holds the instance.
abbrev pub Holds : ℕ → Manager → String → Pool → Type 0
Holds uid m pid pool = (lookup pid m.pools ≡ some pool) × (contains uid pool.objects ≡ true)

-- No pool holds the instance.
abbrev pub IsUnheld : ℕ → Manager → Type 0
IsUnheld uid m =
    (pid : String) (pool : Pool)
    → lookup pid m.pools ≡ some pool
    → contains uid pool.objects ≡ false

-- What becomes of a leased instance that a pool holds.
abbrev pub Unlocked : ℕ → Bool → ℕ → Manager → String → Pool → Type 0
Unlocked uid delete now m pid pool =
    (after : Pool) × (release uid delete now m ≡ ok (set_pool pid after (unlocked now uid m)))
    × Announced uid delete pool after
    × (if delete then TakenOut uid pool.objects after.objects else (after.objects ≡ pool.objects))

-- What a release does to an instance that no pool holds, or that a pool holds.
abbrev pub Released : ℕ → Bool → ℕ → Manager → Type 0
Released uid delete now m =
    IsUnheld uid m × (release uid delete now m ≡ ok m)
    ⊎ (pid : String) × (pool : Pool) × Holds uid m pid pool
      × (((m.heap uid).used ≡ false) × (release uid delete now m ≡ err not_leased)
          ⊎ ((m.heap uid).used ≡ true) × Unlocked uid delete now m pid pool)

-- A release on each of its branches. An instance that no pool holds is ignored. Otherwise there
-- is a pool that holds it: if it is not leased, the release raises; a leased one is unlocked and
-- the pool's event set, and the pool then offers the object and keeps its objects, or, on a
-- deletion, has them without one entry of the instance, and offers none.
pub release_lem : (uid : ℕ) (delete : Bool) (now : ℕ) (m : Manager) → Released uid delete now m
release_lem uid delete now m = elim (Option-cases (find_pool uid (keys m.pools) m.pools)) [
  | inl missing ↦ inl (
    λ pid pool there.
        find_pool_complete uid (keys m.pools) m.pools pid pool missing
          (keys-Among pid m.pools pool there) there,
    release_unknown uid delete now m missing,
  )
  | inr ((pid, pool), found) ↦
      let holds = find_pool_sound uid (keys m.pools) m.pools pid pool found in
      elim (Bool-cases (m.heap uid).used) [
        | inr f ↦ inr (pid, pool, holds, inl (f, release_free uid delete now m pid pool found f))
        | inl t ↦
            let (after, done, announced) = release_held uid delete now m pid pool found t in
            let rest = Announced-TakenOut uid delete pool after announced in
            inr (pid, pool, holds, inr (t, (after, done, announced, rest)))
      ]
]

-- Releasing keeps the pools valid and touches no other object.
abbrev pub Frame : ℕ → Manager → Manager → Type 0
Frame uid m m' =
    IsValid m'
    × (m'.next_uid ≡ m.next_uid)
    × (m'.limits ≡ m.limits)
    × ((v : ℕ) → v ≢ uid → (m'.heap v).used ≡ (m.heap v).used)

Announced-IsValid :
    (uid : ℕ) (delete : Bool) (now : ℕ) (m : Manager) (pid : String) (pool after : Pool)
    → IsValid m
    → PoolOk m.next_uid m.max_pool_size pool
    → contains uid pool.objects ≡ true
    → Announced uid delete pool after
    → IsValid (set_pool pid after (unlocked now uid m))
Announced-IsValid uid true now m pid pool after v h held (_, (f, e, len)) =
    let kept = list_remove-Below m.next_uid (some uid) pool.objects after.objects e h.below in
    set_pool-IsValid (unlocked now uid m) pid after
      (record { below = kept.0; freed_below = rw f tt; bounded = λ p. omega (arith, h.bounded p) })
      v
Announced-IsValid uid false now m pid pool after v h held (_, (f, e)) =
    set_pool-IsValid (unlocked now uid m) pid after
      (record {
        below = rw e h.below;
        freed_below = rw f (contains-Below uid m.next_uid pool.objects held h.below);
        bounded = λ p. rw e (h.bounded p);
      })
      v

pub release-Frame :
    (uid : ℕ) (delete : Bool) (now : ℕ) (m m' : Manager)
    → IsValid m
    → release uid delete now m ≡ ok m'
    → Frame uid m m'
release-Frame uid delete now m m' v e = elim (Option-cases (find_pool uid (keys m.pools) m.pools)) [
  | inl missing ↦
      subst (Frame uid m) {x = m} {y = m'}
        (ground (arith, release_unknown uid delete now m missing)) (v, refl, refl, λ w h. refl)
  | inr ((pid, pool), found) ↦ elim (Bool-cases (m.heap uid).used) [
    | inr f ↦ absurd (cc (release_free uid delete now m pid pool found f))
    | inl t ↦
        let (after, e', a) = release_held uid delete now m pid pool found t in
        let (there, held) = find_pool_sound uid (keys m.pools) m.pools pid pool found in
        subst (Frame uid m) {x = set_pool pid after (unlocked now uid m)} {y = m'} (ground arith) (
          Announced-IsValid uid delete now m pid pool after v (v pid pool there) held a,
          refl,
          refl,
          λ w h. ground arith,
        )
  ]
]
