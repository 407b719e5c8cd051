-- ===== src/Lease/Selection.antt =====
-- Which object `LeaseManager.lease` in lease_manager.py picks.
use radical_utils.Prelude.{
  ℕ, ◌-◌, ◌<◌, ◌≤◌, ◌≡◌, refl, ◌∙◌, String, true, false, Option, none, some, List, [], ◌∷◌, arith,
  inl, inr, ◌⊎◌, not, ◌&&◌, leb, ltb, length, ◌++◌, suc, if◌then◌else◌, Bool-cases, Option-cases,
}
use radical_utils.Prelude.Eq.{string_eq}
use radical_utils.Prelude.Dict.{lookup, insert}
use radical_utils.Lease.{lease_now, lease_in, create_if_none}
use radical_utils.Lease.Objects.{
  Pool, Manager, update, new_object, Reply, leased, raised, full, again, initialize_pool, visit,
  continue, scan, create_object, add_object, at_cap, lease_object, creator_failed,
}
use radical_utils.Lease.Effects.{remove_object_found}

-- What the scan passes over: an object that is leased or too old.
abbrev pub Skipped : Manager → ℕ → ℕ → Type 0
Skipped m now uid = ((m.heap uid).used ≡ true) ⊎ (m.max_obj_age < now - (m.heap uid).t_created)

-- The first object that is neither leased nor too old.
unfoldable pub first_usable : Manager → ℕ → List ℕ → Option ℕ
first_usable m now [] = none
first_usable m now (uid ∷ uids) =
    if not (m.heap uid).used && leb (now - (m.heap uid).t_created) m.max_obj_age
    then some uid
    else first_usable m now uids

-- The manager in which `uid` is leased at time `now`.
abbrev pub locked : ℕ → ℕ → Manager → Manager
locked now uid m = record m {
  heap = update m.heap uid (record (m.heap uid) { used = true; t_leased = some now });
}

-- The manager in which a new object that holds `a` ends the pool, and is leased at time `now`.
abbrev pub grown : String → Pool → ℕ → ℕ → Manager → Manager
grown pid pool now a m = record m {
  heap =
      update m.heap m.next_uid
        (record { used = true; obj = a; t_created = now; t_leased = some now; t_released = now });
  next_uid = suc m.next_uid;
  pools = insert pid (record pool { objects = pool.objects ++ m.next_uid ∷ [] }) m.pools;
}

-- What the creator of a pool with room comes to.
abbrev pub created : String → Pool → (ℕ → Option ℕ) → ℕ → Manager → Manager × Reply
created pid pool creator now m = elim (creator now) [
  | none ↦ (m, raised creator_failed)
  | some a ↦ (grown pid pool now a m, leased m.next_uid)
]

initialize_pool_found :
    (pid : String) (m : Manager) (pool : Pool)
    → lookup pid m.pools ≡ some pool
    → initialize_pool pid m ≡ m
unfolding initialize_pool
initialize_pool_found pid m pool e = rw (e, initialize_pool)

module _ (pid : String) (creator : ℕ → Option ℕ) (now : ℕ) (m : Manager) (pool : Pool)
    (there : lookup pid m.pools ≡ some pool) where
  visit-Skipped :
      (uid : ℕ) (next : Manager → Manager × Reply)
      → Skipped m now uid
      → visit pid now uid next m ≡ next m
  unfolding visit continue
  visit-Skipped uid next (inl t) = rw (t, visit)
  visit-Skipped uid next (inr old) = ground (arith, remove_object_found pid (some uid) m pool there)

  visit_usable :
      (uid : ℕ) (next : Manager → Manager × Reply)
      → (m.heap uid).used ≡ false
      → now - (m.heap uid).t_created ≤ m.max_obj_age
      → visit pid now uid next m ≡ lease_object now uid m
  unfolding visit continue
  visit_usable uid next f young = ground arith

  scan_first :
      (uids : List ℕ)
      → scan pid now uids m ≡ elim (first_usable m now uids) [
        | none ↦ (m, again)
        | some uid ↦ (locked now uid m, leased uid)
      ]
  unfolding scan first_usable lease_object
  scan_first [] = refl
  scan_first (uid ∷ uids) =
      elim (Bool-cases
        (not (m.heap uid).used && leb (now - (m.heap uid).t_created) m.max_obj_age)) [
          | inl y ↦
              let free : (m.heap uid).used ≡ false = ground arith in
              let young : now - (m.heap uid).t_created ≤ m.max_obj_age = ground arith in
              visit_usable uid (scan pid now uids) free young
              ∙ rw (y, first_usable, lease_object, free) refl
          | inr n ↦
              let skipped : Skipped m now uid = ground arith in
              visit-Skipped uid (scan pid now uids) skipped
              ∙ scan_first uids
              ∙ rw (n, first_usable) refl
        ]

  pub lease_now-scan :
      lease_now pid creator now m ≡ create_if_none pid creator now (scan pid now pool.objects m)
  unfolding lease_now lease_in
  lease_now-scan = rw (initialize_pool_found pid m pool there) (rw (lease_in, there))

  -- A lease on a pool that is there takes its first object that is neither leased nor too old:
  -- the reply names it, it is locked at this time, and all else stays. If there is none, and the
  -- pool has a cap and as many objects or more, the caller has to wait, and the manager stays as
  -- it was: what is too old keeps its place. Else the creator is called: the new object, leased
  -- at this time, joins the end of the pool, or the creator's exception is passed on.
  pub lease_now_chooses : lease_now pid creator now m ≡ elim (first_usable m now pool.objects) [
    | some uid ↦ (locked now uid m, leased uid)
    | none ↦
        if ltb 0 m.max_pool_size && leb m.max_pool_size (length pool.objects)
        then (m, full)
        else created pid pool creator now m
  ]
  unfolding create_if_none create_object add_object new_object at_cap
  lease_now_chooses = elim (Option-cases (first_usable m now pool.objects)) [
    | inr (uid, e) ↦ lease_now-scan ∙ rw (scan_first pool.objects, e) refl
    | inl e ↦
        elim (Bool-cases (ltb 0 m.max_pool_size && leb m.max_pool_size (length pool.objects))) [
          | inl cap_reached ↦
              lease_now-scan
              ∙ rw (scan_first pool.objects, e)
                  (rw (create_object, there, at_cap, cap_reached) refl)
          | inr room ↦
              lease_now-scan
              ∙ rw (scan_first pool.objects, e) (rw (create_object, there, at_cap, room) refl)
        ]
  ]
