-- ===== src/Lease.antt =====
-- src/radical/utils/lease_manager.py: the calls of `LeaseManager`. `lease_now` and `lease_wake` are the
-- two locked sections of `lease`, `wait_loop` its loop, and `lease` the whole call.
pub mod Objects
pub mod Invariant
pub mod Effects
pub mod Release
pub mod Histories
pub mod Selection
pub mod Faults
pub mod Waiting
pub mod Tests
use radical_utils.Prelude.{
  contains, ℕ, ◌-◌, String, Bool, true, false, ◌||◌, Option, none, some, List, [], ◌∷◌, ltb, ◌==◌,
  if◌then◌else◌,
}
use radical_utils.Prelude.Eq.{string_eq}
use radical_utils.Prelude.Dict.{Dict, lookup, keys}
use Objects.{
  Pool, Manager, Reply, leased, raised, full, again, Result, ok, err, no_pool, stop_waiting,
  initialize_pool, create_object, list_remove, scan, scan_free, lease_object, release_object,
  set_pool,
}

-- What follows the scan: a new object, if the scan found none.
unfoldable pub create_if_none : String → (ℕ → Option ℕ) → ℕ → Manager × Reply → Manager × Reply
create_if_none pid creator now (m, again) = create_object pid creator now m
create_if_none pid creator now r = r

-- The first locked section of `lease`, once the pool is there.
unfoldable pub lease_in : String → (ℕ → Option ℕ) → ℕ → Manager → Manager × Reply
lease_in pid creator now m = elim (lookup pid m.pools) [
  | none ↦ (m, raised no_pool)
  | some pool ↦ create_if_none pid creator now (scan pid now pool.objects m)
]

-- The first locked section of `lease`. The reply is `full` where the caller has to wait.
unfoldable pub lease_now : String → (ℕ → Option ℕ) → ℕ → Manager → Manager × Reply
lease_now pid creator now m = lease_in pid creator now (initialize_pool pid m)

-- A deleted object left room; if the room is taken, any free object will do.
unfoldable pub scan_if_full : String → ℕ → Manager × Reply → Manager × Reply
scan_if_full pid now (m, full) = elim (lookup pid m.pools) [
  | none ↦ (m, raised no_pool)
  | some pool ↦ scan_free now pool.objects m
]
scan_if_full pid now r = r

-- The waiter that sees the event clears it, and takes what was freed: an object, or room for one.
unfoldable pub take_freed : String → (ℕ → Option ℕ) → ℕ → Pool → Manager → Manager × Reply
take_freed pid creator now pool m =
    let m' = set_pool pid (record pool { freed = none; event = false }) m in
    elim pool.freed [
      | none ↦ scan_if_full pid now (create_object pid creator now m')
      | some uid ↦ lease_object now uid m'
    ]

-- The locked section of the wait loop.
unfoldable pub lease_wake : String → (ℕ → Option ℕ) → ℕ → Manager → Manager × Reply
lease_wake pid creator now m = elim (lookup pid m.pools) [
  | none ↦ (m, raised no_pool)
  | some pool ↦ if pool.event then take_freed pid creator now pool m else (m, again)
]

-- One round of the wait: what the other threads do meanwhile, and the times at which the locked
-- section runs and at which the timer is read again.
pub record Round : Type 0 where
  pub others : Manager → Manager
  pub woke : ℕ
  pub next : ℕ

-- A reply ends the wait, unless it is `again`.
unfoldable pub or_later : (Manager → Manager × Reply) → Manager × Reply → Manager × Reply
or_later later (m, again) = later m
or_later later r = r

unfoldable pub wait_loop : String → (ℕ → Option ℕ) → ℕ → List Round → ℕ → Manager → Manager × Reply
wait_loop pid creator start [] now m =
    if ltb (now - start) m.max_pool_wait then (m, again) else (m, raised stop_waiting)
wait_loop pid creator start (r ∷ rs) now m =
    let later = wait_loop pid creator start rs r.next in
    if ltb (now - start) m.max_pool_wait
    then or_later later (lease_wake pid creator r.woke (r.others m))
    else (m, raised stop_waiting)

unfoldable pub wait_if_full : (Manager → Manager × Reply) → Manager × Reply → Manager × Reply
wait_if_full wait (m, full) = wait m
wait_if_full wait r = r

-- `lease`
unfoldable pub lease : String → (ℕ → Option ℕ) → ℕ → List Round → Manager → Manager × Reply
lease pid creator now rounds m =
    wait_if_full (wait_loop pid creator now rounds now) (lease_now pid creator now m)

-- The first pool that holds the instance, in the order of the dictionary.
unfoldable pub find_pool : ℕ → List String → Dict String Pool → Option (String × Pool)
find_pool uid [] pools = none
find_pool uid (pid ∷ pids) pools =
    let rest = find_pool uid pids pools in
    elim (lookup pid pools) [
      | none ↦ rest
      | some pool ↦ if contains uid pool.objects then some (pid, pool) else rest
    ]

-- The rest of `release`, once the object is found and unlocked. The pool's event wakes a waiter.
unfoldable pub announce : String → Pool → ℕ → Bool → Manager → Manager
announce pid pool uid delete m =
    if delete
    then elim (list_remove (some uid) pool.objects) [
      | none ↦ m
      | some rest ↦ set_pool pid (record { objects = rest; freed = none; event = true }) m
    ]
    else set_pool pid (record pool { freed = some uid; event = true }) m

-- What follows in `release` once the instance was searched for. What no pool holds is ignored.
unfoldable pub release_found : ℕ → Bool → ℕ → Manager → Option (String × Pool) → Result
release_found uid delete now m none = ok m
release_found uid delete now m (some (pid, pool)) = elim (release_object now uid m) [
  | err e ↦ err e
  | ok m' ↦ ok (announce pid pool uid delete m')
]

-- `release`
unfoldable pub release : ℕ → Bool → ℕ → Manager → Result
release uid delete now m = release_found uid delete now m (find_pool uid (keys m.pools) m.pools)
