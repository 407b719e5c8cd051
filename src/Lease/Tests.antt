-- ===== src/Lease/Tests.antt =====
-- Runs of the lease manager, and its theorems at them.
use radical_utils.Prelude.{
  contains, ℕ, ◌≡◌, ◌≤◌, refl, true, false, Option, none, some, List, [], ◌∷◌, length, arith,
}
use radical_utils.Prelude.Eq.{string_eq}
use radical_utils.Prelude.Dict.{lookup, insert}
use radical_utils.Lease.{
  lease, lease_now, lease_wake, lease_in, create_if_none, scan_if_full, take_freed, or_later,
  wait_loop, wait_if_full, find_pool, announce, release_found, release,
}
use radical_utils.Lease.Objects.{
  LeaseObject, Pool, Limits, Manager, leased, full, update, init, or_default, limits_or_default,
  lease_object, release_object, initialize_pool, new_object, add_object, at_cap, create_object,
  same, list_remove, remove_object, continue, visit, scan, scan_free,
}
use radical_utils.Lease.Invariant.{IsValid, set_pool-IsValid}
use radical_utils.Lease.Release.{unlocked, Released, release_lem}
use radical_utils.Lease.Histories.{
  Call, leases, releases, step, run, start, Held, granted, returned, drop_holder, run-Held,
  run_bounded,
}
use radical_utils.Lease.Selection.{locked, first_usable, lease_now_chooses}
use radical_utils.Lease.Waiting.{IsFinal, lease-IsFinal}

program : Unit {0}
unfolding lease lease_now lease_wake lease_in create_if_none scan_if_full take_freed or_later
    wait_loop wait_if_full find_pool announce release_found release init or_default
    limits_or_default lease_object release_object initialize_pool new_object add_object at_cap
    create_object same list_remove remove_object continue visit scan scan_free step run start
    granted returned drop_holder lookup insert contains
program = tt

abbrev blank : ℕ → LeaseObject
blank uid = record { used = false; obj = 0; t_created = 0; t_leased = none; t_released = 0 }

abbrev maker : ℕ → Option ℕ
maker t = some t

abbrev history : List (ℕ × Call)
history =
    (1, leases "tcp" maker)
    ∷ (2, leases "tcp" maker)
    ∷ (3, releases 0 false)
    ∷ (4, leases "tcp" maker)
    ∷ []

-- The second lease finds the pool full, and the last one reuses the released object.
history_holders : (run (start (some 1) none none blank) history).holders ≡ 0 ∷ []
unfolding program
history_holders = refl

run-Held_example : let s = run (start (some 1) none none blank) history in Held s.manager s.holders
run-Held_example = run-Held (some 1) none none blank history

-- The pool after the history: its one object is leased, but the pool still offers it to waiters.
abbrev busy_pool : Pool
busy_pool = record { objects = 0 ∷ []; freed = some 0; event = true }

run_bounded_example : length busy_pool.objects ≤ 1
unfolding program
run_bounded_example =
    run_bounded (some 1) none none blank history "tcp" busy_pool refl (omega arith)

abbrev limits_of_two : Limits
limits_of_two = record { max_pool_size = 2; max_pool_wait = 60; max_obj_age = 100 }

abbrev empty_manager : Manager
empty_manager = record { heap = blank; next_uid = 0; pools = []; limits = limits_of_two }

empty_manager-IsValid : IsValid empty_manager
unfolding lookup
empty_manager-IsValid pid pool e = absurd (cc)

lease-IsFinal_example :
    IsFinal
      (lease "tcp" maker 5 (record { others = λ m. m; woke = 70; next = 80 } ∷ []) empty_manager).1
lease-IsFinal_example =
    lease-IsFinal "tcp" maker 5 (record { others = λ m. m; woke = 70; next = 80 } ∷ [])
      empty_manager empty_manager-IsValid ((λ m v. (v, refl)), tt) (omega arith)

abbrev two_pool : Pool
two_pool = record { objects = 0 ∷ 1 ∷ []; freed = none; event = false }

-- Object 0 is leased, and object 1 was created at time 50 and is free.
abbrev two_heap : ℕ → LeaseObject
two_heap =
    update blank 0
      (record { used = true; obj = 9; t_created = 40; t_leased = some 40; t_released = 40 })

abbrev two_manager : Manager
two_manager = record {
  heap =
      update two_heap 1
        (record { used = false; obj = 8; t_created = 50; t_leased = some 50; t_released = 60 });
  next_uid = 2;
  pools = ("tcp", two_pool) ∷ [];
  limits = limits_of_two;
}

lease_now_chooses_example :
    lease_now "tcp" maker 90 two_manager ≡ (locked 90 1 two_manager, leased 1)
unfolding program first_usable
lease_now_chooses_example = lease_now_chooses "tcp" maker 90 two_manager two_pool refl

-- Both objects are leased or too old: a third one is made, or the caller waits.
abbrev three_manager : Manager
three_manager = record two_manager {
  limits = record { max_pool_size = 3; max_pool_wait = 60; max_obj_age = 100 };
}

lease_creates :
    lease_now "tcp" maker 200 three_manager
    ≡ (add_object "tcp" two_pool 200 200 three_manager, leased 2)
unfolding program
lease_creates = refl

lease_waits : lease_now "tcp" maker 200 two_manager ≡ (two_manager, full)
unfolding program
lease_waits = refl

release_lem_example : Released 0 true 95 two_manager
unfolding program
release_lem_example = release_lem 0 true 95 two_manager

-- A pool of one, whose object is leased.
abbrev one_pool : Pool
one_pool = record { objects = 0 ∷ []; freed = none; event = false }

abbrev one_manager : Manager
one_manager = record {
  heap = two_heap;
  next_uid = 1;
  pools = ("tcp", one_pool) ∷ [];
  limits = limits_of_two;
}

one_manager-IsValid : IsValid one_manager
unfolding lookup insert
one_manager-IsValid =
    set_pool-IsValid (record one_manager { pools = [] }) "tcp" one_pool
      (record { below = (omega arith, tt); freed_below = tt; bounded = λ p. omega arith })
      (λ pid pool e. absurd (cc))

abbrev one_released : Manager
one_released = record (unlocked 95 0 one_manager) {
  pools = ("tcp", record one_pool { freed = some 0; event = true }) ∷ [];
}
