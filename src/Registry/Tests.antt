-- ===== src/Registry/Tests.antt =====
-- Runs of the registry, and its theorems at them.
use radical_utils.Prelude.{◌≡◌, refl, true, false, none, List, [], ◌∷◌}
use radical_utils.Prelude.Dict.{lookup, insert, remove}
use radical_utils.Registry.{
  Around, set_entry, waits, lock_class, unlock_class, readonly, readwrite, Entry, Registry, gave,
  done, init, acquire, release, register, register_as, try_acquire, is_free, count_lease,
  lock_entity, after_try, acquire_loop, drop_lease, unlock_entity, unregister, unlock_leases,
  then_drop,
}
use radical_utils.Registry.Exclusion.{
  Section, registers, tries, locks, step, run, Exclusive, run-Exclusive,
}
use radical_utils.Registry.Leases.{taken, SameRegistry, acquire-release}

program : Unit {0}
unfolding init acquire release register register_as try_acquire is_free count_lease lock_entity
    lock_class unlock_class after_try acquire_loop drop_lease unlock_entity unregister unlock_leases
    then_drop step run lookup insert remove
program = tt

abbrev all_alive : Around
all_alive = record { alive = λ e. true; class_of = λ e. 0; theirs = λ c. false }

-- Another thread holds the lock.
abbrev all_locked : Around
all_locked = record all_alive { theirs = λ c. true }

abbrev sections : List (Around × Section)
sections =
    (all_alive, registers true none 7 "wl.1")
    ∷ (all_alive, tries "wl.1" readwrite)
    ∷ (all_alive, locks "wl.1")
    ∷ (all_alive, tries "wl.1" readonly)
    ∷ []

abbrev written : Entry
written = record { ro_leases = 0; rw_leases = 1; entity = 7 }

-- The reader has to wait for the writer.
run-Exclusive_example : Exclusive written
unfolding program
run-Exclusive_example = run-Exclusive sections "wl.1" written refl

abbrev idle : Entry
idle = record { ro_leases = 1; rw_leases = 0; entity = 7 }

abbrev shelf : Registry
shelf = record { entries = ("wl.1", idle) ∷ []; locks = λ e. 1 }

acquire-release_example :
    (acquire all_alive "wl.1" readonly [] shelf ≡ (taken 0 "wl.1" readonly idle shelf, gave 7))
    × (let (after, reply) = release all_alive "wl.1" (taken 0 "wl.1" readonly idle shelf) in
        SameRegistry after shelf × (reply ≡ done))
unfolding program
acquire-release_example =
    acquire-release all_alive "wl.1" readonly [] shelf idle refl refl refl refl

-- A registry with a reader and a writer is empty once the entity is unregistered.
unregistered : (unregister all_alive "wl.1" shelf).0.entries ≡ []
unfolding program
unregistered = refl

-- The lease is counted, and the call waits for the lock of the entity.
lock_waits :
    acquire all_locked "wl.1" readonly [] shelf
    ≡ (set_entry "wl.1" (record { ro_leases = 2; rw_leases = 0; entity = 7 }) shelf, waits)
unfolding program
lock_waits = refl
