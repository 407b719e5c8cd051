-- ===== src/Registry/Leases.antt =====
-- What a lease of the registry of registry.py does to the entry and to the lock of its entity.
use radical_utils.Prelude.{
  ℕ, suc, ◌-◌, ◌≡◌, refl, ap, ◌∙◌, String, true, false, ◌&&◌, not, some, List, [], ◌∷◌, arith, ltb,
}
use radical_utils.Prelude.Eq.{string_eq}
use radical_utils.Prelude.Dict.{lookup, lookup-insert, lookup-insert_self}
use radical_utils.Registry.{
  Around, lock_class, unlock_class, Mode, readonly, readwrite, Entry, Registry, done, gave, raised,
  deallocated, set_entry, set_locks, is_free, count_lease, try_acquire, lock_entity, after_try,
  acquire_loop, acquire, unlock_entity, drop_lease, release,
}

drop-count_lease :
    (mode : Mode) (e : Entry) → is_free mode e ≡ true → drop_lease (count_lease mode e) ≡ e
unfolding drop_lease count_lease is_free
drop-count_lease readonly e f =
    let some_left : ltb 0 (suc e.ro_leases) ≡ true = ground arith in
    let back : suc e.ro_leases - 1 ≡ e.ro_leases = omega arith in
    rw some_left (ap (λ n. record e { ro_leases = n }) back)
drop-count_lease readwrite e f =
    let no_reader : ltb 0 e.ro_leases ≡ false = ground arith in
    let back : suc e.rw_leases - 1 ≡ e.rw_leases = omega arith in
    rw no_reader (ap (λ n. record e { rw_leases = n }) back)

count_lease_leased :
    (mode : Mode) (e : Entry)
    → (not (ltb 0 (count_lease mode e).ro_leases) && not (ltb 0 (count_lease mode e).rw_leases))
      ≡ false
unfolding count_lease
count_lease_leased readonly e = ground arith
count_lease_leased readwrite e = ground arith

count_lease-entity : (mode : Mode) (e : Entry) → (count_lease mode e).entity ≡ e.entity
unfolding count_lease
count_lease-entity readonly e = refl
count_lease-entity readwrite e = refl

release_leased :
    (around : Around) (eid : String) (r : Registry) (e : Entry) (n : ℕ)
    → lookup eid r.entries ≡ some e
    → (not (ltb 0 e.ro_leases) && not (ltb 0 e.rw_leases)) ≡ false
    → around.alive e.entity ≡ true
    → around.theirs (around.class_of e.entity) ≡ false
    → r.locks (around.class_of e.entity) ≡ suc n
    → release around eid r
      ≡ (set_locks (around.class_of e.entity) n (set_entry eid (drop_lease e) r), done)
unfolding release unlock_entity unlock_class
release_leased around eid r e n there leased here ours locked =
    rw (there, release, leased, here, unlock_entity, ours, unlock_class, locked)

-- The registry in which one more lease is counted.
abbrev pub counted : String → Mode → Entry → Registry → Registry
counted eid mode e r = set_entry eid (count_lease mode e) r

-- The registry in which a lease is counted and the lock of the class `c` taken once more.
abbrev pub taken : ℕ → String → Mode → Entry → Registry → Registry
taken c eid mode e r = set_locks c (suc (r.locks c)) (counted eid mode e r)

-- Registries with the same entries and the same locks.
abbrev pub SameRegistry : Registry → Registry → Type 0
SameRegistry r r' =
    ((k : String) → lookup k r.entries ≡ lookup k r'.entries) × ((x : ℕ) → r.locks x ≡ r'.locks x)

module _ (around : Around) (eid : String) (mode : Mode) (rounds : List (Registry → Registry))
    (r : Registry) (e : Entry) (there : lookup eid r.entries ≡ some e)
    (free : is_free mode e ≡ true) where
  try_acquire_free : try_acquire eid mode r ≡ (counted eid mode e r, done)
  unfolding try_acquire
  try_acquire_free = rw (there, try_acquire, free)

  acquire_loop_free :
      (rounds : List (Registry → Registry))
      → acquire_loop around eid mode rounds r ≡ lock_entity around eid (counted eid mode e r)
  unfolding acquire_loop after_try
  acquire_loop_free [] = rw try_acquire_free
  acquire_loop_free (others ∷ rest) = rw try_acquire_free

  acquire_free : acquire around eid mode rounds r ≡ lock_entity around eid (counted eid mode e r)
  unfolding acquire
  acquire_free = rw (there, acquire) (acquire_loop_free rounds)

  found : lookup eid (counted eid mode e r).entries ≡ some (count_lease mode e)
  found = lookup-insert_self eid (count_lease mode e) r.entries

  restored : Registry
  restored =
      set_locks (around.class_of (count_lease mode e).entity) (r.locks (around.class_of e.entity)) (
        set_entry eid (drop_lease (count_lease mode e))
          (taken (around.class_of e.entity) eid mode e r))

  locked :
      around.alive e.entity ≡ true
      → around.theirs (around.class_of e.entity) ≡ false
      → lock_entity around eid (counted eid mode e r)
        ≡ (taken (around.class_of e.entity) eid mode e r, gave e.entity)
  unfolding lock_entity lock_class
  locked here ours = rw (found, lock_entity, count_lease-entity mode e, here, lock_class, ours)

  released :
      around.alive e.entity ≡ true
      → around.theirs (around.class_of e.entity) ≡ false
      → release around eid (taken (around.class_of e.entity) eid mode e r) ≡ (restored, done)
  unfolding restored
  released here ours =
      release_leased around eid (taken (around.class_of e.entity) eid mode e r) (count_lease mode e)
        (r.locks (around.class_of e.entity)) found (count_lease_leased mode e)
        (rw (count_lease-entity mode e) here) (rw (count_lease-entity mode e) ours)
        (ground (arith, count_lease-entity mode e))

  same : SameRegistry restored r
  unfolding restored
  same = (
    λ k. ground (
      arith,
      drop-count_lease mode e free,
      lookup-insert eid k (drop_lease (count_lease mode e)) (counted eid mode e r).entries,
      lookup-insert eid k (count_lease mode e) r.entries,
      string_eq.beq_iff eid k,
    ),
    λ x. ground (arith, count_lease-entity mode e),
  )

  -- If the entry is free for a lease, its entity is still there, and no other thread holds the
  -- lock of the entity's class, then the lease is given at once, and releasing it leaves the
  -- registry as it was: the same leases of every entry, and the same locks.
  pub acquire-release :
      around.alive e.entity ≡ true
      → around.theirs (around.class_of e.entity) ≡ false
      → (acquire around eid mode rounds r
          ≡ (taken (around.class_of e.entity) eid mode e r, gave e.entity))
        × (let (after, reply) =
              release around eid (taken (around.class_of e.entity) eid mode e r) in
            SameRegistry after r × (reply ≡ done))
  acquire-release here ours =
      (acquire_free ∙ locked here ours, rw (released here ours) (same, refl))

  -- If an entry is free for a lease but its entity is gone, `acquire` raises, and the lease stays
  -- counted.
  pub acquire_deallocated :
      around.alive e.entity ≡ false
      → acquire around eid mode rounds r ≡ (counted eid mode e r, raised deallocated)
  unfolding lock_entity
  acquire_deallocated gone = acquire_free ∙ rw (found, lock_entity, count_lease-entity mode e, gone)
