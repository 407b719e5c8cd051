-- ===== src/Registry.antt =====
-- src/radical/utils/registry.py: `_Registry`. An entity is referred to by a number. Its lock is the one
-- of its class, of which `locks` counts how often its owner has taken it. Each
-- section under the registry's lock is one function; a call that waits is run on the list of what
-- the other threads do between its tries.
pub mod Exclusion
pub mod Leases
pub mod Tests
use radical_utils.Prelude.{
  ℕ, zero, suc, ◌+◌, ◌-◌, String, Bool, true, false, ◌||◌, ◌&&◌, not, Option, none, some, List, [],
  ◌∷◌, leb, ltb, ◌==◌, if◌then◌else◌,
}
use text.Mathlib.Text.{◌==◌ as str_eq}
use radical_utils.Prelude.Eq.{string_eq}
use radical_utils.Prelude.Dict.{Dict, lookup, insert, remove}

pub data Mode : Type 0 where
  readonly readwrite : Mode

pub record Entry : Type 0 where
  pub ro_leases : ℕ
  pub rw_leases : ℕ
  pub entity : ℕ

pub record Registry : Type 0 where
  pub entries : Dict String Entry
  pub locks : ℕ → ℕ

pub data Error : Type 0 where
  not_lockable unidentified already_registered not_registered not_acquired deallocated not_locked :
      Error

-- How a call, or a try of one, ends.
pub data Reply : Type 0 where
  done waits : Reply
  gave : ℕ → Reply
  raised : Error → Reply

-- What a section finds around it: which weak references still lead to their entity, the class of an
-- entity, and the classes whose lock another thread holds.
pub record Around : Type 0 where
  pub alive : ℕ → Bool
  pub class_of : ℕ → ℕ
  pub theirs : ℕ → Bool

-- `__init__`
unfoldable pub init : Registry
init = record { entries = []; locks = λ c. 0 }

abbrev pub set_entry : String → Entry → Registry → Registry
set_entry eid e r = record r { entries = insert eid e r.entries }

abbrev pub set_locks : ℕ → ℕ → Registry → Registry
set_locks c n r = record r { locks = λ d. if d == c then n else r.locks d }

-- The rest of `register`, once the id is known.
unfoldable pub register_as : ℕ → String → Registry → Registry × Reply
register_as entity eid r = elim (lookup eid r.entries) [
  | some _ ↦ (r, raised already_registered)
  | none ↦ (set_entry eid (record { ro_leases = 0; rw_leases = 0; entity = entity }) r, done)
]

-- `register`; `id` is the entity's own id, if it has one, and an empty `eid` is none.
unfoldable pub register : Bool → Option String → ℕ → String → Registry → Registry × Reply
register lockable id entity eid r =
    if not lockable
    then (r, raised not_lockable)
    else if str_eq eid ""
    then elim id [ none ↦ (r, raised unidentified) | some own ↦ register_as entity own r ]
    else register_as entity eid r

-- Whether an entry is free for a mode.
unfoldable pub is_free : Mode → Entry → Bool
is_free readonly e = not (ltb 0 e.rw_leases)
is_free readwrite e = not (ltb 0 e.rw_leases || ltb 0 e.ro_leases)

unfoldable pub count_lease : Mode → Entry → Entry
count_lease readonly e = record e { ro_leases = suc e.ro_leases }
count_lease readwrite e = record e { rw_leases = suc e.rw_leases }

-- The locked section of `acquire`.
unfoldable pub try_acquire : String → Mode → Registry → Registry × Reply
try_acquire eid mode r = elim (lookup eid r.entries) [
  | none ↦ (r, raised not_registered)
  | some e ↦ if is_free mode e then (set_entry eid (count_lease mode e) r, done) else (r, waits)
]

-- `entity.lock()`, which waits while another thread holds the lock.
unfoldable pub lock_class : Around → ℕ → Registry → Registry × Reply
lock_class around entity r =
    let c = around.class_of entity in
    if around.theirs c then (r, waits) else (set_locks c (suc (r.locks c)) r, gave entity)

-- What follows in `acquire`, with the lock of the entity. The lease is counted already if it waits.
unfoldable pub lock_entity : Around → String → Registry → Registry × Reply
lock_entity around eid r = elim (lookup eid r.entries) [
  | none ↦ (r, raised not_registered)
  | some e ↦ if around.alive e.entity then lock_class around e.entity r else (r, raised deallocated)
]

-- What follows a try: the entity's lock, an exception, or the next try.
unfoldable pub after_try :
    Around → String → (Registry → Registry × Reply) → Registry × Reply → Registry × Reply
after_try around eid later (r, done) = lock_entity around eid r
after_try around eid later (r, waits) = later r
after_try around eid later (r, gave e) = (r, gave e)
after_try around eid later (r, raised e) = (r, raised e)

-- The loop of `acquire`; it still waits when the list ends.
unfoldable pub acquire_loop :
    Around → String → Mode → List (Registry → Registry) → Registry → Registry × Reply
acquire_loop around eid mode [] r = after_try around eid (λ r. (r, waits)) (try_acquire eid mode r)
acquire_loop around eid mode (others ∷ rest) r =
    after_try around eid (λ r. acquire_loop around eid mode rest (others r))
      (try_acquire eid mode r)

-- `acquire`
unfoldable pub acquire :
    Around → String → Mode → List (Registry → Registry) → Registry → Registry × Reply
acquire around eid mode rounds r = elim (lookup eid r.entries) [
  | none ↦ (r, raised not_registered)
  | some _ ↦ acquire_loop around eid mode rounds r
]

-- `entity.unlock()`; a lock that this thread does not hold raises.
unfoldable pub unlock_class : Around → ℕ → Registry → Registry × Reply
unlock_class around c r =
    if around.theirs c
    then (r, raised not_locked)
    else elim (r.locks c) [ zero ↦ (r, raised not_locked) | suc n ↦ (set_locks c n r, done) ]

unfoldable pub unlock_entity : Around → ℕ → Registry → Registry × Reply
unlock_entity around entity r = unlock_class around (around.class_of entity) r

-- The entry without one of its leases; a read lease goes first.
unfoldable pub drop_lease : Entry → Entry
drop_lease e =
    if ltb 0 e.ro_leases
    then record e { ro_leases = e.ro_leases - 1 }
    else record e { rw_leases = e.rw_leases - 1 }

-- `release`
unfoldable pub release : Around → String → Registry → Registry × Reply
release around eid r = elim (lookup eid r.entries) [
  | none ↦ (r, raised not_registered)
  | some e ↦
      let r' = set_entry eid (drop_lease e) r in
      if not (ltb 0 e.ro_leases) && not (ltb 0 e.rw_leases)
      then (r, raised not_acquired)
      else if around.alive e.entity
      then unlock_entity around e.entity r'
      else (r', raised deallocated)
]

-- The rest of a loop of `unregister` after an unlock, which may raise.
unfoldable pub then_drop : (Registry → Registry × Reply) → Registry × Reply → Registry × Reply
then_drop next (r, done) = next r
then_drop next (r, waits) = (r, waits)
then_drop next (r, gave e) = (r, gave e)
then_drop next (r, raised e) = (r, raised e)

-- The loops of `unregister`, over this many leases of an entry.
unfoldable pub unlock_leases : Around → ℕ → String → Entry → Registry → Registry × Reply
unlock_leases around zero eid e r = (r, done)
unlock_leases around (suc n) eid e r =
    let e' = drop_lease e in
    then_drop (λ r'. unlock_leases around n eid e' (set_entry eid e' r'))
      (unlock_entity around e.entity r)

-- `unregister`
unfoldable pub unregister : Around → String → Registry → Registry × Reply
unregister around eid r = elim (lookup eid r.entries) [
  | none ↦ (r, raised not_registered)
  | some e ↦
      if around.alive e.entity
      then then_drop (λ r'. (record r' { entries = remove eid r'.entries }, done))
          (unlock_leases around (e.ro_leases + e.rw_leases) eid e r)
      else (r, raised deallocated)
]
