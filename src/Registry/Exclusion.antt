-- ===== src/Registry/Exclusion.antt =====
-- The read and write leases of registry.py over any history of its sections.
use radical_utils.Prelude.{
  ℕ, zero, suc, ◌+◌, ◌≤◌, ◌≡◌, refl, String, Bool, true, false, ◌&&◌, not, Option, none, some, List,
  [], ◌∷◌, arith, ◌⊎◌, inl, inr, ltb, Bool-cases, Option-cases,
}
use text.Mathlib.Text.{◌==◌ as str_eq}
use radical_utils.Prelude.Eq.{string_eq}
use radical_utils.Prelude.Dict.{Dict, lookup, insert, remove}
use radical_utils.Registry.{
  Around, lock_class, unlock_class, Mode, readonly, readwrite, Entry, Registry, Reply, done, waits,
  gave, raised, init, set_entry, register_as, register, is_free, count_lease, try_acquire,
  lock_entity, unlock_entity, drop_lease, release, then_drop, unlock_leases, unregister,
}

-- At most one write lease, and none beside read leases.
abbrev pub Exclusive : Entry → Type 0
Exclusive e = (e.rw_leases ≤ 1) × ((e.rw_leases ≡ 0) ⊎ (e.ro_leases ≡ 0))

abbrev AllExclusive : Dict String Entry → Type 0
AllExclusive [] = Unit {0}
AllExclusive ((k, e) ∷ m) = Exclusive e × AllExclusive m

lookup-Exclusive :
    (k : String) (m : Dict String Entry) (e : Entry)
    → AllExclusive m
    → lookup k m ≡ some e
    → Exclusive e
unfolding lookup
lookup-Exclusive k [] e v h = absurd (cc)
lookup-Exclusive k ((j, w) ∷ m) e v h = elim (Bool-cases (string_eq.beq j k)) [
  | inl t ↦ let same : w ≡ e = ground (arith) in rw (← same) v.0
  | inr f ↦ lookup-Exclusive k m e v.1 (ground arith)
]

insert-AllExclusive :
    (k : String) (e : Entry) (m : Dict String Entry)
    → Exclusive e
    → AllExclusive m
    → AllExclusive (insert k e m)
unfolding insert
insert-AllExclusive k e [] x v = (x, tt)
insert-AllExclusive k e ((j, w) ∷ m) x v = elim (Bool-cases (string_eq.beq j k)) [
  | inl t ↦ rw t (x, v.1)
  | inr f ↦ rw f (v.0, insert-AllExclusive k e m x v.1)
]

remove-AllExclusive :
    (k : String) (m : Dict String Entry) → AllExclusive m → AllExclusive (remove k m)
unfolding remove
remove-AllExclusive k [] v = tt
remove-AllExclusive k ((j, w) ∷ m) v = elim (Bool-cases (string_eq.beq j k)) [
  | inl t ↦ rw t (remove-AllExclusive k m v.1)
  | inr f ↦ rw f (v.0, remove-AllExclusive k m v.1)
]

-- An entry that is free for a mode has room for a lease in it.
count_lease-Exclusive :
    (mode : Mode) (e : Entry) → is_free mode e ≡ true → Exclusive e → Exclusive (count_lease mode e)
unfolding is_free count_lease
count_lease-Exclusive readonly e f x = (x.0, inl (ground arith))
count_lease-Exclusive readwrite e f x = (ground arith, inr (ground arith))

drop_lease-Exclusive : (e : Entry) → Exclusive e → Exclusive (drop_lease e)
unfolding drop_lease
drop_lease-Exclusive e (one, inl none_rw) = elim (Bool-cases (ltb 0 e.ro_leases)) [
  | inl t ↦ rw t (one, inl none_rw)
  | inr f ↦ rw f (omega arith, inl (omega arith))
]
drop_lease-Exclusive e (one, inr none_ro) = elim (Bool-cases (ltb 0 e.ro_leases)) [
  | inl t ↦ rw t (one, inr (omega arith))
  | inr f ↦ rw f (omega arith, inr none_ro)
]

register_as-AllExclusive :
    (entity : ℕ) (eid : String) (r : Registry)
    → AllExclusive r.entries
    → AllExclusive (register_as entity eid r).0.entries
unfolding register_as
register_as-AllExclusive entity eid r v = elim (Option-cases (lookup eid r.entries)) [
  | inl e ↦ rw (e, register_as) (insert-AllExclusive eid _ r.entries (omega arith, inl refl) v)
  | inr (_, e) ↦ rw (e, register_as) v
]

register-AllExclusive :
    (lockable : Bool) (id : Option String) (entity : ℕ) (eid : String) (r : Registry)
    → AllExclusive r.entries
    → AllExclusive (register lockable id entity eid r).0.entries
unfolding register
register-AllExclusive false id entity eid r v = v
register-AllExclusive true none entity eid r v = elim (Bool-cases (str_eq eid "")) [
  | inl t ↦ rw t v
  | inr f ↦ rw f (register_as-AllExclusive entity eid r v)
]
register-AllExclusive true (some own) entity eid r v = elim (Bool-cases (str_eq eid "")) [
  | inl t ↦ rw t (register_as-AllExclusive entity own r v)
  | inr f ↦ rw f (register_as-AllExclusive entity eid r v)
]

try_acquire-AllExclusive :
    (eid : String) (mode : Mode) (r : Registry)
    → AllExclusive r.entries
    → AllExclusive (try_acquire eid mode r).0.entries
unfolding try_acquire
try_acquire-AllExclusive eid mode r v = elim (Option-cases (lookup eid r.entries)) [
  | inl e ↦ rw (e, try_acquire) v
  | inr (w, e) ↦ elim (Bool-cases (is_free mode w)) [
    | inl t ↦
        rw (e, try_acquire, t)
          (insert-AllExclusive eid _ r.entries
            (count_lease-Exclusive mode w t (lookup-Exclusive eid r.entries w v e)) v)
    | inr f ↦ rw (e, try_acquire, f) v
  ]
]

lock_entity-entries :
    (around : Around) (eid : String) (r : Registry)
    → (lock_entity around eid r).0.entries ≡ r.entries
unfolding lock_entity lock_class
lock_entity-entries around eid r = ground arith

unlock_entity-entries :
    (around : Around) (entity : ℕ) (r : Registry)
    → (unlock_entity around entity r).0.entries ≡ r.entries
unfolding unlock_entity unlock_class
unlock_entity-entries around entity r = ground arith

release-AllExclusive :
    (around : Around) (eid : String) (r : Registry)
    → AllExclusive r.entries
    → AllExclusive (release around eid r).0.entries
unfolding release
release-AllExclusive around eid r v = elim (Option-cases (lookup eid r.entries)) [
  | inl e ↦ rw (e, release) v
  | inr (w, e) ↦
      let v' =
        insert-AllExclusive eid (drop_lease w) r.entries
          (drop_lease-Exclusive w (lookup-Exclusive eid r.entries w v e)) v in
      elim (Bool-cases (not (ltb 0 w.ro_leases) && not (ltb 0 w.rw_leases))) [
        | inl t ↦ rw (e, release, t) v
        | inr f ↦ elim (Bool-cases (around.alive w.entity)) [
          | inl t ↦
              rw (e, release, f, t)
                (rw (unlock_entity-entries around w.entity (set_entry eid (drop_lease w) r)) v')
          | inr dead ↦ rw (e, release, f, dead) v'
        ]
      ]
]

then_drop-AllExclusive :
    (next : Registry → Registry × Reply) (p : Registry × Reply)
    → ((r : Registry) → AllExclusive r.entries → AllExclusive (next r).0.entries)
    → AllExclusive p.0.entries
    → AllExclusive (then_drop next p).0.entries
unfolding then_drop
then_drop-AllExclusive next (r, done) k v = k r v
then_drop-AllExclusive next (r, waits) k v = v
then_drop-AllExclusive next (r, gave e) k v = v
then_drop-AllExclusive next (r, raised e) k v = v

unlock_leases-AllExclusive :
    (around : Around) (n : ℕ) (eid : String) (e : Entry) (r : Registry)
    → Exclusive e
    → AllExclusive r.entries
    → AllExclusive (unlock_leases around n eid e r).0.entries
unfolding unlock_leases
unlock_leases-AllExclusive around zero eid e r x v = v
unlock_leases-AllExclusive around (suc n) eid e r x v =
    let x' = drop_lease-Exclusive e x in
    then_drop-AllExclusive _ (unlock_entity around e.entity r)
      (λ r' v'.
        unlock_leases-AllExclusive around n eid (drop_lease e) (set_entry eid (drop_lease e) r') x'
          (insert-AllExclusive eid (drop_lease e) r'.entries x' v'))
      (rw (unlock_entity-entries around e.entity r) v)

unregister-AllExclusive :
    (around : Around) (eid : String) (r : Registry)
    → AllExclusive r.entries
    → AllExclusive (unregister around eid r).0.entries
unfolding unregister
unregister-AllExclusive around eid r v = elim (Option-cases (lookup eid r.entries)) [
  | inl e ↦ rw (e, unregister) v
  | inr (w, e) ↦ elim (Bool-cases (around.alive w.entity)) [
    | inr dead ↦ rw (e, unregister, dead) v
    | inl t ↦
        rw (e, unregister, t)
          (then_drop-AllExclusive _ (unlock_leases around (w.ro_leases + w.rw_leases) eid w r)
            (λ r' v'. remove-AllExclusive eid r'.entries v')
            (unlock_leases-AllExclusive around (w.ro_leases + w.rw_leases) eid w r
              (lookup-Exclusive eid r.entries w v e) v))
  ]
]

-- A section under the registry's lock, or a step on the lock of an entity, with what it finds around it.
pub data Section : Type 0 where
  registers : Bool → Option String → ℕ → String → Section
  tries : String → Mode → Section
  locks : String → Section
  releases unregisters : String → Section

unfoldable pub step : Registry → Around × Section → Registry
step r (around, registers lockable id entity eid) = (register lockable id entity eid r).0
step r (around, tries eid mode) = (try_acquire eid mode r).0
step r (around, locks eid) = (lock_entity around eid r).0
step r (around, releases eid) = (release around eid r).0
step r (around, unregisters eid) = (unregister around eid r).0

unfoldable pub run : Registry → List (Around × Section) → Registry
run r [] = r
run r (s ∷ ss) = run (step r s) ss

step-AllExclusive :
    (r : Registry) (s : Around × Section) → AllExclusive r.entries → AllExclusive (step r s).entries
unfolding step
step-AllExclusive r (around, registers lockable id entity eid) v =
    register-AllExclusive lockable id entity eid r v
step-AllExclusive r (around, tries eid mode) v = try_acquire-AllExclusive eid mode r v
step-AllExclusive r (around, locks eid) v = rw (lock_entity-entries around eid r) v
step-AllExclusive r (around, releases eid) v = release-AllExclusive around eid r v
step-AllExclusive r (around, unregisters eid) v = unregister-AllExclusive around eid r v

run-AllExclusive :
    (r : Registry) (ss : List (Around × Section))
    → AllExclusive r.entries
    → AllExclusive (run r ss).entries
unfolding run
run-AllExclusive r [] v = v
run-AllExclusive r (s ∷ ss) v = run-AllExclusive (step r s) ss (step-AllExclusive r s v)

-- After any history of the registry's sections, in any order and whichever entities have gone, an
-- entry that has a write lease has just that one, and no read leases.
pub run-Exclusive :
    (ss : List (Around × Section)) (eid : String) (e : Entry)
    → lookup eid (run init ss).entries ≡ some e
    → Exclusive e
unfolding init
run-Exclusive ss eid e h =
    lookup-Exclusive eid (run init ss).entries e (run-AllExclusive init ss tt) h
