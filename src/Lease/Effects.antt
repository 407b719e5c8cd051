-- ===== src/Lease/Effects.antt =====
-- What each locked section of lease_manager.py does to the objects.
use mathlib.Core.Path.{subst, subst₃}
use radical_utils.Prelude.{
  ℕ, suc, ◌-◌, ◌<◌, ◌≡◌, refl, String, false, Option, none, some, List, [], ◌∷◌, arith, inl, inr,
  ◌⊎◌, ◌||◌, ◌==◌, ltb, Bool-cases, Option-cases,
}
use radical_utils.Prelude.Eq.{string_eq}
use radical_utils.Prelude.Dict.{lookup}
use radical_utils.Lease.{lease_now, lease_in, lease_wake, create_if_none, scan_if_full, take_freed}
use radical_utils.Lease.Objects.{
  LeaseObject, Pool, Limits, Manager, Reply, leased, raised, full, again, ok, err, no_pool,
  set_pool, new_pool, new_object, add_object, at_cap, list_remove, initialize_pool, lease_object,
  create_object, remove_object, visit, continue, scan, scan_free,
}
use radical_utils.Lease.Invariant.{
  Below, FreedBelow, PoolOk, IsValid, set_pool-IsValid, add_object-IsValid,
}

-- From heap `h` and uid counter `n`.
abbrev pub Effect : (ℕ → LeaseObject) → ℕ → Manager × Reply → Type 0
Effect h n (m', leased uid) =
    (((uid ≡ n) × (m'.next_uid ≡ suc n)) ⊎ ((uid < n) × ((h uid).used ≡ false) × (m'.next_uid ≡ n)))
    × ((v : ℕ) → (m'.heap v).used ≡ (v == uid || (h v).used))
Effect h n (m', raised e) = (m'.next_uid ≡ n) × (m'.heap ≡ h)
Effect h n (m', full) = (m'.next_uid ≡ n) × (m'.heap ≡ h)
Effect h n (m', again) = (m'.next_uid ≡ n) × (m'.heap ≡ h)

-- From heap `h`, uid counter `n` and limits `l`.
abbrev pub Safe : (ℕ → LeaseObject) → ℕ → Limits → Manager × Reply → Type 0
Safe h n l r = IsValid r.0 × Effect h n r × (r.0.limits ≡ l)

lease_object-Safe :
    (now uid : ℕ) (m : Manager)
    → IsValid m
    → uid < m.next_uid
    → Safe m.heap m.next_uid m.limits (lease_object now uid m)
unfolding lease_object
lease_object-Safe now uid m v h = elim (Bool-cases (m.heap uid).used) [
  | inl t ↦ rw (t, lease_object) (v, (refl, refl), refl)
  | inr f ↦ rw (f, lease_object) (v, (inr (h, f, refl), λ w. ground arith), refl)
]

list_remove-none : (xs : List ℕ) → list_remove none xs ≡ none
unfolding list_remove
list_remove-none [] = refl
list_remove-none (x ∷ xs) = rw (list_remove-none xs)

-- Removing an object changes nothing.
pub remove_object_found :
    (pid : String) (o : Option ℕ) (m : Manager) (pool : Pool)
    → lookup pid m.pools ≡ some pool
    → remove_object pid o m ≡ ok m
unfolding remove_object
remove_object_found pid o m pool e = rw (e, remove_object, list_remove-none pool.objects)

remove_object_cases :
    (pid : String) (o : Option ℕ) (m : Manager)
    → (remove_object pid o m ≡ ok m) ⊎ (remove_object pid o m ≡ err no_pool)
unfolding remove_object
remove_object_cases pid o m = elim (Option-cases (lookup pid m.pools)) [
  | inl e ↦ inr (rw (e, remove_object))
  | inr (pool, e) ↦ inl (remove_object_found pid o m pool e)
]

pub visit_cases :
    (P : Manager × Reply → Type 0) (pid : String) (now uid : ℕ) (next : Manager → Manager × Reply)
    (m : Manager)
    → P (next m)
    → P (m, raised no_pool)
    → P (lease_object now uid m)
    → P (visit pid now uid next m)
unfolding visit continue
visit_cases P pid now uid next m skip fail take = elim (Bool-cases (m.heap uid).used) [
  | inl t ↦ rw (t, visit) skip
  | inr f ↦ elim (Bool-cases (ltb m.max_obj_age (now - (m.heap uid).t_created))) [
    | inl old ↦ elim (remove_object_cases pid (some uid) m) [
      | inl e ↦ rw (f, old, e, visit) skip
      | inr e ↦ rw (f, old, e, visit) fail
    ]
    | inr young ↦ rw (f, young, visit) take
  ]
]

scan-Safe :
    (pid : String) (now : ℕ) (uids : List ℕ) (m : Manager)
    → IsValid m
    → Below m.next_uid uids
    → Safe m.heap m.next_uid m.limits (scan pid now uids m)
unfolding scan
scan-Safe pid now [] m v b = (v, (refl, refl), refl)
scan-Safe pid now (uid ∷ uids) m v b =
    visit_cases (Safe m.heap m.next_uid m.limits) pid now uid (scan pid now uids) m
      (scan-Safe pid now uids m v b.1) (v, (refl, refl), refl) (lease_object-Safe now uid m v b.0)

scan_free-Safe :
    (now : ℕ) (uids : List ℕ) (m : Manager)
    → IsValid m
    → Below m.next_uid uids
    → Safe m.heap m.next_uid m.limits (scan_free now uids m)
unfolding scan_free
scan_free-Safe now [] m v b = (v, (refl, refl), refl)
scan_free-Safe now (uid ∷ uids) m v b = elim (Bool-cases (m.heap uid).used) [
  | inl t ↦ rw t (scan_free-Safe now uids m v b.1)
  | inr f ↦ rw f (lease_object-Safe now uid m v b.0)
]

add_object-Effect :
    (m : Manager) (pid : String) (pool : Pool) (now a : ℕ)
    → Effect m.heap m.next_uid (add_object pid pool now a m, leased m.next_uid)
unfolding add_object new_object
add_object-Effect m pid pool now a = (inl (refl, refl), λ v. ground arith)

add_object-limits :
    (m : Manager) (pid : String) (pool : Pool) (now a : ℕ)
    → (add_object pid pool now a m).limits ≡ m.limits
unfolding add_object
add_object-limits m pid pool now a = refl

create_object-Safe :
    (pid : String) (creator : ℕ → Option ℕ) (now : ℕ) (m : Manager)
    → IsValid m
    → Safe m.heap m.next_uid m.limits (create_object pid creator now m)
unfolding create_object
create_object-Safe pid creator now m v = elim (Option-cases (lookup pid m.pools)) [
  | inl e ↦ rw (e, create_object) (v, (refl, refl), refl)
  | inr (pool, e) ↦ elim (Bool-cases (at_cap m pool)) [
    | inl t ↦ rw (e, create_object, t) (v, (refl, refl), refl)
    | inr f ↦ elim (Option-cases (creator now)) [
      | inl c ↦ rw (e, create_object, f, c) (v, (refl, refl), refl)
      | inr (a, c) ↦
          rw (e, create_object, f, c)
            (
              add_object-IsValid m pid pool now a (v pid pool e) f v,
              add_object-Effect m pid pool now a,
              add_object-limits m pid pool now a,
            )
    ]
  ]
]

create_if_none-Safe :
    (h : ℕ → LeaseObject) (n : ℕ) (l : Limits) (pid : String) (creator : ℕ → Option ℕ) (now : ℕ)
    (r : Manager × Reply)
    → Safe h n l r
    → Safe h n l (create_if_none pid creator now r)
unfolding create_if_none
create_if_none-Safe h n l pid creator now (m, again) (v, (en, eh), el) =
    subst₃ (λ h n l. Safe h n l (create_object pid creator now m)) eh en el
      (create_object-Safe pid creator now m v)
create_if_none-Safe h n l pid creator now (m, leased uid) s = s
create_if_none-Safe h n l pid creator now (m, raised e) s = s
create_if_none-Safe h n l pid creator now (m, full) s = s

new_pool-PoolOk : (n c : ℕ) → PoolOk n c new_pool
new_pool-PoolOk n c = record { below = tt; freed_below = tt; bounded = λ p. omega arith }

initialize_pool-IsValid : (pid : String) (m : Manager) → IsValid m → IsValid (initialize_pool pid m)
unfolding initialize_pool
initialize_pool-IsValid pid m v = elim (Option-cases (lookup pid m.pools)) [
  | inl e ↦ rw (e, initialize_pool) (set_pool-IsValid m pid new_pool (new_pool-PoolOk _ _) v)
  | inr (pool, e) ↦ rw (e, initialize_pool) v
]

pub initialize_pool_frame :
    (pid : String) (m : Manager)
    → ((initialize_pool pid m).heap ≡ m.heap)
      × ((initialize_pool pid m).next_uid ≡ m.next_uid)
      × ((initialize_pool pid m).limits ≡ m.limits)
unfolding initialize_pool
initialize_pool_frame pid m = ground arith

-- The first section of `lease` keeps the pools valid, and locks at most the object it returns.
pub lease_now-Safe :
    (pid : String) (creator : ℕ → Option ℕ) (now : ℕ) (m : Manager)
    → IsValid m
    → Safe m.heap m.next_uid m.limits (lease_now pid creator now m)
unfolding lease_now lease_in
lease_now-Safe pid creator now m v =
    let frame = initialize_pool_frame pid m in
    subst₃ (λ h n l. Safe h n l (lease_now pid creator now m)) frame.0 frame.1 frame.2
      (go (Option-cases _))
  where
    m' : Manager
    m' = initialize_pool pid m

    v' : IsValid m'
    v' = initialize_pool-IsValid pid m v

    go :
        (lookup pid m'.pools ≡ none) ⊎ ((p : Pool) × (lookup pid m'.pools ≡ some p))
        → Safe m'.heap m'.next_uid m'.limits (lease_now pid creator now m)
    go (inl e) = rw (e, lease_in) (v', (refl, refl), refl)
    go (inr (pool, e)) =
        rw (e, lease_in)
          (create_if_none-Safe m'.heap m'.next_uid m'.limits pid creator now
            (scan pid now pool.objects m')
            (scan-Safe pid now pool.objects m' v' (v' pid pool e).below))

scan_if_full-Safe :
    (h : ℕ → LeaseObject) (n : ℕ) (l : Limits) (pid : String) (now : ℕ) (r : Manager × Reply)
    → Safe h n l r
    → Safe h n l (scan_if_full pid now r)
unfolding scan_if_full
scan_if_full-Safe h n l pid now (m, full) (v, (en, eh), el) =
    elim (Option-cases (lookup pid m.pools)) [
      | inl e ↦ rw (e, scan_if_full) (v, (en, eh), el)
      | inr (pool, e) ↦
          rw (e, scan_if_full)
            (subst₃ (λ h n l. Safe h n l (scan_free now pool.objects m)) eh en el
              (scan_free-Safe now pool.objects m v (v pid pool e).below))
    ]
scan_if_full-Safe h n l pid now (m, leased uid) s = s
scan_if_full-Safe h n l pid now (m, raised e) s = s
scan_if_full-Safe h n l pid now (m, again) s = s

woken :
    (pid : String) (creator : ℕ → Option ℕ) (now : ℕ) (m : Manager) (pool : Pool)
    → lookup pid m.pools ≡ some pool
    → IsValid m
    → Safe m.heap m.next_uid m.limits (take_freed pid creator now pool m)
unfolding take_freed
woken pid creator now m pool e v = elim (Option-cases pool.freed) [
  | inl f ↦
      rw (f, take_freed)
        (scan_if_full-Safe m.heap m.next_uid m.limits pid now (create_object pid creator now m')
          (create_object-Safe pid creator now m' v'))
  | inr (uid, f) ↦
      rw (f, take_freed)
        (lease_object-Safe now uid m' v'
          (subst (FreedBelow m.next_uid) f (v pid pool e).freed_below))
]
  where
    cleared : Pool
    cleared = record pool { freed = none; event = false }

    m' : Manager
    m' = set_pool pid cleared m

    v' : IsValid m'
    v' =
        set_pool-IsValid m pid cleared
          (record {
            below = (v pid pool e).below;
            freed_below = tt;
            bounded = (v pid pool e).bounded;
          })
          v

-- So does the section of the wait loop.
pub lease_wake-Safe :
    (pid : String) (creator : ℕ → Option ℕ) (now : ℕ) (m : Manager)
    → IsValid m
    → Safe m.heap m.next_uid m.limits (lease_wake pid creator now m)
unfolding lease_wake
lease_wake-Safe pid creator now m v = elim (Option-cases (lookup pid m.pools)) [
  | inl e ↦ rw (e, lease_wake) (v, (refl, refl), refl)
  | inr (pool, e) ↦ elim (Bool-cases pool.event) [
    | inr f ↦ rw (e, lease_wake, f) (v, (refl, refl), refl)
    | inl t ↦ simp (e, lease_wake, t) (woken pid creator now m pool e v)
  ]
]
