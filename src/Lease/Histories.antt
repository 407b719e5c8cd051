-- ===== src/Lease/Histories.antt =====
-- Histories of a lease manager: any interleaving of the locked sections of `LeaseManager.lease` and of
-- `release`, over any pools, with the list of the objects that clients hold.
use mathlib.Core.Path.{subst}
use radical_utils.Prelude.{
  contains, ap, ℕ, suc, ◌<◌, ◌≤◌, ◌≡◌, refl, ◌∙◌, String, Bool, true, false, Option, some, List, [],
  ◌∷◌, arith, inl, inr, ◌⊎◌, ◌==◌, Bool-cases, if◌then◌else◌, length,
}
use radical_utils.Prelude.Eq.{string_eq}
use radical_utils.Prelude.Dict.{lookup}
use radical_utils.Lease.{lease_now, lease_wake, release}
use radical_utils.Lease.Objects.{
  LeaseObject, Pool, Limits, Manager, Reply, leased, raised, full, again, Result, ok, err, init,
  limits_or_default,
}
use radical_utils.Lease.Invariant.{IsValid}
use radical_utils.Lease.Effects.{Safe, lease_now-Safe, lease_wake-Safe}
use radical_utils.Lease.Release.{Frame, release-Frame}

pub record System : Type 0 where
  pub manager : Manager
  pub holders : List ℕ

pub data Call : Type 0 where
  leases wakes : String → (ℕ → Option ℕ) → Call
  releases : ℕ → Bool → Call

unfoldable pub drop_holder : ℕ → List ℕ → List ℕ
drop_holder uid [] = []
drop_holder uid (x ∷ xs) = if uid == x then xs else x ∷ drop_holder uid xs

unfoldable pub granted : List ℕ → Manager × Reply → System
granted hs (m, leased uid) = record { manager = m; holders = uid ∷ hs }
granted hs (m, raised e) = record { manager = m; holders = hs }
granted hs (m, full) = record { manager = m; holders = hs }
granted hs (m, again) = record { manager = m; holders = hs }

unfoldable pub returned : System → ℕ → Result → System
returned s uid (ok m) = record { manager = m; holders = drop_holder uid s.holders }
returned s uid (err e) = s

unfoldable pub step : System → ℕ × Call → System
step s (now, leases pid creator) = granted s.holders (lease_now pid creator now s.manager)
step s (now, wakes pid creator) = granted s.holders (lease_wake pid creator now s.manager)
step s (now, releases uid delete) = returned s uid (release uid delete now s.manager)

unfoldable pub run : System → List (ℕ × Call) → System
run s [] = s
run s (c ∷ cs) = run (step s c) cs

-- Each held object is locked, and no object is held twice.
abbrev pub Held : Manager → List ℕ → Type 0
Held m [] = Unit {0}
Held m (x ∷ xs) = ((m.heap x).used ≡ true) × (x < m.next_uid) × (contains x xs ≡ false) × Held m xs

abbrev pub Good : Limits → System → Type 0
Good l s = IsValid s.manager × Held s.manager s.holders × (s.manager.limits ≡ l)

Held-grow :
    (m m' : Manager) (xs : List ℕ)
    → m.next_uid ≤ m'.next_uid
    → ((v : ℕ) → (m.heap v).used ≡ true → (m'.heap v).used ≡ true)
    → Held m xs
    → Held m' xs
Held-grow m m' [] h u d = tt
Held-grow m m' (x ∷ xs) h u d = (u x d.0, omega arith, d.2, Held-grow m m' xs h u d.3)

-- An object that is new or free is held by nobody.
Held-contains :
    (m : Manager) (uid : ℕ) (xs : List ℕ)
    → (uid ≡ m.next_uid) ⊎ ((m.heap uid).used ≡ false)
    → Held m xs
    → contains uid xs ≡ false
unfolding contains
Held-contains m uid [] h d = refl
Held-contains m uid (x ∷ xs) h d = ground (arith, Held-contains m uid xs h d.3)

granted-Good :
    (m : Manager) (hs : List ℕ) (r : Manager × Reply)
    → Held m hs
    → Safe m.heap m.next_uid m.limits r
    → Good m.limits (granted hs r)
unfolding granted
granted-Good m hs (m', leased uid) d (v, (how, used), el) = (
  v,
  (
    ground (arith, used uid),
    omega arith,
    Held-contains m uid hs (new_or_free how) d,
    Held-grow m m' hs (omega arith) (λ w t. ground (arith, used w)) d,
  ),
  el,
)
  where
    new_or_free :
        ((uid ≡ m.next_uid) × (m'.next_uid ≡ suc m.next_uid))
          ⊎ ((uid < m.next_uid) × ((m.heap uid).used ≡ false) × (m'.next_uid ≡ m.next_uid))
        → (uid ≡ m.next_uid) ⊎ ((m.heap uid).used ≡ false)
    new_or_free (inl (e, _)) = inl e
    new_or_free (inr (_, e, _)) = inr e
granted-Good m hs (m', raised e) d (v, (n, h), el) =
    (v, Held-grow m m' hs (omega arith) (λ w t. rw h t) d, el)
granted-Good m hs (m', full) d (v, (n, h), el) =
    (v, Held-grow m m' hs (omega arith) (λ w t. rw h t) d, el)
granted-Good m hs (m', again) d (v, (n, h), el) =
    (v, Held-grow m m' hs (omega arith) (λ w t. rw h t) d, el)

contains-drop_holder :
    (x uid : ℕ) (xs : List ℕ) → contains x xs ≡ false → contains x (drop_holder uid xs) ≡ false
unfolding contains drop_holder
contains-drop_holder x uid [] h = refl
contains-drop_holder x uid (y ∷ ys) h = ground (arith, contains-drop_holder x uid ys)

-- The holders other than `uid`, once `uid` is released.
Held-others :
    (uid : ℕ) (m m' : Manager) (xs : List ℕ)
    → Frame uid m m'
    → contains uid xs ≡ false
    → Held m xs
    → Held m' xs
unfolding contains
Held-others uid m m' [] f c d = tt
Held-others uid m m' (x ∷ xs) f c d = (
  f.3 x (λ e. ground arith) ∙ d.0,
  omega arith,
  d.2,
  Held-others uid m m' xs f (ground arith) d.3,
)

Held-drop_holder :
    (uid : ℕ) (m m' : Manager) (xs : List ℕ)
    → Frame uid m m'
    → Held m xs
    → Held m' (drop_holder uid xs)
unfolding drop_holder
Held-drop_holder uid m m' [] f d = tt
Held-drop_holder uid m m' (x ∷ xs) f d = elim (Bool-cases (uid == x)) [
  | inl t ↦ rw t (Held-others uid m m' xs f (ground arith) d.3)
  | inr n ↦ rw n (
    f.3 x (λ e. ground arith) ∙ d.0,
    omega arith,
    contains-drop_holder x uid xs d.2,
    Held-drop_holder uid m m' xs f d.3,
  )
]

returned-Good :
    (s : System) (uid : ℕ) (delete : Bool) (now : ℕ) (r : Result)
    → release uid delete now s.manager ≡ r
    → IsValid s.manager
    → Held s.manager s.holders
    → Good s.manager.limits (returned s uid r)
unfolding returned
returned-Good s uid delete now (ok m) e v d =
    let frame = release-Frame uid delete now s.manager m v e in
    (frame.0, Held-drop_holder uid s.manager m s.holders frame d, frame.2)
returned-Good s uid delete now (err x) e v d = (v, d, refl)

step-Good : (l : Limits) (s : System) (c : ℕ × Call) → Good l s → Good l (step s c)
unfolding step
step-Good l s (now, leases pid creator) (v, d, e) =
    subst (λ l. Good l (step s (now, leases pid creator))) e
      (granted-Good s.manager s.holders _ d (lease_now-Safe pid creator now s.manager v))
step-Good l s (now, wakes pid creator) (v, d, e) =
    subst (λ l. Good l (step s (now, wakes pid creator))) e
      (granted-Good s.manager s.holders _ d (lease_wake-Safe pid creator now s.manager v))
step-Good l s (now, releases uid delete) (v, d, e) =
    subst (λ l. Good l (step s (now, releases uid delete))) e
      (returned-Good s uid delete now _ refl v d)

run-Good : (l : Limits) (s : System) (cs : List (ℕ × Call)) → Good l s → Good l (run s cs)
unfolding run
run-Good l s [] g = g
run-Good l s (c ∷ cs) g = run-Good l (step s c) cs (step-Good l s c g)

-- A new manager, before any call.
unfoldable pub start : Option ℕ → Option ℕ → Option ℕ → (ℕ → LeaseObject) → System
start size wait age heap = record { manager = init size wait age heap; holders = [] }

start-Good :
    (size wait age : Option ℕ) (heap : ℕ → LeaseObject)
    → Good (limits_or_default size wait age) (start size wait age heap)
unfolding start init lookup
start-Good size wait age heap = ((λ pid pool e. absurd (cc)), tt, refl)

module _ (size wait age : Option ℕ) (heap : ℕ → LeaseObject) (cs : List (ℕ × Call)) where
  -- After any history of leases, wakes of waiting threads and releases, in any order and over any
  -- pools, the objects that clients hold are locked and pairwise distinct: no object is leased
  -- twice.
  pub run-Held : let s = run (start size wait age heap) cs in Held s.manager s.holders
  run-Held = (run-Good (limits_or_default size wait age) _ cs (start-Good size wait age heap)).1

  -- After any history, a pool has at most as many objects as the size that the manager was
  -- created with, unless that is 0, which means no limit.
  pub run_bounded :
      (pid : String) (pool : Pool)
      → lookup pid (run (start size wait age heap) cs).manager.pools ≡ some pool
      → 0 < (limits_or_default size wait age).max_pool_size
      → length pool.objects ≤ (limits_or_default size wait age).max_pool_size
  run_bounded pid pool e positive =
      let l = limits_or_default size wait age in
      let (v, d, el) = run-Good l _ cs (start-Good size wait age heap) in
      let bound = (v pid pool e).bounded in
      let el' = ap (λ (l : Limits). l.max_pool_size) el in rw el' at (bound (rw el' positive))
