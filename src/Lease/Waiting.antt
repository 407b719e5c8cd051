-- ===== src/Lease/Waiting.antt =====
-- The wait loop of `LeaseManager.lease` in lease_manager.py.
use radical_utils.Prelude.{
  ℕ, ◌-◌, ◌≤◌, ◌≡◌, ◌≢◌, refl, ap, String, false, Option, List, [], ◌∷◌, arith, inl, inr, ltb,
  Bool-cases, ◌∙◌, Option-cases,
}
use radical_utils.Lease.{
  Round, or_later, wait_if_full, wait_loop, create_if_none, scan_if_full, take_freed, lease_in,
  lease, lease_now, lease_wake,
}
use radical_utils.Lease.Objects.{
  Limits, Manager, Reply, leased, raised, full, again, create_object, initialize_pool, scan_free,
  lease_object, Pool,
}
use radical_utils.Prelude.Eq.{string_eq}
use radical_utils.Prelude.Dict.{lookup}
use radical_utils.Lease.Invariant.{IsValid}
use radical_utils.Lease.Effects.{lease_now-Safe, lease_wake-Safe}

-- What the other threads do during a round keeps the manager valid and its settings.
abbrev pub Keeps : Round → Type 0
Keeps r = (m : Manager) → IsValid m → IsValid (r.others m) × ((r.others m).limits ≡ m.limits)

abbrev pub AllKeep : List Round → Type 0
AllKeep [] = Unit {0}
AllKeep (r ∷ rs) = Keeps r × AllKeep rs

-- The time that the timer shows after the rounds.
abbrev pub last_time : List Round → ℕ → ℕ
last_time [] now = now
last_time (r ∷ rs) now = last_time rs r.next

-- A reply that ends the call: an object or an exception.
abbrev pub IsFinal : Reply → Type 0
IsFinal (leased uid) = Unit {0}
IsFinal (raised e) = Unit {0}
IsFinal full = ⊥
IsFinal again = ⊥

scan_free-ne-full : (now : ℕ) (uids : List ℕ) (m : Manager) → (scan_free now uids m).1 ≢ full
unfolding scan_free lease_object
scan_free-ne-full now [] m = λ x. cc
scan_free-ne-full now (uid ∷ uids) m = ground (arith, scan_free-ne-full now uids m)

scan_if_full-ne-full :
    (pid : String) (now : ℕ) (r : Manager × Reply) → (scan_if_full pid now r).1 ≢ full
unfolding scan_if_full
scan_if_full-ne-full pid now (m, full) = elim (Option-cases (lookup pid m.pools)) [
  | inl e ↦ rw (e, scan_if_full) (λ x. cc)
  | inr (pool, e) ↦ rw (e, scan_if_full) (scan_free-ne-full now pool.objects m)
]
scan_if_full-ne-full pid now (m, leased uid) = λ x. cc
scan_if_full-ne-full pid now (m, raised e) = λ x. cc
scan_if_full-ne-full pid now (m, again) = λ x. cc

take_freed-ne-full :
    (pid : String) (creator : ℕ → Option ℕ) (now : ℕ) (pool : Pool) (m : Manager)
    → (take_freed pid creator now pool m).1 ≢ full
unfolding take_freed lease_object
take_freed-ne-full pid creator now pool m = elim (Option-cases pool.freed) [
  | inl e ↦ rw (e, take_freed) (scan_if_full-ne-full pid now _)
  | inr (uid, e) ↦ rw (e, take_freed) (λ x. ground arith)
]

lease_wake-ne-full :
    (pid : String) (creator : ℕ → Option ℕ) (now : ℕ) (m : Manager)
    → (lease_wake pid creator now m).1 ≢ full
unfolding lease_wake
lease_wake-ne-full pid creator now m = elim (Option-cases (lookup pid m.pools)) [
  | inl e ↦ rw (e, lease_wake) (λ x. cc)
  | inr (pool, e) ↦
      rw (e, lease_wake) (λ x. ground (arith, take_freed-ne-full pid creator now pool m))
]

module _ (pid : String) (creator : ℕ → Option ℕ) (l : Limits) (start : ℕ) where
  or_later-IsFinal :
      (later : Manager → Manager × Reply) (r : Manager × Reply)
      → ((m : Manager) → IsValid m → m.limits ≡ l → IsFinal (later m).1)
      → IsValid r.0
      → r.0.limits ≡ l
      → r.1 ≢ full
      → IsFinal (or_later later r).1
  unfolding or_later
  or_later-IsFinal later (m, again) k v e h = k m v e
  or_later-IsFinal later (m, leased uid) k v e h = tt
  or_later-IsFinal later (m, raised x) k v e h = tt
  or_later-IsFinal later (m, full) k v e h = h refl

  wait_loop-IsFinal :
      (rs : List Round) (now : ℕ) (m : Manager)
      → AllKeep rs
      → l.max_pool_wait ≤ last_time rs now - start
      → IsValid m
      → m.limits ≡ l
      → IsFinal (wait_loop pid creator start rs now m).1
  unfolding wait_loop
  wait_loop-IsFinal [] now m k t v e =
      let e' = ap (λ (l : Limits). l.max_pool_wait) e in
      let over : ltb (now - start) m.max_pool_wait ≡ false = ground arith in rw over tt
  wait_loop-IsFinal (r ∷ rs) now m (k, ks) t v e =
      elim (Bool-cases (ltb (now - start) m.max_pool_wait)) [
        | inr over ↦ rw over tt
        | inl going ↦ rw going (
            let (kv, ke) = k m v in
            let (v', _, e') = lease_wake-Safe pid creator r.woke (r.others m) kv in
            or_later-IsFinal (wait_loop pid creator start rs r.next)
              (lease_wake pid creator r.woke (r.others m))
              (λ m' w f. wait_loop-IsFinal rs r.next m' ks t w f) v' (e' ∙ ke ∙ e)
              (lease_wake-ne-full pid creator r.woke (r.others m)))
      ]

create_object-ne-again :
    (pid : String) (creator : ℕ → Option ℕ) (now : ℕ) (m : Manager)
    → (create_object pid creator now m).1 ≢ again
unfolding create_object
create_object-ne-again pid creator now m = λ x. ground arith

create_if_none-ne-again :
    (pid : String) (creator : ℕ → Option ℕ) (now : ℕ) (r : Manager × Reply)
    → (create_if_none pid creator now r).1 ≢ again
unfolding create_if_none
create_if_none-ne-again pid creator now (m, again) = create_object-ne-again pid creator now m
create_if_none-ne-again pid creator now (m, leased uid) = λ x. cc
create_if_none-ne-again pid creator now (m, raised e) = λ x. cc
create_if_none-ne-again pid creator now (m, full) = λ x. cc

lease_in-ne-again :
    (pid : String) (creator : ℕ → Option ℕ) (now : ℕ) (m : Manager)
    → (lease_in pid creator now m).1 ≢ again
unfolding lease_in
lease_in-ne-again pid creator now m = elim (Option-cases (lookup pid m.pools)) [
  | inl e ↦ rw (e, lease_in) (λ x. cc)
  | inr (pool, e) ↦ rw (e, lease_in) (create_if_none-ne-again pid creator now _)
]

wait_if_full-IsFinal :
    (wait : Manager → Manager × Reply) (l : Limits) (r : Manager × Reply)
    → ((m : Manager) → IsValid m → m.limits ≡ l → IsFinal (wait m).1)
    → IsValid r.0
    → r.0.limits ≡ l
    → r.1 ≢ again
    → IsFinal (wait_if_full wait r).1
unfolding wait_if_full
wait_if_full-IsFinal wait l (m, full) k v e h = k m v e
wait_if_full-IsFinal wait l (m, again) k v e h = h refl
wait_if_full-IsFinal wait l (m, leased uid) k v e h = tt
wait_if_full-IsFinal wait l (m, raised x) k v e h = tt

-- A lease on a valid manager returns an object or raises by the time that `max_pool_wait` has
-- passed on its timer, if what the other threads do in between keeps the manager valid and its
-- settings.
pub lease-IsFinal :
    (pid : String) (creator : ℕ → Option ℕ) (now : ℕ) (rounds : List Round) (m : Manager)
    → IsValid m
    → AllKeep rounds
    → m.max_pool_wait ≤ last_time rounds now - now
    → IsFinal (lease pid creator now rounds m).1
unfolding lease lease_now
lease-IsFinal pid creator now rounds m v k t =
    let (v', _, e) = lease_now-Safe pid creator now m v in
    wait_if_full-IsFinal (wait_loop pid creator now rounds now) m.limits
      (lease_now pid creator now m)
      (λ m' w f. wait_loop-IsFinal pid creator m.limits now rounds now m' k t w f) v' e
      (lease_in-ne-again pid creator now (initialize_pool pid m))
