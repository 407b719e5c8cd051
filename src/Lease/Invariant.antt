-- ===== src/Lease/Invariant.antt =====
-- The invariant of the pools of lease_manager.py: references below the uid counter, and the size cap.
use mathlib.Core.Path.{subst}
use radical_utils.Prelude.{
  ℕ, suc, ◌≤◌, ◌<◌, ◌≡◌, String, false, Option, none, some, List, [], ◌∷◌, ◌++◌, arith, length,
  length-append, inl, inr, Bool-cases, Option-cases,
}
use radical_utils.Prelude.Eq.{string_eq}
use radical_utils.Prelude.Dict.{lookup, insert, insert_cases}
use radical_utils.Lease.Objects.{Pool, Manager, set_pool, add_object, at_cap, list_remove, same}

abbrev pub Below : ℕ → List ℕ → Type 0
Below n [] = Unit {0}
Below n (x ∷ xs) = (x < n) × Below n xs

abbrev pub FreedBelow : ℕ → Option ℕ → Type 0
FreedBelow n none = Unit {0}
FreedBelow n (some x) = x < n

pub record PoolOk (n cap : ℕ) (p : Pool) : Type 0 where
  pub below : Below n p.objects
  pub freed_below : FreedBelow n p.freed
  pub bounded : 0 < cap → length p.objects ≤ cap

abbrev pub IsValid : Manager → Type 0
IsValid m =
    (pid : String) (pool : Pool)
    → lookup pid m.pools ≡ some pool
    → PoolOk m.next_uid m.max_pool_size pool

Below-mono : (n k : ℕ) (xs : List ℕ) → n ≤ k → Below n xs → Below k xs
Below-mono n k [] h b = tt
Below-mono n k (x ∷ xs) h b = (omega arith, Below-mono n k xs h b.1)

Below-snoc : (n : ℕ) (xs : List ℕ) → Below n xs → Below (suc n) (xs ++ n ∷ [])
Below-snoc n [] b = (omega arith, tt)
Below-snoc n (x ∷ xs) b = (omega arith, Below-snoc n xs b.1)

FreedBelow-mono : (n : ℕ) (o : Option ℕ) → FreedBelow n o → FreedBelow (suc n) o
FreedBelow-mono n none b = tt
FreedBelow-mono n (some x) b = omega arith

pub list_remove-Below :
    (n : ℕ) (x : Option ℕ) (xs ys : List ℕ)
    → list_remove x xs ≡ some ys
    → Below n xs
    → Below n ys × (length ys ≤ length xs)
unfolding list_remove
list_remove-Below n x [] ys e b = absurd (cc)
list_remove-Below n x (y ∷ xs) ys e b = elim (Bool-cases (same x y)) [
  | inl t ↦ subst Kept {x = xs} (ground arith) (b.1, omega arith)
  | inr f ↦ elim (Option-cases (list_remove x xs)) [
    | inl miss ↦ absurd (ground arith)
    | inr (zs, hit) ↦
        let rest = list_remove-Below n x xs zs hit b.1 in
        subst Kept {x = y ∷ zs} (ground arith) ((b.0, rest.0), omega arith)
  ]
]
  where
    Kept : List ℕ → Type 0
    Kept zs = Below n zs × (length zs ≤ suc (length xs))

pub insert-PoolOk :
    (n c : ℕ) (m : Manager) (pid : String) (pool : Pool)
    → PoolOk n c pool
    → ((j : String) (q : Pool) → lookup j m.pools ≡ some q → PoolOk n c q)
    → (j : String) (q : Pool) → lookup j (insert pid pool m.pools) ≡ some q
    → PoolOk n c q
insert-PoolOk n c m pid pool h v j q e = elim (insert_cases pid j pool q m.pools e) [
  | inl new ↦ subst (PoolOk n c) new h
  | inr old ↦ v j q old
]

pub set_pool-IsValid :
    (m : Manager) (pid : String) (pool : Pool)
    → PoolOk m.next_uid m.max_pool_size pool
    → IsValid m
    → IsValid (set_pool pid pool m)
set_pool-IsValid m pid pool h v = insert-PoolOk m.next_uid m.max_pool_size m pid pool h v

PoolOk-mono : {n c : ℕ} (p : Pool) → PoolOk n c p → PoolOk (suc n) c p
PoolOk-mono {n} p h = record {
  below = Below-mono n (suc n) p.objects (omega arith) h.below;
  freed_below = FreedBelow-mono n p.freed h.freed_below;
  bounded = h.bounded;
}

pub add_object-IsValid :
    (m : Manager) (pid : String) (pool : Pool) (now a : ℕ)
    → PoolOk m.next_uid m.max_pool_size pool
    → at_cap m pool ≡ false
    → IsValid m
    → IsValid (add_object pid pool now a m)
unfolding add_object at_cap
add_object-IsValid m pid pool now a h room v =
    insert-PoolOk (suc m.next_uid) m.max_pool_size m pid _
      (record {
        below = Below-snoc m.next_uid pool.objects h.below;
        freed_below = FreedBelow-mono m.next_uid pool.freed h.freed_below;
        bounded = λ p. ground (arith, length-append pool.objects (m.next_uid ∷ []), h.bounded p);
      })
      λ j q e. PoolOk-mono q (v j q e)
