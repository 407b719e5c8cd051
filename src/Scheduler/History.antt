-- ===== src/Scheduler/History.antt =====
-- Runs of the scheduler of scheduler_bitarray.py, with the allocations that its clients hold.
use radical_utils.Prelude.{
  ℕ, zero, suc, ◌+◌, ◌-◌, ◌≤◌, ◌<◌, ◌≡◌, refl, sym, ◌∙◌, Bool, true, Option, none, some, List, [],
  ◌∷◌, arith, inl, inr, ◌⊎◌, ltb, if◌then◌else◌, Bool-cases, Option-cases,
}
use radical_utils.Scheduler.Bits.{BitArray, IsLawful}
use radical_utils.Scheduler.{
  Place, block, cores, Allocation, has_core, Scheduler, Result, granted, raised, init, alloc,
  dealloc,
}
use radical_utils.Scheduler.Grants.{Effect, alloc-Effect}

-- The n-th element, and the others.
unfoldable pub take_nth : {A : Type 0} → ℕ → List A → Option (A × List A)
take_nth n [] = none
take_nth zero (x ∷ xs) = some (x, xs)
take_nth (suc n) (x ∷ xs) = elim (take_nth n xs) [ none ↦ none | some r ↦ some (r.0, x ∷ r.1) ]

unfoldable pub owns : ℕ → Allocation → ℕ
owns i a = if has_core a.req a.place i then 1 else 0

-- How many of the allocations have a core.
unfoldable pub owners : ℕ → List Allocation → ℕ
owners i [] = 0
owners i (a ∷ rest) = owns i a + owners i rest

abbrev pub AllPositive : List Allocation → Type 0
AllPositive [] = Unit {0}
AllPositive (a ∷ rest) = (1 ≤ a.req) × AllPositive rest

module _ (bits : BitArray) where
  unfoldable pub keep :
      Scheduler bits × Result bits → List Allocation → Scheduler bits × List Allocation
  keep (s, granted a) held = (s, a ∷ held)
  keep (s, raised e) held = (s, held)

  -- The n-th allocation that is held is given back.
  unfoldable pub give_back : ℕ → Scheduler bits → List Allocation → Scheduler bits × List Allocation
  give_back n s held = elim (take_nth n held) [
    | none ↦ (s, held)
    | some r ↦ (dealloc bits r.0 s, r.1)
  ]

  -- What a scheduler for this many cores can come to, if each allocation is given back once.
  pub data Reachable (size : ℕ) : Scheduler bits × List Allocation → Type 0 where
    created :
        {s : Scheduler bits} (ppn : Option ℕ) (align scatter : Option Bool)
        → init bits (some size) ppn align scatter ≡ some s
        → Reachable size (s, [])
    allocated :
        {s : Scheduler bits} {held : List Allocation} (req : ℕ)
        → 1 ≤ req
        → Reachable size (s, held)
        → Reachable size (keep (alloc bits req s) held)
    freed :
        {s : Scheduler bits} {held : List Allocation} (n : ℕ)
        → Reachable size (s, held)
        → Reachable size (give_back n s held)

  abbrev pub IsAccounted : ℕ → Scheduler bits × List Allocation → Type 0
  IsAccounted size (s, held) =
      AllPositive held
      × (bits.size s.free ≡ size)
      × ((i : ℕ)
          → owners i held + (if bits.get s.free i then 1 else 0) ≡ (if ltb i size then 1 else 0))

-- What a choice from a list of allocations leaves of it.
abbrev Splits : List Allocation → Option (Allocation × List Allocation) → Type 0
Splits held none = Unit {0}
Splits held (some (a, rest)) =
    ((i : ℕ) → owners i held ≡ owns i a + owners i rest)
    × (AllPositive held → (1 ≤ a.req) × AllPositive rest)

take_nth-Splits : (n : ℕ) (held : List Allocation) → Splits held (take_nth n held)
unfolding take_nth owners
take_nth-Splits n [] = tt
take_nth-Splits zero (x ∷ xs) = (λ i. refl, λ p. p)
take_nth-Splits (suc n) (x ∷ xs) =
    let deeper = take_nth-Splits n xs in
    elim (Option-cases (take_nth n xs)) [
      | inl gone ↦ rw gone tt
      | inr ((b, others), found) ↦
          let (sum, positive) = rw found at deeper in
          rw found (λ i. omega (arith, sum i), λ (p, ps). let q = positive ps in (q.0, (p, q.1)))
    ]

Place-cases : (p : Place) → ((loc : ℕ) × (p ≡ block loc)) ⊎ ((locs : List ℕ) × (p ≡ cores locs))
Place-cases (block loc) = inl (loc, refl)
Place-cases (cores locs) = inr (locs, refl)

module _ (bits : BitArray) (lawful : IsLawful bits) where
  created-IsAccounted :
      (size : ℕ) (s : Scheduler bits) (ppn : Option ℕ) (align scatter : Option Bool)
      → init bits (some size) ppn align scatter ≡ some s
      → IsAccounted bits size (s, [])
  unfolding init owners
  created-IsAccounted size s ppn align scatter e =
      let made : bits.make size ≡ s.free = cc in
      rw (sym made) (tt, lawful.size-make size, λ i. ground (arith, lawful.get-make size i))

  allocated-IsAccounted :
      (size : ℕ) (b : bits.State) (held : List Allocation) (r : Scheduler bits × Result bits)
      → Effect bits lawful b r
      → AllPositive held
      → bits.size b ≡ size
      → ((i : ℕ) → owners i held + (if bits.get b i then 1 else 0) ≡ (if ltb i size then 1 else 0))
      → IsAccounted bits size (keep bits r held)
  unfolding keep owners owns
  allocated-IsAccounted size b held (s, raised e) same p q sum = rw same (p, q, sum)
  allocated-IsAccounted size b held (s, granted a) (positive, were_free, now, sized) p q sum = (
    (positive, p),
    sized ∙ q,
    λ i. elim (Bool-cases (has_core a.req a.place i)) [
      | inl t ↦ ground (arith, now i, sum i, were_free i t)
      | inr f ↦ ground (arith, now i, sum i)
    ],
  )

  -- A held core is a core of the scheduler.
  held_within :
      (size i n rest : ℕ) (mine : Bool)
      → (if mine then 1 else 0) + rest + n ≡ (if ltb i size then 1 else 0)
      → mine ≡ true
      → i < size
  held_within size i n rest mine e m = ground arith

  freed_block :
      (size : ℕ) (s : Scheduler bits) (req loc : ℕ) (rest held : List Allocation)
      → 1 ≤ req
      → bits.size s.free ≡ size
      → ((i : ℕ)
          → (if has_core req (block loc) i then 1 else 0)
              + owners i rest
              + (if bits.get s.free i then 1 else 0)
            ≡ (if ltb i size then 1 else 0))
      → (i : ℕ)
      → owners i rest + (if bits.get (bits.set_range s.free loc (loc + req) true) i then 1 else 0)
        ≡ (if ltb i size then 1 else 0)
  unfolding has_core
  freed_block size s req loc rest held positive sized sum i =
      let last = held_within size (loc + req - 1) _ _ _ (sum (loc + req - 1)) (ground arith) in
      ground (arith, lawful.get-set_range s.free loc (loc + req) i true (omega arith), sum i)

  freed-IsAccounted :
      (size : ℕ) (s : Scheduler bits) (a : Allocation) (rest held : List Allocation)
      → IsAccounted bits size (s, held)
      → Splits held (some (a, rest))
      → IsAccounted bits size (dealloc bits a s, rest)
  unfolding dealloc owns has_core
  freed-IsAccounted size s a rest held (p, sized, sum) (split, positive) =
      let total : (i : ℕ)
          → owns i a + owners i rest + (if bits.get s.free i then 1 else 0)
            ≡ (if ltb i size then 1 else 0) =
        λ i. rw (sym (split i)) (sum i) in
      elim (Place-cases a.place) [
        | inl (loc, e) ↦
            let whole = rw (owns, e) at total in
            rw (e, dealloc)
              (
                (positive p).1,
                lawful.size-set_range s.free loc (loc + a.req) true ∙ sized,
                freed_block size s a.req loc rest held (positive p).0 sized whole,
              )
        | inr (locs, e) ↦
            let whole = rw (owns, e) at total in
            rw (e, dealloc)
              (
                (positive p).1,
                lawful.size-set_list s.free locs true ∙ sized,
                λ i. ground (arith, lawful.get-set_list s.free locs true i, whole i),
              )
      ]

  pub Reachable-IsAccounted :
      (size : ℕ) (h : Scheduler bits × List Allocation)
      → Reachable bits size h
      → IsAccounted bits size h
  unfolding give_back
  Reachable-IsAccounted size h (created ppn align scatter e) =
      created-IsAccounted size _ ppn align scatter e
  Reachable-IsAccounted size h (allocated {s = s} {held = held} req pos r) =
      let (p, q, sum) = Reachable-IsAccounted size (s, held) r in
      allocated-IsAccounted size s.free held (alloc bits req s) (alloc-Effect bits lawful req s pos)
        p q sum
  Reachable-IsAccounted size h (freed {s = s} {held = held} n r) =
      let before = Reachable-IsAccounted size (s, held) r in
      let splits = take_nth-Splits n held in
      elim (Option-cases (take_nth n held)) [
        | inl gone ↦ rw (gone, give_back) before
        | inr ((a, rest), found) ↦
            rw (found, give_back) (freed-IsAccounted size s a rest held before (rw found at splits))
      ]

module _ (bits : BitArray) (lawful : IsLawful bits) where
  -- Whatever was allocated, one core at least each time, and given back once: every core of the
  -- scheduler is either free or part of just one of the allocations that are held, and no other
  -- position is free or allocated.
  pub each_core_once :
      (size : ℕ) (s : Scheduler bits) (held : List Allocation)
      → Reachable bits size (s, held)
      → (i : ℕ)
      → owners i held + (if bits.get s.free i then 1 else 0) ≡ (if ltb i size then 1 else 0)
  each_core_once size s held r =
      let (positive, sized, once) = Reachable-IsAccounted bits lawful size (s, held) r in once
