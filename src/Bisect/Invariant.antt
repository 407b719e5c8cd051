-- ===== src/Bisect/Invariant.antt =====
-- The invariant of the loop of `lazy_bisect` of algorithms.py. The frontier is the index down to which
-- the lists are filled.
use radical_utils.Prelude.{
  ℕ, zero, suc, ◌+◌, ◌-◌, ◌≤◌, ◌<◌, ◌≡◌, ◌≢◌, refl, String, Bool, true, false, inl, inr, List, [],
  ◌∷◌, ◌++◌, arith, length, get_elem?, get_elem?-some, contains, count, count_snoc, contains→count,
  not-contains→count, ◌==◌, if◌then◌else◌, Bool-cases, Option-cases, Option, none, some,
}
use radical_utils.Bisect.{
  Verdict, accepted, rejected, unclear, failed, Hooks, Search, fail_indices, record_verdict, probe,
  lookup_or_probe, Passage, passed, escapes, note_skipped, after_skip, skip, skip_below,
}

pub fail_indices_snoc :
    (i idx : ℕ) (e : String) (fs : List (ℕ × String))
    → count i (fail_indices (fs ++ (idx, e) ∷ []))
      ≡ count i (fail_indices fs) + (if i == idx then 1 else 0)
unfolding count
fail_indices_snoc i idx e [] = ground arith
fail_indices_snoc i idx e (f ∷ fs) = ground (arith, fail_indices_snoc i idx e fs)

abbrev pub goods : {S : Type 0} → ℕ → Search S → ℕ
goods i s = count i s.check_good

abbrev pub bads : {S : Type 0} → ℕ → Search S → ℕ
bads i s = count i s.check_bad

abbrev pub fails : {S : Type 0} → ℕ → Search S → ℕ
fails i s = count i (fail_indices s.check_fail)

-- How often an index is noted.
abbrev pub total : {S : Type 0} → ℕ → Search S → ℕ
total i s = goods i s + bads i s + fails i s

-- `n` elements, and the frontier `f`.
pub record Inv {S : Type 0} (n f : ℕ) (s : Search S) : Type 0 where
  pub above : (i : ℕ) → f ≤ i → i < n → total i s ≡ 1
  pub below : (i : ℕ) → i < f → (goods i s ≤ 1) × (bads i s ≡ 0) × (fails i s ≡ 0)
  pub beyond : (i : ℕ) → n ≤ i → total i s ≡ 0

-- The same while the indices between a bad one, `idx`, and `top` are still open.
pub record Mid {S : Type 0} (n idx top : ℕ) (s : Search S) : Type 0 where
  pub above : (i : ℕ) → top ≤ i → i < n → total i s ≡ 1
  pub here : total idx s ≡ 1
  pub below : (i : ℕ) → i < top → i ≢ idx → (goods i s ≤ 1) × (bads i s ≡ 0) × (fails i s ≡ 0)
  pub beyond : (i : ℕ) → n ≤ i → total i s ≡ 0

abbrev pub SameIndices : {S : Type 0} → Search S → Search S → Type 0
SameIndices s s' = (s'.last_good ≡ s.last_good) × (s'.last_bad ≡ s.last_bad)

-- One more index is noted.
abbrev pub Noted : {S : Type 0} → ℕ → Search S → Search S × Bool → Type 0
Noted idx s (s', true) =
    ((i : ℕ)
      → (goods i s' ≡ goods i s + (if i == idx then 1 else 0))
        × (bads i s' ≡ bads i s)
        × (fails i s' ≡ fails i s))
    × SameIndices s s'
Noted idx s (s', false) =
    ((i : ℕ) → (goods i s' ≡ goods i s) × (total i s' ≡ total i s + (if i == idx then 1 else 0)))
    × SameIndices s s'

record_verdict-Noted :
    {S : Type 0} (idx : ℕ) (s : Search S) (r : S × Verdict) → Noted idx s (record_verdict idx s r)
unfolding record_verdict
record_verdict-Noted idx s (w, accepted) =
    (λ i. (count_snoc i idx s.check_good, refl, refl), (refl, refl))
record_verdict-Noted idx s (w, rejected) =
    (λ i. (refl, omega (arith, count_snoc i idx s.check_bad)), (refl, refl))
record_verdict-Noted idx s (w, unclear) =
    (λ i. (refl, omega (arith, count_snoc i idx s.check_bad)), (refl, refl))
record_verdict-Noted idx s (w, failed e) =
    (λ i. (refl, omega (arith, fail_indices_snoc i idx e s.check_fail)), (refl, refl))

-- What is known after an index below the frontier is looked up or checked.
abbrev pub Looked : {S : Type 0} → ℕ → ℕ → ℕ → Search S → Search S × Bool → Type 0
Looked n f idx s (s', true) = Inv n f s' × (total idx s' ≡ 1) × SameIndices s s'
Looked n f idx s (s', false) = Mid n idx f s' × SameIndices s s'

pub Noted-Looked :
    {S : Type 0} (n f idx : ℕ) (s : Search S) (r : Search S × Bool)
    → Inv n f s
    → idx < f
    → f ≤ n
    → goods idx s ≡ 0
    → Noted idx s r
    → Looked n f idx s r
Noted-Looked n f idx s (s', true) v lt le none_yet (noted, same) = (
  record {
    above = λ i p q. ground (arith, noted i, v.above i p q);
    below = λ i p. ground (arith, noted i, v.below i p);
    beyond = λ i p. ground (arith, noted i, v.beyond i p);
  },
  ground (arith, noted idx, v.below idx lt),
  same,
)
Noted-Looked n f idx s (s', false) v lt le none_yet (noted, same) = (
  record {
    above = λ i p q. ground (arith, noted i, v.above i p q);
    here = ground (arith, noted idx, v.below idx lt);
    below = λ i p ne. ground (arith, noted i, v.below i p);
    beyond = λ i p. ground (arith, noted i, v.beyond i p);
  },
  same,
)

-- What the skipped elements leave, if `on_skip` raised at none of them.
abbrev pub Passed : {S : Type 0} → (Search S → Type 0) → Passage S → Type 0
Passed P (passed s) = P s
Passed P (escapes w e) = ⊥

after_skip-Passed :
    {S : Type 0} (P Q : Search S → Type 0) (later : Search S → Passage S) (p : Passage S)
    → Passed P p
    → ((s : Search S) → P s → Passed Q (later s))
    → Passed Q (after_skip later p)
unfolding after_skip
after_skip-Passed P Q later (passed s) h f = f s h
after_skip-Passed P Q later (escapes w e) h f = absurd h

module _ {A S : Type 0} (hooks : Hooks A S) (items : List A) (num den : ℕ) where
  pub probe-Noted : (idx : ℕ) (s : Search S) → Noted idx s (probe hooks items num den idx s)
  unfolding probe
  probe-Noted idx s = elim (Option-cases (get_elem? items idx)) [
    | inl e ↦ rw (e, probe) (record_verdict-Noted idx s _)
    | inr (x, e) ↦ rw (e, probe) (record_verdict-Noted idx s _)
  ]

  pub lookup_or_probe-Looked :
      (n f idx : ℕ) (s : Search S)
      → Inv n f s
      → idx < f
      → f ≤ n
      → Looked n f idx s (lookup_or_probe hooks items num den idx s)
  unfolding lookup_or_probe
  lookup_or_probe-Looked n f idx s v lt le = elim (Bool-cases (contains idx s.check_good)) [
    | inl g ↦
        rw (g, lookup_or_probe)
          (v, omega (arith, v.below idx lt, contains→count idx s.check_good g), (refl, refl))
    | inr ng ↦ elim (Bool-cases (contains idx s.check_bad)) [
      | inl b ↦ absurd (omega (arith, v.below idx lt, contains→count idx s.check_bad b))
      | inr nb ↦
          rw (ng, lookup_or_probe, nb)
            (Noted-Looked n f idx s (probe hooks items num den idx s) v lt le
              (not-contains→count idx s.check_good ng) (probe-Noted idx s))
    ]
  ]

  -- Skipping closes the index just below `top`.
  skip-Mid :
      (calm : (w : S) (x : A) → (hooks.on_skip w x).1 ≡ none) (n idx top t : ℕ) (s : Search S)
      → n ≡ length items
      → top ≡ suc t
      → idx < t
      → t < n
      → Mid n idx top s
      → Passed (Mid n idx t) (skip hooks items num den t s)
  unfolding skip note_skipped
  skip-Mid calm n idx top t s e et lt le v = elim (Bool-cases (contains t s.check_bad)) [
    | inl b ↦
        absurd
          (omega (arith, v.below t (omega arith) (omega arith), contains→count t s.check_bad b))
    | inr nb ↦ elim (Bool-cases (contains t s.check_good)) [
      | inl g ↦ rw (nb, skip, g) (known (contains→count t s.check_good g))
      | inr ng ↦
          let (x, ex) = get_elem?-some items t (omega arith) in
          rw (nb, skip, ng, ex)
            (noted (hooks.on_skip s.world x) (calm s.world x)
              (not-contains→count t s.check_good ng))
    ]
  ]
    where
      known : 1 ≤ goods t s → Mid n idx t s
      known g = record {
        above = λ i p q. ground (arith, v.above i, v.below t);
        here = v.here;
        below = λ i p ne. v.below i (omega arith) ne;
        beyond = v.beyond;
      }

      closed :
          (w : S)
          → goods t s ≡ 0
          → Mid n idx t (record s { check_bad = s.check_bad ++ t ∷ []; world = w })
      closed w g = record {
        above = λ i p q. ground (arith, count_snoc i t s.check_bad, v.above i, v.below t);
        here = ground (arith, count_snoc idx t s.check_bad, v.here);
        below = λ i p ne. ground (arith, count_snoc i t s.check_bad, v.below i);
        beyond = λ i p. ground (arith, count_snoc i t s.check_bad, v.beyond i);
      }

      noted :
          (r : S × Option String)
          → r.1 ≡ none
          → goods t s ≡ 0
          → Passed (Mid n idx t) (note_skipped t s r)
      noted (w, none) c g = closed w g
      noted (w, some e) c g = absurd (cc)

  pub skip_below-Inv :
      (calm : (w : S) (x : A) → (hooks.on_skip w x).1 ≡ none) (k n idx top : ℕ) (s : Search S)
      → n ≡ length items
      → top ≡ suc (idx + k)
      → top ≤ n
      → Mid n idx top s
      → Passed (Inv n idx) (skip_below hooks items num den k top s)
  unfolding skip_below
  skip_below-Inv calm zero n idx top s e et le v = record {
    above = λ i p q. ground (arith, v.above i, v.here);
    below = λ i p. v.below i (omega arith) (omega arith);
    beyond = v.beyond;
  }
  skip_below-Inv calm (suc k) n idx top s e et le v =
      after_skip-Passed (Mid n idx (top - 1)) (Inv n idx)
        (skip_below hooks items num den k (top - 1)) (skip hooks items num den (top - 1) s)
        (skip-Mid calm n idx top (top - 1) s e (omega arith) (omega arith) (omega arith) v)
        (λ s' v'. skip_below-Inv calm k n idx (top - 1) s' e (omega arith) (omega arith) v')
