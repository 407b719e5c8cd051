-- ===== src/Bisect/Verdicts.antt =====
-- The lists of `lazy_bisect` of algorithms.py, for a check that changes nothing: what a probe, a lookup
-- and the skipped elements add to them.
use radical_utils.Prelude.{
  ℕ, zero, suc, ◌+◌, ◌-◌, ◌≤◌, ◌<◌, ◌≡◌, refl, sym, Bool, true, false, inl, inr, none, some, List,
  [], ◌∷◌, ◌++◌, arith, get_elem?, contains, String, ◌&&◌, not, Bool-cases, Option-cases,
}
use radical_utils.Bisect.{
  Verdict, accepted, rejected, unclear, failed, Hooks, Search, after_hook, record_verdict,
  wrapcheck, Passage, passed, escapes, note_skipped, after_skip, probe, lookup_or_probe, skip,
  skip_below,
}

-- A check without effect, and no callbacks.
abbrev pub pure_hooks : {A : Type 0} → (A → Verdict) → Hooks A (Unit {0})
pure_hooks f = record {
  check = λ w x. (w, f x);
  on_ok = λ w x. (w, none);
  on_nok = λ w x. (w, none);
  on_skip = λ w x. (w, none);
}

unfoldable pub is_accepted : Verdict → Bool
is_accepted accepted = true
is_accepted rejected = false
is_accepted unclear = false
is_accepted (failed e) = false

module _ {A : Type 0} (f : A → Verdict) (items : List A) where
  -- What the check says of an index.
  unfoldable pub verdict_at : ℕ → Bool
  verdict_at i = elim (get_elem? items i) [ none ↦ false | some x ↦ is_accepted (f x) ]

  abbrev pub AllVerdicts : Bool → List ℕ → Type 0
  AllVerdicts b [] = Unit {0}
  AllVerdicts b (i ∷ is) = (verdict_at i ≡ b) × AllVerdicts b is

  abbrev pub AllFail : List (ℕ × String) → Type 0
  AllFail [] = Unit {0}
  AllFail ((i, e) ∷ rest) = (verdict_at i ≡ false) × AllFail rest

  -- The good indices are accepted, and the others are not.
  abbrev pub Agrees : Search (Unit {0}) → Type 0
  Agrees s = AllVerdicts true s.check_good × AllVerdicts false s.check_bad × AllFail s.check_fail

  verdicts-snoc :
      (b : Bool) (i : ℕ) (is : List ℕ)
      → verdict_at i ≡ b
      → AllVerdicts b is
      → AllVerdicts b (is ++ i ∷ [])
  verdicts-snoc b i [] h v = (h, tt)
  verdicts-snoc b i (j ∷ js) h (hj, v) = (hj, verdicts-snoc b i js h v)

  fail-snoc :
      (i : ℕ) (e : String) (is : List (ℕ × String))
      → verdict_at i ≡ false
      → AllFail is
      → AllFail (is ++ (i, e) ∷ [])
  fail-snoc i e [] h v = (h, tt)
  fail-snoc i e (j ∷ js) h (hj, v) = (hj, fail-snoc i e js h v)

  verdicts-contains :
      (b : Bool) (i : ℕ) (is : List ℕ) → contains i is ≡ true → AllVerdicts b is → verdict_at i ≡ b
  unfolding contains
  verdicts-contains b i [] h v = absurd (cc)
  verdicts-contains b i (j ∷ js) h v = ground (arith, verdicts-contains b i js)

  -- A search and an answer on an index.
  abbrev pub Answers : ℕ → Search (Unit {0}) × Bool → Type 0
  Answers idx (s, ret) = Agrees s × (ret ≡ verdict_at idx)

  record_verdict-Answers :
      (idx : ℕ) (s : Search (Unit {0})) (w : Unit {0}) (v : Verdict)
      → is_accepted v ≡ verdict_at idx
      → Agrees s
      → Answers idx (record_verdict idx s (w, v))
  unfolding record_verdict is_accepted
  record_verdict-Answers idx s w accepted h (g, b, x) =
      ((verdicts-snoc true idx s.check_good (sym h) g, b, x), h)
  record_verdict-Answers idx s w rejected h (g, b, x) =
      ((g, verdicts-snoc false idx s.check_bad (sym h) b, x), h)
  record_verdict-Answers idx s w unclear h (g, b, x) =
      ((g, verdicts-snoc false idx s.check_bad (sym h) b, x), h)
  record_verdict-Answers idx s w (failed e) h (g, b, x) =
      ((g, b, fail-snoc idx e s.check_fail (sym h) x), h)

  wrapcheck_pure :
      (num den : ℕ) (w : Unit {0}) (x : A) → wrapcheck (pure_hooks f) items num den w x ≡ (w, f x)
  unfolding wrapcheck after_hook
  wrapcheck_pure num den w x = go (f x)
    where
      go :
          (v : Verdict)
          → ◌≡◌ {A = Unit {0} × Verdict}
              (elim v [
                | accepted ↦ after_hook accepted (w, none)
                | rejected ↦ after_hook rejected (w, none)
                | unclear ↦ (w, unclear)
                | failed e ↦ (w, failed e)
              ])
              (w, v)
      go accepted = refl
      go rejected = refl
      go unclear = refl
      go (failed e) = refl

  verdict_miss : (i : ℕ) → get_elem? items i ≡ none → verdict_at i ≡ false
  unfolding verdict_at
  verdict_miss i e = rw (e, verdict_at)

  verdict_hit : (i : ℕ) (x : A) → get_elem? items i ≡ some x → verdict_at i ≡ is_accepted (f x)
  unfolding verdict_at
  verdict_hit i x e = rw (e, verdict_at)

  -- No index above one that is not accepted is accepted.
  abbrev pub IsMonotone : Type 0
  IsMonotone = (i j : ℕ) → i ≤ j → verdict_at i ≡ false → verdict_at j ≡ false

  module _ (num den : ℕ) where
    pub probe-Answers :
        (idx : ℕ) (s : Search (Unit {0}))
        → Agrees s
        → Answers idx (probe (pure_hooks f) items num den idx s)
    unfolding probe verdict_at is_accepted
    probe-Answers idx s a = elim (Option-cases (get_elem? items idx)) [
      | inl miss ↦
          rw (miss, probe)
            (record_verdict-Answers idx s s.world (failed "list index out of range")
              (sym (verdict_miss idx miss)) a)
      | inr (x, hit) ↦
          rw (hit, probe, wrapcheck_pure num den s.world x)
            (record_verdict-Answers idx s s.world (f x) (sym (verdict_hit idx x hit)) a)
    ]

    pub lookup_or_probe-Answers :
        (idx : ℕ) (s : Search (Unit {0}))
        → Agrees s
        → Answers idx (lookup_or_probe (pure_hooks f) items num den idx s)
    unfolding lookup_or_probe
    lookup_or_probe-Answers idx s (g, b, x) = elim (Bool-cases (contains idx s.check_good)) [
      | inl t ↦ rw t ((g, b, x), sym (verdicts-contains true idx s.check_good t g))
      | inr n ↦ elim (Bool-cases (contains idx s.check_bad)) [
        | inl t ↦ rw (n, t) ((g, b, x), sym (verdicts-contains false idx s.check_bad t b))
        | inr m ↦ rw (n, m) (probe-Answers idx s (g, b, x))
      ]
    ]

    -- What the skipped elements leave.
    abbrev pub PassageAgrees : Passage (Unit {0}) → Type 0
    PassageAgrees (passed s) = Agrees s
    PassageAgrees (escapes w e) = Unit {0}

    after_skip-Agrees :
        (later : Search (Unit {0}) → Passage (Unit {0})) (p : Passage (Unit {0}))
        → PassageAgrees p
        → ((s : Search (Unit {0})) → Agrees s → PassageAgrees (later s))
        → PassageAgrees (after_skip later p)
    unfolding after_skip
    after_skip-Agrees later (passed s) h k = k s h
    after_skip-Agrees later (escapes w e) h k = tt

    skip-Agrees :
        (this : ℕ) (s : Search (Unit {0}))
        → verdict_at this ≡ false
        → Agrees s
        → PassageAgrees (skip (pure_hooks f) items num den this s)
    unfolding skip note_skipped
    skip-Agrees this s h (g, b, x) =
        elim (Bool-cases (not (contains this s.check_bad) && not (contains this s.check_good))) [
          | inr known ↦ rw (known, skip) (g, b, x)
          | inl unknown ↦ elim (Option-cases (get_elem? items this)) [
            | inl miss ↦ rw (unknown, skip, miss) tt
            | inr (thing, hit) ↦
                rw (unknown, skip, hit) (g, verdicts-snoc false this s.check_bad h b, x)
          ]
        ]

    pub skip_below-Agrees :
        (idx n top : ℕ) (s : Search (Unit {0}))
        → idx + n < top
        → ((j : ℕ) → idx < j → verdict_at j ≡ false)
        → Agrees s
        → PassageAgrees (skip_below (pure_hooks f) items num den n top s)
    unfolding skip_below
    skip_below-Agrees idx zero top s h k a = a
    skip_below-Agrees idx (suc n) top s h k a =
        after_skip-Agrees (skip_below (pure_hooks f) items num den n (top - 1))
          (skip (pure_hooks f) items num den (top - 1) s)
          (skip-Agrees (top - 1) s (k (top - 1) (omega arith)) a)
          (λ s' a'. skip_below-Agrees idx n (top - 1) s' (omega arith) k a')
