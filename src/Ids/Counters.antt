-- ===== src/Ids/Counters.antt =====
-- The numbers that the registry of ids.py gives out.
use radical_utils.Prelude.{
  ℕ, ◌+◌, ◌≡◌, refl, ◌∙◌, Bool, true, false, List, [], ◌∷◌, inl, inr, if◌then◌else◌, arith,
  Option-cases,
}
use radical_utils.Prelude.Eq.{Eq}
use radical_utils.Prelude.Dict.{Dict, lookup, lookup-insert, lookup-insert_self}
use radical_utils.Ids.{ensure, read, get_counter, reset_others, reset_counter}

pub data Call (K : Type 0) : Type 0 where
  gets : K → Call K
  resets : K → Bool → Call K

module _ {K : Type 0} ⦃e : Eq K⦄ where
  unfoldable pub apply : Call K → Dict K ℕ → Dict K ℕ
  apply (gets k) r = (get_counter k r).1
  apply (resets k others) r = reset_counter k others r

  -- The registry after some calls, the latest first.
  unfoldable pub after : List (Call K) → Dict K ℕ
  after [] = []
  after (c ∷ earlier) = apply c (after earlier)

  -- How often a number was got for the prefix since a reset that concerns it.
  unfoldable pub got_since_reset : K → List (Call K) → ℕ
  got_since_reset k [] = 0
  got_since_reset k (gets j ∷ earlier) = (if e.beq j k then 1 else 0) + got_since_reset k earlier
  got_since_reset k (resets j true ∷ earlier) = if e.beq j k then got_since_reset k earlier else 0
  got_since_reset k (resets j false ∷ earlier) = if e.beq j k then 0 else got_since_reset k earlier

  get_counter_lem : (k : K) (r : Dict K ℕ) → (get_counter k r).0 ≡ read (lookup k r)
  unfolding get_counter ensure read
  get_counter_lem k r = elim (Option-cases (lookup k r)) [
    | inl missing ↦ rw (missing, ensure, lookup-insert_self k 0 r, read) refl
    | inr (n, found) ↦ rw (found, ensure, found, read) refl
  ]

  read-ensure :
      (k j : K) (r : Dict K ℕ) → read (lookup j (ensure k (lookup k r) r)) ≡ read (lookup j r)
  unfolding ensure read
  read-ensure k j r = ground (arith, lookup-insert k j 0 r, e.beq_iff k j)

  read-get_counter :
      (k j : K) (r : Dict K ℕ)
      → read (lookup j (get_counter k r).1) ≡ (if e.beq k j then 1 else 0) + read (lookup j r)
  unfolding get_counter read
  read-get_counter k j r =
      let r' = ensure k (lookup k r) r in
      ground
        (arith, lookup-insert k j (read (lookup k r') + 1) r', read-ensure k j r, e.beq_iff k j)

  read-reset_others :
      (k j : K) (r : Dict K ℕ)
      → read (lookup j (reset_others k r)) ≡ (if e.beq k j then read (lookup j r) else 0)
  unfolding reset_others read lookup
  read-reset_others k j [] = ground arith
  read-reset_others k j ((i, n) ∷ r) =
      ground (arith, e.beq_iff k j, e.beq_iff i k, e.beq_iff i j, read-reset_others k j r)

  read-after :
      (k : K) (calls : List (Call K)) → read (lookup k (after calls)) ≡ got_since_reset k calls
  unfolding after apply got_since_reset reset_counter lookup read
  read-after k [] = refl
  read-after k (gets j ∷ earlier) =
      ground (arith, read-get_counter j k (after earlier), read-after k earlier)
  read-after k (resets j true ∷ earlier) =
      ground (arith, read-reset_others j k (after earlier), read-after k earlier)
  read-after k (resets j false ∷ earlier) =
      ground (arith, lookup-insert j k 0 (after earlier), read-after k earlier)

  -- After any calls of `get_counter` and `reset_counter`, for any prefixes: the number that is
  -- got for a prefix is how often one was got for it since the last reset that concerns it.
  pub get_counter-after :
      (k : K) (calls : List (Call K)) → (get_counter k (after calls)).0 ≡ got_since_reset k calls
  get_counter-after k calls = get_counter_lem k (after calls) ∙ read-after k calls
