-- ===== src/Partition/Balance.antt =====
-- The parts that `partition` of algorithms.py makes.
use mathlib.Core.Path.{subst}
use mathlib.Core.List.{flatten}
use native.Mathlib.Nat.{le-div_iff_mul-le, div-lt_iff_lt-mul, mod-add-div', mod-lt, div-eq_of_lt}
use radical_utils.Prelude.{
  ℕ, zero, suc, ◌+◌, ◌-◌, ◌*◌, ◌/◌, ◌%◌, ◌≤◌, ◌<◌, min, ◌≡◌, refl, sym, ap, ◌∙◌, ◌⊎◌, inl, inr,
  List, [], ◌∷◌, ◌++◌, length, take, drop, leb, ltb, ◌==◌, arith, take-append-drop, length-take,
  length-drop, Bool-cases,
}
use radical_utils.Partition.{next_end, slice, parts_from, partition}

-- Quotient and rest are the only ones.
div-mul_add : (p q r : ℕ) → r < p → (q * p + r) / p ≡ q
div-mul_add p q r less =
    let pos : 0 < p = omega arith in
    let low : q ≤ (q * p + r) / p =
      (le-div_iff_mul-le {k = p} {x = q} {y = q * p + r} pos).1 (omega arith) in
    let high : (q * p + r) / p < suc q =
      (div-lt_iff_lt-mul {k = p} {x = q * p + r} {y = suc q} pos).1 (grind arith) in
    omega arith

mod-mul_add : (p q r : ℕ) → r < p → (q * p + r) % p ≡ r
mod-mul_add p q r less =
    let whole = mod-add-div' (q * p + r) p in
    let exact = rw (div-mul_add p q r less) at whole in omega arith

-- Where the parts before `k` end, for `r` parts that have one element more than `q`.
unfoldable ends : ℕ → ℕ → ℕ → ℕ
ends q r k = k * q + min k r

next_end-ends :
    (p q r k : ℕ) → r < p → k < p → next_end (q * p + r) p k (ends q r k) ≡ ends q r (suc k)
unfolding next_end ends
next_end-ends p q r k less inside =
    let more : suc k * q ≡ k * q + q = grind arith in
    elim (Bool-cases (leb k r)) [
      | inl early ↦
          let same : q * p + r - k ≡ q * p + (r - k) = ground arith in
          let quotient = ap (λ a. a / p) same ∙ div-mul_add p q (r - k) (omega arith) in
          let rest = ap (λ a. a % p) same ∙ mod-mul_add p q (r - k) (omega arith) in
          ground (arith, more, quotient, rest)
      | inr late ↦ elim (Bool-cases (q == 0)) [
        | inl none_whole ↦
            let zero_q : q ≡ 0 = ground arith in
            let nothing : q * p ≡ 0 = ap (λ a. a * p) zero_q ∙ omega arith in
            let outside : (k - (q * p + r)) / p ≡ 0 = div-eq_of_lt (omega arith) in
            ground (arith, more, nothing, outside)
        | inr some_whole ↦
            let positive : q ≡ suc (q - 1) = ground arith in
            let split : q * p ≡ (q - 1) * p + p = ap (λ a. a * p) positive ∙ grind arith in
            let behind : r < k = ground arith in
            let same : q * p + r - k ≡ (q - 1) * p + (p + r - k) = omega arith in
            let quotient = ap (λ a. a / p) same ∙ div-mul_add p (q - 1) (p + r - k) (omega arith) in
            let rest = ap (λ a. a % p) same ∙ mod-mul_add p (q - 1) (p + r - k) (omega arith) in
            ground (arith, more, quotient, rest)
      ]
    ]

drop-nil : {A : Type 0} (n : ℕ) → drop {A = A} n [] ≡ []
drop-nil zero = refl
drop-nil (suc n) = refl

drop-drop : {A : Type 0} (a b c : ℕ) (xs : List A) → a + c ≡ b → drop c (drop a xs) ≡ drop b xs
drop-drop zero b c xs e = ap (λ n. drop n xs) (omega arith)
drop-drop (suc a) b c [] e = drop-nil c ∙ sym (drop-nil b)
drop-drop (suc a) zero c (x ∷ xs) e = absurd (omega arith)
drop-drop (suc a) (suc b) c (x ∷ xs) e = drop-drop a b c xs (omega arith)

drop_all : {A : Type 0} (n : ℕ) (xs : List A) → length xs ≤ n → drop n xs ≡ []
drop_all n [] h = drop-nil n
drop_all zero (x ∷ xs) h = absurd (omega arith)
drop_all (suc n) (x ∷ xs) h = drop_all n xs (omega arith)

-- A part and what follows it.
slice_then : {A : Type 0} (a b : ℕ) (xs : List A) → a ≤ b → slice a b xs ++ drop b xs ≡ drop a xs
unfolding slice
slice_then a b xs h =
    ap (λ r. take (b - a) (drop a xs) ++ r) (sym (drop-drop a b (b - a) xs (omega arith)))
    ∙ take-append-drop (b - a) (drop a xs)

length-slice : {A : Type 0} (a b : ℕ) (xs : List A) → b ≤ length xs → length (slice a b xs) ≡ b - a
unfolding slice
length-slice a b xs h = omega (arith, length-take (b - a) (drop a xs), length-drop a xs)

-- Each part has `q` elements, or one more.
abbrev pub IsBalanced : {A : Type 0} → ℕ → List (List A) → Type 0
IsBalanced q [] = Unit {0}
IsBalanced q (part ∷ parts) = ((length part ≡ q) ⊎ (length part ≡ suc q)) × IsBalanced q parts

module _ {A : Type 0} (space : List A) (p q r : ℕ) (less : r < p)
    (whole : length space ≡ q * p + r) where
  end_advances : (k : ℕ) → k < p → next_end (length space) p k (ends q r k) ≡ ends q r (suc k)
  end_advances k inside = rw whole (next_end-ends p q r k less inside)

  ends_within : (k : ℕ) → k ≤ p → ends q r k ≤ length space
  unfolding ends
  ends_within k inside = let part : k * q ≤ q * p = grind arith in omega (arith, whole)

  ends_all : (k : ℕ) → k + 0 ≡ p → length space ≤ ends q r k
  unfolding ends
  ends_all k e =
      let last : k ≡ p = omega arith in
      let product : k * q ≡ q * p = ap (λ a. a * q) last ∙ grind arith in omega (arith, whole)

  -- A part starts where the one before it ends, and has `q` elements or one more.
  ends_next :
      (k : ℕ) → (ends q r (suc k) ≡ ends q r k + q) ⊎ (ends q r (suc k) ≡ ends q r k + suc q)
  unfolding ends
  ends_next k =
      let more : suc k * q ≡ k * q + q = grind arith in
      elim (Bool-cases (ltb k r)) [
        | inl y ↦ inr (ground (arith, more))
        | inr n ↦ inl (ground (arith, more))
      ]

  ends_mono : (k : ℕ) → ends q r k ≤ ends q r (suc k)
  ends_mono k = elim (ends_next k) [ inl e ↦ omega (arith, e) | inr e ↦ omega (arith, e) ]

  parts_from-flatten :
      (left k : ℕ)
      → k + left ≡ p
      → flatten (parts_from p left k (ends q r k) space) ≡ drop (ends q r k) space
  unfolding parts_from flatten
  parts_from-flatten zero k e = sym (drop_all (ends q r k) space (ends_all k e))
  parts_from-flatten (suc left) k e =
      rw (end_advances k (omega arith), parts_from-flatten left (suc k) (omega arith))
        (slice_then (ends q r k) (ends q r (suc k)) space (ends_mono k))

  length-parts_from : (left k b : ℕ) → length (parts_from p left k b space) ≡ left
  unfolding parts_from
  length-parts_from zero k b = refl
  length-parts_from (suc left) k b = ap suc (length-parts_from left (suc k) _)

  parts_from-IsBalanced :
      (left k : ℕ) → k + left ≡ p → IsBalanced q (parts_from p left k (ends q r k) space)
  unfolding parts_from
  parts_from-IsBalanced zero k e = tt
  parts_from-IsBalanced (suc left) k e =
      let size =
        length-slice (ends q r k) (ends q r (suc k)) space (ends_within (suc k) (omega arith)) in
      rw (end_advances k (omega arith)) (
        elim (ends_next k) [
          | inl f ↦ inl (omega (arith, size, f))
          | inr f ↦ inr (omega (arith, size, f))
        ],
        parts_from-IsBalanced left (suc k) (omega arith),
      )

ends_start : (q r : ℕ) → ends q r 0 ≡ 0
unfolding ends
ends_start q r = omega arith

-- For one part at least: there are as many parts as were asked for, they give the space back in
-- its order, and each has the number of elements divided by that of the parts, or one more.
pub partition_lem :
    {A : Type 0} (space : List A) (nparts : ℕ)
    → 1 ≤ nparts
    → (length (partition space nparts) ≡ nparts)
      × (flatten (partition space nparts) ≡ space)
      × IsBalanced (length space / nparts) (partition space nparts)
unfolding partition
partition_lem space nparts some_part =
    let n = length space in
    let less = mod-lt n some_part in
    let whole : n ≡ n / nparts * nparts + n % nparts = omega (arith, mod-add-div' n nparts) in
    let first = ends_start (n / nparts) (n % nparts) in
    (
      length-parts_from space nparts (n / nparts) (n % nparts) less whole nparts 0 0,
      subst (λ b. flatten (parts_from nparts nparts 0 b space) ≡ drop b space) first
          (parts_from-flatten space nparts (n / nparts) (n % nparts) less whole nparts 0
            (omega arith)),
      subst (λ b. IsBalanced (n / nparts) (parts_from nparts nparts 0 b space)) first
          (parts_from-IsBalanced space nparts (n / nparts) (n % nparts) less whole nparts 0
            (omega arith)),
    )
