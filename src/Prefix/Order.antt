-- ===== src/Prefix/Order.antt =====
-- The order of texts that `remove_common_prefix` of algorithms.py relies on.
use radical_utils.Prelude.{
  ◌≡◌, refl, Bool, true, false, List, [], ◌∷◌, inl, inr, Bool-cases, if◌then◌else◌, arith,
}
use radical_utils.Prelude.Chars.{Text}
use radical_utils.Prefix.{less, min_text, max_text}

-- Not above.
abbrev pub IsAtMost : Text → Text → Type 0
IsAtMost a b = less b a ≡ false

abbrev pub All {ℓ} : {A : Type 0} → (A → Type ℓ) → List A → Type ℓ
All P [] = Unit
All P (x ∷ xs) = P x × All P xs

pub IsAtMost-trans : (a b c : Text) → IsAtMost a b → IsAtMost b c → IsAtMost a c
unfolding less
IsAtMost-trans [] b [] h g = refl
IsAtMost-trans [] b (z ∷ c) h g = refl
IsAtMost-trans (x ∷ a) [] c h g = absurd (cc)
IsAtMost-trans (x ∷ a) (y ∷ b) [] h g = absurd (cc)
IsAtMost-trans (x ∷ a) (y ∷ b) (z ∷ c) h g = ground (arith, IsAtMost-trans a b c)

pub IsAtMost-refl : (a : Text) → IsAtMost a a
unfolding less
IsAtMost-refl [] = refl
IsAtMost-refl (x ∷ a) = ground (arith, IsAtMost-refl a)

IsAtMost-less : (a b : Text) → less a b ≡ true → IsAtMost a b
unfolding less
IsAtMost-less [] [] h = absurd (cc)
IsAtMost-less [] (y ∷ b) h = refl
IsAtMost-less (x ∷ a) [] h = absurd (cc)
IsAtMost-less (x ∷ a) (y ∷ b) h = ground (arith, IsAtMost-less a b)

min_two :
    (x y : Text) → IsAtMost (if less y x then y else x) x × IsAtMost (if less y x then y else x) y
min_two x y = elim (Bool-cases (less y x)) [
  | inl e ↦ rw e (IsAtMost-less y x e, IsAtMost-refl y)
  | inr n ↦ rw n (IsAtMost-refl x, n)
]

max_two :
    (x y : Text) → IsAtMost x (if less x y then y else x) × IsAtMost y (if less x y then y else x)
max_two x y = elim (Bool-cases (less x y)) [
  | inl e ↦ rw e (IsAtMost-less x y e, IsAtMost-refl y)
  | inr n ↦ rw n (IsAtMost-refl x, n)
]

pub IsAtMost-min_text : (x : Text) (xs : List Text) → All (IsAtMost (min_text x xs)) (x ∷ xs)
unfolding min_text
IsAtMost-min_text x [] = (IsAtMost-refl x, tt)
IsAtMost-min_text x (y ∷ ys) =
    let (to_x, to_y) = min_two x y in
    let (below, rest) = IsAtMost-min_text (if less y x then y else x) ys in
    (IsAtMost-trans _ _ x below to_x, (IsAtMost-trans _ _ y below to_y, rest))

pub IsAtMost-max_text : (x : Text) (xs : List Text) → All (λ y. IsAtMost y (max_text x xs)) (x ∷ xs)
unfolding max_text
IsAtMost-max_text x [] = (IsAtMost-refl x, tt)
IsAtMost-max_text x (y ∷ ys) =
    let (to_x, to_y) = max_two x y in
    let (above, rest) = IsAtMost-max_text (if less x y then y else x) ys in
    (IsAtMost-trans x _ _ to_x above, (IsAtMost-trans y _ _ to_y above, rest))

module _ {ℓ} (P : Text → Type ℓ) where
  either : (b : Bool) (x y : Text) → P x → P y → P (if b then y else x)
  either true x y hx hy = hy
  either false x y hx hy = hx

  pub min_text-All : (x : Text) (xs : List Text) → All P (x ∷ xs) → P (min_text x xs)
  unfolding min_text
  min_text-All x [] (hx, _) = hx
  min_text-All x (y ∷ ys) (hx, (hy, rest)) =
      min_text-All (if less y x then y else x) ys (either (less y x) x y hx hy, rest)

  pub max_text-All : (x : Text) (xs : List Text) → All P (x ∷ xs) → P (max_text x xs)
  unfolding max_text
  max_text-All x [] (hx, _) = hx
  max_text-All x (y ∷ ys) (hx, (hy, rest)) =
      max_text-All (if less x y then y else x) ys (either (less x y) x y hx hy, rest)
