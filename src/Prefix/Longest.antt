-- ===== src/Prefix/Longest.antt =====
-- The prefix that `remove_common_prefix` of algorithms.py removes.
use mathlib.Core.Path.{subst}
use radical_utils.Prelude.{
  ℕ, suc, ◌≤◌, ◌≡◌, ◌≢◌, refl, sym, ap, ◌∙◌, true, false, some, List, [], ◌∷◌, ◌++◌, map, length,
  ◌==◌, arith, inl, inr, Bool-cases,
}
use radical_utils.Prelude.Chars.{Text}
use radical_utils.Prefix.{
  less, min_text, max_text, common, shorten, strip, or_else, find_after, or_whole, split_last,
  Result, ok, index_error, empty_separator, remove_all, remove_found, remove_common_prefix,
}
use radical_utils.Prefix.Order.{
  IsAtMost, All, IsAtMost-min_text, IsAtMost-max_text, IsAtMost-trans, min_text-All, max_text-All,
}

-- A text starts with another.
abbrev pub StartsWith : Text → Text → Type 0
StartsWith p x = (rest : Text) × (x ≡ p ++ rest)

-- The two texts have this prefix in common, and none that is longer.
record IsCommon (s1 s2 p : Text) : Type 0 where
  pub found : common s1 s2 ≡ some p
  pub first : StartsWith p s1
  pub second : StartsWith p s2
  pub longest : (q : Text) → StartsWith q s1 → StartsWith q s2 → length q ≤ length p

no_longer : (q s2 : Text) → StartsWith q [] → length q ≤ 0
no_longer [] s2 h = omega arith
no_longer (c ∷ q) s2 (rest, e) = absurd (cc)

IsCommon-cons : (c : ℕ) (s1 s2 p : Text) → IsCommon s1 s2 p → IsCommon (c ∷ s1) (c ∷ s2) (c ∷ p)
unfolding common
IsCommon-cons c s1 s2 p h =
    let same : (c == c) ≡ true = ground arith in
    let (r1, e1) = h.first in
    let (r2, e2) = h.second in
    record {
      found = rw (same, h.found) refl;
      first = (r1, ap (λ t. c ∷ t) e1);
      second = (r2, ap (λ t. c ∷ t) e2);
      longest = longer;
    }
  where
    longer : (q : Text) → StartsWith q (c ∷ s1) → StartsWith q (c ∷ s2) → length q ≤ suc (length p)
    longer [] a b = omega arith
    longer (d ∷ q) (u, a) (v, b) = omega (arith, h.longest q (u, cc) (v, cc))

IsCommon-apart : (c d : ℕ) (s1 s2 : Text) → (c == d) ≡ false → IsCommon (c ∷ s1) (d ∷ s2) []
unfolding common
IsCommon-apart c d s1 s2 ne = record {
  found = rw ne refl;
  first = (c ∷ s1, refl);
  second = (d ∷ s2, refl);
  longest = longer;
}
  where
    longer : (q : Text) → StartsWith q (c ∷ s1) → StartsWith q (d ∷ s2) → length q ≤ 0
    longer [] a b = omega arith
    longer (x ∷ q) (u, a) (v, b) =
        let from_a : c ≡ x = cc in
        let from_b : d ≡ x = cc in absurd (ground (arith, from_a, from_b, ne))

IsCommon-found : (s1 s2 : Text) → IsAtMost s1 s2 → (p : Text) × IsCommon s1 s2 p
unfolding common less
IsCommon-found [] s2 h = (
  [],
  record {
    found = refl;
    first = ([], refl);
    second = (s2, refl);
    longest = λ q a b. no_longer q s2 a;
  },
)
IsCommon-found (c ∷ s1) [] h = absurd (cc)
IsCommon-found (c ∷ s1) (d ∷ s2) h = elim (Bool-cases (c == d)) [
  | inl e ↦
      let same : c ≡ d = ground arith in
      let (p, common_p) = IsCommon-found s1 s2 (ground arith) in
      (
        c ∷ p,
        subst (λ y. IsCommon (c ∷ s1) (y ∷ s2) (c ∷ p)) same (IsCommon-cons c s1 s2 p common_p),
      )
  | inr n ↦ ([], IsCommon-apart c d s1 s2 n)
]

-- What two texts start with, each text between them starts with.
sandwich :
    (p s1 s2 x : Text)
    → IsAtMost s1 x
    → IsAtMost x s2
    → StartsWith p s1
    → StartsWith p s2
    → StartsWith p x
unfolding less
sandwich [] s1 s2 x low high a b = (x, refl)
sandwich (c ∷ p) [] s2 x low high (u, a) b = absurd (cc)
sandwich (c ∷ p) (i ∷ s1) [] x low high a (v, b) = absurd (cc)
sandwich (c ∷ p) (i ∷ s1) (j ∷ s2) [] low high a b = absurd (cc)
sandwich (c ∷ p) (i ∷ s1) (j ∷ s2) (k ∷ x) low high (u, a) (v, b) =
    let first : i ≡ c = cc in
    let second : j ≡ c = cc in
    let middle : k ≡ c = ground (arith, first, second) in
    let (rest, e) =
      sandwich p s1 s2 x (ground (arith, first, second)) (ground (arith, first, second)) (u, cc)
        (v, cc) in
    (rest, cc)

All-zip :
    {P Q R : Text → Type 0} (xs : List Text)
    → ((x : Text) → P x → Q x → R x)
    → All P xs
    → All Q xs
    → All R xs
All-zip [] f ps qs = tt
All-zip (x ∷ xs) f (p, ps) (q, qs) = (f x p q, All-zip xs f ps qs)

strip_own : (p rest : Text) → strip p (p ++ rest) ≡ some rest
unfolding strip
strip_own [] rest = refl
strip_own (c ∷ p) rest = ground (arith, strip_own p rest)

split_last_own : (c : ℕ) (p rest : Text) → split_last (c ∷ p) ((c ∷ p) ++ rest) ≡ rest
unfolding split_last find_after or_whole or_else
split_last_own c p rest = rw (strip_own (c ∷ p) rest) refl

restored :
    (c : ℕ) (p : Text) (xs : List Text)
    → All (StartsWith (c ∷ p)) xs
    → xs ≡ map (λ r. (c ∷ p) ++ r) (map (split_last (c ∷ p)) xs)
restored c p [] h = refl
restored c p (x ∷ xs) ((rest, e), more) =
    let cut = ap (split_last (c ∷ p)) e ∙ split_last_own c p rest in
    ap (λ y. y ∷ xs) (e ∙ ap (λ r. (c ∷ p) ++ r) (sym cut))
    ∙ ap (λ ys. ((c ∷ p) ++ split_last (c ∷ p) x) ∷ ys) (restored c p xs more)

-- The texts are what is returned, each with the prefix before it; without a prefix Python raises.
abbrev pub Removed : Text → List Text → Result → Type 0
Removed p xs (ok rests) = (p ≢ []) × (xs ≡ map (λ r. p ++ r) rests)
Removed p xs empty_separator = p ≡ []
Removed p xs index_error = ⊥

remove_all-Removed :
    (p : Text) (xs : List Text) → All (StartsWith p) xs → Removed p xs (remove_all p xs)
unfolding remove_all
remove_all-Removed [] xs h = refl
remove_all-Removed (c ∷ p) xs h = (λ e. absurd (cc), restored c p xs h)

-- For one text at least, and without letters to keep, what `remove_common_prefix` removes is the
-- longest prefix that all texts have: each text is the prefix followed by what is returned for
-- it. Where the texts have no prefix in common, the call raises. No text is read past its end.
pub remove_common_prefix-Removed :
    (x : Text) (xs : List Text)
    → (p : Text) × All (StartsWith p) (x ∷ xs)
      × ((q : Text) → All (StartsWith q) (x ∷ xs) → length q ≤ length p)
      × Removed p (x ∷ xs) (remove_common_prefix (x ∷ xs) 0)
unfolding remove_common_prefix remove_found shorten
remove_common_prefix-Removed x xs =
    let s1 = min_text x xs in
    let s2 = max_text x xs in
    let above = IsAtMost-min_text x xs in
    let below = IsAtMost-max_text x xs in
    let ordered = IsAtMost-trans s1 x s2 above.0 below.0 in
    let (p, h) = IsCommon-found s1 s2 ordered in
    let all =
      All-zip (x ∷ xs) (λ y low high. sandwich p s1 s2 y low high h.first h.second) above below in
    (
      p,
      all,
      λ q starts.
          h.longest q (min_text-All (StartsWith q) x xs starts)
            (max_text-All (StartsWith q) x xs starts),
      rw (h.found) (remove_all-Removed p (x ∷ xs) all),
    )
