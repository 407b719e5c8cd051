-- ===== src/Prelude/Chars.antt =====
-- Python's texts as lists of code points, and the operations on them that the program uses.
use Prim.Native.Nat.{ℕ, zero, suc}
use Prim.Native.Char.{code}
use Prim.Native.String.{String}
use mathlib.Core.Path.{◌≡◌, refl, ap, ◌∙◌}
use mathlib.Core.Logic.{◌↔◌}
use mathlib.Core.Bool.{Bool, true, false, ◌&&◌}
use mathlib.Core.List.{List, [], ◌∷◌, ◌++◌}
use native.Mathlib.Omega.{arith}
use radical_utils.Prelude.Tests.{◌==◌, if◌then◌else◌}
use radical_utils.Prelude.Eq.{Eq}

abbrev pub Text : Type 0
Text = List ℕ

-- The code points of a literal.
abbrev pub codes : String → Text
codes String.[] = []
codes (String.◌∷◌ c s) = code c ∷ codes s

unfoldable pub same_text : Text → Text → Bool
same_text [] [] = true
same_text [] (d ∷ ds) = false
same_text (c ∷ cs) [] = false
same_text (c ∷ cs) (d ∷ ds) = c == d && same_text cs ds

pub same_text_iff : (a b : Text) → (same_text a b ≡ true) ↔ (a ≡ b)
unfolding same_text
same_text_iff [] [] = ground arith
same_text_iff [] (d ∷ ds) = ground arith
same_text_iff (c ∷ cs) [] = ground arith
same_text_iff (c ∷ cs) (d ∷ ds) = ground (arith, same_text_iff cs ds)

instance abbrev pub text_eq : Eq Text
text_eq = record { beq = same_text; beq_iff = same_text_iff }

unfoldable pub add_first : ℕ → List Text → List Text
add_first c [] = (c ∷ []) ∷ []
add_first c (w ∷ ws) = (c ∷ w) ∷ ws

-- `split` at each place where the separator is; it has a word more than there are separators.
unfoldable pub split : ℕ → Text → List Text
split sep [] = [] ∷ []
split sep (c ∷ cs) = let rest = split sep cs in if c == sep then [] ∷ rest else add_first c rest

-- `split` with a bound on the number of separators, of which the rest stays in the last word.
unfoldable pub split_max : ℕ → ℕ → Text → List Text
split_max sep zero cs = cs ∷ []
split_max sep (suc n) [] = [] ∷ []
split_max sep (suc n) (c ∷ cs) =
    let fewer = split_max sep n cs in
    let rest = split_max sep (suc n) cs in if c == sep then [] ∷ fewer else add_first c rest

unfoldable pub join : ℕ → List Text → Text
join sep [] = []
join sep (w ∷ []) = w
join sep (w ∷ v ∷ ws) = w ++ (sep ∷ join sep (v ∷ ws))

unfoldable pub replace : ℕ → ℕ → Text → Text
replace old new [] = []
replace old new (c ∷ cs) = (if c == old then new else c) ∷ replace old new cs

unfoldable pub lstrip : ℕ → Text → Text
lstrip x [] = []
lstrip x (c ∷ cs) = let rest = lstrip x cs in if c == x then rest else c ∷ cs

unfoldable pub has_char : ℕ → Text → Bool
has_char x [] = false
has_char x (c ∷ cs) = if c == x then true else has_char x cs

-- A word without the separator is not split.
pub split_plain : (sep : ℕ) (w : Text) → has_char sep w ≡ false → split sep w ≡ w ∷ []
unfolding split has_char add_first
split_plain sep [] h = refl
split_plain sep (c ∷ cs) h = ground (arith, split_plain sep cs)

split_word :
    (sep : ℕ) (w rest : Text)
    → has_char sep w ≡ false
    → split sep (w ++ (sep ∷ rest)) ≡ w ∷ split sep rest
unfolding split has_char add_first
split_word sep [] rest h = ground arith
split_word sep (c ∷ cs) rest h = ground (arith, split_word sep cs rest)

-- None of the words has the separator.
abbrev pub NoneHave : ℕ → List Text → Type 0
NoneHave sep [] = Unit
NoneHave sep (w ∷ ws) = (has_char sep w ≡ false) × NoneHave sep ws

pub split-join :
    (sep : ℕ) (w : Text) (ws : List Text)
    → NoneHave sep (w ∷ ws)
    → split sep (join sep (w ∷ ws)) ≡ w ∷ ws
unfolding join
split-join sep w [] (h, _) = split_plain sep w h
split-join sep w (v ∷ ws) (h, more) =
    split_word sep w (join sep (v ∷ ws)) h ∙ ap (λ l. w ∷ l) (split-join sep v ws more)

NoneHave-add_first :
    (sep c : ℕ) (ws : List Text)
    → (c == sep) ≡ false
    → NoneHave sep ws
    → NoneHave sep (add_first c ws)
unfolding add_first has_char
NoneHave-add_first sep c [] ne h = (ground arith, tt)
NoneHave-add_first sep c (w ∷ ws) ne (h, more) = (ground arith, more)

NoneHave-step :
    (sep c : ℕ) (ws : List Text) (b : Bool)
    → (c == sep) ≡ b
    → NoneHave sep ws
    → NoneHave sep (if b then [] ∷ ws else add_first c ws)
unfolding has_char
NoneHave-step sep c ws true e h = (refl, h)
NoneHave-step sep c ws false e h = NoneHave-add_first sep c ws e h

-- What is split off has no separator.
pub NoneHave-split : (sep : ℕ) (cs : Text) → NoneHave sep (split sep cs)
unfolding split has_char
NoneHave-split sep [] = (refl, tt)
NoneHave-split sep (c ∷ cs) =
    NoneHave-step sep c (split sep cs) (c == sep) refl (NoneHave-split sep cs)
