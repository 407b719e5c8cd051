-- ===== src/Env/Quotes.antt =====
-- The quotes of env.py.
use radical_utils.Prelude.{
  ℕ, ◌≡◌, refl, ap, ◌∙◌, true, false, [], ◌∷◌, ◌++◌, ◌==◌, inl, inr, Bool-cases, arith,
}
use radical_utils.Prelude.Chars.{Text, has_char}
use radical_utils.Env.{
  escape, needs_double, quote, unescape, starts_with, ends_with, drop_last, inner, unquote,
}

escape_none : (q : ℕ) (d : Text) → has_char q d ≡ false → escape q d ≡ d
unfolding escape has_char
escape_none q [] h = refl
escape_none q (c ∷ cs) h = ground (arith, escape_none q cs)

-- Before an escaped text only its own first character can be changed.
unescape_first :
    (c : ℕ) (d : Text)
    → (c == b'"') ≡ false
    → unescape (c ∷ escape b'"' d) ≡ c ∷ unescape (escape b'"' d)
unfolding escape unescape
unescape_first c [] n = refl
unescape_first c (d ∷ ds) n = ground arith

unescape-escape : (d : Text) → unescape (escape b'"' d) ≡ d
unfolding escape unescape
unescape-escape [] = refl
unescape-escape (c ∷ cs) = elim (Bool-cases (c == b'"')) [
  | inl e ↦ let same : c ≡ b'"' = ground arith in rw (e) (ground (arith, same, unescape-escape cs))
  | inr n ↦ rw (n) (unescape_first c cs n ∙ ap (λ t. c ∷ t) (unescape-escape cs))
]

ends_with_snoc : (q : ℕ) (d : Text) → ends_with q (d ++ q ∷ []) ≡ true
unfolding ends_with
ends_with_snoc q [] = ground arith
ends_with_snoc q (c ∷ []) = ground arith
ends_with_snoc q (c ∷ d ∷ ds) = ends_with_snoc q (d ∷ ds)

drop_last_snoc : (q : ℕ) (d : Text) → drop_last (d ++ q ∷ []) ≡ d
unfolding drop_last
drop_last_snoc q [] = refl
drop_last_snoc q (c ∷ []) = refl
drop_last_snoc q (c ∷ d ∷ ds) = ap (λ t. c ∷ t) (drop_last_snoc q (d ∷ ds))

ends_with_cons : (q c : ℕ) (d : Text) → ends_with q (c ∷ (d ++ q ∷ [])) ≡ true
unfolding ends_with
ends_with_cons q c [] = ground arith
ends_with_cons q c (x ∷ d) = ends_with_snoc q (x ∷ d)

dollar-escape : (d : Text) → has_char b'$' (escape b'"' d) ≡ has_char b'$' d
unfolding has_char escape
dollar-escape [] = refl
dollar-escape (c ∷ cs) = ground (arith, dollar-escape cs)

unquote_double : (t : Text) → unquote (b'"' ∷ (t ++ b'"' ∷ [])) ≡ unescape t
unfolding unquote starts_with inner
unquote_double t = rw (ends_with_cons b'"' b'"' t) (ap unescape (drop_last_snoc b'"' t))

unquote_single : (t : Text) → unquote (b'\'' ∷ (t ++ b'\'' ∷ [])) ≡ t
unfolding unquote starts_with inner
unquote_single t = rw (ends_with_cons b'\'' b'\'' t) (drop_last_snoc b'\'' t)

-- A text without a dollar sign is the same after `_quote` put it in quotes and `_unquote` took it
-- out again, whatever quotes, backticks and backslashes it has.
pub unquote-quote : (d : Text) → has_char b'$' d ≡ false → unquote (quote d) ≡ d
unfolding quote
unquote-quote d plain = elim (Bool-cases (needs_double d)) [
  | inl e ↦
      let no_dollar = escape_none b'$' (escape b'"' d) (dollar-escape d ∙ plain) in
      rw (e, no_dollar) (unquote_double (escape b'"' d) ∙ unescape-escape d)
  | inr n ↦ rw n (unquote_single d)
]
