-- ===== src/Env/Quoting.antt =====
-- A value is read back as it was written.
use mathlib.Core.Path.{subst}
use orbit_cli.Prelude.{
  ℕ, ◌≡◌, true, false, [], ◌∷◌, ◌++◌, none, some, ◌==◌, arith, refl, ap, ◌∙◌, ◌⊎◌, inl, inr,
  Bool-cases, append_assoc,
}
use orbit_cli.Prelude.Words.{Text, trim_space}
use orbit_cli.Env.{
  backslash, double_quote, single_quote, tab, line_feed, carriage_return, needs_quotes, replace_all,
  escape, format_value, unescape, strip_last, strip_quotes, before_comment, unquote_plain,
  unquote_env_value,
}
use orbit_cli.Env.{is_comment}

replace_all-append :
    (old : ℕ) (new s t : Text)
    → replace_all old new (s ++ t) ≡ replace_all old new s ++ replace_all old new t
unfolding replace_all
replace_all-append old new [] t = refl
replace_all-append old new (c ∷ s) t = ground (
  arith,
  replace_all-append old new s t,
  append_assoc new (replace_all old new s) (replace_all old new t),
)

-- a function that acts on each part of a text
Splits : (Text → Text) → Type 0
Splits f = (s t : Text) → f (s ++ t) ≡ f s ++ f t

compose-Splits : (f g : Text → Text) → Splits f → Splits g → Splits (λ s. f (g s))
unfolding Splits
compose-Splits f g hf hg s t = ap f (hg s t) ∙ hf (g s) (g t)

replace_all-Splits : (old : ℕ) (new : Text) → Splits (replace_all old new)
unfolding Splits
replace_all-Splits old new s t = replace_all-append old new s t

escape-Splits : Splits escape
unfolding escape
escape-Splits = compose-Splits _ _ (replace_all-Splits 36 (backslash ∷ 36 ∷ [])) (
    compose-Splits _ _ (replace_all-Splits tab (backslash ∷ b't' ∷ [])) (
      compose-Splits _ _ (replace_all-Splits carriage_return (backslash ∷ b'r' ∷ [])) (
        compose-Splits _ _ (replace_all-Splits line_feed (backslash ∷ b'n' ∷ [])) (
          compose-Splits _ _ (replace_all-Splits double_quote (backslash ∷ double_quote ∷ []))
            (replace_all-Splits backslash (backslash ∷ backslash ∷ []))))))

unescape_plain : (c : ℕ) (t : Text) → (c == backslash) ≡ false → unescape (c ∷ t) ≡ c ∷ unescape t
unfolding unescape
unescape_plain c [] plain = refl
unescape_plain c (d ∷ t) plain = rw plain refl

escape_plain :
    (c : ℕ)
    → (c == backslash) ≡ false
    → (c == double_quote) ≡ false
    → (c == line_feed) ≡ false
    → (c == carriage_return) ≡ false
    → (c == tab) ≡ false
    → (c == 36) ≡ false
    → escape (c ∷ []) ≡ c ∷ []
unfolding escape replace_all
escape_plain c h1 h2 h3 h4 h5 h6 = rw (h1, h2, h3, h4, h5, h6) refl

-- what stands for a byte is read as the byte
IsRead : ℕ → Type 0
IsRead c = (t : Text) → unescape (escape (c ∷ []) ++ t) ≡ c ∷ unescape t

IsRead-at : (c k : ℕ) → (c == k) ≡ true → IsRead k → IsRead c
IsRead-at c k e h = subst (λ b. IsRead b) (ground arith) h

escape-IsRead : (c : ℕ) → IsRead c
unfolding IsRead escape replace_all unescape
escape-IsRead c = elim (Bool-cases (c == backslash)) [
  | inl e ↦ IsRead-at c backslash e (λ t. refl)
  | inr h1 ↦ elim (Bool-cases (c == double_quote)) [
    | inl e ↦ IsRead-at c double_quote e (λ t. refl)
    | inr h2 ↦ elim (Bool-cases (c == line_feed)) [
      | inl e ↦ IsRead-at c line_feed e (λ t. refl)
      | inr h3 ↦ elim (Bool-cases (c == carriage_return)) [
        | inl e ↦ IsRead-at c carriage_return e (λ t. refl)
        | inr h4 ↦ elim (Bool-cases (c == tab)) [
          | inl e ↦ IsRead-at c tab e (λ t. refl)
          | inr h5 ↦ elim (Bool-cases (c == 36)) [
            | inl e ↦ IsRead-at c 36 e (λ t. refl)
            | inr h6 ↦ λ t.
                ap (λ s. unescape (s ++ t)) (escape_plain c h1 h2 h3 h4 h5 h6)
                ∙ unescape_plain c t h1
          ]
        ]
      ]
    ]
  ]
]

escape_empty : escape [] ≡ []
unfolding escape replace_all
escape_empty = refl

unescape_empty : unescape [] ≡ []
unfolding unescape
unescape_empty = refl

unescape-escape : (s : Text) → unescape (escape s) ≡ s
unfolding IsRead Splits
unescape-escape [] = ap unescape escape_empty ∙ unescape_empty
unescape-escape (c ∷ s) =
    ap unescape (escape-Splits (c ∷ []) s)
    ∙ (escape-IsRead c (escape s) ∙ ap (λ r. c ∷ r) (unescape-escape s))

strip_last-append : (q : ℕ) (s : Text) → strip_last q (s ++ q ∷ []) ≡ some s
unfolding strip_last
strip_last-append q [] = ground arith
strip_last-append q (c ∷ []) = ground arith
strip_last-append q (c ∷ d ∷ s) = ground (arith, strip_last-append q (d ∷ s))

before_comment-none : (s : Text) → needs_quotes s ≡ false → before_comment s ≡ none
unfolding before_comment needs_quotes
before_comment-none [] plain = refl
before_comment-none (c ∷ []) plain = refl
before_comment-none (c ∷ d ∷ s) plain = ground (arith, before_comment-none (d ∷ s))

strip_quotes_other : (q : ℕ) (c : ℕ) (s : Text) → (c == q) ≡ false → strip_quotes q (c ∷ s) ≡ none
unfolding strip_quotes
strip_quotes_other q c s other = rw other refl

head_plain :
    (c : ℕ) (val : Text)
    → needs_quotes (c ∷ val) ≡ false
    → ((c == double_quote) ≡ false) × ((c == single_quote) ≡ false) × ((c == 35) ≡ false)
unfolding needs_quotes
head_plain c val plain = (ground arith, ground arith, ground arith)

unquoted :
    (raw : Text)
    → strip_quotes double_quote raw ≡ none
    → strip_quotes single_quote raw ≡ none
    → unquote_env_value raw ≡ unquote_plain raw
unfolding unquote_env_value
unquoted raw no_double no_single = ground arith

uncommented :
    (raw : Text)
    → before_comment raw ≡ none
    → is_comment raw ≡ false
    → unquote_plain raw ≡ trim_space raw
unfolding unquote_plain
uncommented raw no_comment no_hash = ground arith

plain_value :
    (c : ℕ) (val : Text)
    → needs_quotes (c ∷ val) ≡ false
    → unquote_env_value (c ∷ val) ≡ trim_space (c ∷ val)
plain_value c val plain =
    let (no_double, no_single, no_hash) = head_plain c val plain in
    unquoted (c ∷ val) (strip_quotes_other double_quote c val no_double)
      (strip_quotes_other single_quote c val no_single)
    ∙ uncommented (c ∷ val) (before_comment-none (c ∷ val) plain) no_hash

quoted_value :
    (inner : Text) → unquote_env_value (double_quote ∷ inner ++ double_quote ∷ []) ≡ unescape inner
unfolding unquote_env_value strip_quotes
quoted_value inner = ground (arith, strip_last-append double_quote inner)

trimmed :
    (val : Text)
    → needs_quotes val ≡ false
    → (needs_quotes val ≡ true) ⊎ (trim_space val ≡ val)
    → trim_space val ≡ val
trimmed val plain (inl quoted) = absurd (ground arith)
trimmed val plain (inr same) = same

-- A value that FormatValue puts into quotes, or that has no space at an end, is read back by
-- unquoteEnvValue as it was.
pub unquote_env_value-format_value :
    (val : Text)
    → (needs_quotes val ≡ true) ⊎ (trim_space val ≡ val)
    → unquote_env_value (format_value val) ≡ val
unfolding format_value
unquote_env_value-format_value [] h = quoted_value [] ∙ unescape_empty
unquote_env_value-format_value (c ∷ val) h = elim (Bool-cases (needs_quotes (c ∷ val))) [
  | inl quoted ↦ rw quoted (quoted_value (escape (c ∷ val)) ∙ unescape-escape (c ∷ val))
  | inr plain ↦ rw plain (plain_value c val plain ∙ trimmed (c ∷ val) plain h)
]
