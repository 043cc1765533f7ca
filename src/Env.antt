-- ===== src/Env.antt =====
-- FormatValue of pkg/env/domain/generate.go and unquoteEnvValue of pkg/env/domain/parse.go: the
-- values of environment files.
pub mod Quoting
mod Tests
use orbit_cli.Prelude.{
  ℕ, ◌≡◌, Bool, true, false, ◌||◌, List, [], ◌∷◌, ◌++◌, Option, none, some, any, ◌==◌,
  if◌then◌else◌,
}
use orbit_cli.Prelude.Words.{Text, text, trim_space, is_empty}

-- the bytes of a backslash, a double and a single quote, a tab, a line feed, a carriage return
abbrev pub backslash : ℕ
backslash = 92

abbrev pub double_quote : ℕ
double_quote = 34

abbrev pub single_quote : ℕ
single_quote = 39

abbrev pub tab : ℕ
tab = 9

abbrev pub line_feed : ℕ
line_feed = 10

abbrev pub carriage_return : ℕ
carriage_return = 13

-- the bytes that want quotes: blank, tab, line feed, both quotes, #, $, the back quote, backslash
abbrev pub is_special : ℕ → Bool
is_special c =
    (c == 32)
    || ((c == tab)
        || ((c == line_feed)
            || ((c == double_quote)
                || ((c == single_quote)
                    || ((c == 35) || ((c == 36) || ((c == 96) || (c == backslash))))))))

-- strings.ContainsAny(val, …); a blank at either end is one of them
unfoldable pub needs_quotes : Text → Bool
needs_quotes val = any is_special val

-- strings.ReplaceAll(s, old, new) for one byte
unfoldable pub replace_all : ℕ → Text → Text → Text
replace_all old new [] = []
replace_all old new (c ∷ s) =
    let rest = replace_all old new s in if c == old then new ++ rest else c ∷ rest

-- the six replacements of FormatValue, in their order
unfoldable pub escape : Text → Text
unfolding replace_all
escape val = replace_all 36 (backslash ∷ 36 ∷ []) (
    replace_all tab (backslash ∷ b't' ∷ []) (
      replace_all carriage_return (backslash ∷ b'r' ∷ []) (
        replace_all line_feed (backslash ∷ b'n' ∷ []) (
          replace_all double_quote (backslash ∷ double_quote ∷ [])
            (replace_all backslash (backslash ∷ backslash ∷ []) val)))))

-- FormatValue
unfoldable pub format_value : Text → Text
unfolding needs_quotes escape
format_value [] = double_quote ∷ double_quote ∷ []
format_value (c ∷ val) =
    if needs_quotes (c ∷ val) then double_quote ∷ escape (c ∷ val) ++ double_quote ∷ [] else c ∷ val

-- the byte that a backslash and `next` stand for
abbrev pub unescaped : ℕ → ℕ
unescaped next =
    if next == b'n'
    then line_feed
    else if next == b'r'
    then carriage_return
    else if next == b't'
    then tab
    else next

-- the loop of unquoteEnvValue on what stands between double quotes
unfoldable pub unescape : Text → Text
unescape [] = []
unescape (c ∷ []) = c ∷ []
unescape (c ∷ next ∷ inner) =
    let skipped = unescape inner in
    let kept = unescape (next ∷ inner) in
    if c == backslash then unescaped next ∷ skipped else c ∷ kept

-- s without its last byte, where that is `q`
unfoldable pub strip_last : ℕ → Text → Option Text
strip_last q [] = none
strip_last q (c ∷ []) = if c == q then some [] else none
strip_last q (c ∷ d ∷ s) = elim (strip_last q (d ∷ s)) [
  | none ↦ none
  | some inner ↦ some (c ∷ inner)
]

-- raw[1 : len(raw)-1], where raw begins and ends with `q` and has two bytes at least
unfoldable pub strip_quotes : ℕ → Text → Option Text
unfolding strip_last
strip_quotes q [] = none
strip_quotes q (c ∷ s) = if c == q then strip_last q s else none

-- raw[:strings.Index(raw, " #")], none where there is no comment
unfoldable pub before_comment : Text → Option Text
before_comment [] = none
before_comment (c ∷ []) = none
before_comment (c ∷ d ∷ s) =
    let rest = before_comment (d ∷ s) in
    if c == 32
    then if d == 35 then some [] else elim rest [ none ↦ none | some t ↦ some (c ∷ t) ]
    else elim rest [ none ↦ none | some t ↦ some (c ∷ t) ]

abbrev pub is_comment : Text → Bool
is_comment [] = false
is_comment (c ∷ s) = c == 35

-- unquoteEnvValue on a value without quotes
unfoldable pub unquote_plain : Text → Text
unfolding before_comment
unquote_plain raw = elim (before_comment raw) [
  | some t ↦ trim_space (trim_space t)
  | none ↦ if is_comment raw then [] else trim_space raw
]

-- unquoteEnvValue
unfoldable pub unquote_env_value : Text → Text
unfolding strip_quotes unescape unquote_plain
unquote_env_value raw = elim (strip_quotes double_quote raw) [
  | some inner ↦ unescape inner
  | none ↦ elim (strip_quotes single_quote raw) [ some inner ↦ inner | none ↦ unquote_plain raw ]
]
