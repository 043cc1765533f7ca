-- ===== src/Owner/Code/Laws.antt =====
-- Normal forms of codes and emails: a code reads the same with and without its hyphen.
use orbit_cli.Prelude.{
  All, All-append, Bool-cases, Option, [], ap, arith, drop, false, inl, inr, length, length-append,
  none, refl, some, suc, sym, take, take-append-drop, zero, ℕ, ◌%◌, ◌++◌, ◌+◌, ◌/◌, ◌<◌, ◌==◌, ◌∙◌,
  ◌∷◌, ◌≡◌, ◌≢◌, ◌≤◌,
}
use orbit_cli.Prelude.Words.{
  Text, remove_byte, trim_space, trim_left, trim_right, to_lower, lower, is_space,
}
use mathlib.Core.Option.{some-injective}
use orbit_cli.Owner.Code.{generate_8_digit_code, normalize, clean_code, format_8_digit_code}
use orbit_cli.Owner.Code.{padded}
use orbit_cli.Owner.Code.{hash_grant_code}

remove_byte-append :
    (b : ℕ) (s t : Text) → remove_byte b (s ++ t) ≡ remove_byte b s ++ remove_byte b t
unfolding remove_byte
remove_byte-append b [] t = refl
remove_byte-append b (c ∷ s) t = ground (arith, remove_byte-append b s t)

-- No byte `b` is left.
abbrev pub Lacks : ℕ → Text → Type 0
Lacks b = All (λ c. c ≢ b)

remove_byte-Lacks : (b : ℕ) (s : Text) → Lacks b (remove_byte b s)
unfolding remove_byte
remove_byte-Lacks b [] = tt
remove_byte-Lacks b (c ∷ s) = ground (arith, remove_byte-Lacks b s)

remove_byte-Lacks_ne : (b d : ℕ) (s : Text) → Lacks d s → Lacks d (remove_byte b s)
unfolding remove_byte
remove_byte-Lacks_ne b d [] h = tt
remove_byte-Lacks_ne b d (c ∷ s) h = ground (arith, remove_byte-Lacks_ne b d s h.1)

remove_byte_idle : (b : ℕ) (s : Text) → Lacks b s → remove_byte b s ≡ s
unfolding remove_byte
remove_byte_idle b [] h = refl
remove_byte_idle b (c ∷ s) h = ground (arith, remove_byte_idle b s h.1)

-- A text that does not begin or end with a space.
trim_left-Lacks : (b : ℕ) (s : Text) → Lacks b s → Lacks b (trim_left s)
unfolding trim_left
trim_left-Lacks b [] h = tt
trim_left-Lacks b (c ∷ s) h = ground (arith, trim_left-Lacks b s h.1)

trim_right-Lacks : (b : ℕ) (s : Text) → Lacks b s → Lacks b (trim_right s)
unfolding trim_right
trim_right-Lacks b [] h = tt
trim_right-Lacks b (c ∷ s) h = ground (arith, trim_right-Lacks b s h.1)

trim_right_idem : (s : Text) → trim_right (trim_right s) ≡ trim_right s
unfolding trim_right
trim_right_idem [] = refl
trim_right_idem (c ∷ s) = ground (arith, trim_right_idem s)

-- A text that does not begin with a space.
abbrev Starts : Text → Type 0
Starts [] = Unit
Starts (c ∷ s) = is_space c ≡ false

trim_left-Starts : (s : Text) → Starts (trim_left s)
unfolding trim_left
trim_left-Starts [] = tt
trim_left-Starts (c ∷ s) = ground (arith, trim_left-Starts s)

trim_right-Starts : (s : Text) → Starts s → Starts (trim_right s)
unfolding trim_right
trim_right-Starts [] h = tt
trim_right-Starts (c ∷ s) h = ground arith

trim_left_idle : (s : Text) → Starts s → trim_left s ≡ s
unfolding trim_left
trim_left_idle [] h = refl
trim_left_idle (c ∷ s) h = ground arith

-- Trimming twice is trimming once.
pub trim_space_idem : (s : Text) → trim_space (trim_space s) ≡ trim_space s
unfolding trim_space
trim_space_idem s =
    rw (trim_left_idle _ (trim_right-Starts (trim_left s) (trim_left-Starts s)))
      (trim_right_idem (trim_left s))

trim_space-Lacks : (b : ℕ) (s : Text) → Lacks b s → Lacks b (trim_space s)
unfolding trim_space
trim_space-Lacks b s h = trim_right-Lacks b (trim_left s) (trim_left-Lacks b s h)

-- The cleaned code has neither hyphens nor blanks.
pub clean_code-Lacks : (s : Text) → Lacks b'-' (clean_code s) × Lacks b' ' (clean_code s)
unfolding clean_code
clean_code-Lacks s = (
  trim_space-Lacks b'-' _ (remove_byte-Lacks_ne b' ' b'-' _ (remove_byte-Lacks b'-' s)),
  trim_space-Lacks b' ' _ (remove_byte-Lacks b' ' (remove_byte b'-' s)),
)

trim_space-clean_code : (s : Text) → trim_space (clean_code s) ≡ clean_code s
unfolding clean_code
trim_space-clean_code s = trim_space_idem _

clean_code_step : (s : Text) → Lacks b'-' s → Lacks b' ' s → clean_code s ≡ trim_space s
unfolding clean_code
clean_code_step s h k = rw (remove_byte_idle b'-' s h, remove_byte_idle b' ' s k)

remove_hyphen :
    (n : ℕ) (s : Text) → remove_byte b'-' (take n s ++ b'-' ∷ drop n s) ≡ remove_byte b'-' s
unfolding remove_byte
remove_hyphen n s =
    remove_byte-append b'-' (take n s) (b'-' ∷ drop n s)
    ∙ sym (remove_byte-append b'-' (take n s) (drop n s))
    ∙ ap (remove_byte b'-') (take-append-drop n s)

-- Cleaning a code twice is cleaning it once.
pub clean_code_idem : (s : Text) → clean_code (clean_code s) ≡ clean_code s
clean_code_idem s =
    let (no_hyphen, no_blank) = clean_code-Lacks s in
    clean_code_step (clean_code s) no_hyphen no_blank ∙ trim_space-clean_code s

clean_code-of_hyphen : (n : ℕ) (s : Text) → clean_code (take n s ++ b'-' ∷ drop n s) ≡ clean_code s
unfolding clean_code
clean_code-of_hyphen n s = ap (λ t. trim_space (remove_byte b' ' t)) (remove_hyphen n s)

-- The code as it is shown and the code as it is typed are cleaned to the same text.
pub clean_code-format : (s : Text) → clean_code (format_8_digit_code s) ≡ clean_code s
unfolding format_8_digit_code
clean_code-format s = elim (Bool-cases (length (clean_code s) == 8)) [
  | inl e ↦ rw e (clean_code-of_hyphen 4 (clean_code s) ∙ clean_code_idem s)
  | inr e ↦ rw e (clean_code_idem s)
]

lower_idem : (c : ℕ) → lower (lower c) ≡ lower c
unfolding lower
lower_idem c = ground arith

is_space-lower : (c : ℕ) → is_space (lower c) ≡ is_space c
unfolding lower is_space
is_space-lower c = ground arith

to_lower_idem : (s : Text) → to_lower (to_lower s) ≡ to_lower s
unfolding to_lower
to_lower_idem [] = refl
to_lower_idem (c ∷ s) = cc (lower_idem c, to_lower_idem s)

trim_left-to_lower : (s : Text) → trim_left (to_lower s) ≡ to_lower (trim_left s)
unfolding to_lower trim_left
trim_left-to_lower [] = refl
trim_left-to_lower (c ∷ s) = ground (arith, trim_left-to_lower s, is_space-lower c)

trim_right-to_lower : (s : Text) → trim_right (to_lower s) ≡ to_lower (trim_right s)
unfolding to_lower trim_right
trim_right-to_lower [] = refl
trim_right-to_lower (c ∷ s) = ground (arith, trim_right-to_lower s, is_space-lower c)

trim_space-to_lower : (s : Text) → trim_space (to_lower s) ≡ to_lower (trim_space s)
unfolding trim_space
trim_space-to_lower s = rw (trim_left-to_lower, trim_right-to_lower)

-- Normalising an email twice is normalising it once.
pub normalize_idem : (s : Text) → normalize (normalize s) ≡ normalize s
unfolding normalize
normalize_idem s = rw (trim_space-to_lower, trim_space_idem) (to_lower_idem _)

abbrev pub IsDigit : ℕ → Type 0
IsDigit c = (b'0' ≤ c) × (c ≤ b'9')

padded-IsDigit : (w n : ℕ) → All IsDigit (padded w n)
unfolding padded
padded-IsDigit zero n = tt
padded-IsDigit (suc w) n =
    All-append IsDigit (padded w (n / 10)) _ (padded-IsDigit w (n / 10)) (omega arith)

length-padded : (w n : ℕ) → length (padded w n) ≡ w
unfolding padded
length-padded zero n = refl
length-padded (suc w) n =
    omega
      (arith, length-append (padded w (n / 10)) ((b'0' + n % 10) ∷ []), length-padded w (n / 10))

remove_byte-digits : (b : ℕ) (s : Text) → b < b'0' → All IsDigit s → remove_byte b s ≡ s
unfolding remove_byte
remove_byte-digits b [] lt h = refl
remove_byte-digits b (c ∷ s) lt h = ground (arith, remove_byte-digits b s lt h.1)

trim_right-digits : (s : Text) → All IsDigit s → trim_right s ≡ s
unfolding trim_right
trim_right-digits [] h = refl
trim_right-digits (c ∷ s) h = ground (arith, trim_right-digits s h.1)

trim_left-digits : (s : Text) → All IsDigit s → trim_left s ≡ s
unfolding trim_left
trim_left-digits [] h = refl
trim_left-digits (c ∷ s) h = ground arith

-- Cleaning keeps a text of digits.
pub clean_code-digits : (s : Text) → All IsDigit s → clean_code s ≡ s
unfolding clean_code trim_space
clean_code-digits s h =
    rw
      (
        remove_byte-digits b'-' s (omega arith) h,
        remove_byte-digits b' ' s (omega arith) h,
        trim_left-digits s h,
      )
      (trim_right-digits s h)

-- A generated code, cleaned, is the eight digits of the number that was drawn.
pub clean_code-generate :
    (n : ℕ) (code : Text)
    → generate_8_digit_code (some n) ≡ some code
    → clean_code code ≡ padded 8 (n + 10000000)
unfolding generate_8_digit_code
clean_code-generate n code h =
    ap clean_code (sym (some-injective _ _ h))
    ∙ clean_code-format _
    ∙ clean_code-digits _ (padded-IsDigit 8 (n + 10000000))

pub clean_code-generate_length :
    (drawn : Option ℕ) (code : Text)
    → generate_8_digit_code drawn ≡ some code
    → length (clean_code code) ≡ 8
unfolding generate_8_digit_code
clean_code-generate_length none code h = cc
clean_code-generate_length (some n) code h =
    rw (clean_code-generate n code h) (length-padded 8 (n + 10000000))

-- A code and the cleaned code have one hash.
pub hash_grant_code-clean_code :
    (sha256_hex : Text → Text) (code salt : Text)
    → hash_grant_code sha256_hex (clean_code code) salt ≡ hash_grant_code sha256_hex code salt
unfolding hash_grant_code
hash_grant_code-clean_code sha256_hex code salt = rw (clean_code_idem code)
