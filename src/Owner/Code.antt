-- ===== src/Owner/Code.antt =====
-- Codes and their hashes: pkg/owner/domain/grant.go and challenge.go. SHA-256 with its
-- hexadecimal print is a parameter, and so is the number that crypto/rand draws.
pub mod Laws
use orbit_cli.Prelude.{
  ℕ, zero, suc, ◌+◌, ◌/◌, ◌%◌, ◌≡◌, refl, ◌≢◌, Bool, true, false, List, [], ◌∷◌, ◌++◌, append_assoc,
  append-nil, Option, none, some, arith, ◌==◌, if◌then◌else◌, Bool-cases, inl, inr, length, ap, ◌≤◌,
  ◌<◌, ◌*◌, length-append, take, drop, leb, ltb, ◌&&◌, ◌||◌,
}
use orbit_cli.Prelude.Words.{
  Text, text, remove_byte, trim_space, trim_left, trim_right, to_lower, lower, is_space,
}

-- the normalised email: strings.ToLower(strings.TrimSpace(email))
unfoldable pub normalize : Text → Text
normalize email = to_lower (trim_space email)

unfoldable pub clean_code : Text → Text
clean_code code = trim_space (remove_byte b' ' (remove_byte b'-' code))

unfoldable pub format_8_digit_code : Text → Text
format_8_digit_code code =
    let clean = clean_code code in
    if length clean == 8 then take 4 clean ++ b'-' ∷ drop 4 clean else clean

-- fmt.Sprintf("%0wd", n), for n < 10 ^ w
unfoldable pub padded : ℕ → ℕ → Text
padded zero n = []
padded (suc w) n = padded w (n / 10) ++ (b'0' + n % 10) ∷ []

-- the argument is what rand.Int returns, below 90000000, or none where it fails
unfoldable pub generate_8_digit_code : Option ℕ → Option Text
generate_8_digit_code none = none
generate_8_digit_code (some n) = some (format_8_digit_code (padded 8 (n + 10000000)))

-- the same for a number below 900000
unfoldable pub generate_otp : Option ℕ → Option Text
generate_otp none = none
generate_otp (some n) = some (padded 6 (n + 100000))

module _ (sha256_hex : Text → Text) where
  unfoldable pub hash_grant_code : Text → Text → Text
  hash_grant_code code salt = sha256_hex (salt ++ b':' ∷ clean_code code)

  unfoldable pub hash_code : Text → Text → Text
  hash_code code salt = sha256_hex (salt ++ b':' ∷ code)
