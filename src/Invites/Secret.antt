-- ===== src/Invites/Secret.antt =====
-- pkg/invite/domain/secret.go, ttl.go and types.go: the secret that signs, the time to live, and the status
-- of an invitation. strconv.Atoi and time.ParseDuration are parameters.
use orbit_cli.Prelude.{
  ℕ, zero, suc, ◌-◌, ◌*◌, ◌%◌, Bool, true, false, not, ◌&&◌, ◌||◌, List, [], ◌∷◌, Option, none,
  some, ltb, ◌==◌, if◌then◌else◌,
}
use orbit_cli.Prelude.Int.{ℤ, pos, negsuc}
use orbit_cli.Prelude.Words.{Text, text, is_empty, trim_space}
use orbit_cli.Invites.{InviteRecord}

abbrev pub default_fallback_secret : Text
default_fallback_secret = text "orbit-dev-insecure-invitation-signing-secret-key-32bytes"

-- the first variable of a list that is set
unfoldable pub first_set : (Text → Text) → List Text → Option Text
first_set lookup [] = none
first_set lookup (key ∷ keys) =
    let rest = first_set lookup keys in if is_empty (lookup key) then rest else some (lookup key)

fallback : Text → Text × Bool
fallback owner_secret =
    if is_empty owner_secret then (default_fallback_secret, true) else (owner_secret, false)

-- ResolveSecret: the secret, and whether it is the public one
unfoldable pub resolve_secret : (Text → Text) → Text → Text → Text → Text × Bool
unfolding first_set fallback
resolve_secret lookup flag env_flag owner_secret =
    if not (is_empty flag)
    then (flag, false)
    else elim (first_set lookup (
        (if is_empty env_flag then text "ORBIT_INVITE_SECRET" else env_flag)
        ∷ text "MANOVA_INVITE_SECRET"
        ∷ text "ORBIT_JWT_SECRET"
        ∷ text "MANOVA_JWT_SECRET"
        ∷ [])) [ some value ↦ (value, false) | none ↦ fallback owner_secret ]

-- s without its last byte, where that is d or D
unfoldable pub days_of : Text → Option Text
days_of [] = none
days_of (c ∷ []) = if c == b'd' || c == b'D' then some [] else none
days_of (c ∷ d ∷ s) = elim (days_of (d ∷ s)) [ none ↦ none | some rest ↦ some (c ∷ rest) ]

-- an int64 of a residue modulo 2^64
unfoldable pub signed : ℕ → ℤ
signed r = if ltb r 9223372036854775808 then pos r else negsuc (18446744073709551615 - r)

-- `time.Duration(days) * 24 * time.Hour`, where the days are positive
days : ℤ → Option ℤ
unfolding signed
days (pos zero) = none
days (pos (suc n)) = some (signed ((suc n * 86400000000000) % 18446744073709551616))
days (negsuc n) = none

positive : ℤ → Option ℤ
positive (pos zero) = none
positive (pos (suc n)) = some (pos (suc n))
positive (negsuc n) = none

-- ParseTTL
unfoldable pub parse_ttl : (Text → Option ℤ) → (Text → Option ℤ) → Text → Option ℤ
unfolding days_of days positive
parse_ttl atoi parse_duration given =
    let s = trim_space given in
    if is_empty s then some (pos 604800000000000) else elim (days_of s) [
      | some number ↦ elim (atoi number) [ none ↦ none | some n ↦ days n ]
      | none ↦ elim (parse_duration s) [ none ↦ none | some d ↦ positive d ]
    ]

pub data Status : Type 0 where
  active revoked expired : Status

-- (*InviteRecord).Status
unfoldable pub status_at : ℕ → InviteRecord → Status
status_at now r =
    if r.revoked
    then revoked
    else if not (r.expires_at == 0) && ltb r.expires_at now
    then expired
    else active
