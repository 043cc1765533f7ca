-- ===== src/Onboard/Sanitize.antt =====
-- pkg/onboard/domain/sanitize.go: what a diagnostic bundle shows of a session and of an env file.
use orbit_cli.Prelude.{
  ◌-◌, Bool, ◌||◌, List, [], ◌∷◌, ◌++◌, none, some, ltb, length, take, drop, any, map,
  if◌then◌else◌,
}
use orbit_cli.Prelude.Words.{
  Text, text, is_empty, trim_space, to_upper, has_prefix, contains, split, join, cut,
}
use orbit_cli.Onboard.Session.{SessionState}

-- the invite token of SanitizeSession
unfoldable pub masked_token : Text → Text
masked_token token =
    if is_empty token
    then token
    else if ltb 16 (length token)
    then take 10 token ++ (text "..." ++ drop (length token - 4) token)
    else text "orbit-inv.***"

unfoldable pub masked_line : Text → Text
masked_line line =
    if has_prefix (trim_space line) (text "PrivateKey")
    then text "PrivateKey = [REDACTED]"
    else line

-- the VPN profile of SanitizeSession
unfoldable pub masked_profile : Text → Text
unfolding masked_line
masked_profile profile =
    if is_empty profile then profile else join b'\n' (map masked_line (split b'\n' profile))

-- SanitizeSession, on a session that is not nil
unfoldable pub sanitize_session : SessionState → SessionState
unfolding masked_token masked_profile
sanitize_session s = record s {
  invite_token = masked_token s.invite_token;
  forgejo_token = if is_empty s.forgejo_token then [] else text "fjo_tok_***";
  wireguard_config = masked_profile s.wireguard_config;
}

abbrev pub sensitive_keys : List Text
sensitive_keys =
    text "KEY" ∷ text "SECRET" ∷ text "TOKEN" ∷ text "PASSWORD" ∷ text "PRIVATE" ∷ text "AUTH" ∷ []

unfoldable pub is_sensitive : Text → Bool
is_sensitive name = any (contains (to_upper (trim_space name))) sensitive_keys

-- one line of SanitizeEnvContent
unfoldable pub sanitize_env_line : Text → Text
unfolding is_sensitive
sanitize_env_line line =
    let trimmed = trim_space line in
    if has_prefix trimmed (text "#") || is_empty trimmed then line else elim (cut b'=' line) [
      | none ↦ line
      | some parts ↦ if is_sensitive parts.0 then parts.0 ++ text "=[REDACTED]" else line
    ]

-- SanitizeEnvContent
unfoldable pub sanitize_env_content : Text → Text
unfolding sanitize_env_line
sanitize_env_content content = join b'\n' (map sanitize_env_line (split b'\n' content))
