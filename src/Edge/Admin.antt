-- ===== src/Edge/Admin.antt =====
-- pkg/onboard/infrastructure/server/server.go: the handlers of challenges and of their
-- verification, on the managers of pkg/owner/domain.
use orbit_cli.Prelude.{
  ℕ, ◌+◌, Bool, true, not, ◌||◌, List, [], ◌∷◌, Option, none, some, any, ◌==◌, length,
  if◌then◌else◌,
}
use orbit_cli.Prelude.Int.{pos}
use orbit_cli.Prelude.Words.{Text, text, same, has_byte, is_empty, trim_space}
use orbit_cli.Prelude.Result.{Result, ok, err}
use orbit_cli.RateLimit.{RateLimitStore}
use orbit_cli.RateLimit.Client.{Network, Request}
use orbit_cli.Owner.Code.{normalize, clean_code}
use orbit_cli.Owner.Errors.{Error, grant_not_found}
use orbit_cli.Owner.Vault.{compute_fingerprint}
use orbit_cli.Owner.GrantRecord.{GrantRecord, GrantStore, GrantManager}
use orbit_cli.Owner.ChallengeRecord.{
  Challenge, ChallengeStore, ChallengeManager, default_challenge_ttl,
}
use orbit_cli.Owner.ChallengeRecord as Challenged
use orbit_cli.Owner.Grant.{verify_grant}
use orbit_cli.Owner.Challenge.{create_challenge, verify_code}
use orbit_cli.Edge.{
  Config, Edge, Reply, problem, challenge_sent, verified, guard_ip, guard_key, unless_limited,
}

pub record VerifyBody : Type 0 where
  pub email : Text
  pub code : Text
  pub display_name : Text

-- the allowlist of handleAdminChallenge
unfoldable pub is_allowed : Config → Text → Bool
is_allowed config email = elim config.allowed_admin_emails [
  | [] ↦ true
  | first ∷ rest ↦ any (λ allowed. same (normalize allowed) email) (first ∷ rest)
]

-- the answer of handleAdminVerify to a code that is right
abbrev pub accepted : {A : Type 0} → Config → (Text → Text) → ℕ → VerifyBody → Reply A
accepted config sha256_hex now req =
    verified (normalize req.email) (trim_space req.display_name)
      (compute_fingerprint sha256_hex config.secret) now

abbrev pub submitted_code : VerifyBody → Text
submitted_code req = clean_code (trim_space req.code)

module _ {L G C P A Ip Net : Type 0} (rates : RateLimitStore L) (net : Network Ip Net)
    (nets : List Net) (config : Config) (grant_store : GrantStore G)
    (challenge_store : ChallengeStore C) (sha256_hex : Text → Text) where
  -- the mail of a challenge; `send` is the mailer, false where it fails
  unfoldable pub mailed :
      (Text → Text → P → Bool × P)
      → Text
      → Result Error (Challenge × Text) × ChallengeManager C
      → Edge L G C P A
      → Reply A × Edge L G C P A
  mailed send email (err x, m) e = (problem 500, record e { challenges = m })
  mailed send email (ok (ch, otp), m) e =
      let (sent, p) = send email otp e.outside in
      (
        if sent then challenge_sent email ch.expires_at else problem 500,
        record e { challenges = m; outside = p },
      )

  unfoldable pub challenge_email :
      (ℕ → ℕ)
      → Challenged.Draws
      → (Text → Text → P → Bool × P)
      → Text
      → Edge L G C P A
      → Reply A × Edge L G C P A
  unfolding mailed is_allowed
  challenge_email clock draws send email e =
      if config.disable_public_challenges
      then (problem 403, e)
      else if not (is_allowed config email)
      then (problem 403, e)
      else mailed send email
          (create_challenge challenge_store sha256_hex clock draws email (pos default_challenge_ttl)
            e.challenges)
          e

  unfoldable pub challenge_body :
      (ℕ → ℕ)
      → Challenged.Draws
      → (Text → Text → P → Bool × P)
      → Option Text
      → Edge L G C P A
      → Reply A × Edge L G C P A
  unfolding challenge_email
  challenge_body clock draws send none e = (problem 400, e)
  challenge_body clock draws send (some given) e =
      let email = normalize given in
      if is_empty email
      then (problem 400, e)
      else if not (has_byte b'@' email) || not (has_byte b'.' email)
      then (problem 400, e)
      else unless_limited
          (guard_key rates net nets config (clock 1) email (text "/api/v1/admin/challenge/email")
            config.tiers.challenge_email_limit config.tiers.challenge_email_window e)
          (challenge_email (λ i. clock (i + 2)) draws send email)

  -- handleAdminChallenge; the body is an email, none where it is no JSON of a request
  unfoldable pub handle_admin_challenge :
      (ℕ → ℕ)
      → Challenged.Draws
      → (Text → Text → P → Bool × P)
      → Request
      → Option Text
      → Edge L G C P A
      → Reply A × Edge L G C P A
  unfolding challenge_body
  handle_admin_challenge clock draws send r body e =
      unless_limited
        (guard_ip rates net nets config (clock 0) r (text "/api/v1/admin/challenge")
          config.tiers.challenge_ip_limit config.tiers.challenge_ip_window e)
        (challenge_body clock draws send body)

  unfoldable pub challenged :
      ℕ
      → VerifyBody
      → Result Error (Unit {0}) × ChallengeManager C
      → Edge L G C P A
      → Reply A × Edge L G C P A
  challenged now req (ok u, m) e = (accepted config sha256_hex now req, record e { challenges = m })
  challenged now req (err x, m) e = (problem 400, record e { challenges = m })

  -- handleAdminVerify, priority B: the code of a challenge
  unfoldable pub verify_by_challenge :
      (ℕ → ℕ) → VerifyBody → Edge L G C P A → Reply A × Edge L G C P A
  unfolding challenged
  verify_by_challenge clock req e =
      challenged (clock 4) req
        (verify_code challenge_store sha256_hex clock (normalize req.email) (submitted_code req)
          e.challenges)
        e

  -- what follows on the answer of the grants: a grant that is not found leaves it to the challenges
  unfoldable pub granted :
      (ℕ → ℕ)
      → VerifyBody
      → Result Error GrantRecord × GrantManager G
      → Edge L G C P A
      → Reply A × Edge L G C P A
  unfolding verify_by_challenge
  granted clock req (ok rec, m) e =
      (accepted config sha256_hex (clock 4) req, record e { grants = m })
  granted clock req (err grant_not_found, m) e =
      verify_by_challenge (λ i. clock (i + 4)) req (record e { grants = m })
  granted clock req (err x, m) e = (problem 400, record e { grants = m })

  -- handleAdminVerify on a body, none where it is no JSON of a request
  unfoldable pub verify_body :
      (ℕ → ℕ) → Option VerifyBody → Edge L G C P A → Reply A × Edge L G C P A
  unfolding granted
  verify_body clock none e = (problem 400, e)
  verify_body clock (some req) e =
      if is_empty (normalize req.email)
      then (problem 400, e)
      else if is_empty (submitted_code req)
      then (problem 400, e)
      else if length (submitted_code req) == 8
      then granted clock req
          (verify_grant grant_store sha256_hex clock (normalize req.email) (submitted_code req)
            e.grants)
          e
      else verify_by_challenge (λ i. clock (i + 4)) req e

  -- handleAdminVerify
  unfoldable pub handle_admin_verify :
      (ℕ → ℕ) → Request → Option VerifyBody → Edge L G C P A → Reply A × Edge L G C P A
  unfolding verify_body
  handle_admin_verify clock r body e =
      unless_limited
        (guard_ip rates net nets config (clock 0) r (text "/api/v1/admin/verify")
          config.tiers.verify_ip_limit config.tiers.verify_ip_window e)
        (verify_body (λ i. clock (i + 1)) body)
