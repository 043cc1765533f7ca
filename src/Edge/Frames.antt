-- ===== src/Edge/Frames.antt =====
-- pkg/onboard/infrastructure/server/server.go: handleHealth and the handlers of challenges and
-- verifications leave the cache of claims.
use orbit_cli.Prelude.{
  ℕ, ◌+◌, ◌≡◌, ◌==◌, Bool, not, ◌||◌, List, Option, none, some, length, arith, refl, ◌∙◌,
  Bool-cases, inl, inr,
}
use orbit_cli.Prelude.Int.{pos}
use orbit_cli.Prelude.Words.{Text, text, is_empty, has_byte}
use orbit_cli.Prelude.Result.{Result, ok, err}
use orbit_cli.RateLimit.{RateLimitStore}
use orbit_cli.RateLimit.Client.{Network, Request}
use orbit_cli.Owner.Code.{normalize}
use orbit_cli.Owner.Errors.{Error, grant_not_found}
use orbit_cli.Owner.Grant.{verify_grant}
use orbit_cli.Owner.Challenge.{create_challenge, verify_code}
use orbit_cli.Owner.GrantRecord.{GrantRecord, GrantStore, GrantManager}
use orbit_cli.Owner.ChallengeRecord.{
  Challenge, ChallengeStore, ChallengeManager, default_challenge_ttl,
}
use orbit_cli.Owner.ChallengeRecord as Challenged
use orbit_cli.Edge.{Config, Edge, Reply, guard_ip, guard_key, unless_limited, handle_health}
use orbit_cli.Edge.Admin.{
  VerifyBody, is_allowed, submitted_code, mailed, challenge_email, challenge_body,
  handle_admin_challenge, challenged, verify_by_challenge, granted, verify_body,
  handle_admin_verify,
}
use orbit_cli.Edge.Guards.{guard_ip-Keeps, guard_key-Keeps}

module _ {L G C P A : Type 0} where
  -- the cache is as it was
  abbrev pub Same : Edge L G C P A → Reply A × Edge L G C P A → Type 0
  Same e after = after.1.idem_cache ≡ e.idem_cache

  unless_limited-Same :
      (e : Edge L G C P A) (g : Option ℕ × Edge L G C P A)
      (next : Edge L G C P A → Reply A × Edge L G C P A)
      → g.1.idem_cache ≡ e.idem_cache
      → Same g.1 (next g.1)
      → Same e (unless_limited g next)
  unless_limited-Same e (some wait, e') next before after = before
  unless_limited-Same e (none, e') next before after = after ∙ before

module _ {L G C P A Ip Net : Type 0} (rates : RateLimitStore L) (net : Network Ip Net)
    (nets : List Net) (config : Config) where
  pub handle_health-Same :
      (now : ℕ) (is_healthy : Bool) (r : Request) (e : Edge L G C P A)
      → Same e (handle_health rates net nets config now is_healthy r e)
  unfolding handle_health
  handle_health-Same now is_healthy r e =
      unless_limited-Same e
        (guard_ip rates net nets config now r (text "/health") config.tiers.health_ip_limit
          config.tiers.health_ip_window e)
        _
        (guard_ip-Keeps rates net nets config now r (text "/health") config.tiers.health_ip_limit
          config.tiers.health_ip_window e).idem_cache
        refl

module _ {L G C P A Ip Net : Type 0} (rates : RateLimitStore L) (net : Network Ip Net)
    (nets : List Net) (config : Config) (grant_store : GrantStore G)
    (challenge_store : ChallengeStore C) (sha256_hex : Text → Text) where
  mailed-Same :
      (send : Text → Text → P → Bool × P) (email : Text)
      (r : Result Error (Challenge × Text) × ChallengeManager C) (e : Edge L G C P A)
      → Same e (mailed rates net nets config grant_store challenge_store sha256_hex send email r e)
  unfolding mailed
  mailed-Same send email (err x, m) e = refl
  mailed-Same send email (ok (ch, otp), m) e = refl

  challenge_email-Same :
      (clock : ℕ → ℕ) (draws : Challenged.Draws) (send : Text → Text → P → Bool × P) (email : Text)
      (e : Edge L G C P A)
      → Same e (
          challenge_email rates net nets config grant_store challenge_store sha256_hex clock draws
            send email e)
  unfolding challenge_email
  challenge_email-Same clock draws send email e =
      elim (Bool-cases config.disable_public_challenges) [
        | inl off ↦ ground arith
        | inr on ↦ elim (Bool-cases (is_allowed config email)) [
          | inr unlisted ↦ ground arith
          | inl listed ↦ ground (
            arith,
            mailed-Same send email
                (create_challenge challenge_store sha256_hex clock draws email
                  (pos default_challenge_ttl) e.challenges)
                e,
          )
        ]
      ]

  challenge_body-Same :
      (clock : ℕ → ℕ) (draws : Challenged.Draws) (send : Text → Text → P → Bool × P)
      (body : Option Text) (e : Edge L G C P A)
      → Same e (
          challenge_body rates net nets config grant_store challenge_store sha256_hex clock draws
            send body e)
  unfolding challenge_body
  challenge_body-Same clock draws send none e = refl
  challenge_body-Same clock draws send (some given) e =
      let email : Text = normalize given in
      let g : Option ℕ × Edge L G C P A =
        guard_key rates net nets config (clock 1) email (text "/api/v1/admin/challenge/email")
          config.tiers.challenge_email_limit config.tiers.challenge_email_window e in
      let next : Edge L G C P A → Reply A × Edge L G C P A =
        challenge_email rates net nets config grant_store challenge_store sha256_hex
          (λ i. clock (i + 2)) draws send email in
      let same_ : Same e (unless_limited g next) =
        unless_limited-Same e g next
          (guard_key-Keeps rates net nets config (clock 1) email
            (text "/api/v1/admin/challenge/email") config.tiers.challenge_email_limit
            config.tiers.challenge_email_window e).idem_cache
          (challenge_email-Same (λ i. clock (i + 2)) draws send email g.1) in
      elim (Bool-cases (is_empty email)) [
        | inl blank ↦ ground (arith, blank)
        | inr named ↦ elim (Bool-cases (not (has_byte b'@' email) || not (has_byte b'.' email))) [
          | inl odd ↦ ground (arith, named, odd)
          | inr fine ↦ ground (arith, named, fine, same_)
        ]
      ]

  pub handle_admin_challenge-Same :
      (clock : ℕ → ℕ) (draws : Challenged.Draws) (send : Text → Text → P → Bool × P) (r : Request)
      (body : Option Text) (e : Edge L G C P A)
      → Same e (
          handle_admin_challenge rates net nets config grant_store challenge_store sha256_hex clock
            draws send r body e)
  unfolding handle_admin_challenge
  handle_admin_challenge-Same clock draws send r body e =
      let g : Option ℕ × Edge L G C P A =
        guard_ip rates net nets config (clock 0) r (text "/api/v1/admin/challenge")
          config.tiers.challenge_ip_limit config.tiers.challenge_ip_window e in
      unless_limited-Same e g
        (challenge_body rates net nets config grant_store challenge_store sha256_hex clock draws
          send body)
        (guard_ip-Keeps rates net nets config (clock 0) r (text "/api/v1/admin/challenge")
          config.tiers.challenge_ip_limit config.tiers.challenge_ip_window e).idem_cache
        (challenge_body-Same clock draws send body g.1)

  challenged-Same :
      (now : ℕ) (req : VerifyBody) (r : Result Error (Unit {0}) × ChallengeManager C)
      (e : Edge L G C P A)
      → Same e (challenged rates net nets config grant_store challenge_store sha256_hex now req r e)
  unfolding challenged
  challenged-Same now req (ok u, m) e = refl
  challenged-Same now req (err x, m) e = refl

  verify_by_challenge-Same :
      (clock : ℕ → ℕ) (req : VerifyBody) (e : Edge L G C P A)
      → Same e (
          verify_by_challenge rates net nets config grant_store challenge_store sha256_hex clock req
            e)
  unfolding verify_by_challenge
  verify_by_challenge-Same clock req e =
      challenged-Same (clock 4) req
        (verify_code challenge_store sha256_hex clock (normalize req.email) (submitted_code req)
          e.challenges)
        e

  granted-Same :
      (clock : ℕ → ℕ) (req : VerifyBody) (r : Result Error GrantRecord × GrantManager G)
      (e : Edge L G C P A)
      → Same e (granted rates net nets config grant_store challenge_store sha256_hex clock req r e)
  unfolding granted
  granted-Same clock req (ok rec, m) e = refl
  granted-Same clock req (err grant_not_found, m) e =
      verify_by_challenge-Same (λ i. clock (i + 4)) req (record e { grants = m })
  granted-Same clock req (err x, m) e = refl

  verify_body-Same :
      (clock : ℕ → ℕ) (body : Option VerifyBody) (e : Edge L G C P A)
      → Same e
          (verify_body rates net nets config grant_store challenge_store sha256_hex clock body e)
  unfolding verify_body
  verify_body-Same clock none e = refl
  verify_body-Same clock (some req) e = elim (Bool-cases (is_empty (normalize req.email))) [
    | inl blank ↦ ground (arith, blank)
    | inr named ↦ elim (Bool-cases (is_empty (submitted_code req))) [
      | inl no_code ↦ ground (arith, named, no_code)
      | inr code ↦ elim (Bool-cases (length (submitted_code req) == 8)) [
        | inl eight ↦ ground (
          arith,
          named,
          code,
          eight,
          granted-Same clock req
              (verify_grant grant_store sha256_hex clock (normalize req.email) (submitted_code req)
                e.grants)
              e,
        )
        | inr other ↦
            ground (arith, named, code, other, verify_by_challenge-Same (λ i. clock (i + 4)) req e)
      ]
    ]
  ]

  pub handle_admin_verify-Same :
      (clock : ℕ → ℕ) (r : Request) (body : Option VerifyBody) (e : Edge L G C P A)
      → Same e (
          handle_admin_verify rates net nets config grant_store challenge_store sha256_hex clock r
            body e)
  unfolding handle_admin_verify
  handle_admin_verify-Same clock r body e =
      let g : Option ℕ × Edge L G C P A =
        guard_ip rates net nets config (clock 0) r (text "/api/v1/admin/verify")
          config.tiers.verify_ip_limit config.tiers.verify_ip_window e in
      unless_limited-Same e g
        (verify_body rates net nets config grant_store challenge_store sha256_hex
          (λ i. clock (i + 1)) body)
        (guard_ip-Keeps rates net nets config (clock 0) r (text "/api/v1/admin/verify")
          config.tiers.verify_ip_limit config.tiers.verify_ip_window e).idem_cache
        (verify_body-Same (λ i. clock (i + 1)) body g.1)
