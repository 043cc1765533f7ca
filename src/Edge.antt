-- ===== src/Edge.antt =====
-- pkg/onboard/infrastructure/server/server.go: the state of the edge server, its configuration and the
-- guards of its handlers. The text of an answer is left out, but for what a client acts on.
pub mod Claim
pub mod Admin
pub mod Ledger
pub mod Spent
pub mod Answers
pub mod Redeeming
pub mod Guards
pub mod Caching
pub mod Frames
pub mod LedgerFrames
pub mod History
pub mod Keeping
pub mod Replaying
mod Tests
use orbit_cli.Prelude.{
  ℕ, ◌+◌, ◌*◌, ◌/◌, Bool, true, false, not, ◌&&◌, List, [], Option, none, some, ltb, ◌==◌,
  if◌then◌else◌,
}
use orbit_cli.Prelude.Int.{ℤ, pos, pos_or}
use orbit_cli.Prelude.Words.{Text, text}
use orbit_cli.Prelude.Dict.{Dict, lookup, put}
use orbit_cli.Prelude.Result.{Result, ok, err}
use orbit_cli.RateLimit.{Limiter, RateLimitStore, Verdict, second, minute, allow_key}
use orbit_cli.RateLimit.Client.{Network, Request}
use orbit_cli.RateLimit.Middleware.{allow_ip, verdict_or_refused}
use orbit_cli.Owner.GrantRecord.{GrantManager, GrantRecord}
use orbit_cli.Owner.ChallengeRecord.{ChallengeManager}

-- the limits of NewServer
pub record Tiers : Type 0 where
  pub claim_ip_limit : ℕ
  pub claim_ip_window : ℕ
  pub claim_key_limit : ℕ
  pub claim_key_window : ℕ
  pub challenge_ip_limit : ℕ
  pub challenge_ip_window : ℕ
  pub challenge_email_limit : ℕ
  pub challenge_email_window : ℕ
  pub verify_ip_limit : ℕ
  pub verify_ip_window : ℕ
  pub health_ip_limit : ℕ
  pub health_ip_window : ℕ

-- ServerConfig, as far as the handlers read it
pub record Config : Type 0 where
  pub secret : Text
  pub disable_public_challenges : Bool
  pub allowed_admin_emails : List Text
  pub idempotency_ttl : ℕ
  pub disable_rate_limit : Bool
  pub tiers : Tiers

-- `if v > 0 && v != usual { tier = v }` on what the options come to
abbrev tier : ℕ → ℕ → ℕ → ℕ
tier usual given default = if given == usual then default else given

-- the tiers of NewServer, for the options RateLimit and RateInterval
unfoldable pub new_tiers : ℤ → ℤ → Tiers
new_tiers rate_limit rate_interval =
    let limit = pos_or 10 rate_limit in
    let window = pos_or minute rate_interval in
    record {
      claim_ip_limit = tier 10 limit 10;
      claim_ip_window = tier minute window minute;
      claim_key_limit = 5;
      claim_key_window = 10 * minute;
      challenge_ip_limit = tier 10 limit 5;
      challenge_ip_window = tier minute window (5 * minute);
      challenge_email_limit = 3;
      challenge_email_window = 10 * minute;
      verify_ip_limit = tier 10 limit 10;
      verify_ip_window = tier minute window (5 * minute);
      health_ip_limit = tier 10 limit 60;
      health_ip_window = tier minute window minute;
    }

pub record CachedClaim (A : Type 0) : Type 0 where
  pub response : A
  pub expires_at : ℕ

-- (*idempotencyCache).Get
unfoldable pub cache_get : {A : Type 0} → ℕ → Text → Dict (CachedClaim A) → Option A
cache_get now key items = elim (lookup key items) [
  | none ↦ none
  | some item ↦ if ltb item.expires_at now then none else some item.response
]

-- (*idempotencyCache).Set
unfoldable pub cache_set :
    {A : Type 0} → ℕ → Text → A → ℕ → Dict (CachedClaim A) → Dict (CachedClaim A)
cache_set now key response ttl items =
    put key
      (record {
        response = response;
        expires_at = now + (if ttl == 0 then 24 * (60 * minute) else ttl);
      })
      items

-- Server. `L`, `G` and `C` are the states of the stores, and `P` that of the provisioner and the mailer;
-- `A` is what the provisioner answers.
pub record Edge (L G C P A : Type 0) : Type 0 where
  pub limiter : Limiter L
  pub grants : GrantManager G
  pub challenges : ChallengeManager C
  pub idem_cache : Dict (CachedClaim A)
  pub outside : P

-- What a handler answers: 429 with Retry-After, an error with its status, or success.
pub data Reply (A : Type 0) : Type 0 where
  too_many : ℕ → Reply A
  problem : ℕ → Reply A
  claimed : Bool → A → Reply A
  challenge_sent : Text → ℕ → Reply A
  verified : Text → Text → Text → ℕ → Reply A
  grant_created : GrantRecord → Text → Reply A
  grant_found : GrantRecord → Reply A
  healthy ledger : Reply A

-- the status code
unfoldable pub status_of : {A : Type 0} → Reply A → ℕ
status_of (too_many wait) = 429
status_of (problem code) = code
status_of (claimed replay response) = 200
status_of (challenge_sent email expires_at) = 200
status_of (verified email name fingerprint at) = 200
status_of (grant_created rec code) = 201
status_of (grant_found rec) = 200
status_of healthy = 200
status_of ledger = 200

-- `if !allowed { retrySec := int(retryAfter.Seconds()) + 1; ...; return }`
unfoldable pub refusal : Verdict → Option ℕ
refusal v = if v.allowed then none else some (v.retry_after / second + 1)

-- the rest of a handler, where the limit lets the request pass
abbrev pub unless_limited : {A E : Type 0} → Option ℕ × E → (E → Reply A × E) → Reply A × E
unless_limited (some wait, e) next = (too_many wait, e)
unless_limited (none, e) next = next e

module _ {L G C P A Ip Net : Type 0} (rates : RateLimitStore L) (net : Network Ip Net)
    (nets : List Net) (config : Config) where
  -- the rate limit of an address, unless it is disabled: none lets the request pass
  unfoldable pub guard_ip : ℕ → Request → Text → ℕ → ℕ → Edge L G C P A → Option ℕ × Edge L G C P A
  unfolding refusal
  guard_ip now r route limit window e =
      if config.disable_rate_limit
      then (none, e)
      else (let (result, l) =
            allow_ip rates net nets now r route (pos limit) (pos window) e.limiter in
          (refusal (verdict_or_refused result), record e { limiter = l }))

  -- the rate limit of a token or an email
  unfoldable pub guard_key : ℕ → Text → Text → ℕ → ℕ → Edge L G C P A → Option ℕ × Edge L G C P A
  unfolding refusal
  guard_key now key route limit window e =
      if config.disable_rate_limit
      then (none, e)
      else (let (result, l) = allow_key rates now key route (pos limit) (pos window) e.limiter in
          (refusal (verdict_or_refused result), record e { limiter = l }))

  -- handleHealth; `is_healthy` is what the provisioner says
  unfoldable pub handle_health : ℕ → Bool → Request → Edge L G C P A → Reply A × Edge L G C P A
  unfolding guard_ip
  handle_health now is_healthy r e =
      unless_limited
        (guard_ip now r (text "/health") config.tiers.health_ip_limit config.tiers.health_ip_window
          e)
        (λ e. (if is_healthy then healthy else problem 503, e))
