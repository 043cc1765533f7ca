-- ===== src/Edge/Claim.antt =====
-- pkg/onboard/infrastructure/server/server.go: handleClaim, which trades an invite token for an
-- identity, and answers a repeated claim from its cache.
use orbit_cli.Prelude.{
  ℕ, ◌+◌, Bool, true, false, not, ◌&&◌, List, [], ◌∷◌, ◌++◌, Option, none, some, if◌then◌else◌,
}
use orbit_cli.Prelude.Words.{Text, text, is_empty, split}
use orbit_cli.Prelude.Dict.{Dict}
use orbit_cli.Prelude.Result.{Result, ok, err}
use orbit_cli.RateLimit.{RateLimitStore}
use orbit_cli.RateLimit.Client.{Network, Request}
use orbit_cli.Invites.{InviteRecord}
use orbit_cli.Invites.Token.{
  InviteClaims, Codec, TokenError, validate_token, empty_secret, rand_failed, malformed_token,
  invalid_signature, token_expired,
}
use orbit_cli.Edge.{
  Config, Edge, Reply, problem, claimed, cache_get, cache_set, guard_ip, guard_key, unless_limited,
}

-- the body of a claim; `idempotency_key` is the header, or the one with X- in front
pub record ClaimBody : Type 0 where
  pub invite_token : Text
  pub desired_uid : Text
  pub email : Text
  pub display_name : Text
  pub ssh_public_key : Text
  pub machine_fingerprint : Text
  pub scope : Text
  pub metadata : Option (Dict Text)

-- what the provisioner may answer in place of a response
pub data ProvisionError : Type 0 where
  user_already_exists invalid_request provision_failed : ProvisionError

unfoldable pub provision_status : ProvisionError → ℕ
provision_status user_already_exists = 409
provision_status invalid_request = 400
provision_status provision_failed = 500

-- the status for a token that ValidateToken refuses
unfoldable pub token_status : TokenError → ℕ
token_status token_expired = 401
token_status invalid_signature = 401
token_status malformed_token = 400
token_status empty_secret = 401
token_status rand_failed = 401

first_part : List Text → Text
first_part [] = []
first_part (part ∷ parts) = part

-- the request with the data of its token
unfoldable pub enriched : InviteClaims → ClaimBody → ClaimBody
unfolding first_part
enriched claims req = record req {
  email = claims.email;
  display_name = if is_empty req.display_name then claims.display_name else req.display_name;
  scope = claims.scope;
  metadata = elim req.metadata [ none ↦ some claims.metadata | some m ↦ some m ];
  desired_uid =
      if is_empty req.desired_uid then first_part (split b'@' claims.email) else req.desired_uid;
}

unfoldable pub is_revoked : Option InviteRecord → Bool
is_revoked none = false
is_revoked (some rec) = rec.revoked

-- the key of the header, or of the token and the machine
unfoldable pub idempotency_key : (Text → Text) → Text → ClaimBody → Text
idempotency_key sha256_hex header req =
    if is_empty header && not (is_empty req.invite_token)
    then sha256_hex (req.invite_token ++ b':' ∷ req.machine_fingerprint)
    else header

-- `find_invite` is GetInvite of the store that is configured, none where there is none or it fails
module _ {L G C P A Ip Net : Type 0} (rates : RateLimitStore L) (net : Network Ip Net)
    (nets : List Net) (config : Config) (codec : Codec) (sha256_hex : Text → Text)
    (find_invite : Text → Option InviteRecord)
    (provision : ClaimBody → P → Result ProvisionError A × P) where
  -- what the provisioner answered, kept for a replay
  unfoldable pub answered :
      ℕ → Text → Result ProvisionError A × P → Edge L G C P A → Reply A × Edge L G C P A
  answered now key (err x, p) e = (problem (provision_status x), record e { outside = p })
  answered now key (ok response, p) e = (
    claimed false response,
    record e {
      outside = p;
      idem_cache =
          if is_empty key
          then e.idem_cache
          else cache_set now key response config.idempotency_ttl e.idem_cache;
    },
  )

  -- handleClaim from the validation of the token on; `clock i` is the i-th reading of the clock that is left
  unfoldable pub provision_claim :
      (ℕ → ℕ) → Text → ClaimBody → Edge L G C P A → Reply A × Edge L G C P A
  unfolding answered enriched is_revoked
  provision_claim clock key req e =
      if is_empty req.invite_token
      then (problem 400, e)
      else elim (validate_token codec (clock 0) req.invite_token config.secret) [
        | err x ↦ (problem (token_status x), e)
        | ok claims ↦
            if is_revoked (find_invite claims.id)
            then (problem 403, e)
            else answered (clock 1) key (provision (enriched claims req) e.outside) e
      ]

  -- handleClaim from the cache on
  unfoldable pub replay_or_provision :
      (ℕ → ℕ) → Text → ClaimBody → Edge L G C P A → Reply A × Edge L G C P A
  unfolding provision_claim
  replay_or_provision clock key req e =
      if is_empty key
      then provision_claim (λ i. clock (i + 1)) key req e
      else elim (cache_get (clock 0) key e.idem_cache) [
        | some response ↦ (claimed true response, e)
        | none ↦ provision_claim (λ i. clock (i + 1)) key req e
      ]

  -- handleClaim on a body, none where it is no JSON of a claim
  unfoldable pub claim_body :
      (ℕ → ℕ) → Text → Option ClaimBody → Edge L G C P A → Reply A × Edge L G C P A
  unfolding replay_or_provision idempotency_key
  claim_body clock header none e = (problem 400, e)
  claim_body clock header (some req) e =
      let key = idempotency_key sha256_hex header req in
      if is_empty req.invite_token
      then replay_or_provision (λ i. clock (i + 1)) key req e
      else unless_limited
          (guard_key rates net nets config (clock 0) req.invite_token
            (text "/api/v1/onboard/claim/token") config.tiers.claim_key_limit
            config.tiers.claim_key_window e)
          (replay_or_provision (λ i. clock (i + 1)) key req)

  -- handleClaim: it reads the clock for the two limits, the cache, the token and what it keeps
  unfoldable pub handle_claim :
      (ℕ → ℕ) → Request → Text → Option ClaimBody → Edge L G C P A → Reply A × Edge L G C P A
  unfolding claim_body
  handle_claim clock r header body e =
      unless_limited
        (guard_ip rates net nets config (clock 0) r (text "/api/v1/onboard/claim")
          config.tiers.claim_ip_limit config.tiers.claim_ip_window e)
        (claim_body (λ i. clock (i + 1)) header body)
