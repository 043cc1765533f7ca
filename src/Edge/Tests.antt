-- ===== src/Edge/Tests.antt =====
-- Runs of the edge server in memory, with the identity in place of SHA-256.
use orbit_cli.Prelude.{
  if◌then◌else◌, ℕ, ◌+◌, ◌≡◌, ◌⊎◌, arith, true, false, [], ◌∷◌, none, some, refl,
}
use orbit_cli.Prelude.Int.{pos}
use orbit_cli.Prelude.Words.{Text, text, is_empty, same, split, trim_space, to_lower, remove_byte}
use orbit_cli.Prelude.Dict.{lookup}
use orbit_cli.Prelude.Result.{Result, ok, err}
use orbit_cli.RateLimit.{RateLimitStore, new_limiter}
use orbit_cli.RateLimit.Client.{Network, Request}
use orbit_cli.Owner.Code.{normalize, clean_code, hash_grant_code}
use orbit_cli.Owner.Errors.{store_failed}
use orbit_cli.Owner.GrantRecord.{GrantRecord, GrantStore, matches, is_expired}
use orbit_cli.Owner.ChallengeRecord.{ChallengeStore}
use orbit_cli.Owner.Grant.{verify_grant, check_memory}
use orbit_cli.Edge.{
  Config, Edge, Reply, claimed, status_of, cache_get, new_tiers, guard_ip, guard_key,
}
use orbit_cli.Edge.Claim.{
  ClaimBody, ProvisionError, handle_claim, claim_body, idempotency_key, replay_or_provision,
  provision_claim, enriched, is_revoked, answered,
}
use orbit_cli.Prelude.{List, All}
use orbit_cli.Edge.History.{Event, IsBy, claim, verify, list, handle_all}
use orbit_cli.Edge.Caching.{retention}
use orbit_cli.Edge.Replaying.{claim_replayed}
use orbit_cli.Invites.Token.{InviteClaims, Codec, validate_token, validate_parts, decode_base64}
use orbit_cli.Invites.Token as Tokens
use orbit_cli.Edge.Admin.{VerifyBody, granted, verify_body, handle_admin_verify}
use orbit_cli.Edge.Answers.{is_verified}
use orbit_cli.Edge.Redeeming.{verified_once}

abbrev sha : Text → Text
sha t = t

abbrev at : ℕ → ℕ → ℕ
at now i = now + i

abbrev rates : RateLimitStore (Unit {0})
rates = record {
  record_event = λ key route now s. none;
  count_events_since = λ key route since s. none;
  prune_events_older_than = λ cutoff s. none;
}

abbrev grant_store : GrantStore (Unit {0})
grant_store = record {
  save_grant = λ clock g s. (err store_failed, s);
  get_grant = λ now email hash s. (err store_failed, s);
  mark_used = λ now id s. (err store_failed, s);
  list_active_grants = λ now s. (err store_failed, s);
}

abbrev challenge_store : ChallengeStore (Unit {0})
challenge_store = record {
  save_challenge = λ clock c s. (err store_failed, s);
  get_active_challenge = λ now email s. (err store_failed, s);
  increment_attempts = λ id s. (err store_failed, s);
  mark_verified = λ now id s. (err store_failed, s);
  prune_expired = λ now s. (err store_failed, s);
}

-- addresses are texts, and a network is one address
abbrev plain : Network Text Text
plain = record {
  parse_ip = λ s. if is_empty s then none else some s;
  print_ip = λ ip. ip;
  split_host_port = λ s. none;
  is_v4 = λ ip. true;
  parse_cidr = λ s. some s;
  contains = λ n ip. same n ip;
}

abbrev direct : Text → Request
direct ip = record { remote_addr = ip; cf_connecting_ip = []; forwarded_for = []; real_ip = [] }

abbrev config : Config
config = record {
  secret = text "master";
  disable_public_challenges = false;
  allowed_admin_emails = [];
  idempotency_ttl = 0;
  disable_rate_limit = true;
  tiers = new_tiers (pos 0) (pos 0);
}

-- a codec that leaves a text as it is, with claims that are the payload's
abbrev claims : InviteClaims
claims = record {
  id = text "i1";
  email = text "new@manova.dev";
  display_name = text "New";
  scope = text "dev";
  issued_at = 1000;
  expires_at = 0;
  created_by = text "owner";
  metadata = [];
}

abbrev codec : Codec
codec = record {
  hmac = λ secret payload. secret;
  encode = λ b. b;
  raw_url = some;
  url = some;
  raw_std = some;
  std = some;
  marshal = λ c. text "claims";
  unmarshal = λ b. some claims;
}

abbrev provision : ClaimBody → Unit {0} → Result ProvisionError Text × Unit {0}
provision body p = (ok body.desired_uid, p)

abbrev by_token : Text → ClaimBody
by_token token = record {
  invite_token = token;
  desired_uid = [];
  email = [];
  display_name = [];
  ssh_public_key = [];
  machine_fingerprint = text "m1";
  scope = [];
  metadata = none;
}

abbrev root : Text
root = text "root@manova.dev"

abbrev grant : GrantRecord
grant = record {
  id = text "a1";
  email = root;
  code_hash = text "s1:12345678";
  salt = text "s1";
  role = text "admin";
  issued_at = 1000;
  expires_at = 2000;
  created_by = text "owner";
  attempts = 0;
  max_attempts = 3;
  used = false;
  used_at = none;
}

abbrev edge : Edge (Unit {0}) (Unit {0}) (Unit {0}) (Unit {0}) Text
edge = record {
  limiter = new_limiter none (pos 0) (pos 0);
  grants = record { grants = (root, grant) ∷ []; store = none };
  challenges = record { challenges = []; store = none };
  idem_cache = [];
  outside = tt;
}

abbrev request : VerifyBody
request = record {
  email = text " Root@Manova.dev";
  code = text "1234-5678";
  display_name = text "Root";
}

abbrev repeated : VerifyBody
repeated = record { email = root; code = text " 12345678"; display_name = text "Other" }

verified_first :
    is_verified
      (handle_admin_verify rates plain [] config grant_store challenge_store sha
        (at 1500)
        (direct (text "9.9.9.9"))
        (some request)
        edge).0
    ≡ true
unfolding handle_admin_verify guard_ip verify_body granted verify_grant check_memory matches
    is_expired hash_grant_code normalize clean_code trim_space to_lower remove_byte lookup same
    is_verified
verified_first = refl

same_email : normalize repeated.email ≡ normalize request.email
unfolding normalize trim_space to_lower
same_email = refl

same_code : clean_code (trim_space repeated.code) ≡ clean_code (trim_space request.code)
unfolding clean_code trim_space remove_byte
same_code = refl

verified_once_example :
    is_verified
      (handle_admin_verify rates plain [] config grant_store challenge_store sha
        (at 1600)
        (direct (text "8.8.8.8"))
        (some repeated)
        (handle_admin_verify rates plain [] config grant_store challenge_store sha
          (at 1500)
          (direct (text "9.9.9.9"))
          (some request)
          edge).1).0
    ≡ false
verified_once_example =
    verified_once rates plain [] config grant_store challenge_store sha (at 1500) (at 1600)
      (direct (text "9.9.9.9")) (direct (text "8.8.8.8")) request repeated edge refl refl same_email
      same_code verified_first

abbrev new_claim : ClaimBody
new_claim = by_token (text "orbit-inv.claims.master")

-- a claim under another key, a verification, a claim under the key, and a listing
abbrev others : List (Event (Unit {0}))
others =
    claim (at 1510) (direct (text "7.7.7.7")) (text "other") (some new_claim)
    ∷ verify (at 1520) (direct (text "9.9.9.9")) (some request)
    ∷ claim (at 1530) (direct (text "9.9.9.9")) (text "key") (some (by_token []))
    ∷ list (at 1540) (text "Bearer master") root
    ∷ []

claimed_first :
    (handle_claim rates plain [] config codec sha
      (λ id. none)
      provision
      (at 1500)
      (direct (text "9.9.9.9"))
      (text "key")
      (some new_claim)
      edge).0
    ≡ claimed false (text "new")
unfolding handle_claim guard_ip guard_key claim_body idempotency_key replay_or_provision cache_get
    lookup provision_claim validate_token validate_parts decode_base64 Tokens.is_expired split same
    enriched is_revoked answered
claimed_first = refl

others-IsBy : All (λ event. IsBy (1504 + retention config) event) others
unfolding IsBy
others-IsBy = (omega arith, (tt, (omega arith, (tt, tt))))

filled : is_empty (idempotency_key sha (text "key") new_claim) ≡ false
unfolding idempotency_key
filled = refl

same_key :
    idempotency_key sha (text "key") (by_token []) ≡ idempotency_key sha (text "key") new_claim
unfolding idempotency_key
same_key = refl

claim_replayed_example :
    let after : Reply Text × Edge (Unit {0}) (Unit {0}) (Unit {0}) (Unit {0}) Text =
      handle_claim rates plain [] config codec sha
        (λ id. none)
        provision
        (at 1500)
        (direct (text "9.9.9.9"))
        (text "key")
        (some new_claim)
        edge in
    let before : Edge (Unit {0}) (Unit {0}) (Unit {0}) (Unit {0}) Text =
      handle_all rates plain [] config codec sha
        (λ id. none)
        provision
        grant_store
        challenge_store
        others
        after.1 in
    let again : Reply Text × Edge (Unit {0}) (Unit {0}) (Unit {0}) (Unit {0}) Text =
      handle_claim rates plain [] config codec sha
        (λ id. none)
        provision
        (at 1600)
        (direct (text "8.8.8.8"))
        (text "key")
        (some (by_token []))
        before in
    ((again.0 ≡ claimed true (text "new")) ⊎ (status_of again.0 ≡ 429))
    × (again.1.outside ≡ before.outside)
claim_replayed_example =
    claim_replayed rates plain [] config codec sha (λ id. none) provision grant_store
      challenge_store (at 1500) (at 1600) (direct (text "9.9.9.9")) (direct (text "8.8.8.8"))
      (text "key") (text "key") new_claim (by_token []) others edge (text "new") filled same_key
      others-IsBy (omega arith) claimed_first
