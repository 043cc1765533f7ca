-- ===== src/Edge/Keeping.antt =====
-- handleClaim of pkg/onboard/infrastructure/server/server.go: an answer that is kept stays in the cache under
-- further claims.
use orbit_cli.Prelude.{
  ℕ, ◌+◌, ◌≤◌, ◌≡◌, true, false, List, Option, none, some, inl, inr, Bool-cases, arith, sym,
}
use mathlib.Core.Path.{subst}
use orbit_cli.Prelude.Words.{Text, is_empty, text}
use orbit_cli.Prelude.Result.{Result}
use orbit_cli.RateLimit.{RateLimitStore}
use orbit_cli.RateLimit.Client.{Network, Request}
use orbit_cli.Invites.{InviteRecord}
use orbit_cli.Invites.Token.{Codec}
use orbit_cli.Edge.{Config, Edge, Reply, problem, claimed, guard_ip, guard_key, unless_limited}
use orbit_cli.Edge.Claim.{ClaimBody, ProvisionError, claim_body, handle_claim, idempotency_key}
use orbit_cli.Edge.Guards.{guard_ip-Keeps, guard_key-Keeps}
use orbit_cli.Edge.Caching.{
  retention, serve, KeptUntil, replay_or_provision-KeptUntil, replay_or_provision_keeps,
}

module _ {L G C P A Ip Net : Type 0} (rates : RateLimitStore L) (net : Network Ip Net)
    (nets : List Net) (config : Config) (codec : Codec) (sha256_hex : Text → Text)
    (find_invite : Text → Option InviteRecord)
    (provision : ClaimBody → P → Result ProvisionError A × P) where
  abbrev pub serve' : (ℕ → ℕ) → Text → ClaimBody → Edge L G C P A → Reply A × Edge L G C P A
  serve' = serve rates net nets config codec sha256_hex find_invite provision

  abbrev pub receive : (ℕ → ℕ) → Text → ClaimBody → Edge L G C P A → Reply A × Edge L G C P A
  receive clock header req =
      claim_body rates net nets config codec sha256_hex find_invite provision clock header
        (some req)

  abbrev pub limit_key : (ℕ → ℕ) → ClaimBody → Edge L G C P A → Option ℕ × Edge L G C P A
  limit_key clock req e =
      guard_key rates net nets config (clock 0) req.invite_token
        (text "/api/v1/onboard/claim/token") config.tiers.claim_key_limit
        config.tiers.claim_key_window e

  abbrev pub limit_ip : (ℕ → ℕ) → Request → Edge L G C P A → Option ℕ × Edge L G C P A
  limit_ip clock r e =
      guard_ip rates net nets config (clock 0) r (text "/api/v1/onboard/claim")
        config.tiers.claim_ip_limit config.tiers.claim_ip_window e

  claim_body_blank :
      (clock : ℕ → ℕ) (header : Text) (req : ClaimBody) (e : Edge L G C P A)
      → is_empty req.invite_token ≡ true
      → receive clock header req e
        ≡ serve' (λ i. clock (i + 1)) (idempotency_key sha256_hex header req) req e
  unfolding claim_body
  claim_body_blank clock header req e blank = ground arith

  claim_body_token :
      (clock : ℕ → ℕ) (header : Text) (req : ClaimBody) (e : Edge L G C P A)
      → is_empty req.invite_token ≡ false
      → receive clock header req e
        ≡ unless_limited
            (limit_key clock req e)
            (serve' (λ i. clock (i + 1)) (idempotency_key sha256_hex header req) req)
  unfolding claim_body
  claim_body_token clock header req e token = ground arith

  -- what holds of a claim after both ends of its body is that which holds after its handler
  pub claim_body-elim :
      (Q : Reply A × Edge L G C P A → Type 0) (clock : ℕ → ℕ) (header : Text) (req : ClaimBody)
      (e : Edge L G C P A)
      → Q (serve' (λ i. clock (i + 1)) (idempotency_key sha256_hex header req) req e)
      → Q (
          unless_limited
            (limit_key clock req e)
            (serve' (λ i. clock (i + 1)) (idempotency_key sha256_hex header req) req))
      → Q (receive clock header req e)
  claim_body-elim Q clock header req e straight limited =
      elim (Bool-cases (is_empty req.invite_token)) [
        | inl blank ↦ subst Q (sym (claim_body_blank clock header req e blank)) straight
        | inr token ↦ subst Q (sym (claim_body_token clock header req e token)) limited
      ]

  -- an answer is kept where the provisioner gave it
  abbrev Keeping : ℕ → Text → A → Reply A × Edge L G C P A → Type 0
  Keeping t key response after =
      after.0 ≡ claimed false response → KeptUntil t key response after.1.idem_cache

  unless_limited-Keeping :
      (t : ℕ) (key : Text) (response : A) (g : Option ℕ × Edge L G C P A)
      (next : Edge L G C P A → Reply A × Edge L G C P A)
      → Keeping t key response (next g.1)
      → Keeping t key response (unless_limited g next)
  unless_limited-Keeping t key response (some wait, e) next keeps = λ v. absurd (ground arith)
  unless_limited-Keeping t key response (none, e) next keeps = keeps

  unless_limited-KeptUntil :
      (t : ℕ) (key : Text) (response : A) (g : Option ℕ × Edge L G C P A)
      (next : Edge L G C P A → Reply A × Edge L G C P A)
      → KeptUntil t key response g.1.idem_cache
      → KeptUntil t key response (next g.1).1.idem_cache
      → KeptUntil t key response (unless_limited g next).1.idem_cache
  unless_limited-KeptUntil t key response (some wait, e) next before after = before
  unless_limited-KeptUntil t key response (none, e) next before after = after

  pub handle_claim-KeptUntil :
      (clock : ℕ → ℕ) (r : Request) (header : Text) (req : ClaimBody) (e : Edge L G C P A)
      {response : A}
      → is_empty (idempotency_key sha256_hex header req) ≡ false
      → Keeping (clock 4 + retention config) (idempotency_key sha256_hex header req) response (
          handle_claim rates net nets config codec sha256_hex find_invite provision clock r header
            (some req)
            e)
  unfolding handle_claim
  handle_claim-KeptUntil clock r header req e {response} filled =
      let t : ℕ = clock 4 + retention config in
      let key : Text = idempotency_key sha256_hex header req in
      let kept : (e : Edge L G C P A)
          → Keeping t key response (serve' (λ i. clock (i + 2)) key req e) =
        λ e.
          replay_or_provision-KeptUntil rates net nets config codec sha256_hex find_invite provision
            (λ i. clock (i + 2)) key req e filled in
      let g : Edge L G C P A = (limit_ip clock r e).1 in
      unless_limited-Keeping t key response (limit_ip clock r e)
        (receive (λ i. clock (i + 1)) header req)
        (claim_body-elim (Keeping t key response) (λ i. clock (i + 1)) header req g (kept g)
          (unless_limited-Keeping t key response (limit_key (λ i. clock (i + 1)) req g)
            (serve' (λ i. clock (i + 2)) key req) (kept (limit_key (λ i. clock (i + 1)) req g).1)))

  pub handle_claim_keeps :
      (t : ℕ) (key : Text) (clock : ℕ → ℕ) (r : Request) (header : Text) (body : Option ClaimBody)
      (e : Edge L G C P A) {response : A}
      → is_empty key ≡ false
      → clock 2 ≤ t
      → KeptUntil t key response e.idem_cache
      → KeptUntil t key response
          (handle_claim rates net nets config codec sha256_hex find_invite provision clock r header
            body e).1.idem_cache
  unfolding handle_claim claim_body
  handle_claim_keeps t key clock r header none e {response} filled soon kept =
      let same_ =
        guard_ip-Keeps rates net nets config (clock 0) r (text "/api/v1/onboard/claim")
          config.tiers.claim_ip_limit config.tiers.claim_ip_window e in
      let before : KeptUntil t key response (limit_ip clock r e).1.idem_cache =
        subst (KeptUntil t key response) (sym same_.idem_cache) kept in
      unless_limited-KeptUntil t key response (limit_ip clock r e) (λ e. (problem 400, e)) before
        before
  handle_claim_keeps t key clock r header (some req) e {response} filled soon kept =
      let same_ =
        guard_ip-Keeps rates net nets config (clock 0) r (text "/api/v1/onboard/claim")
          config.tiers.claim_ip_limit config.tiers.claim_ip_window e in
      let g : Edge L G C P A = (limit_ip clock r e).1 in
      let before : KeptUntil t key response g.idem_cache =
        subst (KeptUntil t key response) (sym same_.idem_cache) kept in
      let same_key =
        guard_key-Keeps rates net nets config (clock 1) req.invite_token
          (text "/api/v1/onboard/claim/token") config.tiers.claim_key_limit
          config.tiers.claim_key_window g in
      let g' : Edge L G C P A = (limit_key (λ i. clock (i + 1)) req g).1 in
      let before' : KeptUntil t key response g'.idem_cache =
        subst (KeptUntil t key response) (sym same_key.idem_cache) before in
      unless_limited-KeptUntil t key response (limit_ip clock r e)
        (receive (λ i. clock (i + 1)) header req) before
        (claim_body-elim (λ after. KeptUntil t key response after.1.idem_cache) (λ i. clock (i + 1))
          header req g
          (replay_or_provision_keeps rates net nets config codec sha256_hex find_invite provision t
            key (λ i. clock (i + 2)) (idempotency_key sha256_hex header req) req g filled soon
            before)
          (unless_limited-KeptUntil t key response (limit_key (λ i. clock (i + 1)) req g)
            (serve' (λ i. clock (i + 2)) (idempotency_key sha256_hex header req) req) before'
            (replay_or_provision_keeps rates net nets config codec sha256_hex find_invite provision
              t key (λ i. clock (i + 2)) (idempotency_key sha256_hex header req) req g' filled soon
              before')))
