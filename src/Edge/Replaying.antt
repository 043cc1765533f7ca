-- ===== src/Edge/Replaying.antt =====
-- handleClaim of pkg/onboard/infrastructure/server/server.go: what a claim with a key that was claimed
-- before is answered.
use orbit_cli.Prelude.{
  ℕ, ◌+◌, ◌≤◌, ◌≡◌, true, false, List, Option, none, some, ◌⊎◌, inl, inr, refl, sym, ◌∙◌,
}
use mathlib.Core.Path.{subst}
use orbit_cli.Prelude.Words.{Text, is_empty, text}
use orbit_cli.Prelude.Result.{Result}
use orbit_cli.RateLimit.{RateLimitStore}
use orbit_cli.RateLimit.Client.{Network, Request}
use orbit_cli.Invites.{InviteRecord}
use orbit_cli.Invites.Token.{Codec}
use orbit_cli.Edge.{Config, Edge, Reply, claimed, unless_limited, status_of}
use orbit_cli.Edge.Claim.{ClaimBody, ProvisionError, handle_claim, idempotency_key}
use orbit_cli.Edge.Guards.{guard_ip-Keeps, guard_key-Keeps}
use orbit_cli.Edge.Caching.{retention, serve, KeptUntil, replayed}
use orbit_cli.Owner.GrantRecord.{GrantStore}
use orbit_cli.Owner.ChallengeRecord.{ChallengeStore}
use orbit_cli.Edge.{status_of}
use orbit_cli.Prelude.{All}
use orbit_cli.Edge.Keeping.{claim_body-elim, limit_ip, limit_key, receive, handle_claim-KeptUntil}
use orbit_cli.Edge.History.{Event, IsBy, handle_all, handle_all_keeps}
use orbit_cli.Edge.{cache_get}
use orbit_cli.Prelude.{ap}

module _ {L G C P A Ip Net : Type 0} (rates : RateLimitStore L) (net : Network Ip Net)
    (nets : List Net) (config : Config) (codec : Codec) (sha256_hex : Text → Text)
    (find_invite : Text → Option InviteRecord)
    (provision : ClaimBody → P → Result ProvisionError A × P) where
  -- the provisioner is left alone, and the answer is the one that was kept, or 429
  abbrev pub Replays : Edge L G C P A → A → Reply A × Edge L G C P A → Type 0
  Replays e response after =
      ((after.0 ≡ claimed true response) ⊎ (status_of after.0 ≡ 429))
      × (after.1.outside ≡ e.outside)

  unless_limited-Replays :
      (g : Option ℕ × Edge L G C P A) (next : Edge L G C P A → Reply A × Edge L G C P A)
      (e : Edge L G C P A) (response : A)
      → g.1.outside ≡ e.outside
      → Replays g.1 response (next g.1)
      → Replays e response (unless_limited g next)
  unfolding status_of
  unless_limited-Replays (some wait, e') next e response same_ replays = (inr refl, same_)
  unless_limited-Replays (none, e') next e response same_ replays = (replays.0, replays.1 ∙ same_)

  replay_or_provision-Replays :
      (clock : ℕ → ℕ) (key : Text) (req : ClaimBody) (e : Edge L G C P A) {response : A}
      → is_empty key ≡ false
      → cache_get (clock 0) key e.idem_cache ≡ some response
      → Replays e response
          (serve rates net nets config codec sha256_hex find_invite provision clock key req e)
  unfolding status_of
  replay_or_provision-Replays clock key req e {response} filled kept =
      subst (Replays e response)
        (sym (
          replayed rates net nets config codec sha256_hex find_invite provision clock key req e
            filled kept))
        (inl refl, refl)

  pub handle_claim-Replays :
      (clock : ℕ → ℕ) (r : Request) (header : Text) (req : ClaimBody) (e : Edge L G C P A)
      (response : A)
      → is_empty (idempotency_key sha256_hex header req) ≡ false
      → cache_get (clock 2) (idempotency_key sha256_hex header req) e.idem_cache ≡ some response
      → Replays e response (
          handle_claim rates net nets config codec sha256_hex find_invite provision clock r header
            (some req)
            e)
  unfolding handle_claim
  handle_claim-Replays clock r header req e response filled kept =
      let key : Text = idempotency_key sha256_hex header req in
      let same_ =
        guard_ip-Keeps rates net nets config (clock 0) r (text "/api/v1/onboard/claim")
          config.tiers.claim_ip_limit config.tiers.claim_ip_window e in
      let g : Option ℕ × Edge L G C P A =
        limit_ip rates net nets config codec sha256_hex find_invite provision clock r e in
      let same_key =
        guard_key-Keeps rates net nets config (clock 1) req.invite_token
          (text "/api/v1/onboard/claim/token") config.tiers.claim_key_limit
          config.tiers.claim_key_window g.1 in
      let g' : Option ℕ × Edge L G C P A =
        limit_key rates net nets config codec sha256_hex find_invite provision (λ i. clock (i + 1))
          req g.1 in
      let kept' : cache_get (clock 2) key g.1.idem_cache ≡ some response =
        ap (λ c. cache_get (clock 2) key c) same_.idem_cache ∙ kept in
      let kept'' : cache_get (clock 2) key g'.1.idem_cache ≡ some response =
        ap (λ c. cache_get (clock 2) key c) same_key.idem_cache ∙ kept' in
      unless_limited-Replays g
        (receive rates net nets config codec sha256_hex find_invite provision (λ i. clock (i + 1))
          header req)
        e response same_.outside
        (claim_body-elim rates net nets config codec sha256_hex find_invite provision
          (Replays g.1 response) (λ i. clock (i + 1)) header req g.1
          (replay_or_provision-Replays (λ i. clock (i + 2)) key req g.1 filled kept')
          (unless_limited-Replays g'
            (serve rates net nets config codec sha256_hex find_invite provision (λ i. clock (i + 2))
              key req)
            g.1 response same_key.outside
            (replay_or_provision-Replays (λ i. clock (i + 2)) key req g'.1 filled kept'')))

module _ {L G C P A Ip Net : Type 0} (rates : RateLimitStore L) (net : Network Ip Net)
    (nets : List Net) (config : Config) (codec : Codec) (sha256_hex : Text → Text)
    (find_invite : Text → Option InviteRecord)
    (provision : ClaimBody → P → Result ProvisionError A × P) (grant_store : GrantStore G)
    (challenge_store : ChallengeStore C) where
  -- An answer that the provisioner gave to a claim under a key that is not empty, given or computed, is
  -- given again for as long as answers are kept. After any sequence of calls of the handlers, with claims under this and other
  -- keys, from whatever addresses and with whatever bodies, whose claims read the cache in that time, a
  -- further claim that reads it in that time under the key, whatever else its body says, gets the answer
  -- that was kept or 429, and does not ask the provisioner.
  pub claim_replayed :
      (clock clock' : ℕ → ℕ) (r r' : Request) (header header' : Text) (req req' : ClaimBody)
      (events : List (Event P)) (e : Edge L G C P A) (response : A)
      → is_empty (idempotency_key sha256_hex header req) ≡ false
      → idempotency_key sha256_hex header' req' ≡ idempotency_key sha256_hex header req
      → All (λ event. IsBy (clock 4 + retention config) event) events
      → clock' 2 ≤ clock 4 + retention config
      → let after : Reply A × Edge L G C P A =
          handle_claim rates net nets config codec sha256_hex find_invite provision clock r header
            (some req)
            e in
        after.0 ≡ claimed false response
        → let before : Edge L G C P A =
            handle_all rates net nets config codec sha256_hex find_invite provision grant_store
              challenge_store events after.1 in
          let again : Reply A × Edge L G C P A =
            handle_claim rates net nets config codec sha256_hex find_invite provision clock' r'
              header'
              (some req')
              before in
          ((again.0 ≡ claimed true response) ⊎ (status_of again.0 ≡ 429))
          × (again.1.outside ≡ before.outside)
  claim_replayed clock clock' r r' header header' req req' events e response filled same_key by soon
        v =
      let t : ℕ = clock 4 + retention config in
      let key : Text = idempotency_key sha256_hex header req in
      let after : Reply A × Edge L G C P A =
        handle_claim rates net nets config codec sha256_hex find_invite provision clock r header
          (some req) e in
      let before : Edge L G C P A =
        handle_all rates net nets config codec sha256_hex find_invite provision grant_store
          challenge_store events after.1 in
      let kept : KeptUntil t key response before.idem_cache =
        handle_all_keeps rates net nets config codec sha256_hex find_invite provision grant_store
          challenge_store t key events after.1 filled by
          (handle_claim-KeptUntil rates net nets config codec sha256_hex find_invite provision clock
            r header req e filled v) in
      handle_claim-Replays rates net nets config codec sha256_hex find_invite provision clock' r'
        header' req' before response (rw same_key filled) (rw same_key (kept (clock' 2) soon))
