-- ===== src/Edge/Caching.antt =====
-- handleClaim of pkg/onboard/infrastructure/server/server.go from its cache on: what is answered is kept, what
-- is kept is answered, and it stays in the cache until its time is over.
use orbit_cli.Prelude.{
  ℕ, ◌+◌, ◌*◌, ◌≤◌, ◌≡◌, true, false, List, Option, some, inl, inr, ◌==◌, if◌then◌else◌, Bool-cases,
  Option-cases, arith, sym, ◌∙◌, ◌⊎◌,
}
use mathlib.Core.Path.{subst}
use orbit_cli.Prelude.Words.{Text, is_empty, same, same_refl, same_sound}
use orbit_cli.Prelude.Dict.{Dict, lookup-put}
use orbit_cli.Prelude.Result.{Result-cases, Result, ok, err}
use orbit_cli.RateLimit.{RateLimitStore, minute}
use orbit_cli.RateLimit.Client.{Network}
use orbit_cli.Invites.{InviteRecord}
use orbit_cli.Invites.Token.{Codec, validate_token}
use orbit_cli.Edge.{Config, Edge, Reply, CachedClaim, problem, claimed, cache_get, cache_set}
use orbit_cli.Edge.Claim.{
  ClaimBody, ProvisionError, answered, provision_claim, replay_or_provision, enriched, is_revoked,
  token_status,
}

-- how long an answer is kept
abbrev pub retention : Config → ℕ
retention config =
    if config.idempotency_ttl == 0 then 24 * (60 * minute) else config.idempotency_ttl

-- the cache answers for a key up to a time
abbrev pub KeptUntil : {A : Type 0} → ℕ → Text → A → Dict (CachedClaim A) → Type 0
KeptUntil t key response items = (now : ℕ) → now ≤ t → cache_get now key items ≡ some response

cache_get-cache_set :
    {A : Type 0} (now : ℕ) (key : Text) (response : A) (config : Config)
    (items : Dict (CachedClaim A))
    → KeptUntil
        (now + retention config)
        key
        response
        (cache_set now key response config.idempotency_ttl items)
unfolding cache_get cache_set
cache_get-cache_set now key response config items now' soon = ground (
  arith,
  same_refl key,
  lookup-put key key (record { response = response; expires_at = now + retention config }) items,
)

-- an answer under another key leaves what is kept
cache_get-cache_set_other :
    {A : Type 0} (now ttl : ℕ) (key other : Text) (response : A) (items : Dict (CachedClaim A))
    (now' : ℕ)
    → same other key ≡ false
    → cache_get now' key (cache_set now other response ttl items) ≡ cache_get now' key items
unfolding cache_get cache_set
cache_get-cache_set_other now ttl key other response items now' apart = ground (
  arith,
  apart,
  lookup-put other key
      (record {
        response = response;
        expires_at = now + (if ttl == 0 then 24 * (60 * minute) else ttl);
      })
      items,
)

module _ {L G C P A Ip Net : Type 0} (rates : RateLimitStore L) (net : Network Ip Net)
    (nets : List Net) (config : Config) (codec : Codec) (sha256_hex : Text → Text)
    (find_invite : Text → Option InviteRecord)
    (provision : ClaimBody → P → Result ProvisionError A × P) where
  -- the parts of handleClaim, with the parameters of this section
  abbrev note : ℕ → Text → Result ProvisionError A × P → Edge L G C P A → Reply A × Edge L G C P A
  note = answered rates net nets config codec sha256_hex find_invite provision

  abbrev trade : (ℕ → ℕ) → Text → ClaimBody → Edge L G C P A → Reply A × Edge L G C P A
  trade = provision_claim rates net nets config codec sha256_hex find_invite provision

  abbrev pub serve : (ℕ → ℕ) → Text → ClaimBody → Edge L G C P A → Reply A × Edge L G C P A
  serve = replay_or_provision rates net nets config codec sha256_hex find_invite provision

  answered-KeptUntil :
      (now : ℕ) (key : Text) (r : Result ProvisionError A × P) (e : Edge L G C P A) {response : A}
      → is_empty key ≡ false
      → (note now key r e).0 ≡ claimed false response
      → KeptUntil (now + retention config) key response (note now key r e).1.idem_cache
  unfolding answered
  answered-KeptUntil now key (err x, p) e filled v = absurd (ground arith)
  answered-KeptUntil now key (ok response', p) e {response} filled v =
      let same_ : response' ≡ response = ground arith in
      rw (filled, same_) (cache_get-cache_set now key response config e.idem_cache)

  answered_other :
      (t now : ℕ) (key other : Text) (r : Result ProvisionError A × P) (e : Edge L G C P A)
      {response : A}
      → same other key ≡ false
      → KeptUntil t key response e.idem_cache
      → KeptUntil t key response (note now other r e).1.idem_cache
  unfolding answered
  answered_other t now key other (err x, p) e apart kept = kept
  answered_other t now key other (ok response', p) e apart kept = λ now' soon.
      elim (Bool-cases (is_empty other)) [
        | inl blank ↦ rw blank (kept now' soon)
        | inr named ↦ rw named (
            cache_get-cache_set_other now config.idempotency_ttl key other response' e.idem_cache
              now' apart
            ∙ kept now' soon)
      ]

  -- the token is refused, or else the provisioner has answered
  provision_claim_cases :
      (clock : ℕ → ℕ) (key : Text) (req : ClaimBody) (e : Edge L G C P A)
      → ((code : ℕ) × (trade clock key req e ≡ (problem code, e)))
        ⊎ ((r : Result ProvisionError A × P) × (trade clock key req e ≡ note (clock 1) key r e))
  unfolding provision_claim
  provision_claim_cases clock key req e = elim (Bool-cases (is_empty req.invite_token)) [
    | inl blank ↦ inl (400, ground arith)
    | inr token ↦
        elim (Result-cases (validate_token codec (clock 0) req.invite_token config.secret)) [
          | inl (x, invalid) ↦ inl (token_status x, ground arith)
          | inr (claims, valid) ↦ elim (Bool-cases (is_revoked (find_invite claims.id))) [
            | inl revoked ↦ inl (403, ground arith)
            | inr open_ ↦ inr (provision (enriched claims req) e.outside, ground arith)
          ]
        ]
  ]

  -- the answer is one that was kept, or else the claim goes on to the token
  replay_or_provision_cases :
      (clock : ℕ → ℕ) (key : Text) (req : ClaimBody) (e : Edge L G C P A)
      → ((response : A) × (serve clock key req e ≡ (claimed true response, e)))
        ⊎ (serve clock key req e ≡ trade (λ i. clock (i + 1)) key req e)
  unfolding replay_or_provision
  replay_or_provision_cases clock key req e = elim (Bool-cases (is_empty key)) [
    | inl blank ↦ inr (ground arith)
    | inr named ↦ elim (Option-cases (cache_get (clock 0) key e.idem_cache)) [
      | inl absent ↦ inr (ground arith)
      | inr (response, found) ↦ inl (response, ground arith)
    ]
  ]

  pub replayed :
      (clock : ℕ → ℕ) (key : Text) (req : ClaimBody) (e : Edge L G C P A) {response : A}
      → is_empty key ≡ false
      → cache_get (clock 0) key e.idem_cache ≡ some response
      → serve clock key req e ≡ (claimed true response, e)
  unfolding replay_or_provision
  replayed clock key req e filled kept = ground arith

  -- what the provisioner answered is kept from then on
  abbrev Keeping : ℕ → Text → A → Reply A × Edge L G C P A → Type 0
  Keeping t key response after =
      after.0 ≡ claimed false response → KeptUntil t key response after.1.idem_cache

  pub replay_or_provision-KeptUntil :
      (clock : ℕ → ℕ) (key : Text) (req : ClaimBody) (e : Edge L G C P A) {response : A}
      → is_empty key ≡ false
      → Keeping (clock 2 + retention config) key response (serve clock key req e)
  replay_or_provision-KeptUntil clock key req e {response} filled =
      elim (replay_or_provision_cases clock key req e) [
        | inl (response', again) ↦ λ v. absurd (ground (arith, again, v))
        | inr went ↦ elim (provision_claim_cases (λ i. clock (i + 1)) key req e) [
          | inl (code, refused) ↦ λ v. absurd (ground (arith, went, refused, v))
          | inr (r, traded) ↦
              subst (Keeping (clock 2 + retention config) key response) (sym (went ∙ traded))
                (answered-KeptUntil (clock 2) key r e filled)
        ]
      ]

  -- a further claim, under the key or another one, leaves what is kept
  pub replay_or_provision_keeps :
      (t : ℕ) (key : Text) (clock : ℕ → ℕ) (other : Text) (req : ClaimBody) (e : Edge L G C P A)
      {response : A}
      → is_empty key ≡ false
      → clock 0 ≤ t
      → KeptUntil t key response e.idem_cache
      → KeptUntil t key response (serve clock other req e).1.idem_cache
  replay_or_provision_keeps t key clock other req e {response} filled soon kept =
      let Stays : Reply A × Edge L G C P A → Type 0 =
        λ after. KeptUntil t key response after.1.idem_cache in
      elim (Bool-cases (same other key)) [
        | inl equal ↦
            subst (λ k. Stays (serve clock k req e)) (sym (same_sound other key equal))
              (subst Stays (sym (replayed clock key req e filled (kept (clock 0) soon))) kept)
        | inr apart ↦ elim (replay_or_provision_cases clock other req e) [
          | inl (response', again) ↦ subst Stays (sym again) kept
          | inr went ↦ elim (provision_claim_cases (λ i. clock (i + 1)) other req e) [
            | inl (code, refused) ↦ subst Stays (sym (went ∙ refused)) kept
            | inr (r, traded) ↦
                subst Stays (sym (went ∙ traded))
                  (answered_other t (clock 2) key other r e apart kept)
          ]
        ]
      ]
