-- ===== src/Edge/History.antt =====
-- pkg/onboard/infrastructure/server/server.go: sequences of calls of the handlers, and what is kept under them.
use orbit_cli.Prelude.{All}
use orbit_cli.Prelude.{ℕ, ◌≤◌, ◌≡◌, Bool, false, List, [], ◌∷◌, Option, sym}
use mathlib.Core.Path.{subst}
use orbit_cli.Prelude.Words.{Text, is_empty}
use orbit_cli.Prelude.Result.{Result}
use orbit_cli.RateLimit.{RateLimitStore}
use orbit_cli.RateLimit.Client.{Network, Request}
use orbit_cli.Invites.{InviteRecord}
use orbit_cli.Invites.Token.{Codec}
use orbit_cli.Owner.GrantRecord.{GrantRecord, GrantStore, GrantManager}
use orbit_cli.Owner.GrantRecord as Granted
use orbit_cli.Owner.ChallengeRecord.{
  Challenge, ChallengeStore, ChallengeManager, default_challenge_ttl,
}
use orbit_cli.Owner.ChallengeRecord as Challenged
use orbit_cli.Edge.{Config, Edge, Reply, handle_health}
use orbit_cli.Edge.Claim.{ClaimBody, ProvisionError, handle_claim}
use orbit_cli.Edge.Admin.{VerifyBody, handle_admin_challenge, handle_admin_verify}
use orbit_cli.Edge.Ledger.{GrantBody, handle_admin_grant_create, handle_admin_grant_list}
use orbit_cli.Edge.Frames.{
  handle_health-Same, handle_admin_challenge-Same, handle_admin_verify-Same,
}
use orbit_cli.Edge.LedgerFrames.{handle_admin_grant_create-Same, handle_admin_grant_list-Same}
use orbit_cli.Edge.Caching.{KeptUntil}
use orbit_cli.Edge.Keeping.{handle_claim_keeps}

-- a call of a handler; the clock is a function for those that read it more than once
pub data Event (P : Type 0) : Type 0 where
  claim : (ℕ → ℕ) → Request → Text → Option ClaimBody → Event P
  health : ℕ → Bool → Request → Event P
  challenge :
      (ℕ → ℕ) → Challenged.Draws → (Text → Text → P → Bool × P) → Request → Option Text → Event P
  verify : (ℕ → ℕ) → Request → Option VerifyBody → Event P
  create : (ℕ → ℕ) → Granted.Draws → Text → Option GrantBody → Event P
  list : (ℕ → ℕ) → Text → Text → Event P

-- the cache is read at a claim not later than `t`
unfoldable pub IsBy : {P : Type 0} → ℕ → Event P → Type 0
IsBy t (claim clock r header body) = clock 2 ≤ t
IsBy t _ = Unit

module _ {L G C P A Ip Net : Type 0} (rates : RateLimitStore L) (net : Network Ip Net)
    (nets : List Net) (config : Config) (codec : Codec) (sha256_hex : Text → Text)
    (find_invite : Text → Option InviteRecord)
    (provision : ClaimBody → P → Result ProvisionError A × P) (grant_store : GrantStore G)
    (challenge_store : ChallengeStore C) where
  unfoldable pub handle : Event P → Edge L G C P A → Reply A × Edge L G C P A
  handle (claim clock r header body) =
      handle_claim rates net nets config codec sha256_hex find_invite provision clock r header body
  handle (health now is_healthy r) = handle_health rates net nets config now is_healthy r
  handle (challenge clock draws send r body) =
      handle_admin_challenge rates net nets config grant_store challenge_store sha256_hex clock
        draws send r body
  handle (verify clock r body) =
      handle_admin_verify rates net nets config grant_store challenge_store sha256_hex clock r body
  handle (create clock draws header body) =
      handle_admin_grant_create config grant_store sha256_hex codec clock draws header body
  handle (list clock header email) =
      handle_admin_grant_list config grant_store sha256_hex codec clock header email

  -- what a sequence of calls leaves of the server
  unfoldable pub handle_all : List (Event P) → Edge L G C P A → Edge L G C P A
  unfolding handle
  handle_all [] e = e
  handle_all (event ∷ events) e = handle_all events (handle event e).1

  handle_keeps :
      (t : ℕ) (key : Text) (event : Event P) (e : Edge L G C P A) {response : A}
      → is_empty key ≡ false
      → IsBy t event
      → KeptUntil t key response e.idem_cache
      → KeptUntil t key response (handle event e).1.idem_cache
  unfolding handle IsBy
  handle_keeps t key (claim clock r header body) e filled soon kept =
      handle_claim_keeps rates net nets config codec sha256_hex find_invite provision t key clock r
        header body e filled soon kept
  handle_keeps t key (health now is_healthy r) e {response} filled soon kept =
      subst (KeptUntil t key response)
        (sym (handle_health-Same rates net nets config now is_healthy r e)) kept
  handle_keeps t key (challenge clock draws send r body) e {response} filled soon kept =
      subst (KeptUntil t key response)
        (sym (
          handle_admin_challenge-Same rates net nets config grant_store challenge_store sha256_hex
            clock draws send r body e))
        kept
  handle_keeps t key (verify clock r body) e {response} filled soon kept =
      subst (KeptUntil t key response)
        (sym (
          handle_admin_verify-Same rates net nets config grant_store challenge_store sha256_hex
            clock r body e))
        kept
  handle_keeps t key (create clock draws header body) e {response} filled soon kept =
      subst (KeptUntil t key response)
        (sym (
          handle_admin_grant_create-Same config grant_store sha256_hex codec clock draws header body
            e))
        kept
  handle_keeps t key (list clock header email) e {response} filled soon kept =
      subst (KeptUntil t key response)
        (sym
          (handle_admin_grant_list-Same config grant_store sha256_hex codec clock header email e))
        kept

  pub handle_all_keeps :
      (t : ℕ) (key : Text) (events : List (Event P)) (e : Edge L G C P A) {response : A}
      → is_empty key ≡ false
      → All (λ event. IsBy t event) events
      → KeptUntil t key response e.idem_cache
      → KeptUntil t key response (handle_all events e).idem_cache
  unfolding handle_all
  handle_all_keeps t key [] e filled soon kept = kept
  handle_all_keeps t key (event ∷ events) e filled soon kept =
      handle_all_keeps t key events (handle event e).1 filled soon.1
        (handle_keeps t key event e filled soon.0 kept)
