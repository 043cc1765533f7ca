-- ===== src/Edge/Answers.antt =====
-- pkg/onboard/infrastructure/server/server.go: what handleAdminVerify makes of the answers of the grants and
-- of the challenges, and what it leaves of them.
use orbit_cli.Prelude.{
  ℕ, ◌+◌, ◌≡◌, Bool, true, false, List, none, ◌⊎◌, inl, inr, length, arith, refl, sym,
}
use mathlib.Core.Path.{subst}
use orbit_cli.Prelude.Words.{Text}
use orbit_cli.Prelude.Result.{Result, ok, err}
use orbit_cli.RateLimit.{RateLimitStore}
use orbit_cli.RateLimit.Client.{Network}
use orbit_cli.Owner.Code.{normalize}
use orbit_cli.Owner.Errors.{Error, grant_not_found, grant_already_used}
use orbit_cli.Owner.GrantRecord.{GrantManager, GrantRecord, GrantStore}
use orbit_cli.Owner.ChallengeRecord.{ChallengeManager, ChallengeStore}
use orbit_cli.Owner.Grant.{verify_grant}
use orbit_cli.Owner.Challenge.{verify_code}
use orbit_cli.Edge.{Config, Edge, Reply, verified}
use orbit_cli.Edge.Admin.{VerifyBody, challenged, submitted_code, granted, verify_by_challenge}
use orbit_cli.Edge.Spent.{IsSpent, missing_again, redeemed_is_used, accepted_is_spent}
use orbit_cli.Edge.Spent.{used}
use orbit_cli.Edge.Spent.{gone}

unfoldable pub is_verified : {A : Type 0} → Reply A → Bool
is_verified (verified email name fingerprint at) = true
is_verified _ = false

module _ {L G C P A Ip Net : Type 0} (rates : RateLimitStore L) (net : Network Ip Net)
    (nets : List Net) (config : Config) (grant_store : GrantStore G)
    (challenge_store : ChallengeStore C) (sha256_hex : Text → Text) where
  abbrev pub SpentAt : VerifyBody → Edge L G C P A → Type 0
  SpentAt req e =
      IsSpent grant_store challenge_store sha256_hex (normalize req.email) (submitted_code req)
        e.grants e.challenges

  -- what the managers answer to the email and the code of a request
  abbrev pub redeem :
      (ℕ → ℕ) → VerifyBody → Edge L G C P A → Result Error GrantRecord × GrantManager G
  redeem clock req e =
      verify_grant grant_store sha256_hex clock (normalize req.email) (submitted_code req) e.grants

  abbrev respond :
      (ℕ → ℕ) → VerifyBody → Edge L G C P A → Result Error (Unit {0}) × ChallengeManager C
  respond clock req e =
      verify_code challenge_store sha256_hex clock (normalize req.email) (submitted_code req)
        e.challenges

  granted_cases :
      (clock : ℕ → ℕ) (req : VerifyBody) (r : Result Error GrantRecord × GrantManager G)
      (e : Edge L G C P A)
      → is_verified
          (granted rates net nets config grant_store challenge_store sha256_hex clock req r e).0
        ≡ true
      → ((rec : GrantRecord) × (r.0 ≡ ok rec)) ⊎ (r.0 ≡ err grant_not_found)
  unfolding granted is_verified
  granted_cases clock req (ok rec, m) e v = inl (rec, refl)
  granted_cases clock req (err grant_not_found, m) e v = inr refl
  granted_cases clock req (err x, m) e v = absurd (ground arith)

  granted_left :
      (clock : ℕ → ℕ) (req : VerifyBody) (r : Result Error GrantRecord × GrantManager G)
      (e : Edge L G C P A) {rec : GrantRecord}
      → r.0 ≡ ok rec
      → (granted rates net nets config grant_store challenge_store sha256_hex clock req r e).1
        ≡ record e { grants = r.1 }
  unfolding granted
  granted_left clock req (ok rec, m) e v = refl
  granted_left clock req (err x, m) e v = absurd (ground arith)

  granted_used :
      (clock : ℕ → ℕ) (req : VerifyBody) (r : Result Error GrantRecord × GrantManager G)
      (e : Edge L G C P A)
      → r.0 ≡ err grant_already_used
      → is_verified
          (granted rates net nets config grant_store challenge_store sha256_hex clock req r e).0
        ≡ false
  unfolding granted is_verified
  granted_used clock req (ok rec, m) e v = absurd (ground arith)
  granted_used clock req (err grant_already_used, m) e v = refl
  granted_used clock req (err x, m) e v = absurd (ground arith)

  challenged_ok :
      (now : ℕ) (req : VerifyBody) (r : Result Error (Unit {0}) × ChallengeManager C)
      (e : Edge L G C P A)
      → is_verified
          (challenged rates net nets config grant_store challenge_store sha256_hex now req r e).0
        ≡ true
      → r.0 ≡ ok tt
  unfolding challenged is_verified
  challenged_ok now req (ok u, m) e v = refl
  challenged_ok now req (err x, m) e v = absurd (ground arith)

  challenged_left :
      (now : ℕ) (req : VerifyBody) (r : Result Error (Unit {0}) × ChallengeManager C)
      (e : Edge L G C P A)
      → (challenged rates net nets config grant_store challenge_store sha256_hex now req r e).1
        ≡ record e { challenges = r.1 }
  unfolding challenged
  challenged_left now req (ok u, m) e = refl
  challenged_left now req (err x, m) e = refl

  challenge_refused :
      (now : ℕ) (req : VerifyBody) (r : Result Error (Unit {0}) × ChallengeManager C)
      (e : Edge L G C P A) {x : Error}
      → r.0 ≡ err x
      → is_verified
          (challenged rates net nets config grant_store challenge_store sha256_hex now req r e).0
        ≡ false
  unfolding challenged is_verified
  challenge_refused now req (ok u, m) e v = absurd (ground arith)
  challenge_refused now req (err x, m) e v = refl

  pub challenge_spent :
      (clock : ℕ → ℕ) (req : VerifyBody) (e : Edge L G C P A)
      → (length (submitted_code req) ≡ 8
          → (clock' : ℕ → ℕ) → redeem clock' req e ≡ (err grant_not_found, e.grants))
      → e.challenges.store ≡ none
      → is_verified
          (verify_by_challenge rates net nets config grant_store challenge_store sha256_hex clock
            req e).0
        ≡ true
      → let e' : Edge L G C P A =
          (verify_by_challenge rates net nets config grant_store challenge_store sha256_hex clock
            req e).1 in
        SpentAt req e'
  unfolding verify_by_challenge
  challenge_spent clock req e missing h v =
      let r : Result Error (Unit {0}) × ChallengeManager C = respond clock req e in
      let right = challenged_ok (clock 4) req r e v in
      rw (challenged_left (clock 4) req r e) (
        gone missing (λ clock'.
          accepted_is_spent grant_store challenge_store sha256_hex clock clock'
            (normalize req.email) (submitted_code req) e.challenges h right))

  missing_spent :
      (clock : ℕ → ℕ) (req : VerifyBody) (e : Edge L G C P A)
      (r : Result Error GrantRecord × GrantManager G)
      → length (submitted_code req) ≡ 8
      → ((clock' : ℕ → ℕ) → redeem clock' req e ≡ (err grant_not_found, e.grants))
      → r ≡ (err grant_not_found, e.grants)
      → e.challenges.store ≡ none
      → is_verified
          (granted rates net nets config grant_store challenge_store sha256_hex clock req r e).0
        ≡ true
      → SpentAt req
          (granted rates net nets config grant_store challenge_store sha256_hex clock req r e).1
  unfolding granted
  missing_spent clock req e r eight missing same_ c v =
      subst
        (λ r.
          is_verified
              (granted rates net nets config grant_store challenge_store sha256_hex clock req r e).0
            ≡ true
          → SpentAt req
              (granted rates net nets config grant_store challenge_store sha256_hex clock req r
                e).1)
        (sym same_) (λ v. challenge_spent (λ i. clock (i + 4)) req e (λ h. missing) c v) v

  pub granted_spent :
      (clock : ℕ → ℕ) (req : VerifyBody) (e : Edge L G C P A)
      → length (submitted_code req) ≡ 8
      → e.grants.store ≡ none
      → e.challenges.store ≡ none
      → let r : Result Error GrantRecord × GrantManager G = redeem clock req e in
        is_verified
            (granted rates net nets config grant_store challenge_store sha256_hex clock req r e).0
          ≡ true
        → SpentAt req
            (granted rates net nets config grant_store challenge_store sha256_hex clock req r e).1
  granted_spent clock req e eight g c v =
      let r : Result Error GrantRecord × GrantManager G = redeem clock req e in
      elim (granted_cases clock req r e v) [
        | inl (rec, redeemed) ↦ rw (granted_left clock req r e redeemed) (
            used eight (λ clock'.
              redeemed_is_used grant_store challenge_store sha256_hex clock clock'
                (normalize req.email) (submitted_code req) e.grants g redeemed))
        | inr absent ↦
            missing_spent clock req e r eight
              (λ clock'.
                missing_again grant_store challenge_store sha256_hex clock clock'
                  (normalize req.email) (submitted_code req) e.grants g absent)
              (missing_again grant_store challenge_store sha256_hex clock clock
                (normalize req.email) (submitted_code req) e.grants g absent)
              c v
      ]

  missing_refused :
      (clock : ℕ → ℕ) (req : VerifyBody) (e : Edge L G C P A)
      (r : Result Error GrantRecord × GrantManager G) {x : Error}
      → r ≡ (err grant_not_found, e.grants)
      → (respond (λ i. clock (i + 4)) req e).0 ≡ err x
      → is_verified
          (granted rates net nets config grant_store challenge_store sha256_hex clock req r e).0
        ≡ false
  unfolding granted verify_by_challenge
  missing_refused clock req e r same_ refused =
      subst
        (λ r.
          is_verified
            (granted rates net nets config grant_store challenge_store sha256_hex clock req r e).0
          ≡ false)
        (sym same_) (challenge_refused (clock 8) req (respond (λ i. clock (i + 4)) req e) e refused)

  pub spent_not_granted :
      (clock : ℕ → ℕ) (req : VerifyBody) (e : Edge L G C P A)
      → length (submitted_code req) ≡ 8
      → SpentAt req e
      → is_verified
          (granted rates net nets config grant_store challenge_store sha256_hex clock req
            (redeem clock req e)
            e).0
        ≡ false
  spent_not_granted clock req e eight (used same_ burned) =
      granted_used clock req (redeem clock req e) e (burned clock)
  spent_not_granted clock req e eight (gone missing refused) =
      missing_refused clock req e (redeem clock req e) (missing eight clock)
        (refused (λ i. clock (i + 4))).1

  pub spent_not_challenged :
      (clock : ℕ → ℕ) (req : VerifyBody) (e : Edge L G C P A)
      → ¬ (length (submitted_code req) ≡ 8)
      → SpentAt req e
      → is_verified
          (verify_by_challenge rates net nets config grant_store challenge_store sha256_hex clock
            req e).0
        ≡ false
  unfolding verify_by_challenge
  spent_not_challenged clock req e other (used eight burned) = absurd (other eight)
  spent_not_challenged clock req e other (gone missing refused) =
      challenge_refused (clock 4) req (respond clock req e) e (refused clock).1
