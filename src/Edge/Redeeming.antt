-- ===== src/Edge/Redeeming.antt =====
-- handleAdminVerify of pkg/onboard/infrastructure/server/server.go, with grants and challenges in
-- memory: what a second verification with the same email and code is answered.
use orbit_cli.Prelude.{
  ℕ, ◌+◌, ◌≡◌, true, false, List, Option, none, some, inl, inr, ◌==◌, Bool-cases, length, arith,
  refl, sym,
}
use mathlib.Core.Path.{subst}
use orbit_cli.Prelude.Words.{Text}
use orbit_cli.RateLimit.{RateLimitStore}
use orbit_cli.RateLimit.Client.{Network, Request}
use orbit_cli.Owner.Code.{normalize}
use orbit_cli.Owner.GrantRecord.{GrantStore}
use orbit_cli.Owner.ChallengeRecord.{ChallengeStore}
use orbit_cli.Edge.{Config, Edge, Reply, guard_ip}
use orbit_cli.Edge.Admin.{
  VerifyBody, submitted_code, granted, verify_by_challenge, verify_body, handle_admin_verify,
}
use orbit_cli.Edge.{verified}
use orbit_cli.Edge.Guards.{guarded, guard_ip-Keeps, is_limited}
use orbit_cli.Edge.Answers.{
  is_verified, SpentAt, redeem, challenge_spent, granted_spent, spent_not_granted,
  spent_not_challenged,
}
use orbit_cli.Prelude.Words.{text}

verified_unlimited : {A : Type 0} (x : Reply A) → is_verified x ≡ true → is_limited x ≡ false
unfolding is_verified is_limited
verified_unlimited (verified email name fingerprint at) v = refl
verified_unlimited _ v = absurd (ground arith)

module _ {L G C P A Ip Net : Type 0} (rates : RateLimitStore L) (net : Network Ip Net)
    (nets : List Net) (config : Config) (grant_store : GrantStore G)
    (challenge_store : ChallengeStore C) (sha256_hex : Text → Text) where
  abbrev answer : (ℕ → ℕ) → VerifyBody → Edge L G C P A → Reply A × Edge L G C P A
  answer clock req e =
      verify_body rates net nets config grant_store challenge_store sha256_hex clock (some req) e

  abbrev handle : (ℕ → ℕ) → Request → VerifyBody → Edge L G C P A → Reply A × Edge L G C P A
  handle clock r req e =
      handle_admin_verify rates net nets config grant_store challenge_store sha256_hex clock r
        (some req) e

  -- the rest of handleAdminVerify, for a body with an email and a code
  verify_body_granted :
      (clock : ℕ → ℕ) (req : VerifyBody) (e : Edge L G C P A)
      → is_verified (answer clock req e).0 ≡ true
      → length (submitted_code req) ≡ 8
      → answer clock req e
        ≡ granted rates net nets config grant_store challenge_store sha256_hex clock req
            (redeem rates net nets config grant_store challenge_store sha256_hex clock req e)
            e
  unfolding verify_body is_verified
  verify_body_granted clock req e v eight = ground arith

  verify_body_challenged :
      (clock : ℕ → ℕ) (req : VerifyBody) (e : Edge L G C P A)
      → is_verified (answer clock req e).0 ≡ true
      → ¬ (length (submitted_code req) ≡ 8)
      → answer clock req e
        ≡ verify_by_challenge rates net nets config grant_store challenge_store sha256_hex
            (λ i. clock (i + 4))
            req
            e
  unfolding verify_body is_verified
  verify_body_challenged clock req e v other = ground arith

  refuted :
      (clock : ℕ → ℕ) (req : VerifyBody) (e : Edge L G C P A)
      → SpentAt rates net nets config grant_store challenge_store sha256_hex req e
      → ¬ (is_verified (answer clock req e).0 ≡ true)
  refuted clock req e s v = elim (Bool-cases (length (submitted_code req) == 8)) [
    | inl t ↦
        let eight : length (submitted_code req) ≡ 8 = ground arith in
        ground (
          arith,
          v,
          verify_body_granted clock req e v eight,
          spent_not_granted rates net nets config grant_store challenge_store sha256_hex clock req e
              eight s,
        )
    | inr f ↦
        let other : ¬ (length (submitted_code req) ≡ 8) = ground arith in
        ground (
          arith,
          v,
          verify_body_challenged clock req e v other,
          spent_not_challenged rates net nets config grant_store challenge_store sha256_hex
              (λ i. clock (i + 4)) req e other s,
        )
  ]

  verified_is_spent :
      (clock : ℕ → ℕ) (req : VerifyBody) (e : Edge L G C P A)
      → e.grants.store ≡ none
      → e.challenges.store ≡ none
      → is_verified (answer clock req e).0 ≡ true
      → SpentAt rates net nets config grant_store challenge_store sha256_hex req
          (answer clock req e).1
  verified_is_spent clock req e g c v = elim (Bool-cases (length (submitted_code req) == 8)) [
    | inl t ↦
        let eight : length (submitted_code req) ≡ 8 = ground arith in
        let same_ = verify_body_granted clock req e v eight in
        subst (λ b. SpentAt rates net nets config grant_store challenge_store sha256_hex req b.1)
          (sym same_)
          (granted_spent rates net nets config grant_store challenge_store sha256_hex clock req e
            eight g c (subst (λ b. is_verified b.0 ≡ true) same_ v))
    | inr f ↦
        let other : ¬ (length (submitted_code req) ≡ 8) = ground arith in
        let same_ = verify_body_challenged clock req e v other in
        subst (λ b. SpentAt rates net nets config grant_store challenge_store sha256_hex req b.1)
          (sym same_)
          (challenge_spent rates net nets config grant_store challenge_store sha256_hex
            (λ i. clock (i + 4)) req e (λ h. absurd (other h)) c
            (subst (λ b. is_verified b.0 ≡ true) same_ v))
  ]

  -- a verification that succeeds passed the guard of its address, which leaves the stores alone
  handled :
      (clock : ℕ → ℕ) (r : Request) (req : VerifyBody) (e : Edge L G C P A)
      → is_verified (handle clock r req e).0 ≡ true
      → (e' : Edge L G C P A) × (e'.grants ≡ e.grants)
        × (e'.challenges ≡ e.challenges)
        × (handle clock r req e ≡ answer (λ i. clock (i + 1)) req e')
  unfolding handle_admin_verify
  handled clock r req e v =
      let g : Option ℕ × Edge L G C P A =
        guard_ip rates net nets config (clock 0) r (text "/api/v1/admin/verify")
          config.tiers.verify_ip_limit config.tiers.verify_ip_window e in
      let kept =
        guard_ip-Keeps rates net nets config (clock 0) r (text "/api/v1/admin/verify")
          config.tiers.verify_ip_limit config.tiers.verify_ip_window e in
      (
        g.1,
        kept.grants,
        kept.challenges,
        guarded g
            (verify_body rates net nets config grant_store challenge_store sha256_hex
              (λ i. clock (i + 1)) (some req))
            refl (verified_unlimited (handle clock r req e).0 v),
      )

  handled_is_spent :
      (clock : ℕ → ℕ) (r : Request) (req : VerifyBody) (e : Edge L G C P A)
      → e.grants.store ≡ none
      → e.challenges.store ≡ none
      → let after : Reply A × Edge L G C P A = handle clock r req e in
        is_verified after.0 ≡ true
        → SpentAt rates net nets config grant_store challenge_store sha256_hex req after.1
  handled_is_spent clock r req e g c v =
      let (e', same_grants, same_challenges, same_) = handled clock r req e v in
      subst (λ b. SpentAt rates net nets config grant_store challenge_store sha256_hex req b.1)
        (sym same_)
        (verified_is_spent (λ i. clock (i + 1)) req e' (rw same_grants g) (rw same_challenges c)
          (subst (λ b. is_verified b.0 ≡ true) same_ v))

  spent_not_handled :
      (clock : ℕ → ℕ) (r : Request) (req : VerifyBody) (e : Edge L G C P A)
      → SpentAt rates net nets config grant_store challenge_store sha256_hex req e
      → ¬ (is_verified (handle clock r req e).0 ≡ true)
  spent_not_handled clock r req e s v =
      let (e', same_grants, same_challenges, same_) = handled clock r req e v in
      refuted (λ i. clock (i + 1)) req e' (rw (same_grants, same_challenges) s)
        (subst (λ b. is_verified b.0 ≡ true) same_ v)

  -- With grants and challenges in memory, a code that handleAdminVerify has accepted for an email is
  -- not accepted a second time for it: whatever the clock, the address and the name of the second
  -- request, and whether a grant or a challenge let the first one pass.
  pub verified_once :
      (clock clock' : ℕ → ℕ) (r r' : Request) (req req' : VerifyBody) (e : Edge L G C P A)
      → e.grants.store ≡ none
      → e.challenges.store ≡ none
      → normalize req'.email ≡ normalize req.email
      → submitted_code req' ≡ submitted_code req
      → let after : Reply A × Edge L G C P A =
          handle_admin_verify rates net nets config grant_store challenge_store sha256_hex clock r
            (some req)
            e in
        is_verified after.0 ≡ true
        → is_verified
            (handle_admin_verify rates net nets config grant_store challenge_store sha256_hex clock'
              r'
              (some req')
              after.1).0
          ≡ false
  verified_once clock clock' r r' req req' e g c same_email same_code v =
      let after : Reply A × Edge L G C P A =
        handle_admin_verify rates net nets config grant_store challenge_store sha256_hex clock r
          (some req) e in
      elim (Bool-cases (
        is_verified
          (handle_admin_verify rates net nets config grant_store challenge_store sha256_hex clock'
            r' (some req') after.1).0)) [
              | inl twice ↦ absurd (
                  spent_not_handled clock' r' req' after.1
                    (rw (same_email, same_code) (handled_is_spent clock r req e g c v)) twice)
              | inr once ↦ once
            ]
