-- ===== src/Edge/Spent.antt =====
-- pkg/owner/domain: an email and a code that neither manager in memory will accept any more. handleAdminVerify
-- of pkg/onboard/infrastructure/server/server.go asks the grants first, then the challenges.
use orbit_cli.Prelude.{ℕ, ◌≡◌, false, none, inl, inr, Bool-cases, Option-cases, length, arith}
use orbit_cli.Prelude.Words.{Text, is_empty, trim_space}
use orbit_cli.Prelude.Result.{ok, err}
use orbit_cli.Owner.Code.{normalize, clean_code}
use orbit_cli.Owner.Errors.{
  Error, grant_not_found, grant_already_used, email_empty, code_empty, challenge_not_found,
}
use orbit_cli.Owner.GrantRecord.{GrantManager, GrantRecord, GrantStore}
use orbit_cli.Owner.ChallengeRecord.{ChallengeManager, ChallengeStore}
use orbit_cli.Owner.Grant.{verify_grant, check_memory}
use orbit_cli.Owner.Grant.Memory.{verify_grant_once}
use orbit_cli.Owner.Grant.Memory as Grants
use orbit_cli.Owner.Challenge.{verify_code}
use orbit_cli.Owner.Challenge as Challenging
use orbit_cli.Owner.Challenge.Memory.{verify_code_consumes}
use orbit_cli.Owner.Challenge.Memory as Challenges

module _ {G C : Type 0} (grant_store : GrantStore G) (challenge_store : ChallengeStore C)
    (sha256_hex : Text → Text) where
  -- at no time is the code verified for the email
  pub data IsSpent (email code : Text) (g : GrantManager G) (c : ChallengeManager C) : Type 0 where
    used :
        length code ≡ 8
        → ((clock : ℕ → ℕ)
            → (verify_grant grant_store sha256_hex clock email code g).0 ≡ err grant_already_used)
        → IsSpent email code g c
    gone :
        (length code ≡ 8
          → (clock : ℕ → ℕ)
          → verify_grant grant_store sha256_hex clock email code g ≡ (err grant_not_found, g))
        → ((clock : ℕ → ℕ)
            → (x : Error) × ((verify_code challenge_store sha256_hex clock email code c).0 ≡ err x))
        → IsSpent email code g c

  -- a grant that is not found is not found at another time either
  pub missing_again :
      (clock clock' : ℕ → ℕ) (email code : Text) (g : GrantManager G)
      → g.store ≡ none
      → (verify_grant grant_store sha256_hex clock email code g).0 ≡ err grant_not_found
      → verify_grant grant_store sha256_hex clock' email code g ≡ (err grant_not_found, g)
  unfolding verify_grant check_memory
  missing_again clock clock' email code g h v = elim (Option-cases (Grants.held email g)) [
    | inl absent ↦ ground arith
    | inr (rec, found) ↦ absurd (ground arith)
  ]

  redeemed_nonempty :
      (clock : ℕ → ℕ) (email code : Text) (g : GrantManager G) {rec : GrantRecord}
      → (verify_grant grant_store sha256_hex clock email code g).0 ≡ ok rec
      → is_empty (clean_code code) ≡ false
  unfolding verify_grant
  redeemed_nonempty clock email code g v = ground arith

  pub redeemed_is_used :
      (clock clock' : ℕ → ℕ) (email code : Text) (g : GrantManager G) {rec : GrantRecord}
      → g.store ≡ none
      → (verify_grant grant_store sha256_hex clock email code g).0 ≡ ok rec
      → (verify_grant grant_store sha256_hex clock' email code
          (verify_grant grant_store sha256_hex clock email code g).1).0
        ≡ err grant_already_used
  redeemed_is_used clock clock' email code g h v =
      verify_grant_once grant_store sha256_hex clock clock' email code code g h
        (redeemed_nonempty clock email code g v) v

  absent_refused :
      (clock : ℕ → ℕ) (email code : Text) (c : ChallengeManager C)
      → c.store ≡ none
      → Challenges.held email c ≡ none
      → (x : Error) × ((verify_code challenge_store sha256_hex clock email code c).0 ≡ err x)
  unfolding verify_code Challenging.check_memory
  absent_refused clock email code c h absent = elim (Bool-cases (is_empty (normalize email))) [
    | inl e ↦ (email_empty, ground arith)
    | inr e ↦ elim (Bool-cases (is_empty (trim_space code))) [
      | inl e' ↦ (code_empty, ground arith)
      | inr e' ↦ (challenge_not_found, ground arith)
    ]
  ]

  accepted_store :
      (clock : ℕ → ℕ) (email code : Text) (c : ChallengeManager C)
      → c.store ≡ none
      → (verify_code challenge_store sha256_hex clock email code c).0 ≡ ok tt
      → (verify_code challenge_store sha256_hex clock email code c).1.store ≡ none
  unfolding verify_code Challenging.check_memory
  accepted_store clock email code c h v = elim (Option-cases (Challenges.held email c)) [
    | inl absent ↦ absurd (ground arith)
    | inr (ch, found) ↦ ground arith
  ]

  pub accepted_is_spent :
      (clock clock' : ℕ → ℕ) (email code : Text) (c : ChallengeManager C)
      → c.store ≡ none
      → (verify_code challenge_store sha256_hex clock email code c).0 ≡ ok tt
      → (x : Error) × ((verify_code challenge_store sha256_hex clock' email code
            (verify_code challenge_store sha256_hex clock email code c).1).0
          ≡ err x)
  accepted_is_spent clock clock' email code c h v =
      absent_refused clock' email code _ (accepted_store clock email code c h v)
        (verify_code_consumes challenge_store sha256_hex clock email code c h v)
