-- ===== src/Owner/Service/OwnCode.antt =====
-- What the check of a code in the process amounts to: Verify, and Init with `--no-send`.
use orbit_cli.Prelude.{
  ℕ, ◌+◌, ◌≤◌, ◌≡◌, false, [], Option, none, some, arith, inl, inr, Bool-cases, ◌∷◌, refl, ap, ◌∙◌,
}
use orbit_cli.Prelude.Words.{Text, to_lower, is_empty, trim_space, same_refl}
use orbit_cli.Prelude.Dict.{lookup, put, delete}
use orbit_cli.Prelude.Int.{pos}
use orbit_cli.Owner.Challenge.Memory.{verify_code_iff}
use orbit_cli.Prelude.Result.{ok}
use orbit_cli.Clierr.{Kind, usage}
use orbit_cli.Owner.Code.{normalize}
use orbit_cli.Owner.Code.Laws.{trim_space_idem}
use mathlib.Core.Path.{subst}
use orbit_cli.Owner.ChallengeRecord.{
  Draws, Challenge, ChallengeManager, default_challenge_ttl, is_expired, new_challenge,
  new_challenge_manager,
}
use orbit_cli.Owner.Challenge.{create_challenge_with_code, verify_code, store_challenge}
use orbit_cli.Owner.Service.{Service, World, prompt_email}
use orbit_cli.Owner.Service.Sealing.{
  VerifyInput, given_email, no_store, seal, owner_email, already, local_check, verify,
  verify_sealing,
}

is_empty-to_lower : (s : Text) → is_empty (to_lower s) ≡ is_empty s
unfolding to_lower
is_empty-to_lower [] = refl
is_empty-to_lower (c ∷ s) = refl

module _ {V R : Type 0} (service : Service V R) (sha256_hex : Text → Text) where
  module _ (clock : ℕ → ℕ) (salt id : Text) (number : Option ℕ) (email code : Text) where
    abbrev drawn : Draws
    drawn = record { code_number = number; salt = some salt; challenge_id = some id }

    abbrev challenge : Challenge
    challenge =
        new_challenge sha256_hex (clock 0) id salt (trim_space code) (normalize email)
          (pos default_challenge_ttl)

    abbrev manager : ChallengeManager (Unit {0})
    manager = record { challenges = (normalize email, challenge) ∷ []; store = none }

    create_own :
        is_empty (normalize email) ≡ false
        → is_empty (trim_space code) ≡ false
        → create_challenge_with_code no_store sha256_hex clock drawn email code
            (pos default_challenge_ttl)
            new_challenge_manager
          ≡ (ok challenge, manager)
    unfolding create_challenge_with_code store_challenge new_challenge_manager put delete
        new_challenge
    create_own e c = ground (arith, e, c)

    verify_own :
        is_empty (normalize email) ≡ false
        → is_empty (trim_space code) ≡ false
        → clock 1 ≤ clock 0 + default_challenge_ttl
        → (verify_code no_store sha256_hex (λ i. clock (i + 1)) email code manager).0 ≡ ok tt
    unfolding lookup is_expired new_challenge
    verify_own e c h =
        (verify_code_iff no_store sha256_hex (λ i. clock (i + 1)) email code manager refl e c).1
          (challenge, ground (arith, same_refl (normalize email)), ground arith, refl)

    local_check_accepts :
        (kind : Kind)
        → is_empty (normalize email) ≡ false
        → is_empty (trim_space code) ≡ false
        → clock 1 ≤ clock 0 + default_challenge_ttl
        → local_check service sha256_hex clock drawn kind email code ≡ ok tt
    unfolding local_check
    local_check_accepts kind e c h = rw (create_own e c, verify_own e c h) refl

  given_trimmed :
      (flag : Text)
      → trim_space (given_email service sha256_hex flag) ≡ given_email service sha256_hex flag
  unfolding given_email
  given_trimmed flag = elim (Bool-cases (is_empty (trim_space flag))) [
    | inl e ↦ rw e (trim_space_idem (prompt_email service))
    | inr e ↦ rw e (trim_space_idem flag)
  ]

  pub owner_named :
      (flag email : Text)
      → owner_email service sha256_hex flag ≡ ok email
      → (given_email service sha256_hex flag ≡ email) × (is_empty email ≡ false)
  unfolding owner_email
  owner_named flag email h = ground arith

  owner_normalized :
      (flag email : Text)
      → owner_email service sha256_hex flag ≡ ok email
      → is_empty (normalize email) ≡ false
  unfolding normalize
  owner_normalized flag email h =
      let (e, named) = owner_named flag email h in
      is_empty-to_lower (trim_space email)
      ∙ (ap is_empty (subst (λ t. trim_space t ≡ t) e (given_trimmed flag)) ∙ named)

  -- Verify accepts every code: for an owner's address, a code that is not blank, random numbers and a
  -- clock that does not pass the ten minutes between two lines, Verify on a vault that is not already
  -- verified, or with `--force`, does what sealing does without any check.
  pub verify_accepts_any_code :
      (clock : ℕ → ℕ) (salt id : Text) (number : Option ℕ) (secret : Option Text)
      (input : VerifyInput) (email : Text) (w : World V R)
      → owner_email service sha256_hex input.email ≡ ok email
      → is_empty (trim_space input.code) ≡ false
      → already service sha256_hex input.force w.sealed ≡ none
      → clock 1 ≤ clock 0 + default_challenge_ttl
      → verify service sha256_hex clock
          (record { code_number = number; salt = some salt; challenge_id = some id })
          secret
          input
          w
        ≡ seal service sha256_hex secret email input.display_name w
  unfolding verify verify_sealing
  verify_accepts_any_code clock salt id number secret input email w h c a t = ground (
    arith,
    h,
    a,
    local_check_accepts clock salt id number email (trim_space input.code) usage
        (owner_normalized input.email email h) (ap is_empty (trim_space_idem input.code) ∙ c) t,
  )
