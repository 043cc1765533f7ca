-- ===== src/Owner/Challenge.antt =====
-- pkg/owner/domain/challenge.go: the record of an OTP challenge, the store behind the manager and
-- the manager itself. Times and the clock are those of the module Owner.Grant.
pub mod Memory
pub mod Persistent
mod Tests
use orbit_cli.Owner.ChallengeRecord.{
  Challenge, ChallengeManager, ChallengeStore, Draws, forget, is_expired, matches, new_challenge,
  tried,
}
use orbit_cli.Prelude.Int.{ℤ, pos_or}
use orbit_cli.Prelude.{
  ℕ, ◌+◌, ◌*◌, ◌≡◌, Bool, true, false, [], Option, none, some, ltb, leb, ◌==◌, if◌then◌else◌,
}
use orbit_cli.Prelude.Words.{Text, same, is_empty, trim_space}
use orbit_cli.Prelude.Dict.{Dict, lookup, delete, put}
use orbit_cli.Prelude.Result.{Result, ok, err}
use orbit_cli.Owner.Code.{normalize, generate_otp, hash_code}
use orbit_cli.Owner.Errors.{
  Error, challenge_not_found, challenge_expired, max_attempts_exceeded, invalid_code, email_empty,
  code_empty, rand_failed,
}

module _ {S : Type 0} (methods : ChallengeStore S) (sha256_hex : Text → Text) where
  open methods use {
    save_challenge, get_active_challenge, increment_attempts, mark_verified, prune_expired,
  }

  -- m.challenges[normEmail] = ch, unless saving failed
  register :
      Text
      → Result Error Challenge
      → ChallengeManager S
      → Result Error Challenge × ChallengeManager S
  register email (err e) m = (err e, m)
  register email (ok c) m = (ok c, record m { challenges = put email c m.challenges })

  -- the end of CreateChallenge and of CreateChallengeWithCode, under the lock
  unfoldable pub store_challenge :
      (ℕ → ℕ) → Challenge → ChallengeManager S → Result Error Challenge × ChallengeManager S
  unfolding register
  store_challenge clock c m = elim m.store [
    | none ↦ register c.email (ok c) m
    | some s ↦
        let (saved, s') = save_challenge clock c s in
        register c.email saved (record m { store = some s' })
  ]

  with_code :
      Text
      → Result Error Challenge × ChallengeManager S
      → Result Error (Challenge × Text) × ChallengeManager S
  with_code code (err e, m) = (err e, m)
  with_code code (ok c, m) = (ok (c, code), m)

  create_drawn :
      (ℕ → ℕ)
      → Option Text
      → Option Text
      → Option Text
      → Text
      → ℤ
      → ChallengeManager S
      → Result Error (Challenge × Text) × ChallengeManager S
  unfolding store_challenge with_code new_challenge
  create_drawn clock (some code) (some salt) (some id) email ttl m = with_code code (
      store_challenge (λ i. clock (i + 1))
        (new_challenge sha256_hex (clock 0) id salt code email ttl) m)
  create_drawn clock _ _ _ email ttl m = (err rand_failed, m)

  -- (*ChallengeManager).CreateChallenge
  unfoldable pub create_challenge :
      (ℕ → ℕ)
      → Draws
      → Text
      → ℤ
      → ChallengeManager S
      → Result Error (Challenge × Text) × ChallengeManager S
  unfolding create_drawn
  create_challenge clock draws email ttl m =
      let norm_email = normalize email in
      if is_empty norm_email
      then (err email_empty, m)
      else create_drawn clock (generate_otp draws.code_number) draws.salt draws.challenge_id
          norm_email ttl m

  create_given :
      (ℕ → ℕ)
      → Option Text
      → Option Text
      → Text
      → Text
      → ℤ
      → ChallengeManager S
      → Result Error Challenge × ChallengeManager S
  unfolding store_challenge new_challenge
  create_given clock (some salt) (some id) code email ttl m =
      store_challenge (λ i. clock (i + 1))
        (new_challenge sha256_hex (clock 0) id salt code email ttl) m
  create_given clock _ _ code email ttl m = (err rand_failed, m)

  -- (*ChallengeManager).CreateChallengeWithCode
  unfoldable pub create_challenge_with_code :
      (ℕ → ℕ)
      → Draws
      → Text
      → Text
      → ℤ
      → ChallengeManager S
      → Result Error Challenge × ChallengeManager S
  unfolding create_given
  create_challenge_with_code clock draws email code ttl m =
      let norm_email = normalize email in
      let clean = trim_space code in
      if is_empty norm_email
      then (err email_empty, m)
      else if is_empty clean
      then (err code_empty, m)
      else create_given clock draws.salt draws.challenge_id clean norm_email ttl m

  -- VerifyCode on the challenge that is found in memory
  unfoldable pub check_memory :
      (ℕ → ℕ)
      → Text
      → Text
      → Option Challenge
      → ChallengeManager S
      → Result Error (Unit {0}) × ChallengeManager S
  check_memory clock email code none m = (err challenge_not_found, m)
  check_memory clock email code (some c) m =
      if is_expired (clock 0) c
      then (err challenge_expired, forget email m)
      else if matches sha256_hex code c
      then (ok tt, forget email m)
      else if leb c.max_attempts (c.attempts + 1)
      then (err max_attempts_exceeded, forget email m)
      else (err invalid_code, record m { challenges = put email (tried c) m.challenges })

  finish_store :
      Text
      → Result Error (Unit {0}) × S
      → ChallengeManager S
      → Result Error (Unit {0}) × ChallengeManager S
  finish_store email (err e, s) m = (err e, record m { store = some s })
  finish_store email (ok u, s) m = (ok tt, forget email (record m { store = some s }))

  -- VerifyCode after the store has counted the attempt
  pub counted :
      (ℕ → ℕ)
      → Text
      → Text
      → Challenge
      → Result Error ℕ × S
      → ChallengeManager S
      → Result Error (Unit {0}) × ChallengeManager S
  unfolding finish_store
  counted clock email code c (err e, s) m = (err e, record m { store = some s })
  counted clock email code c (ok new_attempts, s) m =
      if matches sha256_hex code c
      then finish_store email (mark_verified (clock 2) c.id s) m
      else if leb c.max_attempts new_attempts
      then (err max_attempts_exceeded, record m { store = some s })
      else (err invalid_code, record m { store = some s })

  -- VerifyCode on what the store has returned
  unfoldable pub check_store :
      (ℕ → ℕ)
      → Text
      → Text
      → Result Error (Option Challenge)
      → S
      → ChallengeManager S
      → Result Error (Unit {0}) × ChallengeManager S
  unfolding counted
  check_store clock email code (err e) s m = (err e, record m { store = some s })
  check_store clock email code (ok none) s m =
      (err challenge_not_found, record m { store = some s })
  check_store clock email code (ok (some c)) s m =
      if is_expired (clock 1) c
      then (err challenge_expired, record m { store = some (prune_expired (clock 2) s).1 })
      else if leb c.max_attempts c.attempts
      then (err max_attempts_exceeded, record m { store = some s })
      else counted clock email code c (increment_attempts c.id s) m

  -- (*ChallengeManager).VerifyCode: `true, nil` is `ok tt`, and `false, err` is `err`
  unfoldable pub verify_code :
      (ℕ → ℕ) → Text → Text → ChallengeManager S → Result Error (Unit {0}) × ChallengeManager S
  verify_code clock email code m =
      let norm_email = normalize email in
      let clean = trim_space code in
      if is_empty norm_email
      then (err email_empty, m)
      else if is_empty clean
      then (err code_empty, m)
      else elim m.store [
        | none ↦ check_memory clock norm_email clean (lookup norm_email m.challenges) m
        | some s ↦
            let (found, s') = get_active_challenge (clock 0) norm_email s in
            check_store clock norm_email clean found s' m
      ]

  found_or_none : Result Error (Option Challenge) → Option Challenge
  found_or_none (err e) = none
  found_or_none (ok found) = found

  -- (*ChallengeManager).GetChallenge
  unfoldable pub get_challenge :
      (ℕ → ℕ) → Text → ChallengeManager S → Option Challenge × ChallengeManager S
  unfolding found_or_none
  get_challenge clock email m = elim m.store [
    | none ↦ (lookup (normalize email) m.challenges, m)
    | some s ↦
        let (found, s') = get_active_challenge (clock 0) (normalize email) s in
        (found_or_none found, record m { store = some s' })
  ]

  -- (*ChallengeManager).Clear
  unfoldable pub clear : (ℕ → ℕ) → ChallengeManager S → ChallengeManager S
  clear clock m = elim m.store [
    | none ↦ record m { challenges = [] }
    | some s ↦ record { challenges = []; store = some (prune_expired (clock 0) s).1 }
  ]
