-- ===== src/Owner/Challenge/Persistent.antt =====
-- What VerifyCode does where the challenges are kept behind the interface ChallengeStore.
use orbit_cli.Owner.ChallengeRecord.{
  Challenge, ChallengeManager, ChallengeStore, is_expired, matches, tried,
}
use orbit_cli.Prelude.{
  ℕ, ◌+◌, ◌≤◌, ◌<◌, ◌≡◌, false, List, [], ◌∷◌, some, refl, arith, length, leb, All, inl, inr,
  Bool-cases,
}
use mathlib.Core.Path.{subst}
use orbit_cli.Prelude.{sym, leb→le}
use orbit_cli.Prelude.Words.{Text, is_empty, trim_space}
use orbit_cli.Prelude.Result.{Result, ok, err}
use orbit_cli.Owner.Code.{normalize}
use orbit_cli.Owner.Errors.{Error, max_attempts_exceeded}
use orbit_cli.Owner.Challenge.{verify_code, check_store, counted}
use orbit_cli.Owner.Challenge.Memory.{IsWrong, guess_all}
use orbit_cli.Prelude.{ap}

module _ {S : Type 0} (methods : ChallengeStore S) (sha256_hex : Text → Text) where
  -- A store that counts: while it holds a challenge for the email it finds it until it expires,
  -- and IncrementAttempts returns the next count and leaves the challenge with that count.
  pub record Counts (email : Text) (Holds : S → Challenge → Type 0) : Type 0 where
    pub finds :
        (s : S) (c : Challenge) (now : ℕ)
        → Holds s c
        → now < c.expires_at
        → methods.get_active_challenge now (normalize email) s ≡ (ok (some c), s)
    pub next : S → Challenge → S
    pub increments :
        (s : S) (c : Challenge)
        → Holds s c
        → methods.increment_attempts c.id s ≡ (ok (c.attempts + 1), next s c)
    pub holds : (s : S) (c : Challenge) → Holds s c → Holds (next s c) (tried c)

  module _ (email : Text) {Holds : S → Challenge → Type 0} (counts : Counts email Holds) where
    -- both readings of the clock come before the challenge expires
    abbrev pub InTime : Challenge → (ℕ → ℕ) → Type 0
    InTime c clock = (clock 0 < c.expires_at) × (clock 1 < c.expires_at)

    full_once :
        (clock : ℕ → ℕ) (code : Text) (m : ChallengeManager S) (s : S) (c : Challenge)
        → m.store ≡ some s
        → is_empty (normalize email) ≡ false
        → is_empty (trim_space code) ≡ false
        → Holds s c
        → InTime c clock
        → c.max_attempts ≤ c.attempts
        → verify_code methods sha256_hex clock email code m ≡ (err max_attempts_exceeded, m)
    unfolding verify_code check_store is_expired
    full_once clock code m s c h e t held early full =
        ground (arith, counts.finds s c (clock 0) held early.0)

    wrong_once :
        (clock : ℕ → ℕ) (code : Text) (m : ChallengeManager S) (s : S) (c : Challenge)
        → m.store ≡ some s
        → is_empty (normalize email) ≡ false
        → IsWrong methods sha256_hex c code
        → Holds s c
        → InTime c clock
        → c.attempts < c.max_attempts
        → (verify_code methods sha256_hex clock email code m).1
          ≡ record m { store = some (counts.next s c) }
    unfolding verify_code check_store is_expired counted
    wrong_once clock code m s c h e wrong held early left =
        ground (arith, counts.finds s c (clock 0) held early.0, counts.increments s c held)

    abbrev Locked : List ((ℕ → ℕ) × Text) → (ℕ → ℕ) → Text → ChallengeManager S → Type 0
    Locked guesses clock code m =
        (verify_code methods sha256_hex clock email code
          (guess_all methods sha256_hex email guesses m)).0
        ≡ err max_attempts_exceeded

    -- With a store that counts, wrong codes lock the challenge as soon as they have used up the
    -- attempts that were left: every later code, the right one too, is answered with
    -- ErrMaxAttemptsExceeded.
    pub stored_challenge_locks :
        (guesses : List ((ℕ → ℕ) × Text)) (clock : ℕ → ℕ) (code : Text) (m : ChallengeManager S)
        (s : S) (c : Challenge)
        → m.store ≡ some s
        → is_empty (normalize email) ≡ false
        → is_empty (trim_space code) ≡ false
        → Holds s c
        → All (λ guess. InTime c guess.0 × IsWrong methods sha256_hex c guess.1) guesses
        → InTime c clock
        → c.max_attempts ≤ c.attempts + length guesses
        → (verify_code methods sha256_hex clock email code
            (guess_all methods sha256_hex email guesses m)).0
          ≡ err max_attempts_exceeded
    unfolding guess_all matches
    stored_challenge_locks [] clock code m s c h e t held wrong early full =
        ap (λ (p : Result Error Unit × ChallengeManager S). p.0)
          (full_once clock code m s c h e t held early (omega arith))
    stored_challenge_locks ((clock', code') ∷ guesses) clock code m s c h e t held wrong early
          full =
        elim (Bool-cases (leb c.max_attempts c.attempts)) [
          | inl done ↦
              subst (λ m'. Locked guesses clock code m')
                (ap (λ (p : Result Error Unit × ChallengeManager S). p.1)
                  (sym (
                    full_once clock' code' m s c h e wrong.0.1.0 held wrong.0.0
                      (omega (arith, leb→le)))))
                (stored_challenge_locks guesses clock code m s c h e t held wrong.1 early
                  (omega (arith, leb→le)))
          | inr more ↦
              subst (λ m'. Locked guesses clock code m')
                (sym (wrong_once clock' code' m s c h e wrong.0.1 held wrong.0.0 (ground arith)))
                (stored_challenge_locks guesses clock code _ (counts.next s c) (tried c) refl e t
                  (counts.holds s c held) wrong.1 early (omega arith))
        ]
