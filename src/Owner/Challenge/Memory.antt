-- ===== src/Owner/Challenge/Memory.antt =====
-- What the manager without a store does with a challenge.
use orbit_cli.Owner.ChallengeRecord.{
  Challenge, ChallengeManager, ChallengeStore, is_expired, matches, tried,
}
use orbit_cli.Prelude.{
  ℕ, ◌+◌, ◌≤◌, ◌<◌, ◌≡◌, false, List, [], ◌∷◌, Option, none, some, arith, length, leb, All, inl,
  inr, Bool-cases, Option-cases, sym, ◌⊎◌, ◌↔◌,
}
use mathlib.Core.Path.{subst}
use orbit_cli.Prelude.Words.{Text, same_iff, same_refl, is_empty, trim_space}
use orbit_cli.Prelude.Dict.{lookup, lookup-delete, lookup-put}
use orbit_cli.Prelude.Result.{ok}
use orbit_cli.Owner.Code.{normalize, hash_code}
use orbit_cli.Owner.Challenge.{verify_code, check_memory}

abbrev pub held : {S : Type 0} → Text → ChallengeManager S → Option Challenge
held email m = lookup (normalize email) m.challenges

module _ {S : Type 0} (methods : ChallengeStore S) (sha256_hex : Text → Text) where
  verify_memory :
      (clock : ℕ → ℕ) (email code : Text) (m : ChallengeManager S)
      → m.store ≡ none
      → is_empty (normalize email) ≡ false
      → is_empty (trim_space code) ≡ false
      → verify_code methods sha256_hex clock email code m
        ≡ check_memory methods sha256_hex clock (normalize email) (trim_space code) (held email m) m
  unfolding verify_code
  verify_memory clock email code m h e c = ground arith

  -- In memory, for an email and a code that are not empty, the code is accepted exactly where a
  -- challenge is held for the email that has not expired and whose hash is the salted hash of the
  -- trimmed code.
  pub verify_code_iff :
      (clock : ℕ → ℕ) (email code : Text) (m : ChallengeManager S)
      → m.store ≡ none
      → is_empty (normalize email) ≡ false
      → is_empty (trim_space code) ≡ false
      → ((verify_code methods sha256_hex clock email code m).0 ≡ ok tt) ↔ (
          (c : Challenge) × (held email m ≡ some c)
          × (is_expired (clock 0) c ≡ false)
          × (c.code_hash ≡ hash_code sha256_hex (trim_space code) c.salt))
  unfolding verify_code check_memory matches
  verify_code_iff clock email code m h e c = (
    λ v. elim (Option-cases (held email m)) [
      | inl absent ↦ absurd (ground arith)
      | inr (ch, found) ↦ (
        ch,
        found,
        ground arith,
        ground (arith, same_iff ch.code_hash (hash_code sha256_hex (trim_space code) ch.salt)),
      )
    ],
    λ w. ground (
      arith,
      w.1,
      w.2,
      w.3,
      same_iff w.0.code_hash (hash_code sha256_hex (trim_space code) w.0.salt),
    ),
  )

  pub verify_code_consumes :
      (clock : ℕ → ℕ) (email code : Text) (m : ChallengeManager S)
      → m.store ≡ none
      → (verify_code methods sha256_hex clock email code m).0 ≡ ok tt
      → held email (verify_code methods sha256_hex clock email code m).1 ≡ none
  unfolding verify_code check_memory
  verify_code_consumes clock email code m h v = elim (Option-cases (held email m)) [
    | inl absent ↦ absurd (ground arith)
    | inr (ch, found) ↦ ground (
      arith,
      same_refl (normalize email),
      lookup-delete (normalize email) (normalize email) m.challenges,
    )
  ]

  -- a code that is not empty and whose salted hash is not the stored one
  abbrev pub IsWrong : Challenge → Text → Type 0
  IsWrong c code =
      (is_empty (trim_space code) ≡ false) × (matches sha256_hex (trim_space code) c ≡ false)

  unfoldable pub guess_all : Text → List ((ℕ → ℕ) × Text) → ChallengeManager S → ChallengeManager S
  guess_all email [] m = m
  guess_all email ((clock, code) ∷ guesses) m =
      guess_all email guesses (verify_code methods sha256_hex clock email code m).1

  wrong_once :
      (clock : ℕ → ℕ) (email code : Text) (m : ChallengeManager S) (c : Challenge)
      → m.store ≡ none
      → is_empty (normalize email) ≡ false
      → held email m ≡ some c
      → IsWrong c code
      → let m' : ChallengeManager S = (verify_code methods sha256_hex clock email code m).1 in
        (m'.store ≡ none)
        × ((held email m' ≡ none)
            ⊎ ((held email m' ≡ some (tried c)) × (c.attempts + 1 < c.max_attempts)))
  unfolding verify_code check_memory
  wrong_once clock email code m c h e found (t, w) = (
    ground arith,
    elim (Bool-cases (is_expired (clock 0) c)) [
      | inl late ↦ inl (
          ground (
            arith,
            same_refl (normalize email),
            lookup-delete (normalize email) (normalize email) m.challenges,
          ))
      | inr fresh ↦ elim (Bool-cases (leb c.max_attempts (c.attempts + 1))) [
        | inl last ↦ inl (
            ground (
              arith,
              same_refl (normalize email),
              lookup-delete (normalize email) (normalize email) m.challenges,
            ))
        | inr more ↦ inr (
          ground (
            arith,
            same_refl (normalize email),
            lookup-put (normalize email) (normalize email) (tried c) m.challenges,
          ),
          ground arith,
        )
      ]
    ],
  )

  verify_absent :
      (clock : ℕ → ℕ) (email code : Text) (m : ChallengeManager S)
      → m.store ≡ none
      → held email m ≡ none
      → (verify_code methods sha256_hex clock email code m).1 ≡ m
  unfolding verify_code check_memory
  verify_absent clock email code m h absent = ground arith

  absent_stays :
      (email : Text) (guesses : List ((ℕ → ℕ) × Text)) (m : ChallengeManager S)
      → m.store ≡ none
      → held email m ≡ none
      → held email (guess_all email guesses m) ≡ none
  unfolding guess_all
  absent_stays email [] m h absent = absent
  absent_stays email ((clock, code) ∷ guesses) m h absent =
      subst (λ m'. held email (guess_all email guesses m') ≡ none)
        (sym (verify_absent clock email code m h absent)) (absent_stays email guesses m h absent)

  -- Wrong codes, which are not empty, end a challenge that is held in memory for an email that is not
  -- empty and has attempts left, at the latest when as many have come as attempts were left.
  pub challenge_purges :
      (email : Text) (guesses : List ((ℕ → ℕ) × Text)) (m : ChallengeManager S) (c : Challenge)
      → m.store ≡ none
      → is_empty (normalize email) ≡ false
      → held email m ≡ some c
      → All (λ guess. IsWrong c guess.1) guesses
      → c.attempts < c.max_attempts
      → c.max_attempts ≤ c.attempts + length guesses
      → held email (guess_all email guesses m) ≡ none
  unfolding guess_all matches
  challenge_purges email [] m c h e found wrong left enough = absurd (omega arith)
  challenge_purges email ((clock, code) ∷ guesses) m c h e found wrong left enough =
      let (h', next) = wrong_once clock email code m c h e found wrong.0 in
      elim next [
        | inl gone ↦ absent_stays email guesses _ h' gone
        | inr (again, more) ↦
            challenge_purges email guesses _ (tried c) h' e again wrong.1 more (omega arith)
      ]
