-- ===== src/Owner/Grant/Lockout.antt =====
-- Wrong codes against a grant that is held in memory.
use orbit_cli.Owner.GrantRecord.{GrantManager, GrantRecord, GrantStore, is_expired, matches, tried}
use orbit_cli.Prelude.{◌<◌, sym}
use mathlib.Core.Path.{subst}
use orbit_cli.Prelude.{
  ℕ, ◌+◌, ◌≤◌, ◌≡◌, false, List, [], ◌∷◌, none, some, arith, length, leb, ◌⊎◌, inl, inr, Bool-cases,
}
use orbit_cli.Prelude.Words.{Text, same_refl, is_empty}
use orbit_cli.Prelude.Dict.{lookup-delete, lookup-put}
use orbit_cli.Owner.Code.{normalize, clean_code}
use orbit_cli.Owner.Grant.{verify_grant, check_memory}
use orbit_cli.Prelude.{All}
use orbit_cli.Owner.Grant.Memory.{held}

module _ {S : Type 0} (methods : GrantStore S) (sha256_hex : Text → Text) where
  -- A wrong code for a grant: it is not empty, and its salted hash is not the stored one.
  abbrev pub IsWrong : GrantRecord → Text → Type 0
  IsWrong g code =
      (is_empty (clean_code code) ≡ false) × (matches sha256_hex (clean_code code) g ≡ false)

  -- the verifications that one client makes, each with its own clock
  unfoldable pub guess_all : Text → List ((ℕ → ℕ) × Text) → GrantManager S → GrantManager S
  guess_all email [] m = m
  guess_all email ((clock, code) ∷ guesses) m =
      guess_all email guesses (verify_grant methods sha256_hex clock email code m).1

  wrong_once :
      (clock : ℕ → ℕ) (email code : Text) (m : GrantManager S) (g : GrantRecord)
      → m.store ≡ none
      → is_empty (normalize email) ≡ false
      → held email m ≡ some g
      → g.used ≡ false
      → IsWrong g code
      → let m' : GrantManager S = (verify_grant methods sha256_hex clock email code m).1 in
        (m'.store ≡ none)
        × ((held email m' ≡ none)
            ⊎ ((held email m' ≡ some (tried g)) × (g.attempts + 1 < g.max_attempts)))
  unfolding verify_grant check_memory
  wrong_once clock email code m g h e found unused (c, w) = (
    ground arith,
    elim (Bool-cases (is_expired (clock 0) g)) [
      | inl late ↦ inl (
          ground (
            arith,
            same_refl (normalize email),
            lookup-delete (normalize email) (normalize email) m.grants,
          ))
      | inr open_ ↦ elim (Bool-cases (leb g.max_attempts (g.attempts + 1))) [
        | inl last ↦ inl (
            ground (
              arith,
              same_refl (normalize email),
              lookup-delete (normalize email) (normalize email) m.grants,
            ))
        | inr more ↦ inr (
          ground (
            arith,
            same_refl (normalize email),
            lookup-put (normalize email) (normalize email) (tried g) m.grants,
          ),
          ground arith,
        )
      ]
    ],
  )

  -- With no grant held for its email, a verification leaves the manager as it is.
  verify_absent :
      (clock : ℕ → ℕ) (email code : Text) (m : GrantManager S)
      → m.store ≡ none
      → held email m ≡ none
      → (verify_grant methods sha256_hex clock email code m).1 ≡ m
  unfolding verify_grant check_memory
  verify_absent clock email code m h absent = ground arith

  absent_stays :
      (email : Text) (guesses : List ((ℕ → ℕ) × Text)) (m : GrantManager S)
      → m.store ≡ none
      → held email m ≡ none
      → held email (guess_all email guesses m) ≡ none
  unfolding guess_all
  absent_stays email [] m h absent = absent
  absent_stays email ((clock, code) ∷ guesses) m h absent =
      subst (λ m'. held email (guess_all email guesses m') ≡ none)
        (sym (verify_absent clock email code m h absent)) (absent_stays email guesses m h absent)

  -- Wrong codes, which are not empty, purge a grant that is held in memory for an email that is not
  -- empty, is unused and has attempts left: whenever they come, no grant is held for the email when
  -- as many have come as attempts were left.
  pub guess_all-purges :
      (email : Text) (guesses : List ((ℕ → ℕ) × Text)) (m : GrantManager S) (g : GrantRecord)
      → m.store ≡ none
      → is_empty (normalize email) ≡ false
      → held email m ≡ some g
      → g.used ≡ false
      → All (λ guess. IsWrong g guess.1) guesses
      → g.attempts < g.max_attempts
      → g.max_attempts ≤ g.attempts + length guesses
      → held email (guess_all email guesses m) ≡ none
  unfolding guess_all matches
  guess_all-purges email [] m g h e found unused wrong left enough = absurd (omega arith)
  guess_all-purges email ((clock, code) ∷ guesses) m g h e found unused wrong left enough =
      let (h', next) = wrong_once clock email code m g h e found unused wrong.0 in
      elim next [
        | inl gone ↦ absent_stays email guesses _ h' gone
        | inr (again, more) ↦
            guess_all-purges email guesses _ (tried g) h' e again unused wrong.1 more (omega arith)
      ]
