-- ===== src/Owner/Grant/Persistent.antt =====
-- What a verification does where the grants are kept behind the interface GrantStore.
use orbit_cli.Owner.GrantRecord.{
  GrantManager, GrantRecord, GrantStore, burned, is_expired, matches, tried,
}
use orbit_cli.Prelude.{ℕ, ◌+◌, ◌<◌, ◌≡◌, false, List, [], ◌∷◌, Option, none, some, arith, All, refl}
use orbit_cli.Prelude.Words.{Text, is_empty, same_iff}
use orbit_cli.Prelude.Result.{Result, ok, err}
use orbit_cli.Owner.Code.{normalize, clean_code, hash_grant_code}
use orbit_cli.Owner.Errors.{Error, invalid_grant_code}
use orbit_cli.Owner.Grant.{verify_grant, check_store, finish_store}
use orbit_cli.Owner.Grant.Lockout.{IsWrong, guess_all}

module _ {S : Type 0} (methods : GrantStore S) (sha256_hex : Text → Text) where
  -- the answers to the verifications of `guess_all`
  pub answers : Text → List ((ℕ → ℕ) × Text) → GrantManager S → List (Result Error GrantRecord)
  answers email [] m = []
  answers email ((clock, code) ∷ guesses) m =
      (verify_grant methods sha256_hex clock email code m).0
      ∷ answers email guesses (verify_grant methods sha256_hex clock email code m).1

  -- the store finds the grant `g` at the time of the verification, which `g` has not passed
  abbrev pub Finds : Text → S → GrantRecord → (ℕ → ℕ) → Type 0
  Finds email s g clock =
      (methods.get_grant (clock 0) (normalize email) [] s ≡ (ok (some g), s))
      × (is_expired (clock 1) g ≡ false)

  wrong_once :
      (clock : ℕ → ℕ) (email code : Text) (m : GrantManager S) (s : S) (g : GrantRecord)
      → m.store ≡ some s
      → is_empty (normalize email) ≡ false
      → g.used ≡ false
      → g.attempts + 1 < g.max_attempts
      → Finds email s g clock
      → IsWrong methods sha256_hex g code
      → verify_grant methods sha256_hex clock email code m ≡ (err invalid_grant_code, m)
  unfolding verify_grant check_store
  wrong_once clock email code m s g h e unused more finds wrong =
      ground (arith, finds.0, finds.1, wrong.0, wrong.1)

  -- Wrong codes are never counted: as long as the store finds the grant with an attempt to spare,
  -- every one of them is answered with ErrInvalidGrantCode and leaves manager and store unchanged.
  pub guess_all_uncounted :
      (email : Text) (guesses : List ((ℕ → ℕ) × Text)) (m : GrantManager S) (s : S)
      (g : GrantRecord)
      → m.store ≡ some s
      → is_empty (normalize email) ≡ false
      → g.used ≡ false
      → g.attempts + 1 < g.max_attempts
      → All (λ guess. Finds email s g guess.0 × IsWrong methods sha256_hex g guess.1) guesses
      → (guess_all methods sha256_hex email guesses m ≡ m)
        × All (λ answer. answer ≡ err invalid_grant_code) (answers email guesses m)
  unfolding guess_all answers
  guess_all_uncounted email [] m s g h e unused more all = (refl, tt)
  guess_all_uncounted email ((clock, code) ∷ guesses) m s g h e unused more all =
      let once = wrong_once clock email code m s g h e unused more all.0.0 all.0.1 in
      let rest = guess_all_uncounted email guesses m s g h e unused more all.1 in
      rw once (rest.0, (refl, rest.1))

  check_store_ok :
      (clock : ℕ → ℕ) (email clean : Text) (found : Result Error (Option GrantRecord)) (s : S)
      (m : GrantManager S) {rec : GrantRecord}
      → (check_store methods sha256_hex clock email clean found s m).0 ≡ ok rec
      → (g : GrantRecord) × (found ≡ ok (some g))
        × (g.used ≡ false)
        × (is_expired (clock 1) g ≡ false)
        × (g.code_hash ≡ hash_grant_code sha256_hex clean g.salt)
        × (rec ≡ burned (clock 3) (tried g))
        × ((methods.mark_used (clock 2) g.id s).0 ≡ ok tt)
        × ((check_store methods sha256_hex clock email clean found s m).1.store
            ≡ some (methods.mark_used (clock 2) g.id s).1)
  unfolding check_store finish_store matches
  check_store_ok clock email clean (err e) s m v = absurd (ground arith)
  check_store_ok clock email clean (ok none) s m v = absurd (ground arith)
  check_store_ok clock email clean (ok (some g)) s m v =
      let same_hash = same_iff g.code_hash (hash_grant_code sha256_hex clean g.salt) in
      (
        g,
        refl,
        ground arith,
        ground arith,
        ground (arith, same_hash),
        ground arith,
        ground arith,
        ground arith,
      )

  verify_stored :
      (clock : ℕ → ℕ) (email code : Text) (m : GrantManager S) (s : S) {rec : GrantRecord}
      → m.store ≡ some s
      → (verify_grant methods sha256_hex clock email code m).0 ≡ ok rec
      → verify_grant methods sha256_hex clock email code m
        ≡ check_store methods sha256_hex clock
            (normalize email)
            (clean_code code)
            (methods.get_grant (clock 0) (normalize email) [] s).0
            (methods.get_grant (clock 0) (normalize email) [] s).1
            m
  unfolding verify_grant
  verify_stored clock email code m s h v = ground arith

  -- A verification that succeeds with a store has found an unused grant that has not expired,
  -- whose hash the code meets, and has had the store mark it.
  pub verify_grant_stored :
      (clock : ℕ → ℕ) (email code : Text) (m : GrantManager S) (s : S) {rec : GrantRecord}
      → m.store ≡ some s
      → (verify_grant methods sha256_hex clock email code m).0 ≡ ok rec
      → let found : Result Error (Option GrantRecord) × S =
          methods.get_grant (clock 0) (normalize email) [] s in
        (g : GrantRecord) × (found.0 ≡ ok (some g))
        × (g.used ≡ false)
        × (is_expired (clock 1) g ≡ false)
        × (g.code_hash ≡ hash_grant_code sha256_hex (clean_code code) g.salt)
        × (rec ≡ burned (clock 3) (tried g))
        × ((methods.mark_used (clock 2) g.id found.1).0 ≡ ok tt)
        × ((verify_grant methods sha256_hex clock email code m).1.store
            ≡ some (methods.mark_used (clock 2) g.id found.1).1)
  verify_grant_stored clock email code m s {rec} h v =
      let same_run = verify_stored clock email code m s h v in
      rw same_run
        (check_store_ok clock (normalize email) (clean_code code) _ _ m (rw same_run at v))
