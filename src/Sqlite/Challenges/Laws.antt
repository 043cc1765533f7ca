-- ===== src/Sqlite/Challenges/Laws.antt =====
-- The challenge manager on the SQLite store: what the table must do for the attempts to count.
use orbit_cli.Owner.ChallengeRecord.{Challenge, ChallengeManager, tried}
use orbit_cli.Prelude.{ℕ, ◌+◌, ◌≤◌, ◌<◌, ◌≡◌, false, List, some, arith, length, All}
use mathlib.Core.Path.{subst}
use orbit_cli.Prelude.{sym}
use orbit_cli.Prelude.Words.{Text, is_empty, trim_space}
use orbit_cli.Prelude.Result.{ok, err}
use orbit_cli.Owner.Code.{normalize}
use orbit_cli.Owner.Code.Laws.{normalize_idem}
use orbit_cli.Owner.Errors.{max_attempts_exceeded}
use orbit_cli.Owner.Challenge.{verify_code}
use orbit_cli.Owner.Challenge.Memory.{IsWrong, guess_all}
use orbit_cli.Owner.Challenge.Persistent.{Counts, stored_challenge_locks}
use orbit_cli.Sqlite.Grants.{row}
use orbit_cli.Sqlite.Challenges.{
  ChallengeRow, ChallengeDb, scan_challenge, get_active_challenge, increment_attempts,
  challenge_store,
}

module _ {Db : Type 0} (db : ChallengeDb Db) where
  -- the query for the email answers with `r` until `r` expires
  abbrev pub Selects : Text → Db → ChallengeRow → Type 0
  Selects email d r =
      (0 < r.expires_at) × ((now : ℕ) → now < r.expires_at → db.select_latest email now d ≡ row r)

  abbrev pub one_more : ChallengeRow → ChallengeRow
  one_more r = record r { attempts_count = r.attempts_count + 1 }

  -- What the code relies on in UPDATE … RETURNING: the row that the query answers with is counted.
  pub record CountsRows : Type 0 where
    pub increment_lem :
        (email : Text) (d : Db) (r : ChallengeRow)
        → Selects email d r
        → ((db.increment r.id d).0 ≡ row (r.attempts_count + 1))
          × Selects email (db.increment r.id d).1 (one_more r)

  -- the challenge is a row that the query answers with, and its ID is a trimmed text
  abbrev pub HoldsRow : Text → Db → Challenge → Type 0
  HoldsRow email d c =
      (r : ChallengeRow) × (c ≡ scan_challenge r)
      × (trim_space r.id ≡ r.id)
      × (is_empty r.id ≡ false)
      × Selects (normalize email) d r

  module _ (sha256_hex : Text → Text) (email : Text) (rows : CountsRows) where
    finds_row :
        (d : Db) (c : Challenge) (now : ℕ)
        → is_empty (normalize email) ≡ false
        → HoldsRow email d c
        → now < c.expires_at
        → get_active_challenge db now (normalize email) d ≡ (ok (some c), d)
    unfolding get_active_challenge scan_challenge
    finds_row d c now named (r, made, trimmed, some_id, selects) early =
        let in_time : now < r.expires_at = ground (arith, made) in
        ground (arith, made, normalize_idem email, selects.1 now in_time)

    increments_row :
        (d : Db) (c : Challenge)
        → HoldsRow email d c
        → increment_attempts db c.id d ≡ (ok (c.attempts + 1), (increment_attempts db c.id d).1)
    unfolding increment_attempts scan_challenge
    increments_row d c (r, made, trimmed, some_id, selects) =
        ground (arith, made, trimmed, some_id, (rows.increment_lem (normalize email) d r selects).0)

    holds_row :
        (d : Db) (c : Challenge)
        → HoldsRow email d c
        → HoldsRow email (increment_attempts db c.id d).1 (tried c)
    unfolding increment_attempts scan_challenge
    holds_row d c (r, made, trimmed, some_id, selects) =
        let same_db : (increment_attempts db c.id d).1 ≡ (db.increment r.id d).1 =
          ground (arith, made, trimmed, some_id) in
        (
          one_more r,
          ground (arith, made),
          trimmed,
          some_id,
          subst (λ d'. Selects (normalize email) d' (one_more r)) (sym same_db)
              (rows.increment_lem (normalize email) d r selects).1,
        )

    counts :
        is_empty (normalize email) ≡ false
        → Counts (challenge_store db) sha256_hex email (HoldsRow email)
    counts named = record {
      finds = λ d c now held early. finds_row d c now named held early;
      next = λ d c. (increment_attempts db c.id d).1;
      increments = increments_row;
      holds = holds_row;
    }

    -- On the SQLite store wrong codes, which are not empty, lock a challenge that is held for an email
    -- that is not empty when they have used up its attempts: as long as it has not expired, every
    -- later code that is not empty, the right one too, is answered with ErrMaxAttemptsExceeded.
    pub sqlite_challenge_locks :
        (guesses : List ((ℕ → ℕ) × Text)) (clock : ℕ → ℕ) (code : Text) (m : ChallengeManager Db)
        (d : Db) (c : Challenge)
        → m.store ≡ some d
        → is_empty (normalize email) ≡ false
        → is_empty (trim_space code) ≡ false
        → HoldsRow email d c
        → All
            (λ guess.
              ((guess.0 0 < c.expires_at) × (guess.0 1 < c.expires_at))
              × IsWrong (challenge_store db) sha256_hex c guess.1)
            guesses
        → (clock 0 < c.expires_at) × (clock 1 < c.expires_at)
        → c.max_attempts ≤ c.attempts + length guesses
        → (verify_code
            (challenge_store db)
            sha256_hex
            clock
            email
            code
            (guess_all (challenge_store db) sha256_hex email guesses m)).0
          ≡ err max_attempts_exceeded
    sqlite_challenge_locks guesses clock code m d c h named t held wrong early full =
        stored_challenge_locks (challenge_store db) sha256_hex email (counts named) guesses clock
          code m d c h named t held wrong early full
