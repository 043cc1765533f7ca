-- ===== src/Sqlite/Challenges.antt =====
-- pkg/onboard/infrastructure/sqlite/challenges.go: the ChallengeStore on the table challenges.
pub mod Laws
mod Tests
use orbit_cli.Owner.ChallengeRecord.{Challenge, ChallengeStore, default_max_attempts}
use orbit_cli.Prelude.{ℕ, ◌==◌, ◌≡◌, Bool, true, false, [], ◌∷◌, Option, none, some, if◌then◌else◌}
use orbit_cli.Prelude.Words.{Text, is_empty, trim_space}
use orbit_cli.Prelude.Result.{Result, ok, err}
use orbit_cli.Owner.Code.{normalize}
use orbit_cli.Owner.Errors.{Error, challenge_not_found, email_empty, rand_failed, store_failed}
use orbit_cli.Sqlite.Grants.{Answer, row, no_rows, failed, id_or_new, used_at_or}

-- a row of challenges
pub record ChallengeRow : Type 0 where
  pub id : Text
  pub email : Text
  pub otp_hash : Text
  pub salt : Text
  pub attempts_count : ℕ
  pub max_attempts : ℕ
  pub verified : Bool
  pub verified_at : Option ℕ
  pub created_at : ℕ
  pub expires_at : ℕ

-- The statements that challenges.go sends to the database, and the source of new IDs.
pub record ChallengeDb (Db : Type 0) : Type 0 where
  -- INSERT … ON CONFLICT(id) DO UPDATE; none where ExecContext fails
  pub upsert : ChallengeRow → Db → Option Db
  -- SELECT … WHERE email = ? AND verified = 0 AND expires_at > ? ORDER BY created_at DESC LIMIT 1
  pub select_latest : Text → ℕ → Db → Answer ChallengeRow
  -- UPDATE … SET attempts_count = attempts_count + 1 WHERE id = ? RETURNING attempts_count
  pub increment : Text → Db → Answer ℕ × Db
  -- UPDATE … SET verified = 1, verified_at = ? WHERE id = ?, with the number of rows affected
  pub update_verified : ℕ → Text → Db → Option (ℕ × Db)
  -- DELETE FROM challenges WHERE verified = 0 AND expires_at <= ?
  pub delete_expired : ℕ → Db → Option Db
  -- sixteen bytes of crypto/rand, printed by hex.EncodeToString
  pub draw_id : Db → Option Text

-- the fields of `c` that SaveChallenge fills in before it writes
unfoldable pub completed : (ℕ → ℕ) → Text → Text → Challenge → Challenge
completed clock email id c = record c {
  id = id;
  email = email;
  created_at = if c.created_at == 0 then clock 0 else c.created_at;
  max_attempts = if c.max_attempts == 0 then default_max_attempts else c.max_attempts;
}

-- the arguments of the INSERT
unfoldable pub row_of : (ℕ → ℕ) → Challenge → ChallengeRow
row_of clock c = record {
  id = c.id;
  email = c.email;
  otp_hash = c.code_hash;
  salt = c.salt;
  attempts_count = c.attempts;
  max_attempts = c.max_attempts;
  verified = c.verified;
  verified_at = used_at_or c.verified c.verified_at (clock 1);
  created_at = c.created_at;
  expires_at = c.expires_at;
}

unfoldable pub scan_challenge : ChallengeRow → Challenge
scan_challenge r = record {
  id = r.id;
  email = r.email;
  code_hash = r.otp_hash;
  salt = r.salt;
  attempts = r.attempts_count;
  max_attempts = r.max_attempts;
  verified = r.verified;
  verified_at = r.verified_at;
  created_at = r.created_at;
  expires_at = r.expires_at;
}

module _ {Db : Type 0} (db : ChallengeDb Db) where
  open db use {upsert, select_latest, increment, update_verified, delete_expired, draw_id}

  write : (ℕ → ℕ) → Challenge → Db → Result Error Challenge × Db
  write clock c d = elim (upsert (row_of clock c) d) [
    | none ↦ (err store_failed, d)
    | some d' ↦ (ok c, d')
  ]

  -- (*ChallengeStore).SaveChallenge
  unfoldable pub save_challenge : (ℕ → ℕ) → Challenge → Db → Result Error Challenge × Db
  unfolding write
  save_challenge clock c d =
      let norm_email = normalize c.email in
      if is_empty norm_email then (err email_empty, d) else elim (id_or_new c.id (draw_id d)) [
        | none ↦ (err rand_failed, d)
        | some id ↦ write clock (completed clock norm_email id c) d
      ]

  found : Answer ChallengeRow → Result Error (Option Challenge)
  found (row r) = ok (some (scan_challenge r))
  found no_rows = err challenge_not_found
  found failed = err store_failed

  -- (*ChallengeStore).GetActiveChallenge
  unfoldable pub get_active_challenge : ℕ → Text → Db → Result Error (Option Challenge) × Db
  unfolding found
  get_active_challenge now email d =
      let norm_email = normalize email in
      if is_empty norm_email
      then (err challenge_not_found, d)
      else (found (select_latest norm_email now d), d)

  new_count : Answer ℕ → Result Error ℕ
  new_count (row n) = ok n
  new_count no_rows = err challenge_not_found
  new_count failed = err store_failed

  -- (*ChallengeStore).IncrementAttempts
  unfoldable pub increment_attempts : Text → Db → Result Error ℕ × Db
  unfolding new_count
  increment_attempts id d =
      let trimmed = trim_space id in
      if is_empty trimmed
      then (err challenge_not_found, d)
      else (let (answer, d') = increment trimmed d in (new_count answer, d'))

  affected : Option (ℕ × Db) → Db → Result Error (Unit {0}) × Db
  affected none d = (err store_failed, d)
  affected (some (n, d')) d = if n == 0 then (err challenge_not_found, d') else (ok tt, d')

  -- (*ChallengeStore).MarkVerified
  unfoldable pub mark_verified : ℕ → Text → Db → Result Error (Unit {0}) × Db
  unfolding affected
  mark_verified now id d =
      let trimmed = trim_space id in
      if is_empty trimmed
      then (err challenge_not_found, d)
      else affected (update_verified now trimmed d) d

  -- (*ChallengeStore).PruneExpired
  unfoldable pub prune_expired : ℕ → Db → Result Error (Unit {0}) × Db
  prune_expired now d = elim (delete_expired now d) [
    | none ↦ (err store_failed, d)
    | some d' ↦ (ok tt, d')
  ]

  -- `*sqlite.ChallengeStore` as the manager sees it
  abbrev pub challenge_store : ChallengeStore Db
  challenge_store = record {
    save_challenge = save_challenge;
    get_active_challenge = get_active_challenge;
    increment_attempts = increment_attempts;
    mark_verified = mark_verified;
    prune_expired = prune_expired;
  }
