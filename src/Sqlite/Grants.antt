-- ===== src/Sqlite/Grants.antt =====
-- pkg/onboard/infrastructure/sqlite/grants.go: the GrantStore on the table admin_grants.
pub mod Laws
mod Tests
use orbit_cli.Owner.GrantRecord.{
  GrantRecord, GrantStore, default_grant_max_attempts, role_or_default,
}
use orbit_cli.Prelude.{
  ℕ, ◌==◌, ◌≡◌, Bool, true, false, List, [], ◌∷◌, Option, none, some, map, if◌then◌else◌,
}
use orbit_cli.Prelude.Words.{Text, is_empty, trim_space}
use orbit_cli.Prelude.Result.{Result, ok, err}
use orbit_cli.Owner.Code.{normalize}
use orbit_cli.Owner.Errors.{Error, grant_not_found, email_empty, rand_failed, store_failed}

-- a row of admin_grants: there is no column for the attempts
pub record GrantRow : Type 0 where
  pub id : Text
  pub email : Text
  pub code_hash : Text
  pub salt : Text
  pub role : Text
  pub created_by : Text
  pub used : Bool
  pub used_at : Option ℕ
  pub created_at : ℕ
  pub expires_at : ℕ

-- what QueryRow and Scan give: a row, sql.ErrNoRows or another error
pub data Answer (A : Type 0) : Type 0 where
  row : A → Answer A
  no_rows failed : Answer A

-- The statements that grants.go sends to the database, and the source of new IDs.
pub record GrantDb (Db : Type 0) : Type 0 where
  -- INSERT … ON CONFLICT(id) DO UPDATE; none where ExecContext fails
  pub upsert : GrantRow → Db → Option Db
  -- SELECT … WHERE email = ? [AND code_hash = ?] AND used = 0 AND expires_at > ? … LIMIT 1
  pub select_one : Text → Option Text → ℕ → Db → Answer GrantRow
  -- UPDATE admin_grants SET used = 1, used_at = ? WHERE id = ?, with the number of rows affected
  pub update_used : ℕ → Text → Db → Option (ℕ × Db)
  -- SELECT … WHERE used = 0 AND expires_at > ? ORDER BY created_at DESC
  pub select_active : ℕ → Db → Option (List GrantRow)
  -- sixteen bytes of crypto/rand, printed by hex.EncodeToString
  pub draw_id : Db → Option Text

-- g.ID, or a new one where it is empty
abbrev pub id_or_new : Text → Option Text → Option Text
id_or_new [] drawn = drawn
id_or_new (c ∷ id) drawn = some (c ∷ id)

-- `UsedAt`, or the time of the call where the grant is used and has none
abbrev pub used_at_or : Bool → Option ℕ → ℕ → Option ℕ
used_at_or false at now = none
used_at_or true none now = some now
used_at_or true (some at) now = some at

-- the fields of `g` that SaveGrant fills in before it writes
unfoldable pub completed : (ℕ → ℕ) → Text → Text → GrantRecord → GrantRecord
completed clock email id g = record g {
  id = id;
  email = email;
  issued_at = if g.issued_at == 0 then clock 0 else g.issued_at;
  role = role_or_default g.role;
}

-- the arguments of the INSERT
unfoldable pub row_of : (ℕ → ℕ) → GrantRecord → GrantRow
row_of clock g = record {
  id = g.id;
  email = g.email;
  code_hash = g.code_hash;
  salt = g.salt;
  role = g.role;
  created_by = g.created_by;
  used = g.used;
  used_at = used_at_or g.used g.used_at (clock 1);
  created_at = g.issued_at;
  expires_at = g.expires_at;
}

-- scanGrant: the attempts are those of a new Go value, 0
unfoldable pub scan_grant : GrantRow → GrantRecord
scan_grant r = record {
  id = r.id;
  email = r.email;
  code_hash = r.code_hash;
  salt = r.salt;
  role = r.role;
  issued_at = r.created_at;
  expires_at = r.expires_at;
  created_by = r.created_by;
  attempts = 0;
  max_attempts = default_grant_max_attempts;
  used = r.used;
  used_at = r.used_at;
}

module _ {Db : Type 0} (db : GrantDb Db) where
  open db use {upsert, select_one, update_used, select_active, draw_id}

  write : (ℕ → ℕ) → GrantRecord → Db → Result Error GrantRecord × Db
  write clock g d = elim (upsert (row_of clock g) d) [
    | none ↦ (err store_failed, d)
    | some d' ↦ (ok g, d')
  ]

  -- (*GrantStore).SaveGrant
  unfoldable pub save_grant : (ℕ → ℕ) → GrantRecord → Db → Result Error GrantRecord × Db
  unfolding write
  save_grant clock g d =
      let norm_email = normalize g.email in
      if is_empty norm_email then (err email_empty, d) else elim (id_or_new g.id (draw_id d)) [
        | none ↦ (err rand_failed, d)
        | some id ↦ write clock (completed clock norm_email id g) d
      ]

  found : Answer GrantRow → Result Error (Option GrantRecord)
  found (row r) = ok (some (scan_grant r))
  found no_rows = err grant_not_found
  found failed = err store_failed

  -- the optional condition on code_hash
  pub hash_condition : Text → Option Text
  hash_condition [] = none
  hash_condition (c ∷ hash) = some (c ∷ hash)

  -- (*GrantStore).GetGrant
  unfoldable pub get_grant : ℕ → Text → Text → Db → Result Error (Option GrantRecord) × Db
  unfolding found hash_condition
  get_grant now email code_hash d =
      let norm_email = normalize email in
      if is_empty norm_email
      then (err grant_not_found, d)
      else (found (select_one norm_email (hash_condition code_hash) now d), d)

  -- res.RowsAffected(), then the test that a row was there
  affected : Option (ℕ × Db) → Db → Result Error (Unit {0}) × Db
  affected none d = (err store_failed, d)
  affected (some (n, d')) d = if n == 0 then (err grant_not_found, d') else (ok tt, d')

  -- (*GrantStore).MarkUsed
  unfoldable pub mark_used : ℕ → Text → Db → Result Error (Unit {0}) × Db
  unfolding affected
  mark_used now id d =
      let trimmed = trim_space id in
      if is_empty trimmed then (err grant_not_found, d) else affected (update_used now trimmed d) d

  -- (*GrantStore).ListActiveGrants
  unfoldable pub list_active_grants : ℕ → Db → Result Error (List GrantRecord) × Db
  list_active_grants now d = elim (select_active now d) [
    | none ↦ (err store_failed, d)
    | some rows ↦ (ok (map scan_grant rows), d)
  ]

  -- `*sqlite.GrantStore` as the manager sees it
  abbrev pub grant_store : GrantStore Db
  grant_store = record {
    save_grant = save_grant;
    get_grant = get_grant;
    mark_used = mark_used;
    list_active_grants = list_active_grants;
  }
