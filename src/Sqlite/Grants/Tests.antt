-- ===== src/Sqlite/Grants/Tests.antt =====
-- A table of grants as a list of rows, newest first, and runs of the manager on it.
use orbit_cli.Owner.GrantRecord.{GrantManager, burned, is_expired, matches, tried}
use orbit_cli.Prelude.{
  ℕ, suc, ◌+◌, ◌≡◌, ◌≢◌, Bool, true, false, List, [], ◌∷◌, Option, none, some, arith, refl, not,
  All, if◌then◌else◌, ◌&&◌, ltb, keep,
}
use mathlib.Core.Path.{subst}
use orbit_cli.Prelude.{sym}
use orbit_cli.Prelude.Words.{
  Text, text, is_empty, same, same_iff, trim_space, to_lower, remove_byte,
}
use orbit_cli.Prelude.Result.{ok, err}
use orbit_cli.Owner.Code.{normalize, clean_code, hash_grant_code}
use orbit_cli.Owner.Errors.{invalid_grant_code}
use orbit_cli.Owner.Grant.{verify_grant, check_store}
use orbit_cli.Owner.Grant.Lockout.{IsWrong, guess_all}
use orbit_cli.Owner.Grant.Persistent.{answers}
use orbit_cli.Sqlite.Grants.{
  GrantRow, GrantDb, Answer, row, no_rows, scan_grant, get_grant, mark_used, grant_store,
}
use orbit_cli.Sqlite.Grants.Laws.{Selects, MarksRows, sqlite_never_locks, sqlite_redeems_once}

abbrev sha : Text → Text
sha t = t

abbrev Table : Type 0
Table = List GrantRow

abbrev hash_fits : Option Text → Text → Bool
hash_fits none stored = true
hash_fits (some hash) stored = same stored hash

select_row : Text → Option Text → ℕ → Table → Answer GrantRow
select_row email hash now [] = no_rows
select_row email hash now (r ∷ rows) =
    if not r.used && (ltb now r.expires_at && (same r.email email && hash_fits hash r.code_hash))
    then row r
    else select_row email hash now rows

abbrev marked : ℕ → GrantRow → GrantRow
marked now r = record r { used = true; used_at = some now }

mark_rows : ℕ → Text → Table → Table
mark_rows now id [] = []
mark_rows now id (r ∷ rows) = (if same r.id id then marked now r else r) ∷ mark_rows now id rows

count_rows : Text → Table → ℕ
count_rows id [] = 0
count_rows id (r ∷ rows) = if same r.id id then suc (count_rows id rows) else count_rows id rows

abbrev table : GrantDb Table
table = record {
  upsert = λ r rows. some (r ∷ keep (λ old. not (same old.id r.id)) rows);
  select_one = select_row;
  update_used = λ now id rows. some (count_rows id rows, mark_rows now id rows);
  select_active = λ now rows. some (keep (λ r. not r.used && ltb now r.expires_at) rows);
  draw_id = λ rows. some (text "a1");
}

select-mark_rows :
    (now : ℕ) (id : Text) (rows : Table) (email : Text) (hash : Option Text) (later : ℕ)
    (r : GrantRow)
    → select_row email hash later (mark_rows now id rows) ≡ row r
    → r.id ≢ id
unfolding select_row mark_rows
select-mark_rows now id [] email hash later r h e = cc
select-mark_rows now id (q ∷ rows) email hash later r h e = ground (
  arith,
  same_iff q.id id,
  λ (k : select_row email hash later (mark_rows now id rows) ≡ row r).
      select-mark_rows now id rows email hash later r k e,
)

table_marks : MarksRows table sha
table_marks = record {
  not_selected = λ now n id d d' updated some_row email hash later r selected.
      let same_rows : mark_rows now id d ≡ d' = ground arith in
      select-mark_rows now id d email hash later r
        (subst (λ rows. select_row email hash later rows ≡ row r) (sym same_rows) selected);
}

abbrev root : Text
root = text "root@manova.dev"

abbrev grant : GrantRow
grant = record {
  id = text "a1";
  email = root;
  code_hash = text "s1:12345678";
  salt = text "s1";
  role = text "admin";
  created_by = text "owner";
  used = false;
  used_at = none;
  created_at = 1000;
  expires_at = 2000;
}

abbrev one_row : Table
one_row = grant ∷ []

abbrev daemon : GrantManager Table
daemon = record { grants = []; store = some one_row }

abbrev at : ℕ → ℕ → ℕ
at now i = now + i

abbrev guess : (ℕ → ℕ) × Text
guess = (at 1500, text "0000-0000")

named : is_empty (normalize root) ≡ false
unfolding normalize trim_space to_lower
named = refl

selects : Selects table sha root one_row grant (at 1500)
unfolding normalize trim_space to_lower select_row same scan_grant is_expired
selects = (refl, refl)

is_wrong : IsWrong (grant_store table) sha (scan_grant grant) (text "0000-0000")
unfolding matches hash_grant_code clean_code remove_byte trim_space same scan_grant
is_wrong = (refl, refl)

-- Five wrong codes, where the default limit is three.
sqlite_never_locks_example :
    (guess_all (grant_store table) sha root (guess ∷ guess ∷ guess ∷ guess ∷ guess ∷ []) daemon
      ≡ daemon)
    × All
        (λ answer. answer ≡ err invalid_grant_code)
        (answers (grant_store table) sha root (guess ∷ guess ∷ guess ∷ guess ∷ guess ∷ []) daemon)
sqlite_never_locks_example =
    sqlite_never_locks table sha root (guess ∷ guess ∷ guess ∷ guess ∷ guess ∷ []) daemon one_row
      grant refl named refl
      (
        (selects, is_wrong),
        (
          (selects, is_wrong),
          ((selects, is_wrong), ((selects, is_wrong), ((selects, is_wrong), tt))),
        ),
      )

abbrev developer : GrantRow
developer = record grant {
  id = text "a2";
  email = text "dev@manova.dev";
  code_hash = text "s1:87654321";
}

abbrev two_rows : GrantManager Table
two_rows = record { grants = []; store = some (grant ∷ developer ∷ []) }

first_run :
    (verify_grant (grant_store table) sha (at 1500) root (text "1234-5678") two_rows).0
    ≡ ok (burned 1503 (tried (scan_grant grant)))
unfolding verify_grant check_store matches is_expired hash_grant_code normalize clean_code
    trim_space to_lower remove_byte same get_grant mark_used select_row mark_rows count_rows
    scan_grant
first_run = refl

second_run :
    (verify_grant
      (grant_store table)
      sha
      (at 1600)
      (text "dev@manova.dev")
      (text "8765-4321")
      (verify_grant (grant_store table) sha (at 1500) root (text "1234-5678") two_rows).1).0
    ≡ ok (burned 1603 (tried (scan_grant developer)))
unfolding verify_grant check_store matches is_expired hash_grant_code normalize clean_code
    trim_space to_lower remove_byte same get_grant mark_used select_row mark_rows count_rows
    scan_grant
second_run = refl

sqlite_redeems_once_example :
    (burned 1603 (tried (scan_grant developer))).id
    ≢ trim_space (burned 1503 (tried (scan_grant grant))).id
sqlite_redeems_once_example =
    sqlite_redeems_once table sha table_marks (at 1500) (at 1600) root (text "dev@manova.dev")
      (text "1234-5678") (text "8765-4321") two_rows (grant ∷ developer ∷ []) refl first_run
      second_run
