-- ===== src/Migrate.antt =====
-- pkg/migrate/application/engine.go and pkg/migrate/domain/domain.go: the workspace migrations.
-- The state file is behind the interface StateStore, a parameter; the workspace that a migration
-- changes is of any type.
pub mod Records
pub mod Reference
pub mod Pending
pub mod Status
mod Tests
use orbit_cli.Prelude.{
  ℕ, suc, ◌+◌, ◌≡◌, Bool, true, false, List, [], ◌∷◌, ◌++◌, Option, none, some, any, if◌then◌else◌,
}
use orbit_cli.Prelude.Words.{Text, text, same, is_empty}
use orbit_cli.Prelude.Result.{Result, ok, err}

abbrev pub default_state_version : Text
default_state_version = text "1.0"

-- `run` is none for a nil function; it may change the workspace also where it fails
pub record Migration (W : Type 0) : Type 0 where
  pub id : Text
  pub description : Text
  pub run : Option (W → Result Text (Unit {0}) × W)

pub record AppliedMigrationRecord : Type 0 where
  pub id : Text
  pub applied_at : ℕ
  pub description : Text

pub record MigrationState : Type 0 where
  pub version : Text
  pub applied : List AppliedMigrationRecord

-- (*MigrationState).IsApplied, for a state that is not nil
unfoldable pub is_applied : MigrationState → Text → Bool
is_applied st id = any (λ a. same a.id id) st.applied

-- MigrationResult, less the field Skipped, which nothing sets
pub record MigrationResult : Type 0 where
  pub id : Text
  pub description : Text
  pub success : Bool
  pub error : Text

-- The interface StateStore at the path of the engine; `load` answers none for a nil state.
pub record StateStore (S : Type 0) : Type 0 where
  pub load : S → Result Text (Option MigrationState)
  pub save : MigrationState → S → Result Text S

pub data Error : Type 0 where
  load_failed : Text → Error
  migration_failed : Text → Text → Error
  persist_failed : Text → Text → Error

pub record World (W S : Type 0) : Type 0 where
  pub workspace : W
  pub store : S

-- what Apply returns, and the world that it leaves
pub record Outcome (W S : Type 0) : Type 0 where
  pub results : List MigrationResult
  pub error : Option Error
  pub world : World W S

-- the defaults of LoadState and SaveState
unfoldable pub normalized : MigrationState → MigrationState
normalized st = if is_empty st.version then record st { version = default_state_version } else st

abbrev pub stored_or_new : Option MigrationState → MigrationState
stored_or_new none = record { version = []; applied = [] }
stored_or_new (some st) = st

-- record.ID of each record
abbrev pub ids : List AppliedMigrationRecord → List Text
ids [] = []
ids (a ∷ applied) = a.id ∷ ids applied

-- applied[id], where `applied` holds the keys that are set
abbrev pub marked : Text → List Text → Bool
marked id applied = any (λ a. same a id) applied

module _ {S : Type 0} (methods : StateStore S) where
  open methods use {load, save}

  -- (*Engine).LoadState
  unfoldable pub load_state : S → Result Text MigrationState
  unfolding normalized
  load_state s = elim (load s) [ err e ↦ err e | ok st ↦ ok (normalized (stored_or_new st)) ]

  -- (*Engine).SaveState, for a state that is not nil
  unfoldable pub save_state : MigrationState → S → Result Text S
  unfolding normalized
  save_state st s = save (normalized st) s

module _ {W : Type 0} where
  -- m.Run(e.WorkspaceRoot), which a nil function passes over
  abbrev pub run_migration : Migration W → W → Result Text (Unit {0}) × W
  run_migration m ws = elim m.run [ none ↦ (ok tt, ws) | some run ↦ run ws ]

  abbrev pub succeeded : Migration W → MigrationResult
  succeeded m = record { id = m.id; description = m.description; success = true; error = [] }

  abbrev pub failed : Migration W → Text → MigrationResult
  failed m e = record { id = m.id; description = m.description; success = false; error = e }

  -- state.Applied with the record of `m`
  abbrev pub with_record : ℕ → Migration W → MigrationState → MigrationState
  with_record now m st = record st {
    applied =
        st.applied ++ record { id = m.id; applied_at = now; description = m.description } ∷ [];
  }

  abbrev pub after_result : {S : Type 0} → MigrationResult → Outcome W S → Outcome W S
  after_result r o = record o { results = r ∷ o.results }

module _ {W S : Type 0} (methods : StateStore S) where
  pub not_applied : List Text → List (Migration W) → List (Migration W)
  not_applied applied [] = []
  not_applied applied (m ∷ migrations) =
      let rest = not_applied applied migrations in if marked m.id applied then rest else m ∷ rest

  -- (*Engine).Pending
  unfoldable pub pending : List (Migration W) → S → Result Text (List (Migration W))
  unfolding not_applied
  pending migrations s = elim (load_state methods s) [
    | err e ↦ err e
    | ok st ↦ ok (not_applied (ids st.applied) migrations)
  ]

  -- one migration of the loop of Apply: what it returns where it stops, else the world after
  unfoldable pub run_step :
      ℕ → Migration W → MigrationState → World W S → Result (Outcome W S) (World W S)
  run_step now m st w =
      let (ran, ws) = run_migration m w.workspace in
      elim ran [
        | err e ↦ err (record {
          results = failed m e ∷ [];
          error = some (migration_failed m.id e);
          world = record w { workspace = ws };
        })
        | ok u ↦ elim (save_state methods (with_record now m st) w.store) [
          | err e ↦ err (record {
            results = succeeded m ∷ [];
            error = some (persist_failed m.id e);
            world = record w { workspace = ws };
          })
          | ok s ↦ ok (record { workspace = ws; store = s })
        ]
      ]

  -- the loop of Apply; `clock i` is the i-th reading of the clock
  unfoldable pub apply_loop :
      (ℕ → ℕ) → ℕ → List (Migration W) → List Text → MigrationState → World W S → Outcome W S
  unfolding run_step
  apply_loop clock i [] applied st w = record { results = []; error = none; world = w }
  apply_loop clock i (m ∷ migrations) applied st w = elim (marked m.id applied) [
    | true ↦ apply_loop clock i migrations applied st w
    | false ↦ elim (run_step (clock i) m st w) [
      | err o ↦ o
      | ok w' ↦
          after_result (succeeded m)
            (apply_loop clock (suc i) migrations (m.id ∷ applied) (with_record (clock i) m st) w')
    ]
  ]

  -- (*Engine).Apply
  unfoldable pub apply : (ℕ → ℕ) → List (Migration W) → World W S → Outcome W S
  unfolding apply_loop
  apply clock migrations w = elim (load_state methods w.store) [
    | err e ↦ record { results = []; error = some (load_failed e); world = w }
    | ok st ↦ apply_loop clock 0 migrations (ids st.applied) st w
  ]

-- GetBuiltinMigrations
abbrev pub get_builtin_migrations : {W : Type 0} → List (Migration W)
get_builtin_migrations = []
