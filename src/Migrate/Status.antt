-- ===== src/Migrate/Status.antt =====
-- pkg/migrate/application/engine.go: RunPending and Status over the built-in migrations.
use orbit_cli.Prelude.{
  refl, ◌↔◌, ℕ, suc, ◌+◌, ◌≡◌, Bool, true, false, List, [], ◌∷◌, Option, none, some, if◌then◌else◌,
  arith, length,
}
use orbit_cli.Prelude.Words.{Text, same}
use orbit_cli.Prelude.Result.{Result, ok, err}
use orbit_cli.Migrate.{
  AppliedMigrationRecord, Migration, MigrationResult, MigrationState, Outcome, StateStore, World,
}
use orbit_cli.Migrate.{not_applied}
use orbit_cli.Migrate.{marked}
use orbit_cli.Migrate.{load_state}
use orbit_cli.Migrate.{apply}
use orbit_cli.Migrate.{ids}
use orbit_cli.Prelude.{◌↔◌}
use orbit_cli.Migrate.{get_builtin_migrations}

pub record StatusEntry : Type 0 where
  pub id : Text
  pub description : Text
  pub applied : Bool
  pub applied_at : Option ℕ

-- StatusResult, less the paths
pub record StatusResult : Type 0 where
  pub applied : ℕ
  pub pending : ℕ
  pub entries : List StatusEntry

-- the count of RunPending
abbrev pub count_successes : List MigrationResult → ℕ
count_successes [] = 0
count_successes (res ∷ results) =
    let rest = count_successes results in if res.success then suc rest else rest

-- appliedAt[id]: the time of the last record with the ID
unfoldable pub applied_time : Text → List AppliedMigrationRecord → Option ℕ
applied_time id [] = none
applied_time id (a ∷ applied) = elim (applied_time id applied) [
  | some later ↦ some later
  | none ↦ if same a.id id then some a.applied_at else none
]

-- one round of the loop of Status, before the entries of the others
abbrev pub add_entry : {W : Type 0} → Migration W → Option ℕ → StatusResult → StatusResult
add_entry m (some at) r = record {
  applied = suc r.applied;
  pending = r.pending;
  entries =
      record { id = m.id; description = m.description; applied = true; applied_at = some at }
      ∷ r.entries;
}
add_entry m none r = record {
  applied = r.applied;
  pending = suc r.pending;
  entries =
      record { id = m.id; description = m.description; applied = false; applied_at = none }
      ∷ r.entries;
}

applied_time-marked :
    (id : Text) (applied : List AppliedMigrationRecord)
    → (marked id (ids applied) ≡ false) ↔ (applied_time id applied ≡ none)
unfolding applied_time
applied_time-marked id [] = (λ h. refl, λ h. refl)
applied_time-marked id (a ∷ applied) = ground (arith, applied_time-marked id applied)

module _ {W : Type 0} where
  unfoldable pub status_of : List (Migration W) → MigrationState → StatusResult
  unfolding applied_time
  status_of [] st = record { applied = 0; pending = 0; entries = [] }
  status_of (m ∷ migrations) st =
      let rest = status_of migrations st in add_entry m (applied_time m.id st.applied) rest

  -- (*Engine).RunPending: the outcome of Apply, and the count
  unfoldable pub run_pending : {S : Type 0} → StateStore S → (ℕ → ℕ) → World W S → Outcome W S × ℕ
  run_pending methods clock w =
      let o = apply methods clock get_builtin_migrations w in (o, count_successes o.results)

  -- Where Status counts over a list of migrations, it counts as pending as many as Pending would
  -- answer, and the pending and the applied together are all.
  pub status_of-not_applied :
      {S : Type 0} (methods : StateStore S) (migrations : List (Migration W)) (st : MigrationState)
      → ((status_of migrations st).pending
          ≡ length (not_applied methods (ids st.applied) migrations))
        × ((status_of migrations st).applied + (status_of migrations st).pending
            ≡ length migrations)
  unfolding status_of not_applied
  status_of-not_applied methods [] st = (refl, refl)
  status_of-not_applied methods (m ∷ migrations) st =
      ground
        (arith, status_of-not_applied methods migrations st, applied_time-marked m.id st.applied)

-- (*Engine).Status; no built-in migration changes the workspace, so that its type is any
unfoldable pub status : {S : Type 0} → StateStore S → S → Result Text StatusResult
unfolding status_of
status methods s = elim (load_state methods s) [
  | err e ↦ err e
  | ok st ↦ ok (status_of {W = Unit {0}} get_builtin_migrations st)
]
