-- ===== src/Migrate/Reference.antt =====
-- pkg/migrate/application/engine.go: what Apply does, said of the functions Run of the migrations alone.
use orbit_cli.Prelude.{◌≡◌, true, false, List, [], ◌∷◌, Option, none, some}
use orbit_cli.Prelude.Words.{Text}
use orbit_cli.Prelude.Result.{ok, err}
use orbit_cli.Migrate.{Migration, StateStore, Outcome, Error, migration_failed, marked}
use orbit_cli.Migrate.Records.{successes, is_saved}

-- what comes of a list of migrations: the IDs of those whose Run gave no error, the first that
-- failed with its error, and the workspace
pub record Course (W : Type 0) : Type 0 where
  pub ran : List Text
  pub failure : Option (Text × Text)
  pub workspace : W

abbrev pub ran_first : {W : Type 0} → Text → Course W → Course W
ran_first id c = record c { ran = id ∷ c.ran }

abbrev pub failed_first : {W : Type 0} → Text → Text → W → Course W
failed_first id e ws = record { ran = []; failure = some (id, e); workspace = ws }

-- The migrations that are not marked run in order, each on the workspace that the one before left, up to
-- the first that fails; a nil Run does nothing.
unfoldable pub course : {W : Type 0} → List (Migration W) → List Text → W → Course W
course [] marks ws = record { ran = []; failure = none; workspace = ws }
course (m ∷ migrations) marks ws = elim (marked m.id marks) [
  | true ↦ course migrations marks ws
  | false ↦ elim m.run [
    | none ↦ ran_first m.id (course migrations (m.id ∷ marks) ws)
    | some run ↦ elim (run ws).0 [
      | ok u ↦ ran_first m.id (course migrations (m.id ∷ marks) (run ws).1)
      | err e ↦ failed_first m.id e (run ws).1
    ]
  ]
]

abbrev pub failure_error : Option (Text × Text) → Option Error
failure_error none = none
failure_error (some (id, e)) = some (migration_failed id e)

module _ {W S : Type 0} (methods : StateStore S) where
  -- the outcome is that course, unless a state could not be saved
  abbrev Follows : Course W → Outcome W S → Type 0
  Follows c o =
      is_saved o.error ≡ true
      → (successes o.results ≡ c.ran)
        × (o.error ≡ failure_error c.failure)
        × (o.world.workspace ≡ c.workspace)
