-- ===== src/Migrate/Tests.antt =====
-- Runs of the engine on a store that keeps the state as it is saved, and a workspace that is a list
-- of texts.
use orbit_cli.Prelude.{◌+◌, length, ℕ, ◌≡◌, List, [], ◌∷◌, Option, none, some, refl}
use orbit_cli.Prelude.Words.{Text, text, same}
use orbit_cli.Prelude.Result.{ok, err}
use orbit_cli.Migrate.{Migration, MigrationState, StateStore, World}
use orbit_cli.Migrate.Reference.{course}
use orbit_cli.Migrate.Status.{status_of, status_of-not_applied}
use orbit_cli.Migrate.Pending.{apply-pending}
use orbit_cli.Prelude.{◌+◌, length, arith}
use orbit_cli.Migrate.{pending}
use orbit_cli.Migrate.{load_state}
use orbit_cli.Migrate.{apply}
use orbit_cli.Migrate.{normalized}
use orbit_cli.Migrate.{ids}
use orbit_cli.Migrate.{apply_loop}
use orbit_cli.Migrate.{run_step}
use orbit_cli.Migrate.{save_state}
use orbit_cli.Migrate.{not_applied}

abbrev kept : StateStore (Option MigrationState)
kept = record { load = λ s. ok s; save = λ st s. ok (some st) }

kept-load-save :
    (st : MigrationState) (s s' : Option MigrationState)
    → kept.save st s ≡ ok s'
    → kept.load s' ≡ ok (some st)
kept-load-save st s s' saved = ground arith

-- a migration that adds its ID to the workspace, and one that fails
abbrev adds : Text → Migration (List Text)
adds id = record { id = id; description = []; run = some (λ ws. (ok tt, id ∷ ws)) }

abbrev fails : Text → Migration (List Text)
fails id = record { id = id; description = []; run = some (λ ws. (err (text "broken"), id ∷ ws)) }

abbrev first : World (List Text) (Option MigrationState)
first = record {
  workspace = [];
  store = some (record {
    version = text "1.0";
    applied = record { id = text "a"; applied_at = 5; description = [] } ∷ [];
  });
}

abbrev first_state : MigrationState
first_state = record {
  version = text "1.0";
  applied = record { id = text "a"; applied_at = 5; description = [] } ∷ [];
}

abbrev at : ℕ → ℕ
at i = i

first_loaded : load_state kept first.store ≡ ok first_state
unfolding load_state normalized
first_loaded = refl

abbrev list : List (Migration (List Text))
list = adds (text "a") ∷ adds (text "b") ∷ fails (text "c") ∷ adds (text "d") ∷ []

course-list : course list (text "a" ∷ []) [] ≡ record {
  ran = text "b" ∷ [];
  failure = some (text "c", text "broken");
  workspace = text "c" ∷ text "b" ∷ [];
}
unfolding course same
course-list = refl

abbrev good : List (Migration (List Text))
good = adds (text "a") ∷ adds (text "b") ∷ []

good_done : (apply kept at good first).error ≡ none
unfolding apply apply_loop run_step save_state load_state normalized same
good_done = refl

apply-pending_example :
    (pending kept good (apply kept at good first).world.store ≡ ok [])
    × (apply kept at good (apply kept at good first).world
        ≡ record { results = []; error = none; world = (apply kept at good first).world })
apply-pending_example =
    apply-pending kept kept-load-save at at good first first_state first_loaded good_done

status_of-not_applied_example :
    ((status_of list first_state).pending
      ≡ length (not_applied kept (ids first_state.applied) list))
    × ((status_of list first_state).applied + (status_of list first_state).pending ≡ length list)
status_of-not_applied_example = status_of-not_applied kept list first_state
