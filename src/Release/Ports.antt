-- ===== src/Release/Ports.antt =====
-- pkg/release/application/ports.go: the repositories, the forge, and the local release tier. What the
-- forge and the local tier change is one state, `M`; an answer to a poll is numbered.
use orbit_cli.Prelude.{ℕ, Bool, List, Option}
use orbit_cli.Prelude.Int.{ℤ}
use orbit_cli.Prelude.Words.{Text}
use orbit_cli.Prelude.Dict.{Dict}
use orbit_cli.Prelude.Result.{Result}
use orbit_cli.Clierr.{GoError}
use orbit_cli.Gate.{Check}

-- the errors that have no kind of their own
pub data Failure : Type 0 where
  forge_failed git_failed local_failed manifest_failed : Failure

abbrev pub Outcome : Type 0 → Type 0
Outcome A = Result (GoError Failure) A

pub record Repo : Type 0 where
  pub name : Text
  pub path : Text
  pub dir : Text
  pub default_branch : Text
  pub scope : Text
  pub slug : Text

pub record PullRequest : Type 0 where
  pub number : ℕ
  pub url : Text
  pub title : Text
  pub head : Text
  pub base : Text

pub record WorkflowRun : Type 0 where
  pub name : Text
  pub display_title : Text

-- merge, squash or rebase
pub data Method : Type 0 where
  merge squash rebase : Method

-- The interface Forge: reading leaves the forge as it is.
pub record Forge (M : Type 0) : Type 0 where
  pub list_open : Text → M → Outcome (List PullRequest)
  pub checks : Text → ℕ → ℕ → Outcome (List Check)
  pub commit_checks : Text → Text → M → Outcome (List Check)
  pub branch_sha : Text → Text → M → Outcome (Option Text)
  pub runs : Text → M → Outcome (List WorkflowRun)
  pub compare_ahead : Text → Text → Text → M → Outcome ℕ
  pub merge_pr : Text → ℕ → Method → M → Outcome (Unit {0}) × M
  pub comment : Text → ℕ → Text → M → Outcome (Unit {0}) × M
  pub create_branch : Text → Text → Text → M → Outcome (Unit {0}) × M
  pub create_pr : Text → Text → Text → M → Outcome PullRequest × M
  pub dispatch : Text → Text → Text → M → Outcome (Unit {0}) × M

-- The interfaces Local and Tester
pub record Local (M : Type 0) : Type 0 where
  pub reachable : Text → M → Outcome (Unit {0})
  pub create_database : Text → Text → M → Outcome (Unit {0}) × M
  pub drop_database : Text → Text → M → Outcome (Unit {0}) × M
  pub local_env : Text → Text → Outcome (Dict Text)
  pub run_tests : Text → Dict Text → M → Outcome (Unit {0}) × M

-- Service, with Git and Workspace. `clean` and `abs` are those of path/filepath, `exists` is false where
-- there are no Files, and `elapsed` is the time since the start at a poll.
pub record Service (M : Type 0) : Type 0 where
  pub repos : Outcome (List Repo)
  pub exists : Text → Bool
  pub rev_parse : Text → Text → Outcome Text
  pub latest_tag : Text → Outcome Text
  pub forge : Forge M
  pub local_tier : Option (Local M)
  pub clean : Text → Text
  pub abs : Text → Option Text
  pub register_window : ℤ
  pub wait_timeout : ℤ
  pub elapsed : ℕ → ℕ
  pub database_name : Text
