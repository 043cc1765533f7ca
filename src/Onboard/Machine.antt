-- ===== src/Onboard/Machine.antt =====
-- pkg/onboard/application/ports.go: what the flow asks of the machine, the edge server and the
-- developer, all of it on one state `M`; and the results of the doctor's checks.
use orbit_cli.Prelude.{ℕ, Bool, true, false, List, Option, any}
use orbit_cli.Prelude.Words.{Text}
use orbit_cli.Onboard.Session.{Outcome, SessionState, SessionStore, ClaimRequest, ClaimResponse}

-- CheckStatus of pkg/doctor/domain/types.go
pub data CheckStatus : Type 0 where
  ok_status warning_status error_status unverified_status : CheckStatus

pub record DiagnosticResult : Type 0 where
  pub category : Text
  pub name : Text
  pub status : CheckStatus
  pub message : Text
  pub fix_suggestion : Text
  pub is_healable : Bool

abbrev is_error : DiagnosticResult → Bool
is_error r = elim r.status [
  | ok_status ↦ false
  | warning_status ↦ false
  | error_status ↦ true
  | unverified_status ↦ false
]

-- (*DoctorReport).HasErrors, on the results
unfoldable pub has_errors : List DiagnosticResult → Bool
has_errors results = any is_error results

-- CloneResult of pkg/workspace/domain, as far as it is read
pub record CloneResult : Type 0 where
  pub path : Text
  pub success : Bool

-- The ports Provisioner, Diagnostics, SSH, Environment, Layout, Repos, Stack, Bundle and Prompts. A
-- result that the flow ignores or only prints is left out; `clone_core` gives the results that it
-- reports and the paths, or none where it fails.
pub record Ports (M : Type 0) : Type 0 where
  pub claim : Text → Text → ClaimRequest → M → Outcome ClaimResponse × M
  pub rollback : Text → Text → M → M
  pub run_diagnostics : M → List DiagnosticResult × M
  pub healable_count : List DiagnosticResult → ℕ
  pub heal : List DiagnosticResult → M → M
  pub ensure_key : Text → Text → M → Outcome Text × M
  pub home_dir : Text
  pub hostname : Text
  pub goos : Text
  pub goarch : Text
  pub getenv : Text → Text
  pub trust_dev_ca : M → M
  pub ensure_workspace_dirs : Text → M → M
  pub write_wireguard : Text → M → M
  pub configure_mcp_env : Text → Text → Text → M → M
  pub configure_shell : Text → M → M
  pub exists : Text → M → Bool
  pub is_dir : Text → M → Bool
  pub remove : Text → M → M
  pub workspace_root : Text → Text
  pub manifest_path : Text → Text → Text
  pub infra_dir : Text → Text
  pub clone_core : Text → Text → M → (List CloneResult × Option (List Text)) × M
  pub pull_assets : Text → List Text → M → M
  pub stack_start : Option (Text → M → M)
  pub write_bundle : Text → Option SessionState → Text → M → Outcome Text × M
  pub yes_no : Text → Bool → M → Bool × M
  pub ask : Text → M → Text × M

-- Service: `sha256_hex` is the hash behind the idempotency key.
pub record Service (S M : Type 0) : Type 0 where
  pub sessions : SessionStore S
  pub ports : Ports M
  pub sha256_hex : Text → Text
  pub tty : Bool
  pub stdin_is_os : Bool

pub record World (S M : Type 0) : Type 0 where
  pub store : S
  pub machine : M

-- a step of the flow, on the session and the world
abbrev pub Action : Type 0 → Type 0 → Type 0
Action S M = SessionState → World S M → Outcome SessionState × World S M
