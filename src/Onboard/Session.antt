-- ===== src/Onboard/Session.antt =====
-- pkg/onboard/domain/session.go and claim.go: the checkpoint of a run, its store, and the claim.
use orbit_cli.Prelude.{
  ℕ, ◌≡◌, Bool, not, ◌&&◌, ◌||◌, List, [], ◌∷◌, ◌++◌, Option, some, leb, ◌==◌, keep, if◌then◌else◌,
}
use orbit_cli.Prelude.Words.{Text, text, is_empty, trim_space, to_lower}
use orbit_cli.Prelude.Dict.{Dict}
use orbit_cli.Prelude.Result.{Result, ok, err}
use orbit_cli.Clierr.{GoError}
use orbit_cli.Onboard.Stage.{Stage, init, is_completed}

-- The errors that have no kind of their own, told apart by where they come from.
pub data Failure : Type 0 where
  session_failed ssh_failed claim_failed bundle_failed : Failure

abbrev pub Outcome : Type 0 → Type 0
Outcome A = Result (GoError Failure) A

pub record SessionState : Type 0 where
  pub id : Text
  pub email : Text
  pub display_name : Text
  pub uid : Text
  pub current_stage : Stage
  pub invite_token : Text
  pub ssh_public_key : Text
  pub forgejo_token : Text
  pub wireguard_config : Text
  pub workspace_path : Text
  pub cloned_repos : List Text
  pub metadata : Dict Text
  pub created_at : ℕ
  pub updated_at : ℕ

-- NewSession: `id` is the print of what crypto/rand gives
unfoldable pub new_session : Text → ℕ → Text → Text → SessionState
new_session id now email display_name = record {
  id = id;
  email = email;
  display_name = display_name;
  uid = [];
  current_stage = init;
  invite_token = [];
  ssh_public_key = [];
  forgejo_token = [];
  wireguard_config = [];
  workspace_path = [];
  cloned_repos = [];
  metadata = [];
  created_at = now;
  updated_at = now;
}

-- (*SessionState).Pending, on a session that is not nil
unfoldable pub pending : SessionState → Bool
pending s = not (is_completed s.current_stage)

-- The interface SessionStore. Save stamps the session that it is given, and returns it here; `stamp` is what
-- it makes of that session where it fails.
pub record SessionStore (S : Type 0) : Type 0 where
  pub has_pending : S → Bool
  pub load : S → Outcome (Option SessionState)
  pub save : SessionState → S → Outcome SessionState × S
  pub stamp : SessionState → SessionState
  pub clear : S → Outcome (Unit {0}) × S
  pub create : Text → Text → S → SessionState × S

-- What the flow relies on: a save that succeeds keeps the stage and is what is loaded next, and one
-- that fails leaves what was stored.
pub record SessionLaws {S : Type 0} (sessions : SessionStore S) : Type 0 where
  pub save_loads :
      (s s' : SessionState) (store : S)
      → (sessions.save s store).0 ≡ ok s'
      → (sessions.load (sessions.save s store).1 ≡ ok (some s'))
        × (s'.current_stage ≡ s.current_stage)
  pub save_fails :
      (s : SessionState) (store : S) (e : GoError Failure)
      → (sessions.save s store).0 ≡ err e
      → sessions.load (sessions.save s store).1 ≡ sessions.load store

pub record ClaimRequest : Type 0 where
  pub invite_token : Text
  pub desired_uid : Text
  pub email : Text
  pub display_name : Text
  pub ssh_public_key : Text
  pub machine_fingerprint : Text

-- the fields of ClaimResponse, User and Credentials that the flow reads
pub record ClaimResponse : Type 0 where
  pub uid : Text
  pub email : Text
  pub display_name : Text
  pub forgejo_mcp_token : Text
  pub wireguard_config : Text

abbrev is_uid_byte : ℕ → Bool
is_uid_byte c =
    (leb b'a' c && leb c b'z') || ((leb b'0' c && leb c b'9') || ((c == b'-') || (c == b'_')))

-- SanitizeUID
unfoldable pub sanitize_uid : Text → Text
sanitize_uid raw = keep is_uid_byte (to_lower (trim_space raw))

-- MachineFingerprint
unfoldable pub machine_fingerprint : Text → Text → Text → Text
machine_fingerprint hostname goos goarch =
    (if is_empty hostname then text "unknown-host" else hostname) ++ b'-' ∷ (goos ++ b'-' ∷ goarch)
