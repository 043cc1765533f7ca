-- ===== src/Invites/Ports.antt =====
-- pkg/invite/application/service.go: the ports of the invitation service, and what its use cases take and give.
use orbit_cli.Prelude.{ℕ, Bool, false, List, [], Option, none, if◌then◌else◌}
use orbit_cli.Prelude.Int.{ℤ}
use orbit_cli.Prelude.Words.{Text, text, is_empty, trim_space}
use orbit_cli.Prelude.Dict.{Dict}
use orbit_cli.Prelude.Result.{Result}
use orbit_cli.Invites.{
  InviteRecord, Error, Files, load_records, save_invite, get_invite, revoke_invite,
  revoke_all_invites,
}
use orbit_cli.Invites.Token.{TokenError, InviteRequest, InviteClaims}

-- what lies under an error of the service
pub data Cause : Type 0 where
  by_token : TokenError → Cause
  by_store : Error → Cause
  no_totp : Cause

-- the interface Store
pub record Store (F : Type 0) : Type 0 where
  pub save_invite : InviteRecord → F → Result Error F
  pub list_invites : F → Result Error (List InviteRecord)
  pub get_invite : Text → F → Result Error InviteRecord
  pub revoke_invite : Text → ℕ → F → Result Error (InviteRecord × F)
  pub revoke_all_invites : ℕ → F → Result Error (List InviteRecord × F)

-- the store in a file
unfoldable pub file_store : {F B : Type 0} → Files F B → Store F
file_store files = record {
  save_invite = save_invite files;
  list_invites = load_records files;
  get_invite = get_invite files;
  revoke_invite = revoke_invite files;
  revoke_all_invites = revoke_all_invites files;
}

-- EmailData, but for its printed texts
pub record EmailData : Type 0 where
  pub recipient_name : Text
  pub recipient_email : Text
  pub token : Text
  pub scope : Text
  pub expires_at : ℕ

pub record IssueInput : Type 0 where
  pub email : Text
  pub display_name : Text
  pub scope : Text
  pub ttl : ℤ
  pub created_by : Text
  pub secret : Text
  pub metadata : Dict Text

pub record IssueResult : Type 0 where
  pub rec : InviteRecord
  pub claims : InviteClaims

-- CreateInput; the mailer answers its error
pub record CreateInput (M : Type 0) : Type 0 where
  pub email : Text
  pub display_name : Text
  pub scope : Text
  pub expires : Text
  pub secret_flag : Text
  pub secret_env : Text
  pub insecure : Bool
  pub alias : Bool
  pub totp : Bool
  pub send : Bool
  pub mailer : Option (Text → EmailData → M → Option Text × M)

-- CreateResult, with the record that it repeats
pub record CreateResult : Type 0 where
  pub rec : InviteRecord
  pub totp_secret : Text
  pub totp_uri : Text
  pub fallback_secret : Bool
  pub mail_dispatched : Bool
  pub mail_error : Text

-- OwnerVault.Owner()
pub record Owner : Type 0 where
  pub email : Text
  pub secret : Text
  pub verified : Bool

abbrev pub no_owner : Owner
no_owner = record { email = []; secret = []; verified = false }

unfoldable pub new_record : Text → InviteClaims → InviteRecord
new_record token claims = record {
  id = claims.id;
  email = claims.email;
  display_name = claims.display_name;
  scope = claims.scope;
  token = token;
  revoked = false;
  revoked_at = none;
  issued_at = claims.issued_at;
  expires_at = claims.expires_at;
  created_by = claims.created_by;
  metadata = claims.metadata;
}

-- the request of Issue
unfoldable pub request_of : IssueInput → InviteRequest
request_of i = record {
  email = i.email;
  display_name = trim_space i.display_name;
  scope = if is_empty (trim_space i.scope) then text "core" else trim_space i.scope;
  ttl = i.ttl;
  created_by = i.created_by;
  metadata = i.metadata;
}
