-- ===== src/Owner/Service/Secret.antt =====
-- pkg/owner/application/service.go: RotateSecret, ResetTOTP and Status, which need the vault only.
use orbit_cli.Prelude.{
  ℕ, Bool, true, false, not, ◌&&◌, ◌||◌, [], ◌∷◌, ◌++◌, Option, none, some, if◌then◌else◌,
}
use orbit_cli.Prelude.Words.{Text, text, has_byte, is_empty}
use orbit_cli.Prelude.Result.{Result, ok, err}
use orbit_cli.Clierr.{usage, auth, failed, GoError, plain, fail, wrap}
use orbit_cli.Owner.Code.{normalize, generate_8_digit_code}
use orbit_cli.Owner.Errors.{Error, rand_failed}
use orbit_cli.Owner.Vault.{
  OwnerRecord, generate_master_secret, compute_fingerprint, verified_record,
}
use orbit_cli.Owner.Service.{Service, World, confirm_rotate, env}
use orbit_cli.Prelude.Result.{and_then}
use orbit_cli.Owner.Service.Sealing.{save}

pub record RotateResult : Type 0 where
  pub cancelled : Bool
  pub email : Text
  pub old_fingerprint : Text
  pub key_fingerprint : Text
  pub vault_location : Text

-- the status is always "totp_reset" and the lifetime "15m"
pub record ResetTotpResult : Type 0 where
  pub email : Text
  pub recovery_code : Text

-- What the vault's permissions are: the text of the report.
pub data Permissions : Type 0 where
  not_found secure : Permissions
  insecure : GoError Error → Permissions

pub record StatusResult : Type 0 where
  pub verified : Bool
  pub email : Text
  pub display_name : Text
  pub verified_at : ℕ
  pub key_fingerprint : Text
  pub vault_location : Text
  pub vault_permissions : Permissions
  pub permissions_valid : Bool
  pub mail_host : Text

module _ {V R : Type 0} (service : Service V R) where
  open service use {vault, now}

  module _ (sha256_hex : Text → Text) where
    unfoldable pub rotated : OwnerRecord → Text → OwnerRecord
    rotated rec secret = record rec {
      root_signing_secret = secret;
      key_fingerprint = compute_fingerprint sha256_hex secret;
      verified_at = now;
    }

    -- RotateSecret once it is confirmed
    unfoldable pub replace :
        Option Text → OwnerRecord → World V R → Result (GoError Error) RotateResult × World V R
    unfolding rotated
    replace drawn rec w = elim (generate_master_secret drawn) [
      | none ↦ (err (wrap failed (plain rand_failed)), w)
      | some secret ↦
          let rec' = rotated rec secret in
          and_then (save service sha256_hex rec' w) (λ u w'. (
            ok (record {
              cancelled = false;
              email = rec'.email;
              old_fingerprint = rec.key_fingerprint;
              key_fingerprint = rec'.key_fingerprint;
              vault_location = vault.file_path w'.sealed;
            }),
            w',
          ))
    ]

    -- (*Service).RotateSecret
    unfoldable pub rotate_secret :
        Bool → Option Text → World V R → Result (GoError Error) RotateResult × World V R
    unfolding replace
    rotate_secret yes_flag drawn w = elim (verified_record (vault.load w.sealed)) [
      | none ↦ (err (fail auth), w)
      | some rec ↦
          if not yes_flag && not (confirm_rotate service rec.email)
          then (
            ok (record {
              cancelled = true;
              email = rec.email;
              old_fingerprint = [];
              key_fingerprint = [];
              vault_location = vault.file_path w.sealed;
            }),
            w,
          )
          else replace drawn rec w
    ]

  -- (*Service).ResetTOTP: `drawn` is the number behind the code
  unfoldable pub reset_totp : Text → Option ℕ → World V R → Result (GoError Error) ResetTotpResult
  reset_totp flag drawn w =
      let email = normalize flag in
      if is_empty email || not (has_byte b'@' email)
      then err (fail usage)
      else elim (verified_record (vault.load w.sealed)) [
        | none ↦ err (fail auth)
        | some rec ↦ elim (generate_8_digit_code drawn) [
          | none ↦ err (wrap failed (plain rand_failed))
          | some code ↦ ok (record { email = email; recovery_code = code })
        ]
      ]

  -- `if port != "" && !strings.Contains(host, ":") { host = host + ":" + port }`, or else
  unfoldable pub with_port : Text → Text → Text → Text
  with_port port host default =
      if not (is_empty port) && not (has_byte b':' host) then host ++ b':' ∷ port else default

  unfoldable pub mail_host : Text
  unfolding with_port
  mail_host =
      let first = env service (text "ORBIT_SMTP_HOST") in
      let host = if is_empty first then env service (text "SMTP_HOST") else first in
      let ported =
        with_port (env service (text "ORBIT_SMTP_PORT")) host
          (with_port (env service (text "SMTP_PORT")) host host) in
      if is_empty ported then text "mail.manova.space:587" else ported

  permissions : Result (GoError Error) (Unit {0}) → Permissions
  permissions (ok u) = secure
  permissions (err e) = insecure e

  are_valid : Permissions → Bool
  are_valid not_found = false
  are_valid secure = true
  are_valid (insecure e) = false

  -- (*Service).Status
  unfoldable pub status : World V R → StatusResult
  unfolding mail_host permissions are_valid
  status w =
      let perms =
        if vault.exists w.sealed
        then permissions (vault.check_permissions w.sealed)
        else not_found in
      elim (verified_record (vault.load w.sealed)) [
        | none ↦ record {
          verified = false;
          email = [];
          display_name = [];
          verified_at = 0;
          key_fingerprint = [];
          vault_location = vault.file_path w.sealed;
          vault_permissions = perms;
          permissions_valid = are_valid perms;
          mail_host = mail_host;
        }
        | some rec ↦ record {
          verified = true;
          email = rec.email;
          display_name = rec.display_name;
          verified_at = rec.verified_at;
          key_fingerprint = rec.key_fingerprint;
          vault_location = vault.file_path w.sealed;
          vault_permissions = perms;
          permissions_valid = are_valid perms;
          mail_host = mail_host;
        }
      ]
