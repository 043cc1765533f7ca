-- ===== src/Owner/Service.antt =====
-- pkg/owner/application/ports.go: the ports of the owner service and its small helpers. What lies
-- behind the server, the mailer and Telegram is one state, `R`.
pub mod Sealing
pub mod Secret
pub mod Granting
pub mod Failures
pub mod Repeating
pub mod OwnCode
mod Tests
use orbit_cli.Prelude.{ℕ, Bool, false, [], Option, none, some, if◌then◌else◌, ◌&&◌}
use orbit_cli.Prelude.Int.{ℤ}
use orbit_cli.Prelude.Words.{Text, text, is_empty}
use orbit_cli.Prelude.Result.{Result, ok, err}
use orbit_cli.Clierr.{GoError}
use orbit_cli.Owner.Errors.{Error}
use orbit_cli.Owner.Vault.{Vault}

-- GrantRegistration of pkg/owner/domain/server.go
pub record GrantRegistration : Type 0 where
  pub expires_at : ℕ

-- Verification of pkg/owner/domain/server.go
pub record Verification : Type 0 where
  pub status : Text

-- The interface Server. The dispatch that InitiateChallenge returns is never read.
pub record Server (R : Type 0) : Type 0 where
  pub initiate_challenge : Text → R → Result (GoError Error) (Unit {0}) × R
  pub verify_challenge : Text → Text → R → Result (GoError Error) Verification × R
  pub create_grant :
      Text → Text → Text → Text → ℕ → R → Result (GoError Error) GrantRegistration × R

-- `expires_in` is the number of minutes that the code prints.
pub record ChallengeEmail : Type 0 where
  pub owner_email : Text
  pub otp_code : Text
  pub expires_in : ℕ
  pub server_host : Text
  pub generated_at : ℕ

pub record SmtpConfig : Type 0 where
  pub host : Text
  pub port : Text
  pub user : Text
  pub pass : Text
  pub from : Text

pub record Prompts : Type 0 where
  pub email : Option Text
  pub code : Option Text
  pub confirm_rotate : Option (Text → Bool)

-- A field that may be nil is an Option; `now` is what the clock of the service shows.
pub record Service (V R : Type 0) : Type 0 where
  pub vault : Vault V
  pub server : Option (Server R)
  pub telegram : Option (Text → Text → Text → ℕ → R → Result (GoError Error) (Unit {0}) × R)
  pub mailer_factory :
      Option (SmtpConfig → Text → ChallengeEmail → R → Result (GoError Error) (Unit {0}) × R)
  pub lookup_env : Option (Text → Text)
  pub now : ℕ
  pub prompts : Prompts

pub record World (V R : Type 0) : Type 0 where
  pub sealed : V
  pub remote : R

text_or : Option Text → Text
text_or none = []
text_or (some t) = t

module _ {V R : Type 0} (service : Service V R) where
  open service use {lookup_env, prompts}

  -- (*Service).env
  unfoldable pub env : Text → Text
  env key = elim lookup_env [ none ↦ [] | some lookup ↦ lookup key ]

  -- (*Service).promptEmail
  unfoldable pub prompt_email : Text
  unfolding text_or
  prompt_email = text_or prompts.email

  -- (*Service).promptCode
  unfoldable pub prompt_code : Text
  unfolding text_or
  prompt_code = text_or prompts.code

  -- the tests of RotateSecret on `s.Prompts.ConfirmRotate`
  unfoldable pub confirm_rotate : Text → Bool
  confirm_rotate email = elim prompts.confirm_rotate [ none ↦ false | some ask ↦ ask email ]

  -- `v := s.env(a); if v == "" { v = s.env(b) }; if v == "" { v = default }`
  unfoldable pub env_or : Text → Text → Text → Text
  unfolding env
  env_or a b default =
      let first = env a in
      if is_empty first
      then (let second = env b in if is_empty second then default else second)
      else first

  -- (*Service).smtpConfig
  unfoldable pub smtp_config : SmtpConfig
  unfolding env_or
  smtp_config = record {
    host = env_or (text "ORBIT_SMTP_HOST") (text "SMTP_HOST") (text "mail.manova.space");
    port = env_or (text "ORBIT_SMTP_PORT") (text "SMTP_PORT") (text "587");
    user = env_or (text "ORBIT_SMTP_USER") (text "SMTP_USER") [];
    pass = env_or (text "ORBIT_SMTP_PASS") (text "SMTP_PASS") [];
    from =
        env_or (text "ORBIT_SMTP_FROM") (text "SMTP_FROM")
          (text "Orbit Platform <noreply@manova.space>");
  }
