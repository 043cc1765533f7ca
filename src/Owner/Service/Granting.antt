-- ===== src/Owner/Service/Granting.antt =====
-- pkg/owner/application/service.go: Grant, which makes a one-time code for an administrator, registers
-- it with the server and sends it. What fails there is only reported.
use orbit_cli.Prelude.{
  ℕ, ◌+◌, ◌*◌, ◌/◌, Bool, true, false, not, ◌||◌, Option, none, some, ◌==◌, if◌then◌else◌, length,
}
use orbit_cli.Prelude.Int.{ℤ, pos_or}
use orbit_cli.Prelude.Words.{Text, has_byte, is_empty}
use orbit_cli.Prelude.Result.{Result, ok, err}
use orbit_cli.Clierr.{usage, auth, failed, GoError, plain, fail, wrap}
use orbit_cli.Owner.Code.{normalize, clean_code, format_8_digit_code, generate_8_digit_code}
use orbit_cli.Owner.Errors.{Error, rand_failed}
use orbit_cli.Owner.GrantRecord.{default_grant_ttl, default_grant_role}
use orbit_cli.Owner.Vault.{OwnerRecord, verified_record}
use orbit_cli.Owner.Service.{Service, World, GrantRegistration, smtp_config}
use orbit_cli.Prelude.Result.{and_then}

-- `--quiet` only changes what is printed
pub record GrantInput : Type 0 where
  pub email : Text
  pub role : Text
  pub code : Text
  pub ttl : ℤ
  pub server_url : Text
  pub send : Bool
  pub telegram : Bool

-- the status is always "grant_generated"
pub record GrantResult : Type 0 where
  pub email : Text
  pub code : Text
  pub role : Text
  pub expires_at : ℕ
  pub telegram_sent : Bool
  pub email_sent : Bool

-- the code that is given, formatted, or a new one
unfoldable pub grant_code : Option ℕ → Text → Result (GoError Error) Text
grant_code drawn given =
    if not (is_empty given)
    then (if length (clean_code given) == 8
        then ok (format_8_digit_code given)
        else err (fail usage))
    else elim (generate_8_digit_code drawn) [
      | none ↦ err (wrap failed (plain rand_failed))
      | some code ↦ ok code
    ]

-- the end of the grant: the server's, where it registered one with an end
unfoldable pub expiry : ℕ → Result (GoError Error) GrantRegistration → ℕ
expiry local (err e) = local
expiry local (ok registration) =
    if registration.expires_at == 0 then local else registration.expires_at

was_sent : Result (GoError Error) (Unit {0}) → Bool
was_sent (err e) = false
was_sent (ok u) = true

module _ {V R : Type 0} (service : Service V R) where
  open service use {vault, server, telegram, mailer_factory, now}

  unfoldable pub register : OwnerRecord → Text → Text → Text → ℕ → R → ℕ × R
  unfolding expiry
  register rec email role code ttl r = elim server [
    | none ↦ (now + ttl, r)
    | some srv ↦
        let (answer, r') = srv.create_grant email role code rec.root_signing_secret ttl r in
        (expiry (now + ttl) answer, r')
  ]

  unfoldable pub send_telegram : Bool → Text → Text → Text → ℕ → R → Bool × R
  unfolding was_sent
  send_telegram wanted email code role expires_at r = elim telegram [
    | none ↦ (false, r)
    | some send ↦
        if wanted
        then (let (answer, r') = send email code role expires_at r in (was_sent answer, r'))
        else (false, r)
  ]

  unfoldable pub send_email : Bool → Text → Text → Text → ℕ → R → Bool × R
  unfolding was_sent
  send_email wanted email code server_url ttl r = elim mailer_factory [
    | none ↦ (false, r)
    | some send ↦
        if wanted
        then (let (answer, r') =
              send (smtp_config service) email
                (record {
                  owner_email = email;
                  otp_code = code;
                  expires_in = ttl / (60 * 1000000000);
                  server_host = server_url;
                  generated_at = now;
                })
                r in
            (was_sent answer, r'))
        else (false, r)
  ]

  -- Grant from the registration on
  unfoldable pub deliver :
      GrantInput → OwnerRecord → Text → Text → World V R → GrantResult × World V R
  unfolding register send_telegram send_email
  deliver input rec email code w =
      let ttl = pos_or default_grant_ttl input.ttl in
      let role = if is_empty input.role then default_grant_role else input.role in
      let (expires_at, r1) = register rec email role code ttl w.remote in
      let (telegram_sent, r2) = send_telegram input.telegram email code role expires_at r1 in
      let (email_sent, r3) = send_email input.send email code input.server_url ttl r2 in
      (
        record {
          email = email;
          code = code;
          role = role;
          expires_at = expires_at;
          telegram_sent = telegram_sent;
          email_sent = email_sent;
        },
        record w { remote = r3 },
      )

  -- (*Service).Grant
  unfoldable pub grant :
      Option ℕ → GrantInput → World V R → Result (GoError Error) GrantResult × World V R
  unfolding grant_code deliver
  grant drawn input w =
      let email = normalize input.email in
      if is_empty email || not (has_byte b'@' email)
      then (err (fail usage), w)
      else elim (verified_record (vault.load w.sealed)) [
        | none ↦ (err (fail auth), w)
        | some rec ↦
            and_then (grant_code drawn input.code, w)
              (λ code w. let (result, w') = deliver input rec email code w in (ok result, w'))
      ]
