-- ===== src/Owner/Service/Tests.antt =====
-- Runs of the owner service on the vault in a file, with the identity in place of SHA-256 and no
-- server.
use orbit_cli.Prelude.{◌≡◌, Bool, true, false, none, some, refl, ◌⊎◌, arith}
use orbit_cli.Prelude.Words.{Text, text, is_empty, trim_space, to_lower, same, has_byte}
use orbit_cli.Prelude.Result.{ok, err}
use orbit_cli.Clierr.{GoError}
use orbit_cli.Owner.Errors.{Error}
use orbit_cli.Owner.ChallengeRecord.{Draws, new_challenge_manager, is_expired, matches}
use orbit_cli.Owner.Vault.{OwnerRecord, compute_fingerprint, generate_master_secret}
use orbit_cli.Prelude.Dict.{lookup, put}
use orbit_cli.Owner.Code.{normalize, hash_code}
use orbit_cli.Owner.Challenge.{
  create_challenge_with_code, verify_code, store_challenge, check_memory,
}
use orbit_cli.Owner.VaultFile.{
  Disk, stored, sealed_mode, save_owner, filled, atomic_write_owner_file, check_permissions,
  file_vault, exists,
}
use orbit_cli.Owner.VaultFile.Saving.{file_vault_laws, save_owner_atomic}
use orbit_cli.Owner.Service.{Service, World}
use orbit_cli.Owner.Service.Sealing.{
  InitInput, VerifyInput, Sealed, owner_email, given_email, already, init_check, local_check, save,
  new_record, report, init, verify, seal,
}
use orbit_cli.Owner.Service.Secret.{rotate_secret}
use orbit_cli.Owner.Service.Failures.{Keeps, failures_keep}
use orbit_cli.Owner.Service.Repeating.{init_once}
use orbit_cli.Owner.Service.OwnCode.{verify_accepts_any_code}

abbrev sha : Text → Text
sha t = t

abbrev fresh : Bool → Disk
fresh rename_fails = record {
  path = text "/home/ada/.config/orbit/owner.json";
  file = none;
  temporaries = 0;
  faults = record {
    mkdir = false;
    create_temp = false;
    chmod = false;
    write = false;
    close = false;
    rename = rename_fails;
    remove = false;
  };
}

abbrev service : Service Disk (Unit {0})
service = record {
  vault = file_vault sha 500;
  server = none;
  telegram = none;
  mailer_factory = none;
  lookup_env = none;
  now = 500;
  prompts = record { email = none; code = none; confirm_rotate = none };
}

abbrev new_world : World Disk (Unit {0})
new_world = record { sealed = fresh false; remote = tt }

abbrev broken_world : World Disk (Unit {0})
broken_world = record { sealed = fresh true; remote = tt }

abbrev draws : Draws
draws = record { code_number = none; salt = some (text "5a17"); challenge_id = some (text "c1") }

abbrev by_code : InitInput
by_code = record {
  email = text " root@manova.dev";
  display_name = text "Root";
  code = text "000000";
  force = false;
  no_send = true;
}

abbrev by_verify : VerifyInput
by_verify = record {
  email = text " root@manova.dev";
  code = text "000000";
  display_name = text "Root";
  force = false;
}

abbrev secret : Text
secret = text "00112233445566778899aabbccddeeff"

owner : owner_email service sha (text " root@manova.dev") ≡ ok (text "root@manova.dev")
unfolding owner_email given_email trim_space has_byte
owner = refl

typed : is_empty (trim_space (text "000000")) ≡ false
unfolding trim_space
typed = refl

unsealed : already service sha false (fresh false) ≡ none
unfolding already exists
unsealed = refl

verify_accepts_any_code_example :
    verify service sha (λ i. i) draws (some secret) by_verify new_world
    ≡ seal service sha (some secret) (text "root@manova.dev") (text "Root") new_world
verify_accepts_any_code_example =
    verify_accepts_any_code service sha (λ i. i) (text "5a17") (text "c1") none (some secret)
      by_verify (text "root@manova.dev") new_world owner typed unsealed (omega arith)

failures_keep_example :
    ((input : InitInput)
      → Keeps service sha broken_world
          (init service sha (λ i. i) draws (some secret) input broken_world))
    × ((input : VerifyInput)
        → Keeps service sha broken_world
            (verify service sha (λ i. i) draws (some secret) input broken_world))
    × ((yes_flag : Bool)
        → Keeps service sha broken_world
            (rotate_secret service sha yes_flag (some secret) broken_world))
failures_keep_example =
    failures_keep service sha (file_vault_laws sha 500) (λ i. i) draws (some secret) broken_world

abbrev sealed_record : OwnerRecord
sealed_record = record {
  email = text "root@manova.dev";
  display_name = text "Root";
  verified_at = 500;
  root_signing_secret = secret;
  key_fingerprint = secret;
}

abbrev sealed_world : World Disk (Unit {0})
sealed_world = record new_world {
  sealed = record (fresh false) {
    file = some (record { content = stored sealed_record; mode = sealed_mode });
  };
}

abbrev report_of : Bool → Sealed
report_of again = record {
  already_verified = again;
  verified = true;
  email = text "root@manova.dev";
  display_name = text "Root";
  verified_at = 500;
  key_fingerprint = secret;
  vault_location = text "/home/ada/.config/orbit/owner.json";
}

init_run :
    init service sha (λ i. i) draws (some secret) by_code new_world
    ≡ (ok (report_of false), sealed_world)
unfolding init owner_email given_email trim_space has_byte already exists init_check local_check
    create_challenge_with_code store_challenge verify_code check_memory seal save new_record report
    normalize generate_master_secret save_owner filled atomic_write_owner_file to_lower
    new_challenge_manager lookup put same is_expired matches hash_code compute_fingerprint
init_run = refl

fingerprint_named : is_empty (compute_fingerprint sha secret) ≡ false
unfolding compute_fingerprint
fingerprint_named = refl

init_once_example :
    init service sha (λ i. i) draws none by_code sealed_world ≡ (ok (report_of true), sealed_world)
init_once_example =
    init_once service sha (file_vault_laws sha 500) (λ i. i) (λ i. i) draws draws secret none
      by_code by_code (text "root@manova.dev") new_world sealed_world (report_of false)
      (λ e. omega (arith, e)) refl fingerprint_named init_run owner refl

save_owner_atomic_example :
    let (result, d') = save_owner sha 500 sealed_record (fresh true) in
    (((result ≡ ok tt)
        × ((d'.file
              ≡ some
                  (record { content = stored (filled sha 500 sealed_record); mode = sealed_mode }))
            × (check_permissions d' ≡ ok tt)))
      ⊎ ((e : GoError Error) × (result ≡ err e) × (d'.file ≡ none)))
    × (false ≡ false → d'.temporaries ≡ 0)
save_owner_atomic_example = save_owner_atomic sha 500 sealed_record (fresh true)
