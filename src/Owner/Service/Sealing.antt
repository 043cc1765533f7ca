-- ===== src/Owner/Service/Sealing.antt =====
-- pkg/owner/application/service.go: Init and Verify, which check a code for the owner's address and
-- seal a new root secret in the vault. `clock` and `draws` are those of the challenge manager.
use orbit_cli.Prelude.{
  ℕ, ◌+◌, Bool, true, false, not, ◌&&◌, ◌||◌, Option, none, some, ◌==◌, if◌then◌else◌, length,
}
use orbit_cli.Prelude.Int.{pos}
use orbit_cli.Prelude.Words.{Text, text, same, has_byte, is_empty, trim_space}
use orbit_cli.Prelude.Result.{Result, ok, err}
use orbit_cli.Clierr.{Kind, usage, auth, failed, GoError, plain, fail, wrap, with_message}
use orbit_cli.Owner.Code.{clean_code}
use orbit_cli.Owner.Errors.{Error, rand_failed}
use orbit_cli.Owner.ChallengeRecord.{
  Challenge, ChallengeStore, Draws, default_challenge_ttl, new_challenge_manager, ChallengeManager,
}
use orbit_cli.Owner.Challenge.{create_challenge_with_code, verify_code}
use orbit_cli.Owner.Vault.{
  OwnerRecord, generate_master_secret, compute_fingerprint, verified_record,
}
use orbit_cli.Owner.Service.{Service, Server, Verification, World, prompt_email, prompt_code}
use orbit_cli.Prelude.Result.{and_then, on_error}

pub record InitInput : Type 0 where
  pub email : Text
  pub display_name : Text
  pub code : Text
  pub force : Bool
  pub no_send : Bool

pub record VerifyInput : Type 0 where
  pub email : Text
  pub code : Text
  pub display_name : Text
  pub force : Bool

-- InitResult; VerifyResult is the same without the time. An instant stands for its print.
pub record Sealed : Type 0 where
  pub already_verified : Bool
  pub verified : Bool
  pub email : Text
  pub display_name : Text
  pub verified_at : ℕ
  pub key_fingerprint : Text
  pub vault_location : Text

-- a manager without a store calls none of these
abbrev pub no_store : ChallengeStore (Unit {0})
no_store = record {
  save_challenge = λ clock c s. (ok c, s);
  get_active_challenge = λ now email s. (ok none, s);
  increment_attempts = λ id s. (ok 0, s);
  mark_verified = λ now id s. (ok tt, s);
  prune_expired = λ now s. (ok tt, s);
}

module _ {V R : Type 0} (service : Service V R) (sha256_hex : Text → Text) where
  open service use {vault, now, server}

  -- the address from the flag, or else from the prompt
  unfoldable pub given_email : Text → Text
  given_email flag =
      let email = trim_space flag in
      if is_empty email then trim_space (prompt_email service) else email

  -- how Init and Verify begin
  unfoldable pub owner_email : Text → Result (GoError Error) Text
  unfolding given_email
  owner_email flag =
      let email = given_email flag in
      if is_empty email
      then err (fail usage)
      else if not (has_byte b'@' email) || not (has_byte b'.' email)
      then err (fail usage)
      else ok email

  -- `store.Exists() && !in.Force`, and the record that the store holds is verified
  unfoldable pub already : Bool → V → Option OwnerRecord
  already force v = if vault.exists v && not force then verified_record (vault.load v) else none

  unfoldable pub report : Bool → OwnerRecord → V → Sealed
  report already_verified rec v = record {
    already_verified = already_verified;
    verified = true;
    email = rec.email;
    display_name = rec.display_name;
    verified_at = rec.verified_at;
    key_fingerprint = rec.key_fingerprint;
    vault_location = vault.file_path v;
  }

  checked : Result Error (Unit {0}) → Result (GoError Error) (Unit {0})
  checked (err e) = err (wrap auth (plain e))
  checked (ok u) = ok tt

  submitted :
      (ℕ → ℕ)
      → Kind
      → Text
      → Text
      → Result Error Challenge × ChallengeManager (Unit {0})
      → Result (GoError Error) (Unit {0})
  unfolding checked
  submitted clock kind email code (err e, m) = err (wrap kind (plain e))
  submitted clock kind email code (ok c, m) =
      checked (verify_code no_store sha256_hex clock email code m).0

  -- The check of a code in the process: a challenge is made with the code itself, and then the code
  -- is submitted to it. `kind` is what a failure to make it is called.
  unfoldable pub local_check :
      (ℕ → ℕ) → Draws → Kind → Text → Text → Result (GoError Error) (Unit {0})
  unfolding submitted
  local_check clock draws kind email code =
      submitted (λ i. clock (i + 1)) kind email code
        (create_challenge_with_code no_store sha256_hex clock draws email code
          (pos default_challenge_ttl) new_challenge_manager)

  unfoldable pub accepted : Verification → World V R → Result (GoError Error) (Unit {0}) × World V R
  accepted verification w =
      if same verification.status (text "verified") then (ok tt, w) else (err (fail failed), w)

  -- a call of the server, with its state put back into the world
  unfoldable pub remotely {ℓ} :
      {A : Type ℓ}
      → (R → Result (GoError Error) A × R)
      → World V R
      → Result (GoError Error) A × World V R
  remotely call w = let (result, r) = call w.remote in (result, record w { remote = r })

  -- the code to submit: without the 8 digits of a grant the server sends one first
  unfoldable pub connect :
      Server R → Text → Text → World V R → Result (GoError Error) Text × World V R
  unfolding remotely
  connect srv email code w =
      if length (clean_code code) == 8
      then (ok code, w)
      else and_then (on_error with_message (remotely (srv.initiate_challenge email) w))
          (λ sent w'. (ok (if is_empty code then trim_space (prompt_code service) else code), w'))

  unfoldable pub submit :
      Server R → Text → Text → World V R → Result (GoError Error) (Unit {0}) × World V R
  unfolding accepted remotely
  submit srv email code w =
      if is_empty code
      then (err (fail usage), w)
      else and_then (on_error with_message (remotely (srv.verify_challenge email code) w)) accepted

  -- the check of a code by the server
  unfoldable pub server_check :
      Text → Text → World V R → Result (GoError Error) (Unit {0}) × World V R
  unfolding connect submit
  server_check email code w = elim server [
    | none ↦ (err (fail failed), w)
    | some srv ↦ and_then (connect srv email code w) (submit srv email)
  ]

  unfoldable pub new_record : Text → Text → Text → OwnerRecord
  new_record email display_name secret = record {
    email = email;
    display_name = trim_space display_name;
    verified_at = now;
    root_signing_secret = secret;
    key_fingerprint = compute_fingerprint sha256_hex secret;
  }

  -- store.Save(rec), and its error as Failed
  unfoldable pub save : OwnerRecord → World V R → Result (GoError Error) (Unit {0}) × World V R
  save rec w =
      let (saved, v) = vault.save rec w.sealed in
      on_error (wrap failed) (saved, record w { sealed = v })

  -- how Init and Verify end
  unfoldable pub seal :
      Option Text → Text → Text → World V R → Result (GoError Error) Sealed × World V R
  unfolding new_record save report
  seal drawn email display_name w = elim (generate_master_secret drawn) [
    | none ↦ (err (wrap failed (plain rand_failed)), w)
    | some secret ↦
        let rec = new_record email display_name secret in
        and_then (save rec w) (λ u w'. (ok (report false rec w'.sealed), w'))
  ]

  -- the code that Init submits: to itself where nothing is to be sent, or else to the server
  unfoldable pub init_check :
      (ℕ → ℕ) → Draws → InitInput → Text → World V R → Result (GoError Error) (Unit {0}) × World V R
  unfolding local_check server_check
  init_check clock draws input email w =
      let code = trim_space input.code in
      if input.no_send && is_empty code
      then (err (fail usage), w)
      else if input.no_send && not (is_empty code)
      then (local_check clock draws failed email code, w)
      else server_check email code w

  -- (*Service).Init
  unfoldable pub init :
      (ℕ → ℕ)
      → Draws
      → Option Text
      → InitInput
      → World V R
      → Result (GoError Error) Sealed × World V R
  unfolding owner_email already report init_check seal
  init clock draws drawn input w =
      and_then (owner_email input.email, w)
        (λ email w. elim (already input.force w.sealed) [
          | some rec ↦ (ok (report true rec w.sealed), w)
          | none ↦
              and_then (init_check clock draws input email w)
                (λ u w'. seal drawn email input.display_name w')
        ])

  unfoldable pub verify_sealing :
      (ℕ → ℕ)
      → Draws
      → Option Text
      → VerifyInput
      → Text
      → Text
      → World V R
      → Result (GoError Error) Sealed × World V R
  unfolding already report local_check seal
  verify_sealing clock draws drawn input email code w = elim (already input.force w.sealed) [
    | some rec ↦ (ok (report true rec w.sealed), w)
    | none ↦
        and_then (local_check clock draws usage email code, w)
          (λ u w'. seal drawn email input.display_name w')
  ]

  -- (*Service).Verify
  unfoldable pub verify :
      (ℕ → ℕ)
      → Draws
      → Option Text
      → VerifyInput
      → World V R
      → Result (GoError Error) Sealed × World V R
  unfolding owner_email verify_sealing
  verify clock draws drawn input w =
      and_then (owner_email input.email, w)
        (λ email w.
          let flag = trim_space input.code in
          let code = if is_empty flag then trim_space (prompt_code service) else flag in
          if is_empty code
          then (err (fail usage), w)
          else verify_sealing clock draws drawn input email code w)
