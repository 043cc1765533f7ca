-- ===== src/Owner/Service/Failures.antt =====
-- What becomes of the vault when Init, Verify and RotateSecret fail.
use orbit_cli.Prelude.{
  ℕ, ◌≡◌, Bool, Option, none, some, arith, inl, inr, Option-cases, refl, ap, ◌∙◌, if◌then◌else◌,
}
use orbit_cli.Prelude.Words.{Text, is_empty, trim_space}
use orbit_cli.Prelude.Result.{Result, ok, err, Result-cases}
use orbit_cli.Clierr.{GoError, usage}
use orbit_cli.Owner.Errors.{Error}
use orbit_cli.Owner.ChallengeRecord.{Draws}
use orbit_cli.Owner.Vault.{OwnerRecord, VaultLaws, verified_record}
use orbit_cli.Owner.Service.{Service, Server, World, prompt_code}
use orbit_cli.Prelude.Result.{and_then}
use orbit_cli.Owner.Service.Sealing.{
  InitInput, VerifyInput, save, seal, new_record, owner_email, already, init_check, local_check,
  server_check, connect, submit, remotely, accepted, init, verify, verify_sealing,
}
use orbit_cli.Owner.Service.Secret.{rotate_secret, replace, rotated}
use orbit_cli.Owner.Vault.{generate_master_secret}

module _ {V R : Type 0} (service : Service V R) (sha256_hex : Text → Text) where
  open service use {vault}

  -- the call fails, and then the vault loads what it loaded before
  unfoldable pub Keeps : {A : Type 0} → World V R → Result (GoError Error) A × World V R → Type 0
  Keeps w (ok a, w') = Unit
  Keeps w (err e, w') = vault.load w'.sealed ≡ vault.load w.sealed

  module _ (laws : VaultLaws vault) where
    save-Keeps : (rec : OwnerRecord) (w : World V R) → Keeps w (save service sha256_hex rec w)
    unfolding Keeps save
    save-Keeps rec w = elim (Result-cases (vault.save rec w.sealed).0) [
      | inl (e, failure) ↦ ground (arith, failure, laws.save_fails rec w.sealed e)
      | inr (u, success) ↦ ground (arith, success)
    ]

    seal-Keeps :
        (drawn : Option Text) (email name : Text) (w : World V R)
        → Keeps w (seal service sha256_hex drawn email name w)
    unfolding Keeps seal save generate_master_secret
    seal-Keeps none email name w = ground arith
    seal-Keeps (some secret) email name w =
        let rec : OwnerRecord = new_record service sha256_hex email name secret in
        elim (Result-cases (vault.save rec w.sealed).0) [
          | inl (e, failure) ↦ ground (arith, failure, laws.save_fails rec w.sealed e)
          | inr (u, success) ↦ ground (arith, success)
        ]

    replace-Keeps :
        (drawn : Option Text) (rec : OwnerRecord) (w : World V R)
        → Keeps w (replace service sha256_hex drawn rec w)
    unfolding Keeps replace save generate_master_secret
    replace-Keeps none rec w = ground arith
    replace-Keeps (some secret) rec w =
        let rec' : OwnerRecord = rotated service sha256_hex rec secret in
        elim (Result-cases (vault.save rec' w.sealed).0) [
          | inl (e, failure) ↦ ground (arith, failure, laws.save_fails rec' w.sealed e)
          | inr (u, success) ↦ ground (arith, success)
        ]

    rotate-Keeps :
        (yes_flag : Bool) (drawn : Option Text) (w : World V R)
        → Keeps w (rotate_secret service sha256_hex yes_flag drawn w)
    unfolding rotate_secret Keeps
    rotate-Keeps yes_flag drawn w = elim (Option-cases (verified_record (vault.load w.sealed))) [
      | inl absent ↦ ground (arith, absent)
      | inr (rec, found) ↦ ground (arith, found, replace-Keeps drawn rec w)
    ]

    weaken :
        {A : Type 0} (w w' : World V R) (r : Result (GoError Error) A × World V R)
        → w'.sealed ≡ w.sealed
        → Keeps w' r
        → Keeps w r
    unfolding Keeps
    weaken w w' (ok a, w'') same k = k
    weaken w w' (err e, w'') same k = k ∙ ap vault.load same

    next_Keeps :
        {A B : Type 0} (w : World V R) (r : Result (GoError Error) A × World V R)
        (next : A → World V R → Result (GoError Error) B × World V R)
        → r.1.sealed ≡ w.sealed
        → ((a : A) (w' : World V R) → Keeps w' (next a w'))
        → Keeps w (and_then r next)
    unfolding Keeps
    next_Keeps w (err e, w') next same h = ap vault.load same
    next_Keeps w (ok a, w') next same h = weaken w w' (next a w') same (h a w')

  connect_sealed :
      (srv : Server R) (email code : Text) (w : World V R)
      → (connect service sha256_hex srv email code w).1.sealed ≡ w.sealed
  unfolding connect remotely
  connect_sealed srv email code w = elim (Result-cases (srv.initiate_challenge email w.remote).0) [
    | inl (e, failure) ↦ ground (arith, failure)
    | inr (u, success) ↦ ground (arith, success)
  ]

  submit_sealed :
      (srv : Server R) (email code : Text) (w : World V R)
      → (submit service sha256_hex srv email code w).1.sealed ≡ w.sealed
  unfolding submit remotely accepted
  submit_sealed srv email code w =
      elim (Result-cases (srv.verify_challenge email code w.remote).0) [
        | inl (e, failure) ↦ ground (arith, failure)
        | inr (u, success) ↦ ground (arith, success)
      ]

  then_sealed :
      {A B : Type 0} (w : World V R) (r : Result (GoError Error) A × World V R)
      (next : A → World V R → Result (GoError Error) B × World V R)
      → r.1.sealed ≡ w.sealed
      → ((a : A) (w' : World V R) → (next a w').1.sealed ≡ w'.sealed)
      → (and_then r next).1.sealed ≡ w.sealed
  then_sealed w (err e, w') next same h = same
  then_sealed w (ok a, w') next same h = h a w' ∙ same

  server_check_sealed :
      (email code : Text) (w : World V R)
      → (server_check service sha256_hex email code w).1.sealed ≡ w.sealed
  unfolding server_check
  server_check_sealed email code w = elim (Option-cases service.server) [
    | inl absent ↦ ground (arith, absent)
    | inr (srv, found) ↦ ground (
      arith,
      found,
      then_sealed w (connect service sha256_hex srv email code w)
          (submit service sha256_hex srv email) (connect_sealed srv email code w)
          (submit_sealed srv email),
    )
  ]

  init_check_sealed :
      (clock : ℕ → ℕ) (draws : Draws) (input : InitInput) (email : Text) (w : World V R)
      → (init_check service sha256_hex clock draws input email w).1.sealed ≡ w.sealed
  unfolding init_check
  init_check_sealed clock draws input email w =
      ground (arith, server_check_sealed email (trim_space input.code) w)

  module _ (laws : VaultLaws vault) where
    init-Keeps :
        (clock : ℕ → ℕ) (draws : Draws) (drawn : Option Text) (input : InitInput) (w : World V R)
        → Keeps w (init service sha256_hex clock draws drawn input w)
    unfolding init Keeps
    init-Keeps clock draws drawn input w =
        elim (Result-cases (owner_email service sha256_hex input.email)) [
          | inl (e, refused) ↦ ground (arith, refused)
          | inr (email, named) ↦
              elim (Option-cases (already service sha256_hex input.force w.sealed)) [
                | inr (rec, found) ↦ ground (arith, named, found)
                | inl absent ↦ ground (
                  arith,
                  named,
                  absent,
                  next_Keeps laws w (init_check service sha256_hex clock draws input email w)
                      (λ u w'. seal service sha256_hex drawn email input.display_name w')
                      (init_check_sealed clock draws input email w)
                      (λ u w'. seal-Keeps laws drawn email input.display_name w'),
                )
              ]
        ]

    verify_sealing-Keeps :
        (clock : ℕ → ℕ) (draws : Draws) (drawn : Option Text) (input : VerifyInput)
        (email code : Text) (w : World V R)
        → Keeps w (verify_sealing service sha256_hex clock draws drawn input email code w)
    unfolding verify_sealing Keeps
    verify_sealing-Keeps clock draws drawn input email code w =
        elim (Option-cases (already service sha256_hex input.force w.sealed)) [
          | inr (rec, found) ↦ ground (arith, found)
          | inl absent ↦ ground (
            arith,
            absent,
            next_Keeps laws w (local_check service sha256_hex clock draws usage email code, w)
                (λ u w'. seal service sha256_hex drawn email input.display_name w') refl
                (λ u w'. seal-Keeps laws drawn email input.display_name w'),
          )
        ]

    verify-Keeps :
        (clock : ℕ → ℕ) (draws : Draws) (drawn : Option Text) (input : VerifyInput) (w : World V R)
        → Keeps w (verify service sha256_hex clock draws drawn input w)
    unfolding verify Keeps
    verify-Keeps clock draws drawn input w =
        let flag : Text = trim_space input.code in
        let code : Text = if is_empty flag then trim_space (prompt_code service) else flag in
        elim (Result-cases (owner_email service sha256_hex input.email)) [
          | inl (e, refused) ↦ ground (arith, refused)
          | inr (email, named) ↦
              ground (arith, named, verify_sealing-Keeps clock draws drawn input email code w)
        ]

    -- For a vault under the laws: where Init, Verify or RotateSecret fails, whatever the server answered
    -- and whichever step failed, the vault loads what it loaded before.
    pub failures_keep :
        (clock : ℕ → ℕ) (draws : Draws) (drawn : Option Text) (w : World V R)
        → ((input : InitInput) → Keeps w (init service sha256_hex clock draws drawn input w))
          × ((input : VerifyInput) → Keeps w (verify service sha256_hex clock draws drawn input w))
          × ((yes_flag : Bool) → Keeps w (rotate_secret service sha256_hex yes_flag drawn w))
    failures_keep clock draws drawn w = (
      λ input. init-Keeps clock draws drawn input w,
      λ input. verify-Keeps clock draws drawn input w,
      λ yes_flag. rotate-Keeps laws yes_flag drawn w,
    )
