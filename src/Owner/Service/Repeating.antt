-- ===== src/Owner/Service/Repeating.antt =====
-- What becomes of Init and of Verify when they are repeated.
use orbit_cli.Prelude.{
  ℕ, ◌≡◌, ◌≢◌, Bool, true, false, Option, some, arith, inl, inr, Option-cases, sym, ap, ◌∙◌,
}
use mathlib.Core.Path.{subst}
use orbit_cli.Prelude.Words.{Text, is_empty}
use orbit_cli.Prelude.Result.{Result, ok, Result-cases}
use orbit_cli.Clierr.{GoError}
use orbit_cli.Owner.Errors.{Error}
use orbit_cli.Owner.ChallengeRecord.{Draws}
use orbit_cli.Owner.Vault.{
  OwnerRecord, VaultLaws, verified_record, is_verified, generate_master_secret, compute_fingerprint,
}
use orbit_cli.Owner.Service.{Service, World}
use orbit_cli.Owner.Service.Sealing.{
  InitInput, Sealed, save, seal, new_record, owner_email, already, init_check, init, report,
}
use orbit_cli.Owner.Service.OwnCode.{owner_named}
use orbit_cli.Prelude.Result.{and_then_ok}

module _ {V R : Type 0} (service : Service V R) (sha256_hex : Text → Text) where
  open service use {vault, now}

  -- `r` is the report of a verified record that the vault holds in `w`
  abbrev IsHeld : Sealed → World V R → Type 0
  IsHeld r w =
      (rec : OwnerRecord) × (flag : Bool) × (already service sha256_hex false w.sealed ≡ some rec)
      × (r ≡ report service sha256_hex flag rec w.sealed)

  ok_unique : {A : Type 0} (r : Result (GoError Error) A) (a b : A) → r ≡ ok a → r ≡ ok b → a ≡ b
  ok_unique r a b h k = ground arith

  already_unforced :
      (force : Bool) (rec : OwnerRecord) (v : V)
      → already service sha256_hex force v ≡ some rec
      → already service sha256_hex false v ≡ some rec
  unfolding already
  already_unforced true rec v h = absurd (ground arith)
  already_unforced false rec v h = h

  init_held :
      (clock : ℕ → ℕ) (draws : Draws) (secret : Option Text) (input : InitInput) (email : Text)
      (w : World V R) (rec : OwnerRecord)
      → owner_email service sha256_hex input.email ≡ ok email
      → already service sha256_hex input.force w.sealed ≡ some rec
      → init service sha256_hex clock draws secret input w
        ≡ (ok (report service sha256_hex true rec w.sealed), w)
  unfolding init
  init_held clock draws secret input email w rec named held = ground (arith, named, held)

  module _ (laws : VaultLaws vault) (secret : Text) where
    seal-IsHeld :
        (email name : Text) (w w' : World V R) (r : Sealed)
        → now ≢ 0
        → is_empty email ≡ false
        → is_empty secret ≡ false
        → is_empty (compute_fingerprint sha256_hex secret) ≡ false
        → seal service sha256_hex (some secret) email name w ≡ (ok r, w')
        → IsHeld r w'
    unfolding seal save generate_master_secret already verified_record is_verified new_record
    seal-IsHeld email name w w' r n e s f h =
        let rec : OwnerRecord = new_record service sha256_hex email name secret in
        elim (Result-cases (vault.save rec w.sealed).0) [
          | inl (failed, failure) ↦ absurd (ground (arith, failure, h))
          | inr (u, success) ↦
              let checks : is_verified rec ≡ true = ground arith in
              let v : V = (vault.save rec w.sealed).1 in
              let (loads, exists) = laws.save_loads rec w.sealed checks f success in
              let done : seal service sha256_hex (some secret) email name w
                  ≡ (ok (report service sha256_hex false rec v), record w { sealed = v }) =
                ground (arith, success) in
              let at : record w { sealed = v } ≡ w' = ap (λ p. p.1) (sym done ∙ h) in
              subst (λ w''. IsHeld r w'') at
                (
                  rec,
                  false,
                  ground (arith, loads, exists, checks),
                  ok_unique _ r _ (ap (λ p. p.0) h) (ap (λ p. p.0) done),
                )
        ]

    init-IsHeld :
        (clock : ℕ → ℕ) (draws : Draws) (input : InitInput) (w w' : World V R) (r : Sealed)
        → now ≢ 0
        → is_empty secret ≡ false
        → is_empty (compute_fingerprint sha256_hex secret) ≡ false
        → init service sha256_hex clock draws (some secret) input w ≡ (ok r, w')
        → IsHeld r w'
    unfolding init
    init-IsHeld clock draws input w w' r n s f h =
        elim (Result-cases (owner_email service sha256_hex input.email)) [
          | inl (e, refused) ↦ absurd (ground (arith, refused))
          | inr (email, named) ↦
              elim (Option-cases (already service sha256_hex input.force w.sealed)) [
                | inr (rec, found) ↦
                    let done = init_held clock draws (some secret) input email w rec named found in
                    subst (λ w''. IsHeld r w'') (ap (λ p. p.1) (sym done ∙ h))
                      (
                        rec,
                        true,
                        already_unforced input.force rec w.sealed found,
                        ok_unique _ r _ (ap (λ p. p.0) h) (ap (λ p. p.0) done),
                      )
                | inl absent ↦
                    let (u, checked, sealing) =
                      and_then_ok (init_check service sha256_hex clock draws input email w)
                        (λ u w'. seal service sha256_hex (some secret) email input.display_name w')
                        r w' (ground (arith, named, absent, h)) in
                    seal-IsHeld email input.display_name _ w' r n
                      (owner_named service sha256_hex input.email email named).1 s f sealing
              ]
        ]

  -- Under the vault's laws, where Init has succeeded, with a new secret and a fingerprint that are not
  -- blank, at a time after Go's zero time, every later Init without `--force` changes nothing, calls no
  -- server and reports the same owner, time and fingerprint as already verified, whatever its code is.
  pub init_once :
      (laws : VaultLaws vault) (clock clock' : ℕ → ℕ) (draws draws' : Draws) (secret : Text)
      (secret' : Option Text) (input input' : InitInput) (email : Text) (w w' : World V R)
      (r : Sealed)
      → now ≢ 0
      → is_empty secret ≡ false
      → is_empty (compute_fingerprint sha256_hex secret) ≡ false
      → init service sha256_hex clock draws (some secret) input w ≡ (ok r, w')
      → owner_email service sha256_hex input'.email ≡ ok email
      → input'.force ≡ false
      → init service sha256_hex clock' draws' secret' input' w'
        ≡ (ok (record r { already_verified = true }), w')
  unfolding report
  init_once laws clock clock' draws draws' secret secret' input input' email w w' r n s f h named
        unforced =
      let (rec, flag, held, reported) = init-IsHeld laws secret clock draws input w w' r n s f h in
      init_held clock' draws' secret' input' email w' rec named (rw unforced held)
      ∙ ap (λ r'. (ok (record r' { already_verified = true }), w')) (sym reported)
