-- ===== src/Owner/VaultFile/Saving.antt =====
-- The owner's file: what a save leaves in it, and the laws of the vault.
use orbit_cli.Prelude.{ℕ, ◌≡◌, true, false, some, ◌==◌, arith, refl, inl, inr, ap, ◌∙◌, ◌⊎◌}
use orbit_cli.Prelude.Words.{Text, is_empty}
use orbit_cli.Prelude.Result.{ok, err, Result-cases}
use orbit_cli.Clierr.{GoError}
use orbit_cli.Owner.Errors.{Error}
use orbit_cli.Owner.Vault.{OwnerRecord, VaultLaws, is_verified}
use orbit_cli.Owner.VaultFile.{
  Disk, stored, sealed_mode, abandon, atomic_write_owner_file, filled, save_owner, read_content,
  load_owner, is_reachable, exists, check_permissions, file_vault,
}

module _ (sha256_hex : Text → Text) (now : ℕ) where
  save_owner_fails :
      (rec : OwnerRecord) (d : Disk) (e : GoError Error)
      → (save_owner sha256_hex now rec d).0 ≡ err e
      → (save_owner sha256_hex now rec d).1.file ≡ d.file
  unfolding save_owner atomic_write_owner_file abandon
  save_owner_fails rec d e h = ground arith

  filled_same :
      (rec : OwnerRecord)
      → is_verified rec ≡ true
      → is_empty rec.key_fingerprint ≡ false
      → filled sha256_hex now rec ≡ rec
  unfolding filled is_verified
  filled_same rec v f =
      let stamped : (rec.verified_at == 0) ≡ false = ground arith in rw (stamped, f) refl

  save_owner_stores :
      (rec : OwnerRecord) (d : Disk)
      → (save_owner sha256_hex now rec d).0 ≡ ok tt
      → (save_owner sha256_hex now rec d).1.file
        ≡ some (record { content = stored (filled sha256_hex now rec); mode = sealed_mode })
  unfolding save_owner atomic_write_owner_file abandon
  save_owner_stores rec d h = ground arith

  load_cong : (d d' : Disk) → d'.file ≡ d.file → load_owner d' ≡ load_owner d
  unfolding load_owner
  load_cong d d' h = rw h refl

  load_stored :
      (d : Disk) (rec : OwnerRecord) (mode : ℕ)
      → d.file ≡ some (record { content = stored rec; mode = mode })
      → (load_owner d ≡ ok (some rec)) × (exists d ≡ true)
  unfolding load_owner exists read_content is_reachable
  load_stored d rec mode h = (rw h refl, rw h refl)

  sealed_permissions :
      (d : Disk) (rec : OwnerRecord)
      → d.file ≡ some (record { content = stored rec; mode = sealed_mode })
      → check_permissions d ≡ ok tt
  unfolding check_permissions is_reachable
  sealed_permissions d rec h = rw h refl

  -- The vault in the file keeps the laws that the service relies on.
  pub file_vault_laws : VaultLaws (file_vault sha256_hex now)
  file_vault_laws = record {
    save_fails = λ rec d e h. load_cong d _ (save_owner_fails rec d e h);
    save_loads = λ rec d v f h. load_stored _ rec sealed_mode (
        save_owner_stores rec d h
        ∙ ap (λ r. some (record { content = stored r; mode = sealed_mode })) (filled_same rec v f));
  }

  -- A save succeeds, with the record in the file at mode 0600, or fails with the file as it was; only
  -- where a file cannot be removed either is a temporary file left behind.
  pub save_owner_atomic :
      (rec : OwnerRecord) (d : Disk)
      → let (result, d') = save_owner sha256_hex now rec d in
        (((result ≡ ok tt)
            × ((d'.file
                  ≡ some
                      (record { content = stored (filled sha256_hex now rec); mode = sealed_mode }))
                × (check_permissions d' ≡ ok tt)))
          ⊎ ((e : GoError Error) × (result ≡ err e) × (d'.file ≡ d.file)))
        × (d.faults.remove ≡ false → d'.temporaries ≡ d.temporaries)
  unfolding save_owner atomic_write_owner_file abandon
  save_owner_atomic rec d = (
    elim (Result-cases (save_owner sha256_hex now rec d).0) [
      | inl (e, failure) ↦ inr (e, failure, save_owner_fails rec d e failure)
      | inr (u, success) ↦
          let stored_file = save_owner_stores rec d success in
          inl (success, (stored_file, sealed_permissions _ _ stored_file))
    ],
    λ h. ground arith,
  )
