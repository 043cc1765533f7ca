-- ===== src/Owner/Vault.antt =====
-- pkg/owner/domain/types.go and crypto.go: the owner record and its secret; and the port Vault of
-- pkg/owner/application/ports.go. The zero time is 0.
use orbit_cli.Prelude.{
  ℕ, ◌≡◌, Bool, true, false, not, ◌&&◌, Option, none, some, ◌==◌, if◌then◌else◌, take,
}
use orbit_cli.Prelude.Words.{Text, is_empty}
use orbit_cli.Prelude.Result.{Result, ok, err}
use orbit_cli.Clierr.{GoError}
use orbit_cli.Owner.Errors.{Error}

pub record OwnerRecord : Type 0 where
  pub email : Text
  pub display_name : Text
  pub verified_at : ℕ
  pub root_signing_secret : Text
  pub key_fingerprint : Text

-- (*OwnerRecord).IsVerified, on a record that is not nil
unfoldable pub is_verified : OwnerRecord → Bool
is_verified rec =
    not (is_empty rec.email)
    && (not (rec.verified_at == 0) && not (is_empty rec.root_signing_secret))

-- GenerateMasterSecret: the argument is the hexadecimal print of what crypto/rand gives, or none
-- where it fails
unfoldable pub generate_master_secret : Option Text → Option Text
generate_master_secret drawn = drawn

-- ComputeFingerprint: the print of the first 16 bytes of the hash
unfoldable pub compute_fingerprint : (Text → Text) → Text → Text
compute_fingerprint sha256_hex secret = take 32 (sha256_hex secret)

-- The interface Vault: reading leaves the vault as it is.
pub record Vault (V : Type 0) : Type 0 where
  pub load : V → Result (GoError Error) (Option OwnerRecord)
  pub save : OwnerRecord → V → Result (GoError Error) (Unit {0}) × V
  pub check_permissions : V → Result (GoError Error) (Unit {0})
  pub exists : V → Bool
  pub file_path : V → Text

-- What the service relies on: a save that fails leaves what is loaded as it was, and one that
-- succeeds on a verified record with a fingerprint gives that record back.
pub record VaultLaws {V : Type 0} (vault : Vault V) : Type 0 where
  pub save_fails :
      (rec : OwnerRecord) (v : V) (e : GoError Error)
      → (vault.save rec v).0 ≡ err e
      → vault.load (vault.save rec v).1 ≡ vault.load v
  pub save_loads :
      (rec : OwnerRecord) (v : V)
      → is_verified rec ≡ true
      → is_empty rec.key_fingerprint ≡ false
      → (vault.save rec v).0 ≡ ok tt
      → (vault.load (vault.save rec v).1 ≡ ok (some rec))
        × (vault.exists (vault.save rec v).1 ≡ true)

-- `err != nil || rec == nil || !rec.IsVerified()` is the case none
unfoldable pub verified_record : Result (GoError Error) (Option OwnerRecord) → Option OwnerRecord
unfolding is_verified
verified_record (err e) = none
verified_record (ok none) = none
verified_record (ok (some rec)) = if is_verified rec then some rec else none
