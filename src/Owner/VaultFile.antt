-- ===== src/Owner/VaultFile.antt =====
-- pkg/owner/infrastructure/filestore/store.go and vault.go: the owner record in a file of mode 0600
-- that is replaced by a rename. Which calls of the file system fail is a state of the disk.
pub mod Saving
use orbit_cli.Prelude.{
  ℕ, ◌+◌, ◌%◌, ◌≡◌, Bool, true, false, not, ◌||◌, Option, none, some, ◌==◌, if◌then◌else◌, arith,
  refl, inl, inr, ap, ◌∙◌, ◌⊎◌,
}
use orbit_cli.Prelude.Words.{Text, text, is_empty, trim_space}
use orbit_cli.Prelude.Result.{Result, ok, err, Result-cases}
use orbit_cli.Clierr.{GoError, plain}
use orbit_cli.Owner.Errors.{
  Error, owner_not_found, invalid_owner_record, insecure_permissions, io_failed, parse_failed,
}
use orbit_cli.Owner.Vault.{
  OwnerRecord, Vault, VaultLaws, is_verified, verified_record, compute_fingerprint,
}
use orbit_cli.Prelude.{◌++◌}
use orbit_cli.Prelude.{◌*◌}

-- What the path holds: stat fails on it, it cannot be read, it is blank, it is no JSON of a record, or
-- it is the JSON of a record.
pub data Content : Type 0 where
  unreachable unreadable blank corrupt : Content
  stored : OwnerRecord → Content

pub record SealedFile : Type 0 where
  pub content : Content
  pub mode : ℕ

-- Which calls fail on this disk.
pub record Faults : Type 0 where
  pub mkdir : Bool
  pub create_temp : Bool
  pub chmod : Bool
  pub write : Bool
  pub close : Bool
  pub rename : Bool
  pub remove : Bool

-- `temporaries` counts the files .tmp-owner-* that are left behind.
pub record Disk : Type 0 where
  pub path : Text
  pub file : Option SealedFile
  pub temporaries : ℕ
  pub faults : Faults

-- octal 0600
abbrev pub sealed_mode : ℕ
sealed_mode = 6 * 8 * 8

abbrev failing : Disk → Result (GoError Error) (Unit {0}) × Disk
failing d = (err (plain io_failed), d)

-- a step fails after the temporary file was made: `_ = os.Remove(tmpPath)`
unfoldable pub abandon : Disk → Result (GoError Error) (Unit {0}) × Disk
abandon d = failing (if d.faults.remove then record d { temporaries = d.temporaries + 1 } else d)

-- atomicWriteOwnerFile
unfoldable pub atomic_write_owner_file :
    Content → ℕ → Disk → Result (GoError Error) (Unit {0}) × Disk
unfolding abandon
atomic_write_owner_file content perm d =
    if d.faults.mkdir
    then failing d
    else if d.faults.create_temp
    then failing d
    else if d.faults.chmod
    then abandon d
    else if d.faults.write
    then abandon d
    else if d.faults.close
    then abandon d
    else if d.faults.rename
    then abandon d
    else (ok tt, record d { file = some (record { content = content; mode = perm }) })

-- DefaultStorePath: the two arguments are $ORBIT_OWNER_STORE and the home directory, empty where
-- there is none
unfoldable pub default_store_path : Text → Text → Text
default_store_path from_env home =
    if not (is_empty from_env)
    then from_env
    else if not (is_empty home)
    then home ++ text "/.config/orbit/owner.json"
    else text "/etc/orbit/owner.json"

-- NewStore: the path of the store
unfoldable pub new_store : Text → Text → Text → Text
unfolding default_store_path
new_store custom from_env home =
    if is_empty custom then default_store_path from_env home else custom

module _ (sha256_hex : Text → Text) (now : ℕ) where
  -- what SaveOwner fills in
  unfoldable pub filled : OwnerRecord → OwnerRecord
  filled rec = record rec {
    verified_at = if rec.verified_at == 0 then now else rec.verified_at;
    key_fingerprint =
        if is_empty rec.key_fingerprint
        then compute_fingerprint sha256_hex rec.root_signing_secret
        else rec.key_fingerprint;
  }

  -- (*Store).SaveOwner, on a record that is not nil
  unfoldable pub save_owner : OwnerRecord → Disk → Result (GoError Error) (Unit {0}) × Disk
  unfolding filled atomic_write_owner_file
  save_owner rec d =
      if is_empty (trim_space rec.email) || is_empty (trim_space rec.root_signing_secret)
      then (err (plain invalid_owner_record), d)
      else if d.faults.mkdir
      then failing d
      else atomic_write_owner_file (stored (filled rec)) sealed_mode d

unfoldable pub read_content : Content → Result (GoError Error) (Option OwnerRecord)
read_content unreachable = err (plain io_failed)
read_content unreadable = err (plain io_failed)
read_content blank = err (plain owner_not_found)
read_content corrupt = err (plain parse_failed)
read_content (stored rec) = ok (some rec)

-- (*Store).LoadOwner
unfoldable pub load_owner : Disk → Result (GoError Error) (Option OwnerRecord)
unfolding read_content
load_owner d = elim d.file [ none ↦ err (plain owner_not_found) | some f ↦ read_content f.content ]

unfoldable pub is_reachable : Content → Bool
is_reachable unreachable = false
is_reachable unreadable = true
is_reachable blank = true
is_reachable corrupt = true
is_reachable (stored rec) = true

-- (*Store).Exists
unfoldable pub exists : Disk → Bool
unfolding is_reachable
exists d = elim d.file [ none ↦ false | some f ↦ is_reachable f.content ]

-- (*Store).IsVerified
unfoldable pub store_is_verified : Disk → Bool
unfolding load_owner verified_record
store_is_verified d = elim (verified_record (load_owner d)) [ none ↦ false | some rec ↦ true ]

-- (*Store).CheckPermissions: `perm & 0077 != 0`
unfoldable pub check_permissions : Disk → Result (GoError Error) (Unit {0})
unfolding is_reachable
check_permissions d = elim d.file [
  | none ↦ err (plain owner_not_found)
  | some f ↦
      if not (is_reachable f.content)
      then err (plain io_failed)
      else if f.mode % 64 == 0
      then ok tt
      else err (plain insecure_permissions)
]

module _ (sha256_hex : Text → Text) (now : ℕ) where
  -- the type Vault of vault.go
  abbrev pub file_vault : Vault Disk
  file_vault = record {
    load = load_owner;
    save = save_owner sha256_hex now;
    check_permissions = check_permissions;
    exists = exists;
    file_path = λ d. d.path;
  }
