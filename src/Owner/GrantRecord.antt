-- ===== src/Owner/GrantRecord.antt =====
-- pkg/owner/domain/grant.go: the record of an admin grant, the store behind the manager, and what the
-- manager does to one record. A time is the number of nanoseconds since Go's zero time, so IsZero is
-- `== 0`.
use orbit_cli.Prelude.Int.{ℤ, pos_or}
use orbit_cli.Prelude.{
  ℕ, ◌+◌, ◌*◌, Bool, true, false, List, [], Option, none, some, ltb, ◌==◌, if◌then◌else◌,
}
use orbit_cli.Prelude.Words.{Text, text, same, is_empty}
use orbit_cli.Prelude.Dict.{Dict, delete}
use orbit_cli.Prelude.Result.{Result}
use orbit_cli.Owner.Code.{hash_grant_code}
use orbit_cli.Owner.Errors.{Error}

-- 15 minutes in nanoseconds
abbrev pub default_grant_ttl : ℕ
default_grant_ttl = 15 * 60 * 1000000000

abbrev pub default_grant_role : Text
default_grant_role = text "admin"

abbrev pub default_grant_max_attempts : ℕ
default_grant_max_attempts = 3

pub record GrantRecord : Type 0 where
  pub id : Text
  pub email : Text
  pub code_hash : Text
  pub salt : Text
  pub role : Text
  pub issued_at : ℕ
  pub expires_at : ℕ
  pub created_by : Text
  pub attempts : ℕ
  pub max_attempts : ℕ
  pub used : Bool
  pub used_at : Option ℕ

unfoldable pub is_expired : ℕ → GrantRecord → Bool
is_expired now g = if g.expires_at == 0 then false else ltb g.expires_at now

-- The interface GrantStore: each method reads the clock that it is given, and returns the store
-- that it leaves beside its result. `save_grant` may complete the record that it is given.
pub record GrantStore (S : Type 0) : Type 0 where
  pub save_grant : (ℕ → ℕ) → GrantRecord → S → Result Error GrantRecord × S
  pub get_grant : ℕ → Text → Text → S → Result Error (Option GrantRecord) × S
  pub mark_used : ℕ → Text → S → Result Error (Unit {0}) × S
  pub list_active_grants : ℕ → S → Result Error (List GrantRecord) × S

-- `store` is none for the manager that works in memory.
pub record GrantManager (S : Type 0) : Type 0 where
  pub grants : Dict GrantRecord
  pub store : Option S

-- what crypto/rand gives to one call: the number of the code, and the texts of the ID and of
-- the salt after hex.EncodeToString; none where the reader fails
pub record Draws : Type 0 where
  pub code_number : Option ℕ
  pub grant_id : Option Text
  pub salt : Option Text

abbrev pub role_or_default : Text → Text
role_or_default role = if is_empty role then default_grant_role else role

unfoldable pub new_grant_manager : {S : Type 0} → GrantManager S
new_grant_manager = record { grants = []; store = none }

pub new_persistent_grant_manager : {S : Type 0} → S → GrantManager S
new_persistent_grant_manager store = record { grants = []; store = some store }

-- (*GrantManager).WithStore
pub with_store : {S : Type 0} → S → GrantManager S → GrantManager S
with_store store m = record m { store = some store }

-- rec.Attempts++
abbrev pub tried : GrantRecord → GrantRecord
tried rec = record rec { attempts = rec.attempts + 1 }

-- rec.Used = true; rec.UsedAt = &now
abbrev pub burned : ℕ → GrantRecord → GrantRecord
burned now rec = record rec { used = true; used_at = some now }

abbrev pub forget : {S : Type 0} → Text → GrantManager S → GrantManager S
forget email m = record m { grants = delete email m.grants }

module _ (sha256_hex : Text → Text) where
  -- the record that both make; the code is given as it is hashed
  unfoldable pub new_grant : ℕ → Text → Text → Text → Text → Text → Text → ℤ → GrantRecord
  new_grant now id salt code email role created_by ttl = record {
    id = id;
    email = email;
    code_hash = hash_grant_code sha256_hex code salt;
    salt = salt;
    role = role_or_default role;
    issued_at = now;
    expires_at = now + pos_or default_grant_ttl ttl;
    created_by = created_by;
    attempts = 0;
    max_attempts = default_grant_max_attempts;
    used = false;
    used_at = none;
  }

  -- subtle.ConstantTimeCompare([]byte(rec.CodeHash), []byte(expectedHash)) == 1
  unfoldable pub matches : Text → GrantRecord → Bool
  matches clean rec = same rec.code_hash (hash_grant_code sha256_hex clean rec.salt)
