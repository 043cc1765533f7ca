-- ===== src/Owner/ChallengeRecord.antt =====
-- pkg/owner/domain/challenge.go: the record of a challenge, the store behind the manager, and what the
-- manager does to one record.
use orbit_cli.Prelude.Int.{ℤ, pos_or}
use orbit_cli.Prelude.{ℕ, ◌+◌, ◌*◌, Bool, false, [], Option, none, some, ltb, ◌==◌, if◌then◌else◌}
use orbit_cli.Prelude.Words.{Text, same}
use orbit_cli.Prelude.Dict.{Dict, delete}
use orbit_cli.Prelude.Result.{Result}
use orbit_cli.Owner.Code.{hash_code}
use orbit_cli.Owner.Errors.{Error}

-- 10 minutes in nanoseconds
abbrev pub default_challenge_ttl : ℕ
default_challenge_ttl = 10 * 60 * 1000000000

abbrev pub default_max_attempts : ℕ
default_max_attempts = 3

pub record Challenge : Type 0 where
  pub id : Text
  pub email : Text
  pub code_hash : Text
  pub salt : Text
  pub attempts : ℕ
  pub max_attempts : ℕ
  pub verified : Bool
  pub verified_at : Option ℕ
  pub created_at : ℕ
  pub expires_at : ℕ

unfoldable pub is_expired : ℕ → Challenge → Bool
is_expired now c = if c.expires_at == 0 then false else ltb c.expires_at now

-- The interface ChallengeStore: a method reads the clock or the time that it is given.
pub record ChallengeStore (S : Type 0) : Type 0 where
  pub save_challenge : (ℕ → ℕ) → Challenge → S → Result Error Challenge × S
  pub get_active_challenge : ℕ → Text → S → Result Error (Option Challenge) × S
  pub increment_attempts : Text → S → Result Error ℕ × S
  pub mark_verified : ℕ → Text → S → Result Error (Unit {0}) × S
  pub prune_expired : ℕ → S → Result Error (Unit {0}) × S

-- `store` is none for the manager that works in memory.
pub record ChallengeManager (S : Type 0) : Type 0 where
  pub challenges : Dict Challenge
  pub store : Option S

-- what crypto/rand gives to one call, as in the module Owner.Grant
pub record Draws : Type 0 where
  pub code_number : Option ℕ
  pub salt : Option Text
  pub challenge_id : Option Text

unfoldable pub new_challenge_manager : {S : Type 0} → ChallengeManager S
new_challenge_manager = record { challenges = []; store = none }

pub new_persistent_challenge_manager : {S : Type 0} → S → ChallengeManager S
new_persistent_challenge_manager store = record { challenges = []; store = some store }

-- (*ChallengeManager).WithStore
pub with_store : {S : Type 0} → S → ChallengeManager S → ChallengeManager S
with_store store m = record m { store = some store }

-- ch.Attempts++
abbrev pub tried : Challenge → Challenge
tried c = record c { attempts = c.attempts + 1 }

abbrev pub forget : {S : Type 0} → Text → ChallengeManager S → ChallengeManager S
forget email m = record m { challenges = delete email m.challenges }

module _ (sha256_hex : Text → Text) where
  unfoldable pub new_challenge : ℕ → Text → Text → Text → Text → ℤ → Challenge
  new_challenge now id salt code email ttl = record {
    id = id;
    email = email;
    code_hash = hash_code sha256_hex code salt;
    salt = salt;
    attempts = 0;
    max_attempts = default_max_attempts;
    verified = false;
    verified_at = none;
    created_at = now;
    expires_at = now + pos_or default_challenge_ttl ttl;
  }

  -- subtle.ConstantTimeCompare([]byte(ch.CodeHash), []byte(expectedHash)) == 1
  unfoldable pub matches : Text → Challenge → Bool
  matches code c = same c.code_hash (hash_code sha256_hex code c.salt)
