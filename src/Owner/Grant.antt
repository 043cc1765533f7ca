-- ===== src/Owner/Grant.antt =====
-- pkg/owner/domain/grant.go: the manager of admin grants. Within a call `clock i` is the i-th reading
-- of time.Now.
pub mod Frame
pub mod Lockout
pub mod Memory
pub mod Persistent
mod Tests
use orbit_cli.Owner.GrantRecord.{
  Draws, GrantManager, GrantRecord, GrantStore, burned, forget, is_expired, matches, new_grant,
  tried,
}
use orbit_cli.Prelude.Int.{ℤ, pos_or}
use orbit_cli.Prelude.{
  ℕ, zero, suc, ◌+◌, ◌*◌, Bool, true, false, not, ◌&&◌, ◌||◌, List, [], ◌∷◌, Option, none, some,
  length, ltb, leb, ◌==◌, if◌then◌else◌,
}
use orbit_cli.Prelude.Words.{Text, text, same, has_byte, is_empty}
use orbit_cli.Prelude.Dict.{Dict, lookup, delete, put}
use orbit_cli.Prelude.Result.{Result, ok, err}
use orbit_cli.Owner.Code.{normalize, clean_code, generate_8_digit_code, hash_grant_code}
use orbit_cli.Owner.Errors.{
  Error, grant_not_found, grant_expired, grant_already_used, grant_max_attempts, invalid_grant_code,
  email_empty, invalid_email, code_empty, code_length, rand_failed,
}

module _ {S : Type 0} (methods : GrantStore S) (sha256_hex : Text → Text) where
  open methods use {save_grant, get_grant, mark_used, list_active_grants}

  -- m.grants[normEmail] = rec, unless saving failed
  register :
      Text → Result Error GrantRecord → GrantManager S → Result Error GrantRecord × GrantManager S
  register email (err e) m = (err e, m)
  register email (ok rec) m = (ok rec, record m { grants = put email rec m.grants })

  -- the end of CreateGrant and of RegisterGrantWithCode, under the lock
  unfoldable pub store_grant :
      (ℕ → ℕ) → GrantRecord → GrantManager S → Result Error GrantRecord × GrantManager S
  unfolding register
  store_grant clock rec m = elim m.store [
    | none ↦ register rec.email (ok rec) m
    | some s ↦
        let (saved, s') = save_grant clock rec s in
        register rec.email saved (record m { store = some s' })
  ]

  with_code :
      Text
      → Result Error GrantRecord × GrantManager S
      → Result Error (GrantRecord × Text) × GrantManager S
  with_code code (err e, m) = (err e, m)
  with_code code (ok rec, m) = (ok (rec, code), m)

  create_drawn :
      (ℕ → ℕ)
      → Option Text
      → Option Text
      → Option Text
      → Text
      → Text
      → Text
      → ℤ
      → GrantManager S
      → Result Error (GrantRecord × Text) × GrantManager S
  unfolding store_grant with_code new_grant
  create_drawn clock (some code) (some id) (some salt) email role created_by ttl m =
      with_code code (
        store_grant (λ i. clock (i + 1))
          (new_grant sha256_hex (clock 0) id salt code email role created_by ttl) m)
  create_drawn clock _ _ _ email role created_by ttl m = (err rand_failed, m)

  -- (*GrantManager).CreateGrant
  unfoldable pub create_grant :
      (ℕ → ℕ)
      → Draws
      → Text
      → Text
      → Text
      → ℤ
      → GrantManager S
      → Result Error (GrantRecord × Text) × GrantManager S
  unfolding create_drawn
  create_grant clock draws email role created_by ttl m =
      let norm_email = normalize email in
      if is_empty norm_email
      then (err email_empty, m)
      else if not (has_byte b'@' norm_email) || not (has_byte b'.' norm_email)
      then (err invalid_email, m)
      else create_drawn clock (generate_8_digit_code draws.code_number) draws.grant_id draws.salt
          norm_email role created_by ttl m

  register_drawn :
      (ℕ → ℕ)
      → Option Text
      → Option Text
      → Text
      → Text
      → Text
      → Text
      → ℤ
      → GrantManager S
      → Result Error GrantRecord × GrantManager S
  unfolding store_grant new_grant
  register_drawn clock (some id) (some salt) code email role created_by ttl m =
      store_grant (λ i. clock (i + 1))
        (new_grant sha256_hex (clock 0) id salt code email role created_by ttl) m
  register_drawn clock _ _ code email role created_by ttl m = (err rand_failed, m)

  -- (*GrantManager).RegisterGrantWithCode
  unfoldable pub register_grant_with_code :
      (ℕ → ℕ)
      → Draws
      → Text
      → Text
      → Text
      → Text
      → ℤ
      → GrantManager S
      → Result Error GrantRecord × GrantManager S
  unfolding register_drawn
  register_grant_with_code clock draws email role code created_by ttl m =
      let norm_email = normalize email in
      let clean = clean_code code in
      if is_empty norm_email
      then (err email_empty, m)
      else if length clean == 8
      then register_drawn clock draws.grant_id draws.salt clean norm_email role created_by ttl m
      else (err code_length, m)

  -- VerifyGrant on the record that is found in memory
  unfoldable pub check_memory :
      (ℕ → ℕ)
      → Text
      → Text
      → Option GrantRecord
      → GrantManager S
      → Result Error GrantRecord × GrantManager S
  check_memory clock email clean none m = (err grant_not_found, m)
  check_memory clock email clean (some rec) m =
      if rec.used
      then (err grant_already_used, m)
      else if is_expired (clock 0) rec
      then (err grant_expired, forget email m)
      else if matches sha256_hex clean rec
      then (
        ok (burned (clock 1) (tried rec)),
        record m { grants = put email (burned (clock 1) (tried rec)) m.grants },
      )
      else if leb rec.max_attempts (rec.attempts + 1)
      then (err grant_max_attempts, forget email m)
      else (err invalid_grant_code, record m { grants = put email (tried rec) m.grants })

  -- the end of VerifyGrant, after the store has marked the grant
  pub finish_store :
      ℕ
      → Text
      → GrantRecord
      → Result Error (Unit {0}) × S
      → GrantManager S
      → Result Error GrantRecord × GrantManager S
  finish_store now email rec (err e, s) m = (err e, record m { store = some s })
  finish_store now email rec (ok _, s) m =
      (ok (burned now (tried rec)), forget email (record m { store = some s }))

  -- VerifyGrant on what the store has returned: the attempt is counted in the copy only
  unfoldable pub check_store :
      (ℕ → ℕ)
      → Text
      → Text
      → Result Error (Option GrantRecord)
      → S
      → GrantManager S
      → Result Error GrantRecord × GrantManager S
  unfolding finish_store
  check_store clock email clean (err e) s m = (err e, record m { store = some s })
  check_store clock email clean (ok none) s m = (err grant_not_found, record m { store = some s })
  check_store clock email clean (ok (some rec)) s m =
      if rec.used
      then (err grant_already_used, record m { store = some s })
      else if is_expired (clock 1) rec
      then (err grant_expired, forget email (record m { store = some s }))
      else if matches sha256_hex clean rec
      then finish_store (clock 3) email rec (mark_used (clock 2) rec.id s) m
      else if leb rec.max_attempts (rec.attempts + 1)
      then (
        err grant_max_attempts,
        forget email (record m { store = some (mark_used (clock 2) rec.id s).1 }),
      )
      else (err invalid_grant_code, record m { store = some s })

  -- (*GrantManager).VerifyGrant
  unfoldable pub verify_grant :
      (ℕ → ℕ) → Text → Text → GrantManager S → Result Error GrantRecord × GrantManager S
  verify_grant clock email submitted_code m =
      let norm_email = normalize email in
      let clean = clean_code submitted_code in
      if is_empty norm_email
      then (err email_empty, m)
      else if is_empty clean
      then (err code_empty, m)
      else elim m.store [
        | none ↦ check_memory clock norm_email clean (lookup norm_email m.grants) m
        | some s ↦
            let (found, s') = get_grant (clock 0) norm_email [] s in
            check_store clock norm_email clean found s' m
      ]

  found_or_none : Result Error (Option GrantRecord) → Option GrantRecord
  found_or_none (err e) = none
  found_or_none (ok found) = found

  -- (*GrantManager).GetGrant; reading leaves the manager's maps alone
  unfoldable pub get_grant_record :
      (ℕ → ℕ) → Text → GrantManager S → Option GrantRecord × GrantManager S
  unfolding found_or_none
  get_grant_record clock email m = elim m.store [
    | none ↦ (lookup (normalize email) m.grants, m)
    | some s ↦
        let (found, s') = get_grant (clock 0) (normalize email) [] s in
        (found_or_none found, record m { store = some s' })
  ]

  revoke_stored : ℕ → Bool → Option GrantRecord → S → GrantManager S → Bool × GrantManager S
  revoke_stored now deleted none s m = (deleted, record m { store = some s })
  revoke_stored now deleted (some rec) s m =
      (true, record m { store = some (mark_used now rec.id s).1 })

  present : Option GrantRecord → Bool
  present none = false
  present (some rec) = true

  -- (*GrantManager).RevokeGrant
  unfoldable pub revoke_grant : (ℕ → ℕ) → Text → GrantManager S → Bool × GrantManager S
  unfolding revoke_stored found_or_none present
  revoke_grant clock email m =
      let norm_email = normalize email in
      let deleted = present (lookup norm_email m.grants) in
      elim m.store [
        | none ↦ (deleted, forget norm_email m)
        | some s ↦
            let (found, s') = get_grant (clock 0) norm_email [] s in
            revoke_stored (clock 1) deleted (found_or_none found) s' (forget norm_email m)
      ]

  -- the loop of ListActiveGrants over the map; each record reads the clock again
  active_grants : (ℕ → ℕ) → ℕ → Dict GrantRecord → List GrantRecord
  active_grants clock i [] = []
  active_grants clock i ((k, g) ∷ grants) =
      let rest = active_grants clock (i + 1) grants in
      if not g.used && not (is_expired (clock i) g) then g ∷ rest else rest

  -- (*GrantManager).ListActiveGrants
  unfoldable pub list_active :
      (ℕ → ℕ) → GrantManager S → Result Error (List GrantRecord) × GrantManager S
  unfolding active_grants
  list_active clock m = elim m.store [
    | none ↦ (ok (active_grants clock 0 m.grants), m)
    | some s ↦
        let (listed, s') = list_active_grants (clock 0) s in (listed, record m { store = some s' })
  ]

  -- (*GrantManager).Clear
  unfoldable pub clear : GrantManager S → GrantManager S
  clear m = record m { grants = [] }
