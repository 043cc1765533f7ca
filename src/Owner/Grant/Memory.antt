-- ===== src/Owner/Grant/Memory.antt =====
-- What the manager without a store does with a grant: the grant is consumed once, wrong codes
-- purge it, and the grants of other emails stay.
use orbit_cli.Owner.GrantRecord.{
  Draws, GrantManager, GrantRecord, GrantStore, burned, forget, is_expired, matches, new_grant,
  tried,
}
use orbit_cli.Prelude.Int.{ℤ}
use mathlib.Core.Path.{subst}
use orbit_cli.Prelude.{sym}
use orbit_cli.Prelude.{
  ℕ, ◌≤◌, ◌≡◌, Bool, true, false, [], ◌∷◌, Option, none, some, refl, arith, length, ◌||◌, inl, inr,
  Bool-cases, Option-cases,
}
use orbit_cli.Prelude.Words.{Text, same_iff, same_refl, is_empty}
use orbit_cli.Prelude.Dict.{lookup, put, lookup-delete, lookup-put}
use orbit_cli.Prelude.Result.{ok, err}
use orbit_cli.Owner.Code.{normalize, clean_code, generate_8_digit_code, hash_grant_code}
use orbit_cli.Owner.Code.Laws.{clean_code-generate_length}
use orbit_cli.Owner.Errors.{Error, grant_not_found, grant_already_used}
use orbit_cli.Owner.Grant.{create_grant, verify_grant, check_memory, revoke_grant}
use orbit_cli.Owner.Errors.{email_empty}
use orbit_cli.Owner.Errors.{code_empty}
use orbit_cli.Owner.Code.Laws.{hash_grant_code-clean_code}
use orbit_cli.Prelude.{◌↔◌}

-- the record that a verification in memory reads
abbrev pub held : {S : Type 0} → Text → GrantManager S → Option GrantRecord
held email m = lookup (normalize email) m.grants

is_empty-of_length : (s : Text) → length s ≡ 8 → is_empty s ≡ false
is_empty-of_length [] h = absurd (omega arith)
is_empty-of_length (c ∷ s) h = refl

module _ {S : Type 0} (methods : GrantStore S) (sha256_hex : Text → Text) where
  verify_memory :
      (clock : ℕ → ℕ) (email code : Text) (m : GrantManager S)
      → m.store ≡ none
      → is_empty (normalize email) ≡ false
      → is_empty (clean_code code) ≡ false
      → verify_grant methods sha256_hex clock email code m
        ≡ check_memory methods sha256_hex clock (normalize email) (clean_code code) (held email m) m
  unfolding verify_grant
  verify_memory clock email code m h e c = ground arith

  verify_empty :
      (clock : ℕ → ℕ) (email code : Text) (m : GrantManager S)
      → is_empty (normalize email) || is_empty (clean_code code) ≡ true
      → (e : Error) × (verify_grant methods sha256_hex clock email code m ≡ (err e, m))
  unfolding verify_grant
  verify_empty clock email code m h = elim (Bool-cases (is_empty (normalize email))) [
    | inl e ↦ (email_empty, ground arith)
    | inr e ↦ (code_empty, ground arith)
  ]

  verify_grant_sound :
      (clock : ℕ → ℕ) (email code : Text) (m : GrantManager S) {rec : GrantRecord}
      → m.store ≡ none
      → (verify_grant methods sha256_hex clock email code m).0 ≡ ok rec
      → (g : GrantRecord) × (held email m ≡ some g)
        × (g.used ≡ false)
        × (is_expired (clock 0) g ≡ false)
        × (g.code_hash ≡ hash_grant_code sha256_hex (clean_code code) g.salt)
        × (rec ≡ burned (clock 1) (tried g))
  unfolding verify_grant check_memory matches
  verify_grant_sound clock email code m h v = elim (Option-cases (held email m)) [
    | inl absent ↦ absurd (ground arith)
    | inr (g, found) ↦ (
      g,
      found,
      ground arith,
      ground arith,
      ground (arith, same_iff g.code_hash (hash_grant_code sha256_hex (clean_code code) g.salt)),
      ground arith,
    )
  ]

  verify_grant_complete :
      (clock : ℕ → ℕ) (email code : Text) (m : GrantManager S) (g : GrantRecord)
      → m.store ≡ none
      → is_empty (normalize email) ≡ false
      → is_empty (clean_code code) ≡ false
      → held email m ≡ some g
      → g.used ≡ false
      → is_expired (clock 0) g ≡ false
      → g.code_hash ≡ hash_grant_code sha256_hex (clean_code code) g.salt
      → (verify_grant methods sha256_hex clock email code m).0 ≡ ok (burned (clock 1) (tried g))
  unfolding check_memory matches
  verify_grant_complete clock email code m g h e c found unused open_ right =
      rw (verify_memory clock email code m h e c, found)
        (ground (arith, same_iff g.code_hash (hash_grant_code sha256_hex (clean_code code) g.salt)))

  -- In memory, for an email and a code that are not empty, a verification succeeds exactly where a grant
  -- is held for the email that is unused and has not expired, and whose stored hash is the salted hash
  -- of the code; what it returns is the stored record with one attempt more and the mark of its use.
  pub verify_grant_iff :
      (clock : ℕ → ℕ) (email code : Text) (m : GrantManager S) (rec : GrantRecord)
      → m.store ≡ none
      → is_empty (normalize email) ≡ false
      → is_empty (clean_code code) ≡ false
      → ((verify_grant methods sha256_hex clock email code m).0 ≡ ok rec) ↔ (
          (g : GrantRecord) × (held email m ≡ some g)
          × (g.used ≡ false)
          × (is_expired (clock 0) g ≡ false)
          × (g.code_hash ≡ hash_grant_code sha256_hex (clean_code code) g.salt)
          × (rec ≡ burned (clock 1) (tried g)))
  verify_grant_iff clock email code m rec h e c = (
    verify_grant_sound clock email code m h,
    λ w.
        subst (λ r. (verify_grant methods sha256_hex clock email code m).0 ≡ ok r) (sym w.5)
          (verify_grant_complete clock email code m w.0 h e c w.1 w.2 w.3 w.4),
  )

  pub verify_grant_once :
      (clock clock' : ℕ → ℕ) (email code code' : Text) (m : GrantManager S) {rec : GrantRecord}
      → m.store ≡ none
      → is_empty (clean_code code') ≡ false
      → (verify_grant methods sha256_hex clock email code m).0 ≡ ok rec
      → (verify_grant methods sha256_hex clock' email code'
          (verify_grant methods sha256_hex clock email code m).1).0
        ≡ err grant_already_used
  unfolding verify_grant check_memory
  verify_grant_once clock clock' email code code' m h c v = elim (Option-cases (held email m)) [
    | inl absent ↦ absurd (ground arith)
    | inr (g, found) ↦ ground (
      arith,
      same_refl (normalize email),
      lookup-put (normalize email) (normalize email) (burned (clock 1) (tried g)) m.grants,
    )
  ]

  -- what CreateGrant made, where it succeeded in memory
  record Created (clock : ℕ → ℕ) (draws : Draws) (email role created_by : Text) (ttl : ℤ)
      (m : GrantManager S) (rec : GrantRecord) (code : Text) : Type 0 where
    id : Text
    salt : Text
    drawn : generate_8_digit_code draws.code_number ≡ some code
    named : is_empty (normalize email) ≡ false
    made : rec ≡ new_grant sha256_hex (clock 0) id salt code (normalize email) role created_by ttl
    left :
        (create_grant methods sha256_hex clock draws email role created_by ttl m).1
        ≡ record m { grants = put (normalize email) rec m.grants }

  create_grant_lem :
      (clock : ℕ → ℕ) (draws : Draws) (email role created_by : Text) (ttl : ℤ) (m : GrantManager S)
      {rec : GrantRecord} {code : Text}
      → m.store ≡ none
      → (create_grant methods sha256_hex clock draws email role created_by ttl m).0 ≡ ok (rec, code)
      → Created clock draws email role created_by ttl m rec code
  unfolding create_grant
  create_grant_lem clock draws email role created_by ttl m {rec} {code} h v =
      elim (Option-cases draws.grant_id) [
        | inl no_id ↦ absurd (ground arith)
        | inr (id, has_id) ↦ elim (Option-cases draws.salt) [
          | inl no_salt ↦ absurd (ground arith)
          | inr (salt, has_salt) ↦ record {
            id = id;
            salt = salt;
            drawn = ground arith;
            named = ground arith;
            made = ground arith;
            left = ground arith;
          }
        ]
      ]

  -- A grant that CreateGrant has just made is redeemed by the code that it returned, as long as
  -- the grant has not expired: in memory, under every salt and every hash.
  pub verify_grant-create_grant :
      (clock clock' : ℕ → ℕ) (draws : Draws) (email role created_by : Text) (ttl : ℤ)
      (m : GrantManager S) {rec : GrantRecord} {code : Text}
      → m.store ≡ none
      → (create_grant methods sha256_hex clock draws email role created_by ttl m).0 ≡ ok (rec, code)
      → clock' 0 ≤ rec.expires_at
      → (verify_grant methods sha256_hex clock' email code
          (create_grant methods sha256_hex clock draws email role created_by ttl m).1).0
        ≡ ok (burned (clock' 1) (tried rec))
  unfolding is_expired new_grant
  verify_grant-create_grant clock clock' draws email role created_by ttl m {rec} {code} h v before =
      let c = create_grant_lem clock draws email role created_by ttl m h v in
      rw c.left (
        verify_grant_complete clock' email code _ rec h c.named
          (is_empty-of_length _ (clean_code-generate_length draws.code_number code c.drawn))
          (ground (
            arith,
            same_refl (normalize email),
            lookup-put (normalize email) (normalize email) rec m.grants,
          ))
          (rw c.made) (ground arith)
          (rw c.made (sym (hash_grant_code-clean_code sha256_hex code c.salt))))

  -- RevokeGrant in memory, for an email that is not empty, reports whether a grant was held, and
  -- leaves none: a verification for the email with a code that is not empty is then answered with
  -- ErrGrantNotFound.
  pub revoke_grant_lem :
      (clock clock' : ℕ → ℕ) (email code : Text) (m : GrantManager S)
      → m.store ≡ none
      → is_empty (normalize email) ≡ false
      → is_empty (clean_code code) ≡ false
      → let after : Bool × GrantManager S = revoke_grant methods sha256_hex clock email m in
        ((after.0 ≡ true) ↔ ((g : GrantRecord) × (held email m ≡ some g)))
        × ((verify_grant methods sha256_hex clock' email code after.1).0 ≡ err grant_not_found)
  unfolding revoke_grant check_memory
  revoke_grant_lem clock clock' email code m h e c = (
    (
      λ t. elim (Option-cases (held email m)) [
        | inl absent ↦ absurd (ground arith)
        | inr (g, found) ↦ (g, found)
      ],
      λ t. ground (arith, t.1),
    ),
    ground (
      arith,
      same_refl (normalize email),
      lookup-delete (normalize email) (normalize email) m.grants,
      verify_memory clock' email code (forget (normalize email) m) h e c,
    ),
  )
