-- ===== src/Owner/Grant/Frame.antt =====
-- The entries of the manager's map that a verification leaves alone.
use orbit_cli.Owner.GrantRecord.{GrantManager, GrantRecord, GrantStore, burned, tried}
use orbit_cli.Prelude.{ℕ, ◌≡◌, ◌≢◌, [], Option, none, some, refl, arith, inl, inr, Option-cases}
use orbit_cli.Prelude.Words.{Text, same_iff}
use orbit_cli.Prelude.Dict.{lookup, lookup-delete, lookup-put}
use orbit_cli.Prelude.Result.{Result, ok, err}
use orbit_cli.Owner.Code.{normalize, clean_code}
use orbit_cli.Owner.Errors.{Error}
use orbit_cli.Owner.Grant.{verify_grant, check_memory}
use orbit_cli.Owner.Grant.{check_store}
use orbit_cli.Owner.Grant.{finish_store}
use orbit_cli.Owner.Grant.Memory.{held}

module _ {S : Type 0} (methods : GrantStore S) (sha256_hex : Text → Text) where
  check_memory_frame :
      (clock : ℕ → ℕ) (email clean other : Text) (found : Option GrantRecord) (m : GrantManager S)
      → email ≢ other
      → lookup other (check_memory methods sha256_hex clock email clean found m).1.grants
        ≡ lookup other m.grants
  unfolding check_memory
  check_memory_frame clock email clean other none m apart = refl
  check_memory_frame clock email clean other (some g) m apart = ground (
    arith,
    same_iff email other,
    lookup-delete email other m.grants,
    lookup-put email other (tried g) m.grants,
    lookup-put email other (burned (clock 1) (tried g)) m.grants,
  )

  finish_store_frame :
      (now : ℕ) (email other : Text) (g : GrantRecord) (r : Result Error (Unit {0}) × S)
      (m : GrantManager S)
      → email ≢ other
      → lookup other (finish_store methods sha256_hex now email g r m).1.grants
        ≡ lookup other m.grants
  unfolding finish_store
  finish_store_frame now email other g (err e, s) m apart = refl
  finish_store_frame now email other g (ok u, s) m apart =
      ground (arith, same_iff email other, lookup-delete email other m.grants)

  check_store_frame :
      (clock : ℕ → ℕ) (email clean other : Text) (found : Result Error (Option GrantRecord)) (s : S)
      (m : GrantManager S)
      → email ≢ other
      → lookup other (check_store methods sha256_hex clock email clean found s m).1.grants
        ≡ lookup other m.grants
  unfolding check_store
  check_store_frame clock email clean other (err e) s m apart = refl
  check_store_frame clock email clean other (ok none) s m apart = refl
  check_store_frame clock email clean other (ok (some g)) s m apart = ground (
    arith,
    same_iff email other,
    lookup-delete email other m.grants,
    finish_store_frame (clock 3) email other g (methods.mark_used (clock 2) g.id s) m,
  )

  -- Whatever the outcome, with a store or without, a verification changes no entry of the map but
  -- the one of its email.
  pub verify_grant_frame :
      (clock : ℕ → ℕ) (email code other : Text) (m : GrantManager S)
      → normalize email ≢ other
      → lookup other (verify_grant methods sha256_hex clock email code m).1.grants
        ≡ lookup other m.grants
  unfolding verify_grant
  verify_grant_frame clock email code other m apart = elim (Option-cases m.store) [
    | inl h ↦ ground (
      arith,
      check_memory_frame clock (normalize email) (clean_code code) other (held email m) m apart,
    )
    | inr (s, h) ↦ ground (
      arith,
      check_store_frame clock (normalize email) (clean_code code) other
          (methods.get_grant (clock 0) (normalize email) [] s).0
          (methods.get_grant (clock 0) (normalize email) [] s).1 m apart,
    )
  ]
