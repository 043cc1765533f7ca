-- ===== src/Edge/LedgerFrames.antt =====
-- pkg/onboard/infrastructure/server/server.go: the handlers that create and look up grants leave the cache of
-- claims.
use orbit_cli.Prelude.{ℕ, ◌+◌, Option, none, some, arith, refl, Bool-cases, inl, inr}
use orbit_cli.Prelude.Words.{Text, text, is_empty}
use orbit_cli.Prelude.Result.{Result, ok, err}
use orbit_cli.Invites.Token.{Codec}
use orbit_cli.Owner.Errors.{Error}
use orbit_cli.Owner.Grant.{create_grant, register_grant_with_code, get_grant_record}
use orbit_cli.Owner.GrantRecord.{GrantRecord, GrantStore, GrantManager}
use orbit_cli.Owner.GrantRecord as Granted
use orbit_cli.Edge.{Config, Edge}
use orbit_cli.Edge.Ledger.{
  grant_ttl, GrantBody, is_authorized, registered, created, found, handle_admin_grant_create,
  handle_admin_grant_list,
}
use orbit_cli.Edge.Frames.{Same}

module _ {L G C P A : Type 0} (config : Config) (grant_store : GrantStore G)
    (sha256_hex : Text → Text) (codec : Codec) where
  registered-Same :
      (code : Text) (r : Result Error GrantRecord × GrantManager G) (e : Edge L G C P A)
      → Same e (registered config grant_store sha256_hex codec code r e)
  unfolding registered
  registered-Same code (err x, m) e = refl
  registered-Same code (ok rec, m) e = refl

  created-Same :
      (r : Result Error (GrantRecord × Text) × GrantManager G) (e : Edge L G C P A)
      → Same e (created config grant_store sha256_hex codec r e)
  unfolding created
  created-Same (err x, m) e = refl
  created-Same (ok (rec, code), m) e = refl

  found-Same :
      (r : Option GrantRecord × GrantManager G) (e : Edge L G C P A)
      → Same e (found config grant_store sha256_hex codec r e)
  unfolding found
  found-Same (none, m) e = refl
  found-Same (some rec, m) e = refl

  pub handle_admin_grant_create-Same :
      (clock : ℕ → ℕ) (draws : Granted.Draws) (header : Text) (body : Option GrantBody)
      (e : Edge L G C P A)
      → Same e
          (handle_admin_grant_create config grant_store sha256_hex codec clock draws header body e)
  unfolding handle_admin_grant_create
  handle_admin_grant_create-Same clock draws header none e =
      elim (Bool-cases (is_authorized config codec (clock 0) header)) [
        | inr stranger ↦ ground (arith, stranger)
        | inl known ↦ ground (arith, known)
      ]
  handle_admin_grant_create-Same clock draws header (some req) e =
      elim (Bool-cases (is_authorized config codec (clock 0) header)) [
        | inr stranger ↦ ground (arith, stranger)
        | inl known ↦ elim (Bool-cases (is_empty req.code)) [
          | inl drawn ↦ ground (
            arith,
            known,
            drawn,
            created-Same
                (create_grant grant_store sha256_hex (λ i. clock (i + 1)) draws req.email req.role
                  (text "remote-owner") (grant_ttl req.ttl_seconds) e.grants)
                e,
          )
          | inr given ↦ ground (
            arith,
            known,
            given,
            registered-Same req.code
                (register_grant_with_code grant_store sha256_hex (λ i. clock (i + 1)) draws
                  req.email req.role req.code (text "remote-owner") (grant_ttl req.ttl_seconds)
                  e.grants)
                e,
          )
        ]
      ]

  pub handle_admin_grant_list-Same :
      (clock : ℕ → ℕ) (header email : Text) (e : Edge L G C P A)
      → Same e (handle_admin_grant_list config grant_store sha256_hex codec clock header email e)
  unfolding handle_admin_grant_list
  handle_admin_grant_list-Same clock header email e =
      elim (Bool-cases (is_authorized config codec (clock 0) header)) [
        | inr stranger ↦ ground (arith, stranger)
        | inl known ↦ elim (Bool-cases (is_empty email)) [
          | inl blank ↦ ground (arith, known, blank)
          | inr named ↦ ground (
            arith,
            known,
            named,
            found-Same (get_grant_record grant_store sha256_hex (λ i. clock (i + 1)) email e.grants)
                e,
          )
        ]
      ]
