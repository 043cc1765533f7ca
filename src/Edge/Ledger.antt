-- ===== src/Edge/Ledger.antt =====
-- pkg/onboard/infrastructure/server/server.go: the handlers that create and look up grants, on the manager of
-- pkg/owner/domain, and who may call them.
use orbit_cli.Prelude.{
  ℕ, ◌+◌, suc, ◌*◌, ◌-◌, ◌%◌, Bool, true, false, not, ◌||◌, Option, none, some, if◌then◌else◌,
}
use orbit_cli.Prelude.Int.{ℤ, pos, negsuc, pos_or}
use orbit_cli.Prelude.Words.{Text, text, same, is_empty, trim_space, trim_prefix}
use orbit_cli.Prelude.Result.{Result, ok, err}
use orbit_cli.Owner.Code.{format_8_digit_code}
use orbit_cli.Owner.Errors.{Error}
use orbit_cli.Owner.GrantRecord.{GrantRecord, GrantStore, GrantManager, default_grant_ttl}
use orbit_cli.Owner.GrantRecord as Granted
use orbit_cli.Owner.Grant.{create_grant, register_grant_with_code, get_grant_record}
use orbit_cli.Invites.Secret.{signed}
use orbit_cli.Invites.Token.{Codec, TokenError, InviteClaims, validate_token}
use orbit_cli.Edge.{Config, Edge, Reply, problem, grant_created, grant_found, ledger}

pub record GrantBody : Type 0 where
  pub email : Text
  pub role : Text
  pub code : Text
  pub ttl_seconds : ℤ

is_valid : Result TokenError InviteClaims → Bool
is_valid (err x) = false
is_valid (ok claims) = true

-- the master secret, or any valid invite token
unfoldable pub is_authorized : Config → Codec → ℕ → Text → Bool
unfolding is_valid
is_authorized config codec now header =
    let token = trim_prefix header (text "Bearer ") in
    same (trim_space token) config.secret || is_valid (validate_token codec now token config.secret)

-- `time.Duration(req.TTLSeconds) * time.Second`, in int64
scaled : ℤ → ℤ
unfolding signed
scaled (pos n) = signed ((n * 1000000000) % 18446744073709551616)
scaled (negsuc n) =
    signed
      ((18446744073709551616 - (suc n * 1000000000) % 18446744073709551616) % 18446744073709551616)

pub grant_ttl : ℤ → ℤ
unfolding scaled
grant_ttl seconds = pos (pos_or default_grant_ttl (scaled seconds))

module _ {L G C P A : Type 0} (config : Config) (grant_store : GrantStore G)
    (sha256_hex : Text → Text) (codec : Codec) where
  unfoldable pub registered :
      Text → Result Error GrantRecord × GrantManager G → Edge L G C P A → Reply A × Edge L G C P A
  registered code (err x, m) e = (problem 400, record e { grants = m })
  registered code (ok rec, m) e =
      (grant_created rec (format_8_digit_code code), record e { grants = m })

  unfoldable pub created :
      Result Error (GrantRecord × Text) × GrantManager G → Edge L G C P A → Reply A × Edge L G C P A
  created (err x, m) e = (problem 400, record e { grants = m })
  created (ok (rec, code), m) e = (grant_created rec code, record e { grants = m })

  -- handleAdminGrantCreate
  unfoldable pub handle_admin_grant_create :
      (ℕ → ℕ) → Granted.Draws → Text → Option GrantBody → Edge L G C P A → Reply A × Edge L G C P A
  unfolding is_authorized grant_ttl registered created
  handle_admin_grant_create clock draws header body e =
      if not (is_authorized config codec (clock 0) header) then (problem 401, e) else elim body [
        | none ↦ (problem 400, e)
        | some req ↦
            if is_empty req.code
            then created
                (create_grant grant_store sha256_hex (λ i. clock (i + 1)) draws req.email req.role
                  (text "remote-owner") (grant_ttl req.ttl_seconds) e.grants)
                e
            else registered req.code
                (register_grant_with_code grant_store sha256_hex (λ i. clock (i + 1)) draws
                  req.email req.role req.code (text "remote-owner") (grant_ttl req.ttl_seconds)
                  e.grants)
                e
      ]

  unfoldable pub found :
      Option GrantRecord × GrantManager G → Edge L G C P A → Reply A × Edge L G C P A
  found (none, m) e = (problem 404, record e { grants = m })
  found (some rec, m) e = (grant_found rec, record e { grants = m })

  -- handleAdminGrantList for an email; without one it answers a fixed text
  unfoldable pub handle_admin_grant_list :
      (ℕ → ℕ) → Text → Text → Edge L G C P A → Reply A × Edge L G C P A
  unfolding is_authorized found
  handle_admin_grant_list clock header email e =
      if not (is_authorized config codec (clock 0) header)
      then (problem 401, e)
      else if is_empty email
      then (ledger, e)
      else found (get_grant_record grant_store sha256_hex (λ i. clock (i + 1)) email e.grants) e
