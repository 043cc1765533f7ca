-- ===== src/Invites/Service.antt =====
-- pkg/invite/application/service.go: Issue and Create. `M` is the state of the mailer; crypto/rand and the making
-- of a TOTP secret are parameters.
use orbit_cli.Prelude.{
  ℕ, Bool, true, false, not, ◌&&◌, ◌||◌, [], ◌∷◌, Option, none, some, if◌then◌else◌,
}
use orbit_cli.Prelude.Int.{ℤ}
use orbit_cli.Prelude.Words.{Text, text, same, is_empty, trim_space, has_byte}
use orbit_cli.Prelude.Dict.{Dict, put}
use orbit_cli.Prelude.Result.{Result, ok, err}
use orbit_cli.Clierr.{GoError, plain, fail, wrap, failed, usage, auth}
use orbit_cli.Invites.{Error}
use orbit_cli.Invites.Token.{TokenError, InviteClaims, Codec, generate_token}
use orbit_cli.Invites.Secret.{resolve_secret, parse_ttl}
use orbit_cli.Invites.Ports.{
  Cause, by_token, by_store, no_totp, Store, EmailData, IssueInput, IssueResult, CreateInput,
  CreateResult, Owner, no_owner, new_record,
}
use orbit_cli.Invites.Ports.{request_of}

-- (*Service).env
unfoldable pub env : Option (Text → Text) → Text → Text
env none key = []
env (some lookup) key = lookup key

-- the vault's answer, or that of no vault
abbrev pub owner_of : Option Owner → Owner
owner_of none = no_owner
owner_of (some o) = o

pub email_data : IssueResult → EmailData
email_data issued = record {
  recipient_name = issued.claims.display_name;
  recipient_email = issued.claims.email;
  token = issued.rec.token;
  scope = issued.claims.scope;
  expires_at = issued.claims.expires_at;
}

pub alias_metadata : Bool → Dict Text
alias_metadata alias = if alias then (text "create_alias", text "true") ∷ [] else []

module _ {F : Type 0} (store : Store F) (codec : Codec) where
  unfoldable pub saved : IssueResult → F → Result Error F → Result (GoError Cause) IssueResult × F
  saved result f (err e) = (err (wrap failed (plain (by_store e))), f)
  saved result f (ok f') = (ok result, f')

  unfoldable pub signed_as :
      Result TokenError (Text × InviteClaims) → F → Result (GoError Cause) IssueResult × F
  unfolding saved new_record
  signed_as (err x) f = (err (wrap failed (plain (by_token x))), f)
  signed_as (ok (token, claims)) f =
      saved (record { rec = new_record token claims; claims = claims }) f
        (store.save_invite (new_record token claims) f)

  -- Issue; `drawn` is what crypto/rand gives for the ID
  unfoldable pub issue : ℕ → Option Text → IssueInput → F → Result (GoError Cause) IssueResult × F
  unfolding signed_as request_of
  issue now drawn i f = signed_as (generate_token codec now drawn (request_of i) i.secret) f

  module _ {M : Type 0} (lookup_env : Option (Text → Text)) (owner : Option Owner)
      (atoi parse_duration : Text → Option ℤ) (generate_totp : Text → Option (Text × Text)) where
    unfoldable pub is_bypassed : CreateInput M → Bool
    unfolding env
    is_bypassed i =
        i.insecure || same (env lookup_env (text "ORBIT_INSECURE_SKIP_OWNER_CHECK")) (text "true")

    -- the signing secret of Create, and whether it is the public one
    unfoldable pub create_secret : CreateInput M → Text × Bool
    create_secret i =
        resolve_secret (env lookup_env) i.secret_flag i.secret_env
          (if (owner_of owner).verified then (owner_of owner).secret else [])

    unfoldable pub sent : CreateResult → Option Text × M → CreateResult × M
    sent result (none, m) = (record result { mail_dispatched = true }, m)
    sent result (some e, m) = (record result { mail_error = e }, m)

    -- the dispatch at the end of Create
    unfoldable pub dispatch : CreateInput M → IssueResult → CreateResult → M → CreateResult × M
    unfolding email_data sent
    dispatch i issued result m = elim i.mailer [
      | none ↦ (result, m)
      | some send_invite ↦
          if i.send
          then sent result (send_invite issued.claims.email (email_data issued) m)
          else (result, m)
    ]

    -- what Create makes of the answer of Issue
    unfoldable pub created :
        CreateInput M
        → Text × Text
        → Bool
        → M
        → Result (GoError Cause) IssueResult × F
        → Result (GoError Cause) CreateResult × (F × M)
    unfolding dispatch
    created i totp is_fallback m (err e, f) = (err e, (f, m))
    created i (totp_secret, totp_uri) is_fallback m (ok issued, f) =
        let (result, m') =
          dispatch i issued
            (record {
              rec = issued.rec;
              totp_secret = totp_secret;
              totp_uri = totp_uri;
              fallback_secret = is_fallback;
              mail_dispatched = false;
              mail_error = [];
            })
            m in
        (ok result, (f, m'))

    -- the request of Create, signed and stored
    unfoldable pub sign :
        ℕ
        → Option Text
        → CreateInput M
        → ℤ
        → Text × Bool
        → Text × Text
        → Dict Text
        → F × M
        → Result (GoError Cause) CreateResult × (F × M)
    unfolding created
    sign now drawn i ttl (secret, is_fallback) totp metadata (f, m) = created i totp is_fallback m (
        issue now drawn
          (record {
            email = trim_space i.email;
            display_name = i.display_name;
            scope = i.scope;
            ttl = ttl;
            created_by = if (owner_of owner).verified then (owner_of owner).email else [];
            secret = secret;
            metadata = metadata;
          })
          f)

    -- Create from the secret on
    unfoldable pub create_with :
        ℕ → Option Text → CreateInput M → ℤ → F × M → Result (GoError Cause) CreateResult × (F × M)
    unfolding create_secret sign alias_metadata
    create_with now drawn i ttl w =
        if is_empty (create_secret i).0
        then (err (fail usage), w)
        else if not i.totp
        then sign now drawn i ttl (create_secret i) ([], []) (alias_metadata i.alias) w
        else elim (generate_totp (trim_space i.email)) [
          | none ↦ (err (wrap failed (plain no_totp)), w)
          | some totp ↦
              sign now drawn i ttl (create_secret i) totp
                (put (text "otpauth") totp.1 (alias_metadata i.alias)) w
        ]

    -- Create: the answer, and the states of the store and the mailer
    unfoldable pub create :
        ℕ → Option Text → CreateInput M → F × M → Result (GoError Cause) CreateResult × (F × M)
    unfolding create_with is_bypassed
    create now drawn i w =
        if is_empty (trim_space i.email)
        then (err (fail usage), w)
        else if not (has_byte b'@' (trim_space i.email)) || not (has_byte b'.' (trim_space i.email))
        then (err (fail usage), w)
        else elim (parse_ttl atoi parse_duration i.expires) [
          | none ↦ (err (fail usage), w)
          | some ttl ↦
              if not (owner_of owner).verified && not (is_bypassed i)
              then (err (fail auth), w)
              else create_with now drawn i ttl w
        ]
