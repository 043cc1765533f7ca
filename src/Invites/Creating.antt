-- ===== src/Invites/Creating.antt =====
-- pkg/invite/application/service.go: what a Create that succeeds has signed and stored, and for whom.
use orbit_cli.Prelude.{
  ℕ, ◌≡◌, Bool, true, false, [], Option, none, some, if◌then◌else◌, ◌⊎◌, inl, inr, arith, refl, sym,
  ◌∙◌, Bool-cases, Option-cases,
}
use mathlib.Core.Path.{subst}
use orbit_cli.Prelude.Int.{ℤ}
use orbit_cli.Prelude.Words.{Text, text, is_empty, trim_space}
use orbit_cli.Prelude.Dict.{Dict, put}
use orbit_cli.Prelude.Result.{Result, ok, err}
use orbit_cli.Clierr.{GoError}
use orbit_cli.Invites.{InviteRecord}
use orbit_cli.Invites.Token.{
  Codec, CodecLaws, validate_token, validate_token-generate_token, is_expired,
}
use orbit_cli.Invites.Secret.{parse_ttl}
use orbit_cli.Invites.Ports.{
  Cause, Store, IssueInput, IssueResult, CreateInput, CreateResult, Owner, request_of,
}
use orbit_cli.Invites.Service.{
  issue, owner_of, is_bypassed, create_secret, dispatch, sent, email_data, alias_metadata, created,
  sign, create_with, create,
}
use orbit_cli.Invites.Issuing.{claims_of, IsIssued, issue_ok}

module _ {F : Type 0} (store : Store F) (codec : Codec) {M : Type 0}
    (lookup_env : Option (Text → Text)) (owner : Option Owner)
    (atoi parse_duration : Text → Option ℤ) (generate_totp : Text → Option (Text × Text)) where
  sent_keeps :
      (result : CreateResult) (a : Option Text × M)
      → (sent store codec lookup_env owner atoi parse_duration generate_totp result a).0.rec
        ≡ result.rec
  unfolding sent
  sent_keeps result (none, m) = refl
  sent_keeps result (some e, m) = refl

  dispatch_keeps :
      (i : CreateInput M) (issued : IssueResult) (result : CreateResult) (m : M)
      → (dispatch store codec lookup_env owner atoi parse_duration generate_totp i issued result
          m).0.rec
        ≡ result.rec
  unfolding dispatch
  dispatch_keeps i issued result m = elim (Option-cases i.mailer) [
    | inl none_ ↦ ground arith
    | inr (send_invite, mailer) ↦ elim (Bool-cases i.send) [
      | inl on ↦
          ground (arith, sent_keeps result (send_invite issued.claims.email (email_data issued) m))
      | inr off ↦ ground arith
    ]
  ]

  created_ok :
      (i : CreateInput M) (totp : Text × Text) (is_fallback : Bool) (m : M)
      (r : Result (GoError Cause) IssueResult × F) (res : CreateResult) (w' : F × M)
      → created store codec lookup_env owner atoi parse_duration generate_totp i totp is_fallback m
          r
        ≡ (ok res, w')
      → (issued : IssueResult) × (r ≡ (ok issued, w'.0)) × (issued.rec ≡ res.rec)
  unfolding created
  created_ok i totp is_fallback m (err e, f) res w' h = absurd (ground arith)
  created_ok i (s, u) is_fallback m (ok issued, f) res w' h =
      let result : CreateResult = record {
        rec = issued.rec;
        totp_secret = s;
        totp_uri = u;
        fallback_secret = is_fallback;
        mail_dispatched = false;
        mail_error = [];
      } in
      let same_ : (dispatch store codec lookup_env owner atoi parse_duration generate_totp i issued
            result m).0
          ≡ res =
        ground arith in
      (issued, ground arith, sym (dispatch_keeps i issued result m) ∙ rw same_ refl)

  -- what a Create that succeeded did: it may, and it signed and stored a record
  record IsCreated (now : ℕ) (drawn : Option Text) (i : CreateInput M) (f f' : F)
      (rec : InviteRecord) : Type 0 where
    allowed :
        ((owner_of owner).verified ≡ true)
        ⊎ (is_bypassed store codec lookup_env owner atoi parse_duration generate_totp i ≡ true)
    request : IssueInput
    secret :
        request.secret
        ≡ (create_secret store codec lookup_env owner atoi parse_duration generate_totp i).0
    issued : IsIssued store codec now drawn request f f' rec

  sign_ok :
      (now : ℕ) (drawn : Option Text) (i : CreateInput M) (ttl : ℤ) (secret : Text × Bool)
      (totp : Text × Text) (metadata : Dict Text) (f : F) (m : M) (res : CreateResult) (w' : F × M)
      → sign store codec lookup_env owner atoi parse_duration generate_totp now drawn i ttl secret
          totp metadata
          (f, m)
        ≡ (ok res, w')
      → (request : IssueInput) × (request.secret ≡ secret.0)
        × IsIssued store codec now drawn request f w'.0 res.rec
  unfolding sign
  sign_ok now drawn i ttl (secret, is_fallback) totp metadata f m res w' h =
      let request : IssueInput = record {
        email = trim_space i.email;
        display_name = i.display_name;
        scope = i.scope;
        ttl = ttl;
        created_by = if (owner_of owner).verified then (owner_of owner).email else [];
        secret = secret;
        metadata = metadata;
      } in
      let (issued, made, same_) =
        created_ok i totp is_fallback m (issue store codec now drawn request f) res w' h in
      (
        request,
        refl,
        subst (IsIssued store codec now drawn request f w'.0) same_
            (issue_ok store codec now drawn request f w'.0 issued made),
      )

  create_with_ok :
      (now : ℕ) (drawn : Option Text) (i : CreateInput M) (ttl : ℤ) (f : F) (m : M)
      (res : CreateResult) (w' : F × M)
      → create_with store codec lookup_env owner atoi parse_duration generate_totp now drawn i ttl
          (f, m)
        ≡ (ok res, w')
      → (request : IssueInput) × (request.secret
          ≡ (create_secret store codec lookup_env owner atoi parse_duration generate_totp i).0)
        × IsIssued store codec now drawn request f w'.0 res.rec
  unfolding create_with
  create_with_ok now drawn i ttl f m res w' h =
      elim (Bool-cases (
        is_empty
          (create_secret store codec lookup_env owner atoi parse_duration generate_totp i).0)) [
            | inl blank ↦ absurd (ground arith)
            | inr filled ↦ elim (Bool-cases i.totp) [
              | inr plain_ ↦
                  sign_ok now drawn i ttl
                    (create_secret store codec lookup_env owner atoi parse_duration generate_totp i)
                    ([], []) (alias_metadata i.alias) f m res w' (ground arith)
              | inl on ↦ elim (Option-cases (generate_totp (trim_space i.email))) [
                | inl no_secret ↦ absurd (ground arith)
                | inr (totp, drawn_) ↦
                    sign_ok now drawn i ttl
                      (create_secret store codec lookup_env owner atoi parse_duration generate_totp
                        i)
                      totp (put (text "otpauth") totp.1 (alias_metadata i.alias)) f m res w'
                      (ground arith)
              ]
            ]
          ]

  create_ok :
      (now : ℕ) (drawn : Option Text) (i : CreateInput M) (f : F) (m : M) (res : CreateResult)
      (w' : F × M)
      → create store codec lookup_env owner atoi parse_duration generate_totp now drawn i (f, m)
        ≡ (ok res, w')
      → IsCreated now drawn i f w'.0 res.rec
  unfolding create
  create_ok now drawn i f m res w' h =
      elim (Option-cases (parse_ttl atoi parse_duration i.expires)) [
        | inl malformed ↦ absurd (ground arith)
        | inr (ttl, parsed) ↦
            let (request, secret, issued) =
              create_with_ok now drawn i ttl f m res w' (ground arith) in
            let permitted : ((owner_of owner).verified ≡ true)
                ⊎ (is_bypassed store codec lookup_env owner atoi parse_duration generate_totp i
                    ≡ true) =
              elim (Bool-cases (owner_of owner).verified) [
                | inl verified ↦ inl verified
                | inr unverified ↦
                    elim (Bool-cases (
                      is_bypassed store codec lookup_env owner atoi parse_duration generate_totp
                        i)) [ inl bypassed ↦ inr bypassed | inr guarded ↦ absurd (ground arith) ]
              ] in
            record { allowed = permitted; request = request; secret = secret; issued = issued }
      ]

  -- Under what base64 is documented to do, and where the JSON of its claims reads back as them: an invitation that
  -- Create made was allowed, by an owner that is verified or by a bypass; its token is valid under the
  -- secret that Create signs with, and gives back the data of its record, until they expire; and the
  -- store is what SaveInvite of that record leaves.
  pub create-validate_token :
      (laws : CodecLaws codec) (now later : ℕ) (id : Text) (i : CreateInput M) (f : F) (m : M)
      (res : CreateResult) (w' : F × M)
      → codec.unmarshal (codec.marshal (claims_of res.rec)) ≡ some (claims_of res.rec)
      → create store codec lookup_env owner atoi parse_duration generate_totp now (some id) i (f, m)
        ≡ (ok res, w')
      → is_expired later (claims_of res.rec) ≡ false
      → (((owner_of owner).verified ≡ true)
          ⊎ (is_bypassed store codec lookup_env owner atoi parse_duration generate_totp i ≡ true))
        × (validate_token codec later res.rec.token
              (create_secret store codec lookup_env owner atoi parse_duration generate_totp i).0
            ≡ ok (claims_of res.rec))
        × (store.save_invite res.rec f ≡ ok w'.0)
  create-validate_token laws now later id i f m res w' reads h fresh =
      let made = create_ok now (some id) i f m res w' h in
      (
        made.allowed,
        subst (λ secret. validate_token codec later res.rec.token secret ≡ ok (claims_of res.rec))
            made.secret
            (validate_token-generate_token codec laws now later id (request_of made.request)
              made.request.secret res.rec.token (claims_of res.rec) made.issued.signed fresh reads),
        made.issued.stored,
      )
