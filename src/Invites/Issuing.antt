-- ===== src/Invites/Issuing.antt =====
-- pkg/invite/application/service.go: what an Issue that succeeds has signed and stored.
use orbit_cli.Prelude.{ℕ, ◌≡◌, Option, arith, refl}
use mathlib.Core.Path.{subst}
use orbit_cli.Prelude.Words.{Text}
use orbit_cli.Prelude.Result.{Result, ok, err}
use orbit_cli.Invites.{InviteRecord, Error}
use orbit_cli.Invites.Token.{TokenError, InviteClaims, Codec, generate_token}
use orbit_cli.Invites.Ports.{Store, IssueInput, IssueResult, new_record, request_of}
use orbit_cli.Invites.Service.{saved, signed_as, issue}

-- the claims of a record
abbrev pub claims_of : InviteRecord → InviteClaims
claims_of r = record {
  id = r.id;
  email = r.email;
  display_name = r.display_name;
  scope = r.scope;
  issued_at = r.issued_at;
  expires_at = r.expires_at;
  created_by = r.created_by;
  metadata = r.metadata;
}

module _ {F : Type 0} (store : Store F) (codec : Codec) where
  -- what Issue made, where it succeeded
  pub record IsIssued (now : ℕ) (drawn : Option Text) (i : IssueInput) (f f' : F)
      (rec : InviteRecord) : Type 0 where
    pub signed :
        generate_token codec now drawn (request_of i) i.secret ≡ ok (rec.token, claims_of rec)
    pub stored : store.save_invite rec f ≡ ok f'

  saved_ok :
      (r : IssueResult) (f f' : F) (s : Result Error F) (issued : IssueResult)
      → saved store codec r f s ≡ (ok issued, f')
      → (s ≡ ok f') × (r ≡ issued)
  unfolding saved
  saved_ok r f f' (err e) issued h = absurd (ground arith)
  saved_ok r f f' (ok g) issued h = (ground arith, ground arith)

  signed_as_ok :
      (t : Result TokenError (Text × InviteClaims)) (f f' : F) (issued : IssueResult)
      → signed_as store codec t f ≡ (ok issued, f')
      → (t ≡ ok (issued.rec.token, claims_of issued.rec)) × (store.save_invite issued.rec f ≡ ok f')
  unfolding signed_as new_record
  signed_as_ok (err x) f f' issued h = absurd (ground arith)
  signed_as_ok (ok (token, claims)) f f' issued h =
      let (stored, same_) =
        saved_ok (record { rec = new_record token claims; claims = claims }) f f'
          (store.save_invite (new_record token claims) f) issued h in
      let minted : Result TokenError (Text × InviteClaims) = ok (token, claims) in
      subst
        (λ x. (minted ≡ ok (x.rec.token, claims_of x.rec)) × (store.save_invite x.rec f ≡ ok f'))
        same_ (refl, stored)

  pub issue_ok :
      (now : ℕ) (drawn : Option Text) (i : IssueInput) (f f' : F) (issued : IssueResult)
      → issue store codec now drawn i f ≡ (ok issued, f')
      → IsIssued now drawn i f f' issued.rec
  unfolding issue
  issue_ok now drawn i f f' issued h =
      let (signed, stored) =
        signed_as_ok (generate_token codec now drawn (request_of i) i.secret) f f' issued h in
      record { signed = signed; stored = stored }
