-- ===== src/Invites/Tests.antt =====
-- A file whose bytes are its records.
use orbit_cli.Prelude.{◌++◌, ap, arith, ◌+◌, ◌-◌}
use orbit_cli.Prelude.Int.{pos}
use orbit_cli.Prelude.Words.{has_byte}
use orbit_cli.Invites.Token.{
  InviteClaims, InviteRequest, Codec, CodecLaws, token_prefix, generate_token, new_claims, expiry,
  sealed, is_expired, validate_token, validate_token-generate_token,
}
use orbit_cli.Prelude.{◌≡◌, true, false, List, [], ◌∷◌, none, some, refl, All, map}
use orbit_cli.Prelude.Words.{has_prefix, Text, text, same}
use orbit_cli.Prelude.Result.{ok}
use orbit_cli.Invites.{
  InviteRecord, Files, save_invite, get_invite, revoke_invite, load_records, revoke_all_invites,
}
use orbit_cli.Prelude.{Option, ◌⊎◌}
use orbit_cli.Prelude.Int.{ℤ}
use orbit_cli.Prelude.Words.{trim_space}
use orbit_cli.Invites.Secret.{parse_ttl, days_of, resolve_secret}
use orbit_cli.Invites.Ports.{CreateInput, CreateResult, file_store, new_record, request_of}
use orbit_cli.Invites.Service.{
  create, create_with, create_secret, is_bypassed, sign, created, dispatch, sent, issue, signed_as,
  saved, env,
}
use orbit_cli.Invites.Creating.{create-validate_token}
use orbit_cli.Invites.Lookup.{Keeps, get_invite-save_invite}
use orbit_cli.Invites.Revoking.{get_invite-revoke_invite}
use orbit_cli.Invites.RevokingAll.{revoke_all_invites_lem}
use orbit_cli.Prelude.{arith}
use orbit_cli.Invites.{save_records}
use orbit_cli.Invites.{revoke_record}
use orbit_cli.Invites.{revoke_each}
use orbit_cli.Invites.{updated}
use orbit_cli.Invites.{revoke_first}
use orbit_cli.Invites.{has_prefix}

abbrev invite : Text → Text → InviteRecord
invite id token = record {
  id = id;
  email = text "a@b.de";
  display_name = [];
  scope = text "all";
  token = token;
  revoked = false;
  revoked_at = none;
  issued_at = 1;
  expires_at = 9;
  created_by = [];
  metadata = [];
}

abbrev plain : Files (List InviteRecord) (List InviteRecord)
plain = record {
  is_missing = λ f. false;
  read_file = λ f. some f;
  write_file = λ bytes f. some bytes;
  is_blank = λ bytes. false;
  unmarshal = λ bytes. some bytes;
  marshal = λ records. records;
}

plain-Keeps : Keeps plain
plain-Keeps = record {
  is_there = λ bytes f f' e. refl;
  holds = λ bytes f f' e. ground arith;
  decodes = λ records. refl;
  is_written = λ records. refl;
}

abbrev stored : List InviteRecord
stored = invite (text "abcdefgh") (text "t1") ∷ invite (text "abcdzzzz") (text "t2") ∷ []

abbrev added : InviteRecord
added = invite (text "xyz") (text "t3")

added_saved :
    save_invite plain added stored
    ≡ ok (invite (text "abcdefgh") (text "t1") ∷ invite (text "abcdzzzz") (text "t2") ∷ added ∷ [])
unfolding save_invite load_records save_records updated same
added_saved = refl

stored_loaded : load_records plain stored ≡ ok stored
unfolding load_records
stored_loaded = refl

apart : All (λ r. same r.token (text "xyz") ≡ false) stored
unfolding same
apart = (refl, (refl, tt))

get_invite-save_invite_example :
    get_invite plain
      (text "xyz")
      (invite (text "abcdefgh") (text "t1") ∷ invite (text "abcdzzzz") (text "t2") ∷ added ∷ [])
    ≡ ok added
get_invite-save_invite_example =
    get_invite-save_invite plain plain-Keeps added stored stored
      (invite (text "abcdefgh") (text "t1") ∷ invite (text "abcdzzzz") (text "t2") ∷ added ∷ [])
      stored_loaded apart added_saved

abbrev gone : InviteRecord
gone = record (invite (text "abcdefgh") (text "t1")) { revoked = true; revoked_at = some 7 }

abbrev one_gone : List InviteRecord
one_gone = gone ∷ invite (text "abcdzzzz") (text "t2") ∷ []

-- by a prefix of six bytes
prefix_revoked : revoke_invite plain (text "abcdef") 7 stored ≡ ok (gone, one_gone)
unfolding revoke_invite revoke_record revoke_first load_records save_records has_prefix same
prefix_revoked = refl

get_invite-revoke_invite_example :
    (get_invite plain (text "abcdef") one_gone ≡ ok gone) × (gone.revoked ≡ true)
get_invite-revoke_invite_example =
    get_invite-revoke_invite plain plain-Keeps (text "abcdef") 7 stored one_gone gone prefix_revoked

abbrev both_gone : List InviteRecord
both_gone =
    gone
    ∷ record (invite (text "abcdzzzz") (text "t2")) { revoked = true; revoked_at = some 7 }
    ∷ []

all_revoked : revoke_all_invites plain 7 stored ≡ ok (both_gone, both_gone)
unfolding revoke_all_invites revoke_each load_records save_records
all_revoked = refl

revoke_all_invites_lem_example :
    (records : List InviteRecord) × (after : List InviteRecord) × (load_records plain stored
      ≡ ok records)
    × (load_records plain both_gone ≡ ok after)
    × All (λ r. r.revoked ≡ true) after
    × (map (λ r. r.id) after ≡ map (λ r. r.id) records)
revoke_all_invites_lem_example =
    revoke_all_invites_lem plain plain-Keeps 7 stored both_gone both_gone all_revoked

-- bytes moved out of the way of the dot, in place of base64
abbrev moved : Text → Text
moved [] = []
moved (c ∷ s) = (c + 47) ∷ moved s

abbrev moved_back : Text → Text
moved_back [] = []
moved_back (c ∷ s) = (c - 47) ∷ moved_back s

moved_back-moved : (s : Text) → moved_back (moved s) ≡ s
moved_back-moved [] = refl
moved_back-moved (c ∷ s) = ground (arith, moved_back-moved s)

moved_dotless : (s : Text) → has_byte b'.' (moved s) ≡ false
unfolding has_byte
moved_dotless [] = refl
moved_dotless (c ∷ s) = ground (arith, moved_dotless s)

abbrev ada_claims : InviteClaims
ada_claims = record {
  id = text "5e55";
  email = text "ada@manova.dev";
  display_name = text "Ada";
  scope = text "core";
  issued_at = 100;
  expires_at = 200;
  created_by = [];
  metadata = [];
}

abbrev ada_request : InviteRequest
ada_request = record {
  email = text "ada@manova.dev";
  display_name = text "Ada";
  scope = text "core";
  ttl = pos 100;
  created_by = [];
  metadata = [];
}

abbrev codec : Codec
codec = record {
  hmac = λ secret message. secret ++ message;
  encode = moved;
  raw_url = λ s. some (moved_back s);
  url = λ s. none;
  raw_std = λ s. none;
  std = λ s. none;
  marshal = λ claims. claims.id;
  unmarshal = λ bytes. some ada_claims;
}

codec_laws : CodecLaws codec
codec_laws = record {
  raw_url-encode = λ b. ap (λ s. some s) (moved_back-moved b);
  encode-dotless = moved_dotless;
}

abbrev ada_token : Text
ada_token =
    token_prefix ++ b'.' ∷ (moved (text "5e55") ++ b'.' ∷ moved (text "k" ++ moved (text "5e55")))

token_run :
    generate_token codec 100 (some (text "5e55")) ada_request (text "k")
    ≡ ok (ada_token, ada_claims)
unfolding generate_token new_claims expiry sealed
token_run = refl

in_time : is_expired 150 ada_claims ≡ false
unfolding is_expired
in_time = refl

validate_token-generate_token_example :
    validate_token codec 150 ada_token (text "k") ≡ ok ada_claims
validate_token-generate_token_example =
    validate_token-generate_token codec codec_laws 100 150 (text "5e55") ada_request (text "k")
      ada_token ada_claims token_run in_time refl

-- the address of Ada, without an owner but with --insecure and --secret
abbrev for_ada : CreateInput (Unit {0})
for_ada = record {
  email = text " ada@manova.dev";
  display_name = text "Ada";
  scope = [];
  expires = text "100ns";
  secret_flag = text "k";
  secret_env = [];
  insecure = true;
  alias = false;
  totp = false;
  send = true;
  mailer = some (λ to letter m. (none, m));
}

abbrev ada_invite : InviteRecord
ada_invite = record {
  id = text "5e55";
  email = text "ada@manova.dev";
  display_name = text "Ada";
  scope = text "core";
  token = ada_token;
  revoked = false;
  revoked_at = none;
  issued_at = 100;
  expires_at = 200;
  created_by = [];
  metadata = [];
}

abbrev ada_created : CreateResult
ada_created = record {
  rec = ada_invite;
  totp_secret = [];
  totp_uri = [];
  fallback_secret = false;
  mail_dispatched = true;
  mail_error = [];
}

abbrev no_number : Text → Option ℤ
no_number s = none

abbrev a_hundred : Text → Option ℤ
a_hundred s = some (pos 100)

abbrev no_totp_secret : Text → Option (Text × Text)
no_totp_secret account = none

create_run :
    create
      (file_store plain)
      codec
      none
      none
      no_number
      a_hundred
      no_totp_secret
      100
      (some (text "5e55"))
      for_ada
      (stored, tt)
    ≡ (ok ada_created, (stored ++ ada_invite ∷ [], tt))
unfolding create create_with create_secret is_bypassed sign created dispatch sent issue signed_as
    saved request_of new_record generate_token new_claims expiry sealed parse_ttl days_of
    resolve_secret env file_store save_invite load_records save_records updated same trim_space
    has_byte
create_run = refl

create-validate_token_example :
    ((false ≡ true)
      ⊎ (is_bypassed (file_store plain) codec none none no_number a_hundred no_totp_secret for_ada
          ≡ true))
    × (validate_token codec 150 ada_token
          (create_secret
            (file_store plain)
            codec
            none
            none
            no_number
            a_hundred
            no_totp_secret
            for_ada).0
        ≡ ok ada_claims)
    × ((file_store plain).save_invite ada_invite stored ≡ ok (stored ++ ada_invite ∷ []))
create-validate_token_example =
    create-validate_token (file_store plain) codec none none no_number a_hundred no_totp_secret
      codec_laws 100 150 (text "5e55") for_ada stored tt ada_created (stored ++ ada_invite ∷ [], tt)
      refl create_run in_time
