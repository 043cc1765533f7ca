-- ===== src/Invites.antt =====
-- pkg/invite/infrastructure/filestore/store.go: the invitations in a file. The file and its JSON
-- are parameters.
pub mod Token
pub mod Secret
pub mod Ports
pub mod Service
pub mod Listing
pub mod Issuing
pub mod Creating
pub mod Lookup
pub mod Revoking
pub mod RevokingAll
mod Tests
use orbit_cli.Prelude.{
  ℕ, suc, ◌+◌, ◌≡◌, Bool, true, false, ◌||◌, List, [], ◌∷◌, ◌++◌, Option, none, some, any, find,
  keep, leb, length, if◌then◌else◌,
}
use orbit_cli.Prelude.Words.{Text, text, same, has_prefix, is_empty, trim_space}
use orbit_cli.Prelude.Dict.{Dict}
use orbit_cli.Prelude.Result.{Result, ok, err}

pub record InviteRecord : Type 0 where
  pub id : Text
  pub email : Text
  pub display_name : Text
  pub scope : Text
  pub token : Text
  pub revoked : Bool
  pub revoked_at : Option ℕ
  pub issued_at : ℕ
  pub expires_at : ℕ
  pub created_by : Text
  pub metadata : Dict Text

pub data Error : Type 0 where
  invite_not_found ambiguous_prefix unreadable unparsable unwritable : Error

-- What the store asks of the file system and of encoding/json: whether the file is missing, its
-- bytes, an atomic write, whether bytes are blank, and the records of bytes and the bytes of records.
pub record Files (F B : Type 0) : Type 0 where
  pub is_missing : F → Bool
  pub read_file : F → Option B
  pub write_file : B → F → Option F
  pub is_blank : B → Bool
  pub unmarshal : B → Option (List InviteRecord)
  pub marshal : List InviteRecord → B

-- r.ID == tokenOrID || r.Token == tokenOrID
abbrev pub is_exact : Text → InviteRecord → Bool
is_exact x r = same r.id x || same r.token x

abbrev pub is_prefixed : Text → InviteRecord → Bool
is_prefixed x r = has_prefix r.id x

-- the loop of SaveInvite, with the append where nothing was updated
unfoldable pub updated : InviteRecord → List InviteRecord → List InviteRecord
updated rec [] = rec ∷ []
updated rec (r ∷ records) =
    let rest = updated rec records in
    if same r.id rec.id || same r.token rec.token then rec ∷ records else r ∷ rest

-- the answer for the records whose ID has the prefix
abbrev pub only : List InviteRecord → Result Error InviteRecord
only [] = err invite_not_found
only (r ∷ []) = ok r
only (r ∷ s ∷ matches) = err ambiguous_prefix

-- GetInvite on the records
unfoldable pub get_record : Text → List InviteRecord → Result Error InviteRecord
get_record x records = elim (find (is_exact x) records) [
  | some r ↦ ok r
  | none ↦ if leb 6 (length x) then only (keep (is_prefixed x) records) else err invite_not_found
]

abbrev pub revoked_record : ℕ → InviteRecord → InviteRecord
revoked_record now r = record r { revoked = true; revoked_at = some now }

-- the first record with `p` is revoked; the record as it is then, and the records
unfoldable pub revoke_first :
    (InviteRecord → Bool) → ℕ → List InviteRecord → Option (InviteRecord × List InviteRecord)
revoke_first p now [] = none
revoke_first p now (r ∷ records) =
    let rest = revoke_first p now records in
    if p r
    then some (revoked_record now r, revoked_record now r ∷ records)
    else elim rest [ none ↦ none | some (target, more) ↦ some (target, r ∷ more) ]

-- the target of RevokeInvite, which is the only record in `matches` where it goes by the prefix
abbrev pub revoke_only :
    Text
    → ℕ
    → List InviteRecord
    → List InviteRecord
    → Result Error (InviteRecord × List InviteRecord)
revoke_only x now records [] = err invite_not_found
revoke_only x now records (r ∷ []) = elim (revoke_first (is_prefixed x) now records) [
  | none ↦ err invite_not_found
  | some found ↦ ok found
]
revoke_only x now records (r ∷ s ∷ matches) = err ambiguous_prefix

-- RevokeInvite on the records
unfoldable pub revoke_record :
    Text → ℕ → List InviteRecord → Result Error (InviteRecord × List InviteRecord)
unfolding revoke_first
revoke_record x now records = elim (revoke_first (is_exact x) now records) [
  | some found ↦ ok found
  | none ↦
      if leb 6 (length x)
      then revoke_only x now records (keep (is_prefixed x) records)
      else err invite_not_found
]

-- the loop of RevokeAllInvites: the records after it, and those that it revoked
unfoldable pub revoke_each : ℕ → List InviteRecord → List InviteRecord × List InviteRecord
revoke_each now [] = ([], [])
revoke_each now (r ∷ records) =
    let (after, revoked) = revoke_each now records in
    if r.revoked
    then (r ∷ after, revoked)
    else (revoked_record now r ∷ after, revoked_record now r ∷ revoked)

abbrev pub answer_saved : {F A : Type 0} → A → Result Error F → Result Error (A × F)
answer_saved a (err e) = err e
answer_saved a (ok f) = ok (a, f)

module _ {F B : Type 0} (files : Files F B) where
  open files use {is_missing, read_file, write_file, is_blank, unmarshal, marshal}

  -- loadRecordsLocked
  unfoldable pub load_records : F → Result Error (List InviteRecord)
  load_records f = if is_missing f then ok [] else elim (read_file f) [
    | none ↦ err unreadable
    | some bytes ↦
        if is_blank bytes
        then ok []
        else elim (unmarshal bytes) [ none ↦ err unparsable | some records ↦ ok records ]
  ]

  -- saveRecordsLocked
  unfoldable pub save_records : List InviteRecord → F → Result Error F
  save_records records f = elim (write_file (marshal records) f) [
    | none ↦ err unwritable
    | some f' ↦ ok f'
  ]

  -- (*Store).SaveInvite, of a record that is not nil
  unfoldable pub save_invite : InviteRecord → F → Result Error F
  unfolding load_records save_records updated
  save_invite rec f = elim (load_records f) [
    | err e ↦ err e
    | ok records ↦ save_records (updated rec records) f
  ]

  -- (*Store).GetInvite
  unfoldable pub get_invite : Text → F → Result Error InviteRecord
  unfolding load_records get_record
  get_invite x f = elim (load_records f) [ err e ↦ err e | ok records ↦ get_record x records ]

  -- (*Store).RevokeInvite, at the time `now`
  unfoldable pub revoke_invite : Text → ℕ → F → Result Error (InviteRecord × F)
  unfolding load_records revoke_record save_records
  revoke_invite x now f = elim (load_records f) [
    | err e ↦ err e
    | ok records ↦ elim (revoke_record x now records) [
      | err e ↦ err e
      | ok found ↦ answer_saved found.0 (save_records found.1 f)
    ]
  ]

  -- (*Store).RevokeAllInvites, at the time `now`; the file stays where none is revoked
  unfoldable pub revoke_all_invites : ℕ → F → Result Error (List InviteRecord × F)
  unfolding load_records revoke_each save_records
  revoke_all_invites now f = elim (load_records f) [
    | err e ↦ err e
    | ok records ↦ elim (revoke_each now records).1 [
      | [] ↦ ok ([], f)
      | r ∷ revoked ↦ answer_saved (r ∷ revoked) (save_records (revoke_each now records).0 f)
    ]
  ]
