-- ===== src/Invites/Lookup.antt =====
-- Looking up what was saved.
use orbit_cli.Prelude.{◌≡◌, false, List, [], ◌∷◌, some, find, arith, All, ◌∙◌}
use orbit_cli.Prelude.Words.{Text, same, same_refl}
use orbit_cli.Prelude.Result.{ok}
use orbit_cli.Invites.{
  InviteRecord, Files, is_exact, updated, get_record, load_records, save_records, save_invite,
  get_invite,
}

-- What the store relies on: after a write the file is there and holds the text written, and the JSON
-- of records is read back as these records and is not blank, which encoding/json does for records whose
-- texts are UTF-8 and whose times are in years up to 9999.
pub record Keeps {F B : Type 0} (files : Files F B) : Type 0 where
  pub is_there :
      (bytes : B) (f f' : F) → files.write_file bytes f ≡ some f' → files.is_missing f' ≡ false
  pub holds :
      (bytes : B) (f f' : F) → files.write_file bytes f ≡ some f' → files.read_file f' ≡ some bytes
  pub decodes :
      (records : List InviteRecord) → files.unmarshal (files.marshal records) ≡ some records
  pub is_written : (records : List InviteRecord) → files.is_blank (files.marshal records) ≡ false

pub load_records-save_records :
    {F B : Type 0} (files : Files F B) (keeps : Keeps files) (records : List InviteRecord)
    (f f' : F)
    → save_records files records f ≡ ok f'
    → load_records files f' ≡ ok records
unfolding load_records save_records
load_records-save_records files keeps records f f' saved = ground (
  arith,
  keeps.is_there (files.marshal records) f f',
  keeps.holds (files.marshal records) f f',
  keeps.decodes records,
  keeps.is_written records,
)

find-updated :
    (rec : InviteRecord) (records : List InviteRecord)
    → All (λ r. same r.token rec.id ≡ false) records
    → find (is_exact rec.id) (updated rec records) ≡ some rec
unfolding updated
find-updated rec [] apart = ground (arith, same_refl rec.id)
find-updated rec (r ∷ records) apart =
    ground (arith, same_refl rec.id, find-updated rec records apart.1, apart.0)

pub get_record_found :
    (x : Text) (records : List InviteRecord) (r : InviteRecord)
    → find (is_exact x) records ≡ some r
    → get_record x records ≡ ok r
unfolding get_record
get_record_found x records r found = ground arith

save_invite_ok :
    {F B : Type 0} (files : Files F B) (rec : InviteRecord) (records : List InviteRecord) (f f' : F)
    → load_records files f ≡ ok records
    → save_invite files rec f ≡ ok f'
    → save_records files (updated rec records) f ≡ ok f'
unfolding save_invite
save_invite_ok files rec records f f' loaded saved = ground arith

pub get_invite_loaded :
    {F B : Type 0} (files : Files F B) (x : Text) (records : List InviteRecord) (f : F)
    → load_records files f ≡ ok records
    → get_invite files x f ≡ get_record x records
unfolding get_invite
get_invite_loaded files x records f loaded = ground arith

-- On files that keep what is written, GetInvite answers for its ID a record that SaveInvite has saved
-- last, where no stored token is that ID.
pub get_invite-save_invite :
    {F B : Type 0} (files : Files F B) (keeps : Keeps files) (rec : InviteRecord)
    (records : List InviteRecord) (f f' : F)
    → load_records files f ≡ ok records
    → All (λ r. same r.token rec.id ≡ false) records
    → save_invite files rec f ≡ ok f'
    → get_invite files rec.id f' ≡ ok rec
get_invite-save_invite files keeps rec records f f' loaded apart saved =
    get_invite_loaded files rec.id (updated rec records) f' (
      load_records-save_records files keeps (updated rec records) f f'
        (save_invite_ok files rec records f f' loaded saved))
    ∙ get_record_found rec.id (updated rec records) rec (find-updated rec records apart)
