-- ===== src/Release.antt =====
-- pkg/release/domain/release.go: the rules of a release that need no input or output.
pub mod Ports
pub mod Select
pub mod Wait
pub mod Promote
pub mod Tiers
pub mod Status
pub mod Mirror
pub mod Cleared
pub mod Gated
mod Tests
use orbit_cli.Prelude.{
  ℕ, zero, suc, ◌-◌, ◌≡◌, Bool, true, false, not, ◌&&◌, ◌||◌, List, [], ◌∷◌, ◌++◌, Option, none,
  leb, ltb, ◌==◌, length, if◌then◌else◌,
}
use orbit_cli.Prelude.Words.{Text, text, same, has_prefix, trim_space, to_lower, contains}
use orbit_cli.Gate.{Check, is_failed, is_pending, is_neutral}

abbrev pub changesets_head : Text
changesets_head = text "changeset-release/main"

abbrev pub release_please_prefix : Text
release_please_prefix = text "release-please--"

abbrev pub main_branch : Text
main_branch = text "main"

abbrev pub demo_branch : Text
demo_branch = text "demo"

abbrev pub publish_workflow : Text
publish_workflow = text "publish.yml"

abbrev pub changeset_config : Text
changeset_config = text ".changeset/config.json"

-- ReleaseSetupFiles
abbrev pub release_setup_files : List Text
release_setup_files =
    changeset_config
    ∷ text "release-please-config.json"
    ∷ text ".release-please-manifest.json"
    ∷ text ".github/workflows/publish.yml"
    ∷ text ".github/workflows/publish-image.yml"
    ∷ text ".github/workflows/release.yml"
    ∷ text ".github/workflows/deploy.yml"
    ∷ []

-- IsReleaseHead
unfoldable pub is_release_head : Text → Bool
is_release_head head =
    let trimmed = trim_space head in
    if same trimmed changesets_head then true else has_prefix trimmed release_please_prefix

-- IsPublishOrDeployWorkflow
unfoldable pub is_publish_or_deploy_workflow : Text → Bool
is_publish_or_deploy_workflow name =
    let low = to_lower (trim_space name) in
    contains low (text "publish") || contains low (text "deploy")

-- the five answers of CheckState
pub data CheckState : Type 0 where
  failing pending unknown passing no_checks : CheckState

-- the loop of CheckState, with what it has seen before
unfoldable pub summarize : Bool → Bool → List Check → CheckState
summarize some_pending some_unknown [] =
    if some_pending then pending else if some_unknown then unknown else passing
summarize some_pending some_unknown (c ∷ checks) =
    let went_pending = summarize true some_unknown checks in
    let went_on = summarize some_pending some_unknown checks in
    let went_unknown = summarize some_pending true checks in
    if is_failed c
    then failing
    else if is_pending c
    then went_pending
    else if is_neutral c
    then went_on
    else went_unknown

-- CheckState
unfoldable pub check_state : List Check → CheckState
unfolding summarize
check_state [] = no_checks
check_state (c ∷ checks) = summarize false false (c ∷ checks)

abbrev pub database_name_prefix : Text
database_name_prefix = text "test_"

abbrev pub is_name_byte : ℕ → Bool
is_name_byte c = (leb b'a' c && leb c b'z') || ((leb b'0' c && leb c b'9') || (c == b'_'))

unfoldable pub all_name_bytes : Text → Bool
all_name_bytes [] = true
all_name_bytes (c ∷ s) = is_name_byte c && all_name_bytes s

-- ValidDatabaseName
unfoldable pub valid_database_name : Text → Bool
unfolding all_name_bytes
valid_database_name name =
    if not (has_prefix name database_name_prefix) || leb (length name) (length database_name_prefix)
    then false
    else all_name_bytes name

-- strings.ReplaceAll(text, old, new) for `old` not empty, with the bytes of a match still to skip
unfoldable pub replace_all : Text → Text → ℕ → Text → Text
replace_all old new skip [] = []
replace_all old new zero (c ∷ s) =
    let matched = replace_all old new (length old - 1) s in
    let rest = replace_all old new 0 s in
    if has_prefix (c ∷ s) old then new ++ matched else c ∷ rest
replace_all old new (suc skip) (c ∷ s) = replace_all old new skip s

-- Redact
unfoldable pub redact : Text → List Text → Text
unfolding replace_all
redact output [] = output
redact output (secret ∷ secrets) =
    let trimmed = trim_space secret in
    redact
      (if ltb (length trimmed) 8 then output else replace_all trimmed (text "<redacted>") 0 output)
      secrets
