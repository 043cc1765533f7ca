-- ===== src/Onboard/Options.antt =====
-- pkg/onboard/domain/options.go: one invocation and how it runs.
use orbit_cli.Prelude.{Bool, not, ◌&&◌, ◌||◌, if◌then◌else◌}
use orbit_cli.Prelude.Words.{Text, is_empty}
use orbit_cli.Prelude.Result.{Result, ok, err}

pub record Options : Type 0 where
  pub token : Text
  pub name : Text
  pub email : Text
  pub uid : Text
  pub edge_url : Text
  pub workspace : Text
  pub manifest : Text
  pub ssh_dir : Text
  pub diag_bundle : Text
  pub bundle_arg : Text
  pub dry_run : Bool
  pub resume : Bool
  pub ignore_and_remove_checkpoint : Bool
  pub reset : Bool
  pub rollback : Bool
  pub non_interactive : Bool
  pub auto_fix : Bool
  pub json : Bool
  pub skip_stack : Bool
  pub start_stack : Bool

-- ModeWizard, ModePrompted and ModeHeadless
pub data Mode : Type 0 where
  wizard prompted headless : Mode

pub data ModeError : Type 0 where
  json_requires_headless : ModeError

-- Options.OneShot
unfoldable pub one_shot : Options → Bool
one_shot o =
    o.reset || (o.ignore_and_remove_checkpoint || (o.rollback || not (is_empty o.diag_bundle)))

-- Options.DiscardCheckpoint
unfoldable pub discard_checkpoint : Options → Bool
discard_checkpoint o = o.ignore_and_remove_checkpoint || o.reset

-- ResolveMode
unfoldable pub resolve_mode : Options → Bool → Result ModeError Mode
unfolding one_shot
resolve_mode o interactive_tty =
    let wizard_eligible =
      interactive_tty && (not o.non_interactive && (not o.dry_run && not (one_shot o))) in
    if o.json && wizard_eligible
    then err json_requires_headless
    else if wizard_eligible && not o.json
    then ok wizard
    else if o.non_interactive || (o.dry_run || (o.json || one_shot o))
    then ok headless
    else ok prompted
