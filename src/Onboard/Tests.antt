-- ===== src/Onboard/Tests.antt =====
-- Runs of the onboarding flow on a machine that lists what was done to it, with the session in a file.
use orbit_cli.Prelude.{ℕ, ◌≡◌, true, false, List, [], ◌∷◌, ◌++◌, none, some, refl, take}
use orbit_cli.Prelude.Words.{Text, text}
use orbit_cli.Prelude.Result.{ok}
use orbit_cli.Onboard.Stage.{Stage, init, keypair_ready, is_stage_completed, stage_order, steps}
use orbit_cli.Onboard.Options.{Options}
use orbit_cli.Onboard.Session.{SessionState}
use orbit_cli.Onboard.SessionFile.{
  Faults, SessionFile, stored, manager, manager_laws, load, save, stamped, write_beside,
  has_pending,
}
use orbit_cli.Onboard.Machine.{Ports, Service, World, has_errors}
use orbit_cli.Onboard.Steps.{
  skipped, checkpoint, diagnose, preflight, healed, is_refused, configure_key,
}
use orbit_cli.Onboard.Run.{flow, inception}
use orbit_cli.Onboard.Progress.{plan, perform, Progresses}
use orbit_cli.Onboard.Resuming.{flow_progresses, flow_resumes}

abbrev healthy : Faults
healthy = record {
  mkdir = false;
  create_temp = false;
  open_file = false;
  write_file = false;
  chmod = false;
  write = false;
  sync = false;
  close = false;
  rename = false;
  remove = false;
}

-- the machine: what was done to it, in order
abbrev Log : Type 0
Log = List Text

abbrev noted : Text → Log → Log
noted what log = log ++ what ∷ []

abbrev ports : Ports Log
ports = record {
  claim = λ url key request log. (
    ok (record {
      uid = text "ada";
      email = text "ada@manova.dev";
      display_name = text "Ada";
      forgejo_mcp_token = text "fjo";
      wireguard_config = [];
    }),
    noted (text "claim") log,
  );
  rollback = λ url uid log. noted (text "rollback") log;
  run_diagnostics = λ log. ([], noted (text "diagnose") log);
  healable_count = λ report. 0;
  heal = λ report log. log;
  ensure_key = λ dir email log. (ok (text "ssh-ed25519 AAAA"), noted (text "key") log);
  home_dir = text "/home/ada";
  hostname = text "box";
  goos = text "linux";
  goarch = text "amd64";
  getenv = λ key. [];
  trust_dev_ca = λ log. log;
  ensure_workspace_dirs = λ root log. log;
  write_wireguard = λ config log. log;
  configure_mcp_env = λ root token uid log. log;
  configure_shell = λ home log. log;
  exists = λ path log. false;
  is_dir = λ path log. false;
  remove = λ path log. log;
  workspace_root = λ root. root;
  manifest_path = λ root flag. flag;
  infra_dir = λ root. root;
  clone_core = λ root manifest log. (([], none), log);
  pull_assets = λ root rels log. log;
  stack_start = none;
  write_bundle = λ root sess target log. (ok target, log);
  yes_no = λ question default log. (default, log);
  ask = λ question log. ([], log);
}

abbrev service : Service SessionFile Log
service = record {
  sessions = manager healthy 900 (text "5e55");
  ports = ports;
  sha256_hex = λ t. t;
  tty = false;
  stdin_is_os = true;
}

abbrev opts : Options
opts = record {
  token = text "inv";
  name = text "Ada";
  email = text "ada@manova.dev";
  uid = text "ada";
  edge_url = [];
  workspace = [];
  manifest = [];
  ssh_dir = [];
  diag_bundle = [];
  bundle_arg = [];
  dry_run = false;
  resume = true;
  ignore_and_remove_checkpoint = false;
  reset = false;
  rollback = false;
  non_interactive = true;
  auto_fix = false;
  json = false;
  skip_stack = true;
  start_stack = false;
}

abbrev session : Stage → Text → ℕ → SessionState
session stage key updated = record {
  id = text "5e55";
  email = text "ada@manova.dev";
  display_name = text "Ada";
  uid = [];
  current_stage = stage;
  invite_token = [];
  ssh_public_key = key;
  forgejo_token = [];
  wireguard_config = [];
  workspace_path = [];
  cloned_repos = [];
  metadata = [];
  created_at = 100;
  updated_at = updated;
}

abbrev started : World SessionFile Log
started = record { store = some (stored (session init [] 100)); machine = [] }

abbrev with_key : SessionState
with_key = session keypair_ready (text "ssh-ed25519 AAAA") 900

abbrev stopped : World SessionFile Log
stopped = record { store = some (stored with_key); machine = text "diagnose" ∷ text "key" ∷ [] }

started_loads : load healthy 900 (text "5e55") started.store ≡ ok (some (session init [] 100))
unfolding load
started_loads = refl

two_steps :
    perform service (take 2 (plan service opts [])) (session init [] 100) started
    ≡ (ok with_key, stopped)
unfolding perform skipped checkpoint diagnose preflight healed is_refused configure_key
    is_stage_completed stage_order has_errors save stamped write_beside
two_steps = refl

flow_resumes_example :
    (flow service opts [] with_key stopped ≡ flow service opts [] (session init [] 100) started)
    × ((true ≡ true
          → has_pending healthy 900 (text "5e55") stopped.store ≡ true
          → inception service opts stopped ≡ (ok with_key, stopped))
        × (load healthy 900 (text "5e55") stopped.store ≡ ok (some with_key)))
flow_resumes_example =
    flow_resumes service (manager_laws healthy 900 (text "5e55") refl) opts [] 2
      (session init [] 100) with_key started stopped refl started_loads two_steps

flow_progresses_example :
    Progresses service steps
      (session init [] 100)
      (flow service opts [] (session init [] 100) started)
flow_progresses_example =
    flow_progresses service (manager_laws healthy 900 (text "5e55") refl) opts []
      (session init [] 100) started refl started_loads
