-- ===== src/Onboard/Steps.antt =====
-- pkg/onboard/application/service.go: the steps of the flow. Each is skipped where the session has
-- reached its stage, and ends with a checkpoint. Progress events and printed lines are left out.
use orbit_cli.Prelude.{
  Bool, true, false, not, ◌&&◌, ◌||◌, List, [], ◌∷◌, ◌++◌, Option, none, some, ◌==◌, if◌then◌else◌,
}
use orbit_cli.Prelude.Words.{Text, text, same, is_empty, trim_space}
use orbit_cli.Prelude.Result.{ok, err, and_then, on_error}
use orbit_cli.Clierr.{fail, failed, usage, tool, with_code}
use orbit_cli.Onboard.Stage.{
  Stage, is_stage_completed, doctor_passed, keypair_ready, token_claimed, network_configured,
  repos_cloned, mcp_configured, dev_stack_ready, completed,
}
use orbit_cli.Onboard.Options.{Options}
use orbit_cli.Onboard.Session.{
  Outcome, SessionState, ClaimRequest, ClaimResponse, machine_fingerprint,
}
use orbit_cli.Onboard.Machine.{DiagnosticResult, has_errors, CloneResult, Service, World, Action}

-- the paths of `sess.ClonedRepos = append(sess.ClonedRepos, worked.Path)`
unfoldable pub cloned : List CloneResult → List Text
cloned [] = []
cloned (worked ∷ results) =
    let rest = cloned results in if worked.success then worked.path ∷ rest else rest

module _ {S M : Type 0} (service : Service S M) where
  open service use {sessions, ports, sha256_hex, tty, stdin_is_os}

  -- `sess.CurrentStage = stage` and `s.Sessions.Save(sess)`
  unfoldable pub checkpoint : Stage → Action S M
  checkpoint stage sess w =
      let (saved, store) = sessions.save (record sess { current_stage = stage }) w.store in
      (saved, record w { store = store })

  unfoldable pub skipped : Stage → Action S M → Action S M
  skipped stage action sess w =
      if is_stage_completed sess.current_stage stage then (ok sess, w) else action sess w

  should_heal : Options → M → Bool × M
  should_heal opts m =
      if opts.auto_fix
      then (true, m)
      else if opts.non_interactive
      then (true, m)
      else if tty || not stdin_is_os
      then ports.yes_no (text "? Automatically install missing prerequisites to continue?") true m
      else (false, m)

  -- the healing, with the report that it leaves
  unfoldable pub healed : Options → List DiagnosticResult → M → List DiagnosticResult × M
  unfolding should_heal
  healed opts report m =
      if ports.healable_count report == 0
      then (report, m)
      else (let (heals, m') = should_heal opts m in
          if heals then ports.run_diagnostics (ports.heal report m') else (report, m'))

  -- `report.HasErrors() && ORBIT_TESTBED != "1" && ORBIT_SKIP_PREFLIGHT != "1"`
  unfoldable pub is_refused : List DiagnosticResult → Bool
  is_refused report =
      has_errors report
      && (not (same (ports.getenv (text "ORBIT_TESTBED")) (text "1"))
          && not (same (ports.getenv (text "ORBIT_SKIP_PREFLIGHT")) (text "1")))

  unfoldable pub preflight :
      Options → List DiagnosticResult → World S M → Outcome (Unit {0}) × World S M
  unfolding is_refused
  preflight opts report w =
      if not (is_refused report)
      then (ok tt, w)
      else if opts.non_interactive
      then (err (fail failed), w)
      else (let (proceed, m) =
            ports.yes_no (text "Critical checks failed. Proceed anyway?") false w.machine in
          (if proceed then ok tt else err (fail failed), record w { machine = m }))

  unfoldable pub diagnose : Options → Action S M
  unfolding healed preflight checkpoint
  diagnose opts sess w =
      let (report, m) = ports.run_diagnostics w.machine in
      if opts.dry_run
      then (ok sess, record w { machine = m })
      else (let (report', m') = healed opts report m in
          and_then (preflight opts report' (record w { machine = m' }))
            (λ u. checkpoint doctor_passed sess))

  -- (*Service).stepDiagnostics
  abbrev pub step_diagnostics : Options → Action S M
  step_diagnostics opts = skipped doctor_passed (diagnose opts)

  unfoldable pub configure_key : Options → Action S M
  unfolding checkpoint
  configure_key opts sess w =
      let (key, m) = ports.ensure_key opts.ssh_dir sess.email w.machine in
      and_then (on_error (λ e. with_code e tool) (key, record w { machine = m }))
        (λ pub_key. checkpoint keypair_ready (record sess { ssh_public_key = pub_key }))

  -- (*Service).stepKeypair
  abbrev pub step_keypair : Options → Action S M
  step_keypair opts = skipped keypair_ready (configure_key opts)

  -- (*Service).edgeURL
  unfoldable pub edge_url : Options → Text
  edge_url opts =
      if not (is_empty opts.edge_url)
      then opts.edge_url
      else (let env_url = trim_space (ports.getenv (text "ORBIT_SERVER")) in
          if not (is_empty env_url) then env_url else text "http://localhost:10015")

  -- (*Service).fingerprint
  unfoldable pub fingerprint : Text
  fingerprint = machine_fingerprint ports.hostname ports.goos ports.goarch

  -- the token of the flag, of the session, or of the developer
  unfoldable pub invite_token : Options → SessionState → World S M → Outcome Text × World S M
  invite_token opts sess w =
      let flag = trim_space opts.token in
      let token = if is_empty flag then sess.invite_token else flag in
      if not (is_empty token)
      then (ok token, w)
      else if opts.non_interactive || opts.json
      then (err (fail usage), w)
      else (let (answer, m) =
            ports.ask (text "Enter your Orbit onboarding invite token") w.machine in
          (if is_empty answer then err (fail usage) else ok answer, record w { machine = m }))

  -- invitedomain.ComputeIdempotencyKey
  unfoldable pub compute_idempotency_key : Text → Text → Text
  compute_idempotency_key token machine_id = sha256_hex (token ++ b':' ∷ machine_id)

  unfoldable pub claim_request : Options → Text → SessionState → ClaimRequest
  claim_request opts token sess = record {
    invite_token = token;
    desired_uid = opts.uid;
    email = sess.email;
    display_name = sess.display_name;
    ssh_public_key = sess.ssh_public_key;
    machine_fingerprint = fingerprint;
  }

  unfoldable pub claimed : Text → ClaimResponse → SessionState → SessionState
  claimed token response sess = record sess {
    invite_token = token;
    uid = response.uid;
    email = response.email;
    display_name = response.display_name;
    forgejo_token = response.forgejo_mcp_token;
    wireguard_config = response.wireguard_config;
  }

  unfoldable pub submit_claim :
      Options → SessionState → Text → World S M → Outcome SessionState × World S M
  unfolding claim_request claimed checkpoint
  submit_claim opts sess token w =
      let (answer, m) =
        ports.claim (edge_url opts) (compute_idempotency_key token fingerprint)
          (claim_request opts token sess) w.machine in
      and_then (on_error (λ e. with_code e failed) (answer, record w { machine = m }))
        (λ response. checkpoint token_claimed (claimed token response sess))

  unfoldable pub claim : Options → Action S M
  unfolding invite_token submit_claim
  claim opts sess w = and_then (invite_token opts sess w) (submit_claim opts sess)

  -- (*Service).stepClaim
  abbrev pub step_claim : Options → Action S M
  step_claim opts = skipped token_claimed (claim opts)

  unfoldable pub configure_network : Action S M
  unfolding checkpoint
  configure_network sess w =
      let m =
        if is_empty sess.wireguard_config
        then w.machine
        else ports.write_wireguard sess.wireguard_config w.machine in
      checkpoint network_configured sess (record w { machine = ports.trust_dev_ca m })

  -- (*Service).stepNetwork
  abbrev pub step_network : Action S M
  step_network = skipped network_configured configure_network

  pull : Text → Option (List Text) → M → M
  pull root none m = m
  pull root (some []) m = m
  pull root (some (rel ∷ rels)) m = ports.pull_assets root (rel ∷ rels) m

  -- CloneCore and PullAssets, with the paths of the repositories that were cloned
  unfoldable pub clone : Text → Text → M → List Text × M
  unfolding cloned pull
  clone root manifest m =
      if ports.exists manifest m
      then (let (outcome, m') = ports.clone_core root manifest m in
          (cloned outcome.0, pull root outcome.1 m'))
      else ([], m)

  unfoldable pub clone_workspace : Options → Text → Action S M
  unfolding clone checkpoint
  clone_workspace opts root sess w =
      let (paths, m) =
        clone root (ports.manifest_path root opts.manifest)
          (ports.ensure_workspace_dirs root w.machine) in
      checkpoint repos_cloned
        (record sess { cloned_repos = sess.cloned_repos ++ paths; workspace_path = root })
        (record w { machine = m })

  -- (*Service).stepWorkspace
  abbrev pub step_workspace : Options → Text → Action S M
  step_workspace opts root = skipped repos_cloned (clone_workspace opts root)

  unfoldable pub configure_mcp : Text → Action S M
  unfolding checkpoint
  configure_mcp root sess w =
      let m = ports.configure_mcp_env root sess.forgejo_token sess.uid w.machine in
      let m' = if is_empty ports.home_dir then m else ports.configure_shell ports.home_dir m in
      checkpoint mcp_configured sess (record w { machine = m' })

  -- (*Service).stepMCP
  abbrev pub step_mcp : Text → Action S M
  step_mcp root = skipped mcp_configured (configure_mcp root)

  should_start : Options → M → Bool × M
  should_start opts m =
      if not opts.start_stack && (not opts.skip_stack && not opts.non_interactive)
      then ports.yes_no (text "Would you like to start the local dev stack now (orbit dev up)?")
          true m
      else (opts.start_stack, m)

  start : Text → M → M
  start infra m = elim ports.stack_start [
    | none ↦ m
    | some up ↦ if ports.is_dir infra m then up infra m else m
  ]

  unfoldable pub start_stack : Options → Text → Action S M
  unfolding should_start start checkpoint
  start_stack opts root sess w =
      let (starts, m) = should_start opts w.machine in
      checkpoint completed sess
        (record w { machine = if starts then start (ports.infra_dir root) m else m })

  -- (*Service).stepStack
  abbrev pub step_stack : Options → Text → Action S M
  step_stack opts root = skipped dev_stack_ready (start_stack opts root)
