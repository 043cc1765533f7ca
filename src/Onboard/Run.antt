-- ===== src/Onboard/Run.antt =====
-- pkg/onboard/application/service.go: one invocation, with the session that it begins from, the
-- flow of steps, and the maintenance modes.
use orbit_cli.Prelude.{
  Bool, true, false, not, ◌&&◌, ◌||◌, List, [], ◌∷◌, ◌++◌, Option, none, some, if◌then◌else◌,
}
use orbit_cli.Prelude.Words.{Text, text, same, is_empty, has_prefix}
use orbit_cli.Prelude.Result.{ok, err, and_then, on_error}
use orbit_cli.Clierr.{fail, wrap, failed}
use orbit_cli.Onboard.Stage.{Stage, init, doctor_passed, is_stage_completed}
use orbit_cli.Onboard.Options.{Options, discard_checkpoint}
use orbit_cli.Onboard.Session.{Outcome, SessionState}
use orbit_cli.Onboard.Machine.{Service, World, Action}
use orbit_cli.Onboard.Steps.{
  step_diagnostics, step_keypair, step_claim, step_network, step_workspace, step_mcp, step_stack,
}

-- Result, without the progress events
pub record Report : Type 0 where
  pub session_id : Text
  pub stage : Stage
  pub uid : Text
  pub email : Text
  pub display_name : Text
  pub workspace : Text
  pub cloned_repos : List Text
  pub dry_run : Bool
  pub reset : Bool
  pub rolled_back : Bool
  pub bundle_path : Text

-- Result{} with the workspace
abbrev pub empty_report : Text → Report
empty_report root = record {
  session_id = [];
  stage = init;
  uid = [];
  email = [];
  display_name = [];
  workspace = root;
  cloned_repos = [];
  dry_run = false;
  reset = false;
  rolled_back = false;
  bundle_path = [];
}

unfoldable pub loaded : Outcome (Option SessionState) → Option SessionState
loaded (err e) = none
loaded (ok found) = found

module _ {S M : Type 0} (service : Service S M) where
  open service use {sessions, ports}

  -- `s.Sessions.Create` and `_ = s.Sessions.Save`: the session as it is in memory afterwards
  begin : Options → World S M → SessionState × World S M
  begin opts w =
      let (sess, store) = sessions.create opts.email opts.name w.store in
      let (saved, store') = sessions.save sess store in
      (stamped sess saved, record w { store = store' })
    where
      stamped : SessionState → Outcome SessionState → SessionState
      stamped sess (ok s) = s
      stamped sess (err e) = sessions.stamp sess

  restart : Options → World S M → SessionState × World S M
  unfolding begin
  restart opts w = begin opts (record w { store = (sessions.clear w.store).1 })

  -- what is done with a session that is found
  unfoldable pub take_up : Options → SessionState → World S M → Outcome SessionState × World S M
  unfolding restart discard_checkpoint
  take_up opts found w =
      if opts.resume
      then (ok found, w)
      else if not opts.non_interactive && not opts.json
      then (let (resumes, m) =
            ports.yes_no
              (text "Would you like to resume this session? (Enter 'n' to discard checkpoint)") true
              w.machine in
          let w' = record w { machine = m } in
          if resumes then (ok found, w') else (let (sess, w'') = restart opts w' in (ok sess, w'')))
      else if not opts.dry_run
          && (not (is_empty opts.token) && (not opts.resume && not (discard_checkpoint opts)))
      then (err (fail failed), w)
      else (let (sess, w') = restart opts w in (ok sess, w'))

  -- (*Service).inception
  unfoldable pub inception : Options → World S M → Outcome SessionState × World S M
  unfolding take_up begin loaded
  inception opts w =
      let found = if sessions.has_pending w.store then loaded (sessions.load w.store) else none in
      elim found [
        | some sess ↦ take_up opts sess w
        | none ↦ (let (sess, w') = begin opts w in (ok sess, w'))
      ]

  -- the steps that follow the diagnostics
  unfoldable pub later_steps : Options → Text → Action S M
  later_steps opts root sess w = and_then (step_keypair service opts sess w) (λ sess w.
      and_then (step_claim service opts sess w) (λ sess w.
        and_then (step_network service sess w) (λ sess w.
          and_then (step_workspace service opts root sess w) (λ sess w.
            and_then (step_mcp service root sess w) (λ sess w.
              and_then (step_stack service opts root sess w) (λ sess w. (ok sess, w)))))))

  -- (*Service).result
  unfoldable pub result : Report → SessionState → Report
  result res sess = record res {
    session_id = sess.id;
    stage = sess.current_stage;
    uid = sess.uid;
    email = sess.email;
    display_name = sess.display_name;
    cloned_repos = sess.cloned_repos;
    workspace = if is_empty res.workspace then sess.workspace_path else res.workspace;
  }

  -- the flow from a session on
  unfoldable pub flow : Options → Text → Action S M
  unfolding later_steps
  flow opts root sess w =
      and_then (step_diagnostics service opts sess w)
        (λ sess w. if opts.dry_run then (ok sess, w) else later_steps opts root sess w)

  -- (*Service).reset
  unfoldable pub reset : Text → World S M → Outcome Report × World S M
  reset root w =
      let (cleared, store) = sessions.clear w.store in
      and_then (on_error (wrap failed) (cleared, record w { store = store }))
        (λ u w. (ok (record (empty_report root) { reset = true }), w))

  -- filepath.IsAbs and filepath.Join, for paths that are clean
  joined : Text → Text → Text
  joined root repo = if has_prefix repo (text "/") then repo else root ++ b'/' ∷ repo

  unfoldable pub remove_repos : Text → List Text → M → M
  unfolding joined
  remove_repos root [] m = m
  remove_repos root (repo ∷ repos) m =
      let path = joined root repo in
      remove_repos root repos (if ports.is_dir path m then ports.remove path m else m)

  remove_file : Text → M → M
  remove_file path m = if ports.exists path m then ports.remove path m else m

  -- what rollback does on the server and on the machine
  unfoldable pub undo : Text → Text → SessionState → M → M
  unfolding remove_repos remove_file
  undo root edge sess m =
      let m1 =
        if not (is_empty sess.uid) && not (is_empty edge)
        then ports.rollback edge sess.uid m
        else m in
      let m2 = remove_repos root sess.cloned_repos m1 in
      let m3 =
        if is_empty ports.home_dir
        then m2
        else remove_file (ports.home_dir ++ text "/.config/orbit/wg0.conf") m2 in
      remove_file (root ++ text "/.cursor/mcp.env") m3

  -- (*Service).rollback
  unfoldable pub rollback : Text → Text → World S M → Outcome Report × World S M
  unfolding undo
  rollback root edge w = and_then (on_error (wrap failed) (sessions.load w.store, w)) (λ found w.
      elim found [
        | none ↦ (ok (empty_report root), w)
        | some sess ↦
            let (cleared, store) = sessions.clear w.store in
            let w' : World S M = record {
              store = store;
              machine = undo root edge sess w.machine;
            } in
            and_then (on_error (wrap failed) (cleared, w')) (λ u w. (
              ok (record (empty_report root) { rolled_back = true; stage = sess.current_stage }),
              w,
            ))
      ])

  -- (*Service).diagnosticBundle
  unfoldable pub diagnostic_bundle : Text → Options → World S M → Outcome Report × World S M
  unfolding loaded
  diagnostic_bundle root opts w =
      let target =
        if (same opts.diag_bundle (text "default") || is_empty opts.diag_bundle)
          && not (is_empty opts.bundle_arg)
        then opts.bundle_arg
        else opts.diag_bundle in
      let (written, m) =
        ports.write_bundle root (loaded (sessions.load w.store)) target w.machine in
      and_then (written, record w { machine = m })
        (λ path w. (ok (record (empty_report root) { bundle_path = path }), w))

  -- (*Service).Run
  unfoldable pub run : Options → World S M → Outcome Report × World S M
  unfolding reset rollback diagnostic_bundle inception flow result discard_checkpoint
  run opts w =
      let root = ports.workspace_root opts.workspace in
      if discard_checkpoint opts
      then reset root w
      else if opts.rollback
      then rollback root opts.edge_url w
      else if not (is_empty opts.diag_bundle)
      then diagnostic_bundle root opts w
      else and_then (inception opts w) (λ sess w.
        let previews = opts.dry_run && not (is_stage_completed sess.current_stage doctor_passed) in
        and_then (flow opts root sess w)
          (λ sess' w. (ok (result (record (empty_report root) { dry_run = previews }) sess'), w)))
