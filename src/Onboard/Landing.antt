-- ===== src/Onboard/Landing.antt =====
-- Where a step of the onboarding flow leaves the session and its checkpoint.
use orbit_cli.Prelude.{◌≤◌, ◌≡◌, false, some, arith, refl, ap, ◌∙◌, inl, inr, List, ◌++◌}
use orbit_cli.Prelude.Words.{Text}
use orbit_cli.Prelude.Result.{ok, err, Result-cases, and_then, on_error}
use orbit_cli.Clierr.{GoError}
use orbit_cli.Onboard.Stage.{
  Stage, stage_order, doctor_passed, keypair_ready, token_claimed, network_configured, repos_cloned,
  mcp_configured, dev_stack_ready, completed,
}
use orbit_cli.Onboard.Options.{Options}
use orbit_cli.Onboard.Session.{Outcome, SessionState, SessionLaws, Failure}
use orbit_cli.Onboard.Machine.{Service, World, DiagnosticResult}
use orbit_cli.Onboard.Steps.{
  checkpoint, diagnose, preflight, configure_key, claim, invite_token, submit_claim, claimed,
  configure_network, clone_workspace, clone, configure_mcp, start_stack,
}
use orbit_cli.Prelude.{List}

module _ {S M : Type 0} (service : Service S M) where
  open service use {sessions, ports}

  -- The step succeeds with the stage reached and the session stored, or fails with what was stored.
  unfoldable pub Lands : Stage → World S M → Outcome SessionState × World S M → Type 0
  Lands stage w (ok s, w') =
      (stage_order stage ≤ stage_order s.current_stage) × (sessions.load w'.store ≡ ok (some s))
  Lands stage w (err e, w') = sessions.load w'.store ≡ sessions.load w.store

  module _ (laws : SessionLaws sessions) where
    checkpoint-Lands :
        (target stage : Stage) (sess : SessionState) (w : World S M)
        → stage_order target ≤ stage_order stage
        → Lands target w (checkpoint service stage sess w)
    unfolding Lands checkpoint
    checkpoint-Lands target stage sess w h =
        let sess' : SessionState = record sess { current_stage = stage } in
        elim (Result-cases (sessions.save sess' w.store).0) [
          | inl (e, failure) ↦ ground (arith, failure, laws.save_fails sess' w.store e failure)
          | inr (s, success) ↦
              let (stored, kept) = laws.save_loads sess' s w.store success in
              ground (arith, success, stored, ap stage_order kept)
        ]

    weaken :
        (target : Stage) (w w' : World S M) (r : Outcome SessionState × World S M)
        → w'.store ≡ w.store
        → Lands target w' r
        → Lands target w r
    unfolding Lands
    weaken target w w' (ok s, w'') same h = h
    weaken target w w' (err e, w'') same h = h ∙ ap sessions.load same

    next-Lands :
        {A : Type 0} (target : Stage) (w : World S M) (r : Outcome A × World S M)
        (next : A → World S M → Outcome SessionState × World S M)
        → r.1.store ≡ w.store
        → ((a : A) (w' : World S M) → Lands target w' (next a w'))
        → Lands target w (and_then r next)
    unfolding Lands
    next-Lands target w (err e, w') next same h = ap sessions.load same
    next-Lands target w (ok a, w') next same h = weaken target w w' (next a w') same (h a w')

    pub configure_network-Lands :
        (sess : SessionState) (w : World S M)
        → Lands network_configured w (configure_network service sess w)
    unfolding configure_network
    configure_network-Lands sess w =
        weaken network_configured w _ _ refl
          (checkpoint-Lands network_configured network_configured sess _ (omega arith))

    pub clone_workspace-Lands :
        (opts : Options) (root : Text) (sess : SessionState) (w : World S M)
        → Lands repos_cloned w (clone_workspace service opts root sess w)
    unfolding clone_workspace
    clone_workspace-Lands opts root sess w =
        let paths : List Text =
          (clone service root (ports.manifest_path root opts.manifest)
            (ports.ensure_workspace_dirs root w.machine)).0 in
        weaken repos_cloned w _ _ refl (
          checkpoint-Lands repos_cloned repos_cloned
            (record sess { cloned_repos = sess.cloned_repos ++ paths; workspace_path = root }) _
            (omega arith))

    pub configure_mcp-Lands :
        (root : Text) (sess : SessionState) (w : World S M)
        → Lands mcp_configured w (configure_mcp service root sess w)
    unfolding configure_mcp
    configure_mcp-Lands root sess w =
        weaken mcp_configured w _ _ refl
          (checkpoint-Lands mcp_configured mcp_configured sess _ (omega arith))

    pub start_stack-Lands :
        (opts : Options) (root : Text) (sess : SessionState) (w : World S M)
        → Lands dev_stack_ready w (start_stack service opts root sess w)
    unfolding start_stack stage_order
    start_stack-Lands opts root sess w =
        weaken dev_stack_ready w _ _ refl
          (checkpoint-Lands dev_stack_ready completed sess _ (omega arith))

    on_error-store :
        {A : Type 0} (f : GoError Failure → GoError Failure) (r : Outcome A × World S M)
        → (on_error f r).1 ≡ r.1
    on_error-store f (err e, w) = refl
    on_error-store f (ok a, w) = refl

    pub configure_key-Lands :
        (opts : Options) (sess : SessionState) (w : World S M)
        → Lands keypair_ready w (configure_key service opts sess w)
    unfolding configure_key
    configure_key-Lands opts sess w =
        next-Lands keypair_ready w _ _ (ap (λ v. v.store) (on_error-store _ _)) (λ key w'.
          checkpoint-Lands keypair_ready keypair_ready (record sess { ssh_public_key = key }) w'
            (omega arith))

    submit_claim-Lands :
        (opts : Options) (sess : SessionState) (token : Text) (w : World S M)
        → Lands token_claimed w (submit_claim service opts sess token w)
    unfolding submit_claim
    submit_claim-Lands opts sess token w =
        next-Lands token_claimed w _ _ (ap (λ v. v.store) (on_error-store _ _)) (λ response w'.
          checkpoint-Lands token_claimed token_claimed (claimed service token response sess) w'
            (omega arith))

    invite_token-store :
        (opts : Options) (sess : SessionState) (w : World S M)
        → (invite_token service opts sess w).1.store ≡ w.store
    unfolding invite_token
    invite_token-store opts sess w = ground arith

    pub claim-Lands :
        (opts : Options) (sess : SessionState) (w : World S M)
        → Lands token_claimed w (claim service opts sess w)
    unfolding claim
    claim-Lands opts sess w =
        next-Lands token_claimed w (invite_token service opts sess w) _
          (invite_token-store opts sess w) (λ token w'. submit_claim-Lands opts sess token w')

    preflight-store :
        (opts : Options) (report : List DiagnosticResult) (w : World S M)
        → (preflight service opts report w).1.store ≡ w.store
    unfolding preflight
    preflight-store opts report w = ground arith

    pub diagnose-Lands :
        (opts : Options) (sess : SessionState) (w : World S M)
        → opts.dry_run ≡ false
        → Lands doctor_passed w (diagnose service opts sess w)
    unfolding diagnose
    diagnose-Lands opts sess w h = rw h (
        next-Lands doctor_passed w _ _ (preflight-store opts _ _)
          (λ u w'. checkpoint-Lands doctor_passed doctor_passed sess w' (omega arith)))
