-- ===== src/Onboard/Resuming.antt =====
-- A run of the onboarding flow that stops and is taken up again at its checkpoint.
use orbit_cli.Prelude.{
  ℕ, ◌≡◌, true, false, List, ◌++◌, some, arith, refl, ap, ◌∙◌, sym, All, All-take, take, drop,
  take-append-drop,
}
use mathlib.Core.Path.{subst}
use orbit_cli.Prelude.Words.{Text}
use orbit_cli.Prelude.Result.{ok, and_then}
use orbit_cli.Onboard.Stage.{Stage, steps}
use orbit_cli.Onboard.Options.{Options}
use orbit_cli.Onboard.Session.{SessionState, SessionLaws}
use orbit_cli.Onboard.Machine.{Service, World}
use orbit_cli.Onboard.Run.{flow, later_steps, inception, take_up, loaded}
use orbit_cli.Onboard.Landing.{
  diagnose-Lands, configure_key-Lands, claim-Lands, configure_network-Lands, clone_workspace-Lands,
  configure_mcp-Lands, start_stack-Lands,
}
use orbit_cli.Onboard.Progress.{
  Plan, plan, perform, Reached, Progresses, Landing, stages_of, perform-Progresses, perform_skips,
  perform-append,
}

module _ {S M : Type 0} (service : Service S M) where
  open service use {sessions}

  module _ (laws : SessionLaws sessions) (opts : Options) (root : Text) where
    flow_performs :
        (sess : SessionState) (w : World S M)
        → opts.dry_run ≡ false
        → flow service opts root sess w ≡ perform service (plan service opts root) sess w
    unfolding flow later_steps perform
    flow_performs sess w h = rw h refl

    plan_lands : opts.dry_run ≡ false → All (Landing service) (plan service opts root)
    plan_lands h = (
      (λ sess w. diagnose-Lands service laws opts sess w h),
      (
        (λ sess w. configure_key-Lands service laws opts sess w),
        (
          (λ sess w. claim-Lands service laws opts sess w),
          (
            (λ sess w. configure_network-Lands service laws sess w),
            (
              (λ sess w. clone_workspace-Lands service laws opts root sess w),
              (
                (λ sess w. configure_mcp-Lands service laws root sess w),
                ((λ sess w. start_stack-Lands service laws opts root sess w), tt),
              ),
            ),
          ),
        ),
      ),
    )

    -- For a store under the laws that holds the session, and no dry run: where the flow succeeds, every
    -- stage of Steps is reached and the store holds the session that it returns; where it fails, at
    -- whatever step, the store holds a session that has not fallen back.
    pub flow_progresses :
        (sess : SessionState) (w : World S M)
        → opts.dry_run ≡ false
        → sessions.load w.store ≡ ok (some sess)
        → Progresses service steps sess (flow service opts root sess w)
    flow_progresses sess w h stored =
        rw (flow_performs sess w h)
          (perform-Progresses service (plan service opts root) sess w (plan_lands h) stored)

    reaches :
        (stages : List Stage) (sess s : SessionState) (w' : World S M)
        → Progresses service stages sess (ok s, w')
        → Reached service stages s w'
    unfolding Progresses
    reaches stages sess s w' p = p.1

    resume_plan :
        (done rest : Plan S M) (sess s : SessionState) (w w' : World S M)
        → All (Landing service) done
        → sessions.load w.store ≡ ok (some sess)
        → perform service done sess w ≡ (ok s, w')
        → (perform service (done ++ rest) s w' ≡ perform service (done ++ rest) sess w)
          × (sessions.load w'.store ≡ ok (some s))
    resume_plan done rest sess s w w' land stored h =
        let (all, loads) = reaches (stages_of service done) sess s w' (
          subst (Progresses service (stages_of service done) sess) h
            (perform-Progresses service done sess w land stored)) in
        (
          perform-append service done rest s w'
              ∙ (ap (λ r. and_then r (perform service rest))
                    (perform_skips service done s w' all ∙ sym h)
                  ∙ sym (perform-append service done rest sess w)),
          loads,
        )

    inception_resumes :
        (s : SessionState) (w : World S M)
        → opts.resume ≡ true
        → sessions.has_pending w.store ≡ true
        → sessions.load w.store ≡ ok (some s)
        → inception service opts w ≡ (ok s, w)
    unfolding inception take_up loaded
    inception_resumes s w resume pending loads = ground (arith, pending, loads, resume)

    -- For a store under the laws that holds the session, and no dry run: a flow that stops after any
    -- number of its steps leaves the session stored, a later run with `--resume` begins from it where
    -- it is pending, and the flow from there has the same result, in the session and in the world, as the
    -- flow that was not interrupted.
    pub flow_resumes :
        (k : ℕ) (sess s : SessionState) (w w' : World S M)
        → opts.dry_run ≡ false
        → sessions.load w.store ≡ ok (some sess)
        → perform service (take k (plan service opts root)) sess w ≡ (ok s, w')
        → (flow service opts root s w' ≡ flow service opts root sess w)
          × ((opts.resume ≡ true
                → sessions.has_pending w'.store ≡ true
                → inception service opts w' ≡ (ok s, w'))
              × (sessions.load w'.store ≡ ok (some s)))
    flow_resumes k sess s w w' h stored stopped =
        let steps' : Plan S M = plan service opts root in
        let (again, loads) =
          resume_plan (take k steps') (drop k steps') sess s w w'
            (All-take (Landing service) k steps' (plan_lands h)) stored stopped in
        (
          flow_performs s w' h
              ∙ (subst (λ p. perform service p s w' ≡ perform service p sess w)
                    (take-append-drop k steps') again
                  ∙ sym (flow_performs sess w h)),
          (λ resume pending. inception_resumes s w' resume pending loads, loads),
        )
