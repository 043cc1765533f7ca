-- ===== src/Onboard/Progress.antt =====
-- The onboarding flow as a list of actions under their stages: what it reaches, what it skips.
use orbit_cli.Prelude.{
  ◌≤◌, ◌≡◌, List, [], ◌∷◌, ◌++◌, some, arith, refl, ◌∙◌, inl, inr, Bool-cases, All,
}
use orbit_cli.Prelude.Words.{Text}
use orbit_cli.Prelude.Result.{ok, err, and_then}
use orbit_cli.Onboard.Stage.{
  Stage, stage_order, is_stage_completed, doctor_passed, keypair_ready, token_claimed,
  network_configured, repos_cloned, mcp_configured, dev_stack_ready,
}
use orbit_cli.Onboard.Options.{Options}
use orbit_cli.Onboard.Session.{Outcome, SessionState}
use orbit_cli.Onboard.Machine.{Service, World, Action}
use orbit_cli.Onboard.Steps.{
  skipped, diagnose, configure_key, claim, configure_network, clone_workspace, configure_mcp,
  start_stack,
}
use orbit_cli.Onboard.Landing.{Lands}

-- the actions of the flow under the stages of Steps
abbrev pub Plan : Type 0 → Type 0 → Type 0
Plan S M = List (Stage × Action S M)

module _ {S M : Type 0} (service : Service S M) where
  open service use {sessions}

  abbrev pub plan : Options → Text → Plan S M
  plan opts root =
      (doctor_passed, diagnose service opts)
      ∷ (keypair_ready, configure_key service opts)
      ∷ (token_claimed, claim service opts)
      ∷ (network_configured, configure_network service)
      ∷ (repos_cloned, clone_workspace service opts root)
      ∷ (mcp_configured, configure_mcp service root)
      ∷ (dev_stack_ready, start_stack service opts root)
      ∷ []

  -- one after the other, until one fails
  unfoldable pub perform : Plan S M → Action S M
  perform [] sess w = (ok sess, w)
  perform ((stage, action) ∷ rest) sess w =
      and_then (skipped service stage action sess w) (perform rest)

  -- the stages are reached and the session is the one stored
  abbrev pub Reached : List Stage → SessionState → World S M → Type 0
  Reached stages sess w =
      All (λ stage. stage_order stage ≤ stage_order sess.current_stage) stages
      × (sessions.load w.store ≡ ok (some sess))

  -- From a session of rank `rank`: success reaches the stages, failure leaves a session stored that has
  -- lost none.
  unfoldable pub Progresses : List Stage → SessionState → Outcome SessionState × World S M → Type 0
  Progresses stages sess (ok s, w) =
      (stage_order sess.current_stage ≤ stage_order s.current_stage) × Reached stages s w
  Progresses stages sess (err e, w) =
      (s : SessionState) × (sessions.load w.store ≡ ok (some s))
      × (stage_order sess.current_stage ≤ stage_order s.current_stage)

  abbrev pub Landing : Stage × Action S M → Type 0
  Landing step = (sess : SessionState) (w : World S M) → Lands service step.0 w (step.1 sess w)

  lands_progress :
      (stage : Stage) (sess : SessionState) (w : World S M) (r : Outcome SessionState × World S M)
      → stage_order sess.current_stage ≤ stage_order stage
      → sessions.load w.store ≡ ok (some sess)
      → Lands service stage w r
      → Progresses (stage ∷ []) sess r
  unfolding Progresses Lands
  lands_progress stage sess w (ok s, w') h stored (reached, loads) =
      (omega (arith, h, reached), ((reached, tt), loads))
  lands_progress stage sess w (err e, w') h stored loads = (sess, loads ∙ stored, omega arith)

  skipped-Progresses :
      (stage : Stage) (action : Action S M) (sess : SessionState) (w : World S M)
      → Lands service stage w (action sess w)
      → sessions.load w.store ≡ ok (some sess)
      → Progresses (stage ∷ []) sess (skipped service stage action sess w)
  unfolding Progresses skipped is_stage_completed
  skipped-Progresses stage action sess w lands stored =
      elim (Bool-cases (is_stage_completed sess.current_stage stage)) [
        | inl done ↦ rw done (omega arith, ((ground (arith, done), tt), stored))
        | inr todo ↦
            rw todo
              (lands_progress stage sess w (action sess w) (ground (arith, todo)) stored lands)
      ]

  chain :
      (stage : Stage) (stages : List Stage) (sess s : SessionState)
      (r : Outcome SessionState × World S M)
      → stage_order sess.current_stage ≤ stage_order s.current_stage
      → stage_order stage ≤ stage_order s.current_stage
      → Progresses stages s r
      → Progresses (stage ∷ stages) sess r
  unfolding Progresses
  chain stage stages sess s (ok s', w) h reached (more, (all, loads)) =
      (omega (arith, h, more), ((omega (arith, reached, more), all), loads))
  chain stage stages sess s (err e, w) h reached (s', loads, more) =
      (s', loads, omega (arith, h, more))

  then-Progresses :
      (stage : Stage) (stages : List Stage) (sess : SessionState)
      (r : Outcome SessionState × World S M) (next : Action S M)
      → Progresses (stage ∷ []) sess r
      → ((s : SessionState) (w : World S M)
          → sessions.load w.store ≡ ok (some s)
          → Progresses stages s (next s w))
      → Progresses (stage ∷ stages) sess (and_then r next)
  unfolding Progresses
  then-Progresses stage stages sess (ok s, w) next (more, (all, loads)) h =
      chain stage stages sess s (next s w) more all.0 (h s w loads)
  then-Progresses stage stages sess (err e, w) next p h = p

  abbrev pub stages_of : Plan S M → List Stage
  stages_of [] = []
  stages_of (step ∷ rest) = step.0 ∷ stages_of rest

  pub perform-Progresses :
      (plan : Plan S M) (sess : SessionState) (w : World S M)
      → All Landing plan
      → sessions.load w.store ≡ ok (some sess)
      → Progresses (stages_of plan) sess (perform plan sess w)
  unfolding perform Progresses
  perform-Progresses [] sess w land stored = (omega arith, (tt, stored))
  perform-Progresses ((stage, action) ∷ rest) sess w land stored =
      then-Progresses stage (stages_of rest) sess (skipped service stage action sess w)
        (perform rest) (skipped-Progresses stage action sess w (land.0 sess w) stored)
        (λ s w' stored'. perform-Progresses rest s w' land.1 stored')

  pub perform_skips :
      (plan : Plan S M) (sess : SessionState) (w : World S M)
      → All (λ stage. stage_order stage ≤ stage_order sess.current_stage) (stages_of plan)
      → perform plan sess w ≡ (ok sess, w)
  unfolding perform skipped is_stage_completed
  perform_skips [] sess w all = refl
  perform_skips ((stage, action) ∷ rest) sess w all =
      ground (arith, all.0, perform_skips rest sess w all.1)

  through :
      (done rest : Plan S M) (r : Outcome SessionState × World S M)
      → ((sess : SessionState) (w : World S M)
          → perform (done ++ rest) sess w ≡ and_then (perform done sess w) (perform rest))
      → and_then r (perform (done ++ rest)) ≡ and_then (and_then r (perform done)) (perform rest)
  through done rest (err e, w) h = refl
  through done rest (ok sess, w) h = h sess w

  pub perform-append :
      (done rest : Plan S M) (sess : SessionState) (w : World S M)
      → perform (done ++ rest) sess w ≡ and_then (perform done sess w) (perform rest)
  unfolding perform
  perform-append [] rest sess w = refl
  perform-append ((stage, action) ∷ done) rest sess w =
      through done rest (skipped service stage action sess w) (perform-append done rest)
