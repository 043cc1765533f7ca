-- ===== src/Release/Promote.antt =====
-- pkg/release/application/service.go: Demo and Prod. A result is returned with the error, where there is
-- one.
use orbit_cli.Prelude.{ℕ, Bool, true, false, ◌&&◌, [], ◌++◌, Option, none, some, if◌then◌else◌}
use orbit_cli.Prelude.Words.{Text, text, same, is_empty, trim_space}
use orbit_cli.Prelude.Result.{ok, err}
use orbit_cli.Clierr.{GoError, fail, failed, usage, unverified, with_message}
use orbit_cli.Gate.{MergeOptions, evaluate_checks, allowed, refused}
use orbit_cli.Release.{main_branch, demo_branch, publish_workflow}
use orbit_cli.Release.Ports.{Failure, Outcome, Repo, PullRequest, Method, Service}
use orbit_cli.Release.Select.{select_one, find_release_pr, library}
use orbit_cli.Release.Wait.{enforce_gate}

pub record DemoResult : Type 0 where
  pub repo : Text
  pub main_sha : Text
  pub created_branch : Bool
  pub up_to_date : Bool
  pub pull_request : Option PullRequest
  pub merged : Bool

pub record ProdResult : Type 0 where
  pub repo : Text
  pub library : Bool
  pub release_pr : Option PullRequest
  pub merged : Bool
  pub dispatched : Bool

-- what a use case returns, with the state that it leaves
abbrev pub Returned : Type 0 → Type 0 → Type 0
Returned A M = (A × Option (GoError Failure)) × M

abbrev pub no_demo : DemoResult
no_demo = record {
  repo = [];
  main_sha = [];
  created_branch = false;
  up_to_date = false;
  pull_request = none;
  merged = false;
}

abbrev pub no_prod : ProdResult
no_prod = record {
  repo = [];
  library = false;
  release_pr = none;
  merged = false;
  dispatched = false;
}

-- the options `--override` with a blank reason
abbrev pub blank_override : MergeOptions → Bool
blank_override o = o.override_set && is_empty (trim_space o.override)

module _ {M : Type 0} (service : Service M) (method : Method) (o : MergeOptions) where
  open service use {forge}

  module _ (repo : Repo) where
    -- the result of a call of the forge: `done` where it succeeds
    closed : {A : Type 0} → A → A → Outcome (Unit {0}) × M → Returned A M
    closed res done (err e, m) = ((res, some (with_message e)), m)
    closed res done (ok u, m) = ((done, none), m)

    unfoldable pub merge_demo : DemoResult → PullRequest → M → Returned DemoResult M
    unfolding closed
    merge_demo res pr m =
        closed res (record res { merged = true }) (forge.merge_pr repo.slug pr.number method m)

    after_comment : DemoResult → PullRequest → Outcome (Unit {0}) × M → Returned DemoResult M
    unfolding merge_demo
    after_comment res pr (err e, m) = ((res, some (with_message e)), m)
    after_comment res pr (ok u, m) = merge_demo res pr m

    -- Demo once the pull request is open; a check that does not pass is overridden in a comment
    opened : Bool → DemoResult → Outcome PullRequest × M → Returned DemoResult M
    unfolding after_comment merge_demo
    opened passed res (err e, m) = ((res, some (with_message e)), m)
    opened passed res (ok pr, m) =
        let res' = record res { pull_request = some pr } in
        if passed
        then merge_demo res' pr m
        else after_comment res' pr
            (forge.comment repo.slug pr.number (text "override: " ++ trim_space o.override) m)

    -- Demo where both branches are there and differ
    unfoldable pub promote : DemoResult → M → Returned DemoResult M
    unfolding opened
    promote res m = elim (forge.commit_checks repo.slug res.main_sha m) [
      | err e ↦ ((res, some (fail unverified)), m)
      | ok checks ↦ elim (evaluate_checks checks) [
        | allowed ↦ opened true res (forge.create_pr repo.slug main_branch demo_branch m)
        | refused reason ↦
            if is_empty (trim_space o.override)
            then ((res, some (fail failed)), m)
            else opened false res (forge.create_pr repo.slug main_branch demo_branch m)
      ]
    ]

    -- Demo with the commit of the main branch
    unfoldable pub demo_from : Text → M → Returned DemoResult M
    unfolding closed promote
    demo_from main_sha m =
        let res : DemoResult = record no_demo { repo = repo.name; main_sha = main_sha } in
        elim (forge.branch_sha repo.slug demo_branch m) [
          | err e ↦ ((res, some (with_message e)), m)
          | ok none ↦
              closed res (record res { created_branch = true; up_to_date = true })
                (forge.create_branch repo.slug demo_branch main_sha m)
          | ok (some demo_sha) ↦
              if same demo_sha main_sha
              then ((record res { up_to_date = true }, none), m)
              else promote res m
        ]

    unfoldable pub demo_repo : M → Returned DemoResult M
    unfolding demo_from
    demo_repo m =
        if is_empty repo.slug
        then ((no_demo, some (fail failed)), m)
        else if blank_override o
        then ((no_demo, some (fail usage)), m)
        else elim (forge.branch_sha repo.slug main_branch m) [
          | err e ↦ ((no_demo, some (with_message e)), m)
          | ok none ↦ ((no_demo, some (fail failed)), m)
          | ok (some main_sha) ↦ demo_from main_sha m
        ]

    unfoldable pub dispatched : ProdResult → Outcome (Unit {0}) × M → Returned ProdResult M
    unfolding closed
    dispatched res answer = closed res (record res { dispatched = true }) answer

    -- Prod after the merge
    unfoldable pub merged : ProdResult → Outcome (Unit {0}) × M → Returned ProdResult M
    unfolding dispatched
    merged res (err e, m) = ((res, some (with_message e)), m)
    merged res (ok u, m) =
        let res' = record res { merged = true } in
        if res.library
        then dispatched res' (forge.dispatch repo.slug publish_workflow main_branch m)
        else ((res', none), m)

    -- Prod after the gate
    unfoldable pub gated : ProdResult → PullRequest → Outcome (Unit {0}) × M → Returned ProdResult M
    unfolding merged
    gated res pr (err e, m) = ((res, some e), m)
    gated res pr (ok u, m) = merged res (forge.merge_pr repo.slug pr.number method m)

    -- Prod for a release pull request, with fuel for the wait
    unfoldable pub release : ℕ → ProdResult → PullRequest → M → Option (Returned ProdResult M)
    unfolding gated
    release fuel res pr m = elim (enforce_gate service fuel repo.slug pr.number o m) [
      | none ↦ none
      | some passage ↦ some (gated res pr passage)
    ]

    unfoldable pub prod_repo : ℕ → M → Option (Returned ProdResult M)
    unfolding release
    prod_repo fuel m =
        let res : ProdResult = record no_prod {
          repo = repo.name;
          library = library service repo;
        } in
        if is_empty repo.slug
        then some ((no_prod, some (fail failed)), m)
        else if blank_override o
        then some ((no_prod, some (fail usage)), m)
        else elim (forge.list_open repo.slug m) [
          | err e ↦ some ((res, some (with_message e)), m)
          | ok open_prs ↦ elim (find_release_pr open_prs) [
            | none ↦ some ((res, some (fail failed)), m)
            | some pr ↦ release fuel (record res { release_pr = some pr }) pr m
          ]
        ]

  -- (*Service).Demo
  unfoldable pub demo : Text → M → Returned DemoResult M
  unfolding demo_repo
  demo selector m = elim (select_one service selector) [
    | err e ↦ ((no_demo, some e), m)
    | ok repo ↦ demo_repo repo m
  ]

  -- (*Service).Prod
  unfoldable pub prod : ℕ → Text → M → Option (Returned ProdResult M)
  unfolding prod_repo
  prod fuel selector m = elim (select_one service selector) [
    | err e ↦ some ((no_prod, some e), m)
    | ok repo ↦ prod_repo repo fuel m
  ]
