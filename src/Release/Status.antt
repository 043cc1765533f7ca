-- ===== src/Release/Status.antt =====
-- pkg/release/application/service.go: Status, which reads the forge and never changes it.
use orbit_cli.Prelude.{
  ℕ, ◌+◌, Bool, true, ◌||◌, List, [], ◌∷◌, ◌++◌, Option, none, some, find, ◌==◌, length, map,
  if◌then◌else◌,
}
use orbit_cli.Prelude.Words.{Text, text, is_empty}
use orbit_cli.Prelude.Result.{ok, err}
use orbit_cli.Clierr.{GoError, fail, unverified}
use orbit_cli.Gate.{Check}
use orbit_cli.Release.{
  CheckState, check_state, main_branch, demo_branch, is_publish_or_deploy_workflow,
}
use orbit_cli.Release.Ports.{Failure, Outcome, Repo, PullRequest, WorkflowRun, Service}
use orbit_cli.Release.Select.{select_repos, find_release_pr, release_setup, library}

pub record ReleasePr : Type 0 where
  pub pr : PullRequest
  pub checks : List Check
  pub state : CheckState

pub record DemoStatus : Type 0 where
  pub sha : Option Text
  pub behind : ℕ

-- what could not be read
pub data Item : Type 0 where
  no_remote head_sha latest_tag release_pull_request demo_branch_state last_run : Item

pub record RepoStatus : Type 0 where
  pub repo : Repo
  pub release_setup : Bool
  pub library : Bool
  pub default_branch : Text
  pub head : Option Text
  pub tag : Option Text
  pub release_pr : Option ReleasePr
  pub demo : Option DemoStatus
  pub run : Option WorkflowRun
  pub unverified_items : List Item

value : {A : Type 0} → Outcome A → Option A
value (err e) = none
value (ok a) = some a

optional : {A : Type 0} → Outcome (Option A) → Option A
optional (err e) = none
optional (ok a) = a

-- the line that an error adds to Unverified
noted : {A : Type 0} → Item → Outcome A → List Item
noted item (err e) = item ∷ []
noted item (ok a) = []

module _ {M : Type 0} (service : Service M) where
  open service use {forge}

  branch_or_main : Repo → Text
  branch_or_main repo = if is_empty repo.default_branch then main_branch else repo.default_branch

  -- (*Service).headSHA
  unfoldable pub head_commit : Repo → Outcome Text
  unfolding branch_or_main
  head_commit repo = elim (service.rev_parse repo.dir (text "origin/" ++ branch_or_main repo)) [
    | ok sha ↦ ok sha
    | err e ↦ service.rev_parse repo.dir (branch_or_main repo)
  ]

  -- (*Service).releasePR; the first poll of the checks is read
  unfoldable pub release_pr : Repo → M → Outcome (Option ReleasePr)
  release_pr repo m = elim (forge.list_open repo.slug m) [
    | err e ↦ err e
    | ok open_prs ↦ elim (find_release_pr open_prs) [
      | none ↦ ok none
      | some pr ↦ elim (forge.checks repo.slug pr.number 0) [
        | err e ↦ err e
        | ok checks ↦ ok (some (record { pr = pr; checks = checks; state = check_state checks }))
      ]
    ]
  ]

  -- (*Service).demoStatus
  unfoldable pub demo_status : Repo → M → Outcome DemoStatus
  demo_status repo m = elim (forge.branch_sha repo.slug demo_branch m) [
    | err e ↦ err e
    | ok none ↦ ok (record { sha = none; behind = 0 })
    | ok (some sha) ↦ elim (forge.compare_ahead repo.slug demo_branch main_branch m) [
      | err e ↦ err e
      | ok behind ↦ ok (record { sha = some sha; behind = behind })
    ]
  ]

  is_reported : WorkflowRun → Bool
  is_reported run =
      is_publish_or_deploy_workflow run.name || is_publish_or_deploy_workflow run.display_title

  -- (*Service).lastRun
  unfoldable pub last_workflow_run : Repo → M → Outcome (Option WorkflowRun)
  unfolding is_reported
  last_workflow_run repo m = elim (forge.runs repo.slug m) [
    | err e ↦ err e
    | ok runs ↦ ok (find is_reported runs)
  ]

  -- statusOne on what git knows of the repository
  unfoldable pub local_status : Repo → RepoStatus
  unfolding noted value branch_or_main
  local_status repo =
      let head = head_commit repo in
      let tag = service.latest_tag repo.dir in
      record {
        repo = repo;
        release_setup = release_setup service repo;
        library = library service repo;
        default_branch = branch_or_main repo;
        head = value head;
        tag = value tag;
        release_pr = none;
        demo = none;
        run = none;
        unverified_items =
            (if is_empty repo.slug then no_remote ∷ [] else [])
            ++ (noted head_sha head ++ noted latest_tag tag);
      }

  -- (*Service).statusOne
  unfoldable pub status_one : M → Repo → RepoStatus
  unfolding local_status noted value optional
  status_one m repo =
      let status = local_status repo in
      if is_empty repo.slug
      then status
      else (let pr = release_pr repo m in
          let demo = demo_status repo m in
          let run = last_workflow_run repo m in
          record status {
            release_pr = optional pr;
            demo = value demo;
            run = optional run;
            unverified_items =
                status.unverified_items
                ++ (noted release_pull_request pr
                    ++ (noted demo_branch_state demo ++ noted last_run run));
          })

  unfoldable pub count_unverified : List RepoStatus → ℕ
  count_unverified [] = 0
  count_unverified (s ∷ statuses) = length s.unverified_items + count_unverified statuses

  -- (*Service).Status
  unfoldable pub status : Text → M → List RepoStatus × Option (GoError Failure)
  unfolding count_unverified
  status selector m = elim (select_repos service selector true) [
    | err e ↦ ([], some e)
    | ok repos ↦
        let statuses = map (status_one m) repos in
        (statuses, if count_unverified statuses == 0 then none else some (fail unverified))
  ]
