-- ===== src/Release/Tiers.antt =====
-- pkg/release/application/service.go: Check, on the forge or with the local release tier.
use orbit_cli.Prelude.{
  ℕ, suc, Bool, true, false, not, List, [], ◌∷◌, Option, none, some, ◌==◌, if◌then◌else◌,
}
use orbit_cli.Prelude.Words.{Text, is_empty}
use orbit_cli.Prelude.Dict.{Dict}
use orbit_cli.Prelude.Result.{ok, err}
use orbit_cli.Clierr.{GoError, fail, failed, unverified, with_message, exit_code}
use orbit_cli.Gate.{Check, MergeOptions, evaluate_checks, allowed, refused}
use orbit_cli.Release.{CheckState, check_state, no_checks, passing, valid_database_name}
use orbit_cli.Release.Ports.{Failure, Outcome, Repo, PullRequest, Local, Service}
use orbit_cli.Release.Select.{select_repos, find_release_pr}
use orbit_cli.Release.Wait.{wait_for_checks}
use orbit_cli.Release.Promote.{Returned}

-- CheckResult; `state` is none where the code leaves it empty
pub record CheckResult : Type 0 where
  pub repo : Text
  pub local_run : Bool
  pub release_pr : Option PullRequest
  pub checks : List Check
  pub state : Option CheckState
  pub database : Text

module _ {M : Type 0} (service : Service M) where
  open service use {forge, local_tier, database_name}

  abbrev pub new_result : Bool → Repo → CheckResult
  new_result local_run repo = record {
    repo = repo.name;
    local_run = local_run;
    release_pr = none;
    checks = [];
    state = none;
    database = [];
  }

  abbrev Checked : Type 0
  Checked = CheckResult × Option (GoError Failure)

  -- checkRemote once the checks are there
  unfoldable pub report : CheckResult → Option (Outcome (List Check)) → Option Checked
  report res none = none
  report res (some (err e)) = some (res, some (with_message e))
  report res (some (ok [])) = some (record res { state = some no_checks }, some (fail unverified))
  report res (some (ok (c ∷ checks))) =
      let res' = record res { checks = c ∷ checks; state = some (check_state (c ∷ checks)) } in
      elim (evaluate_checks (c ∷ checks)) [
        | allowed ↦ some (res', none)
        | refused reason ↦ some (res', some (fail failed))
      ]

  -- (*Service).checkRemote
  unfoldable pub check_remote : ℕ → MergeOptions → Repo → M → Option Checked
  unfolding report
  check_remote fuel o repo m =
      if is_empty repo.slug
      then some (new_result false repo, some (fail unverified))
      else elim (forge.list_open repo.slug m) [
        | err e ↦ some (new_result false repo, some (with_message e))
        | ok open_prs ↦ elim (find_release_pr open_prs) [
          | none ↦ some (new_result false repo, some (fail unverified))
          | some pr ↦
              report (record (new_result false repo) { release_pr = some pr })
                (wait_for_checks service fuel repo.slug pr.number o 0 none)
        ]
      ]

  -- the outcome of checkLocal: of the tests, and then of the drop
  verdict : CheckResult → Outcome (Unit {0}) → Outcome (Unit {0}) → Checked
  verdict res (err e) dropped = (res, some (fail failed))
  verdict res (ok u) (err e) = (res, some (fail unverified))
  verdict res (ok u) (ok v) = (record res { state = some passing }, none)

  module _ (tier : Local M) (repo : Repo) where
    -- checkLocal once the database is made: it is dropped whatever the tests say
    unfoldable pub run_and_drop : CheckResult → Dict Text → M → Checked × M
    unfolding verdict
    run_and_drop res env m =
        let (tested, m1) = tier.run_tests repo.dir env m in
        let (dropped, m2) = tier.drop_database repo.dir database_name m1 in
        (verdict res tested dropped, m2)

    created : CheckResult → Dict Text → Outcome (Unit {0}) × M → Checked × M
    unfolding run_and_drop
    created res env (err e, m) = ((res, some (fail unverified)), m)
    created res env (ok u, m) = run_and_drop res env m

    -- checkLocal with a tier
    unfoldable pub check_tier : M → Checked × M
    unfolding created
    check_tier m =
        if not (valid_database_name database_name)
        then ((new_result true repo, some (fail unverified)), m)
        else (let res = record (new_result true repo) { database = database_name } in
            elim (tier.local_env repo.dir database_name) [
              | err e ↦ ((res, some (fail unverified)), m)
              | ok env ↦ elim (tier.reachable repo.dir m) [
                | err e ↦ ((res, some (with_message e)), m)
                | ok u ↦ created res env (tier.create_database repo.dir database_name m)
              ]
            ])

  -- (*Service).checkLocal
  unfoldable pub check_local : Repo → M → Checked × M
  unfolding check_tier
  check_local repo m = elim local_tier [
    | none ↦ ((new_result true repo, some (fail unverified)), m)
    | some tier ↦ check_tier tier repo m
  ]

  -- checkLocal or checkRemote
  unfoldable pub check_one : ℕ → Bool → MergeOptions → Repo → M → Option (Checked × M)
  unfolding check_local check_remote
  check_one fuel local_run o repo m =
      if local_run
      then some (check_local repo m)
      else elim (check_remote fuel o repo m) [ none ↦ none | some checked ↦ some (checked, m) ]

  -- the loop of Check: its results, and how many failed and how many could not be verified
  pub record Tally : Type 0 where
    pub results : List CheckResult
    pub failures : ℕ
    pub unverifieds : ℕ

  count : Checked → Tally → Tally
  count (res, e) rest =
      let code = exit_code e in
      if code == 0
      then record rest { results = res ∷ rest.results }
      else if code == 1
      then record rest { results = res ∷ rest.results; failures = suc rest.failures }
      else record rest { results = res ∷ rest.results; unverifieds = suc rest.unverifieds }

  abbrev no_tally : Tally
  no_tally = record { results = []; failures = 0; unverifieds = 0 }

  unfoldable pub check_all : ℕ → Bool → MergeOptions → List Repo → M → Option (Tally × M)
  unfolding check_one count
  check_all fuel local_run o [] m = some (no_tally, m)
  check_all fuel local_run o (repo ∷ repos) m = elim (check_one fuel local_run o repo m) [
    | none ↦ none
    | some checked ↦ elim (check_all fuel local_run o repos checked.1) [
      | none ↦ none
      | some tallied ↦ some (count checked.0 tallied.0, tallied.1)
    ]
  ]

  total : Tally → List CheckResult × Option (GoError Failure)
  total t =
      if not (t.failures == 0)
      then (t.results, some (fail failed))
      else if not (t.unverifieds == 0)
      then (t.results, some (fail unverified))
      else (t.results, none)

  -- (*Service).Check
  unfoldable pub check : ℕ → Bool → MergeOptions → Text → M → Option (Returned (List CheckResult) M)
  unfolding check_all total
  check fuel local_run o selector m = elim (select_repos service selector true) [
    | err e ↦ some (([], some e), m)
    | ok [] ↦ some (([], some (fail unverified)), m)
    | ok (repo ∷ repos) ↦ elim (check_all fuel local_run o (repo ∷ repos) m) [
      | none ↦ none
      | some tallied ↦ some (total tallied.0, tallied.1)
    ]
  ]
