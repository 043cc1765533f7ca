-- ===== src/Release/Tests.antt =====
-- A release of one repository on a forge that lists what was done to it.
use orbit_cli.Prelude.{ℕ, zero, suc, ◌*◌, ◌≡◌, true, false, List, [], ◌∷◌, ◌++◌, none, some, refl}
use orbit_cli.Prelude.Int.{pos}
use orbit_cli.Prelude.Words.{Text, text, same, has_prefix, trim_space, to_lower}
use orbit_cli.Prelude.Result.{ok, err}
use orbit_cli.Clierr.{fail, failed}
use orbit_cli.Gate.{
  Check, MergeOptions, poll, count_pending, check_name_set, same_check_name_set, has_all,
  evaluate_checks, tally, tally_check,
}
use orbit_cli.Release.{is_release_head}
use orbit_cli.Release.Ports.{Repo, PullRequest, merge, Forge, Service}
use orbit_cli.Release.Select.{
  select_one, select_repos, matching, repo_matches, sort, insert, find_release_pr, library,
}
use orbit_cli.Release.Wait.{wait_for_checks, settled, timeout, judge, enforce_gate}
use orbit_cli.Release.Promote as Promote
use orbit_cli.Release.Promote.{ProdResult, Returned, prod, prod_repo, release, gated}
use orbit_cli.Release.Mirror.{seen, polled, told, timed, wait_for_checks_mirrors}
use orbit_cli.Release.Cleared.{IsFirstRelease}
use orbit_cli.Release.Gated.{IsMerged, prod_gated}

abbrev build : Text → Check
build bucket = record { name = text "build"; bucket = bucket }

abbrev answers : ℕ → List Check
answers zero = build (text "pending") ∷ []
answers (suc i) = build (text "pass") ∷ []

abbrev pull_request : PullRequest
pull_request = record {
  number = 7;
  url = [];
  title = [];
  head = text "release-please--main";
  base = text "main";
}

abbrev Log : Type 0
Log = List Text

abbrev forge : Forge Log
forge = record {
  list_open = λ slug log. ok (pull_request ∷ []);
  checks = λ slug ref i. ok (answers i);
  commit_checks = λ slug sha log. ok [];
  branch_sha = λ slug branch log. ok none;
  runs = λ slug log. ok [];
  compare_ahead = λ slug base head log. ok 0;
  merge_pr = λ slug ref method log. (ok tt, log ++ text "merge" ∷ []);
  comment = λ slug ref body log. (ok tt, log ++ body ∷ []);
  create_branch = λ slug branch sha log. (ok tt, log);
  create_pr = λ slug base head log. (ok pull_request, log);
  dispatch = λ slug workflow ref log. (ok tt, log);
}

abbrev repo : Repo
repo = record {
  name = text "api";
  path = text "services/api";
  dir = text "/w/services/api";
  default_branch = text "main";
  scope = text "services";
  slug = text "manova/api";
}

abbrev service : Service Log
service = record {
  repos = ok (repo ∷ []);
  exists = λ path. false;
  rev_parse = λ dir ref. err (fail failed);
  latest_tag = λ dir. err (fail failed);
  forge = forge;
  local_tier = none;
  clean = λ path. path;
  abs = λ path. none;
  register_window = pos 0;
  wait_timeout = pos 0;
  elapsed = λ i. i * 10000000000;
  database_name = text "test_00ff";
}

abbrev waiting : MergeOptions
waiting = record {
  override_set = false;
  override = [];
  wait_timeout = pos 0;
  wait = true;
  allow_no_checks = false;
}

abbrev merged : Returned ProdResult Log
merged = (
  (
    record {
      repo = text "api";
      library = false;
      release_pr = some pull_request;
      merged = true;
      dispatched = false;
    },
    none,
  ),
  text "merge" ∷ [],
)

prod_run : prod service merge waiting 3 (text "api") [] ≡ some merged
unfolding prod prod_repo release gated Promote.merged enforce_gate wait_for_checks settled timeout
    judge select_one select_repos matching repo_matches sort insert find_release_pr is_release_head
    library count_pending check_name_set same_check_name_set has_all evaluate_checks tally
    tally_check same has_prefix trim_space to_lower
prod_run = refl

prod_gated_example :
    (r : Repo) × (open_prs : List PullRequest) × (pr : PullRequest) × (select_one service
        (text "api")
      ≡ ok r)
    × (service.forge.list_open r.slug [] ≡ ok open_prs)
    × IsFirstRelease pr open_prs
    × (merged.0.0.release_pr ≡ some pr)
    × IsMerged service merge waiting 3 r pr [] merged.1
prod_gated_example = prod_gated service merge waiting 3 (text "api") [] merged prod_run refl

wait_for_checks_mirrors_example :
    seen (wait_for_checks service 3 (text "manova/api") 7 waiting 0 none)
    ≡ polled (
        poll
          (λ j. told (ok (answers j)))
          (λ i. i * 10000000000)
          (pos 0)
          3
          (timed service (text "manova/api") 7 waiting)
          0
          none)
wait_for_checks_mirrors_example =
    wait_for_checks_mirrors service (text "manova/api") 7 3 waiting 0 none
