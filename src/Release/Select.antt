-- ===== src/Release/Select.antt =====
-- pkg/release/application/service.go: which repositories a selector names.
use orbit_cli.Prelude.{
  Bool, true, false, ◌&&◌, ◌||◌, List, [], ◌∷◌, ◌++◌, Option, none, some, any, keep, find, ltb,
  ◌==◌, if◌then◌else◌,
}
use orbit_cli.Prelude.Words.{Text, same, has_prefix, is_empty, trim_space, to_lower}
use orbit_cli.Prelude.Result.{ok, err}
use orbit_cli.Clierr.{fail, usage, unverified}
use orbit_cli.Release.{release_setup_files, changeset_config, is_release_head}
use orbit_cli.Release.Ports.{Outcome, Repo, PullRequest, Service}

-- a < b on strings
unfoldable pub is_before : Text → Text → Bool
is_before s [] = false
is_before [] (d ∷ t) = true
is_before (c ∷ s) (d ∷ t) = if ltb c d then true else (c == d) && is_before s t

unfoldable pub insert : Repo → List Repo → List Repo
insert repo [] = repo ∷ []
insert repo (r ∷ repos) =
    let rest = insert repo repos in
    if is_before r.path repo.path then r ∷ rest else repo ∷ r ∷ repos

-- sort.Slice by the path
unfoldable pub sort : List Repo → List Repo
unfolding insert
sort [] = []
sort (repo ∷ repos) = insert repo (sort repos)

-- findReleasePR
unfoldable pub find_release_pr : List PullRequest → Option PullRequest
find_release_pr open_prs = find (λ pr. is_release_head pr.head) open_prs

module _ {M : Type 0} (service : Service M) where
  open service use {exists, clean, abs}

  -- (*Service).library
  unfoldable pub library : Repo → Bool
  library repo = exists (repo.dir ++ b'/' ∷ changeset_config)

  -- the first result of (*Service).releaseSetup
  unfoldable pub release_setup : Repo → Bool
  release_setup repo = any (λ name. exists (repo.dir ++ b'/' ∷ name)) release_setup_files

  -- (*Service).filterSetup
  unfoldable pub filter_setup : List Repo → List Repo
  unfolding sort release_setup
  filter_setup repos = sort (keep release_setup repos)

  is_dir : Option Text → Repo → Bool
  is_dir none repo = false
  is_dir (some path) repo = same repo.dir path

  -- repoMatches
  unfoldable pub repo_matches : Text → Repo → Bool
  unfolding is_dir
  repo_matches selector repo =
      if same (to_lower repo.name) (to_lower selector)
        || (same repo.path selector || same repo.scope selector)
      then true
      else if same repo.path (clean selector)
      then true
      else is_dir (abs selector) repo

  in_scope : Text → Repo → Bool
  in_scope selector repo = same repo.scope selector || has_prefix repo.scope (selector ++ b'/' ∷ [])

  -- the repositories of a selector that is not blank
  unfoldable pub matching : Text → List Repo → List Repo
  unfolding in_scope repo_matches
  matching selector repos = elim (keep (repo_matches selector) repos) [
    | [] ↦ keep (in_scope selector) repos
    | repo ∷ rest ↦ repo ∷ rest
  ]

  narrowed : Bool → List Repo → Outcome (List Repo)
  narrowed setup_only [] = err (fail usage)
  narrowed setup_only (repo ∷ []) = ok (repo ∷ [])
  narrowed setup_only (repo ∷ next ∷ rest) =
      ok (if setup_only then filter_setup (repo ∷ next ∷ rest) else sort (repo ∷ next ∷ rest))

  -- (*Service).selectRepos
  unfoldable pub select_repos : Text → Bool → Outcome (List Repo)
  unfolding matching narrowed filter_setup
  select_repos selector setup_only = elim service.repos [
    | err e ↦ err (fail unverified)
    | ok repos ↦
        let trimmed = trim_space selector in
        if is_empty trimmed
        then ok (filter_setup repos)
        else narrowed setup_only (matching trimmed repos)
  ]

  only : Outcome (List Repo) → Outcome Repo
  only (err e) = err e
  only (ok []) = err (fail usage)
  only (ok (repo ∷ [])) = ok repo
  only (ok (repo ∷ next ∷ rest)) = err (fail usage)

  -- (*Service).selectOne
  unfoldable pub select_one : Text → Outcome Repo
  unfolding only select_repos
  select_one selector =
      if is_empty (trim_space selector)
      then err (fail usage)
      else only (select_repos selector false)
