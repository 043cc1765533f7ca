-- ===== src/Release/Gated.antt =====
-- What lets Prod merge a release.
use orbit_cli.Prelude.{
  ℕ, ◌≡◌, true, false, List, some, arith, refl, inl, inr, ◌∙◌, ap, Bool-cases, Option-cases,
  if◌then◌else◌,
}
use orbit_cli.Prelude.Words.{Text, is_empty}
use orbit_cli.Prelude.Result.{ok, err, Result-cases}
use orbit_cli.Gate.{MergeOptions}
use orbit_cli.Release.{publish_workflow, main_branch}
use mathlib.Core.Path.{subst}
use orbit_cli.Release.Ports.{Outcome, Repo, PullRequest, Method, Service}
use orbit_cli.Release.Select.{select_one, find_release_pr, library}
use orbit_cli.Release.Wait.{enforce_gate}
use orbit_cli.Release.Promote.{
  ProdResult, no_prod, Returned, dispatched, merged, gated, release, prod_repo, prod,
  blank_override,
}
use orbit_cli.Release.Cleared.{
  IsFirstRelease, find_release_pr-IsFirstRelease, WasCleared, enforce_gate-WasCleared,
}

module _ {M : Type 0} (service : Service M) (method : Method) (o : MergeOptions) where
  -- what a merge leaves: where the repository is a library, the dispatch of its publish workflow follows
  abbrev pub left_by : Repo → M → M
  left_by repo m =
      if library service repo
      then (service.forge.dispatch repo.slug publish_workflow main_branch m).1
      else m

  -- the release pull request of a repository was merged, at a state that its gate left
  pub record IsMerged (fuel : ℕ) (repo : Repo) (pr : PullRequest) (m m' : M) : Type 0 where
    pub gate : M
    pub after : M
    pub passed : enforce_gate service fuel repo.slug pr.number o m ≡ some (ok tt, gate)
    pub cleared : WasCleared service o fuel repo.slug pr.number
    pub done : service.forge.merge_pr repo.slug pr.number method gate ≡ (ok tt, after)
    pub left : m' ≡ left_by repo after

  merged_ok :
      (repo : Repo) (res : ProdResult) (answer : Outcome (Unit {0}) × M)
      → res.merged ≡ false
      → (merged service method o repo res answer).0.0.merged ≡ true
      → answer ≡ (ok tt, answer.1)
  unfolding merged
  merged_ok repo res (err e, m) fresh h = absurd (ground (arith, fresh, h))
  merged_ok repo res (ok u, m) fresh h = refl

  dispatched_keeps :
      (repo : Repo) (res : ProdResult) (answer : Outcome (Unit {0}) × M)
      → ((dispatched service method o repo res answer).0.0.release_pr ≡ res.release_pr)
        × ((dispatched service method o repo res answer).1 ≡ answer.1)
  unfolding dispatched
  dispatched_keeps repo res (err e, m) = (refl, refl)
  dispatched_keeps repo res (ok u, m) = (refl, refl)

  merged_left :
      (repo : Repo) (res : ProdResult) (m : M)
      → res.library ≡ library service repo
      → let r : Returned ProdResult M = merged service method o repo res (ok tt, m) in
        (r.0.0.release_pr ≡ res.release_pr) × (r.1 ≡ left_by repo m)
  unfolding merged
  merged_left repo res m known =
      let res' : ProdResult = record res { merged = true } in
      let kept =
        dispatched_keeps repo res'
          (service.forge.dispatch repo.slug publish_workflow main_branch m) in
      elim (Bool-cases (library service repo)) [
        | inl published ↦
            (ground (arith, known, published, kept.0), ground (arith, known, published, kept.1))
        | inr private ↦ (ground (arith, known, private), ground (arith, known, private))
      ]

  -- the release where its gate let it pass
  gated-IsMerged :
      (fuel : ℕ) (repo : Repo) (res : ProdResult) (pr : PullRequest) (m : M)
      (passage : Outcome (Unit {0}) × M)
      → res.merged ≡ false
      → res.library ≡ library service repo
      → enforce_gate service fuel repo.slug pr.number o m ≡ some passage
      → let r : Returned ProdResult M = gated service method o repo res pr passage in
        r.0.0.merged ≡ true → (r.0.0.release_pr ≡ res.release_pr) × IsMerged fuel repo pr m r.1
  unfolding gated
  gated-IsMerged fuel repo res pr m (err e, gate) fresh known passed h =
      absurd (ground (arith, fresh, h))
  gated-IsMerged fuel repo res pr m (ok tt, gate) fresh known passed h =
      let answer : Outcome (Unit {0}) × M =
        service.forge.merge_pr repo.slug pr.number method gate in
      let done : answer ≡ (ok tt, answer.1) = merged_ok repo res answer fresh h in
      let (shown, left) = merged_left repo res answer.1 known in
      (
        ap (λ a. (merged service method o repo res a).0.0.release_pr) done ∙ shown,
        record {
          gate = gate;
          after = answer.1;
          passed = passed;
          cleared =
              enforce_gate-WasCleared service o fuel repo.slug pr.number m (ok tt, gate) passed
                refl;
          done = done;
          left = ap (λ a. (merged service method o repo res a).1) done ∙ left;
        },
      )

  release-IsMerged :
      (repo : Repo) (fuel : ℕ) (res : ProdResult) (pr : PullRequest) (m : M)
      (r : Returned ProdResult M)
      → res.merged ≡ false
      → res.library ≡ library service repo
      → release service method o repo fuel res pr m ≡ some r
      → r.0.0.merged ≡ true
      → (r.0.0.release_pr ≡ res.release_pr) × IsMerged fuel repo pr m r.1
  unfolding release
  release-IsMerged repo fuel res pr m r fresh known h done =
      elim (Option-cases (enforce_gate service fuel repo.slug pr.number o m)) [
        | inl spent ↦ absurd (ground (arith, spent, h))
        | inr (passage, gate) ↦
            let returned : gated service method o repo res pr passage ≡ r =
              ground (arith, gate, h) in
            subst
              (λ q.
                q.0.0.merged ≡ true
                → (q.0.0.release_pr ≡ res.release_pr) × IsMerged fuel repo pr m q.1)
              returned (gated-IsMerged fuel repo res pr m passage fresh known gate) done
      ]

  abbrev pub begun : Repo → PullRequest → ProdResult
  begun repo pr = record no_prod {
    repo = repo.name;
    library = library service repo;
    release_pr = some pr;
  }

  -- how a Prod that merged has come to the release pull request
  prod_repo_released :
      (repo : Repo) (fuel : ℕ) (m : M) (r : Returned ProdResult M)
      → prod_repo service method o repo fuel m ≡ some r
      → r.0.0.merged ≡ true
      → (open_prs : List PullRequest) × (pr : PullRequest) × (service.forge.list_open repo.slug m
          ≡ ok open_prs)
        × IsFirstRelease pr open_prs
        × (release service method o repo fuel (begun repo pr) pr m ≡ some r)
  unfolding prod_repo
  prod_repo_released repo fuel m r h merged = elim (Bool-cases (is_empty repo.slug)) [
    | inl local ↦ absurd (ground (arith, local, h, merged))
    | inr remote ↦ elim (Bool-cases (blank_override o)) [
      | inl blank ↦ absurd (ground (arith, remote, blank, h, merged))
      | inr filled ↦ elim (Result-cases (service.forge.list_open repo.slug m)) [
        | inl (e, failed) ↦ absurd (ground (arith, remote, filled, failed, h, merged))
        | inr (open_prs, listed) ↦ elim (Option-cases (find_release_pr open_prs)) [
          | inl absent ↦ absurd (ground (arith, remote, filled, listed, absent, h, merged))
          | inr (pr, found) ↦ (
            open_prs,
            pr,
            listed,
            find_release_pr-IsFirstRelease open_prs pr found,
            ground (arith, remote, filled, listed, found, h),
          )
        ]
      ]
    ]
  ]

  -- Where Prod reports a merge, it has selected one repository, and the first open pull request of it whose
  -- head is that of a release is the one that it reports and the one that the forge was told to merge, with
  -- the method asked for, which succeeded; the dispatch of the publish workflow, in a library, is all
  -- that followed. Before, the wait had ended with the checks of that pull request, and they are all
  -- passed or skipped and there is one, or there is none and the options allow that, or the
  -- options carry a reason to override.
  pub prod_gated :
      (fuel : ℕ) (selector : Text) (m : M) (r : Returned ProdResult M)
      → prod service method o fuel selector m ≡ some r
      → r.0.0.merged ≡ true
      → (repo : Repo) × (open_prs : List PullRequest) × (pr : PullRequest) × (select_one service
            selector
          ≡ ok repo)
        × (service.forge.list_open repo.slug m ≡ ok open_prs)
        × IsFirstRelease pr open_prs
        × (r.0.0.release_pr ≡ some pr)
        × IsMerged fuel repo pr m r.1
  unfolding prod
  prod_gated fuel selector m r h done = elim (Result-cases (select_one service selector)) [
    | inl (e, failed) ↦ absurd (ground (arith, failed, h, done))
    | inr (repo, selected) ↦
        let (open_prs, pr, listed, first, released) =
          prod_repo_released repo fuel m r (ground (arith, selected, h)) done in
        let (shown, was_merged) =
          release-IsMerged repo fuel (begun repo pr) pr m r refl refl released done in
        (repo, open_prs, pr, selected, listed, first, shown, was_merged)
  ]
