-- ===== src/Release/Cleared.antt =====
-- pkg/release/application/service.go: which pull request is that of a release, and what its gate has seen.
use orbit_cli.Prelude.{
  ℕ, ◌≡◌, true, false, ◌&&◌, List, [], ◌∷◌, ◌++◌, none, some, arith, refl, inl, inr, ap, All,
  Bool-cases, Option-cases, ◌⊎◌,
}
use orbit_cli.Prelude.Words.{Text, is_empty, trim_space}
use orbit_cli.Prelude.Result.{ok, Result-cases}
use orbit_cli.Gate.{
  Check, MergeOptions, evaluate_checks, allowed, refused, is_missing, is_neutral, GateResult,
  Reason,
}
use orbit_cli.Gate.Checks.{evaluate_checks_iff}
use orbit_cli.Release.{is_release_head}
use mathlib.Core.Path.{subst}
use orbit_cli.Release.Ports.{Outcome, PullRequest, Service}
use orbit_cli.Release.Select.{find_release_pr}
use orbit_cli.Release.Wait.{wait_for_checks, judge, enforce_gate}

-- why a release may merge with the checks `last`
pub data Cleared (o : MergeOptions) (last : List Check) : Type 0 where
  green : is_missing last ≡ false → All (λ c. is_neutral c ≡ true) last → Cleared o last
  no_checks_wanted : is_missing last ≡ true → o.allow_no_checks ≡ true → Cleared o last
  overruled : is_empty (trim_space o.override) ≡ false → Cleared o last

gate_cases : (r : GateResult) → (r ≡ allowed) ⊎ ((reason : Reason) × (r ≡ refused reason))
gate_cases allowed = inl refl
gate_cases (refused reason) = inr (reason, refl)

allowed_green :
    (o : MergeOptions) (last : List Check) → evaluate_checks last ≡ allowed → Cleared o last
unfolding evaluate_checks
allowed_green o [] e = absurd (ground arith)
allowed_green o (c ∷ checks) e = green refl ((evaluate_checks_iff c checks).0 e)

-- a pull request is the first of a list whose head is that of a release
pub record IsFirstRelease (pr : PullRequest) (prs : List PullRequest) : Type 0 where
  pub earlier : List PullRequest
  pub later : List PullRequest
  pub place : prs ≡ earlier ++ pr ∷ later
  pub head : is_release_head pr.head ≡ true
  pub others : All (λ p. is_release_head p.head ≡ false) earlier

pub find_release_pr-IsFirstRelease :
    (prs : List PullRequest) (pr : PullRequest)
    → find_release_pr prs ≡ some pr
    → IsFirstRelease pr prs
unfolding find_release_pr
find_release_pr-IsFirstRelease [] pr h = absurd (ground arith)
find_release_pr-IsFirstRelease (p ∷ prs) pr h = elim (Bool-cases (is_release_head p.head)) [
  | inl yes_head ↦
      let same_ : p ≡ pr = ground (arith, yes_head, h) in
      subst (λ q. IsFirstRelease q (p ∷ prs)) same_
        (record { earlier = []; later = prs; place = refl; head = yes_head; others = tt })
  | inr no_head ↦
      let first = find_release_pr-IsFirstRelease prs pr (ground (arith, no_head, h)) in
      record {
        earlier = p ∷ first.earlier;
        later = first.later;
        place = ap (λ rest. p ∷ rest) first.place;
        head = first.head;
        others = (no_head, first.others);
      }
]

module _ {M : Type 0} (service : Service M) (o : MergeOptions) where
  judge-Cleared :
      (slug : Text) (ref : ℕ) (checks : List Check) (m : M)
      → (judge service slug ref o checks m).0 ≡ ok tt
      → Cleared o checks
  unfolding judge
  judge-Cleared slug ref checks m h = elim (Bool-cases (is_missing checks && o.allow_no_checks)) [
    | inl wanted ↦ no_checks_wanted (ground (arith, wanted)) (ground (arith, wanted))
    | inr unwanted ↦ elim (gate_cases (evaluate_checks checks)) [
      | inl passed ↦ allowed_green o checks passed
      | inr (reason, failed) ↦ overruled (ground (arith, unwanted, failed, h))
    ]
  ]

  -- the wait of the gate has ended with checks that clear the merge
  abbrev pub WasCleared : ℕ → Text → ℕ → Type 0
  WasCleared fuel slug ref =
      (last : List Check) × (wait_for_checks service fuel slug ref o 0 none ≡ some (ok last))
      × Cleared o last

  pub enforce_gate-WasCleared :
      (fuel : ℕ) (slug : Text) (ref : ℕ) (m : M) (passage : Outcome (Unit {0}) × M)
      → enforce_gate service fuel slug ref o m ≡ some passage
      → passage.0 ≡ ok tt
      → WasCleared fuel slug ref
  unfolding enforce_gate
  enforce_gate-WasCleared fuel slug ref m passage h passed =
      elim (Option-cases (wait_for_checks service fuel slug ref o 0 none)) [
        | inl spent ↦ absurd (ground (arith, spent, h))
        | inr (r, waited) ↦ elim (Result-cases r) [
          | inl (e, failed) ↦ absurd (ground (arith, failed, waited, h, passed))
          | inr (last, read) ↦ (
            last,
            ground (arith, waited, read),
            judge-Cleared slug ref last m (ground (arith, waited, read, h, passed)),
          )
        ]
      ]
