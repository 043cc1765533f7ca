-- ===== src/Gate/Checks.antt =====
-- EvaluateChecks and the sets of names.
use orbit_cli.Prelude.{
  inl, inr, ◌⊎◌, Bool-cases, ◌≡◌, ◌↔◌, true, false, List, [], ◌∷◌, Option, none, arith, refl, All,
}
use orbit_cli.Prelude.Words.{Text, text, same, same_iff}
use orbit_cli.Gate.{
  Check, Tally, allowed, tally, tally_check, judge, evaluate_checks, is_neutral, is_failed,
  is_pending,
}

-- the checks of a tally that the loop has made
IsClear : Tally → Type 0
IsClear t = (t.failed ≡ []) × (t.pending ≡ []) × (t.unknown ≡ none)

neutral_bucket :
    (c : Check) → is_neutral c ≡ true → (c.bucket ≡ text "pass") ⊎ (c.bucket ≡ text "skipping")
neutral_bucket c h = elim (Bool-cases (same c.bucket (text "pass"))) [
  | inl passed ↦ inl ((same_iff c.bucket (text "pass")).0 passed)
  | inr other ↦ inr ((same_iff c.bucket (text "skipping")).0 (rw other at h))
]

neutral_not : (c : Check) → is_neutral c ≡ true → (is_failed c ≡ false) × (is_pending c ≡ false)
unfolding same
neutral_not c h = elim (neutral_bucket c h) [
  | inl e ↦ rw e (refl, refl)
  | inr e ↦ rw e (refl, refl)
]

tally_neutral :
    (c : Check) (rest : Tally) → is_neutral c ≡ true → IsClear rest → IsClear (tally_check c rest)
unfolding tally_check
tally_neutral c rest neutral clear =
    rw ((neutral_not c neutral).0, (neutral_not c neutral).1, neutral) clear

tally_check_inv :
    (c : Check) (rest : Tally) → IsClear (tally_check c rest) → (is_neutral c ≡ true) × IsClear rest
unfolding tally_check IsClear
tally_check_inv c rest clear = elim (Bool-cases (is_failed c)) [
  | inl failed ↦ absurd (cons_not (rw failed at clear).0)
  | inr whole ↦ elim (Bool-cases (is_pending c)) [
    | inl running ↦ absurd (cons_not (rw (whole, running) at clear).1)
    | inr ended ↦ elim (Bool-cases (is_neutral c)) [
      | inl neutral ↦ (neutral, rw (whole, ended, neutral) at clear)
      | inr unknown ↦ absurd (some_not (rw (whole, ended, unknown) at clear).2)
    ]
  ]
]
  where
    cons_not : {x : Text} {xs : List Text} → x ∷ xs ≡ [] → ⊥
    cons_not e = cc

    some_not : {x : Check} → Option.some x ≡ none → ⊥
    some_not e = cc

tally_check-IsClear :
    (c : Check) (rest : Tally)
    → IsClear (tally_check c rest) ↔ ((is_neutral c ≡ true) × IsClear rest)
tally_check-IsClear c rest = (tally_check_inv c rest, λ h. tally_neutral c rest h.0 h.1)

judge-IsClear : (t : Tally) → (judge t ≡ allowed) ↔ IsClear t
unfolding IsClear
judge-IsClear t = ground arith

empty-IsClear : IsClear (tally [])
unfolding IsClear tally
empty-IsClear = (refl, refl, refl)

tally-IsClear :
    (checks : List Check) → IsClear (tally checks) ↔ All (λ check. is_neutral check ≡ true) checks
unfolding tally
tally-IsClear [] = (λ h. tt, λ h. empty-IsClear)
tally-IsClear (c ∷ checks) =
    let h = tally_check-IsClear c (tally checks) in
    let rest = tally-IsClear checks in
    (λ clear. ((h.0 clear).0, rest.0 (h.0 clear).1), λ all. h.1 (all.0, rest.1 all.1))

-- Of the checks of a list that is not empty EvaluateChecks allows a merge exactly where each is passed
-- or skipped.
pub evaluate_checks_iff :
    (c : Check) (checks : List Check)
    → (evaluate_checks (c ∷ checks) ≡ allowed) ↔ All (λ check. is_neutral check ≡ true) (c ∷ checks)
unfolding evaluate_checks tally
evaluate_checks_iff c checks =
    let h = tally_check-IsClear c (tally checks) in
    let rest = tally-IsClear checks in
    (
      λ e. let clear = h.0 ((judge-IsClear (tally (c ∷ checks))).0 e) in (clear.0, rest.0 clear.1),
      λ all. (judge-IsClear (tally (c ∷ checks))).1 (h.1 (all.0, rest.1 all.1)),
    )
