-- ===== src/Gate/Merging.antt =====
-- What enforceGate lets pass.
use mathlib.Core.Path.{subst}
use orbit_cli.Prelude.{
  ℕ, suc, ◌≡◌, ◌≤◌, Bool, true, false, not, ◌&&◌, ◌||◌, List, [], ◌∷◌, ◌++◌, Option, none, some,
  leb, arith, refl, inl, inr, ◌⊎◌, All, Bool-cases, Option-cases, sym,
}
use orbit_cli.Prelude.Int.{ℤ}
use orbit_cli.Prelude.Words.{Text, text, is_empty, trim_space}
use orbit_cli.Prelude.Result.{Result, ok, err, Result-cases}
use orbit_cli.Gate.{
  Check, MergeOptions, Passage, poll, window, decide, overridden, enforce_gate, evaluate_checks,
  allowed, refused, is_missing, is_neutral, empty_override,
}
use orbit_cli.Gate.Waiting.{Ending, poll-Ending, poll_terminates, timeout}
use orbit_cli.Gate.Checks.{evaluate_checks_iff}
use orbit_cli.Gate.{Reason}
use orbit_cli.Gate.{GateResult}

-- why a merge passes with the last checks `last`
pub data Reasoned (o : MergeOptions) (last : List Check) (comment : Option Text) : Type 0 where
  green : is_missing last ≡ false → All (λ c. is_neutral c ≡ true) last → Reasoned o last comment
  no_checks_wanted : is_missing last ≡ true → o.allow_no_checks ≡ true → Reasoned o last comment
  overruled :
      is_empty (trim_space o.override) ≡ false
      → comment ≡ some (text "override: " ++ trim_space o.override)
      → Reasoned o last comment

allowed_green :
    (o : MergeOptions) (last : List Check) (comment : Option Text)
    → evaluate_checks last ≡ allowed
    → Reasoned o last comment
unfolding evaluate_checks
allowed_green o [] comment e = absurd (ground arith)
allowed_green o (c ∷ checks) comment e = green refl ((evaluate_checks_iff c checks).0 e)

gate_cases : (r : GateResult) → (r ≡ allowed) ⊎ ((reason : Reason) × (r ≡ refused reason))
gate_cases allowed = inl refl
gate_cases (refused reason) = inr (reason, refl)

module _ (comment : Text → Option Text) where
  overridden_lem :
      (o : MergeOptions) (reason : Reason) (last : List Check)
      → (overridden comment o reason).answer ≡ ok tt
      → Reasoned o last (overridden comment o reason).comment
  unfolding overridden
  overridden_lem o reason last e = overruled (ground arith) (ground arith)

  module _ (register_window : ℤ) (elapsed_after : ℕ) (o : MergeOptions) (last : List Check) where
    abbrev none_wanted : Bool
    none_wanted =
        is_missing last
        && (o.allow_no_checks && (not o.wait || leb (window register_window) elapsed_after))

    decide_missing :
        none_wanted ≡ true
        → decide comment register_window elapsed_after o last
          ≡ record { answer = ok tt; comment = none }
    unfolding decide
    decide_missing h = rw h refl

    decide_allowed :
        evaluate_checks last ≡ allowed
        → decide comment register_window elapsed_after o last
          ≡ record { answer = ok tt; comment = none }
    unfolding decide
    decide_allowed h = ground arith

    decide-refused :
        (reason : Reason)
        → none_wanted ≡ false
        → evaluate_checks last ≡ refused reason
        → decide comment register_window elapsed_after o last ≡ overridden comment o reason
    unfolding decide
    decide-refused reason n h = ground arith

    decide_lem :
        (decide comment register_window elapsed_after o last).answer ≡ ok tt
        → Reasoned o last (decide comment register_window elapsed_after o last).comment
    decide_lem e = elim (Bool-cases none_wanted) [
      | inl wanted ↦ no_checks_wanted (ground arith) (ground arith)
      | inr unwanted ↦ elim (gate_cases (evaluate_checks last)) [
        | inl h ↦
            allowed_green o last (decide comment register_window elapsed_after o last).comment h
        | inr (reason, h) ↦
            subst (λ q. q.answer ≡ ok tt → Reasoned o last q.comment)
              (sym (decide-refused reason unwanted h)) (overridden_lem o reason last) e
      ]
    ]

module _ (checks : ℕ → Result Text (List Check)) (elapsed : ℕ → ℕ) (register_window : ℤ)
    (elapsed_after : ℕ) (comment : Text → Option Text) where
  gate_polled :
      (fuel : ℕ) (o : MergeOptions) (p : Passage)
      → enforce_gate checks elapsed register_window elapsed_after comment fuel o ≡ some p
      → p.answer ≡ ok tt
      → (j : ℕ) × (last : List Check) × (poll checks elapsed register_window fuel o 0 none
          ≡ some (ok (j, last)))
        × (decide comment register_window elapsed_after o last ≡ p)
  unfolding enforce_gate
  gate_polled fuel o p e passed =
      elim (Option-cases (poll checks elapsed register_window fuel o 0 none)) [
        | inl spent ↦ absurd (ground arith)
        | inr (r, polled) ↦ elim (Result-cases r) [
          | inl (x, failed) ↦ absurd (ground arith)
          | inr ((j, last), seen) ↦ (j, last, ground arith, ground arith)
        ]
      ]

  -- Where enforceGate lets a merge pass, the checks of its last poll are all passed or skipped, and
  -- there is one, or there is none and the options allow that, or the options carry a reason to
  -- override, which it has recorded as a comment. Where it waits, that poll came at the timeout or
  -- later, or is accepted: as the first, or after a poll whose names it repeats.
  pub enforce_gate_safe :
      (fuel : ℕ) (o : MergeOptions) (p : Passage)
      → enforce_gate checks elapsed register_window elapsed_after comment fuel o ≡ some p
      → p.answer ≡ ok tt
      → (j : ℕ) × (last : List Check) × (checks j ≡ ok last)
        × Ending checks elapsed register_window o 0 none j last
        × Reasoned o last p.comment
  enforce_gate_safe fuel o p e passed =
      let (j, last, polled, decided) = gate_polled fuel o p e passed in
      let (seen, ending) = poll-Ending checks elapsed register_window o fuel 0 j none last polled in
      (
        j,
        last,
        seen,
        ending,
        subst (λ q. Reasoned o last q.comment) decided
            (decide_lem comment register_window elapsed_after o last
              (subst (λ q. q.answer ≡ ok tt) (sym decided) passed)),
      )

  -- enforceGate answers, with fuel for the polls up to one at which the time has reached the timeout,
  -- whatever the options and the answers of the forge.
  pub enforce_gate_terminates :
      (n : ℕ) (o : MergeOptions)
      → timeout checks elapsed register_window o ≤ elapsed n
      → (p : Passage) × (enforce_gate checks elapsed register_window elapsed_after comment (suc n) o
          ≡ some p)
  unfolding enforce_gate
  enforce_gate_terminates n o late =
      let (r, polled) =
        poll_terminates checks elapsed register_window o n 0 none
          (subst (λ k. timeout checks elapsed register_window o ≤ elapsed k) (omega arith) late) in
      elim (Bool-cases (o.override_set && is_empty (trim_space o.override))) [
        | inl blank ↦ (record { answer = err empty_override; comment = none }, ground arith)
        | inr filled ↦ elim (Result-cases r) [
          | inl (x, failed) ↦ (record { answer = err x; comment = none }, ground arith)
          | inr ((j, last), seen) ↦
              (decide comment register_window elapsed_after o last, ground arith)
        ]
      ]
