-- ===== src/Gate/Tests.antt =====
-- A gate that waits for the check "build".
use orbit_cli.Prelude.{
  zero, ℕ, suc, ◌*◌, ◌≡◌, ◌↔◌, false, true, List, [], ◌∷◌, Option, none, some, refl, arith, All,
}
use orbit_cli.Prelude.Int.{pos}
use orbit_cli.Prelude.Words.{same, Text, text, trim_space}
use orbit_cli.Prelude.Result.{Result, ok}
use orbit_cli.Gate.{
  tally_check, Check, MergeOptions, Passage, poll, accepts, enforce_gate, evaluate_checks, allowed,
  is_neutral,
}
use orbit_cli.Gate.Waiting.{Ending}
use orbit_cli.Gate.Merging.{Reasoned, enforce_gate_safe, enforce_gate_terminates}
use orbit_cli.Gate.Checks.{evaluate_checks_iff}
use orbit_cli.Gate.{tally_check, count_pending}
use orbit_cli.Gate.{tally_check, check_name_set}
use orbit_cli.Gate.{tally_check, same_check_name_set}
use orbit_cli.Gate.{tally_check, has_all}
use orbit_cli.Gate.{tally_check, decide}
use orbit_cli.Gate.{tally_check, tally}
use orbit_cli.Gate.{same}

abbrev build : Text → Check
build bucket = record { name = text "build"; bucket = bucket }

-- the check is pending at the first poll, and passed from the second on
abbrev polls : ℕ → Result Text (List Check)
polls zero = ok (build (text "pending") ∷ [])
polls (suc i) = ok (build (text "pass") ∷ [])

abbrev ten_seconds : ℕ → ℕ
ten_seconds i = i * 10000000000

abbrev waiting : MergeOptions
waiting = record {
  override_set = false;
  override = [];
  wait_timeout = pos 20000000000;
  wait = true;
  allow_no_checks = false;
}

abbrev no_comment : Text → Option Text
no_comment body = none

abbrev through : Passage
through = record { answer = ok tt; comment = none }

evaluate_checks_iff_example :
    (evaluate_checks (build (text "pass") ∷ []) ≡ allowed)
    ↔ All (λ check. is_neutral check ≡ true) (build (text "pass") ∷ [])
evaluate_checks_iff_example = evaluate_checks_iff (build (text "pass")) []

passes : enforce_gate polls ten_seconds (pos 0) 0 no_comment 3 waiting ≡ some through
unfolding enforce_gate poll accepts count_pending check_name_set same_check_name_set has_all decide
    evaluate_checks tally tally_check same trim_space
passes = refl

enforce_gate_safe_example :
    (j : ℕ) × (last : List Check) × (polls j ≡ ok last)
    × Ending polls ten_seconds (pos 0) waiting 0 none j last
    × Reasoned waiting last none
enforce_gate_safe_example =
    enforce_gate_safe polls ten_seconds (pos 0) 0 no_comment 3 waiting through passes refl

enforce_gate_terminates_example :
    (p : Passage) × (enforce_gate polls ten_seconds (pos 0) 0 no_comment 3 waiting ≡ some p)
enforce_gate_terminates_example =
    enforce_gate_terminates polls ten_seconds (pos 0) 0 no_comment 2 waiting (omega arith)
