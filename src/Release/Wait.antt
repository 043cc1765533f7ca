-- ===== src/Release/Wait.antt =====
-- pkg/release/application/service.go: the wait for the checks of a release pull request, and the gate
-- before its merge.
use orbit_cli.Prelude.{
  ℕ, zero, suc, Bool, false, not, ◌&&◌, ◌||◌, List, ◌++◌, Option, none, some, leb, ◌==◌,
  if◌then◌else◌,
}
use orbit_cli.Prelude.Int.{pos_or}
use orbit_cli.Prelude.Words.{Text, text, is_empty, trim_space}
use orbit_cli.Prelude.Result.{ok, err, on_error}
use orbit_cli.Clierr.{fail, failed, with_message}
use orbit_cli.Gate.{
  Check, MergeOptions, evaluate_checks, allowed, refused, is_missing, count_pending, check_name_set,
  same_check_name_set, default_wait_timeout, default_register_window,
}
use orbit_cli.Release.Ports.{Outcome, Service}

module _ {M : Type 0} (service : Service M) where
  open service use {forge, elapsed, register_window, wait_timeout}

  -- the two tests on `o.WaitTimeout` and the fields of the service
  unfoldable pub timeout : MergeOptions → ℕ
  timeout o = pos_or (pos_or default_wait_timeout wait_timeout) o.wait_timeout

  -- the loop ends with the checks of this poll, as the first or after the names `last`
  unfoldable pub settled : ℕ → Option (List Text) → List Check → Bool
  settled time last now =
      let registered = leb (pos_or default_register_window register_window) time in
      let complete = (count_pending now == 0) && (not (is_missing now) || registered) in
      let stable : Bool = elim last [
        | none ↦ false
        | some names ↦ same_check_name_set names (check_name_set now)
      ] in
      let first_empty : Bool = elim last [
        | none ↦ is_missing now && registered
        | some names ↦ false
      ] in
      complete && (stable || first_empty)

  -- (*Service).waitForChecks from the i-th poll on; `none` is the end of the fuel
  unfoldable pub wait_for_checks :
      ℕ → Text → ℕ → MergeOptions → ℕ → Option (List Text) → Option (Outcome (List Check))
  unfolding settled timeout
  wait_for_checks zero slug ref o i last = none
  wait_for_checks (suc fuel) slug ref o i last = elim (forge.checks slug ref i) [
    | err e ↦ some (err e)
    | ok now ↦
        let rest = wait_for_checks fuel slug ref o (suc i) (some (check_name_set now)) in
        if not o.wait
        then some (ok now)
        else if settled (elapsed i) last now
        then some (ok now)
        else if leb (timeout o) (elapsed i)
        then some (ok now)
        else rest
  ]

  -- enforceGate once the checks are there
  unfoldable pub judge : Text → ℕ → MergeOptions → List Check → M → Outcome (Unit {0}) × M
  judge slug ref o checks m =
      if is_missing checks && o.allow_no_checks then (ok tt, m) else elim (evaluate_checks checks) [
        | allowed ↦ (ok tt, m)
        | refused reason ↦
            if is_empty (trim_space o.override)
            then (err (fail failed), m)
            else on_error with_message
                (forge.comment slug ref (text "override: " ++ trim_space o.override) m)
      ]

  -- (*Service).enforceGate
  unfoldable pub enforce_gate : ℕ → Text → ℕ → MergeOptions → M → Option (Outcome (Unit {0}) × M)
  unfolding wait_for_checks judge
  enforce_gate fuel slug ref o m = elim (wait_for_checks fuel slug ref o 0 none) [
    | none ↦ none
    | some (err e) ↦ some (err (with_message e), m)
    | some (ok checks) ↦ some (judge slug ref o checks m)
  ]
