-- ===== src/Gate.antt =====
-- pkg/pr/domain/checks.go and pkg/pr/application/gate.go: whether a pull request may merge. The
-- forge and the clock are parameters: the answer to each poll, and the time elapsed at it.
pub mod Checks
pub mod Waiting
pub mod Merging
mod Tests
use orbit_cli.Prelude.{
  ℕ, zero, suc, ◌+◌, ◌≡◌, Bool, true, false, not, ◌&&◌, ◌||◌, List, [], ◌∷◌, ◌++◌, Option, none,
  some, any, length, leb, ◌==◌, if◌then◌else◌,
}
use orbit_cli.Prelude.Words.{Text, text, same, is_empty, trim_space}
use orbit_cli.Prelude.Result.{Result, ok, err}
use orbit_cli.Prelude.Int.{ℤ, pos_or}
use orbit_cli.Prelude.{◌*◌}

pub record Check : Type 0 where
  pub name : Text
  pub bucket : Text

-- what EvaluateChecks makes a text of
pub data Reason : Type 0 where
  no_checks : Reason
  checks_failed : List Text → Reason
  still_running : List Text → Reason
  unknown_state : Check → Reason

pub data GateResult : Type 0 where
  allowed : GateResult
  refused : Reason → GateResult

abbrev pub is_failed : Check → Bool
is_failed c = same c.bucket (text "fail") || same c.bucket (text "cancel")

abbrev pub is_pending : Check → Bool
is_pending c = same c.bucket (text "pending")

abbrev pub is_neutral : Check → Bool
is_neutral c = same c.bucket (text "pass") || same c.bucket (text "skipping")

-- the state of the loop of EvaluateChecks
pub record Tally : Type 0 where
  pub failed : List Text
  pub pending : List Text
  pub unknown : Option Check

-- one round of the loop, which goes on with `rest` for the checks after `c`
unfoldable pub tally_check : Check → Tally → Tally
tally_check c rest =
    if is_failed c
    then record rest { failed = c.name ∷ rest.failed }
    else if is_pending c
    then record rest { pending = c.name ∷ rest.pending }
    else if is_neutral c
    then rest
    else record rest { unknown = some c }

unfoldable pub tally : List Check → Tally
unfolding tally_check
tally [] = record { failed = []; pending = []; unknown = none }
tally (c ∷ checks) = tally_check c (tally checks)

abbrev pub judge : Tally → GateResult
judge t = elim t.failed [
  | name ∷ names ↦ refused (checks_failed (name ∷ names))
  | [] ↦ elim t.pending [
    | name ∷ names ↦ refused (still_running (name ∷ names))
    | [] ↦ elim t.unknown [ some c ↦ refused (unknown_state c) | none ↦ allowed ]
  ]
]

-- EvaluateChecks
unfoldable pub evaluate_checks : List Check → GateResult
unfolding tally
evaluate_checks [] = refused no_checks
evaluate_checks (c ∷ checks) = judge (tally (c ∷ checks))

unfoldable pub count_pending : List Check → ℕ
count_pending [] = 0
count_pending (c ∷ checks) = let n = count_pending checks in if is_pending c then suc n else n

abbrev pub has_name : List Text → Text → Bool
has_name names name = any (λ other. same other name) names

-- checkNameSet: each name once
unfoldable pub check_name_set : List Check → List Text
check_name_set [] = []
check_name_set (c ∷ checks) =
    let names = check_name_set checks in if has_name names c.name then names else c.name ∷ names

-- the loop of sameCheckNameSet
unfoldable pub has_all : List Text → List Text → Bool
has_all [] b = true
has_all (name ∷ a) b = if has_name b name then has_all a b else false

unfoldable pub same_check_name_set : List Text → List Text → Bool
unfolding has_all
same_check_name_set a b = if length a == length b then has_all a b else false

-- the options of a merge that the gate reads
pub record MergeOptions : Type 0 where
  pub override_set : Bool
  pub override : Text
  pub wait_timeout : ℤ
  pub wait : Bool
  pub allow_no_checks : Bool

abbrev pub second : ℕ
second = 1000000000

-- DefaultWaitTimeout and DefaultRegisterWindow
abbrev pub default_wait_timeout : ℕ
default_wait_timeout = 1200 * second

abbrev pub default_register_window : ℕ
default_register_window = 60 * second

pub data Error : Type 0 where
  empty_override : Error
  unreadable : Text → Error
  comment_failed : Text → Error
  merge_refused : Reason → Error

-- What enforceGate answers, and the comment that it has recorded.
pub record Passage : Type 0 where
  pub answer : Result Error (Unit {0})
  pub comment : Option Text

-- len(checks) == 0
abbrev pub is_missing : List Check → Bool
is_missing [] = true
is_missing (c ∷ checks) = false

-- Whether the loop ends with the checks of a poll at the time `elapsed`; `last` has the names of the
-- poll before, and is none at the first.
unfoldable pub accepts : ℕ → ℕ → Option (List Text) → List Check → Bool
accepts register_window elapsed last now =
    let registered = leb register_window elapsed in
    let complete = (count_pending now == 0) && (not (is_missing now) || registered) in
    complete && elim last [
      | none ↦ is_missing now && registered
      | some names ↦ same_check_name_set names (check_name_set now)
    ]

abbrev pub window : ℤ → ℕ
window register_window = pos_or default_register_window register_window

-- `comment` is the answer of the forge to a comment
module _ (comment : Text → Option Text) where
  -- the end of enforceGate where the checks do not let the merge pass
  unfoldable pub overridden : MergeOptions → Reason → Passage
  overridden o reason =
      if is_empty (trim_space o.override)
      then record { answer = err (merge_refused reason); comment = none }
      else elim (comment (text "override: " ++ trim_space o.override)) [
        | some e ↦ record { answer = err (comment_failed e); comment = none }
        | none ↦ record {
          answer = ok tt;
          comment = some (text "override: " ++ trim_space o.override);
        }
      ]

  -- `register_window` is the field of the service, and `elapsed_after` the time that is read after the loop
  module _ (register_window : ℤ) (elapsed_after : ℕ) where
    -- enforceGate after the loop, with its last checks
    unfoldable pub decide : MergeOptions → List Check → Passage
    unfolding overridden
    decide o last =
        if is_missing last
          && (o.allow_no_checks && (not o.wait || leb (window register_window) elapsed_after))
        then record { answer = ok tt; comment = none }
        else elim (evaluate_checks last) [
          | allowed ↦ record { answer = ok tt; comment = none }
          | refused reason ↦ overridden o reason
        ]

-- `checks i` is the answer to the i-th poll, `elapsed i` the time since the start that is read after
-- it
module _ (checks : ℕ → Result Text (List Check)) (elapsed : ℕ → ℕ) (register_window : ℤ) where
  -- The loop from the i-th poll; it answers the index of its last poll and the checks. `none` is the
  -- end of the fuel.
  unfoldable pub poll :
      ℕ → MergeOptions → ℕ → Option (List Text) → Option (Result Error (ℕ × List Check))
  poll zero o i last = none
  poll (suc fuel) o i last = elim (checks i) [
    | err e ↦ some (err (unreadable e))
    | ok now ↦
        let rest = poll fuel o (suc i) (some (check_name_set now)) in
        if not o.wait
        then some (ok (i, now))
        else if accepts (window register_window) (elapsed i) last now
        then some (ok (i, now))
        else if leb (pos_or default_wait_timeout o.wait_timeout) (elapsed i)
        then some (ok (i, now))
        else rest
  ]

  module _ (elapsed_after : ℕ) (comment : Text → Option Text) where
    -- (*Service).enforceGate, with fuel for the loop
    unfoldable pub enforce_gate : ℕ → MergeOptions → Option Passage
    unfolding poll decide
    enforce_gate fuel o =
        if o.override_set && is_empty (trim_space o.override)
        then some (record { answer = err empty_override; comment = none })
        else elim (poll fuel o 0 none) [
          | none ↦ none
          | some (err e) ↦ some (record { answer = err e; comment = none })
          | some (ok (i, last)) ↦ some (decide comment register_window elapsed_after o last)
        ]
