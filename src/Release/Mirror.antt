-- ===== src/Release/Mirror.antt =====
-- The wait of a release against the wait of `pr merge`, on which its comment calls it modelled.
use orbit_cli.Prelude.{ℕ, zero, suc, ◌≡◌, ◌≢◌, List, Option, none, some, arith, refl, inl, inr}
use orbit_cli.Prelude.Int.{ℤ, pos, negsuc, pos_or}
use orbit_cli.Prelude.Words.{Text}
use orbit_cli.Prelude.Result.{Result, ok, err, Result-cases}
use orbit_cli.Gate.{
  Check, MergeOptions, Error, poll, accepts, window, check_name_set, default_wait_timeout,
}
use orbit_cli.Release.Ports.{Outcome, Service}
use orbit_cli.Release.Wait.{wait_for_checks, settled, timeout}
use orbit_cli.Prelude.{[]}

pos_or-positive : (d : ℕ) (v : ℤ) → d ≢ 0 → pos_or d v ≢ 0
pos_or-positive d (pos zero) h = h
pos_or-positive d (pos (suc n)) h = λ e. omega (arith, e)
pos_or-positive d (negsuc n) h = h

pos_or-pos : (d t : ℕ) → t ≢ 0 → pos_or d (pos t) ≡ t
pos_or-pos d zero h = absurd (h refl)
pos_or-pos d (suc t) h = refl

-- the checks that the wait of a release ends with, or that it could not read them
abbrev pub seen : Option (Outcome (List Check)) → Option (Option (List Check))
seen none = none
seen (some (err e)) = some none
seen (some (ok checks)) = some (some checks)

-- the same for the wait of `pr merge`
abbrev pub polled : Option (Result Error (ℕ × List Check)) → Option (Option (List Check))
polled none = none
polled (some (err e)) = some none
polled (some (ok last)) = some (some last.1)

abbrev pub told : Outcome (List Check) → Result Text (List Check)
told (err e) = err []
told (ok checks) = ok checks

module _ {M : Type 0} (service : Service M) (slug : Text) (ref : ℕ) where
  open service use {forge, elapsed, register_window, wait_timeout}

  settled-accepts :
      (time : ℕ) (last : Option (List Text)) (now : List Check)
      → settled service time last now ≡ accepts (window register_window) time last now
  unfolding settled accepts
  settled-accepts time none now = ground arith
  settled-accepts time (some names) now = ground arith

  -- the options with the timeout of the release
  abbrev pub timed : MergeOptions → MergeOptions
  timed o = record o { wait_timeout = pos (timeout service o) }

  timeout_same :
      (o : MergeOptions) → pos_or default_wait_timeout (timed o).wait_timeout ≡ timeout service o
  unfolding timeout
  timeout_same o = pos_or-pos default_wait_timeout (timeout service o) (
      pos_or-positive (pos_or default_wait_timeout wait_timeout) o.wait_timeout
        (pos_or-positive default_wait_timeout wait_timeout (λ e. omega (arith, e))))

  -- For any fuel, answers of the forge and clock, the wait of a release ends at the same poll with the
  -- same checks, or goes on, or fails, as the loop of `pr merge` with the timeout of the release.
  pub wait_for_checks_mirrors :
      (fuel : ℕ) (o : MergeOptions) (i : ℕ) (last : Option (List Text))
      → seen (wait_for_checks service fuel slug ref o i last)
        ≡ polled (
            poll
              (λ j. told (forge.checks slug ref j))
              elapsed
              register_window
              fuel
              (timed o)
              i
              last)
  unfolding wait_for_checks poll
  wait_for_checks_mirrors zero o i last = refl
  wait_for_checks_mirrors (suc fuel) o i last = elim (Result-cases (forge.checks slug ref i)) [
    | inl (e, failed) ↦ ground (arith, failed)
    | inr (now, read) ↦ ground (
      arith,
      read,
      settled-accepts (elapsed i) last now,
      timeout_same o,
      wait_for_checks_mirrors fuel o (suc i) (some (check_name_set now)),
    )
  ]
