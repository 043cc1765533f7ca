-- ===== src/Gate/Waiting.antt =====
-- The loop of enforceGate.
use mathlib.Core.Path.{subst}
use orbit_cli.Prelude.{
  Bool, ◌∙◌, sym, Bool-cases, not, ◌||◌, ℕ, zero, suc, ◌+◌, ◌≡◌, ◌≤◌, true, false, List, Option,
  some, leb, arith, refl, inl, inr,
}
use orbit_cli.Prelude.Int.{ℤ, pos_or}
use orbit_cli.Prelude.Words.{Text}
use orbit_cli.Prelude.Result.{Result, ok, err, Result-cases}
use orbit_cli.Gate.{
  unreadable, Error, Check, MergeOptions, poll, accepts, default_wait_timeout, check_name_set,
  window,
}
use orbit_cli.Gate.{unreadable, Error, Error}

module _ (checks : ℕ → Result Text (List Check)) (elapsed : ℕ → ℕ) (register_window : ℤ)
    (o : MergeOptions) where
  abbrev pub timeout : ℕ
  timeout = pos_or default_wait_timeout o.wait_timeout

  -- the tests of the loop
  abbrev pub stops : ℕ → Option (List Text) → List Check → Bool
  stops i last now =
      not o.wait
      || (accepts (window register_window) (elapsed i) last now || leb timeout (elapsed i))

  module _ (fuel i : ℕ) (last : Option (List Text)) where
    poll_fails :
        (e : Text)
        → checks i ≡ err e
        → poll checks elapsed register_window (suc fuel) o i last ≡ some (err (unreadable e))
    unfolding poll
    poll_fails e failed = ground arith

    poll_ends :
        (now : List Check)
        → checks i ≡ ok now
        → stops i last now ≡ true
        → poll checks elapsed register_window (suc fuel) o i last ≡ some (ok (i, now))
    unfolding poll
    poll_ends now polled h = ground arith

    poll_goes :
        (now : List Check)
        → checks i ≡ ok now
        → stops i last now ≡ false
        → poll checks elapsed register_window (suc fuel) o i last
          ≡ poll checks elapsed register_window fuel o (suc i) (some (check_name_set now))
    unfolding poll
    poll_goes now polled h = ground arith

  -- The loop ends where the time at a poll has reached the timeout.
  pub poll_terminates :
      (n i : ℕ) (last : Option (List Text))
      → timeout ≤ elapsed (i + n)
      → (r : Result Error (ℕ × List Check)) × (poll checks elapsed register_window (suc n) o i last
          ≡ some r)
  poll_terminates zero i last late = elim (Result-cases (checks i)) [
    | inl (e, failed) ↦ (err (unreadable e), poll_fails zero i last e failed)
    | inr (now, polled) ↦ (ok (i, now), poll_ends zero i last now polled (ground (arith, late)))
  ]
  poll_terminates (suc n) i last late = elim (Result-cases (checks i)) [
    | inl (e, failed) ↦ (err (unreadable e), poll_fails (suc n) i last e failed)
    | inr (now, polled) ↦ elim (Bool-cases (stops i last now)) [
      | inl stop ↦ (ok (i, now), poll_ends (suc n) i last now polled stop)
      | inr on ↦
          let (r, ended) =
            poll_terminates n (suc i) (some (check_name_set now))
              (subst (λ k. timeout ≤ elapsed k) (omega arith) late) in
          (r, poll_goes (suc n) i last now polled on ∙ ended)
    ]
  ]

  -- why the loop from the poll `i`, with the names `last` before it, ends at the poll `j` with `now`
  pub data Ending (i : ℕ) (last : Option (List Text)) (j : ℕ) (now : List Check) : Type 0 where
    at_once : o.wait ≡ false → Ending i last j now
    timed_out : timeout ≤ elapsed j → Ending i last j now
    accepted :
        j ≡ i → accepts (window register_window) (elapsed j) last now ≡ true → Ending i last j now
    repeated :
        (k : ℕ) (before : List Check)
        → j ≡ suc k
        → checks k ≡ ok before
        → accepts (window register_window) (elapsed j) (some (check_name_set before)) now ≡ true
        → Ending i last j now

  stop_Ending :
      (i : ℕ) (last : Option (List Text)) (now : List Check)
      → stops i last now ≡ true
      → Ending i last i now
  stop_Ending i last now stop = elim (Bool-cases o.wait) [
    | inr at_first ↦ at_once at_first
    | inl waits ↦ elim (Bool-cases (accepts (window register_window) (elapsed i) last now)) [
      | inl accept ↦ accepted refl accept
      | inr not_yet ↦ timed_out (ground (arith, waits, not_yet, stop))
    ]
  ]

  later_Ending :
      (i j : ℕ) (last : Option (List Text)) (before now : List Check)
      → checks i ≡ ok before
      → Ending (suc i) (some (check_name_set before)) j now
      → Ending i last j now
  later_Ending i j last before now polled (at_once w) = at_once w
  later_Ending i j last before now polled (timed_out t) = timed_out t
  later_Ending i j last before now polled (accepted e a) = repeated i before e polled a
  later_Ending i j last before now polled (repeated k b e c a) = repeated k b e c a

  same_end :
      (a b : ℕ × List Check)
      → ◌≡◌ {A = Option (Result Error (ℕ × List Check))} (some (ok a)) (some (ok b))
      → a ≡ b
  same_end a b e = cc

  pub poll-Ending :
      (fuel i j : ℕ) (last : Option (List Text)) (now : List Check)
      → poll checks elapsed register_window fuel o i last ≡ some (ok (j, now))
      → (checks j ≡ ok now) × Ending i last j now
  unfolding poll
  poll-Ending zero i j last now e = cc
  poll-Ending (suc fuel) i j last now e = elim (Result-cases (checks i)) [
    | inl (x, failed) ↦ absurd (ground (arith, poll_fails fuel i last x failed))
    | inr (seen, polled) ↦ elim (Bool-cases (stops i last seen)) [
      | inl stop ↦
          subst (λ p. (checks p.0 ≡ ok p.1) × Ending i last p.0 p.1)
            (same_end (i, seen) (j, now) (sym (poll_ends fuel i last seen polled stop) ∙ e))
            (polled, stop_Ending i last seen stop)
      | inr on ↦
          let rest =
            poll-Ending fuel (suc i) j (some (check_name_set seen)) now
              (sym (poll_goes fuel i last seen polled on) ∙ e) in
          (rest.0, later_Ending i j last seen now polled rest.1)
    ]
  ]
