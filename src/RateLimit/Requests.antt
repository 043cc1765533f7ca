-- ===== src/RateLimit/Requests.antt =====
-- Requests to a limiter that works in memory: how many of a key pass in any window.
use orbit_cli.Prelude.Int.{ℤ}
use orbit_cli.Prelude.{
  ℕ, ◌+◌, ◌≤◌, ◌<◌, ◌≡◌, Bool, true, false, List, [], ◌∷◌, ◌++◌, ◌&&◌, none, leb, if◌then◌else◌,
  length, keep, arith, refl, inl, inr, Bool-cases,
}
use mathlib.Core.Path.{subst}
use orbit_cli.Prelude.{◌⊎◌, sym}
use orbit_cli.Prelude.Words.{Text, same, same_iff}
use orbit_cli.Prelude.Dict.{put, lookup-put}
use orbit_cli.Prelude.Result.{Result, ok, err}
use orbit_cli.RateLimit.{
  Limiter, RateLimitStore, Error, Verdict, allow_key, slide, in_window, mem_key, events_of,
  effective, minute,
}
use orbit_cli.RateLimit.Window.{count, count-append, count_mono, keep-keep, slide_lem}
use orbit_cli.Prelude.{length-keep-le}
use orbit_cli.Prelude.Dict.{lookup}
use orbit_cli.Prelude.Int.{pos_or}
use orbit_cli.RateLimit.{new_limiter}

-- a call of AllowKey, with its time
pub record Call : Type 0 where
  pub now : ℕ
  pub key : Text
  pub route : Text

-- the times do not go back
abbrev pub IsOrdered : ℕ → List Call → Type 0
IsOrdered last [] = Unit
IsOrdered last (r ∷ rs) = (last ≤ r.now) × IsOrdered r.now rs

abbrev pub passes : Result Error Verdict → Bool
passes (err e) = false
passes (ok verdict) = verdict.allowed

-- the window that ends at `now`: the times after now - window, up to now
abbrev pub window_at : ℕ → ℕ → ℕ → Bool
window_at window now t = in_window now window t && leb t now

-- what is known of a key after some requests: `past` are the times of those that passed, and
-- `events` the timestamps that the limiter keeps
record Accounts (limit window last : ℕ) (past events : List ℕ) : Type 0 where
  recent :
      (now : ℕ)
      → last ≤ now
      → count (in_window now window) past ≤ count (in_window now window) events
  bounded : (now : ℕ) → count (window_at window now) past ≤ limit

later :
    {limit window last : ℕ} {past events : List ℕ} (next : ℕ)
    → last ≤ next
    → Accounts limit window last past events
    → Accounts limit window next past events
later next h a = record { recent = λ now k. a.recent now (omega arith); bounded = a.bounded }

module _ (limit window : ℕ) where
  refused :
      (last now : ℕ) (past events : List ℕ)
      → last ≤ now
      → Accounts limit window last past events
      → Accounts limit window now past (keep (in_window now window) events)
  refused last now past events h a = record {
    recent = λ later_now k.
        rw
          (keep-keep (in_window later_now window) (in_window now window) events
            (λ t p. ground arith))
          (a.recent later_now (omega arith));
    bounded = a.bounded;
  }

  allowed :
      (last now : ℕ) (past events : List ℕ)
      → last ≤ now
      → length (keep (in_window now window) events) < limit
      → Accounts limit window last past events
      → Accounts limit window now (now ∷ past) (keep (in_window now window) events ++ now ∷ [])
  allowed last now past events h room a =
      let kept = refused last now past events h a in
      record {
        recent = λ later_now k. ground (
          arith,
          kept.recent later_now k,
          count-append (in_window later_now window) (keep (in_window now window) events) (now ∷ []),
        );
        bounded = λ later_now.
            bounded_after later_now (a.bounded later_now)
              (count_mono (window_at window later_now) (in_window later_now window) past
                (λ t p. ground arith))
              (λ k. kept.recent later_now k)
              (length-keep-le (in_window later_now window) (keep (in_window now window) events));
      }
    where
      bounded_after :
          (later_now : ℕ)
          → count (window_at window later_now) past ≤ limit
          → count (window_at window later_now) past ≤ count (in_window later_now window) past
          → (now ≤ later_now
              → count (in_window later_now window) past
                ≤ count (in_window later_now window) (keep (in_window now window) events))
          → count (in_window later_now window) (keep (in_window now window) events)
            ≤ length (keep (in_window now window) events)
          → count (window_at window later_now) (now ∷ past) ≤ limit
      bounded_after later_now b1 b2 b3 b4 = ground (arith, b3)

module _ {S : Type 0} (methods : RateLimitStore S) (limit_arg window_arg : ℤ) (target : Text) where
  -- the times of the requests of the key `target` that the limiter let pass
  unfoldable pub passed : Limiter S → List Call → List ℕ
  passed l [] = []
  passed l (r ∷ rs) =
      let step = allow_key methods r.now r.key r.route limit_arg window_arg l in
      let rest = passed step.1 rs in
      if same (mem_key r.route r.key) target && passes step.0 then r.now ∷ rest else rest

  module _ (limit window : ℕ) where
    -- the limiter works in memory, and the calls have this limit and this window
    record Works (l : Limiter S) : Type 0 where
      in_memory : l.store ≡ none
      limit_lem : effective 10 l.default_limit limit_arg ≡ limit
      window_lem : effective minute l.default_window window_arg ≡ window

    allow_memory :
        (l : Limiter S) (r : Call)
        → Works l
        → let moved : Verdict × List ℕ =
            slide r.now limit window (events_of (mem_key r.route r.key) l.mem_events) in
          allow_key methods r.now r.key r.route limit_arg window_arg l
          ≡ (ok moved.0, record l { mem_events = put (mem_key r.route r.key) moved.1 l.mem_events })
    unfolding allow_key
    allow_memory l r w = rw (w.in_memory, w.limit_lem, w.window_lem)

    after : Limiter S → Call → Limiter S
    after l r = record l {
      mem_events =
          put (mem_key r.route r.key)
            (slide r.now limit window (events_of (mem_key r.route r.key) l.mem_events)).1
            l.mem_events;
    }

    events_after :
        (l : Limiter S) (r : Call)
        → events_of target (after l r).mem_events ≡ (
            if same (mem_key r.route r.key) target
            then (slide r.now limit window (events_of target l.mem_events)).1
            else events_of target l.mem_events)
    unfolding after
    events_after l r = ground (
      arith,
      same_iff (mem_key r.route r.key) target,
      lookup-put (mem_key r.route r.key) target
          (slide r.now limit window (events_of (mem_key r.route r.key) l.mem_events)).1
          l.mem_events,
    )

    after-Works : (l : Limiter S) (r : Call) → Works l → Works (after l r)
    unfolding after
    after-Works l r w = record {
      in_memory = w.in_memory;
      limit_lem = w.limit_lem;
      window_lem = w.window_lem;
    }

    -- the request is one of `target` that passes
    abbrev counts_for : Limiter S → Call → Bool
    counts_for l r =
        same (mem_key r.route r.key) target
        && (slide r.now limit window (events_of (mem_key r.route r.key) l.mem_events)).0.allowed

    accounts_after :
        (l : Limiter S) (last : ℕ) (past : List ℕ) (r : Call)
        → last ≤ r.now
        → Accounts limit window last past (events_of target l.mem_events)
        → ((counts_for l r ≡ true)
            × Accounts limit window r.now (r.now ∷ past) (events_of target (after l r).mem_events))
          ⊎ ((counts_for l r ≡ false)
              × Accounts limit window r.now past (events_of target (after l r).mem_events))
    accounts_after l last past r h a = elim (Bool-cases (same (mem_key r.route r.key) target)) [
      | inr other ↦ inr (
        ground (arith, other),
        subst (λ es. Accounts limit window r.now past es) (ground (arith, events_after l r))
            (later r.now h a),
      )
      | inl mine ↦ elim (slide_lem r.now limit window (events_of target l.mem_events)) [
        | inl (passing, room, kept) ↦ inl (
          ground (arith, same_iff (mem_key r.route r.key) target, passing),
          subst (λ es. Accounts limit window r.now (r.now ∷ past) es)
              (sym (ground (arith, events_after l r, kept)))
              (allowed limit window last r.now past (events_of target l.mem_events) h room a),
        )
        | inr (stopped, full, kept) ↦ inr (
          ground (arith, same_iff (mem_key r.route r.key) target, stopped),
          subst (λ es. Accounts limit window r.now past es)
              (sym (ground (arith, events_after l r, kept)))
              (refused limit window last r.now past (events_of target l.mem_events) h a),
        )
      ]
    ]

    passed_cons :
        (l : Limiter S) (r : Call) (rs : List Call)
        → Works l
        → passed l (r ∷ rs)
          ≡ (if counts_for l r then r.now ∷ passed (after l r) rs else passed (after l r) rs)
    unfolding passed after
    passed_cons l r rs w = rw (allow_memory l r w) refl

    count-cons :
        (p : ℕ → Bool) (t : ℕ) (past rest : List ℕ)
        → count p past + count p (t ∷ rest) ≡ count p (t ∷ past) + count p rest
    count-cons p t past rest = ground arith

    passed_bounded :
        (l : Limiter S) (last : ℕ) (past : List ℕ) (rs : List Call)
        → Works l
        → IsOrdered last rs
        → Accounts limit window last past (events_of target l.mem_events)
        → (now : ℕ)
        → count (window_at window now) past + count (window_at window now) (passed l rs) ≤ limit
    unfolding passed
    passed_bounded l last past [] w o a now = omega (arith, a.bounded now)
    passed_bounded l last past (r ∷ rs) w o a now =
        rw (passed_cons l r rs w) (elim (accounts_after l last past r o.0 a) [
          | inl (counted, b) ↦
              rw (counted, count-cons (window_at window now) r.now past (passed (after l r) rs))
                (passed_bounded (after l r) r.now (r.now ∷ past) rs (after-Works l r w) o.1 b now)
          | inr (uncounted, b) ↦
              rw uncounted (passed_bounded (after l r) r.now past rs (after-Works l r w) o.1 b now)
        ])

-- A new limiter that works in memory lets at most `limit` requests of a key pass in any window, for
-- any calls of AllowKey whose times do not go back, and with whichever keys between.
pub window_limit :
    {S : Type 0} (methods : RateLimitStore S) (limit window default_limit default_window : ℤ)
    (target : Text) (rs : List Call)
    → IsOrdered 0 rs
    → (now : ℕ)
    → count
        (window_at (effective minute (pos_or minute default_window) window) now)
        (passed methods limit window target (new_limiter none default_limit default_window) rs)
      ≤ effective 10 (pos_or 10 default_limit) limit
unfolding lookup new_limiter
window_limit methods limit window default_limit default_window target rs ordered now = omega (
  arith,
  passed_bounded methods limit window target (effective 10 (pos_or 10 default_limit) limit)
      (effective minute (pos_or minute default_window) window)
      (new_limiter none default_limit default_window) 0 [] rs
      (record { in_memory = refl; limit_lem = refl; window_lem = refl }) ordered
      (record { recent = λ later k. omega arith; bounded = λ later. omega arith }) now,
)
