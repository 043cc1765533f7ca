-- ===== src/RateLimit.antt =====
-- pkg/onboard/infrastructure/server/ratelimit/limiter.go: the sliding-window limiter and its
-- middleware. Times and durations are nanoseconds; a time lies after Go's zero time by more than
-- any duration, so that subtracting one never stops at 0.
pub mod Window
pub mod Requests
pub mod Pruning
pub mod Client
pub mod Middleware
mod Tests
use orbit_cli.Prelude.Int.{ℤ, pos_or}
use orbit_cli.Prelude.{
  ℕ, ◌+◌, ◌-◌, ◌*◌, ◌/◌, ◌≡◌, Bool, true, false, List, [], ◌∷◌, ◌++◌, Option, none, some, ltb, leb,
  ◌==◌, if◌then◌else◌, keep, length,
}
use orbit_cli.Prelude.Words.{Text, text}
use orbit_cli.Prelude.Dict.{Dict, lookup, put}
use orbit_cli.Prelude.Result.{Result, ok, err}

-- time.Second and time.Minute
abbrev pub second : ℕ
second = 1000000000

abbrev pub minute : ℕ
minute = 60 * second

pub data Error : Type 0 where
  query_failed record_failed prune_failed : Error

-- The interface domain.RateLimitStore; none where the method returns an error.
pub record RateLimitStore (S : Type 0) : Type 0 where
  pub record_event : Text → Text → ℕ → S → Option S
  pub count_events_since : Text → Text → ℕ → S → Option ℕ
  pub prune_events_older_than : ℕ → S → Option S

-- The state of a Limiter; `store` is none where the events are kept in memory.
pub record Limiter (S : Type 0) : Type 0 where
  pub store : Option S
  pub default_limit : ℕ
  pub default_window : ℕ
  pub mem_events : Dict (List ℕ)

-- NewLimiter, with the two options that concern the window
unfoldable pub new_limiter : {S : Type 0} → Option S → ℤ → ℤ → Limiter S
new_limiter store limit window = record {
  store = store;
  default_limit = pos_or 10 limit;
  default_window = pos_or minute window;
  mem_events = [];
}

-- route + ":" + key
unfoldable pub mem_key : Text → Text → Text
mem_key route key = route ++ b':' ∷ key

-- l.memEvents[memKey], the empty slice where the key is missing
abbrev pub events_of : Text → Dict (List ℕ) → List ℕ
events_of k m = elim (lookup k m) [ none ↦ [] | some ts ↦ ts ]

-- `t.After(now.Add(-window))`
abbrev pub in_window : ℕ → ℕ → ℕ → Bool
in_window now window t = ltb now (t + window)

-- the answer of AllowKey: whether the request may pass, and how long to wait
pub record Verdict : Type 0 where
  pub allowed : Bool
  pub retry_after : ℕ

abbrev pub pass : Verdict
pass = record { allowed = true; retry_after = 0 }

-- `oldest.Add(window).Sub(now)`, a second where that is not positive
unfoldable pub retry_after : ℕ → ℕ → List ℕ → ℕ
retry_after now window [] = second
retry_after now window (oldest ∷ valid) =
    if oldest + window - now == 0 then second else oldest + window - now

-- one round of the sliding window on the timestamps of a key
unfoldable pub slide : ℕ → ℕ → ℕ → List ℕ → Verdict × List ℕ
slide now limit window timestamps =
    let valid = keep (in_window now window) timestamps in
    if leb limit (length valid)
    then (record { allowed = false; retry_after = retry_after now window valid }, valid)
    else (pass, valid ++ now ∷ [])

-- `if limit <= 0 { limit = l.defaultLimit }; if limit <= 0 { limit = 10 }`
abbrev pub effective : ℕ → ℕ → ℤ → ℕ
effective fallback default v =
    let given = pos_or default v in if given == 0 then fallback else given

-- the loop of Prune
unfoldable pub prune_entries : ℕ → Dict (List ℕ) → Dict (List ℕ)
prune_entries cutoff [] = []
prune_entries cutoff ((k, timestamps) ∷ m) =
    let rest = prune_entries cutoff m in
    elim (keep (λ t. ltb cutoff t) timestamps) [ [] ↦ rest | t ∷ valid ↦ (k, t ∷ valid) ∷ rest ]

module _ {S : Type 0} (methods : RateLimitStore S) where
  open methods use {record_event, count_events_since, prune_events_older_than}

  unfoldable pub recorded : Option S → Limiter S → Result Error Verdict × Limiter S
  recorded none l = (err record_failed, l)
  recorded (some s) l = (ok pass, record l { store = some s })

  unfoldable pub allow_stored :
      ℕ → Text → Text → ℕ → ℕ → S → Option ℕ → Limiter S → Result Error Verdict × Limiter S
  unfolding recorded
  allow_stored now key route limit window s none l = (err query_failed, l)
  allow_stored now key route limit window s (some count) l =
      if leb limit count
      then (ok (record { allowed = false; retry_after = window }), l)
      else recorded (record_event key route now s) l

  -- (*Limiter).AllowKey, at the time `now`
  unfoldable pub allow_key : ℕ → Text → Text → ℤ → ℤ → Limiter S → Result Error Verdict × Limiter S
  unfolding allow_stored
  allow_key now key route limit window l =
      let n = effective 10 l.default_limit limit in
      let w = effective minute l.default_window window in
      elim l.store [
        | none ↦
            let (verdict, kept) = slide now n w (events_of (mem_key route key) l.mem_events) in
            (ok verdict, record l { mem_events = put (mem_key route key) kept l.mem_events })
        | some s ↦ allow_stored now key route n w s (count_events_since key route (now - w) s) l
      ]

  -- (*Limiter).Prune
  unfoldable pub prune : ℕ → Limiter S → Result Error (Unit {0}) × Limiter S
  unfolding prune_entries
  prune cutoff l = elim l.store [
    | none ↦ (ok tt, record l { mem_events = prune_entries cutoff l.mem_events })
    | some s ↦ elim (prune_events_older_than cutoff s) [
      | none ↦ (err prune_failed, l)
      | some s' ↦ (ok tt, record l { store = some s' })
    ]
  ]

-- What the middleware does with a request: it calls the next handler, or answers 429 with the
-- seconds of Retry-After.
pub data Response : Type 0 where
  next : Response
  too_many_requests : ℕ → Response

unfoldable pub retry_seconds : ℕ → ℕ
retry_seconds wait = if wait / second == 0 then 1 else wait / second

-- the end of Middleware; an error of the store lets the request pass
unfoldable pub respond : Result Error Verdict → Response
unfolding retry_seconds
respond (err e) = next
respond (ok verdict) =
    if verdict.allowed then next else too_many_requests (retry_seconds verdict.retry_after)
