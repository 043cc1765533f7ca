-- ===== src/RateLimit/Pruning.antt =====
-- Waiting for a refused request, and the sweep of old events by Prune.
use orbit_cli.Prelude.{
  ℕ, ◌+◌, ◌≤◌, ◌<◌, ◌≡◌, true, false, List, [], ◌∷◌, none, ltb, keep, length, arith, refl,
  length-keep-le,
}
use orbit_cli.Prelude.Words.{Text}
use orbit_cli.Prelude.Int.{ℤ}
use orbit_cli.Prelude.Dict.{Dict, lookup, IsUnique}
use orbit_cli.RateLimit.Window.{keep-keep}
use orbit_cli.RateLimit.{
  in_window, slide, retry_after, events_of, prune_entries, prune, allow_key, effective, minute,
  Limiter, RateLimitStore, mem_key,
}
use orbit_cli.Prelude.Words.{same_iff}

waited :
    (now limit window : ℕ) (valid : List ℕ)
    → 0 < limit
    → length valid ≤ limit
    → limit ≤ length valid
    → length (keep (in_window (now + retry_after now window valid) window) valid) < limit
unfolding retry_after
waited now limit window [] positive held full = omega (arith, positive, full)
waited now limit window (oldest ∷ valid) positive held full =
    ground (
      arith,
      length-keep-le (in_window (now + retry_after now window (oldest ∷ valid)) window) valid,
    )

slide_refused :
    (now limit window : ℕ) (ts : List ℕ)
    → limit ≤ length (keep (in_window now window) ts)
    → slide now limit window ts ≡ (
      record {
        allowed = false;
        retry_after = retry_after now window (keep (in_window now window) ts);
      },
      keep (in_window now window) ts,
    )
unfolding slide
slide_refused now limit window ts full = ground arith

slide_passes :
    (now limit window : ℕ) (ts : List ℕ)
    → length (keep (in_window now window) ts) < limit
    → (slide now limit window ts).0.allowed ≡ true
unfolding slide
slide_passes now limit window ts room = ground arith

slide_full :
    (now limit window : ℕ) (ts : List ℕ)
    → (slide now limit window ts).0.allowed ≡ false
    → limit ≤ length (keep (in_window now window) ts)
unfolding slide
slide_full now limit window ts refused = ground arith

-- A key that holds at most `limit` timestamps, where the limit is not 0, and is refused may pass
-- after the wait that it is told, when no other request of the key comes before.
pub slide-retry_after :
    (now limit window : ℕ) (ts : List ℕ)
    → 0 < limit
    → length ts ≤ limit
    → (slide now limit window ts).0.allowed ≡ false
    → (slide
        (now + (slide now limit window ts).0.retry_after)
        limit
        window
        (slide now limit window ts).1).0.allowed
      ≡ true
slide-retry_after now limit window ts positive held refused =
    let full = slide_full now limit window ts refused in
    let valid = keep (in_window now window) ts in
    rw (slide_refused now limit window ts full) (
      slide_passes (now + retry_after now window valid) limit window valid (
        waited now limit window valid positive
          (omega (arith, held, length-keep-le (in_window now window) ts)) full))

-- the entry of a key after the sweep
events_of-prune_entries :
    (cutoff : ℕ) (k : Text) (m : Dict (List ℕ))
    → IsUnique m
    → events_of k (prune_entries cutoff m) ≡ keep (λ t. ltb cutoff t) (events_of k m)
unfolding lookup prune_entries
events_of-prune_entries cutoff k [] u = refl
events_of-prune_entries cutoff k ((j, ts) ∷ m) u =
    ground (arith, events_of-prune_entries cutoff k m u.1, u.0, same_iff j k)

slide_pruned :
    (cutoff now limit window : ℕ) (ts : List ℕ)
    → cutoff + window ≤ now
    → slide now limit window (keep (λ t. ltb cutoff t) ts) ≡ slide now limit window ts
unfolding slide
slide_pruned cutoff now limit window ts old =
    rw (keep-keep (in_window now window) (λ t. ltb cutoff t) ts (λ t p. ground arith)) refl

-- Prune on a limiter in memory whose map has one entry a key changes no verdict of AllowKey at a
-- time at which the window has passed the cutoff.
pub allow_key-prune :
    {S : Type 0} (methods : RateLimitStore S) (cutoff now : ℕ) (key route : Text) (limit window : ℤ)
    (l : Limiter S)
    → l.store ≡ none
    → IsUnique l.mem_events
    → cutoff + effective minute l.default_window window ≤ now
    → (allow_key methods now key route limit window (prune methods cutoff l).1).0
      ≡ (allow_key methods now key route limit window l).0
unfolding allow_key prune
allow_key-prune methods cutoff now key route limit window l in_memory unique old =
    rw
      (
        in_memory,
        events_of-prune_entries cutoff (mem_key route key) l.mem_events unique,
        slide_pruned cutoff now (effective 10 l.default_limit limit)
            (effective minute l.default_window window) (events_of (mem_key route key) l.mem_events)
            old,
      )
      refl
