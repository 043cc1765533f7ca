-- ===== src/Sqlite/Events.antt =====
-- pkg/onboard/infrastructure/sqlite/ratelimit.go: the store of rate-limit events. A time is written
-- in milliseconds; they are counted here from Go's zero time, where UnixMilli counts from 1970, which
-- changes no comparison. The SQL engine is a parameter with one function for each statement.
pub mod Limits
mod Tests
use orbit_cli.Prelude.{ℕ, ◌/◌, ◌≡◌, Option, if◌then◌else◌, ◌==◌}
use orbit_cli.Prelude.Words.{Text}
use orbit_cli.RateLimit.{RateLimitStore}

pub record EventDb (Db : Type 0) : Type 0 where
  -- INSERT INTO rate_limit_events (key, route, timestamp) VALUES (?, ?, ?)
  pub insert_event : Text → Text → ℕ → Db → Option Db
  -- SELECT COUNT(*) … WHERE key = ? AND route = ? AND timestamp >= ?
  pub count_events : Text → Text → ℕ → Db → Option ℕ
  -- DELETE … WHERE timestamp < ?
  pub delete_events : ℕ → Db → Option Db

-- ts.UnixMilli()
unfoldable pub milli : ℕ → ℕ
milli ts = ts / 1000000

module _ {Db : Type 0} (db : EventDb Db) where
  open db use {insert_event, count_events, delete_events}

  -- (*RateLimitStore).RecordEvent; `now` is the clock, which is read for a zero time
  unfoldable pub record_event : ℕ → Text → Text → ℕ → Db → Option Db
  record_event now key route ts d = insert_event key route (milli (if ts == 0 then now else ts)) d

  -- (*RateLimitStore).CountEventsSince
  unfoldable pub count_events_since : Text → Text → ℕ → Db → Option ℕ
  count_events_since key route since d = count_events key route (milli since) d

  -- (*RateLimitStore).PruneEventsOlderThan
  unfoldable pub prune_events_older_than : ℕ → Db → Option Db
  prune_events_older_than cutoff d = delete_events (milli cutoff) d

  -- `*sqlite.RateLimitStore` as the limiter sees it
  abbrev pub event_store : ℕ → RateLimitStore Db
  event_store now = record {
    record_event = record_event now;
    count_events_since = count_events_since;
    prune_events_older_than = prune_events_older_than;
  }
