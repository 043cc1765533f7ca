-- ===== src/Sqlite/Events/Tests.antt =====
-- A limiter on a table that is a list of rows.
use orbit_cli.Prelude.{
  ◌≡◌, ℕ, ◌≤◌, ◌&&◌, not, List, [], ◌∷◌, some, ltb, leb, if◌then◌else◌, keep, arith, refl,
}
use orbit_cli.Prelude.Int.{pos}
use orbit_cli.Prelude.Words.{Text, text, same}
use orbit_cli.RateLimit.{new_limiter}
use orbit_cli.RateLimit.Window.{count}
use orbit_cli.RateLimit.Requests.{Call}
use orbit_cli.Sqlite.Events.{EventDb}
use orbit_cli.Sqlite.Events.Limits.{CountsRows, window_at_milli, passed_stored, sqlite_window_limit}

record Row : Type 0 where
  key : Text
  route : Text
  timestamp : ℕ

abbrev times : Text → Text → List Row → List ℕ
times key route [] = []
times key route (row ∷ rows) =
    let rest = times key route rows in
    if same row.key key && same row.route route then row.timestamp ∷ rest else rest

abbrev table : EventDb (List Row)
table = record {
  insert_event = λ key route ms d. some (record { key = key; route = route; timestamp = ms } ∷ d);
  count_events = λ key route since d. some (count (λ t. leb since t) (times key route d));
  delete_events = λ cutoff d. some (keep (λ row. not (ltb row.timestamp cutoff)) d);
}

row_inserted :
    (key route key' route' : Text) (ms : ℕ) (d d' : List Row)
    → table.insert_event key' route' ms d ≡ some d'
    → times key route d'
      ≡ (if same key' key && same route' route then ms ∷ times key route d else times key route d)
row_inserted key route key' route' ms d d' e = ground arith

rows_counted :
    (key route : Text) (since : ℕ) (d : List Row) (n : ℕ)
    → table.count_events key route since d ≡ some n
    → n ≡ count (λ t. leb since t) (times key route d)
rows_counted key route since d n e = ground arith

abbrev counts_rows : CountsRows table
counts_rows = record { times = times; inserted = row_inserted; counted = rows_counted }

abbrev at : ℕ → Call
at now = record { now = now; key = text "a"; route = text "r" }

abbrev calls : List Call
calls = at 5000000 ∷ at 7000000 ∷ at 60000000 ∷ []

sqlite_window_limit_example :
    count (window_at_milli 50000000 9000000) (
      passed_stored table
        (pos 1)
        (pos 50000000)
        (text "a")
        (text "r")
        (new_limiter (some []) (pos 0) (pos 0))
        calls)
    ≤ 1
sqlite_window_limit_example =
    sqlite_window_limit table counts_rows (pos 1) (pos 50000000) (pos 0) (pos 0) (text "a")
      (text "r") [] calls refl 9000000
