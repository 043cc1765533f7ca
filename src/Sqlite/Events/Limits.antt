-- ===== src/Sqlite/Events/Limits.antt =====
-- How many requests a limiter on the SQLite store lets pass in a window.
use mathlib.Core.Path.{subst}
use orbit_cli.RateLimit.{RateLimitStore}
use orbit_cli.Prelude.{
  ℕ, ◌+◌, ◌-◌, ◌≡◌, ◌≤◌, ◌<◌, Bool, true, false, ◌&&◌, List, [], ◌∷◌, Option, none, some, leb,
  if◌then◌else◌, map, arith, refl, inl, inr, ◌⊎◌, Bool-cases, Option-cases, sym, ◌∙◌,
}
use orbit_cli.Prelude.Int.{ℤ}
use orbit_cli.Prelude.Words.{Text, same, same_iff}
use orbit_cli.Prelude.Result.{Result}
use orbit_cli.RateLimit.{Limiter, Error, Verdict, allow_key, effective, minute}
use orbit_cli.RateLimit.Window.{count, count_mono}
use orbit_cli.RateLimit.Requests.{Call, passes}
use orbit_cli.Sqlite.Events.{EventDb, event_store, milli}
use orbit_cli.RateLimit.{allow_stored}
use orbit_cli.RateLimit.{recorded}
use orbit_cli.Sqlite.Events.{record_event}
use orbit_cli.Sqlite.Events.{count_events_since}
use orbit_cli.RateLimit.{new_limiter}
use orbit_cli.Prelude.{ap}
use orbit_cli.Prelude.Int.{pos_or}

-- What the code relies on in INSERT and SELECT: `times` are the milliseconds of the rows of a key and a
-- route, an INSERT adds its own, and COUNT counts them.
pub record CountsRows {Db : Type 0} (db : EventDb Db) : Type 0 where
  pub times : Text → Text → Db → List ℕ
  pub inserted :
      (key route key' route' : Text) (ms : ℕ) (d d' : Db)
      → db.insert_event key' route' ms d ≡ some d'
      → times key route d'
        ≡ (if same key' key && same route' route then ms ∷ times key route d else times key route d)
  pub counted :
      (key route : Text) (since : ℕ) (d : Db) (n : ℕ)
      → db.count_events key route since d ≡ some n
      → n ≡ count (λ t. leb since t) (times key route d)

-- the times from the millisecond of now - window on, up to now
abbrev pub window_at_milli : ℕ → ℕ → ℕ → Bool
window_at_milli window now t = leb (milli (now - window)) (milli t) && leb t now

-- what a call of the limiter does on its store: it is recorded, or nothing changes
Outcome :
    {S : Type 0}
    → RateLimitStore S
    → ℕ
    → Text
    → Text
    → ℕ
    → S
    → Option ℕ
    → Limiter S
    → Result Error Verdict × Limiter S
    → Type 0
Outcome methods now key route limit d answer l result =
    ((passes result.0 ≡ false) × (result.1 ≡ l))
    ⊎ ((n : ℕ) × (d' : _) × (passes result.0 ≡ true)
        × (answer ≡ some n)
        × (n < limit)
        × (methods.record_event key route now d ≡ some d')
        × (result.1 ≡ record l { store = some d' }))

allow_stored-Outcome :
    {S : Type 0} (methods : RateLimitStore S) (now : ℕ) (key route : Text) (limit window : ℕ)
    (d : S) (answer : Option ℕ) (l : Limiter S)
    → Outcome methods now key route limit d answer l
        (allow_stored methods now key route limit window d answer l)
unfolding allow_stored recorded Outcome
allow_stored-Outcome methods now key route limit window d none l = inl (refl, refl)
allow_stored-Outcome methods now key route limit window d (some n) l =
    elim (Bool-cases (leb limit n)) [
      | inl full ↦ rw full (inl (refl, refl))
      | inr room ↦ elim (Option-cases (methods.record_event key route now d)) [
        | inl failed ↦ inl (ground arith, ground arith)
        | inr (d', done) ↦ inr (n, d', ground arith, refl, ground arith, done, ground arith)
      ]
    ]

count-map : (p : ℕ → Bool) (f : ℕ → ℕ) (ts : List ℕ) → count p (map f ts) ≡ count (λ t. p (f t)) ts
count-map p f [] = refl
count-map p f (t ∷ ts) = ground (arith, count-map p f ts)

count-cons :
    (p : ℕ → Bool) (t : ℕ) (past rest : List ℕ)
    → count p past + count p (t ∷ rest) ≡ count p (t ∷ past) + count p rest
count-cons p t past rest = ground arith

milli_mono : (a b : ℕ) → a ≤ b → milli a ≤ milli b
unfolding milli
milli_mono a b h = omega (arith, h)

-- an event that found room at `now` keeps every window within the limit
bounded_after :
    (limit window now later : ℕ) (past : List ℕ)
    → count (λ t. leb (milli (now - window)) (milli t)) past < limit
    → count (window_at_milli window later) past ≤ limit
    → count (window_at_milli window later) (now ∷ past) ≤ limit
bounded_after limit window now later past room bound = elim (Bool-cases (leb now later)) [
  | inr after ↦ ground arith
  | inl before ↦ ground (
    arith,
    count_mono (window_at_milli window later) (λ t. leb (milli (now - window)) (milli t)) past
        (λ t p. ground (arith, milli_mono (now - window) (later - window) (ground arith))),
  )
]

module _ {Db : Type 0} (db : EventDb Db) (limit_arg window_arg : ℤ) (key route : Text) where
  step : Call → Limiter Db → Result Error Verdict × Limiter Db
  step r l = allow_key (event_store db r.now) r.now r.key r.route limit_arg window_arg l

  -- the times of the calls for the key and the route that passed
  unfoldable pub passed_stored : Limiter Db → List Call → List ℕ
  unfolding step
  passed_stored l [] = []
  passed_stored l (r ∷ rs) =
      let rest = passed_stored (step r l).1 rs in
      if (same r.key key && same r.route route) && passes (step r l).0 then r.now ∷ rest else rest

  module _ (rows : CountsRows db) (limit window : ℕ) where
    record Runs (l : Limiter Db) (d : Db) : Type 0 where
      stored : l.store ≡ some d
      limit_lem : effective 10 l.default_limit limit_arg ≡ limit
      window_lem : effective minute l.default_window window_arg ≡ window

    step-Outcome :
        (l : Limiter Db) (d : Db) (r : Call)
        → Runs l d
        → Outcome
            (event_store db r.now)
            r.now
            r.key
            r.route
            limit
            d
            (db.count_events r.key r.route (milli (r.now - window)) d)
            l
            (step r l)
    unfolding step allow_key count_events_since
    step-Outcome l d r w =
        subst
          (λ q.
            Outcome (event_store db r.now) r.now r.key r.route limit d
              (db.count_events r.key r.route (milli (r.now - window)) d) l q)
          (rw (w.stored, w.limit_lem, w.window_lem) refl)
          (allow_stored-Outcome (event_store db r.now) r.now r.key r.route limit window d
            (count_events_since db r.key r.route (r.now - window) d) l)

    skipped :
        (l : Limiter Db) (r : Call) (rs : List Call)
        → ((same r.key key && same r.route route) && passes (step r l).0) ≡ false
        → passed_stored l (r ∷ rs) ≡ passed_stored (step r l).1 rs
    unfolding passed_stored
    skipped l r rs other = rw other refl

    let_pass :
        (l : Limiter Db) (r : Call) (rs : List Call)
        → ((same r.key key && same r.route route) && passes (step r l).0) ≡ true
        → passed_stored l (r ∷ rs) ≡ r.now ∷ passed_stored (step r l).1 rs
    unfolding passed_stored
    let_pass l r rs mine = rw mine refl

    passed_none : (l : Limiter Db) → passed_stored l [] ≡ []
    unfolding passed_stored
    passed_none l = refl

    inserted_now :
        (r : Call) (d : Db)
        → record_event db r.now r.key r.route r.now d
          ≡ db.insert_event r.key r.route (milli r.now) d
    unfolding record_event
    inserted_now r d = ground arith

    times_after :
        (r : Call) (d d' : Db)
        → record_event db r.now r.key r.route r.now d ≡ some d'
        → rows.times key route d' ≡ (
            if same r.key key && same r.route route
            then milli r.now ∷ rows.times key route d
            else rows.times key route d)
    times_after r d d' inserted =
        rows.inserted key route r.key r.route (milli r.now) d d' (sym (inserted_now r d) ∙ inserted)

    room_before :
        (r : Call) (d : Db) (past : List ℕ) (n : ℕ)
        → (same r.key key && same r.route route) ≡ true
        → db.count_events r.key r.route (milli (r.now - window)) d ≡ some n
        → n < limit
        → rows.times key route d ≡ map milli past
        → count (λ t. leb (milli (r.now - window)) (milli t)) past < limit
    room_before r d past n mine counted room known =
        let n_lem = rows.counted r.key r.route (milli (r.now - window)) d n counted in
        let same_key : r.key ≡ key = ground (arith, same_iff r.key key) in
        let same_route : r.route ≡ route = ground (arith, same_iff r.route route) in
        subst (λ k. k < limit)
          (n_lem
            ∙ (ap (λ k. count (λ t. leb (milli (r.now - window)) t) (rows.times k r.route d))
                  same_key
                ∙ (ap (λ k. count (λ t. leb (milli (r.now - window)) t) (rows.times key k d))
                      same_route
                    ∙ (ap (λ ts. count (λ t. leb (milli (r.now - window)) t) ts) known
                        ∙ count-map (λ t. leb (milli (r.now - window)) t) milli past))))
          room

    with_store-Runs :
        (l : Limiter Db) (d d' : Db) → Runs l d → Runs (record l { store = some d' }) d'
    with_store-Runs l d d' w = record {
      stored = refl;
      limit_lem = w.limit_lem;
      window_lem = w.window_lem;
    }

    passed_stored_bounded :
        (l : Limiter Db) (d : Db) (past : List ℕ) (rs : List Call)
        → Runs l d
        → rows.times key route d ≡ map milli past
        → ((now : ℕ) → count (window_at_milli window now) past ≤ limit)
        → (now : ℕ)
        → count (window_at_milli window now) past
            + count (window_at_milli window now) (passed_stored l rs)
          ≤ limit
    unfolding Outcome
    passed_stored_bounded l d past [] w known bound now =
        rw (passed_none l) (omega (arith, bound now))
    passed_stored_bounded l d past (r ∷ rs) w known bound now = elim (step-Outcome l d r w) [
      | inl (refused, unchanged) ↦
          rw (skipped l r rs (ground arith), unchanged)
            (passed_stored_bounded l d past rs w known bound now)
      | inr (n, d', passing, counted, room, inserted, moved) ↦
          elim (Bool-cases (same r.key key && same r.route route)) [
            | inl mine ↦
                rw
                  (
                    let_pass l r rs (ground arith),
                    moved,
                    count-cons (window_at_milli window now) r.now past
                        (passed_stored (record l { store = some d' }) rs),
                  )
                  (passed_stored_bounded (record l { store = some d' }) d' (r.now ∷ past) rs
                    (with_store-Runs l d d' w)
                    (ground (arith, times_after r d d' inserted, mine, known))
                    (λ later.
                      bounded_after limit window r.now later past
                        (room_before r d past n mine counted room known) (bound later))
                    now)
            | inr other ↦
                rw (skipped l r rs (ground arith), moved)
                  (passed_stored_bounded (record l { store = some d' }) d' past rs
                    (with_store-Runs l d d' w)
                    (ground (arith, times_after r d d' inserted, other, known)) bound now)
          ]
    ]

-- A new limiter on the SQLite store, where no event of a key and a route is stored yet, lets at most
-- `limit` of their requests pass in any window, which is taken from its first millisecond on: for any
-- calls of AllowKey one after the other, at any times, with whichever keys and routes between, where
-- INSERT and COUNT do what they say.
pub sqlite_window_limit :
    {Db : Type 0} (db : EventDb Db) (rows : CountsRows db)
    (limit window default_limit default_window : ℤ) (key route : Text) (d : Db) (rs : List Call)
    → rows.times key route d ≡ []
    → (now : ℕ)
    → count (window_at_milli (effective minute (pos_or minute default_window) window) now) (
        passed_stored db limit window key route
          (new_limiter (some d) default_limit default_window)
          rs)
      ≤ effective 10 (pos_or 10 default_limit) limit
unfolding new_limiter
sqlite_window_limit db rows limit window default_limit default_window key route d rs fresh now =
    omega (
      arith,
      passed_stored_bounded db limit window key route rows
          (effective 10 (pos_or 10 default_limit) limit)
          (effective minute (pos_or minute default_window) window)
          (new_limiter (some d) default_limit default_window) d [] rs
          (record { stored = refl; limit_lem = refl; window_lem = refl }) fresh
          (λ later. omega arith) now,
    )
