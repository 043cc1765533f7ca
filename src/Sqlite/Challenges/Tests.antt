-- ===== src/Sqlite/Challenges/Tests.antt =====
-- A table with one challenge, and a run of the manager that uses up its attempts.
use orbit_cli.Owner.ChallengeRecord.{matches}
use orbit_cli.Prelude.{
  ℕ, ◌+◌, ◌<◌, ◌≡◌, true, false, [], ◌∷◌, none, some, refl, arith, not, ltb, if◌then◌else◌, ◌&&◌,
}
use mathlib.Core.Path.{subst}
use orbit_cli.Prelude.{◌≤◌}
use orbit_cli.Prelude.Words.{Text, text, same, same_refl, is_empty, trim_space, to_lower}
use orbit_cli.Prelude.Result.{err}
use orbit_cli.Owner.Code.{normalize, hash_code}
use orbit_cli.Owner.Errors.{max_attempts_exceeded}
use orbit_cli.Owner.Challenge.{verify_code}
use orbit_cli.Owner.Challenge.Memory.{IsWrong, guess_all}
use orbit_cli.Sqlite.Grants.{Answer, row, no_rows}
use orbit_cli.Sqlite.Challenges.{ChallengeRow, ChallengeDb, scan_challenge, challenge_store}
use orbit_cli.Sqlite.Challenges.Laws.{Selects, CountsRows, HoldsRow, sqlite_challenge_locks}

abbrev select_latest : Text → ℕ → ChallengeRow → Answer ChallengeRow
select_latest email now r =
    if not r.verified && (ltb now r.expires_at && same r.email email) then row r else no_rows

abbrev increment : Text → ChallengeRow → Answer ℕ × ChallengeRow
increment id r =
    if same r.id id
    then (row (r.attempts_count + 1), record r { attempts_count = r.attempts_count + 1 })
    else (no_rows, r)

abbrev table : ChallengeDb ChallengeRow
table = record {
  upsert = λ r old. some r;
  select_latest = select_latest;
  increment = increment;
  update_verified = λ now id r. some (1, record r { verified = true; verified_at = some now });
  delete_expired = λ now r. some r;
  draw_id = λ r. some (text "c1");
}

select_self :
    (email : Text) (d r : ChallengeRow) (now : ℕ) → select_latest email now d ≡ row r → d ≡ r
select_self email d r now h = ground arith

counted_row :
    (email : Text) (d : ChallengeRow)
    → Selects table email d d
    → ((table.increment d.id d).0 ≡ row (d.attempts_count + 1))
      × Selects table email
          (table.increment d.id d).1
          (record d { attempts_count = d.attempts_count + 1 })
counted_row email d selects = (
  ground (arith, same_refl d.id),
  (selects.0, λ now early. ground (arith, same_refl d.id, selects.1 now early)),
)

counts_rows : CountsRows table
counts_rows = record {
  increment_lem = λ email d r selects.
      let held : d ≡ r = select_self email d r 0 (selects.1 0 selects.0) in
      subst
        (λ (q : ChallengeRow).
          Selects table email d q
          → ((table.increment q.id d).0 ≡ row (q.attempts_count + 1))
            × Selects table email (table.increment q.id d).1
                (record q { attempts_count = q.attempts_count + 1 }))
        held (counted_row email d) selects;
}

abbrev sha : Text → Text
sha t = t

abbrev root : Text
root = text "root@manova.dev"

abbrev challenge : ChallengeRow
challenge = record {
  id = text "c1";
  email = root;
  otp_hash = text "s1:123456";
  salt = text "s1";
  attempts_count = 0;
  max_attempts = 3;
  verified = false;
  verified_at = none;
  created_at = 1000;
  expires_at = 2000;
}

abbrev at : ℕ → ℕ → ℕ
at now i = now + i

abbrev guess : (ℕ → ℕ) × Text
guess = (at 1500, text "000000")

named : is_empty (normalize root) ≡ false
unfolding normalize trim_space to_lower
named = refl

typed : is_empty (trim_space (text "123456")) ≡ false
unfolding trim_space
typed = refl

is_wrong : IsWrong (challenge_store table) sha (scan_challenge challenge) (text "000000")
unfolding matches hash_code trim_space same scan_challenge
is_wrong = (refl, refl)

selects_early :
    (now : ℕ) → now < 2000 → select_latest (normalize root) now challenge ≡ row challenge
unfolding normalize trim_space to_lower same
selects_early now early = ground arith

holds : HoldsRow table root challenge (scan_challenge challenge)
unfolding trim_space
holds = (challenge, refl, refl, refl, (omega arith, selects_early))

in_time :
    (at 1500 0 < (scan_challenge challenge).expires_at)
    × (at 1500 1 < (scan_challenge challenge).expires_at)
unfolding scan_challenge
in_time = (omega arith, omega arith)

in_time_later :
    (at 1600 0 < (scan_challenge challenge).expires_at)
    × (at 1600 1 < (scan_challenge challenge).expires_at)
unfolding scan_challenge
in_time_later = (omega arith, omega arith)

used_up : (scan_challenge challenge).max_attempts ≤ (scan_challenge challenge).attempts + 3
unfolding scan_challenge
used_up = omega arith

sqlite_challenge_locks_example :
    (verify_code (challenge_store table) sha (at 1600) root (text "123456") (
      guess_all
        (challenge_store table)
        sha
        root
        (guess ∷ guess ∷ guess ∷ [])
        (record { challenges = []; store = some challenge }))).0
    ≡ err max_attempts_exceeded
sqlite_challenge_locks_example =
    sqlite_challenge_locks table sha root counts_rows (guess ∷ guess ∷ guess ∷ []) (at 1600)
      (text "123456") (record { challenges = []; store = some challenge }) challenge
      (scan_challenge challenge) refl named typed holds
      ((in_time, is_wrong), ((in_time, is_wrong), ((in_time, is_wrong), tt))) in_time_later used_up
