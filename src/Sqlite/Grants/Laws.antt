-- ===== src/Sqlite/Grants/Laws.antt =====
-- The grant manager on the SQLite store.
use orbit_cli.Owner.GrantRecord.{GrantManager, GrantRecord, is_expired}
use orbit_cli.Prelude.{ℕ, ◌≡◌, ◌≢◌, false, List, [], Option, none, some, arith, All, refl, inl, inr}
use orbit_cli.Prelude.Words.{Text, is_empty, trim_space}
use orbit_cli.Prelude.Result.{ok, err}
use orbit_cli.Owner.Code.{normalize}
use orbit_cli.Owner.Code.Laws.{normalize_idem}
use orbit_cli.Owner.Errors.{invalid_grant_code}
use orbit_cli.Owner.Grant.{verify_grant}
use orbit_cli.Owner.Grant.Lockout.{IsWrong, guess_all}
use orbit_cli.Owner.Grant.Persistent.{answers, guess_all_uncounted}
use orbit_cli.Sqlite.Grants.{
  GrantRow, GrantDb, Answer, row, no_rows, failed, scan_grant, get_grant, mark_used, grant_store,
}
use orbit_cli.Prelude.{Option-cases}
use orbit_cli.Prelude.{All-mono}
use orbit_cli.Sqlite.Grants.{hash_condition}
use orbit_cli.Prelude.{◌⊎◌}
use orbit_cli.Owner.Grant.Persistent.{verify_grant_stored}
use orbit_cli.Prelude.{ap}
use orbit_cli.Prelude.{sym}
use orbit_cli.Prelude.{◌∙◌}

Answer-cases :
    {A : Type 0} (a : Answer A) → ((r : A) × (a ≡ row r)) ⊎ ((a ≡ no_rows) ⊎ (a ≡ failed))
Answer-cases (row r) = inl (r, refl)
Answer-cases no_rows = inr (inl refl)
Answer-cases failed = inr (inr refl)

module _ {Db : Type 0} (db : GrantDb Db) (sha256_hex : Text → Text) where
  -- the database has the row `r` for the email at the time of the verification, and the row has
  -- not expired when the manager looks at it
  abbrev pub Selects : Text → Db → GrantRow → (ℕ → ℕ) → Type 0
  Selects email d r clock =
      (db.select_one (normalize email) none (clock 0) d ≡ row r)
      × (is_expired (clock 1) (scan_grant r) ≡ false)

  -- On the SQLite store no number of wrong codes locks a grant: as long as the database selects its
  -- row for the email, which is not empty, and it is unused and has not expired, every code that is
  -- not empty and has another hash is answered with ErrInvalidGrantCode, never with
  -- ErrGrantMaxAttempts, and manager and database stay as they are.
  pub sqlite_never_locks :
      (email : Text) (guesses : List ((ℕ → ℕ) × Text)) (m : GrantManager Db) (d : Db) (r : GrantRow)
      → m.store ≡ some d
      → is_empty (normalize email) ≡ false
      → r.used ≡ false
      → All
          (λ guess.
            Selects email d r guess.0 × IsWrong (grant_store db) sha256_hex (scan_grant r) guess.1)
          guesses
      → (guess_all (grant_store db) sha256_hex email guesses m ≡ m)
        × All
            (λ answer. answer ≡ err invalid_grant_code)
            (answers (grant_store db) sha256_hex email guesses m)
  unfolding scan_grant get_grant
  sqlite_never_locks email guesses m d r h e unused all =
      guess_all_uncounted (grant_store db) sha256_hex email guesses m d (scan_grant r) h e unused
        (omega arith)
        (All-mono guesses (λ guess g. ((ground (arith, normalize_idem email, g.0.0), g.0.1), g.1))
          all)

  -- What the code relies on in UPDATE and SELECT: a row that was marked used is not selected.
  pub record MarksRows : Type 0 where
    pub not_selected :
        (now n : ℕ) (id : Text) (d d' : Db)
        → db.update_used now id d ≡ some (n, d')
        → n ≢ 0
        → (email : Text) (hash : Option Text) (later : ℕ) (r : GrantRow)
        → db.select_one email hash later d' ≡ row r
        → r.id ≢ id

  get_grant_row :
      (now : ℕ) (email hash : Text) (d : Db) {g : GrantRecord}
      → (get_grant db now email hash d).0 ≡ ok (some g)
      → (h : Option Text) × (r : GrantRow) × (db.select_one (normalize email) h now d ≡ row r)
        × (g ≡ scan_grant r)
  unfolding get_grant
  get_grant_row now email hash d v =
      elim (Answer-cases (db.select_one (normalize email) (hash_condition db hash) now d)) [
        | inl (r, e) ↦ (hash_condition db hash, r, e, ground arith)
        | inr e ↦ absurd (ground arith)
      ]

  mark_used_lem :
      (now : ℕ) (id : Text) (d : Db)
      → (mark_used db now id d).0 ≡ ok tt
      → (n : ℕ) × (n ≢ 0)
        × (db.update_used now (trim_space id) d ≡ some (n, (mark_used db now id d).1))
  unfolding mark_used
  mark_used_lem now id d v = elim (Option-cases (db.update_used now (trim_space id) d)) [
    | inl gone ↦ absurd (ground arith)
    | inr ((n, d'), done) ↦ (n, λ z. ground arith, ground arith)
  ]

  -- With a database that does not select the rows that it has marked, a grant is redeemed once:
  -- what a later verification returns, for any email, is a grant with another ID.
  pub sqlite_redeems_once :
      (marks : MarksRows) (clock clock' : ℕ → ℕ) (email email' code code' : Text)
      (m : GrantManager Db) (d : Db) {rec rec' : GrantRecord}
      → m.store ≡ some d
      → (verify_grant (grant_store db) sha256_hex clock email code m).0 ≡ ok rec
      → (verify_grant
          (grant_store db)
          sha256_hex
          clock'
          email'
          code'
          (verify_grant (grant_store db) sha256_hex clock email code m).1).0
        ≡ ok rec'
      → rec'.id ≢ trim_space rec.id
  unfolding scan_grant
  sqlite_redeems_once marks clock clock' email email' code code' m d h v w =
      let (g, found, unused, open_, right, made, marked, left) =
        verify_grant_stored (grant_store db) sha256_hex clock email code m d h v in
      let (n, some_row, updated) = mark_used_lem (clock 2) g.id _ marked in
      let (g', found', unused', open', right', made', marked', left') =
        verify_grant_stored (grant_store db) sha256_hex clock' email' code' _ _ left w in
      let (hash, r, selected, scanned) = get_grant_row (clock' 0) (normalize email') [] _ found' in
      λ same_id.
        marks.not_selected (clock 2) n (trim_space g.id) _ _ updated some_row _ hash (clock' 0) r
          selected
          (ap (λ (x : GrantRecord). x.id) (sym scanned)
            ∙ ap (λ (x : GrantRecord). x.id) (sym made')
            ∙ same_id
            ∙ ap (λ (x : GrantRecord). trim_space x.id) made)
