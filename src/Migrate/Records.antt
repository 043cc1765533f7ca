-- ===== src/Migrate/Records.antt =====
-- What Apply records in the store.
use mathlib.Core.Path.{subst}
use orbit_cli.Prelude.{
  inl, inr, ℕ, suc, ◌≡◌, Bool, true, false, List, [], ◌∷◌, ◌++◌, Option, some, if◌then◌else◌, arith,
  refl, ap, ◌∙◌, sym, append_assoc, append-nil,
}
use orbit_cli.Prelude.Words.{Text, is_empty}
use orbit_cli.Prelude.Result.{ok, err}
use orbit_cli.Migrate.{
  persist_failed, with_record, Migration, MigrationState, MigrationResult, StateStore, World,
  Outcome,
}
use orbit_cli.Migrate.{with_record}
use orbit_cli.Migrate.{load_state}
use orbit_cli.Migrate.{apply_loop}
use orbit_cli.Migrate.{Error}
use orbit_cli.Migrate.{AppliedMigrationRecord}
use orbit_cli.Migrate.{save_state}
use orbit_cli.Migrate.{ids}
use orbit_cli.Migrate.{after_result}
use orbit_cli.Migrate.{succeeded}
use orbit_cli.Migrate.{normalized}
use orbit_cli.Prelude.{Bool-cases}
use orbit_cli.Migrate.{run_step}
use orbit_cli.Migrate.{marked}
use orbit_cli.Prelude.Result.{Result-cases}
use orbit_cli.Prelude.{◌||◌}
use orbit_cli.Migrate.{none}
use orbit_cli.Migrate.{apply}

-- the IDs of the migrations that ran with success
abbrev pub successes : List MigrationResult → List Text
successes [] = []
successes (r ∷ rs) = let rest = successes rs in if r.success then r.id ∷ rest else rest

-- the outcome is not that a state could not be saved
abbrev pub is_saved : Option Error → Bool
is_saved (some (persist_failed id e)) = false
is_saved _ = true

pub ids-append : (xs ys : List AppliedMigrationRecord) → ids (xs ++ ys) ≡ ids xs ++ ids ys
ids-append [] ys = refl
ids-append (x ∷ xs) ys = ap (λ r. x.id ∷ r) (ids-append xs ys)

pub marked-append :
    (id : Text) (xs ys : List Text) → marked id (xs ++ ys) ≡ (marked id xs || marked id ys)
marked-append id [] ys = refl
marked-append id (x ∷ xs) ys = ground (arith, marked-append id xs ys)

pub load_state-version :
    {S : Type 0} (methods : StateStore S) (s : S) (st : MigrationState)
    → load_state methods s ≡ ok st
    → is_empty st.version ≡ false
unfolding load_state normalized
load_state-version methods s st loaded = ground arith

pub apply_loaded :
    {W S : Type 0} (methods : StateStore S) (clock : ℕ → ℕ) (migrations : List (Migration W))
    (w : World W S) (st : MigrationState)
    → load_state methods w.store ≡ ok st
    → apply methods clock migrations w ≡ apply_loop methods clock 0 migrations (ids st.applied) st w
unfolding apply
apply_loaded methods clock migrations w st loaded = ground arith

pub run_step_error :
    {W S : Type 0} (methods : StateStore S) (now : ℕ) (m : Migration W) (st : MigrationState)
    (w : World W S) (o : Outcome W S)
    → run_step methods now m st w ≡ err o
    → o.error ≡ none
    → ⊥
unfolding run_step
run_step_error methods now m st w o stopped e = ground arith

module _ {S : Type 0} (methods : StateStore S)
    (load-save : (st : MigrationState) (s s' : S)
      → methods.save st s ≡ ok s'
      → methods.load s' ≡ ok (some st)) where
  load_state-save_state :
      (st : MigrationState) (s s' : S)
      → is_empty st.version ≡ false
      → save_state methods st s ≡ ok s'
      → load_state methods s' ≡ ok st
  unfolding load_state save_state normalized
  load_state-save_state st s s' named saved = ground (arith, load-save st s s')

module _ {W S : Type 0} (methods : StateStore S) where
  -- what is stored when the outcome `o` is left from the state `st`
  abbrev pub Recorded : MigrationState → Outcome W S → Type 0
  Recorded st o =
      is_saved o.error ≡ true
      → (st' : MigrationState) × (load_state methods o.world.store ≡ ok st')
        × (ids st'.applied ≡ ids st.applied ++ successes o.results)

  module _ (clock : ℕ → ℕ) (i : ℕ) (m : Migration W) (migrations : List (Migration W))
      (applied : List Text) (st : MigrationState) (w : World W S) where
    pub loop_skip :
        marked m.id applied ≡ true
        → apply_loop methods clock i (m ∷ migrations) applied st w
          ≡ apply_loop methods clock i migrations applied st w
    unfolding apply_loop
    loop_skip done = ground arith

    pub loop_stop :
        (o : Outcome W S)
        → marked m.id applied ≡ false
        → run_step methods (clock i) m st w ≡ err o
        → apply_loop methods clock i (m ∷ migrations) applied st w ≡ o
    unfolding apply_loop
    loop_stop o new stopped = ground arith

    pub loop_go :
        (w' : World W S)
        → marked m.id applied ≡ false
        → run_step methods (clock i) m st w ≡ ok w'
        → apply_loop methods clock i (m ∷ migrations) applied st w
          ≡ after_result (succeeded m) (
              apply_loop methods clock
                (suc i)
                migrations
                (m.id ∷ applied)
                (with_record (clock i) m st)
                w')
    unfolding apply_loop
    loop_go w' new went = ground arith

module _ {W S : Type 0} (methods : StateStore S)
    (load-save : (st : MigrationState) (s s' : S)
      → methods.save st s ≡ ok s'
      → methods.load s' ≡ ok (some st)) where
  Recorded-after_result :
      (now : ℕ) (m : Migration W) (st : MigrationState) (o : Outcome W S)
      → Recorded methods (with_record now m st) o
      → Recorded methods st (after_result (succeeded m) o)
  Recorded-after_result now m st o h saved =
      let (st', loaded, e) = h saved in
      (
        st',
        loaded,
        e
            ∙ (ap (λ r. r ++ successes o.results) (ids-append st.applied _)
                ∙ append_assoc (ids st.applied) (m.id ∷ []) (successes o.results)),
      )

  run_step_err :
      (now : ℕ) (m : Migration W) (st : MigrationState) (w : World W S) (o : Outcome W S)
      → load_state methods w.store ≡ ok st
      → run_step methods now m st w ≡ err o
      → Recorded methods st o
  unfolding run_step
  run_step_err now m st w o loaded stopped saved = (
    st,
    ground (arith, loaded, stopped),
    ground (arith, loaded, stopped, append-nil (ids st.applied)),
  )

  run_step_ok :
      (now : ℕ) (m : Migration W) (st : MigrationState) (w w' : World W S)
      → is_empty st.version ≡ false
      → run_step methods now m st w ≡ ok w'
      → load_state methods w'.store ≡ ok (with_record now m st)
  unfolding run_step
  run_step_ok now m st w w' named went =
      ground
        (arith, load_state-save_state methods load-save (with_record now m st) w.store w'.store)

  loop-Recorded :
      (clock : ℕ → ℕ) (i : ℕ) (migrations : List (Migration W)) (applied : List Text)
      (st : MigrationState) (w : World W S)
      → is_empty st.version ≡ false
      → load_state methods w.store ≡ ok st
      → Recorded methods st (apply_loop methods clock i migrations applied st w)
  unfolding apply_loop
  loop-Recorded clock i [] applied st w named loaded =
      λ saved. (st, loaded, sym (append-nil (ids st.applied)))
  loop-Recorded clock i (m ∷ migrations) applied st w named loaded =
      elim (Bool-cases (marked m.id applied)) [
        | inl done ↦
            rw (loop_skip methods clock i m migrations applied st w done)
              (loop-Recorded clock i migrations applied st w named loaded)
        | inr new ↦ elim (Result-cases (run_step methods (clock i) m st w)) [
          | inl (o, stopped) ↦
              rw (loop_stop methods clock i m migrations applied st w o new stopped)
                (run_step_err (clock i) m st w o loaded stopped)
          | inr (w', went) ↦ rw (loop_go methods clock i m migrations applied st w w' new went) (
              Recorded-after_result (clock i) m st
                (apply_loop methods clock (suc i) migrations (m.id ∷ applied)
                  (with_record (clock i) m st) w')
                (loop-Recorded clock (suc i) migrations (m.id ∷ applied)
                  (with_record (clock i) m st) w' named
                  (run_step_ok (clock i) m st w w' named went)))
        ]
      ]

  pub apply_recorded :
      (clock : ℕ → ℕ) (migrations : List (Migration W)) (w : World W S) (st : MigrationState)
      → load_state methods w.store ≡ ok st
      → is_saved (apply methods clock migrations w).error ≡ true
      → (st' : MigrationState) × (load_state methods (apply methods clock migrations w).world.store
          ≡ ok st')
        × (ids st'.applied ≡ ids st.applied ++ successes (apply methods clock migrations w).results)
  apply_recorded clock migrations w st loaded saved =
      subst (λ o. Recorded methods st o) (sym (apply_loaded methods clock migrations w st loaded))
        (loop-Recorded clock 0 migrations (ids st.applied) st w
          (load_state-version methods w.store st loaded) loaded)
        saved
