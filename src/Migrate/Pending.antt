-- ===== src/Migrate/Pending.antt =====
-- What is pending after Apply, and a second Apply.
use mathlib.Core.Path.{subst}
use orbit_cli.Prelude.{arith, ◌≡◌, ◌∷◌, ◌++◌, [], List, ◌∙◌, refl, inl, inr, true}
use orbit_cli.Migrate.{Migration, MigrationState, StateStore}
use orbit_cli.Prelude.Result.{Result-cases}
use orbit_cli.Prelude.Words.{same_refl}
use orbit_cli.Migrate.Records.{is_saved, loop_skip, successes}
use orbit_cli.Migrate.{ℕ}
use orbit_cli.Migrate.{not_applied}
use orbit_cli.Migrate.{apply_loop}
use orbit_cli.Migrate.{List}
use orbit_cli.Migrate.{Text}
use orbit_cli.Migrate.{Outcome}
use orbit_cli.Prelude.{All}
use orbit_cli.Migrate.{with_record}
use orbit_cli.Migrate.{marked}
use orbit_cli.Migrate.{World}
use orbit_cli.Migrate.{ids}
use orbit_cli.Prelude.{Bool-cases}
use orbit_cli.Prelude.Result.{Result-cases}
use orbit_cli.Prelude.Words.{same_refl}
use orbit_cli.Migrate.Records.{is_saved, marked-append}
use orbit_cli.Prelude.Result.{Result-cases}
use orbit_cli.Prelude.Words.{same_refl}
use orbit_cli.Migrate.Records.{is_saved, ids-append}
use orbit_cli.Migrate.{ok}
use orbit_cli.Migrate.{none}
use orbit_cli.Migrate.{after_result}
use orbit_cli.Migrate.{succeeded}
use orbit_cli.Migrate.{some}
use orbit_cli.Prelude.{sym}
use orbit_cli.Migrate.{pending}
use orbit_cli.Migrate.{load_state}
use orbit_cli.Migrate.{apply}
use orbit_cli.Prelude.Result.{Result-cases}
use orbit_cli.Prelude.Words.{same_refl}
use orbit_cli.Migrate.Records.{is_saved, apply_recorded}
use orbit_cli.Prelude.Result.{Result-cases}
use orbit_cli.Prelude.Words.{same_refl}
use orbit_cli.Migrate.Records.{is_saved, apply_loaded}
use orbit_cli.Prelude.{ap}
use orbit_cli.Prelude.{append_assoc}
use orbit_cli.Migrate.{run_step}
use orbit_cli.Migrate.Records.{loop_stop}
use orbit_cli.Migrate.Records.{run_step_error}
use orbit_cli.Migrate.Records.{loop_go}
use orbit_cli.Migrate.{suc}

marked_record :
    {W : Type 0} (now : ℕ) (m : Migration W) (st : MigrationState) (applied : List Text)
    → ((id : Text) → marked id applied ≡ marked id (ids st.applied))
    → (id : Text) → marked id (m.id ∷ applied) ≡ marked id (ids (with_record now m st).applied)
marked_record now m st applied agree id = ground (
  arith,
  agree id,
  ids-append st.applied (record { id = m.id; applied_at = now; description = m.description } ∷ []),
  marked-append id (ids st.applied) (m.id ∷ []),
)

-- each migration is marked when the loop ends without an error
module _ {W S : Type 0} where
  Covered : List (Migration W) → MigrationState → Outcome W S → Type 0
  Covered migrations st o =
      o.error ≡ none
      → All (λ m. marked m.id (ids st.applied ++ successes o.results) ≡ true) migrations

  Covered-nil : (st : MigrationState) (o : Outcome W S) → Covered [] st o
  unfolding Covered
  Covered-nil st o e = tt

  Covered-skip :
      (m : Migration W) (migrations : List (Migration W)) (st : MigrationState) (o : Outcome W S)
      → marked m.id (ids st.applied) ≡ true
      → Covered migrations st o
      → Covered (m ∷ migrations) st o
  unfolding Covered
  Covered-skip m migrations st o done h e =
      (ground (arith, marked-append m.id (ids st.applied) (successes o.results)), h e)

  Covered-go :
      (now : ℕ) (m : Migration W) (migrations : List (Migration W)) (st : MigrationState)
      (o : Outcome W S)
      → Covered migrations (with_record now m st) o
      → Covered (m ∷ migrations) st (after_result (succeeded m) o)
  unfolding Covered
  Covered-go now m migrations st o h e = (
    ground
        (arith, marked-append m.id (ids st.applied) (m.id ∷ successes o.results), same_refl m.id),
    subst (λ marks. All (λ m'. marked m'.id marks ≡ true) migrations)
        (ap (λ r. r ++ successes o.results) (ids-append st.applied _)
          ∙ append_assoc (ids st.applied) (m.id ∷ []) (successes o.results))
        (h e),
  )

  Covered-stop :
      (migrations : List (Migration W)) (st : MigrationState) (o : Outcome W S)
      → (o.error ≡ none → ⊥)
      → Covered migrations st o
  unfolding Covered
  Covered-stop migrations st o h e = absurd (h e)

  loop-Covered :
      (methods : StateStore S) (clock : ℕ → ℕ) (i : ℕ) (migrations : List (Migration W))
      (applied : List Text) (st : MigrationState) (w : World W S)
      → ((id : Text) → marked id applied ≡ marked id (ids st.applied))
      → Covered migrations st (apply_loop methods clock i migrations applied st w)
  loop-Covered methods clock i [] applied st w agree =
      Covered-nil st (apply_loop methods clock i [] applied st w)
  loop-Covered methods clock i (m ∷ migrations) applied st w agree =
      elim (Bool-cases (marked m.id applied)) [
        | inl done ↦
            subst (λ o. Covered (m ∷ migrations) st o)
              (sym (loop_skip methods clock i m migrations applied st w done))
              (Covered-skip m migrations st (apply_loop methods clock i migrations applied st w)
                (ground (arith, agree m.id, done))
                (loop-Covered methods clock i migrations applied st w agree))
        | inr new ↦ elim (Result-cases (run_step methods (clock i) m st w)) [
          | inl (o, stopped) ↦
              subst (λ o. Covered (m ∷ migrations) st o)
                (sym (loop_stop methods clock i m migrations applied st w o new stopped))
                (Covered-stop (m ∷ migrations) st o
                  (run_step_error methods (clock i) m st w o stopped))
          | inr (w', went) ↦
              let st' : MigrationState = with_record (clock i) m st in
              subst (λ o. Covered (m ∷ migrations) st o)
                (sym (loop_go methods clock i m migrations applied st w w' new went))
                (Covered-go (clock i) m migrations st
                  (apply_loop methods clock (suc i) migrations (m.id ∷ applied) st' w')
                  (loop-Covered methods clock (suc i) migrations (m.id ∷ applied) st' w'
                    (marked_record (clock i) m st applied agree)))
        ]
      ]

not_applied-Covered :
    {W S : Type 0} (methods : StateStore S) (marks : List Text) (migrations : List (Migration W))
    → All (λ m. marked m.id marks ≡ true) migrations
    → not_applied methods marks migrations ≡ []
unfolding not_applied
not_applied-Covered methods marks [] h = refl
not_applied-Covered methods marks (m ∷ migrations) h =
    ground (arith, not_applied-Covered methods marks migrations h.1, h.0)

loop_nothing :
    {W S : Type 0} (methods : StateStore S) (clock : ℕ → ℕ) (i : ℕ)
    (migrations : List (Migration W)) (applied : List Text) (st : MigrationState) (w : World W S)
    → All (λ m. marked m.id applied ≡ true) migrations
    → apply_loop methods clock i migrations applied st w
      ≡ record { results = []; error = none; world = w }
unfolding apply_loop
loop_nothing methods clock i [] applied st w h = refl
loop_nothing methods clock i (m ∷ migrations) applied st w h =
    loop_skip methods clock i m migrations applied st w h.0
    ∙ loop_nothing methods clock i migrations applied st w h.1

pending_loaded :
    {W S : Type 0} (methods : StateStore S) (migrations : List (Migration W)) (s : S)
    (st : MigrationState)
    → load_state methods s ≡ ok st
    → pending methods migrations s ≡ ok (not_applied methods (ids st.applied) migrations)
unfolding pending
pending_loaded methods migrations s st loaded = ground arith

module _ {W S : Type 0} (methods : StateStore S)
    (load-save : (st : MigrationState) (s s' : S)
      → methods.save st s ≡ ok s'
      → methods.load s' ≡ ok (some st)) where
  apply-All :
      (clock : ℕ → ℕ) (migrations : List (Migration W)) (w : World W S) (st : MigrationState)
      → load_state methods w.store ≡ ok st
      → (apply methods clock migrations w).error ≡ none
      → (st' : MigrationState) × (load_state methods (apply methods clock migrations w).world.store
          ≡ ok st')
        × All (λ m. marked m.id (ids st'.applied) ≡ true) migrations
  unfolding Covered
  apply-All clock migrations w st loaded done =
      let (st', loaded', e) =
        apply_recorded methods load-save clock migrations w st loaded (ap is_saved done) in
      (
        st',
        loaded',
        subst (λ marks. All (λ m. marked m.id marks ≡ true) migrations) (sym e)
            (subst (λ o. Covered migrations st o)
              (sym (apply_loaded methods clock migrations w st loaded))
              (loop-Covered methods clock 0 migrations (ids st.applied) st w (λ id. refl)) done),
      )

  -- Where the store reads back what it saved, and its state can be read, an Apply that returns no
  -- error leaves nothing pending: Pending answers the empty list. A second Apply then returns no result and no error, and
  -- changes nothing.
  pub apply-pending :
      (clock clock' : ℕ → ℕ) (migrations : List (Migration W)) (w : World W S) (st : MigrationState)
      → load_state methods w.store ≡ ok st
      → (apply methods clock migrations w).error ≡ none
      → (pending methods migrations (apply methods clock migrations w).world.store ≡ ok [])
        × (apply methods clock' migrations (apply methods clock migrations w).world ≡ record {
          results = [];
          error = none;
          world = (apply methods clock migrations w).world;
        })
  apply-pending clock clock' migrations w st loaded done =
      let (st', loaded', all) = apply-All clock migrations w st loaded done in
      (
        pending_loaded methods migrations (apply methods clock migrations w).world.store st' loaded'
            ∙ ap ok (not_applied-Covered methods (ids st'.applied) migrations all),
        apply_loaded methods clock' migrations (apply methods clock migrations w).world st' loaded'
            ∙ loop_nothing methods clock' 0 migrations (ids st'.applied) st'
                (apply methods clock migrations w).world all,
      )
