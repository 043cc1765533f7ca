-- ===== src/Invites/Listing.antt =====
-- pkg/invite/application/service.go: List and Revoke.
use orbit_cli.Prelude.{ℕ, ◌+◌, suc, Bool, true, false, ◌||◌, List, [], ◌∷◌, if◌then◌else◌}
use orbit_cli.Prelude.Words.{Text, is_empty, trim_space}
use orbit_cli.Prelude.Result.{Result, ok, err}
use orbit_cli.Clierr.{GoError, plain, fail, wrap, failed, usage}
use orbit_cli.Invites.{InviteRecord, Error, invite_not_found}
use orbit_cli.Invites.Secret.{Status, active, revoked, expired, status_at}
use orbit_cli.Invites.Ports.{Cause, by_store, Store}

-- ListResult, without the total
pub record Listing : Type 0 where
  pub displayed : List InviteRecord
  pub active_count : ℕ
  pub revoked_count : ℕ
  pub expired_count : ℕ

counted : Status → Listing → Listing
counted active l = record l { active_count = suc l.active_count }
counted revoked l = record l { revoked_count = suc l.revoked_count }
counted expired l = record l { expired_count = suc l.expired_count }

is_active : Status → Bool
is_active active = true
is_active revoked = false
is_active expired = false

-- the loop of List, with two readings of the clock for each record
unfoldable pub tally : Bool → (ℕ → ℕ) → List InviteRecord → Listing
unfolding counted is_active
tally all clock [] = record {
  displayed = [];
  active_count = 0;
  revoked_count = 0;
  expired_count = 0;
}
tally all clock (r ∷ records) =
    let rest = tally all (λ i. clock (i + 2)) records in
    counted (status_at (clock 0) r) (
      if all || is_active (status_at (clock 1) r)
      then record rest { displayed = r ∷ rest.displayed }
      else rest)

-- what an error of the store comes to in Revoke
revoke_failed : Error → GoError Cause
revoke_failed invite_not_found = fail failed
revoke_failed e = wrap failed (plain (by_store e))

revoked_one :
    {F : Type 0}
    → F
    → Result Error (InviteRecord × F)
    → Result (GoError Cause) (List InviteRecord) × F
unfolding revoke_failed
revoked_one f (err e) = (err (revoke_failed e), f)
revoked_one f (ok (r, f')) = (ok (r ∷ []), f')

revoked_all :
    {F : Type 0}
    → F
    → Result Error (List InviteRecord × F)
    → Result (GoError Cause) (List InviteRecord) × F
revoked_all f (err e) = (err (wrap failed (plain (by_store e))), f)
revoked_all f (ok (records, f')) = (ok records, f')

module _ {F : Type 0} (store : Store F) where
  -- List: all the records, and the listing
  unfoldable pub list : Bool → (ℕ → ℕ) → F → Result (GoError Cause) (List InviteRecord × Listing)
  unfolding tally
  list all clock f = elim (store.list_invites f) [
    | err e ↦ err (wrap failed (plain (by_store e)))
    | ok records ↦ ok (records, tally all clock records)
  ]

  -- Revoke; the answer has no record where none was active
  unfoldable pub revoke : ℕ → Text → Bool → F → Result (GoError Cause) (List InviteRecord) × F
  unfolding revoked_one revoked_all
  revoke now argument all f =
      if all
      then (if is_empty (trim_space argument)
          then revoked_all f (store.revoke_all_invites now f)
          else (err (fail usage), f))
      else if is_empty (trim_space argument)
      then (err (fail usage), f)
      else revoked_one f (store.revoke_invite (trim_space argument) now f)
