-- ===== src/Onboard/SessionFile.antt =====
-- pkg/onboard/infrastructure/sessionstore/manager.go: the session in a file that a rename replaces.
-- Which calls of the file system fail, the clock and the new ID are parameters of one invocation.
use orbit_cli.Prelude.{
  ℕ, ◌≡◌, Bool, false, not, ◌&&◌, Option, none, some, ◌==◌, if◌then◌else◌, arith,
}
use orbit_cli.Prelude.Words.{Text, text, is_empty}
use orbit_cli.Prelude.Result.{ok, err}
use orbit_cli.Clierr.{GoError, plain}
use orbit_cli.Onboard.Session.{
  Outcome, SessionState, SessionStore, SessionLaws, Failure, session_failed, new_session, pending,
}
use orbit_cli.Prelude.{◌++◌}

-- What the path holds: it cannot be read, it is no JSON of a session, or it is the JSON of one.
pub data Content : Type 0 where
  unreadable corrupt : Content
  stored : SessionState → Content

-- `open` and `write` are those of os.WriteFile, the rest those of the temporary file.
pub record Faults : Type 0 where
  pub mkdir : Bool
  pub create_temp : Bool
  pub open_file : Bool
  pub write_file : Bool
  pub chmod : Bool
  pub write : Bool
  pub sync : Bool
  pub close : Bool
  pub rename : Bool
  pub remove : Bool

abbrev pub SessionFile : Type 0
SessionFile = Option Content

abbrev failing : SessionFile → Outcome SessionState × SessionFile
failing f = (err (plain session_failed), f)

module _ (faults : Faults) (now : ℕ) (new_id : Text) where
  -- how Save stamps the session
  unfoldable pub stamped : SessionState → SessionState
  stamped s = record s {
    created_at = if s.created_at == 0 then now else s.created_at;
    updated_at = now;
  }

  -- os.WriteFile, where no temporary file can be made: it empties the file before it writes
  unfoldable pub write_in_place : SessionState → SessionFile → Outcome SessionState × SessionFile
  write_in_place s f =
      if faults.open_file
      then failing f
      else if faults.write_file
      then failing (some corrupt)
      else (ok s, some (stored s))

  -- the temporary file and its rename; the deferred removal leaves no other file
  unfoldable pub write_beside : SessionState → SessionFile → Outcome SessionState × SessionFile
  write_beside s f =
      if faults.chmod
      then failing f
      else if faults.write
      then failing f
      else if faults.sync
      then failing f
      else if faults.close
      then failing f
      else if faults.rename
      then failing f
      else (ok s, some (stored s))

  -- (*Manager).Save, on a session that is not nil
  unfoldable pub save : SessionState → SessionFile → Outcome SessionState × SessionFile
  unfolding stamped write_in_place write_beside
  save s f =
      let s' = stamped s in
      if faults.mkdir
      then failing f
      else if faults.create_temp
      then write_in_place s' f
      else write_beside s' f

  -- (*Manager).Load
  unfoldable pub load : SessionFile → Outcome (Option SessionState)
  load none = ok none
  load (some unreadable) = err (plain session_failed)
  load (some corrupt) = err (plain session_failed)
  load (some (stored s)) = ok (some s)

  is_pending : Outcome (Option SessionState) → Bool
  is_pending (err e) = false
  is_pending (ok none) = false
  is_pending (ok (some s)) = pending s

  -- (*Manager).HasPending
  unfoldable pub has_pending : SessionFile → Bool
  unfolding load is_pending
  has_pending f = is_pending (load f)

  -- (*Manager).Clear: a file that is missing is no error
  unfoldable pub clear : SessionFile → Outcome (Unit {0}) × SessionFile
  clear none = (ok tt, none)
  clear (some c) = if faults.remove then (err (plain session_failed), some c) else (ok tt, none)

  -- the type Manager
  abbrev pub manager : SessionStore SessionFile
  manager = record {
    has_pending = has_pending;
    load = load;
    save = save;
    stamp = stamped;
    clear = clear;
    create = λ email name f. (new_session new_id now email name, f);
  }

  saves :
      (s s' : SessionState) (f : SessionFile)
      → (save s f).0 ≡ ok s'
      → (load (save s f).1 ≡ ok (some s')) × (s'.current_stage ≡ s.current_stage)
  unfolding save load write_in_place write_beside stamped
  saves s s' f h = ground arith

  keeps :
      (faults.create_temp && faults.write_file) ≡ false
      → (s : SessionState) (f : SessionFile) (e : GoError Failure) → (save s f).0 ≡ err e
      → load (save s f).1 ≡ load f
  unfolding save write_in_place write_beside
  keeps safe s f e h = ground arith

  -- Unless both the temporary file and a write in place fail, the manager keeps the laws of the flow.
  pub manager_laws : (faults.create_temp && faults.write_file) ≡ false → SessionLaws manager
  manager_laws safe = record { save_loads = saves; save_fails = keeps safe }

-- DefaultPath of New: the flag, $ORBIT_SESSION_FILE, or the home directory, empty where there is none
unfoldable pub session_path : Text → Text → Text → Outcome Text
session_path custom from_env home =
    if not (is_empty custom)
    then ok custom
    else if not (is_empty from_env)
    then ok from_env
    else if is_empty home
    then err (plain session_failed)
    else ok (home ++ text "/.config/orbit/session.json")
