-- ===== src/Clierr.antt =====
-- pkg/clierr/clierr.go: the errors of the commands, with their machine codes and exit codes. The
-- message and the hint are text for the operator and are left out.
use orbit_cli.Prelude.{ℕ, ◌≡◌, refl, Option, none, some}
use orbit_cli.Prelude.Words.{Text, text}
use orbit_cli.Prelude.{[]}

-- The constructors Failed, Unverified, Usage, Auth, Network and Tool.
pub data Kind : Type 0 where
  failed unverified usage auth network tool : Kind

-- the field Code
unfoldable pub machine_code : Kind → Text
machine_code failed = text "failed"
machine_code unverified = text "unverified"
machine_code usage = text "usage"
machine_code auth = text "auth"
machine_code network = text "network"
machine_code tool = text "tool"

-- the field Exit
unfoldable pub exit : Kind → ℕ
exit failed = 1
exit unverified = 2
exit usage = 3
exit auth = 4
exit network = 5
exit tool = 6

-- A Go error: one with no clierr error in its chain, a clierr error without a cause, or one that
-- wraps a cause.
pub data GoError (E : Type 0) : Type 0 where
  plain : E → GoError E
  fail : Kind → GoError E
  wrap : Kind → GoError E → GoError E

kind_exit : Option Kind → ℕ
unfolding exit
kind_exit none = 1
kind_exit (some k) = exit k

kind_code : Option Kind → Text
unfolding machine_code
kind_code none = text "failed"
kind_code (some k) = machine_code k

module _ {E : Type 0} where
  -- errors.As(err, &c): the first clierr error of the chain
  unfoldable pub as_error : GoError E → Option Kind
  as_error (plain e) = none
  as_error (fail k) = some k
  as_error (wrap k e) = some k

  -- ExitCode
  unfoldable pub exit_code : Option (GoError E) → ℕ
  unfolding kind_exit as_error
  exit_code none = 0
  exit_code (some e) = kind_exit (as_error e)

  -- Code
  unfoldable pub code : Option (GoError E) → Text
  unfolding kind_code as_error
  code none = []
  code (some e) = kind_code (as_error e)

  -- withCode of pkg/onboard/application: the error's own kind, or else the fallback's
  unfoldable pub with_code : GoError E → Kind → GoError E
  unfolding as_error
  with_code e fallback = elim (as_error e) [ some k ↦ wrap k e | none ↦ wrap fallback e ]

  -- withMessage of pkg/owner/application
  unfoldable pub with_message : GoError E → GoError E
  unfolding with_code
  with_message e = with_code e failed

  -- What withMessage returns has the exit code and the machine code of its cause, for any error.
  pub with_message_keeps :
      (e : GoError E)
      → (exit_code (some (with_message e)) ≡ exit_code (some e))
        × (code (some (with_message e)) ≡ code (some e))
  unfolding with_message exit_code code
  with_message_keeps (plain e) = (refl, refl)
  with_message_keeps (fail k) = (refl, refl)
  with_message_keeps (wrap k e) = (refl, refl)
