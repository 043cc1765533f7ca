-- ===== src/Onboard/Stage.antt =====
-- pkg/onboard/domain/stage.go: the checkpointed stages and their order.
use orbit_cli.Prelude.{ℕ, Bool, true, false, List, [], ◌∷◌, leb}
use orbit_cli.Prelude.Words.{Text}

-- A stage is a string: `other` is one that the program has no name for. StageComplete and
-- StageCompleted have the same value.
pub data Stage : Type 0 where
  init welcome doctor doctor_passed identity keypair_ready token_claimed : Stage
  claim_submitted network_configured workspace repos_cloned environment : Stage
  environment_ready mcp_configured stack stack_ready dev_stack_ready completed : Stage
  other : Text → Stage

-- stageOrder: a stage that is not in the map has the rank 0
unfoldable pub stage_order : Stage → ℕ
stage_order init = 0
stage_order doctor_passed = 1
stage_order keypair_ready = 2
stage_order token_claimed = 3
stage_order network_configured = 4
stage_order repos_cloned = 5
stage_order mcp_configured = 6
stage_order dev_stack_ready = 7
stage_order completed = 8
stage_order welcome = 0
stage_order doctor = 0
stage_order identity = 0
stage_order claim_submitted = 0
stage_order workspace = 0
stage_order environment = 0
stage_order environment_ready = 0
stage_order stack = 0
stage_order stack_ready = 0
stage_order (other t) = 0

-- IsStageCompleted
unfoldable pub is_stage_completed : Stage → Stage → Bool
is_stage_completed current target = leb (stage_order target) (stage_order current)

-- the stages of Steps, in the order in which the flow runs them
abbrev pub steps : List Stage
steps =
    doctor_passed ∷ keypair_ready ∷ token_claimed ∷ network_configured ∷ repos_cloned
    ∷ mcp_configured ∷ dev_stack_ready ∷ []

-- `stage == StageCompleted`
unfoldable pub is_completed : Stage → Bool
is_completed completed = true
is_completed init = false
is_completed welcome = false
is_completed doctor = false
is_completed doctor_passed = false
is_completed identity = false
is_completed keypair_ready = false
is_completed token_claimed = false
is_completed claim_submitted = false
is_completed network_configured = false
is_completed workspace = false
is_completed repos_cloned = false
is_completed environment = false
is_completed environment_ready = false
is_completed mcp_configured = false
is_completed stack = false
is_completed stack_ready = false
is_completed dev_stack_ready = false
is_completed (other t) = false
