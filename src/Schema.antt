-- ===== src/Schema.antt =====
-- schemas/plan.py, schemas/plan_graph.py and plan/failure_policy.py: plans, step statuses, results,
-- trace entries and the failure policy. Step ids are natural numbers here, where the source has
-- Python integers. `Json` stands for the values that the program carries and never looks into.
use trip_graph_agent_runtime.Prelude.{
  ℕ, String, Bool, true, false, Option, none, some, List, [], ◌∷◌,
}

-- class StepStatus(StrEnum)
pub data StepStatus : Type 0 where
  pending running completed failed skipped : StepStatus

-- class PlanStep(BaseModel)
pub record PlanStep : Type 0 where
  pub id : ℕ
  pub task : String
  pub tool_hint : Option String
  pub dependency : Option (List ℕ)

-- class Plan(BaseModel)
pub record Plan : Type 0 where
  pub goal : String
  pub steps : List PlanStep

-- step.dependency or []
unfoldable pub deps_of : PlanStep → List ℕ
deps_of step = elim step.dependency [ none ↦ [] | some ds ↦ ds ]

-- ds or None
unfoldable pub or_none : List ℕ → Option (List ℕ)
or_none [] = none
or_none (d ∷ ds) = some (d ∷ ds)

-- if step.tool_hint, for an optional text
unfoldable pub truthy : Option String → Bool
truthy none = false
truthy (some String.[]) = false
truthy (some (String.◌∷◌ c cs)) = true

-- `text or default`
unfoldable pub text_or : Option String → String → String
text_or none default = default
text_or (some String.[]) default = default
text_or (some (String.◌∷◌ c cs)) default = String.◌∷◌ c cs

module _ (Json : Type 0) where
  -- class StepResult(BaseModel)
  pub record StepResult : Type 0 where
    pub step_id : ℕ
    pub task : String
    pub status : StepStatus
    pub tool_name : Option String
    pub tool_args : Option Json
    pub observation : Json
    pub error : Option String
    pub attempt : ℕ
    pub recovery_action : Option String

-- class ExecutionTraceEntry(BaseModel)
pub record ExecutionTraceEntry : Type 0 where
  pub step_id : ℕ
  pub task : String
  pub status : StepStatus
  pub tool_name : Option String
  pub success : Option Bool
  pub error : Option String
  pub attempt : ℕ
  pub recovery_action : Option String

-- class FailurePolicy(StrEnum)
pub data FailurePolicy : Type 0 where
  retry skip replan : FailurePolicy

-- class PlanFailureConfig(BaseModel)
pub record PlanFailureConfig : Type 0 where
  pub failure_policy : FailurePolicy
  pub step_max_retries : ℕ
  pub max_replan_attempts : ℕ

-- `status in (StepStatus.COMPLETED, StepStatus.SKIPPED)`
unfoldable pub is_finished : StepStatus → Bool
is_finished completed = true
is_finished skipped = true
is_finished _ = false

-- `status in (StepStatus.COMPLETED, StepStatus.FAILED, StepStatus.SKIPPED)`
unfoldable pub is_terminal : StepStatus → Bool
is_terminal completed = true
is_terminal failed = true
is_terminal skipped = true
is_terminal _ = false

-- `status == StepStatus.COMPLETED`
unfoldable pub is_completed : StepStatus → Bool
is_completed completed = true
is_completed _ = false

-- `status == StepStatus.PENDING`
unfoldable pub is_pending : StepStatus → Bool
is_pending pending = true
is_pending _ = false
