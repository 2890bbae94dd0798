-- ===== src/Errors.antt =====
-- The exceptions of the planner's code as values (core/exceptions.py, KeyError), the messages of
-- the validator as data, and the result type of code that may raise.
use trip_graph_agent_runtime.Prelude.{ℕ, ◌≡◌, refl, String, Option, List}

-- One constructor for each message that plan/validator.py writes, with the values it prints.
pub data PlanError : Type 0 where
  goal_empty no_steps has_cycle : PlanError
  task_empty : ℕ → PlanError
  ids_not_continuous : (expected got : List ℕ) → PlanError
  duplicate_id : ℕ → PlanError
  unknown_dependency : (step dep : ℕ) → PlanError
  dependency_not_prior : (step dep : ℕ) → PlanError
  hint_not_registered : ℕ → String → List String → PlanError

-- Why plan/executor.py raises AgentLoopError.
pub data LoopError : Type 0 where
  deadlock : List ℕ → LoopError
  step_failed : ℕ → Option String → LoopError
  replan_exceeded : ℕ → LoopError
  planner_missing : LoopError
  attempts_exhausted : ℕ → LoopError

-- `service_error` stands for what a planner, a summarizer or a node of a graph raises. `missing_key`
-- is the KeyError of a text key, `merge_conflict` the StateMergeConflictError with its fields,
-- `blank_tool` the ValidationError of an LLMToolCall with such a name.
pub data Exception : Type 0 where
  key_error : ℕ → Exception
  agent_loop_error : LoopError → Exception
  plan_validation_error : List PlanError → Exception
  missing_key : String → Exception
  merge_conflict : List String → Exception
  service_error : Exception
  value_error : String → Exception
  tool_execution_error : String → Exception
  blank_tool : String → Exception

-- What a call gives: its value, or the exception that it raised.
pub data Result {ℓ} (Value : Type ℓ) : Type ℓ where
  raise : Exception → Result Value
  ok : Value → Result Value

-- The call on the left, and the code that goes on with its value.
infixl 5 ◌>>=◌
abbrev pub ◌>>=◌ {ℓ ℓ'} : {X : Type ℓ} {Y : Type ℓ'} → Result X → (X → Result Y) → Result Y
raise e >>= next = raise e
ok x >>= next = next x

-- A chain that gives a value: its first part gave one, and so did the rest.
pub >>=-eq-ok {ℓ ℓ'} :
    {X : Type ℓ} {Y : Type ℓ'} (m : Result X) (next : X → Result Y) {y : Y}
    → (m >>= next) ≡ ok y
    → (x : X) × (m ≡ ok x) × (next x ≡ ok y)
>>=-eq-ok (ok x) next h = (x, refl, h)
>>=-eq-ok (raise e) next h = cc

pub ok-injective {ℓ} : {X : Type ℓ} {x y : X} → ok x ≡ ok y → x ≡ y
ok-injective h = cc
