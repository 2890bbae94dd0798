-- ===== src/State.antt =====
-- plan/state.py: PlanState, the progress of one plan. A method that changes the object returns the
-- new state; a read of `_step_status` or a search for a step that may raise KeyError returns a
-- `Result`. `Json` is the type of observations and arguments, `Context` that of `global_context`.
pub mod Replan
pub mod Lookup
pub mod Schedule
pub mod Progress
pub mod Choice
pub mod Kept
pub mod Fresh
use trip_graph_agent_runtime.Prelude.{
  ℕ, suc, ◌+◌, String, Bool, true, false, not, Option, none, some, List, [], ◌∷◌, ◌++◌, map, elem,
  select, all_true, is_empty, ◌==◌, if◌then◌else◌,
}
use trip_graph_agent_runtime.Prelude.Dict.{Dict, lookup, insert, remove, insert_all}
use trip_graph_agent_runtime.Prelude.Sort.{sort, by_key}
use trip_graph_agent_runtime.Errors.{Result, ok, raise, key_error, ◌>>=◌}
use trip_graph_agent_runtime.Schema.{
  StepStatus, pending, skipped, PlanStep, Plan, deps_of, StepResult, ExecutionTraceEntry,
  is_finished, is_terminal, is_completed, is_pending,
}

module _ (Json Context : Type 0) where
  pub record PlanState : Type 0 where
    pub plan : Plan
    pub session_id : String
    pub current_step : Option ℕ
    pub completed_steps : List ℕ
    pub step_results : Dict (StepResult Json)
    pub global_context : Context
    pub execution_trace : List ExecutionTraceEntry
    pub step_status : Dict StepStatus

abbrev pub ids : List PlanStep → List ℕ
ids steps = map (λ s. s.id) steps

-- xs.remove(k), which takes the first occurrence
unfoldable pub remove_first : ℕ → List ℕ → List ℕ
remove_first k [] = []
remove_first k (x ∷ xs) = if k == x then xs else x ∷ remove_first k xs

-- _step_status[step_id]
unfoldable pub status_in : Dict StepStatus → ℕ → Result StepStatus
status_in statuses k = elim (lookup k statuses) [ none ↦ raise (key_error k) | some st ↦ ok st ]

-- _find_step: the first step with the id
unfoldable pub find_in : List PlanStep → ℕ → Result PlanStep
find_in [] k = raise (key_error k)
find_in (s ∷ rest) k = if s.id == k then ok s else find_in rest k

-- {step_id for step_id, status in _step_status.items() if status in (COMPLETED, SKIPPED)}
unfoldable pub finished_in : Dict StepStatus → List ℕ
finished_in statuses = map (λ p. p.0) (select (λ p. is_finished p.1) statuses)

-- The loops of unfinished_step_ids, all_steps_finished and next_executable_step.
unfoldable pub unfinished_in : Dict StepStatus → List PlanStep → Result (List ℕ)
unfinished_in statuses [] = ok []
unfinished_in statuses (s ∷ rest) = do
  st ← status_in statuses s.id
  later ← unfinished_in statuses rest
  ok (if is_finished st then later else s.id ∷ later)

unfoldable pub all_terminal_in : Dict StepStatus → List PlanStep → Result Bool
all_terminal_in statuses [] = ok true
all_terminal_in statuses (s ∷ rest) = do
  st ← status_in statuses s.id
  if is_terminal st then all_terminal_in statuses rest else ok false

unfoldable pub deps_met_in : Dict StepStatus → List PlanStep → ℕ → Result Bool
deps_met_in statuses steps k = do
  step ← find_in steps k
  if is_empty (deps_of step)
      then ok true
      else ok (all_true (λ d. elem d (finished_in statuses)) (deps_of step))

-- The body of the loop over the sorted steps, where `later` is the rest of the loop.
unfoldable pub visit_step : Bool → Result Bool → ℕ → Result (Option ℕ) → Result (Option ℕ)
visit_step false met k later = later
visit_step true met k later = met >>= λ ready. if ready then ok (some k) else later

unfoldable pub first_ready_in : Dict StepStatus → List PlanStep → List PlanStep → Result (Option ℕ)
unfolding visit_step
first_ready_in statuses steps [] = ok none
first_ready_in statuses steps (s ∷ rest) = do
  st ← status_in statuses s.id
  let later = first_ready_in statuses steps rest
  visit_step (is_pending st) (deps_met_in statuses steps s.id) s.id later

unfoldable pub sorted_steps : List PlanStep → List PlanStep
sorted_steps steps = sort (by_key (λ s. s.id)) steps

module _ {Json Context : Type 0} where
  -- __init__ and from_plan, with the empty context that the caller gives
  unfoldable pub from_plan : Plan → String → Context → PlanState Json Context
  from_plan plan session context = record {
    plan = plan;
    session_id = session;
    current_step = none;
    completed_steps = [];
    step_results = [];
    global_context = context;
    execution_trace = [];
    step_status = insert_all (ids plan.steps) pending [];
  }

  unfoldable pub get_step_status : PlanState Json Context → ℕ → Result StepStatus
  get_step_status s k = status_in s.step_status k

  unfoldable pub set_step_status : PlanState Json Context → ℕ → StepStatus → PlanState Json Context
  set_step_status s k st = record s {
    step_status = insert k st s.step_status;
    completed_steps =
        if is_completed st
        then if elem k s.completed_steps then s.completed_steps else s.completed_steps ++ (k ∷ [])
        else s.completed_steps;
  }

  unfoldable pub record_step_result :
      PlanState Json Context → StepResult Json → PlanState Json Context
  unfolding set_step_status
  record_step_result s result =
      set_step_status (record s { step_results = insert result.step_id result s.step_results })
        result.step_id result.status

  unfoldable pub append_trace :
      PlanState Json Context → ExecutionTraceEntry → PlanState Json Context
  append_trace s entry = record s { execution_trace = s.execution_trace ++ (entry ∷ []) }

  unfoldable pub reset_step_for_retry : PlanState Json Context → ℕ → PlanState Json Context
  reset_step_for_retry s k = record s {
    step_status = insert k pending s.step_status;
    step_results = remove k s.step_results;
    completed_steps =
        if elem k s.completed_steps then remove_first k s.completed_steps else s.completed_steps;
  }

  unfoldable mark_step_skipped : PlanState Json Context → ℕ → PlanState Json Context
  unfolding set_step_status
  mark_step_skipped s k = set_step_status s k skipped

  unfoldable pub finished_step_ids : PlanState Json Context → List ℕ
  finished_step_ids s = finished_in s.step_status

  unfoldable pub unfinished_step_ids : PlanState Json Context → Result (List ℕ)
  unfinished_step_ids s = unfinished_in s.step_status s.plan.steps

  unfoldable pub find_step : PlanState Json Context → ℕ → Result PlanStep
  find_step s k = find_in s.plan.steps k

  pub dependencies_met : PlanState Json Context → ℕ → Result Bool
  dependencies_met s k = deps_met_in s.step_status s.plan.steps k

  unfoldable pub next_executable_step : PlanState Json Context → Result (Option ℕ)
  next_executable_step s = first_ready_in s.step_status s.plan.steps (sorted_steps s.plan.steps)

  unfoldable pub all_steps_finished : PlanState Json Context → Result Bool
  all_steps_finished s = all_terminal_in s.step_status s.plan.steps
