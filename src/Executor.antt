-- ===== src/Executor.antt =====
-- plan/executor.py: PlanExecutor. This file holds its data and what it calls: the tools, the resolver,
-- the planner and the compressor are the fields of `Services`. The children hold the methods. A method
-- that raises gives up its state: what an exception leaves behind is not modelled.
pub mod Step
pub mod Recovery
pub mod Loop
pub mod Shape
pub mod StepFacts
pub mod Attempts
pub mod Invariant
pub mod Finish
pub mod Ends
use trip_graph_agent_runtime.Prelude.{
  ℕ, String, Bool, Option, none, some, List, [], ◌∷◌, if◌then◌else◌, str_eq,
}
use trip_graph_agent_runtime.Prelude.Dict.{Dict}
use trip_graph_agent_runtime.Errors.{Result, ok, ◌>>=◌}
use trip_graph_agent_runtime.Schema.{PlanStep, PlanFailureConfig}
use trip_graph_agent_runtime.GraphSchema.{GraphNodeStatus}
use trip_graph_agent_runtime.State.{PlanState}
use trip_graph_agent_runtime.Tools.{ToolObservation}
use trip_graph_agent_runtime.PlanGraph.{PlanGraph, set_node_status, sync_from_state}

-- The parts of a ToolPolicyDecision that the executor reads or writes.
pub record PolicyDecision : Type 0 where
  pub fallback_candidates : List String
  pub fallback_used : Bool
  pub fallback_tool : Option String
  pub failure_reason : Option String

module _ (Json : Type 0) where
  -- global_context: the keys that the executor uses, and the other entries. A key that is missing
  -- reads as an empty table.
  pub record Context : Type 0 where
    pub values : List (String × Json)
    pub step_outputs : Dict Json
    pub tool_outputs : List (String × Json)
    pub tool_policy_decisions : Dict PolicyDecision

  -- The other objects that the executor calls. `World` is their state. A tool call is given whether
  -- it is a fallback, the tool, its arguments, the step's id and the attempt: its call id is made of
  -- the first and the last two. It gives an observation: the ValidationError of LLMToolCall, for a
  -- hint of spaces alone or for arguments that are not a dict, is not modelled.
  pub record Services : Type 1 where
    pub World : Type 0
    pub null : Json
    pub completed_message : String → Json
    pub resolve : PlanStep → Context → Option Json
    pub has_tool : String → Bool
    pub execute_llm_call : Bool → String → Json → ℕ → ℕ → World → ToolObservation Json × World
    pub recovery_action_for_fallback : String → String → String
    pub replan_unfinished_steps :
        PlanState Json Context → ℕ → String → World → Option (List PlanStep) × World
    pub maybe_compress : PlanState Json Context → World → Option Context × World

-- The settings and the optional collaborators. `validator` holds the names of the registered tools.
pub record ExecutorConfig : Type 0 where
  pub failure_config : PlanFailureConfig
  pub tool_policy_enabled : Bool
  pub tool_policy_mcp_fallback_enabled : Bool
  pub has_policy_engine : Bool
  pub has_planner : Bool
  pub validator : Option (List String)

module _ {Json : Type 0} (sv : Services Json) where
  open sv use {World}

  pub record Run : Type 0 where
    pub state : PlanState Json (Context Json)
    pub graph : Option PlanGraph
    pub replan_attempts : ℕ
    pub world : World

  -- _update_graph_node
  unfoldable pub update_graph_node : ℕ → GraphNodeStatus → Run → Result Run
  update_graph_node k st r = elim r.graph [
    | none ↦ ok r
    | some g ↦ set_node_status g k st none >>= λ g'. ok (record r { graph = some g' })
  ]

  -- _sync_graph
  unfoldable pub sync_graph : Run → Result Run
  sync_graph r = elim r.graph [
    | none ↦ ok r
    | some g ↦ sync_from_state g r.state >>= λ g'. ok (record r { graph = some g' })
  ]
