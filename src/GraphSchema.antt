-- ===== src/GraphSchema.antt =====
-- schemas/plan_graph.py: the nodes and edges of the plan graph.
use trip_graph_agent_runtime.Prelude.{ℕ, String, Option, List}

-- class GraphNodeStatus(StrEnum)
pub data GraphNodeStatus : Type 0 where
  pending running success failed : GraphNodeStatus

-- class PlanGraphEdge(BaseModel)
pub record PlanGraphEdge : Type 0 where
  pub source : ℕ
  pub target : ℕ

-- class PlanGraphNode(BaseModel)
pub record PlanGraphNode : Type 0 where
  pub id : ℕ
  pub task : String
  pub tool_hint : Option String
  pub status : GraphNodeStatus
  pub error : Option String

-- class PlanExecutionGraphSnapshot(BaseModel)
pub record PlanExecutionGraphSnapshot : Type 0 where
  pub goal : String
  pub session_id : String
  pub current_step : Option ℕ
  pub nodes : List PlanGraphNode
  pub edges : List PlanGraphEdge
