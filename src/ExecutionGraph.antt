-- ===== src/ExecutionGraph.antt =====
-- schemas/execution_graph.py: the records of the nodes and edges that a run has executed, and the
-- objects of this type as a store, since a run and its states refer to the same one.
use trip_graph_agent_runtime.Prelude.{
  ℕ, zero, suc, String, Bool, Option, none, some, List, [], ◌∷◌, ◌++◌, map, length,
}
use trip_graph_agent_runtime.AgentState.{Snapshot}

-- class GraphEdgeRecord(BaseModel)
pub record GraphEdgeRecord : Type 0 where
  pub source : String
  pub target : String
  pub label : Option String
  pub kind : Option String
  pub sequence : ℕ

-- class NodeExecutionRecord(BaseModel). The delta is the list of the keys that changed.
pub record NodeExecutionRecord (Json : Type 0) : Type 0 where
  pub node_id : String
  pub sequence : ℕ
  pub input_state_hash : String
  pub output_state_hash : String
  pub state_delta : List String
  pub input_state_snapshot : Option (Snapshot Json)
  pub output_state_snapshot : Option (Snapshot Json)
  pub replayed : Bool
  pub status : String

-- class ExecutionGraphModel(BaseModel)
pub record ExecutionGraphModel (Json : Type 0) : Type 0 where
  pub graph_id : String
  pub session_id : String
  pub seed : Option ℕ
  pub mode : String
  pub node_records : List (NodeExecutionRecord Json)
  pub edge_records : List GraphEdgeRecord

-- The objects that exist, by reference.
abbrev pub Graphs : Type 0 → Type 0
Graphs Json = List (ExecutionGraphModel Json)

module _ {Json : Type 0} where
  unfoldable pub add_node_record :
      NodeExecutionRecord Json → ExecutionGraphModel Json → ExecutionGraphModel Json
  add_node_record entry graph = record graph { node_records = graph.node_records ++ (entry ∷ []) }

  unfoldable pub add_edge_record :
      GraphEdgeRecord → ExecutionGraphModel Json → ExecutionGraphModel Json
  add_edge_record edge graph = record graph { edge_records = graph.edge_records ++ (edge ∷ []) }

  pub node_ids : ExecutionGraphModel Json → List String
  node_ids graph = map (λ r. r.node_id) graph.node_records

  -- The object that a reference stands for.
  unfoldable pub graph_at : ℕ → Graphs Json → Option (ExecutionGraphModel Json)
  graph_at ref [] = none
  graph_at zero (graph ∷ graphs) = some graph
  graph_at (suc ref) (graph ∷ graphs) = graph_at ref graphs

  -- A change of the object in place.
  unfoldable pub change_at :
      (ExecutionGraphModel Json → ExecutionGraphModel Json) → ℕ → Graphs Json → Graphs Json
  change_at f ref [] = []
  change_at f zero (graph ∷ graphs) = f graph ∷ graphs
  change_at f (suc ref) (graph ∷ graphs) = graph ∷ change_at f ref graphs

  -- A new object, and the reference to it.
  unfoldable pub allocate : ExecutionGraphModel Json → Graphs Json → ℕ × Graphs Json
  allocate graph graphs = (length graphs, graphs ++ (graph ∷ []))
