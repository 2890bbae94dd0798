-- ===== src/Engine/Run.antt =====
-- graph/runtime/core/graph.py: the variables of a run, its events, and one node between its events.
-- The events of the stream are the list that a run leaves; those that only carry the state are left
-- out, as the state is part of the run.
use trip_graph_agent_runtime.Prelude.{ℕ, suc, String, Bool, false, Option, List, [], ◌∷◌, ◌++◌}
use trip_graph_agent_runtime.Errors.{Result, ok, ◌>>=◌}
use trip_graph_agent_runtime.AgentState.{AgentState, Outside, hash_state}
use trip_graph_agent_runtime.ExecutionGraph.{change_at, add_edge_record}
use trip_graph_agent_runtime.Engine.{Graph, Env}
use trip_graph_agent_runtime.Engine.Policy.{ExecutionPolicy}
use trip_graph_agent_runtime.Engine.Node.{execute_node}

-- The events of the stream. The flag of a node event says that it belongs to a fan-out.
pub data Event : Type 0 where
  graph_start : (graph_id entry policy : String) → Event
  early_stop : (node_id : String) → Event
  node_start : (fanned : Bool) → (node_id hash : String) → (sequence : ℕ) → Event
  node_end : (fanned : Bool) → (node_id before after : String) → (sequence : ℕ) → Event
  fanned_out : (source : String) → (branches : List String) → (join_node : String) → Event
  parallel_done : (sequence edge_sequence : ℕ) → Event
  followed : (source target : String) → (label kind : Option String) → Event
  graph_end : (graph_id : String) → (iterations : ℕ) → Event

-- The variables of astream.
pub record Run (Json World : Type 0) : Type 0 where
  pub state : AgentState Json
  pub policy : ExecutionPolicy Json World
  pub env : Env Json World
  pub sequence : ℕ
  pub edge_sequence : ℕ
  pub iterations : ℕ
  pub events : List Event

module _ {Json World : Type 0} where
  abbrev pub emit : Event → Run Json World → Run Json World
  emit event run = record run { events = run.events ++ (event ∷ []) }

  -- execution_graph.add_edge_record, on the graph of the run
  unfoldable pub add_edge_at :
      ℕ → String → String → Option String → Option String → Run Json World → Run Json World
  unfolding change_at add_edge_record
  add_edge_at ref source target label kind run = record run {
    env = record run.env {
      graphs =
          change_at
            (add_edge_record (record {
              source = source;
              target = target;
              label = label;
              kind = kind;
              sequence = run.edge_sequence;
            }))
            ref run.env.graphs;
    };
    edge_sequence = suc run.edge_sequence;
  }

module _ {Json World : Type 0} (out : Outside Json World) (graph : Graph Json World) (ref : ℕ) where
  -- What the run is after a node, and the event that says so.
  unfoldable pub after_node :
      Bool
      → String
      → String
      → ℕ
      → Run Json World
      → AgentState Json × ExecutionPolicy Json World × Env Json World
      → Run Json World
  unfolding hash_state
  after_node fanned node_id input_hash sequence run (state, policy, env) =
      emit (node_end fanned node_id input_hash (hash_state out state) sequence)
        (record run { state = state; policy = policy; env = env })

  -- _execute_node, between its two events
  unfoldable pub run_node_as : Bool → ℕ → String → Run Json World → Result (Run Json World)
  unfolding after_node execute_node
  run_node_as fanned sequence node_id run =
      let input_hash = hash_state out run.state in
      execute_node out graph ref node_id sequence run.state run.policy run.env >>= λ after. ok (
        after_node fanned node_id input_hash sequence
          (emit (node_start fanned node_id input_hash sequence) run) after)

  -- A node of the main loop, which takes the next sequence number.
  unfoldable pub run_node : String → Run Json World → Result (Run Json World)
  unfolding run_node_as
  run_node node_id run = run_node_as false run.sequence node_id run >>= λ after.
      ok (record after { sequence = suc run.sequence })
