-- ===== src/Engine/Node.antt =====
-- graph/runtime/core/graph.py: Graph._execute_node, one node of a run.
use trip_graph_agent_runtime.Prelude.{
  ℕ, String, Bool, true, false, Option, none, some, List, [], ◌∷◌, map, str_eq, if◌then◌else◌,
}
use trip_graph_agent_runtime.Prelude.Names.{find}
use trip_graph_agent_runtime.Errors.{Result, ok, raise, missing_key, ◌>>=◌}
use trip_graph_agent_runtime.AgentState.{
  AgentState, Snapshot, Outside, snapshot_of, hash_state, apply_snapshot, log_graph,
}
use trip_graph_agent_runtime.AgentState.Delta.{compute_state_delta, or_null}
use trip_graph_agent_runtime.Versions.{commit}
use trip_graph_agent_runtime.ExecutionGraph.{
  NodeExecutionRecord, Graphs, graph_at, change_at, allocate, add_node_record,
}
use trip_graph_agent_runtime.Engine.{Graph, NodeFn, Env}
use trip_graph_agent_runtime.Engine.Policy.{
  ExecutionPolicy, is_replay, next_replay_record, peek_replay_record, maybe_pause,
}

-- What the body of a node leaves behind, and whether it was replayed.
pub record Body (Json World : Type 0) : Type 0 where
  pub state : AgentState Json
  pub policy : ExecutionPolicy Json World
  pub env : Env Json World
  pub replayed : Bool

-- What a node keeps from its beginning for its end: the hash and the snapshot of its input, the record
-- to replay, and the state with the entry in its trace.
pub record Begun (Json : Type 0) : Type 0 where
  pub input_hash : String
  pub input_snapshot : Option (Snapshot Json)
  pub entry : Option (NodeExecutionRecord Json)
  pub started : AgentState Json

module _ {Json : Type 0} where
  unfoldable pub copy_of : Option ℕ → Graphs Json → Option ℕ × Graphs Json
  unfolding graph_at allocate
  copy_of none graphs = (none, graphs)
  copy_of (some ref) graphs = elim (graph_at ref graphs) [
    | none ↦ (some ref, graphs)
    | some graph ↦ let (new, graphs') = allocate graph graphs in (some new, graphs')
  ]

  -- The recorded output, if the record is there, has the hash of the input, and has a snapshot.
  unfoldable pub replay_output : Option (NodeExecutionRecord Json) → String → Option (Snapshot Json)
  replay_output none input_hash = none
  replay_output (some entry) input_hash =
      if str_eq entry.input_state_hash input_hash then entry.output_state_snapshot else none

  module _ {World : Type 0} where
    -- A replayed node takes the recorded state, and the recorded run goes on.
    unfoldable pub replay_body :
        Snapshot Json
        → ExecutionPolicy Json World
        → AgentState Json
        → Env Json World
        → Body Json World
    unfolding copy_of next_replay_record
    replay_body snap policy state env =
        let (graph, graphs) = copy_of state.execution_graph env.graphs in
        record {
          state = apply_snapshot graph snap state;
          policy = (next_replay_record policy env.graphs).1;
          env = record env { graphs = graphs };
          replayed = true;
        }

    -- A node that is called although it has a record lets the recorded run go on, too.
    unfoldable pub skip_record :
        Option (NodeExecutionRecord Json)
        → ExecutionPolicy Json World
        → Env Json World
        → ExecutionPolicy Json World
    unfolding next_replay_record
    skip_record none policy env = policy
    skip_record (some entry) policy env = (next_replay_record policy env.graphs).1

    unfoldable pub called_body :
        Option (NodeExecutionRecord Json)
        → ExecutionPolicy Json World
        → AgentState Json × Env Json World
        → Body Json World
    unfolding skip_record
    called_body entry policy (state, env) = record {
      state = state;
      policy = skip_record entry policy env;
      env = env;
      replayed = false;
    }

    unfoldable pub node_body :
        Option (Snapshot Json)
        → Option (NodeExecutionRecord Json)
        → NodeFn Json World
        → ExecutionPolicy Json World
        → AgentState Json
        → Env Json World
        → Result (Body Json World)
    unfolding replay_body called_body
    node_body (some snap) entry fn policy state env = ok (replay_body snap policy state env)
    node_body none entry fn policy state env =
        fn state env >>= λ after. ok (called_body entry policy after)

    unfoldable pub snapshot_if :
        Outside Json World → Bool → AgentState Json → Option (Snapshot Json)
    unfolding snapshot_of
    snapshot_if out true state = some (snapshot_of out state)
    snapshot_if out false state = none

    unfoldable pub recorded_for :
        String → ExecutionPolicy Json World → Env Json World → Option (NodeExecutionRecord Json)
    unfolding peek_replay_record
    recorded_for node_id policy env =
        if is_replay policy.mode then peek_replay_record node_id policy env.graphs else none

  module _ {World : Type 0} (out : Outside Json World) where
    unfoldable pub node_record :
        String
        → ℕ
        → String
        → Option (Snapshot Json)
        → AgentState Json
        → Body Json World
        → NodeExecutionRecord Json
    unfolding hash_state compute_state_delta snapshot_if
    node_record node_id sequence input_hash input_snapshot before body = record {
      node_id = node_id;
      sequence = sequence;
      input_state_hash = input_hash;
      output_state_hash = hash_state out body.state;
      state_delta = compute_state_delta out before body.state;
      input_state_snapshot = input_snapshot;
      output_state_snapshot = snapshot_if out body.policy.capture_state_snapshots body.state;
      replayed = body.replayed;
      status = "completed";
    }

    abbrev end_note : NodeExecutionRecord Json → AgentState Json → List (String × Json)
    end_note entry state =
        ("output_state_hash", out.text entry.output_state_hash)
        ∷ ("input_state_hash", out.text entry.input_state_hash)
        ∷ ("state_version_id", or_null out out.text state.state_version_id)
        ∷ ("state_delta_keys", out.array (map out.text entry.state_delta))
        ∷ []

    -- The version and the record of the node, after its body. `ref` is the graph of the run.
    unfoldable pub close_node :
        ℕ
        → NodeExecutionRecord Json
        → Body Json World
        → AgentState Json × ExecutionPolicy Json World × Env Json World
    unfolding commit change_at add_node_record log_graph or_null
    close_node ref entry body =
        let (committed, world) = commit out entry.node_id body.state body.env.world in
        (
          log_graph entry.node_id "node_end" (end_note entry committed) committed,
          body.policy,
          record { world = world; graphs = change_at (add_node_record entry) ref body.env.graphs },
        )

    -- The lines before the body, where the node may be paused.
    unfoldable pub begin_node :
        String
        → AgentState Json
        → ExecutionPolicy Json World
        → Env Json World
        → Begun Json × Env Json World
    unfolding hash_state snapshot_if recorded_for maybe_pause log_graph
    begin_node node_id state policy env =
        let input_hash = hash_state out state in
        let input_snapshot = snapshot_if out policy.capture_state_snapshots state in
        (
          record {
            input_hash = input_hash;
            input_snapshot = input_snapshot;
            entry = recorded_for node_id policy env;
            started =
                log_graph node_id "node_start" (("input_state_hash", out.text input_hash) ∷ [])
                  state;
          },
          record env { world = maybe_pause policy node_id input_snapshot input_hash env.world },
        )

    -- The body and the lines after it.
    unfoldable pub finish_node :
        NodeFn Json World
        → ℕ
        → String
        → ℕ
        → Begun Json
        → ExecutionPolicy Json World
        → Env Json World
        → Result (AgentState Json × ExecutionPolicy Json World × Env Json World)
    unfolding replay_output node_body node_record close_node
    finish_node fn ref node_id sequence b policy env =
        node_body (replay_output b.entry b.input_hash) b.entry fn policy b.started env >>= λ body.
        ok (
          close_node ref (node_record node_id sequence b.input_hash b.input_snapshot b.started body)
            body)

    unfoldable pub execute_fn :
        NodeFn Json World
        → ℕ
        → String
        → ℕ
        → AgentState Json
        → ExecutionPolicy Json World
        → Env Json World
        → Result (AgentState Json × ExecutionPolicy Json World × Env Json World)
    unfolding begin_node finish_node
    execute_fn fn ref node_id sequence state policy env =
        let (begun, paused) = begin_node node_id state policy env in
        finish_node fn ref node_id sequence begun policy paused

    -- A node that the graph does not have is a KeyError.
    unfoldable pub execute_if :
        Option (NodeFn Json World)
        → ℕ
        → String
        → ℕ
        → AgentState Json
        → ExecutionPolicy Json World
        → Env Json World
        → Result (AgentState Json × ExecutionPolicy Json World × Env Json World)
    unfolding execute_fn
    execute_if none ref node_id sequence state policy env = raise (missing_key node_id)
    execute_if (some fn) ref node_id sequence state policy env =
        execute_fn fn ref node_id sequence state policy env

    unfoldable pub execute_node :
        Graph Json World
        → ℕ
        → String
        → ℕ
        → AgentState Json
        → ExecutionPolicy Json World
        → Env Json World
        → Result (AgentState Json × ExecutionPolicy Json World × Env Json World)
    unfolding execute_if
    execute_node graph ref node_id sequence state policy env =
        execute_if (find node_id graph.nodes) ref node_id sequence state policy env
