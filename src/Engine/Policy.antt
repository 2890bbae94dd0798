-- ===== src/Engine/Policy.antt =====
-- graph/runtime/execution_policy.py: how a run executes its nodes, and the replay of a recorded run.
use trip_graph_agent_runtime.Prelude.{
  ℕ, zero, suc, String, Bool, true, false, not, ◌&&◌, ◌||◌, Option, none, some, List, [], ◌∷◌,
  length, ltb, is_empty, str_eq, if◌then◌else◌,
}
use trip_graph_agent_runtime.Prelude.Names.{has_name}
use trip_graph_agent_runtime.AgentState.{Snapshot}
use trip_graph_agent_runtime.ExecutionGraph.{NodeExecutionRecord, Graphs, graph_at}

-- class ExecutionMode(StrEnum)
pub data ExecutionMode : Type 0 where
  normal deterministic replay : ExecutionMode

unfoldable pub mode_value : ExecutionMode → String
mode_value normal = "normal"
mode_value deterministic = "deterministic"
mode_value replay = "replay"

abbrev pub is_replay : ExecutionMode → Bool
is_replay replay = true
is_replay _ = false

module _ {A : Type 0} where
  -- xs[i:] and xs[i]
  unfoldable pub from_index : ℕ → List A → List A
  from_index zero xs = xs
  from_index (suc i) [] = []
  from_index (suc i) (x ∷ xs) = from_index i xs

  abbrev pub first : List A → Option A
  first [] = none
  first (x ∷ xs) = some x

-- class ExecutionPolicy. The recorded run is a reference, since a run may replay the very graph to
-- which it adds its records. The hook gets the snapshot, or the hash where there is none.
pub record ExecutionPolicy (Json World : Type 0) : Type 0 where
  pub mode : ExecutionMode
  pub seed : Option ℕ
  pub replay_graph : Option ℕ
  pub debug : Bool
  pub pause_at_nodes : List String
  pub capture_state_snapshots : Bool
  pub pause_hook : Option (String → Option (Snapshot Json) → String → World → World)
  pub replay_index : ℕ

abbrev seeded_mode : ExecutionMode → ExecutionMode
seeded_mode normal = deterministic
seeded_mode deterministic = deterministic
seeded_mode replay = replay

unfoldable pub record_for :
    {Json : Type 0} → String → List (NodeExecutionRecord Json) → Option (NodeExecutionRecord Json)
record_for node_id [] = none
record_for node_id (entry ∷ rest) =
    if str_eq entry.node_id node_id then some entry else record_for node_id rest

module _ {Json World : Type 0} where
  abbrev pub default_policy : ExecutionPolicy Json World
  default_policy = record {
    mode = normal;
    seed = none;
    replay_graph = none;
    debug = false;
    pause_at_nodes = [];
    capture_state_snapshots = false;
    pause_hook = none;
    replay_index = 0;
  }

  unfoldable pub with_seed : ℕ → ExecutionPolicy Json World → ExecutionPolicy Json World
  with_seed seed policy = record policy { seed = some seed; mode = seeded_mode policy.mode }

  unfoldable pub with_replay : ℕ → ExecutionPolicy Json World → ExecutionPolicy Json World
  with_replay graph policy = record policy {
    mode = replay;
    replay_graph = some graph;
    replay_index = 0;
  }

  unfoldable pub with_debug :
      List String
      → Option (String → Option (Snapshot Json) → String → World → World)
      → ExecutionPolicy Json World
      → ExecutionPolicy Json World
  with_debug pause_at hook policy = record policy {
    debug = true;
    capture_state_snapshots = true;
    pause_at_nodes = if is_empty pause_at then policy.pause_at_nodes else pause_at;
    pause_hook = hook;
  }

  -- The records of the run that is replayed.
  unfoldable pub replay_records :
      ExecutionPolicy Json World → Graphs Json → List (NodeExecutionRecord Json)
  unfolding graph_at
  replay_records policy graphs = elim policy.replay_graph [
    | none ↦ []
    | some ref ↦ elim (graph_at ref graphs) [ none ↦ [] | some graph ↦ graph.node_records ]
  ]

  -- next_replay_record, of which the engine uses only the new index
  unfoldable pub next_replay_record :
      ExecutionPolicy Json World
      → Graphs Json
      → Option (NodeExecutionRecord Json) × ExecutionPolicy Json World
  unfolding replay_records from_index
  next_replay_record policy graphs =
      let records = replay_records policy graphs in
      if ltb policy.replay_index (length records)
      then (
        first (from_index policy.replay_index records),
        record policy { replay_index = suc policy.replay_index },
      )
      else (none, policy)

  unfoldable pub peek_replay_record :
      String → ExecutionPolicy Json World → Graphs Json → Option (NodeExecutionRecord Json)
  unfolding record_for replay_records from_index
  peek_replay_record node_id policy graphs =
      record_for node_id (from_index policy.replay_index (replay_records policy graphs))

  unfoldable pub maybe_pause :
      ExecutionPolicy Json World → String → Option (Snapshot Json) → String → World → World
  unfolding has_name
  maybe_pause policy node_id snapshot input_hash world =
      if not policy.debug
        || not (is_empty policy.pause_at_nodes) && not (has_name node_id policy.pause_at_nodes)
      then world
      else elim policy.pause_hook [
        | none ↦ world
        | some hook ↦ hook node_id snapshot input_hash world
      ]
