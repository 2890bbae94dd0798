-- ===== src/Tests/Graphs.antt =====
-- Runs of small graphs: a chain, a fan-out, and the replay of a node.
use mathlib.Core.List.{Perm}
use trip_graph_agent_runtime.Prelude.{
  ℕ, ◌≤◌, ◌≡◌, refl, String, false, Option, none, some, List, [], ◌∷◌, ◌++◌, map, arith, str_eq,
  eq_iff, if◌then◌else◌,
}
use trip_graph_agent_runtime.Errors.{Result, ok, raise}
use trip_graph_agent_runtime.AgentState.{AgentState, Snapshot, GraphTraceEntry}
use trip_graph_agent_runtime.ExecutionGraph.{ExecutionGraphModel, NodeExecutionRecord}
use trip_graph_agent_runtime.Merge.{deep_merging}
use trip_graph_agent_runtime.Engine.{NodeFn, Env, Graph, ParallelFanOut, direct}
use trip_graph_agent_runtime.Engine.Policy.{ExecutionPolicy, default_policy}
use trip_graph_agent_runtime.Engine.Run.{Run}
use trip_graph_agent_runtime.Engine.Bounds.{Ascends, astream-InOrder}
use trip_graph_agent_runtime.Engine.Chain.{Route, Succeeds, astream-Route}
use trip_graph_agent_runtime.Engine.Replays.{execute_node-replayed, replay_output-version}
use trip_graph_agent_runtime.Engine.Routing.{add_parallel_fanout-routes}
use trip_graph_agent_runtime.Tests.States.{outside, blank, version_text}
use trip_graph_agent_runtime.Engine.{
  kind_value, first_from, new_graph, add_node, edges_of, add_conditional_edges, add_edge,
  add_loop_edge, add_branch_edges, add_parallel_fanout, join_pass, join_fn, add_join_node,
  fan_out_for, matches, first_match, resolve_next, match_in, matched_edge,
}
use trip_graph_agent_runtime.Engine.Policy.{
  mode_value, from_index, record_for, with_replay, replay_records, next_replay_record,
  peek_replay_record, maybe_pause,
}
use trip_graph_agent_runtime.Engine.Node.{
  copy_of, replay_output, replay_body, skip_record, called_body, node_body, snapshot_if,
  recorded_for, node_record, close_node, execute_fn, begin_node, finish_node, execute_if,
  execute_node,
}
use trip_graph_agent_runtime.Engine.Run.{add_edge_at, after_node, run_node_as, run_node}
use trip_graph_agent_runtime.Engine.Fanout.{
  add_branch_records, add_join_records, merge_label, on_copy, take_at, task_if, start_branch,
  finish_branch, start_next, finish_at, turn_by, turn, run_turns, run_branches, merge_branches,
  join_if, run_join, close_fanout, announce, start_fanout, run_fanout,
}
use trip_graph_agent_runtime.Engine.Loop.{
  or_end, source_if, run_source, after_join, next_round, follow, one_round, must_stop, stop_early,
  run_loop, new_execution_graph, run_graph, start_run, astream, invoke,
}
use trip_graph_agent_runtime.Engine.Trace.{ended}
use trip_graph_agent_runtime.Versions.{
  get_version, ensure_store, add_version, diff_from, parent_of, new_version, commit_as, commit,
}
use trip_graph_agent_runtime.AgentState.{
  append_message, log_graph, summary_of, snapshot_of, hash_state, apply_snapshot,
}
use trip_graph_agent_runtime.AgentState.Delta.{
  or_null, entries, value_at, changed, snapshot_diff, compute_state_delta,
}
use trip_graph_agent_runtime.ExecutionGraph.{
  add_node_record, add_edge_record, graph_at, change_at, allocate,
}
use trip_graph_agent_runtime.Merge.{
  dedupe_from, dedupe_list, has_pair, has_edge, differ, new_nodes, merge_graphs, merge_found,
  merge_execution_graphs, merge_stores, merge_version_stores, deep_merge, merge_lists,
  detect_conflicts, merge_pair, merge_states,
}
use trip_graph_agent_runtime.Prelude.Names.{has_name, find, assign, discard, update}
use trip_graph_agent_runtime.Prelude.Decimal.{decimal, numbered}
use trip_graph_agent_runtime.Prelude.{select}
use trip_graph_agent_runtime.Prelude.Sort.{insert_sorted, sort}

-- A node that writes its name as a message.
abbrev say : String → NodeFn String ℕ
say name state env = ok (record state { messages = state.messages ++ (name ∷ []) }, env)

say-Succeeds : (graph : Graph String ℕ) (name : String) → Succeeds graph (say name)
say-Succeeds graph name state env =
    ((record state { messages = state.messages ++ (name ∷ []) }, env), refl, refl)

abbrev no_world : Env String ℕ
no_world = record { world = 0; graphs = [] }

abbrev chain : Graph String ℕ
chain =
    add_edge "a" "b" direct
      (add_node "b" (say "b") (add_node "a" (say "a") (new_graph "g" "a" none 10 deep_merging)))

chain-Route : Route chain chain.entry ("a" ∷ "b" ∷ [])
unfolding new_graph add_node add_edge add_conditional_edges edges_of assign find fan_out_for
    first_from resolve_next first_match matches
chain-Route = (
  refl,
  refl,
  refl,
  (say "a", refl, say-Succeeds chain "a"),
  (
    "b",
    (λ state. refl),
    (refl, refl, refl, (say "b", refl, say-Succeeds chain "b"), ("__end__", (λ state. refl), refl)),
  ),
)

chain-enough : 2 ≤ chain.max_iterations
unfolding new_graph add_node add_edge add_conditional_edges
chain-enough = omega arith

chain-termination : chain.termination ≡ none
unfolding new_graph add_node add_edge add_conditional_edges
chain-termination = refl

astream-Route_example :
    (done : Run String ℕ) × (astream outside chain default_policy blank no_world ≡ ok done)
    × (map (λ p. p.0) (ended done.events) ≡ "a" ∷ "b" ∷ [])
    × (done.iterations ≡ 2)
astream-Route_example =
    astream-Route outside chain default_policy blank no_world ("a" ∷ "b" ∷ []) chain-termination
      chain-Route chain-enough refl refl

-- Two branches and a join node.
abbrev fan : Graph String ℕ
fan = add_join_node outside "j" ("b" ∷ "c" ∷ []) "__end__" none (
    add_parallel_fanout "a" ("b" ∷ "c" ∷ []) "j" (
      add_node "c" (say "c")
        (add_node "b" (say "b") (add_node "a" (say "a") (new_graph "g" "a" none 10 deep_merging)))))

abbrev empty_graph : ExecutionGraphModel String
empty_graph = record {
  graph_id = "g";
  session_id = "default";
  seed = none;
  mode = "normal";
  node_records = [];
  edge_records = [];
}

abbrev value {ℓ} : {A : Type ℓ} → Result A → A → A
value (ok x) other = x
value (raise e) other = other

abbrev idle : Run String ℕ
idle = record {
  state = blank;
  policy = default_policy;
  env = no_world;
  sequence = 0;
  edge_sequence = 0;
  iterations = 0;
  events = [];
}

-- What the graph of the run has recorded, and what the graph of the final state has.
abbrev recorded_ids : ℕ → Run String ℕ → List String
recorded_ids ref run = elim (graph_at ref run.env.graphs) [
  | none ↦ []
  | some graph ↦ map (λ (r : NodeExecutionRecord String). r.node_id) graph.node_records
]

abbrev ref_or : Option ℕ → ℕ
ref_or none = 0
ref_or (some ref) = ref

abbrev fan_run : Run String ℕ
fan_run = value (astream outside fan default_policy blank no_world) idle

abbrev both : ParallelFanOut
both = record { source = "a"; branches = "b" ∷ "c" ∷ []; join_node = "j" }

-- The run at the fan-out, when its source has ended.
abbrev at_source : Run String ℕ
at_source = record idle { sequence = 1; env = record no_world { graphs = empty_graph ∷ [] } }

abbrev after_both : Run String ℕ
after_both = value (run_fanout outside fan 0 both at_source) idle

-- Both branches start, and the second one ends first. The nodes as they ended, the messages of the
-- merged state, and the records of the nodes: the merge gives the state a new execution graph, so that
-- the join is recorded in that of the run alone. The others say that the fan-out returns and has
-- recorded its nodes, and that the run returns.
fan_runs :
    (map (λ p. p.0) (ended fan_run.events) ≡ "a" ∷ "c" ∷ "b" ∷ "j" ∷ [])
    × (fan_run.state.messages ≡ "a" ∷ "b" ∷ "c" ∷ [])
    × (recorded_ids 0 fan_run ≡ "a" ∷ "c" ∷ "b" ∷ "j" ∷ [])
    × (recorded_ids (ref_or fan_run.state.execution_graph) fan_run ≡ "a" ∷ "b" ∷ "c" ∷ [])
    × (run_fanout outside fan 0 both at_source ≡ ok after_both)
    × (recorded_ids 0 after_both ≡ "c" ∷ "b" ∷ "j" ∷ [])
    × (astream outside fan default_policy blank no_world ≡ ok fan_run)
unfolding kind_value first_from new_graph add_node edges_of add_conditional_edges add_edge
    add_loop_edge add_branch_edges add_parallel_fanout join_pass join_fn add_join_node fan_out_for
    matches first_match resolve_next match_in matched_edge mode_value from_index record_for
    with_replay replay_records next_replay_record peek_replay_record maybe_pause copy_of
    replay_output replay_body skip_record called_body node_body snapshot_if recorded_for node_record
    close_node begin_node finish_node execute_fn execute_if execute_node add_edge_at after_node
    run_node_as run_node add_branch_records add_join_records merge_label on_copy take_at task_if
    start_branch finish_branch start_next finish_at turn_by turn run_turns run_branches
    merge_branches join_if run_join close_fanout announce start_fanout run_fanout or_end source_if
    run_source after_join next_round follow one_round must_stop stop_early run_loop
    new_execution_graph run_graph start_run astream invoke ended get_version ensure_store
    add_version diff_from parent_of new_version commit_as commit append_message log_graph summary_of
    snapshot_of hash_state apply_snapshot or_null entries value_at changed snapshot_diff
    compute_state_delta add_node_record add_edge_record graph_at change_at allocate dedupe_from
    dedupe_list has_pair has_edge differ new_nodes merge_graphs merge_found merge_execution_graphs
    merge_stores merge_version_stores deep_merge merge_lists detect_conflicts merge_pair
    merge_states has_name find assign discard update decimal numbered select insert_sorted sort
fan_runs = (refl, refl, refl, refl, refl, refl, refl)

astream-InOrder_example :
    (fan_run.iterations ≤ fan.max_iterations)
    × (order : List (String × ℕ)) × Perm (ended fan_run.events) order
    × Ascends 0 order fan_run.sequence
astream-InOrder_example =
    astream-InOrder outside fan default_policy blank no_world fan_run fan_runs.6

add_parallel_fanout-routes_example :
    ((state : AgentState String)
      → resolve_next "a" state (add_parallel_fanout "a" ("b" ∷ "c" ∷ []) "j" chain)
        ≡ resolve_next "a" state chain)
    × ((name : String)
        → fan_out_for name (add_parallel_fanout "a" ("b" ∷ "c" ∷ []) "j" chain)
          ≡ elim (fan_out_for name chain) [
            | none ↦ if str_eq "a" name then some both else none
            | some old ↦ some old
          ])
add_parallel_fanout-routes_example =
    add_parallel_fanout-routes "a" "j" ("b" ∷ "c" ∷ []) chain (unfold has_name in refl)

-- A recorded run of the chain, and its replay.
abbrev recorded_snapshot : Snapshot String
recorded_snapshot = record (snapshot_of outside blank) { messages = "recorded" ∷ [] }

abbrev a_record : NodeExecutionRecord String
a_record = record {
  node_id = "a";
  sequence = 0;
  input_state_hash = "";
  output_state_hash = "";
  state_delta = [];
  input_state_snapshot = none;
  output_state_snapshot = some recorded_snapshot;
  replayed = false;
  status = "completed";
}

abbrev recorded_env : Env String ℕ
recorded_env = record {
  world = 7;
  graphs = record empty_graph { node_records = a_record ∷ [] } ∷ [];
}

abbrev replaying : ExecutionPolicy String ℕ
replaying = with_replay 0 default_policy

execute_node-replayed_example :
    (result : AgentState String × ExecutionPolicy String ℕ × Env String ℕ) × (execute_node outside
        chain 0 "a" 0 blank replaying recorded_env
      ≡ ok result)
    × (result.2.world ≡ 8)
    × (note : GraphTraceEntry String) × (snapshot_of outside result.0 ≡ record recorded_snapshot {
      memory = discard "compiled_plan_graph" recorded_snapshot.memory;
      graph_trace = recorded_snapshot.graph_trace ++ (note ∷ []);
      state_version_id = some "v7";
      plan_state = summary_of outside none;
    })
unfolding numbered decimal with_replay
execute_node-replayed_example =
    execute_node-replayed outside chain 0 (say "a") "a" 0 blank replaying recorded_env a_record
      recorded_snapshot
      (unfold new_graph add_node add_edge add_conditional_edges assign find in refl) refl refl
      (unfold peek_replay_record record_for replay_records graph_at from_index in refl)
      (unfold hash_state snapshot_of in refl) refl

version_text_apart : (a b : Option String) → version_text a ≡ version_text b → a ≡ b
version_text_apart none none h = refl
version_text_apart none (some b) h = cc
version_text_apart (some a) none h = cc
version_text_apart (some a) (some b) h = cc

-- The second node of the recorded run had another version id.
abbrev later_record : NodeExecutionRecord String
later_record = record a_record {
  node_id = "b";
  input_state_hash = hash_state outside (record blank { state_version_id = some "v0" });
}

replay_output-version_example :
    replay_output
      (some later_record)
      (hash_state outside (record blank { state_version_id = some "v7" }))
    ≡ none
replay_output-version_example =
    replay_output-version outside chain 0
      (λ (a b : Snapshot String) e. version_text_apart a.state_version_id b.state_version_id e)
      later_record (record blank { state_version_id = some "v7" })
      (record blank { state_version_id = some "v0" }) refl (ground (arith, eq_iff "v7" "v0"))
