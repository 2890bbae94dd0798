-- ===== src/Tests/Compiles.antt =====
-- The graph of a small plan, and its run.
use trip_graph_agent_runtime.Engine.{
  kind_value, first_from, new_graph, add_node, edges_of, add_conditional_edges, add_edge,
  add_loop_edge, add_branch_edges, add_parallel_fanout, join_pass, join_fn, add_join_node,
  fan_out_for, matches, first_match, resolve_next, match_in, matched_edge,
}
use trip_graph_agent_runtime.Engine.Policy.{
  mode_value, from_index, record_for, with_replay, replay_records, next_replay_record,
  peek_replay_record, maybe_pause,
}
use trip_graph_agent_runtime.Engine.Node.{
  copy_of, replay_output, replay_body, skip_record, called_body, node_body, snapshot_if,
  recorded_for, node_record, close_node, execute_fn, begin_node, finish_node, execute_if,
  execute_node,
}
use trip_graph_agent_runtime.Engine.Run.{add_edge_at, after_node, run_node_as, run_node}
use trip_graph_agent_runtime.Engine.Fanout.{
  add_branch_records, add_join_records, merge_label, on_copy, take_at, task_if, start_branch,
  finish_branch, start_next, finish_at, turn_by, turn, run_turns, run_branches, merge_branches,
  join_if, run_join, close_fanout, announce, start_fanout, run_fanout,
}
use trip_graph_agent_runtime.Engine.Loop.{
  or_end, source_if, run_source, after_join, next_round, follow, one_round, must_stop, stop_early,
  run_loop, new_execution_graph, run_graph, start_run, astream, invoke,
}
use trip_graph_agent_runtime.Engine.Trace.{ended}
use trip_graph_agent_runtime.Versions.{
  get_version, ensure_store, add_version, diff_from, parent_of, new_version, commit_as, commit,
}
use trip_graph_agent_runtime.AgentState.{
  append_message, log_graph, summary_of, snapshot_of, hash_state, apply_snapshot,
}
use trip_graph_agent_runtime.AgentState.Delta.{
  or_null, entries, value_at, changed, snapshot_diff, compute_state_delta,
}
use trip_graph_agent_runtime.ExecutionGraph.{
  add_node_record, add_edge_record, graph_at, change_at, allocate,
}
use trip_graph_agent_runtime.Merge.{
  dedupe_from, dedupe_list, has_pair, has_edge, differ, new_nodes, merge_graphs, merge_found,
  merge_execution_graphs, merge_stores, merge_version_stores, deep_merge, merge_lists,
  detect_conflicts, merge_pair, merge_states,
}
use trip_graph_agent_runtime.Prelude.Names.{has_name, find, assign, discard, update}
use trip_graph_agent_runtime.Prelude.Decimal.{decimal, numbered}
use trip_graph_agent_runtime.Prelude.{
  ℕ, suc, ◌≡◌, refl, String, Option, none, some, List, [], ◌∷◌, map, select, All,
}
use trip_graph_agent_runtime.Prelude.Sort.{insert_sorted, sort}
use trip_graph_agent_runtime.Errors.{Result, ok, raise}
use trip_graph_agent_runtime.Prelude.Dict.{insert}
use trip_graph_agent_runtime.Prelude.{all_true, elem}
use trip_graph_agent_runtime.Schema.{PlanStep, Plan, deps_of, retry}
use trip_graph_agent_runtime.PlanGraph.{index_steps}
use trip_graph_agent_runtime.Levels.{is_ready, add_level, levels_from, topological_levels}
use trip_graph_agent_runtime.AgentState.{AgentState, Outside}
use trip_graph_agent_runtime.ExecutionGraph.{Graphs}
use trip_graph_agent_runtime.Merge.{deep_merging}
use trip_graph_agent_runtime.Merge.PlanStates.{merge_states-plan_state}
use trip_graph_agent_runtime.Engine.{Graph, Env}
use trip_graph_agent_runtime.Engine.Policy.{default_policy}
use trip_graph_agent_runtime.Engine.Run.{Run}
use trip_graph_agent_runtime.Compiler.{
  PlanWorld, StepParts, text_take, step_node_id, join_id, rounds_for, next_after_join, level_ids,
  add_level_edges, wire_levels, plan_finished, entry_node, sink_node, make_step_node,
  add_step_nodes, entry_graph, bare_graph, compile,
}
use trip_graph_agent_runtime.Compiler.Wiring.{is_wide, branches_of}
use trip_graph_agent_runtime.Compiler.Compiled.{HasNode, compile-wires}
use trip_graph_agent_runtime.Tests.Samples.{demo, under_way, config_for}
use trip_graph_agent_runtime.Tests.States.{outside, blank}

abbrev shared_outside : Outside String (PlanWorld demo)
shared_outside = record {
  new_id = λ shared. (numbered "v" shared.world, record shared { world = suc shared.world });
  seed_random = λ seed shared. shared;
  next_turn = λ shared running. 0;
  digest = outside.digest;
  same = outside.same;
  text_of = outside.text_of;
  summary = outside.summary;
  null = outside.null;
  flag = outside.flag;
  number = outside.number;
  text = outside.text;
  array = outside.array;
  object = outside.object;
  trace_entry = outside.trace_entry;
}

abbrev parts : StepParts demo
parts = record {
  read_plan_state = λ json. under_way;
  write_plan_state = λ s. s.plan.goal;
  write_plan = λ plan. plan.goal;
  write_trace = λ entry. "entry";
  store_output = λ outputs k output. output;
  router_node = λ state env. ok (state, env);
}

abbrev step : ℕ → List ℕ → PlanStep
step k deps = record { id = k; task = "task"; tool_hint = none; dependency = some deps }

-- Two levels of two steps, one after the other.
abbrev wide_plan : Plan
wide_plan = record {
  goal = "trip";
  steps = step 1 [] ∷ step 2 [] ∷ step 3 (1 ∷ []) ∷ step 4 (1 ∷ 2 ∷ []) ∷ [];
}

abbrev graph_or : Option (Graph String (PlanWorld demo)) → Graph String (PlanWorld demo)
graph_or none = new_graph "" "" none 0 deep_merging
graph_or (some graph) = graph

abbrev wide_graph : Graph String (PlanWorld demo)
wide_graph = graph_or (compile demo (config_for retry) shared_outside parts deep_merging wide_plan)

abbrev nothing : Env String (PlanWorld demo)
nothing = record { world = record { world = 0; graph = none; replan_attempts = 0 }; graphs = [] }

abbrev ended_ids : Result (Run String (PlanWorld demo)) → List String
ended_ids (ok run) = map (λ p. p.0) (ended run.events)
ended_ids (raise e) = []

-- Both levels have a fan-out. The join of the first one runs inside that fan-out, after which the
-- run goes on at the first step of the second level: its other step is never reached.
wide_runs :
    (branches_of shared_outside wide_graph
      ≡ ("step_1" ∷ "step_2" ∷ []) ∷ ("step_3" ∷ "step_4" ∷ []) ∷ [])
    × (ended_ids (astream shared_outside wide_graph default_policy blank nothing)
        ≡ "plan_entry" ∷ "step_2" ∷ "step_1" ∷ "plan_join_0" ∷ "step_3" ∷ "plan_join_1"
          ∷ "plan_sink" ∷ [])
unfolding kind_value first_from new_graph add_node edges_of add_conditional_edges add_edge
    add_loop_edge add_branch_edges add_parallel_fanout join_pass join_fn add_join_node fan_out_for
    matches first_match resolve_next match_in matched_edge mode_value from_index record_for
    with_replay replay_records next_replay_record peek_replay_record maybe_pause copy_of
    replay_output replay_body skip_record called_body node_body snapshot_if recorded_for node_record
    close_node begin_node finish_node execute_fn execute_if execute_node add_edge_at after_node
    run_node_as run_node add_branch_records add_join_records merge_label on_copy take_at task_if
    start_branch finish_branch start_next finish_at turn_by turn run_turns run_branches
    merge_branches join_if run_join close_fanout announce start_fanout run_fanout or_end source_if
    run_source after_join next_round follow one_round must_stop stop_early run_loop
    new_execution_graph run_graph start_run astream invoke ended get_version ensure_store
    add_version diff_from parent_of new_version commit_as commit append_message log_graph summary_of
    snapshot_of hash_state apply_snapshot or_null entries value_at changed snapshot_diff
    compute_state_delta add_node_record add_edge_record graph_at change_at allocate dedupe_from
    dedupe_list has_pair has_edge differ new_nodes merge_graphs merge_found merge_execution_graphs
    merge_stores merge_version_stores deep_merge merge_lists detect_conflicts merge_pair
    merge_states has_name find assign discard update decimal numbered select insert_sorted sort
    compile bare_graph entry_graph add_step_nodes make_step_node sink_node entry_node plan_finished
    rounds_for text_take level_ids step_node_id join_id next_after_join add_level_edges wire_levels
    topological_levels levels_from is_ready add_level index_steps insert all_true deps_of elem
wide_runs = (refl, refl)

compile-wires_example :
    (levels : List (List PlanStep)) × (topological_levels wide_plan ≡ some levels)
    × (graph : Graph String (PlanWorld demo)) × (compile demo
          (config_for retry)
          shared_outside
          parts
          deep_merging
          wide_plan
        ≡ some graph)
    × (branches_of shared_outside graph ≡ map level_ids (select is_wide levels))
    × All (HasNode demo (config_for retry) shared_outside parts graph) wide_plan.steps
compile-wires_example =
    compile-wires demo (config_for retry) shared_outside parts deep_merging wide_plan

-- Two branches with plan states of their own.
abbrev first_branch : AgentState String
first_branch = record blank { plan_state = some "first" }

abbrev last_branch : AgentState String
last_branch = record blank { plan_state = some "last" }

abbrev both_merged : AgentState String × Graphs String
both_merged =
    let (one, graphs) = deep_merge outside blank first_branch [] in
    deep_merge outside one last_branch graphs

merge_states-plan_state_example : both_merged.0.plan_state ≡ some "last"
merge_states-plan_state_example =
    merge_states-plan_state outside deep_merging blank (first_branch ∷ []) last_branch []
      both_merged "last" (unfold merge_states merge_pair in refl) refl
