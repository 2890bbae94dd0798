-- ===== src/Tests/Runs.antt =====
-- The executor and the graph of the plan on the samples.
use trip_graph_agent_runtime.Prelude.Names.{assign}
use trip_graph_agent_runtime.Executor.Step.{
  execute_step, policy_fallback, tool_result, record_trace, merge_observation,
}
use trip_graph_agent_runtime.Prelude.Sort.{sort, insert_sorted}
use trip_graph_agent_runtime.Prelude.{
  ℕ, ◌≡◌, refl, true, Option, none, some, [], ◌∷◌, elem, arith, all_true, select,
}
use trip_graph_agent_runtime.Prelude.Dict.{Dict, lookup, insert, remove, remove_all, insert_all}
use trip_graph_agent_runtime.Errors.{Result, ok}
use trip_graph_agent_runtime.Schema.{
  text_or, StepStatus, pending, completed, skipped, PlanStep, retry, skip, deps_of, truthy,
  is_finished, is_terminal, is_completed, is_pending,
}
use trip_graph_agent_runtime.State
use trip_graph_agent_runtime.State.{
  PlanState, ids, status_in, find_in, finished_in, all_terminal_in, deps_met_in, visit_step,
  first_ready_in, sorted_steps, set_step_status, record_step_result, append_trace,
  reset_step_for_retry, find_step, next_executable_step, all_steps_finished, get_step_status,
  remove_first,
}
use trip_graph_agent_runtime.PlanGraph
use trip_graph_agent_runtime.PlanGraph.{
  PlanGraph, map_status, sync_from_state, index_steps, build_edges, set_node_status, sync_steps,
  snapshot_nodes,
}
use trip_graph_agent_runtime.PlanGraph.Sync.{sync_from_state-mirrors}
use trip_graph_agent_runtime.Executor.{Run, sync_graph, update_graph_node}
use trip_graph_agent_runtime.Executor.Recovery.{
  run_step_with_recovery, run_attempts, is_failed, max_attempts, start_step, store_result,
  finish_step, skip_step, retry_step, on_failure,
}
use trip_graph_agent_runtime.Executor.Loop.{execute, run_one, execute_loop, finish_run}
use trip_graph_agent_runtime.Executor.Ends.{IsFinalFor, execute-ends}
use trip_graph_agent_runtime.Tests.Plans.{validate-trip}
use trip_graph_agent_runtime.Tests.Samples.{
  trip, empty_context, under_way, demo, config_for, no_graph,
}

abbrev pub start : Run demo
start = record {
  state = State.from_plan trip "s" empty_context;
  graph = none;
  replan_attempts = 0;
  world = 0;
}

-- The statuses after a run, and the number of tool calls.
abbrev pub statuses : Option (Result (Run demo)) → Dict StepStatus × ℕ
statuses (some (ok r)) = (r.state.step_status, r.world)
statuses _ = ([], 0)

execute-retry :
    statuses (execute demo (config_for retry) 3 trip start)
    ≡ ((1, completed) ∷ (2, completed) ∷ [], 2)
unfolding execute sync_graph run_one execute_loop finish_run run_step_with_recovery run_attempts
    is_failed max_attempts start_step store_result finish_step skip_step retry_step on_failure
    update_graph_node execute_step policy_fallback tool_result text_or record_trace
    merge_observation assign status_in find_in finished_in all_terminal_in deps_met_in visit_step
    first_ready_in sorted_steps set_step_status record_step_result append_trace reset_step_for_retry
    find_step next_executable_step all_steps_finished get_step_status remove_first index_steps
    build_edges map_status set_node_status sync_steps sync_from_state snapshot_nodes lookup insert
    remove remove_all insert_all sort insert_sorted select all_true elem deps_of truthy is_finished
    is_terminal is_completed is_pending State.from_plan PlanGraph.from_plan
execute-retry = refl

execute-skip :
    statuses (execute demo (config_for skip) 3 trip start) ≡ ((1, skipped) ∷ (2, completed) ∷ [], 1)
unfolding execute sync_graph run_one execute_loop finish_run run_step_with_recovery run_attempts
    is_failed max_attempts start_step store_result finish_step skip_step retry_step on_failure
    update_graph_node execute_step policy_fallback tool_result text_or record_trace
    merge_observation assign status_in find_in finished_in all_terminal_in deps_met_in visit_step
    first_ready_in sorted_steps set_step_status record_step_result append_trace reset_step_for_retry
    find_step next_executable_step all_steps_finished get_step_status remove_first index_steps
    build_edges map_status set_node_status sync_steps sync_from_state snapshot_nodes lookup insert
    remove remove_all insert_all sort insert_sorted select all_true elem deps_of truthy is_finished
    is_terminal is_completed is_pending State.from_plan PlanGraph.from_plan
execute-skip = refl

execute-ends_example :
    (outcome : Result (Run demo)) × (execute demo (config_for retry) 3 trip start ≡ some outcome)
    × IsFinalFor demo (config_for retry) retry trip outcome
execute-ends_example =
    execute-ends demo (config_for retry) ("weather" ∷ []) trip "s" empty_context none 0 3 0
      validate-trip refl (omega arith)

sync_from_state-mirrors_example :
    (g' : PlanGraph) × (sync_from_state no_graph under_way ≡ ok g')
    × ((k : ℕ)
        → elem k (ids trip.steps) ≡ true
        → (step : PlanStep) × (lookup k g'.steps ≡ some step))
    × ((k : ℕ) (st : StepStatus)
        → elem k (ids trip.steps) ≡ true
        → lookup k under_way.step_status ≡ some st
        → lookup k g'.status ≡ some (map_status st))
sync_from_state-mirrors_example =
    sync_from_state-mirrors no_graph under_way
      (unfold lookup in ((completed, refl), ((pending, refl), tt)))
