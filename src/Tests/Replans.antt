-- ===== src/Tests/Replans.antt =====
-- The replanning controller on the samples.
use trip_graph_agent_runtime.Prelude.{
  ℕ, ◌≡◌, refl, String, Bool, true, false, none, some, List, [], ◌∷◌, map, All, elem, list_eq,
  select, all_true,
}
use trip_graph_agent_runtime.Prelude.Dict.{Dict, lookup, insert, remove, remove_all, insert_all}
use trip_graph_agent_runtime.Prelude.Sort.{sort, insert_sorted}
use trip_graph_agent_runtime.Prelude.Text.{is_space, strip_left, strip, is_blank}
use trip_graph_agent_runtime.Schema.{
  StepStatus, pending, completed, PlanStep, deps_of, or_none, is_finished, is_completed, text_or,
}
use trip_graph_agent_runtime.State.{
  PlanState, finished_in, finished_step_ids, unfinished_in, unfinished_step_ids, status_in,
  append_trace, sorted_steps, remove_first,
}
use trip_graph_agent_runtime.State.Replan.{
  max_id, remap_from, hint_eq, same_content, restore_step, restore_steps, rename_keys, add_pending,
  apply_replanned_steps, restore_completed_step_snapshots, remap_step_status,
}
use trip_graph_agent_runtime.Validator.{
  elem_text, blank_tasks, validate_structure, validate_step_id_continuity, duplicates_from,
  validate_duplicate_step_ids, dependency_errors, validate_dependencies_exist, build_graph,
  visit_all, leave, neighbors, dfs, any_cycle, search_cycle, validate_dependency_cycles,
  validate_tool_hints, content_errors, validate,
}
use trip_graph_agent_runtime.Repair.{
  number_from, remap_deps, new_id_of, remap_step, remap_notes, is_renumbered, id_map_of,
  renumber_steps, key_of, key_eq, elem_key, dedup_from, remove_duplicate_steps, repair_plan,
  repair_steps,
}
use trip_graph_agent_runtime.PlanGraph.{index_steps}
use trip_graph_agent_runtime.Replanning.{
  new_meta, ReplanApplyMeta, Held, ExecutionCritique, ReplanningResult, snapshot_for_replan,
  write_back, restore_snapshot, set_plan, set_statuses, set_remapped,
}
use trip_graph_agent_runtime.Replanning.Apply.{
  first_step, has_task, complaint_at, assert_completed_steps_preserved, completed_step_snapshot,
  adopt_repair, validate_or_repair_plan, keep_completed, try_apply_replan_steps,
}
use trip_graph_agent_runtime.Replanning.Handle.{
  ReplanningConfig, Planner, Controlled, failed_ids, last_or_zero, join_text, build_replan_reason,
  replan_anchor_step_id, record_replan_trace, record_recovery_trace, no_replan, give_up, succeed,
  fall_back, use_steps, replan_now, handle,
}
use trip_graph_agent_runtime.Errors.{Result, ok, raise}
use trip_graph_agent_runtime.Executor.{Context}
use trip_graph_agent_runtime.Replanning.Restore.{restore_snapshot-undoes}
use trip_graph_agent_runtime.Replanning.Limit.{IsLimited, handle-IsLimited}
use trip_graph_agent_runtime.Replanning.Preserve.{IsRestored, is_there, keep_completed-restores}
use trip_graph_agent_runtime.Tests.Samples.{weather_step, under_way}

abbrev pub tools : List String
tools = "weather" ∷ []

abbrev walk_step : PlanStep
walk_step = record { id = 1; task = "walk"; tool_hint = none; dependency = none }

-- A step with a tool that is not registered.
abbrev sail_step : PlanStep
sail_step = record { id = 1; task = "sail"; tool_hint = some "boat"; dependency = none }

abbrev pub before : Dict PlanStep
before = (1, weather_step) ∷ []

abbrev pub applied : Bool × ReplanApplyMeta × Held String (Context String)
applied =
    try_apply_replan_steps tools (walk_step ∷ []) before (new_meta false)
      (snapshot_for_replan under_way)

applied-true : applied.0 ≡ true
unfolding elem list_eq select all_true lookup insert remove remove_all insert_all sort insert_sorted
    is_space strip_left strip is_blank deps_of or_none is_finished is_completed text_or finished_in
    finished_step_ids unfinished_in unfinished_step_ids status_in append_trace sorted_steps
    remove_first max_id remap_from hint_eq same_content restore_step restore_steps rename_keys
    add_pending apply_replanned_steps restore_completed_step_snapshots remap_step_status elem_text
    blank_tasks validate_structure validate_step_id_continuity duplicates_from
    validate_duplicate_step_ids dependency_errors validate_dependencies_exist build_graph visit_all
    leave neighbors dfs any_cycle search_cycle validate_dependency_cycles validate_tool_hints
    content_errors validate number_from remap_deps new_id_of remap_step remap_notes is_renumbered
    id_map_of renumber_steps key_of key_eq elem_key dedup_from remove_duplicate_steps repair_plan
    repair_steps index_steps snapshot_for_replan write_back restore_snapshot set_plan set_statuses
    set_remapped first_step has_task complaint_at assert_completed_steps_preserved
    completed_step_snapshot adopt_repair validate_or_repair_plan keep_completed
    try_apply_replan_steps failed_ids last_or_zero join_text build_replan_reason
    replan_anchor_step_id record_replan_trace record_recovery_trace no_replan give_up succeed
    fall_back use_steps replan_now handle
applied-true = refl

-- A plan in which the finished step was written anew.
abbrev overwritten : Held String (Context String)
overwritten = snapshot_for_replan (record under_way {
  plan = record under_way.plan {
    steps = record weather_step { task = "skip the weather" } ∷ walk_step ∷ [];
  };
})

keep_completed-restores_example :
    All
      (IsRestored overwritten.state.plan.steps
        (keep_completed before (new_meta false) overwritten).2.state.plan.steps)
      before
    × ((keep_completed before (new_meta false) overwritten).0
        ≡ all_true
            (is_there overwritten.state.plan.steps
              (keep_completed before (new_meta false) overwritten).2.state.plan.steps)
            before)
keep_completed-restores_example =
    keep_completed-restores before (new_meta false) overwritten (refl, tt)
      (unfold elem in (refl, tt))

restore_snapshot-undoes_example :
    (restore_snapshot
      (try_apply_replan_steps tools
        (sail_step ∷ [])
        before
        (new_meta false)
        (snapshot_for_replan under_way)).2).state
    ≡ under_way
restore_snapshot-undoes_example =
    restore_snapshot-undoes tools (sail_step ∷ []) before (new_meta false) under_way

abbrev config : ReplanningConfig
config = record {
  enabled = true;
  max_replan_attempts = 2;
  available = tools;
  join_notes = λ notes. "notes";
  join_errors = λ errors. "errors";
}

-- A planner that writes the same step both times.
abbrev planner_of : PlanStep → Planner String (Context String) ℕ
planner_of step = record {
  replan_from_critique = λ s critique anchor calls. (some (step ∷ []), calls);
  rulebased_replan_from_critique = λ s critique anchor calls. (some (step ∷ []), calls);
}

abbrev pub critique : ExecutionCritique
critique = record { score_text = "0.20"; critique = "poor"; need_replan = true; missing_info = [] }

abbrev tasks_after :
    Result (ReplanningResult × Controlled String (Context String) ℕ)
    → Bool × List String × Dict StepStatus
tasks_after (ok (result, c)) =
    (result.replanned, map (λ s. s.task) c.state.plan.steps, c.state.step_status)
tasks_after (raise e) = (false, [], [])

abbrev handled : PlanStep → PlanState String (Context String) → Bool × List String × Dict StepStatus
handled step s =
    tasks_after
      (handle config (planner_of step) critique (record { state = s; attempts = 0; world = 0 }))

-- Both attempts fail, and the state does not get its plan back: the second restore puts back objects
-- that the second attempt wrote into.
handle-sail :
    handled sail_step under_way
    ≡ (false, "ask the weather" ∷ "sail" ∷ [], (1, completed) ∷ (2, pending) ∷ [])
unfolding elem list_eq select all_true lookup insert remove remove_all insert_all sort insert_sorted
    is_space strip_left strip is_blank deps_of or_none is_finished is_completed text_or finished_in
    finished_step_ids unfinished_in unfinished_step_ids status_in append_trace sorted_steps
    remove_first max_id remap_from hint_eq same_content restore_step restore_steps rename_keys
    add_pending apply_replanned_steps restore_completed_step_snapshots remap_step_status elem_text
    blank_tasks validate_structure validate_step_id_continuity duplicates_from
    validate_duplicate_step_ids dependency_errors validate_dependencies_exist build_graph visit_all
    leave neighbors dfs any_cycle search_cycle validate_dependency_cycles validate_tool_hints
    content_errors validate number_from remap_deps new_id_of remap_step remap_notes is_renumbered
    id_map_of renumber_steps key_of key_eq elem_key dedup_from remove_duplicate_steps repair_plan
    repair_steps index_steps snapshot_for_replan write_back restore_snapshot set_plan set_statuses
    set_remapped first_step has_task complaint_at assert_completed_steps_preserved
    completed_step_snapshot adopt_repair validate_or_repair_plan keep_completed
    try_apply_replan_steps failed_ids last_or_zero join_text build_replan_reason
    replan_anchor_step_id record_replan_trace record_recovery_trace no_replan give_up succeed
    fall_back use_steps replan_now handle
handle-sail = refl

-- The steps 2 and 3 are completed and the step 1 is not.
abbrev gap : PlanState String (Context String)
gap = record under_way {
  plan = record {
    goal = "trip";
    steps =
        walk_step
        ∷ record { id = 2; task = "eat"; tool_hint = none; dependency = none }
        ∷ record { id = 3; task = "sleep"; tool_hint = none; dependency = none }
        ∷ [];
  };
  step_status = (1, pending) ∷ (2, completed) ∷ (3, completed) ∷ [];
}

-- The replan is applied, and its new step is lost: renumbering gives the new step an id of a completed
-- step, whose content is then put there.
handle-gap :
    handled (record { id = 1; task = "ride"; tool_hint = none; dependency = none }) gap
    ≡ (true, "eat" ∷ "eat" ∷ "sleep" ∷ [], (1, completed) ∷ (2, completed) ∷ (3, pending) ∷ [])
unfolding elem list_eq select all_true lookup insert remove remove_all insert_all sort insert_sorted
    is_space strip_left strip is_blank deps_of or_none is_finished is_completed text_or finished_in
    finished_step_ids unfinished_in unfinished_step_ids status_in append_trace sorted_steps
    remove_first max_id remap_from hint_eq same_content restore_step restore_steps rename_keys
    add_pending apply_replanned_steps restore_completed_step_snapshots remap_step_status elem_text
    blank_tasks validate_structure validate_step_id_continuity duplicates_from
    validate_duplicate_step_ids dependency_errors validate_dependencies_exist build_graph visit_all
    leave neighbors dfs any_cycle search_cycle validate_dependency_cycles validate_tool_hints
    content_errors validate number_from remap_deps new_id_of remap_step remap_notes is_renumbered
    id_map_of renumber_steps key_of key_eq elem_key dedup_from remove_duplicate_steps repair_plan
    repair_steps index_steps snapshot_for_replan write_back restore_snapshot set_plan set_statuses
    set_remapped first_step has_task complaint_at assert_completed_steps_preserved
    completed_step_snapshot adopt_repair validate_or_repair_plan keep_completed
    try_apply_replan_steps failed_ids last_or_zero join_text build_replan_reason
    replan_anchor_step_id record_replan_trace record_recovery_trace no_replan give_up succeed
    fall_back use_steps replan_now handle
handle-gap = refl

handle-IsLimited_example :
    IsLimited config
      (planner_of walk_step)
      (record { state = gap; attempts = 1; world = 0 })
      (handle config
        (planner_of walk_step)
        critique
        (record { state = gap; attempts = 1; world = 0 }))
handle-IsLimited_example =
    handle-IsLimited config (planner_of walk_step) critique
      (record { state = gap; attempts = 1; world = 0 })
