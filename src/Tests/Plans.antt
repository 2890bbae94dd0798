-- ===== src/Tests/Plans.antt =====
-- The validator, the repairs and the plan's state on the samples.
use trip_graph_agent_runtime.Prelude.Text.{is_space, strip_left, strip, is_blank}
use trip_graph_agent_runtime.Prelude.{
  ℕ, ◌≡◌, refl, ◌≢◌, ◌↔◌, ◌⊎◌, inl, inr, String, Bool, true, false, none, some, [], ◌∷◌, elem, All,
  Distinct, range, length, ◌<◌, arith, list_eq, all_true, select,
}
use trip_graph_agent_runtime.Prelude.Dict.{lookup, keys, insert}
use trip_graph_agent_runtime.Prelude.Sort.{sort, insert_sorted}
use trip_graph_agent_runtime.Errors.{ok}
use trip_graph_agent_runtime.Schema.{pending, completed, PlanStep, deps_of, is_pending, is_finished}
use trip_graph_agent_runtime.State.{
  PlanState, ids, find_step, get_step_status, dependencies_met, next_executable_step,
  all_steps_finished, remove_first, first_ready_in, visit_step, status_in, deps_met_in, find_in,
  finished_in, sorted_steps,
}
use trip_graph_agent_runtime.State.Replan.{apply_replanned_steps, hint_eq}
use trip_graph_agent_runtime.State.Lookup.{finished_at}
use trip_graph_agent_runtime.State.Schedule.{IsSettled, HasPriorDeps}
use trip_graph_agent_runtime.State.Progress.{IsReady, next_executable_step-progress}
use trip_graph_agent_runtime.State.Choice.{next_executable_step-least}
use trip_graph_agent_runtime.State.Kept.{apply_replanned_steps-keeps}
use trip_graph_agent_runtime.Validator.{
  validate, search_cycle, elem_text, blank_tasks, validate_structure, validate_step_id_continuity,
  duplicates_from, validate_duplicate_step_ids, dependency_errors, validate_dependencies_exist,
  build_graph, visit_all, leave, neighbors, dfs, any_cycle, validate_dependency_cycles,
  validate_tool_hints, content_errors,
}
use trip_graph_agent_runtime.Validator.Search.{search_cycle_total}
use trip_graph_agent_runtime.Validator.Accepts.{IsValidPlan, validate_iff}
use trip_graph_agent_runtime.Repair.{
  normalize_plan, renumber_steps, remove_duplicate_steps, repair_plan, prefer_tool_execution_order,
  number_from, remap_step, id_map_of, key_of, elem_key, key_eq, dedup_from, new_id_of,
}
use trip_graph_agent_runtime.Repair.Renumber.{renumber_steps-ids_iff, renumber_steps-prior}
use trip_graph_agent_runtime.Repair.Order.{renumber_steps-prefer}
use trip_graph_agent_runtime.Repair.Dedup.{AreNew, remove_duplicate_steps_idem}
use trip_graph_agent_runtime.PlanGraph.{index_steps}
use trip_graph_agent_runtime.Levels.{
  Leveled, topological_levels, levels_from, add_level, is_ready, topological_levels-Leveled,
}
use trip_graph_agent_runtime.Repair.Valid.{repair_plan-validates}
use trip_graph_agent_runtime.Repair.Normal.{normalize_plan-validates}
use trip_graph_agent_runtime.Executor.{Context}
use trip_graph_agent_runtime.Tests.Samples.{
  route_step, weather_step, trip, untidy, cyclic_steps, under_way,
}

pub validate-trip : (validate ("weather" ∷ []) trip).success ≡ true
unfolding validate elem_text blank_tasks validate_structure validate_step_id_continuity
    duplicates_from validate_duplicate_step_ids dependency_errors validate_dependencies_exist
    build_graph visit_all leave neighbors dfs any_cycle search_cycle validate_dependency_cycles
    validate_tool_hints content_errors elem list_eq lookup insert insert_sorted sort is_space
    strip_left strip is_blank deps_of remove_first
validate-trip = refl

validate-unregistered : (validate [] trip).success ≡ false
unfolding validate elem_text blank_tasks validate_structure validate_step_id_continuity
    duplicates_from validate_duplicate_step_ids dependency_errors validate_dependencies_exist
    build_graph visit_all leave neighbors dfs any_cycle search_cycle validate_dependency_cycles
    validate_tool_hints content_errors elem list_eq lookup insert insert_sorted sort is_space
    strip_left strip is_blank deps_of remove_first
validate-unregistered = refl

search_cycle-cyclic : search_cycle cyclic_steps ≡ some true
unfolding search_cycle visit_all leave neighbors dfs any_cycle build_graph elem lookup insert
    deps_of remove_first
search_cycle-cyclic = refl

repair_plan-untidy : ids (repair_plan untidy).plan.steps ≡ 1 ∷ 2 ∷ []
unfolding repair_plan number_from remap_step id_map_of renumber_steps key_of elem_key dedup_from
    remove_duplicate_steps sorted_steps new_id_of sort insert_sorted list_eq is_space strip_left
    strip hint_eq key_eq lookup insert
repair_plan-untidy = refl

next-under_way : next_executable_step under_way ≡ ok (some 2)
unfolding next_executable_step first_ready_in visit_step status_in deps_met_in find_in finished_in
    sorted_steps sort insert_sorted is_pending is_finished lookup deps_of all_true elem select
next-under_way = refl

validate_iff_example :
    ((validate ("weather" ∷ []) trip).success ≡ true) ↔ IsValidPlan ("weather" ∷ []) trip
validate_iff_example = validate_iff ("weather" ∷ []) trip

search_cycle_total_example : (b : Bool) × (search_cycle cyclic_steps ≡ some b)
search_cycle_total_example = search_cycle_total cyclic_steps

untidy-Distinct : Distinct (ids untidy.steps)
unfolding elem
untidy-Distinct = (refl, (refl, tt))

repair_plan-validates_example :
    (validate ("weather" ∷ "map" ∷ []) (repair_plan untidy).plan).success ≡ true
unfolding is_blank elem_text
repair_plan-validates_example =
    repair_plan-validates ("weather" ∷ "map" ∷ []) untidy refl refl (refl, (refl, tt))
      (refl, (refl, tt)) untidy-Distinct

renumber_steps-ids_iff_example :
    (ids (renumber_steps untidy.steps).0 ≡ range 1 (length untidy.steps))
    ↔ Distinct (ids untidy.steps)
renumber_steps-ids_iff_example = renumber_steps-ids_iff untidy.steps

renumber_steps-prior_example :
    All (HasPriorDeps (renumber_steps untidy.steps).0) (renumber_steps untidy.steps).0
renumber_steps-prior_example = renumber_steps-prior untidy.steps untidy-Distinct

renumber_steps-prefer_example :
    ((renumber_steps (prefer_tool_execution_order untidy.steps).0).0
      ≡ (renumber_steps untidy.steps).0)
    × ((renumber_steps (prefer_tool_execution_order untidy.steps).0).1
        ≡ (renumber_steps untidy.steps).1)
renumber_steps-prefer_example = renumber_steps-prefer untidy.steps untidy-Distinct

remove_duplicate_steps_idem_example :
    AreNew [] (remove_duplicate_steps (weather_step ∷ weather_step ∷ [])).0
    × (remove_duplicate_steps (remove_duplicate_steps (weather_step ∷ weather_step ∷ [])).0
        ≡ ((remove_duplicate_steps (weather_step ∷ weather_step ∷ [])).0, []))
remove_duplicate_steps_idem_example = remove_duplicate_steps_idem (weather_step ∷ weather_step ∷ [])

under_way_unique : Distinct (keys under_way.step_status)
unfolding elem
under_way_unique = (refl, (refl, tt))

trip-Distinct : Distinct (ids trip.steps)
unfolding elem
trip-Distinct = (refl, (refl, tt))

under_way-IsReady : IsReady under_way
unfolding lookup is_pending is_finished deps_of elem
under_way-IsReady = record {
  unique = under_way_unique;
  prior = (tt, (((omega arith, refl), tt), tt));
  settled = ((completed, refl, inr refl), ((pending, refl, inl refl), tt));
}

next_executable_step-progress_example :
    ((k : ℕ) × (next_executable_step under_way ≡ ok (some k))
      × (lookup k under_way.step_status ≡ some pending)
      × (elem k (ids under_way.plan.steps) ≡ true))
    ⊎ ((next_executable_step under_way ≡ ok none) × (all_steps_finished under_way ≡ ok true))
next_executable_step-progress_example = next_executable_step-progress under_way under_way-IsReady

next_executable_step-least_example :
    (elem 2 (ids trip.steps) ≡ true)
    × (get_step_status under_way 2 ≡ ok pending)
    × ((t : PlanStep)
        → find_step under_way 2 ≡ ok t
        → All (λ x. finished_at under_way.step_status x ≡ true) (deps_of t))
    × ((j : ℕ)
        → elem j (ids trip.steps) ≡ true
        → j < 2
        → get_step_status under_way j ≡ ok pending
        → dependencies_met under_way j ≢ ok true)
next_executable_step-least_example =
    next_executable_step-least under_way 2 under_way_unique next-under_way

abbrev pub replanned : PlanState String (Context String)
replanned = apply_replanned_steps under_way (weather_step ∷ [])

apply_replanned_steps-keeps_example :
    Distinct (keys replanned.step_status)
    × Distinct (ids replanned.plan.steps)
    × All (λ step. IsSettled replanned.step_status step.id) replanned.plan.steps
    × ((k : ℕ)
        → finished_at under_way.step_status k ≡ true
        → lookup k replanned.step_status ≡ lookup k under_way.step_status)
apply_replanned_steps-keeps_example =
    apply_replanned_steps-keeps under_way (weather_step ∷ []) under_way_unique trip-Distinct

normalize_plan-validates_example :
    (validate ("weather" ∷ "map" ∷ []) (normalize_plan untidy).plan).success ≡ true
unfolding is_blank elem_text
normalize_plan-validates_example =
    normalize_plan-validates ("weather" ∷ "map" ∷ []) untidy refl refl
      ((refl, refl), ((refl, refl), tt)) untidy-Distinct

topological_levels-trip :
    topological_levels trip ≡ some ((weather_step ∷ []) ∷ (route_step ∷ []) ∷ [])
unfolding topological_levels levels_from add_level is_ready index_steps insert sort insert_sorted
    select all_true elem deps_of
topological_levels-trip = refl

topological_levels-Leveled_example : Leveled [] (topological_levels trip)
topological_levels-Leveled_example = topological_levels-Leveled trip
