-- ===== src/Replanning/Apply.antt =====
-- plan/replanning_controller.py: _try_apply_replan_steps and what it calls.
use trip_graph_agent_runtime.Prelude.{
  ℕ, String, Bool, true, false, not, ◌||◌, Option, none, some, List, [], ◌∷◌, ◌++◌, map, elem,
  select, is_empty, ◌==◌, if◌then◌else◌, str_eq,
}
use trip_graph_agent_runtime.Prelude.Dict.{Dict}
use trip_graph_agent_runtime.Schema.{StepStatus, PlanStep}
use trip_graph_agent_runtime.State.{PlanState, finished_step_ids}
use trip_graph_agent_runtime.State.Replan.{
  same_content, apply_replanned_steps, restore_completed_step_snapshots, remap_step_status,
}
use trip_graph_agent_runtime.Validator.{validate}
use trip_graph_agent_runtime.Repair.{RepairResult, repair_plan, repair_steps}
use trip_graph_agent_runtime.PlanGraph.{index_steps}
use trip_graph_agent_runtime.Replanning.{
  Complaint, invalid, removed, modified, ReplanApplyMeta, Held, write_back, set_plan, set_statuses,
  set_remapped,
}

-- next((s for s in steps if s.id == step_id), None)
unfoldable pub first_step : ℕ → List PlanStep → Option PlanStep
first_step k [] = none
first_step k (s ∷ rest) = if s.id == k then some s else first_step k rest

-- Some step has the task.
unfoldable pub has_task : String → List PlanStep → Bool
has_task task [] = false
has_task task (s ∷ rest) = str_eq s.task task || has_task task rest

-- The body of the loop of _assert_completed_steps_preserved: what it raises, if anything.
unfoldable pub complaint_at : List PlanStep → ℕ → PlanStep → Option Complaint
unfolding first_step has_task same_content
complaint_at steps k original = elim (first_step k steps) [
  | none ↦ if has_task original.task steps then none else some (removed k)
  | some s ↦ if same_content s original then none else some (modified k)
]

-- _assert_completed_steps_preserved
unfoldable pub assert_completed_steps_preserved : List PlanStep → Dict PlanStep → Option Complaint
unfolding complaint_at
assert_completed_steps_preserved steps [] = none
assert_completed_steps_preserved steps ((k, original) ∷ snapshots) =
    let later = assert_completed_steps_preserved steps snapshots in
    elim (complaint_at steps k original) [ none ↦ later | some c ↦ some c ]

module _ {Json Context : Type 0} where
  -- _completed_step_snapshot
  unfoldable pub completed_step_snapshot : PlanState Json Context → Dict PlanStep
  unfolding finished_step_ids index_steps
  completed_step_snapshot s =
      index_steps [] (select (λ step. elem step.id (finished_step_ids s)) s.plan.steps)

  -- The part of _validate_or_repair_plan that puts the repaired plan into the state.
  unfoldable pub adopt_repair :
      RepairResult → Dict StepStatus → Held Json Context → Held Json Context
  unfolding set_plan set_remapped set_statuses remap_step_status
  adopt_repair repair pre_apply_status h =
      let planned = set_plan repair.plan h in
      if is_empty repair.id_map
      then set_statuses pre_apply_status planned
      else set_remapped (remap_step_status planned.state repair.id_map) planned

  -- _validate_or_repair_plan
  unfoldable pub validate_or_repair_plan :
      List String
      → Dict StepStatus
      → ReplanApplyMeta
      → Held Json Context
      → Bool × ReplanApplyMeta × Held Json Context
  unfolding validate repair_plan adopt_repair
  validate_or_repair_plan available pre_apply_status meta h =
      let report = validate available h.state.plan in
      let repair = repair_plan h.state.plan in
      let adopted = adopt_repair repair pre_apply_status h in
      let again = validate available adopted.state.plan in
      let noted = record meta {
        repair_applied = true;
        repair_notes = meta.repair_notes ++ repair.notes;
      } in
      if report.success
      then (true, meta, h)
      else if not repair.repaired
      then (false, record meta { validation_errors = map invalid report.errors }, h)
      else if again.success
      then (true, record noted { validation_errors = [] }, adopted)
      else (false, record noted { validation_errors = map invalid again.errors }, adopted)

  -- The end of _try_apply_replan_steps, once the plan is valid.
  unfoldable pub keep_completed :
      Dict PlanStep
      → ReplanApplyMeta
      → Held Json Context
      → Bool × ReplanApplyMeta × Held Json Context
  unfolding restore_completed_step_snapshots write_back assert_completed_steps_preserved
  keep_completed completed_before meta h =
      let (restored, overrides) = restore_completed_step_snapshots h.state completed_before in
      let h' = write_back h restored in
      let meta' = if is_empty overrides then meta else record meta {
        completed_step_overrides = meta.completed_step_overrides ++ overrides;
        repair_applied = true;
      } in
      elim (assert_completed_steps_preserved restored.plan.steps completed_before) [
        | none ↦ (true, meta', h')
        | some c ↦ (false, record meta' { validation_errors = c ∷ [] }, h')
      ]

  -- _try_apply_replan_steps
  unfoldable pub try_apply_replan_steps :
      List String
      → List PlanStep
      → Dict PlanStep
      → ReplanApplyMeta
      → Held Json Context
      → Bool × ReplanApplyMeta × Held Json Context
  unfolding repair_steps apply_replanned_steps write_back validate_or_repair_plan keep_completed
  try_apply_replan_steps available new_steps completed_before meta h =
      let repair = repair_steps new_steps in
      let steps = if repair.repaired then repair.plan.steps else new_steps in
      let noted =
        if repair.repaired
        then record meta { repair_applied = true; repair_notes = meta.repair_notes ++ repair.notes }
        else meta in
      let applied = write_back h (apply_replanned_steps h.state steps) in
      let (sound, meta', h') =
        validate_or_repair_plan available h.state.step_status noted applied in
      if sound then keep_completed completed_before meta' h' else (false, meta', h')
