-- ===== src/Executor/Recovery.antt =====
-- plan/executor.py: _run_step_with_recovery and _handle_replan.
use trip_graph_agent_runtime.Prelude.{
  ℕ, zero, suc, ◌+◌, String, Bool, true, false, none, some, ltb, leb, if◌then◌else◌,
}
use trip_graph_agent_runtime.Prelude.Dict.{lookup}
use trip_graph_agent_runtime.Errors.{
  Result, ok, raise, agent_loop_error, service_error, step_failed, replan_exceeded, planner_missing,
  attempts_exhausted, ◌>>=◌,
}
use trip_graph_agent_runtime.Schema.{
  text_or, StepStatus, running, failed, skipped, PlanStep, StepResult, FailurePolicy, retry, skip,
  replan,
}
use trip_graph_agent_runtime.GraphSchema.{GraphNodeStatus}
use trip_graph_agent_runtime.State.{set_step_status, record_step_result, reset_step_for_retry}
use trip_graph_agent_runtime.State.Replan.{apply_replanned_steps}
use trip_graph_agent_runtime.Validator.{assert_valid}
use trip_graph_agent_runtime.PlanGraph.{rebuild_from_plan}
use trip_graph_agent_runtime.Executor.{Services, ExecutorConfig, Run, update_graph_node, sync_graph}
use trip_graph_agent_runtime.Executor.Step.{record_trace, merge_observation, execute_step}

unfoldable pub is_failed : StepStatus → Bool
is_failed failed = true
is_failed _ = false

module _ {Json : Type 0} (sv : Services Json) (cfg : ExecutorConfig) where
  open sv use {World, replan_unfinished_steps, maybe_compress}

  unfoldable pub max_attempts : ℕ
  max_attempts = elim cfg.failure_config.failure_policy [
    | retry ↦ 1 + cfg.failure_config.step_max_retries
    | _ ↦ 1
  ]

  -- The first lines of the loop: the step runs.
  unfoldable pub start_step : PlanStep → Run sv → Result (Run sv)
  unfolding update_graph_node set_step_status
  start_step step r =
      let current = record r.state { current_step = some step.id } in
      update_graph_node sv step.id GraphNodeStatus.running
        (record r { state = set_step_status current step.id running })

  -- state.record_step_result(result); self._record_trace(state, step, result)
  unfoldable pub store_result : PlanStep → StepResult Json → Run sv → Run sv
  unfolding record_step_result record_trace
  store_result step result r = record r {
    state = record_trace (record_step_result r.state result) step result none none;
  }

  -- The end of an attempt that did not fail.
  unfoldable pub finish_step : PlanStep → StepResult Json → Run sv → Result (Run sv)
  unfolding merge_observation
  finish_step step result r =
      let merged = record r.state {
        global_context = merge_observation step.id result r.state.global_context;
      } in
      let (context, world) = maybe_compress merged r.world in
      elim context [
        | none ↦ raise service_error
        | some ctx ↦ ok (record r {
          state = record merged { global_context = ctx; current_step = none };
          world = world;
        })
      ]

  -- The branch `policy == FailurePolicy.SKIP`.
  unfoldable pub skip_step : PlanStep → StepResult Json → Run sv → Run sv
  unfolding record_step_result record_trace
  skip_step step result r =
      let marked = record result { status = skipped; recovery_action = some "skip" } in
      let s =
        record_trace (record_step_result r.state marked) step marked (some "skip") (some skipped) in
      record r { state = record s { current_step = none } }

  -- state.reset_step_for_retry; self._update_graph_node(step.id, PENDING)
  unfoldable pub retry_step : PlanStep → Run sv → Result (Run sv)
  unfolding update_graph_node reset_step_for_retry
  retry_step step r =
      update_graph_node sv step.id GraphNodeStatus.pending
        (record r { state = reset_step_for_retry r.state step.id })

  -- The marker that _handle_replan leaves in the trace.
  mark_replan : PlanStep → Run sv → Run sv
  unfolding record_trace
  mark_replan step r = elim (lookup step.id r.state.step_results) [
    | none ↦ r
    | some result ↦
        let marked = record result { recovery_action = some "replan" } in
        record r { state = record_trace r.state step marked (some "replan") (some failed) }
  ]

  -- if self._validator: self._validator.assert_valid(state.plan)
  check_plan : Run sv → Result (Run sv)
  unfolding assert_valid
  check_plan r = elim cfg.validator [
    | none ↦ ok r
    | some available ↦ assert_valid available r.state.plan >>= λ _. ok r
  ]

  rebuild_graph : Run sv → Run sv
  rebuild_graph r = elim r.graph [
    | none ↦ r
    | some g ↦ record r { graph = some (rebuild_from_plan g r.state.plan) }
  ]

  -- _handle_replan
  handle_replan : PlanStep → String → Run sv → Result (Run sv)
  unfolding mark_replan check_plan rebuild_graph apply_replanned_steps sync_graph
  handle_replan step error r =
      let marked = mark_replan step r in
      let (new_steps, world) = replan_unfinished_steps marked.state step.id error marked.world in
      let applied : Result (Run sv) = elim new_steps [
        | none ↦ raise service_error
        | some steps ↦
            check_plan
              (record marked { state = apply_replanned_steps marked.state steps; world = world })
            >>= λ checked. sync_graph sv (rebuild_graph checked)
      ] in
      if cfg.has_planner then applied else raise (agent_loop_error planner_missing)

  -- The branch `policy == FailurePolicy.REPLAN`.
  replan_step : PlanStep → StepResult Json → Run sv → Result (Run sv)
  unfolding handle_replan text_or
  replan_step step result r =
      let counted = record r { replan_attempts = r.replan_attempts + 1 } in
      if leb cfg.failure_config.max_replan_attempts r.replan_attempts
      then raise (agent_loop_error (replan_exceeded step.id))
      else handle_replan step (text_or result.error "unknown error") counted >>= λ replanned.
          ok (record replanned { state = record replanned.state { current_step = none } })

  -- What follows a failed attempt: another one while there are `more`, or the end that the policy wants.
  unfoldable pub on_failure :
      FailurePolicy → Bool → (again failure skipped replanned : Result (Run sv)) → Result (Run sv)
  on_failure retry more again failure skipped_run replanned = if more then again else failure
  on_failure skip more again failure skipped_run replanned = skipped_run
  on_failure replan more again failure skipped_run replanned = replanned

  -- The loop over the attempts: `left` rounds are left, and `attempt` is the number of this one.
  unfoldable pub run_attempts : ℕ → ℕ → PlanStep → Run sv → Result (Run sv)
  unfolding start_step execute_step store_result finish_step skip_step retry_step replan_step
      max_attempts on_failure
  run_attempts zero attempt step r = raise (agent_loop_error (attempts_exhausted step.id))
  run_attempts (suc left) attempt step r = start_step step r >>= λ started.
      let (result, executed) = execute_step sv cfg step attempt started in
      let stored = store_result step result executed in
      let again = retry_step step stored >>= λ reset. run_attempts left (attempt + 1) step reset in
      let failure : Result (Run sv) = raise (agent_loop_error (step_failed step.id result.error)) in
      if is_failed result.status
      then on_failure cfg.failure_config.failure_policy (ltb attempt max_attempts) again failure
          (ok (skip_step step result stored)) (replan_step step result stored)
      else finish_step step result stored

  -- _run_step_with_recovery
  unfoldable pub run_step_with_recovery : PlanStep → Run sv → Result (Run sv)
  unfolding run_attempts
  run_step_with_recovery step r = run_attempts max_attempts 1 step r
