-- ===== src/Executor/Attempts.antt =====
-- plan/executor.py: _run_step_with_recovery under the policies RETRY and SKIP.
use trip_graph_agent_runtime.Prelude.{
  ℕ, zero, suc, ◌+◌, ◌-◌, ◌≡◌, refl, sym, ap, subst, ◌⊎◌, inl, inr, ◌∙◌, String, Bool, true, false,
  ◌&&◌, ◌||◌, Option, some, ltb, Bool-cases, Option-cases, arith,
}
use trip_graph_agent_runtime.Prelude.Dict.{insert}
use trip_graph_agent_runtime.Errors.{
  Exception, agent_loop_error, service_error, step_failed, Result, ok, raise,
}
use trip_graph_agent_runtime.Schema.{
  pending, running, skipped, PlanStep, StepResult, FailurePolicy, retry, skip, replan, is_finished,
}
use trip_graph_agent_runtime.GraphSchema.{GraphNodeStatus}
use trip_graph_agent_runtime.State.{
  set_step_status, record_step_result, append_trace, reset_step_for_retry,
}
use trip_graph_agent_runtime.State.Lookup.{finished_at, finished_at-insert}
use trip_graph_agent_runtime.Executor.{Services, ExecutorConfig, Run}
use trip_graph_agent_runtime.Executor.Step
use trip_graph_agent_runtime.Executor.Step.{record_trace, execute_step}
use trip_graph_agent_runtime.Executor.Recovery.{
  is_failed, max_attempts, start_step, store_result, finish_step, skip_step, retry_step, on_failure,
  run_attempts, run_step_with_recovery,
}
use trip_graph_agent_runtime.Executor.Shape.{
  status_of, Keeps, Keeps-trans, Keeps-insert, Keeps-same, KnowsStep, update_graph_node-ok,
}
use trip_graph_agent_runtime.Executor.StepFacts.{execute_step-Keeps, execute_step-status}

abbrev is_step_failure : Exception → Bool
is_step_failure (agent_loop_error (step_failed k e)) = true
is_step_failure _ = false

abbrev is_service_error : Exception → Bool
is_service_error service_error = true
is_service_error _ = false

abbrev pub is_policy : FailurePolicy → FailurePolicy → Bool
is_policy retry retry = true
is_policy skip skip = true
is_policy replan replan = true
is_policy _ _ = false

-- What may end a run: an error of the summarizer, and under RETRY the failure of a step.
abbrev pub is_expected : FailurePolicy → Exception → Bool
is_expected policy e = is_service_error e || is_policy policy retry && is_step_failure e

module _ {Json : Type 0} (sv : Services Json) (cfg : ExecutorConfig) where
  abbrev pub policy : FailurePolicy
  policy = cfg.failure_config.failure_policy

  -- The step k is finished and nothing else is touched, or the error is an expected one.
  abbrev pub Settles : ℕ → Run sv → Result (Run sv) → Type 0
  Settles k r (ok r') = Keeps k r r' × (finished_at (status_of r') k ≡ true)
  Settles k r (raise e) = is_expected policy e ≡ true

  start_step-ok :
      (step : PlanStep) (r : Run sv)
      → KnowsStep step.id r
      → (r' : Run sv) × (start_step sv cfg step r ≡ ok r') × Keeps step.id r r'
  unfolding start_step set_step_status
  start_step-ok step r knows =
      let current = record r.state { current_step = some step.id } in
      let marked = record r { state = set_step_status current step.id running } in
      let (r', runs, state, index) =
        update_graph_node-ok step.id GraphNodeStatus.running marked knows in
      (
        r',
        runs,
        Keeps-insert step.id running r r' (ap (λ s. s.plan.steps) state)
            (ap (λ s. s.step_status) state) index,
      )

  retry_step-ok :
      (step : PlanStep) (r : Run sv)
      → KnowsStep step.id r
      → (r' : Run sv) × (retry_step sv cfg step r ≡ ok r') × Keeps step.id r r'
  unfolding retry_step reset_step_for_retry
  retry_step-ok step r knows =
      let reset = record r { state = reset_step_for_retry r.state step.id } in
      let (r', runs, state, index) =
        update_graph_node-ok step.id GraphNodeStatus.pending reset knows in
      (
        r',
        runs,
        Keeps-insert step.id pending r r' (ap (λ s. s.plan.steps) state)
            (ap (λ s. s.step_status) state) index,
      )

  store_result-Keeps :
      (step : PlanStep) (result : StepResult Json) (r : Run sv)
      → result.step_id ≡ step.id
      → Keeps step.id r (store_result sv cfg step result r)
        × (finished_at (status_of (store_result sv cfg step result r)) step.id
            ≡ is_finished result.status)
  unfolding store_result record_step_result set_step_status record_trace append_trace
  store_result-Keeps step result r same = (
    Keeps-insert step.id result.status r (store_result sv cfg step result r) refl
        (ap (λ k. insert k result.status (status_of r)) same) refl,
    ground (arith, finished_at-insert result.step_id step.id result.status (status_of r), same),
  )

  Settles-after :
      (k : ℕ) (r s : Run sv) (res : Result (Run sv))
      → Keeps k r s
      → Settles k s res
      → Settles k r res
  Settles-after k r s (ok t) h (g, done) = (Keeps-trans k r s t h g, done)
  Settles-after k r s (raise e) h g = g

  finish_step-Settles :
      (step : PlanStep) (result : StepResult Json) (r : Run sv)
      → finished_at (status_of r) step.id ≡ true
      → Settles step.id r (finish_step sv cfg step result r)
  unfolding finish_step
  finish_step-Settles step result r done =
      let merged = record r.state {
        global_context = Step.merge_observation step.id result r.state.global_context;
      } in
      elim (Option-cases (sv.maybe_compress merged r.world).0) [
        | inl failed_call ↦ rw (failed_call, finish_step) refl
        | inr (ctx, e) ↦ rw (e, finish_step) (Keeps-same step.id r _ refl refl refl, done)
      ]

  skip_step-Settles :
      (step : PlanStep) (result : StepResult Json) (r : Run sv)
      → result.step_id ≡ step.id
      → Settles step.id r (ok (skip_step sv cfg step result r))
  unfolding skip_step record_step_result set_step_status record_trace append_trace is_finished
  skip_step-Settles step result r same = (
    Keeps-insert step.id skipped r (skip_step sv cfg step result r) refl
        (ap (λ k. insert k skipped (status_of r)) same) refl,
    ground (arith, finished_at-insert result.step_id step.id skipped (status_of r), same),
  )

  KnowsStep-after : (k : ℕ) (r s : Run sv) → Keeps k r s → KnowsStep k r → KnowsStep k s
  KnowsStep-after k r s h knows = λ d e. knows d (sym h.index ∙ e)

  policy_cases : is_policy policy replan ≡ false → (policy ≡ retry) ⊎ (policy ≡ skip)
  policy_cases h = ground arith

  on_failure-Settles :
      (k : ℕ) (r : Run sv) (p : FailurePolicy) (more : Bool) (again : Result (Run sv)) (step_id : ℕ)
      (error : Option String) (skipped_run : Run sv) (replanned : Result (Run sv))
      → policy ≡ p
      → is_policy p replan ≡ false
      → (policy ≡ retry → more ≡ true → Settles k r again)
      → Settles k r (ok skipped_run)
      → Settles k r (
          on_failure sv cfg p more again
            (raise (agent_loop_error (step_failed step_id error)))
            (ok skipped_run)
            replanned)
  unfolding on_failure
  on_failure-Settles k r retry true again step_id error skipped_run replanned e other h s = h e refl
  on_failure-Settles k r retry false again step_id error skipped_run replanned e other h s =
      ground (arith, e)
  on_failure-Settles k r skip more again step_id error skipped_run replanned e other h s = s
  on_failure-Settles k r replan more again step_id error skipped_run replanned e other h s =
      absurd (ground arith)

  -- One round, where the rounds after it settle the step.
  attempt-Settles :
      (left attempt : ℕ) (step : PlanStep) (r : Run sv)
      → KnowsStep step.id r
      → is_policy policy replan ≡ false
      → ((s : Run sv)
          → KnowsStep step.id s
          → policy ≡ retry
          → ltb attempt (max_attempts sv cfg) ≡ true
          → Settles step.id s (run_attempts sv cfg left (attempt + 1) step s))
      → Settles step.id r (run_attempts sv cfg (suc left) attempt step r)
  unfolding run_attempts
  attempt-Settles left attempt step r knows other again =
      let (started, starts, kept1) = start_step-ok step r knows in
      let result = (execute_step sv cfg step attempt started).0 in
      let executed = (execute_step sv cfg step attempt started).1 in
      let (kept2, same) = execute_step-Keeps sv cfg step attempt started in
      let stored = store_result sv cfg step result executed in
      let (kept3, status) = store_result-Keeps step result executed same in
      let kept =
        Keeps-trans step.id r started stored kept1
          (Keeps-trans step.id started executed stored kept2 kept3) in
      elim (Bool-cases (is_failed result.status)) [
        | inr fine ↦
            rw (starts, fine, run_attempts)
              (Settles-after step.id r stored _ kept (
                finish_step-Settles step result stored
                  (status ∙ execute_step-status sv cfg step attempt started fine)))
        | inl failing ↦
            rw (starts, failing, run_attempts)
              (on_failure-Settles step.id r policy (ltb attempt (max_attempts sv cfg)) _ step.id
                result.error (skip_step sv cfg step result stored) _ refl other
                (λ retrying more.
                  let (reset, resets, kept4) =
                    retry_step-ok step stored (KnowsStep-after step.id r stored kept knows) in
                  let kept' = Keeps-trans step.id r stored reset kept kept4 in
                  rw resets (
                    Settles-after step.id r reset
                      (run_attempts sv cfg left (attempt + 1) step reset) kept'
                      (again reset (KnowsStep-after step.id r reset kept' knows) retrying more)))
                (Settles-after step.id r stored (ok (skip_step sv cfg step result stored)) kept
                  (skip_step-Settles step result stored same)))
      ]

  run_attempts-Settles :
      (left attempt : ℕ) (step : PlanStep) (r : Run sv)
      → KnowsStep step.id r
      → is_policy policy replan ≡ false
      → (policy ≡ retry → attempt + left ≡ max_attempts sv cfg)
      → Settles step.id r (run_attempts sv cfg (suc left) attempt step r)
  run_attempts-Settles zero attempt step r knows other rounds =
      attempt-Settles zero attempt step r knows other
        λ s known retrying more. absurd (ground (arith, rounds retrying, more))
  run_attempts-Settles (suc left) attempt step r knows other rounds =
      attempt-Settles (suc left) attempt step r knows other λ s known retrying more.
        run_attempts-Settles left (attempt + 1) step s known other (λ e. omega (arith, rounds e))

  some_attempt : (m : ℕ) × (max_attempts sv cfg ≡ suc m)
  unfolding max_attempts
  some_attempt = (max_attempts sv cfg - 1, ground arith)

  pub run_step_with_recovery-Settles :
      (step : PlanStep) (r : Run sv)
      → KnowsStep step.id r
      → is_policy policy replan ≡ false
      → Settles step.id r (run_step_with_recovery sv cfg step r)
  unfolding run_step_with_recovery
  run_step_with_recovery-Settles step r knows other =
      let (m, e) = some_attempt in
      subst (λ n. Settles step.id r (run_attempts sv cfg n 1 step r)) (sym e)
        (run_attempts-Settles m 1 step r knows other (λ _. omega (arith, e)))
