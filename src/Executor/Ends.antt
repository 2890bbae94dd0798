-- ===== src/Executor/Ends.antt =====
-- plan/executor.py: execute on the fresh state of a plan that the validator accepts.
use trip_graph_agent_runtime.Prelude.{
  ℕ, ◌≤◌, ◌<◌, ◌≡◌, refl, sym, ap, subst, String, true, false, Option, none, some, List, [], ◌∷◌,
  length, All, arith,
}
use trip_graph_agent_runtime.Prelude.Dict.{Dict}
use trip_graph_agent_runtime.Errors.{Result, ok, raise}
use trip_graph_agent_runtime.Schema.{StepStatus, PlanStep, Plan, FailurePolicy, replan}
use trip_graph_agent_runtime.State
use trip_graph_agent_runtime.State.{PlanState, ids, all_steps_finished}
use trip_graph_agent_runtime.State.Lookup.{finished_at}
use trip_graph_agent_runtime.State.Progress.{IsReady}
use trip_graph_agent_runtime.State.Fresh.{from_plan-IsReady}
use trip_graph_agent_runtime.Validator.{validate}
use trip_graph_agent_runtime.Validator.Accepts.{validate_iff}
use trip_graph_agent_runtime.PlanGraph
use trip_graph_agent_runtime.PlanGraph.{PlanGraph}
use trip_graph_agent_runtime.Executor.{Context, Services, ExecutorConfig, Run, sync_graph}
use trip_graph_agent_runtime.Executor.Loop.{execute_loop, finish_run, execute}
use trip_graph_agent_runtime.Executor.Shape.{steps_of, status_of}
use trip_graph_agent_runtime.Executor.Attempts.{is_policy, is_expected}
use trip_graph_agent_runtime.Executor.Invariant.{waiting, settled→known, sync_graph-ok}
use trip_graph_agent_runtime.Executor.Finish.{Ends, execute_loop-ends}

waiting-length :
    (d : Dict StepStatus) (steps : List PlanStep) → waiting d (ids steps) ≤ length steps
waiting-length d [] = omega arith
waiting-length d (s ∷ rest) = ground (arith, waiting-length d rest)

module _ {Json : Type 0} (sv : Services Json) (cfg : ExecutorConfig) where
  -- How execute may end, by the policy: a state where every step of the plan is COMPLETED or SKIPPED,
  -- or an error of the summarizer, or under RETRY the failure of a step.
  abbrev pub IsFinalFor : FailurePolicy → Plan → Result (Run sv) → Type 0
  IsFinalFor policy plan (ok r) =
      (ids (steps_of r) ≡ ids plan.steps)
      × All (λ k. finished_at (status_of r) k ≡ true) (ids plan.steps)
      × (all_steps_finished r.state ≡ ok true)
  IsFinalFor policy plan (raise e) = is_expected policy e ≡ true

  -- The end of execute: the refresh of the graph succeeds and the statuses stay.
  finish_run-IsFinalFor :
      (other : is_policy cfg.failure_config.failure_policy replan ≡ false) (plan : Plan)
      (outcome : Result (Run sv))
      → Ends sv cfg other (ids plan.steps) outcome
      → IsFinalFor cfg.failure_config.failure_policy plan (finish_run sv cfg outcome)
  unfolding finish_run all_steps_finished
  finish_run-IsFinalFor other plan (raise e) h = h
  finish_run-IsFinalFor other plan (ok r) (same, finished, good, done) =
      let cleared = record r { state = record r.state { current_step = none } } in
      let (r', runs, state, covers) =
        sync_graph-ok cleared (settled→known (status_of r) (steps_of r) good.ready.settled) in
      rw runs (
        subst
          (λ (t : PlanState Json (Context Json)).
            (ids t.plan.steps ≡ ids plan.steps)
            × All (λ k. finished_at t.step_status k ≡ true) (ids plan.steps)
            × (all_steps_finished t ≡ ok true))
          (sym state) (same, finished, done))

  execute-eq :
      (fuel : ℕ) (plan : Plan) (r synced : Run sv) (outcome : Result (Run sv))
      → sync_graph sv (record r { graph = some (PlanGraph.from_plan plan r.state.session_id) })
        ≡ ok synced
      → execute_loop sv cfg fuel synced ≡ some outcome
      → execute sv cfg fuel plan r ≡ some (finish_run sv cfg outcome)
  unfolding execute
  execute-eq fuel plan r synced outcome sync loops = rw (sync, loops, execute) refl

  -- A plan that validate accepts, run from its fresh state under the policy RETRY or SKIP: whatever
  -- the tools answer, execute returns within one round more than the plan has steps. Then every step
  -- of the plan is COMPLETED or SKIPPED, or the error raised is the summarizer's or, under RETRY alone,
  -- that a step failed. So no deadlock, no KeyError and no "exhausted" error is ever raised.
  pub execute-ends :
      (available : List String) (plan : Plan) (session : String) (context : Context Json)
      (graph : Option PlanGraph) (replans fuel : ℕ) (world : Services.World sv)
      → (validate available plan).success ≡ true
      → is_policy cfg.failure_config.failure_policy replan ≡ false
      → length plan.steps < fuel
      → (outcome : Result (Run sv)) × (execute sv cfg fuel plan (record {
        state = State.from_plan plan session context;
        graph = graph;
        replan_attempts = replans;
        world = world;
      })
          ≡ some outcome)
        × IsFinalFor cfg.failure_config.failure_policy plan outcome
  unfolding State.from_plan
  execute-ends available plan session context graph replans fuel world valid other enough =
      let start : Run sv = record {
        state = State.from_plan plan session context;
        graph = some (PlanGraph.from_plan plan session);
        replan_attempts = replans;
        world = world;
      } in
      let ready =
        from_plan-IsReady {Json = Json} plan session context
          ((validate_iff available plan).0 valid).prior in
      let (synced, syncs, state, covers) =
        sync_graph-ok start (settled→known (status_of start) plan.steps ready.settled) in
      let same : steps_of synced ≡ plan.steps =
        ap (λ (t : PlanState Json (Context Json)). t.plan.steps) state in
      let (outcome, loops, ends) =
        execute_loop-ends sv cfg other fuel synced
          (record { ready = subst IsReady (sym state) ready; covers = covers })
          (subst
            (λ (t : PlanState Json (Context Json)). waiting t.step_status (ids t.plan.steps) < fuel)
            (sym state) (omega (arith, waiting-length (status_of start) plan.steps))) in
      (
        finish_run sv cfg outcome,
        execute-eq fuel plan (record start { graph = graph }) synced outcome syncs loops,
        finish_run-IsFinalFor other plan outcome
            (subst (λ steps. Ends sv cfg other (ids steps) outcome) same ends),
      )
