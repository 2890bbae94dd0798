-- ===== src/Executor/Loop.antt =====
-- plan/executor.py: execute, the loop over the executable steps. The loop takes fuel, and `none`
-- is the answer when it runs out.
use trip_graph_agent_runtime.Prelude.{
  ℕ, zero, suc, true, false, Option, none, some, is_empty, if◌then◌else◌,
}
use trip_graph_agent_runtime.Errors.{Result, ok, raise, agent_loop_error, deadlock, ◌>>=◌}
use trip_graph_agent_runtime.Schema.{Plan}
use trip_graph_agent_runtime.State.{
  all_steps_finished, next_executable_step, unfinished_step_ids, find_step,
}
use trip_graph_agent_runtime.PlanGraph
use trip_graph_agent_runtime.Executor.{Services, ExecutorConfig, Run, sync_graph}
use trip_graph_agent_runtime.Executor.Recovery.{run_step_with_recovery}

module _ {Json : Type 0} (sv : Services Json) (cfg : ExecutorConfig) where
  -- The body of the loop for a step: run it, then refresh the graph.
  unfoldable pub run_one : ℕ → Run sv → Result (Run sv)
  run_one k r = find_step r.state k >>= λ step.
      run_step_with_recovery sv cfg step r >>= λ r'. sync_graph sv r'

  -- The body of the loop where no step can run: it raises on a deadlock, and breaks otherwise.
  unfoldable pub no_step : Run sv → Result (Run sv)
  no_step r = unfinished_step_ids r.state >>= λ waiting.
      if is_empty waiting then ok r else raise (agent_loop_error (deadlock waiting))

  -- while not state.all_steps_finished(): ...
  unfoldable pub execute_loop : ℕ → Run sv → Option (Result (Run sv))
  execute_loop zero r = none
  execute_loop (suc fuel) r = elim (all_steps_finished r.state) [
    | raise e ↦ some (raise e)
    | ok true ↦ some (ok r)
    | ok false ↦ elim (next_executable_step r.state) [
      | raise e ↦ some (raise e)
      | ok none ↦ some (no_step r)
      | ok (some k) ↦ elim (run_one k r) [ raise e ↦ some (raise e) | ok r' ↦ execute_loop fuel r' ]
    ]
  ]

  -- state.current_step = None; self._sync_graph(state)
  unfoldable pub finish_run : Result (Run sv) → Result (Run sv)
  finish_run outcome =
      outcome >>= λ r. sync_graph sv (record r { state = record r.state { current_step = none } })

  -- execute
  unfoldable pub execute : ℕ → Plan → Run sv → Option (Result (Run sv))
  unfolding execute_loop finish_run
  execute fuel plan r =
      let fresh = record r { graph = some (PlanGraph.from_plan plan r.state.session_id) } in
      elim (sync_graph sv fresh) [
        | raise e ↦ some (raise e)
        | ok synced ↦ elim (execute_loop fuel synced) [
          | none ↦ none
          | some outcome ↦ some (finish_run outcome)
        ]
      ]
