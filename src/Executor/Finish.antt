-- ===== src/Executor/Finish.antt =====
-- plan/executor.py: execute ends, and what it ends in, under the policies RETRY and SKIP.
use trip_graph_agent_runtime.Prelude.{
  ℕ, zero, suc, ◌<◌, ◌≡◌, refl, sym, ap, subst, inl, inr, ◌∙◌, Bool, true, false, ◌&&◌, some, List,
  [], ◌∷◌, elem, All, Bool-cases, arith,
}
use trip_graph_agent_runtime.Prelude.Dict.{Dict, lookup}
use trip_graph_agent_runtime.Errors.{Exception, Result, ok, raise, ◌>>=◌}
use trip_graph_agent_runtime.Schema.{
  StepStatus, pending, PlanStep, replan, is_pending, is_finished, is_terminal,
}
use trip_graph_agent_runtime.State.{
  PlanState, ids, find_step, all_steps_finished, all_terminal_in, status_in, next_executable_step,
}
use trip_graph_agent_runtime.State.Lookup.{finished_at, All-elem}
use trip_graph_agent_runtime.State.Schedule.{IsSettled}
use trip_graph_agent_runtime.State.Progress.{IsReady, next_executable_step-progress}
use trip_graph_agent_runtime.PlanGraph.Sync.{IsKnown}
use trip_graph_agent_runtime.Executor.{Context, Services, ExecutorConfig, Run, sync_graph}
use trip_graph_agent_runtime.Executor.Recovery.{run_step_with_recovery}
use trip_graph_agent_runtime.Executor.Loop.{run_one, execute_loop}
use trip_graph_agent_runtime.Executor.Shape.{All-ids, steps_of, status_of, KnowsStep}
use trip_graph_agent_runtime.Executor.Attempts.{
  is_policy, is_expected, Settles, run_step_with_recovery-Settles,
}
use trip_graph_agent_runtime.Executor.Invariant.{
  waiting, waiting-lt, settled→known, IsGood, left_over, sync_graph-ok, IsSettled-after,
}

known→answers :
    (d : Dict StepStatus) (steps : List PlanStep)
    → All (λ s. IsKnown d s.id) steps
    → (b : Bool) × (all_terminal_in d steps ≡ ok b)
unfolding all_terminal_in status_in
known→answers d [] known = (true, refl)
known→answers d (s ∷ rest) known =
    let (st, e) = known.0 in
    let (b, later) = known→answers d rest known.1 in (is_terminal st && b, ground (arith, e, later))

-- Of settled steps, the terminal ones are COMPLETED or SKIPPED.
terminal→finished :
    (d : Dict StepStatus) (steps : List PlanStep)
    → All (λ s. IsSettled d s.id) steps
    → all_terminal_in d steps ≡ ok true
    → All (λ s. finished_at d s.id ≡ true) steps
unfolding all_terminal_in status_in finished_at is_terminal is_pending is_finished
terminal→finished d [] settled h = tt
terminal→finished d (s ∷ rest) settled h =
    let (st, e, kind) = settled.0 in
    (ground (arith, e, h, kind), terminal→finished d rest settled.1 (ground (arith, e, h, kind)))

module _ {Json : Type 0} (sv : Services Json) (cfg : ExecutorConfig)
    (other : is_policy cfg.failure_config.failure_policy replan ≡ false) where
  -- A round of the loop that runs a step: the invariant holds and fewer steps are left, or the error
  -- is an expected one.
  abbrev Advances : Run sv → Result (Run sv) → Type 0
  Advances r (ok r') =
      IsGood r' × (left_over r' < left_over r) × (ids (steps_of r') ≡ ids (steps_of r))
  Advances r (raise e) = is_expected cfg.failure_config.failure_policy e ≡ true

  pending→unfinished :
      (d : Dict StepStatus) (k : ℕ) → lookup k d ≡ some pending → finished_at d k ≡ false
  unfolding finished_at is_finished
  pending→unfinished d k e = ground (arith, e)

  settled_step :
      (k : ℕ) (r : Run sv) (res : Result (Run sv))
      → IsGood r
      → lookup k (status_of r) ≡ some pending
      → elem k (ids (steps_of r)) ≡ true
      → Settles sv cfg k r res
      → Advances r (res >>= λ r'. sync_graph sv r')
  settled_step k r (raise e) good waits m h = h
  settled_step k r (ok s) good waits m (kept, done) =
      let settled = IsSettled-after k r s kept done good.ready.settled in
      let (r', runs, state, covers) =
        sync_graph-ok s (settled→known (status_of s) (steps_of s) settled) in
      rw runs (
        record {
          ready = subst IsReady (sym state) (record {
            unique = kept.unique good.ready.unique;
            prior = kept.prior good.ready.prior;
            settled = settled;
          });
          covers = covers;
        },
        subst
            (λ (t : PlanState Json (Context Json)).
              waiting t.step_status (ids t.plan.steps) < left_over r)
            (sym state)
            (subst (λ l. waiting (status_of s) l < left_over r) (sym kept.same_ids)
              (waiting-lt (status_of r) (status_of s) k (ids (steps_of r)) kept.elsewhere done
                (pending→unfinished (status_of r) k waits) m)),
        subst (λ (t : PlanState Json (Context Json)). ids t.plan.steps ≡ ids (steps_of r))
            (sym state) kept.same_ids,
      )

  run_one-Advances :
      (k : ℕ) (r : Run sv)
      → IsGood r
      → lookup k (status_of r) ≡ some pending
      → elem k (ids (steps_of r)) ≡ true
      → Advances r (run_one sv cfg k r)
  unfolding run_one find_step
  run_one-Advances k r good waits m =
      let (step, found, same, _) =
        All-elem (λ t. IsSettled (status_of r) t.id) (steps_of r) k good.ready.settled m in
      rw found (
        settled_step k r (run_step_with_recovery sv cfg step r) good waits m (
          subst (λ j. Settles sv cfg j r (run_step_with_recovery sv cfg step r)) same
            (run_step_with_recovery-Settles sv cfg step r
              (subst (λ j. KnowsStep j r) (sym same) (good.covers k m)) other)))

  -- How a run that starts with the ids `ks` may end: every step is COMPLETED or SKIPPED, or an expected
  -- error was raised.
  abbrev pub Ends : List ℕ → Result (Run sv) → Type 0
  Ends ks (ok r) =
      (ids (steps_of r) ≡ ks)
      × All (λ k. finished_at (status_of r) k ≡ true) ks
      × IsGood r
      × (all_steps_finished r.state ≡ ok true)
  Ends ks (raise e) = is_expected cfg.failure_config.failure_policy e ≡ true

  all_steps_finished-answers :
      (r : Run sv) → IsGood r → (b : Bool) × (all_steps_finished r.state ≡ ok b)
  unfolding all_steps_finished
  all_steps_finished-answers r good =
      known→answers (status_of r) (steps_of r)
        (settled→known (status_of r) (steps_of r) good.ready.settled)

  done-Ends :
      (r : Run sv)
      → IsGood r
      → all_steps_finished r.state ≡ ok true
      → Ends (ids (steps_of r)) (ok r)
  unfolding all_steps_finished
  done-Ends r good done = (
    refl,
    All-ids (λ k. finished_at (status_of r) k ≡ true) (steps_of r)
        (terminal→finished (status_of r) (steps_of r) good.ready.settled done),
    good,
    done,
  )

  -- One round of the loop on fuel, by what the two queries and the step answer.
  execute_loop-done :
      (fuel : ℕ) (r : Run sv)
      → all_steps_finished r.state ≡ ok true
      → execute_loop sv cfg (suc fuel) r ≡ some (ok r)
  unfolding execute_loop
  execute_loop-done fuel r done = rw (done, execute_loop) refl

  execute_loop-raise :
      (fuel k : ℕ) (r : Run sv) (e : Exception)
      → all_steps_finished r.state ≡ ok false
      → next_executable_step r.state ≡ ok (some k)
      → run_one sv cfg k r ≡ raise e
      → execute_loop sv cfg (suc fuel) r ≡ some (raise e)
  unfolding execute_loop
  execute_loop-raise fuel k r e more found ran = rw (more, found, ran, execute_loop) refl

  execute_loop-step :
      (fuel k : ℕ) (r r' : Run sv)
      → all_steps_finished r.state ≡ ok false
      → next_executable_step r.state ≡ ok (some k)
      → run_one sv cfg k r ≡ ok r'
      → execute_loop sv cfg (suc fuel) r ≡ execute_loop sv cfg fuel r'
  unfolding execute_loop
  execute_loop-step fuel k r r' more found ran = rw (more, found, ran, execute_loop) refl

  abbrev pub Outcome : ℕ → Run sv → Type 0
  Outcome fuel r =
      (outcome : Result (Run sv)) × (execute_loop sv cfg fuel r ≡ some outcome)
      × Ends (ids (steps_of r)) outcome

  round :
      (fuel k : ℕ) (r : Run sv) (res : Result (Run sv))
      → all_steps_finished r.state ≡ ok false
      → next_executable_step r.state ≡ ok (some k)
      → run_one sv cfg k r ≡ res
      → Advances r res
      → ((r' : Run sv) → IsGood r' → left_over r' < left_over r → Outcome fuel r')
      → Outcome (suc fuel) r
  round fuel k r (raise e) more found ran advance next =
      (raise e, execute_loop-raise fuel k r e more found ran, advance)
  round fuel k r (ok r') more found ran (good, fewer, same) next =
      let (outcome, runs, ends) = next r' good fewer in
      (
        outcome,
        execute_loop-step fuel k r r' more found ran ∙ runs,
        subst (λ ks. Ends ks outcome) same ends,
      )

  pub execute_loop-ends : (fuel : ℕ) (r : Run sv) → IsGood r → left_over r < fuel → Outcome fuel r
  execute_loop-ends zero r good h = absurd (omega arith)
  execute_loop-ends (suc fuel) r good h =
      let (finished, answers) = all_steps_finished-answers r good in
      elim (Bool-cases finished) [
        | inl all_done ↦
            let done = answers ∙ ap ok all_done in
            (ok r, execute_loop-done fuel r done, done-Ends r good done)
        | inr more ↦ elim (next_executable_step-progress r.state good.ready) [
          | inr (found, done) ↦ (ok r, execute_loop-done fuel r done, done-Ends r good done)
          | inl (k, found, waits, m) ↦
              round fuel k r (run_one sv cfg k r) (answers ∙ ap ok more) found refl
                (run_one-Advances k r good waits m)
                (λ r' g fewer. execute_loop-ends fuel r' g (omega arith))
        ]
      ]
