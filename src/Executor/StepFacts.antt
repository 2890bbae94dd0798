-- ===== src/Executor/StepFacts.antt =====
-- plan/executor.py: one attempt at a step leaves the plan's shape and all statuses alone.
use trip_graph_agent_runtime.Prelude.{
  ℕ, ◌<◌, ◌≡◌, refl, sym, ap, subst, inl, inr, String, Bool, true, false, not, ◌&&◌, List, [], ◌∷◌,
  elem, All, ◌==◌, Bool-cases, Option-cases, arith,
}
use trip_graph_agent_runtime.Prelude.Dict.{lookup}
use trip_graph_agent_runtime.Schema.{text_or, PlanStep, deps_of, truthy, is_finished}
use trip_graph_agent_runtime.State.{ids}
use trip_graph_agent_runtime.State.Schedule.{HasPriorDeps}
use trip_graph_agent_runtime.Tools.{ToolObservation}
use trip_graph_agent_runtime.Executor.{PolicyDecision, Services, ExecutorConfig, Run}
use trip_graph_agent_runtime.Executor.Step.{
  set_hint, after_fallback, try_fallbacks, policy_fallback, tool_result, execute_step,
}
use trip_graph_agent_runtime.Executor.Recovery.{is_failed}
use trip_graph_agent_runtime.Executor.Shape.{steps_of, Keeps, Keeps-trans, Keeps-same}

ids-set_hint :
    (k : ℕ) (tool : String) (steps : List PlanStep) → ids (set_hint k tool steps) ≡ ids steps
unfolding set_hint
ids-set_hint k tool [] = refl
ids-set_hint k tool (s ∷ rest) = elim (Bool-cases (s.id == k)) [
  | inl e ↦ rw e
  | inr e ↦ rw e (ap (λ l. s.id ∷ l) (ids-set_hint k tool rest))
]

All-set_hint {κ} :
    (Q : ℕ → List ℕ → Type κ) (k : ℕ) (tool : String) (steps : List PlanStep)
    → All (λ s. Q s.id (deps_of s)) steps
    → All (λ s. Q s.id (deps_of s)) (set_hint k tool steps)
unfolding set_hint deps_of
All-set_hint Q k tool [] h = tt
All-set_hint Q k tool (s ∷ rest) h = elim (Bool-cases (s.id == k)) [
  | inl e ↦ rw e (h.0, h.1)
  | inr e ↦ rw e (h.0, All-set_hint Q k tool rest h.1)
]

prior-set_hint :
    (k : ℕ) (tool : String) (steps : List PlanStep)
    → All (HasPriorDeps steps) steps
    → All (HasPriorDeps (set_hint k tool steps)) (set_hint k tool steps)
prior-set_hint k tool steps h =
    subst
      (λ l.
        All (λ s. All (λ d. (d < s.id) × (elem d l ≡ true)) (deps_of s)) (set_hint k tool steps))
      (sym (ids-set_hint k tool steps))
      (All-set_hint (λ i ds. All (λ d. (d < i) × (elem d (ids steps) ≡ true)) ds) k tool steps h)

module _ {Json : Type 0} (sv : Services Json) (cfg : ExecutorConfig) where
  open sv use {World, has_tool, execute_llm_call, resolve}

  try_fallbacks-Keeps :
      (step : PlanStep) (args : Json) (attempt : ℕ) (failed_tool reason : String)
      (decision : PolicyDecision) (tools : List String) (r : Run sv)
      → Keeps step.id r
          (try_fallbacks sv cfg step args attempt failed_tool reason decision tools r).1
  unfolding try_fallbacks after_fallback
  try_fallbacks-Keeps step args attempt failed_tool reason decision [] r =
      Keeps-same step.id r r refl refl refl
  try_fallbacks-Keeps step args attempt failed_tool reason decision (tool ∷ rest) r =
      let (obs, world) = execute_llm_call true tool args step.id attempt r.world in
      let r' = after_fallback sv cfg step tool reason decision world r in
      let here = Keeps-same step.id r r' refl refl refl in
      elim (Bool-cases (has_tool tool)) [
        | inr unknown ↦
            rw unknown (try_fallbacks-Keeps step args attempt failed_tool reason decision rest r)
        | inl known ↦ elim (Bool-cases obs.success) [
          | inl good ↦
              rw (known, good)
                (record {
                  same_ids = ids-set_hint step.id tool (steps_of r);
                  prior = prior-set_hint step.id tool (steps_of r);
                  elsewhere = λ j e. refl;
                  unique = λ u. u;
                  index = refl;
                })
          | inr bad ↦
              rw (known, bad)
                (Keeps-trans step.id r r' _ here
                  (try_fallbacks-Keeps step args attempt failed_tool reason decision rest r'))
        ]
      ]

  policy_fallback-Keeps :
      (step : PlanStep) (args : Json) (attempt : ℕ) (obs : ToolObservation Json) (r : Run sv)
      → Keeps step.id r (policy_fallback sv cfg step args attempt obs r).1
  unfolding policy_fallback
  policy_fallback-Keeps step args attempt obs r =
      let unchanged = Keeps-same step.id r r refl refl refl in
      elim (Option-cases (lookup step.id r.state.global_context.tool_policy_decisions)) [
        | inl none_made ↦ rw (none_made, policy_fallback) unchanged
        | inr (decision, made) ↦ elim (Bool-cases (allowed obs)) [
          | inl yes_allowed ↦
              rw (made, policy_fallback, yes_allowed)
                (try_fallbacks-Keeps step args attempt (text_or step.tool_hint "")
                  (text_or obs.error "tool execution failed") decision decision.fallback_candidates
                  r)
          | inr not_allowed ↦ rw (made, policy_fallback, not_allowed) unchanged
        ]
      ]
    where
      allowed : ToolObservation Json → Bool
      allowed o =
          not o.success
          && (cfg.tool_policy_enabled && cfg.tool_policy_mcp_fallback_enabled)
          && cfg.has_policy_engine

  -- An attempt at a step writes no status, and its result names the step.
  pub execute_step-Keeps :
      (step : PlanStep) (attempt : ℕ) (r : Run sv)
      → Keeps step.id r (execute_step sv cfg step attempt r).1
        × ((execute_step sv cfg step attempt r).0.step_id ≡ step.id)
  unfolding execute_step
  execute_step-Keeps step attempt r = elim (Bool-cases (truthy step.tool_hint)) [
    | inr no_hint ↦ rw (no_hint, execute_step) (Keeps-same step.id r r refl refl refl, refl)
    | inl hinted ↦ elim (Option-cases (resolve step r.state.global_context)) [
      | inl unresolved ↦
          rw (hinted, unresolved, execute_step) (Keeps-same step.id r r refl refl refl, refl)
      | inr (args, resolved) ↦
          let (obs, world) =
            execute_llm_call false (text_or step.tool_hint "") args step.id attempt r.world in
          let called = record r { world = world } in
          rw (hinted, resolved, execute_step)
            (
              Keeps-trans step.id r called _ (Keeps-same step.id r called refl refl refl)
                  (policy_fallback-Keeps step args attempt obs called),
              refl,
            )
    ]
  ]

  -- A result that is not FAILED is COMPLETED or SKIPPED.
  pub execute_step-status :
      (step : PlanStep) (attempt : ℕ) (r : Run sv)
      → is_failed (execute_step sv cfg step attempt r).0.status ≡ false
      → is_finished (execute_step sv cfg step attempt r).0.status ≡ true
  unfolding execute_step tool_result is_failed is_finished
  execute_step-status step attempt r h = ground arith
