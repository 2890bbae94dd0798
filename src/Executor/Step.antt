-- ===== src/Executor/Step.antt =====
-- plan/executor.py: one attempt at a step, with the fallback to other tools, the trace and the merge of
-- the observation into the context.
use trip_graph_agent_runtime.Prelude.Names.{assign}
use trip_graph_agent_runtime.Prelude.{
  ℕ, String, true, false, not, ◌&&◌, Option, none, some, List, [], ◌∷◌, ◌==◌, if◌then◌else◌,
}
use Prim.Native.String.{◌++◌ as ◌<>◌}
use trip_graph_agent_runtime.Prelude.Dict.{lookup, insert}
use trip_graph_agent_runtime.Schema.{
  text_or, StepStatus, completed, failed, skipped, PlanStep, StepResult, truthy, is_completed,
}
use trip_graph_agent_runtime.State.{PlanState, append_trace}
use trip_graph_agent_runtime.Tools.{ToolObservation}
use trip_graph_agent_runtime.Executor.{PolicyDecision, Context, Services, ExecutorConfig, Run}

-- step.tool_hint = tool, on the step object that the plan holds
unfoldable pub set_hint : ℕ → String → List PlanStep → List PlanStep
set_hint k tool [] = []
set_hint k tool (s ∷ rest) =
    if s.id == k then record s { tool_hint = some tool } ∷ rest else s ∷ set_hint k tool rest

module _ {Json : Type 0} where
  -- _record_trace
  unfoldable pub record_trace :
      PlanState Json (Context Json)
      → PlanStep
      → StepResult Json
      → Option String
      → Option StepStatus
      → PlanState Json (Context Json)
  record_trace s step result recovery_action override_status = append_trace s (record {
    step_id = step.id;
    task = step.task;
    status = elim override_status [ none ↦ result.status | some st ↦ st ];
    tool_name = if truthy result.tool_name then result.tool_name else step.tool_hint;
    success = some (is_completed result.status);
    error = result.error;
    attempt = result.attempt;
    recovery_action = elim recovery_action [
      | none ↦ result.recovery_action
      | some action ↦ some action
    ];
  })

  -- _merge_observation_into_context
  unfoldable pub merge_observation : ℕ → StepResult Json → Context Json → Context Json
  merge_observation k result ctx = record ctx {
    step_outputs = insert k result.observation ctx.step_outputs;
    tool_outputs =
        if truthy result.tool_name
        then assign (text_or result.tool_name "") result.observation ctx.tool_outputs
        else ctx.tool_outputs;
  }

  -- state.global_context["tool_policy_decisions"][str(step.id)] = updated
  store_decision : ℕ → PolicyDecision → Context Json → Context Json
  store_decision k decision ctx = record ctx {
    tool_policy_decisions = insert k decision ctx.tool_policy_decisions;
  }

module _ {Json : Type 0} (sv : Services Json) (cfg : ExecutorConfig) where
  open sv use {
    World, null, completed_message, resolve, has_tool, execute_llm_call,
    recovery_action_for_fallback,
  }

  -- What a fallback that succeeds hands back: the observation, the tool and the recovery action.
  abbrev pub Fallback : Type 0
  Fallback = ToolObservation Json × String × String

  -- The state after a fallback call: the decision in the context names the tool that was tried.
  unfoldable pub after_fallback :
      PlanStep → String → String → PolicyDecision → World → Run sv → Run sv
  unfolding store_decision
  after_fallback step tool reason decision world r =
      let tried = record decision {
        fallback_used = true;
        fallback_tool = some tool;
        failure_reason = some reason;
      } in
      record r {
        world = world;
        state = record r.state {
          global_context = store_decision step.id tried r.state.global_context;
        };
      }

  -- The loop of _try_policy_fallback over the candidates.
  unfoldable pub try_fallbacks :
      PlanStep
      → Json
      → ℕ
      → String
      → String
      → PolicyDecision
      → List String
      → Run sv
      → Option Fallback × Run sv
  unfolding after_fallback set_hint
  try_fallbacks step args attempt failed_tool reason decision [] r = (none, r)
  try_fallbacks step args attempt failed_tool reason decision (tool ∷ rest) r =
      let (obs, world) = execute_llm_call true tool args step.id attempt r.world in
      let r' = after_fallback step tool reason decision world r in
      let steps = set_hint step.id tool r'.state.plan.steps in
      let r'' = record r' {
        state = record r'.state { plan = record r'.state.plan { steps = steps } };
      } in
      let skipped_call = try_fallbacks step args attempt failed_tool reason decision rest r in
      let later = try_fallbacks step args attempt failed_tool reason decision rest r' in
      if has_tool tool
      then if obs.success
        then (some (obs, tool, recovery_action_for_fallback failed_tool tool), r'')
        else later
      else skipped_call

  -- The guard of _execute_step before a fallback, and _try_policy_fallback.
  unfoldable pub policy_fallback :
      PlanStep → Json → ℕ → ToolObservation Json → Run sv → Option Fallback × Run sv
  unfolding try_fallbacks text_or
  policy_fallback step args attempt obs r =
      let reason = text_or obs.error "tool execution failed" in
      let failed_tool = text_or step.tool_hint "" in
      let allowed =
        not obs.success
        && (cfg.tool_policy_enabled && cfg.tool_policy_mcp_fallback_enabled)
        && cfg.has_policy_engine in
      elim (lookup step.id r.state.global_context.tool_policy_decisions) [
        | none ↦ (none, r)
        | some decision ↦
            if allowed
            then try_fallbacks step args attempt failed_tool reason decision
                decision.fallback_candidates r
            else (none, r)
      ]

  -- The StepResult of a tool step, from the first observation and the fallback.
  unfoldable pub tool_result :
      PlanStep → Json → ℕ → ToolObservation Json → Option Fallback → StepResult Json
  tool_result step args attempt obs fallback =
      let final : ToolObservation Json = elim fallback [ none ↦ obs | some f ↦ f.0 ] in
      record {
        step_id = step.id;
        task = step.task;
        status = if final.success then completed else failed;
        tool_name = elim fallback [ none ↦ step.tool_hint | some f ↦ some f.1 ];
        tool_args = some args;
        observation = if final.success then final.output else null;
        error = if final.success then none else final.error;
        attempt = attempt;
        recovery_action = elim fallback [ none ↦ none | some f ↦ some f.2 ];
      }

  -- _execute_step
  unfoldable pub execute_step : PlanStep → ℕ → Run sv → StepResult Json × Run sv
  unfolding policy_fallback tool_result text_or truthy
  execute_step step attempt r =
      if not (truthy step.tool_hint)
      then (
        record {
          step_id = step.id;
          task = step.task;
          status = completed;
          tool_name = none;
          tool_args = none;
          observation = completed_message step.task;
          error = none;
          attempt = attempt;
          recovery_action = none;
        },
        r,
      )
      else elim (resolve step r.state.global_context) [
        | none ↦ (
          record {
            step_id = step.id;
            task = step.task;
            status = skipped;
            tool_name = step.tool_hint;
            tool_args = none;
            observation = null;
            error = some ("No arguments resolved for tool_hint=" <> text_or step.tool_hint "");
            attempt = attempt;
            recovery_action = none;
          },
          r,
        )
        | some args ↦
            let (obs, world) =
              execute_llm_call false (text_or step.tool_hint "") args step.id attempt r.world in
            let (fallback, r') =
              policy_fallback step args attempt obs (record r { world = world }) in
            (tool_result step args attempt obs fallback, r')
      ]
