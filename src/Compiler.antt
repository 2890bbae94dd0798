-- ===== src/Compiler.antt =====
-- graph/runtime/compiler/plan_compiler.py: the graph that compile makes of the levels of a plan, with
-- a fan-out for each level of more than one step.
pub mod Wiring
pub mod Compiled
use trip_graph_agent_runtime.Prelude.{
  ℕ, zero, suc, ◌*◌, String, Bool, true, false, not, ◌||◌, Option, none, some, List, [], ◌∷◌, map,
  length, ltb, if◌then◌else◌,
}
use trip_graph_agent_runtime.Prelude.Dict.{lookup}
use trip_graph_agent_runtime.Prelude.Names.{find, assign}
use trip_graph_agent_runtime.Prelude.Decimal.{numbered, text_append}
use trip_graph_agent_runtime.Errors.{Result, ok, raise, ◌>>=◌}
use trip_graph_agent_runtime.Schema.{
  StepStatus, completed, skipped, failed, PlanStep, Plan, StepResult, ExecutionTraceEntry,
}
use trip_graph_agent_runtime.State.{
  PlanState, get_step_status, dependencies_met, find_step, all_steps_finished,
}
use trip_graph_agent_runtime.PlanGraph.{PlanGraph}
use trip_graph_agent_runtime.Levels.{topological_levels}
use trip_graph_agent_runtime.Executor.{Services, ExecutorConfig, Context, Run}
use trip_graph_agent_runtime.Executor.Recovery.{run_step_with_recovery}
use trip_graph_agent_runtime.AgentState.{AgentState, Outside}
use trip_graph_agent_runtime.Merge.{MergeStrategy}
use trip_graph_agent_runtime.Engine.{
  NodeFn, Graph, Env, direct, end_node, new_graph, add_node, add_edge, add_parallel_fanout,
  add_join_node,
}

-- s[:n]
unfoldable pub text_take : ℕ → String → String
text_take zero s = ""
text_take (suc n) String.[] = ""
text_take (suc n) (String.◌∷◌ c s) = String.◌∷◌ c (text_take n s)

unfoldable pub step_node_id : ℕ → String
step_node_id k = numbered "step_" k

unfoldable pub join_id : ℕ → String
join_id index = numbered "plan_join_" index

abbrev pub sink_id : String
sink_id = "plan_sink"

-- `status in (COMPLETED, SKIPPED, FAILED)`
unfoldable pub is_over : StepStatus → Bool
is_over completed = true
is_over skipped = true
is_over failed = true
is_over _ = false

-- max(len(plan.steps) * 4, 10)
unfoldable pub rounds_for : Plan → ℕ
rounds_for plan = let rounds = length plan.steps * 4 in if ltb rounds 10 then 10 else rounds

-- next_after_join. No level is empty.
unfoldable pub next_after_join : List (List PlanStep) → String
next_after_join [] = sink_id
next_after_join ([] ∷ later) = sink_id
next_after_join ((step ∷ level) ∷ later) = step_node_id step.id

-- branch_ids
unfoldable pub level_ids : List PlanStep → List String
unfolding step_node_id
level_ids level = map (λ step. step_node_id step.id) level

module _ {Json World : Type 0} where
  -- add_parallel_fanout for a level, or two edges for one that has a single step
  unfoldable pub add_level_edges :
      String → List String → String → Graph Json World → Graph Json World
  unfolding add_edge add_parallel_fanout
  add_level_edges previous (branch ∷ []) join graph =
      add_edge branch join direct (add_edge previous branch direct graph)
  add_level_edges previous branches join graph = add_parallel_fanout previous branches join graph

  -- The loop over the levels.
  unfoldable pub wire_levels :
      Outside Json World → ℕ → String → List (List PlanStep) → Graph Json World → Graph Json World
  unfolding add_level_edges level_ids add_join_node next_after_join join_id
  wire_levels out index previous [] graph = graph
  wire_levels out index previous (level ∷ later) graph =
      wire_levels out (suc index) (join_id index) later (
        add_join_node out (join_id index) (level_ids level) (next_after_join later) none
          (add_level_edges previous (level_ids level) (join_id index) graph))

module _ {Json : Type 0} (sv : Services Json) where
  open sv use {World}

  -- What the nodes change outside the state: the world, and two attributes of the plan executor.
  pub record PlanWorld : Type 0 where
    pub world : World
    pub graph : Option PlanGraph
    pub replan_attempts : ℕ

  -- The plan state, the plan and the trace stand in the state as JSON. `store_output` is
  -- `setdefault("step_outputs", {})[id] = output` on that entry of the observations.
  pub record StepParts : Type 0 where
    pub read_plan_state : Json → PlanState Json (Context Json)
    pub write_plan_state : PlanState Json (Context Json) → Json
    pub write_plan : Plan → Json
    pub write_trace : ExecutionTraceEntry → Json
    pub store_output : Option Json → ℕ → Json → Json
    pub router_node : NodeFn Json PlanWorld

module _ {Json : Type 0} (sv : Services Json) (cfg : ExecutorConfig)
    (out : Outside Json (PlanWorld sv)) (parts : StepParts sv) where
  open sv use {null}

  -- The lambda of `termination`, which raises a KeyError for a step that has no status.
  unfoldable pub plan_finished : AgentState Json → Result Bool
  plan_finished state = elim state.plan_state [
    | none ↦ ok false
    | some json ↦ all_steps_finished (parts.read_plan_state json)
  ]

  unfoldable pub entry_node : NodeFn Json (PlanWorld sv)
  entry_node state env = ok (
    record state { observations = assign "plan_graph_entered" (out.flag true) state.observations },
    env,
  )

  unfoldable pub sink_node : NodeFn Json (PlanWorld sv)
  sink_node state env = ok (
    record state { observations = assign "plan_graph_complete" (out.flag true) state.observations },
    env,
  )

  -- result.observation if result else None
  unfoldable pub output_of : Option (StepResult Json) → Json
  output_of none = null
  output_of (some result) = result.observation

  -- The end of _run: what the plan state has after the step is written into the state.
  unfoldable pub save_step : ℕ → PlanState Json (Context Json) → AgentState Json → AgentState Json
  unfolding output_of
  save_step k s state =
      let outputs =
        parts.store_output (find "step_outputs" state.observations) k
          (output_of (lookup k s.step_results)) in
      record state {
        plan_state = some (parts.write_plan_state s);
        plan = some (parts.write_plan s.plan);
        execution_trace = map parts.write_trace s.execution_trace;
        observations = assign "step_outputs" outputs state.observations;
      }

  -- The lines after router_node, which leaves a plan state in the state.
  unfoldable pub run_routed :
      ℕ
      → AgentState Json
      → Env Json (PlanWorld sv)
      → Result (AgentState Json × Env Json (PlanWorld sv))
  unfolding save_step
  run_routed k state env = elim state.plan_state [
    | none ↦ ok (state, env)
    | some json ↦
        let s = parts.read_plan_state json in
        find_step s k >>= λ step.
        run_step_with_recovery sv cfg step (record {
          state = s;
          graph = env.world.graph;
          replan_attempts = env.world.replan_attempts;
          world = env.world.world;
        })
        >>= λ (r : Run sv). ok (
          save_step k r.state (record state { current_step = some k }),
          record env {
            world = record {
              world = r.world;
              graph = r.graph;
              replan_attempts = r.replan_attempts;
            };
          },
        )
  ]

  unfoldable pub call_step :
      ℕ
      → AgentState Json
      → Env Json (PlanWorld sv)
      → Result (AgentState Json × Env Json (PlanWorld sv))
  unfolding run_routed
  call_step k state env =
      parts.router_node state env >>= λ (routed : AgentState Json × Env Json (PlanWorld sv)).
      run_routed k routed.0 routed.1

  -- _make_step_node
  unfoldable pub make_step_node : PlanStep → NodeFn Json (PlanWorld sv)
  unfolding is_over call_step
  make_step_node step state env = elim state.plan_state [
    | none ↦ ok (state, env)
    | some json ↦
        let s = parts.read_plan_state json in
        get_step_status s step.id >>= λ status.
        if is_over status
        then ok (state, env)
        else (dependencies_met s step.id >>= λ met.
            if met then call_step step.id state env else ok (state, env))
  ]

  unfoldable pub add_step_nodes :
      List PlanStep → Graph Json (PlanWorld sv) → Graph Json (PlanWorld sv)
  unfolding add_node make_step_node step_node_id
  add_step_nodes [] graph = graph
  add_step_nodes (step ∷ rest) graph =
      add_step_nodes rest (add_node (step_node_id step.id) (make_step_node step) graph)

  -- The graph with its entry alone.
  unfoldable pub entry_graph : MergeStrategy → Plan → Graph Json (PlanWorld sv)
  unfolding new_graph rounds_for text_take plan_finished add_node entry_node
  entry_graph strategy plan = add_node "plan_entry" entry_node (
      new_graph (text_append "plan:" (text_take 32 plan.goal)) "plan_entry" (some plan_finished)
        (rounds_for plan) strategy)

  -- The graph before its levels are wired.
  unfoldable pub bare_graph : MergeStrategy → Plan → Graph Json (PlanWorld sv)
  unfolding entry_graph add_node sink_node add_step_nodes
  bare_graph strategy plan =
      add_node sink_id sink_node (add_step_nodes plan.steps (entry_graph strategy plan))

  -- compile, without the metadata
  unfoldable pub compile : MergeStrategy → Plan → Option (Graph Json (PlanWorld sv))
  unfolding topological_levels bare_graph wire_levels add_edge
  compile strategy plan = elim (topological_levels plan) [
    | none ↦ none
    | some levels ↦ some (
        add_edge sink_id end_node direct
          (wire_levels out 0 "plan_entry" levels (bare_graph strategy plan)))
  ]
