-- ===== src/Compiler/Compiled.antt =====
-- graph/runtime/compiler/plan_compiler.py: what compile makes of a plan.
use trip_graph_agent_runtime.Prelude.{
  ◌≡◌, refl, ap, ◌∙◌, true, some, List, [], ◌∷◌, map, select, All, All-map, ◌++◌,
}
use trip_graph_agent_runtime.Schema.{PlanStep, Plan}
use trip_graph_agent_runtime.Levels.{topological_levels, topological_levels-Leveled}
use trip_graph_agent_runtime.Executor.{Services, ExecutorConfig}
use trip_graph_agent_runtime.AgentState.{Outside}
use trip_graph_agent_runtime.Merge.{MergeStrategy}
use trip_graph_agent_runtime.Engine.{
  Graph, ParallelFanOut, direct, end_node, new_graph, add_node, add_edge, add_conditional_edges,
}
use trip_graph_agent_runtime.Compiler.{
  step_node_id, sink_id, PlanWorld, StepParts, make_step_node, sink_node, entry_graph, level_ids,
  wire_levels, add_step_nodes, bare_graph, compile,
}
use trip_graph_agent_runtime.Compiler.Wiring.{
  is_wide, has_key, has_key-assign, has_key-assign_self, branches_of, wire_levels-branches,
  wire_levels-nodes,
}

module _ {Json : Type 0} (sv : Services Json) (cfg : ExecutorConfig)
    (out : Outside Json (PlanWorld sv)) (parts : StepParts sv) where
  -- The graph has a node for the step.
  abbrev pub HasNode : Graph Json (PlanWorld sv) → PlanStep → Type 0
  HasNode graph step = has_key (step_node_id step.id) graph.nodes ≡ true

  step_nodes-fan_outs :
      (steps : List PlanStep) (graph : Graph Json (PlanWorld sv))
      → (add_step_nodes sv cfg out parts steps graph).fan_outs ≡ graph.fan_outs
  unfolding add_step_nodes add_node
  step_nodes-fan_outs [] graph = refl
  step_nodes-fan_outs (step ∷ rest) graph = step_nodes-fan_outs rest _

  step_nodes-kept :
      (steps : List PlanStep) (graph : Graph Json (PlanWorld sv)) (step : PlanStep)
      → HasNode graph step
      → HasNode (add_step_nodes sv cfg out parts steps graph) step
  unfolding add_step_nodes add_node
  step_nodes-kept [] graph step h = h
  step_nodes-kept (s ∷ rest) graph step h = step_nodes-kept rest _ step (
      has_key-assign (step_node_id s.id) (step_node_id step.id) (make_step_node sv cfg out parts s)
        graph.nodes h)

  step_nodes-All :
      (steps : List PlanStep) (graph : Graph Json (PlanWorld sv))
      → All (HasNode (add_step_nodes sv cfg out parts steps graph)) steps
  unfolding add_step_nodes add_node
  step_nodes-All [] graph = tt
  step_nodes-All (s ∷ rest) graph = (
    step_nodes-kept rest _ s
        (has_key-assign_self (step_node_id s.id) (make_step_node sv cfg out parts s) graph.nodes),
    step_nodes-All rest _,
  )

  bare_graph-steps :
      (strategy : MergeStrategy) (plan : Plan)
      → All (HasNode (bare_graph sv cfg out parts strategy plan)) plan.steps
  unfolding bare_graph add_node
  bare_graph-steps strategy plan =
      let stepped =
        add_step_nodes sv cfg out parts plan.steps (entry_graph sv cfg out parts strategy plan) in
      All-map (HasNode stepped) (HasNode (bare_graph sv cfg out parts strategy plan)) plan.steps
        (λ step h.
          has_key-assign sink_id (step_node_id step.id) (sink_node sv cfg out parts) stepped.nodes
            h)
        (step_nodes-All plan.steps (entry_graph sv cfg out parts strategy plan))

  bare_graph-fan_outs :
      (strategy : MergeStrategy) (plan : Plan)
      → (bare_graph sv cfg out parts strategy plan).fan_outs ≡ []
  unfolding bare_graph entry_graph add_node new_graph
  bare_graph-fan_outs strategy plan =
      step_nodes-fan_outs plan.steps (entry_graph sv cfg out parts strategy plan)

  -- compile returns a graph for every plan, one with missing or cyclic dependencies included. The graph
  -- has a node for each step of the plan, and its fan-outs are, in order, those to the steps of each
  -- level of which the number of steps is not one.
  pub compile-wires :
      (strategy : MergeStrategy) (plan : Plan)
      → (levels : List (List PlanStep)) × (topological_levels plan ≡ some levels)
        × (graph : Graph Json (PlanWorld sv)) × (compile sv cfg out parts strategy plan
            ≡ some graph)
        × (branches_of out graph ≡ map level_ids (select is_wide levels))
        × All (HasNode graph) plan.steps
  unfolding compile add_edge add_conditional_edges
  compile-wires strategy plan =
      let (levels, leveled, rest) = topological_levels-Leveled plan in
      let bare = bare_graph sv cfg out parts strategy plan in
      let wired = wire_levels out 0 "plan_entry" levels bare in
      (
        levels,
        leveled,
        add_edge sink_id end_node direct wired,
        rw (leveled, compile) refl,
        wire_levels-branches out 0 "plan_entry" levels bare
            ∙ ap
                (λ (f : List ParallelFanOut).
                  map (λ (x : ParallelFanOut). x.branches) f
                  ++ map level_ids (select is_wide levels))
                (bare_graph-fan_outs strategy plan),
        All-map (HasNode bare) (HasNode (add_edge sink_id end_node direct wired)) plan.steps
            (λ step h. wire_levels-nodes out 0 "plan_entry" (step_node_id step.id) levels bare h)
            (bare_graph-steps strategy plan),
      )
