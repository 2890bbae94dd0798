-- ===== src/Engine/Routing.antt =====
-- graph/runtime/core/graph.py: what the builders make of the edges.
use trip_graph_agent_runtime.Prelude.{
  ◌≡◌, refl, ap, ◌∙◌, String, false, none, some, List, [], ◌∷◌, ◌++◌, str_eq, eq_iff, arith,
  if◌then◌else◌, if-true, if-false,
}
use trip_graph_agent_runtime.Prelude.Names.{find-assign, has_name, str_eq_refl}
use trip_graph_agent_runtime.AgentState.{AgentState}
use trip_graph_agent_runtime.Engine.{
  Graph, ConditionalEdge, ParallelFanOut, EdgeKind, parallel, join, edges_of, add_conditional_edges,
  add_edge, add_branch_edges, add_parallel_fanout, first_from, fan_out_for, matches, first_match,
  resolve_next,
}

first_from-snoc :
    (name : String) (fan_outs : List ParallelFanOut) (new : ParallelFanOut)
    → first_from name (fan_outs ++ (new ∷ [])) ≡ elim (first_from name fan_outs) [
      | none ↦ if str_eq new.source name then some new else none
      | some old ↦ some old
    ]
unfolding first_from
first_from-snoc name [] new = refl
first_from-snoc name (f ∷ rest) new = ground (arith, first_from-snoc name rest new)

module _ {Json World : Type 0} where
  pub edges_of-add :
      (source other : String) (edges : List (ConditionalEdge Json World)) (graph : Graph Json World)
      → edges_of other (add_conditional_edges source edges graph)
        ≡ (if str_eq source other then edges_of source graph ++ edges else edges_of other graph)
  unfolding edges_of add_conditional_edges
  edges_of-add source other edges graph =
      ground (arith, find-assign source other (edges_of source graph ++ edges) graph.edges)

  -- A parallel edge at the end is not followed.
  first_match-parallel :
      (edges : List (ConditionalEdge Json World)) (edge : ConditionalEdge Json World)
      (state : AgentState Json)
      → edge.kind ≡ parallel
      → first_match (edges ++ (edge ∷ [])) state ≡ first_match edges state
  unfolding first_match matches
  first_match-parallel [] edge state h = rw h refl
  first_match-parallel (e ∷ edges) edge state h =
      ground (arith, first_match-parallel edges edge state h)

  -- Where the edges of an unrelated source are added, the way on from here is the same.
  resolve_next-other :
      (source here target : String) (kind : EdgeKind) (graph : Graph Json World)
      (state : AgentState Json)
      → str_eq source here ≡ false
      → resolve_next here state (add_edge source target kind graph) ≡ resolve_next here state graph
  unfolding resolve_next add_edge
  resolve_next-other source here target kind graph state h =
      ap (λ (l : List (ConditionalEdge Json World)). first_match l state)
        (edges_of-add source here _ graph ∙ if-false (str_eq source here) _ (edges_of here graph) h)

  resolve_next-parallel :
      (here target : String) (graph : Graph Json World) (state : AgentState Json)
      → resolve_next here state (add_edge here target parallel graph)
        ≡ resolve_next here state graph
  unfolding resolve_next add_edge
  resolve_next-parallel here target graph state =
      ap (λ (l : List (ConditionalEdge Json World)). first_match l state)
        (edges_of-add here here _ graph ∙ if-true (str_eq here here) _ _ (str_eq_refl here))
      ∙ first_match-parallel (edges_of here graph) _ state refl

  resolve_next-branches :
      (source join_node : String) (branches : List String) (graph : Graph Json World)
      (state : AgentState Json)
      → has_name source branches ≡ false
      → resolve_next source state (add_branch_edges source join_node branches graph)
        ≡ resolve_next source state graph
  unfolding add_branch_edges has_name
  resolve_next-branches source join_node [] graph state h = refl
  resolve_next-branches source join_node (branch ∷ rest) graph state h =
      resolve_next-branches source join_node rest
        (add_edge branch join_node join (add_edge source branch parallel graph)) state
        (ground arith)
      ∙ resolve_next-other branch source join_node join (add_edge source branch parallel graph)
          state (ground (arith, eq_iff source branch, eq_iff branch source))
      ∙ resolve_next-parallel source branch graph state

  -- The edges leave the fan-outs as they are.
  pub branches-fan_outs :
      (source join_node : String) (branches : List String) (graph : Graph Json World)
      → (add_branch_edges source join_node branches graph).fan_outs ≡ graph.fan_outs
  unfolding add_branch_edges add_edge add_conditional_edges
  branches-fan_outs source join_node [] graph = refl
  branches-fan_outs source join_node (branch ∷ rest) graph =
      branches-fan_outs source join_node rest
        (add_edge branch join_node join (add_edge source branch parallel graph))

  -- They leave the nodes as they are, too.
  pub branches-nodes :
      (source join_node : String) (branches : List String) (graph : Graph Json World)
      → (add_branch_edges source join_node branches graph).nodes ≡ graph.nodes
  unfolding add_branch_edges add_edge add_conditional_edges
  branches-nodes source join_node [] graph = refl
  branches-nodes source join_node (branch ∷ rest) graph =
      branches-nodes source join_node rest
        (add_edge branch join_node join (add_edge source branch parallel graph))

  -- A fan-out from a node that is not one of its branches does not change which node follows its
  -- source outside the fan-out, since the edges that it adds there are parallel. Its source then
  -- has the fan-out, unless it had one before, which stays in force; other nodes have those that
  -- they had.
  pub add_parallel_fanout-routes :
      (source join_node : String) (branches : List String) (graph : Graph Json World)
      → has_name source branches ≡ false
      → ((state : AgentState Json)
          → resolve_next source state (add_parallel_fanout source branches join_node graph)
            ≡ resolve_next source state graph)
        × ((name : String)
            → fan_out_for name (add_parallel_fanout source branches join_node graph)
              ≡ elim (fan_out_for name graph) [
                | none ↦
                    if str_eq source name
                    then some
                        (record { source = source; branches = branches; join_node = join_node })
                    else none
                | some old ↦ some old
              ])
  unfolding add_parallel_fanout fan_out_for resolve_next
  add_parallel_fanout-routes source join_node branches graph h = (
    λ state. resolve_next-branches source join_node branches _ state h,
    λ name.
        ap (first_from name) (branches-fan_outs source join_node branches _)
        ∙ first_from-snoc name graph.fan_outs _,
  )
