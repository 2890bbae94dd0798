-- ===== src/Compiler/Wiring.antt =====
-- graph/runtime/compiler/plan_compiler.py: which nodes and fan-outs a compiled graph has.
use trip_graph_agent_runtime.Prelude.{
  ℕ, suc, ◌≡◌, refl, sym, ap, ◌∙◌, String, Bool, true, false, not, ◌&&◌, none, some, List, [], ◌∷◌,
  ◌++◌, map, map-append, append_assoc, append-nil, select, str_eq, Bool-cases, inl, inr, arith,
}
use trip_graph_agent_runtime.Prelude.Names.{Names, find, assign, find-assign, str_eq_refl}
use trip_graph_agent_runtime.Schema.{PlanStep}
use trip_graph_agent_runtime.AgentState.{Outside}
use trip_graph_agent_runtime.Engine.{
  Graph, ParallelFanOut, end_node, add_node, add_edge, add_conditional_edges, add_parallel_fanout,
  add_join_node, join_fn,
}
use trip_graph_agent_runtime.Engine.Routing.{branches-fan_outs, branches-nodes}
use trip_graph_agent_runtime.Compiler.{
  join_id, next_after_join, add_level_edges, level_ids, wire_levels,
}

-- A level of which the steps may run at the same time.
unfoldable pub is_wide : List PlanStep → Bool
is_wide (step ∷ []) = false
is_wide _ = true

module _ {V : Type 0} where
  unfoldable pub has_key : String → Names V → Bool
  unfolding find
  has_key name d = elim (find name d) [ none ↦ false | some v ↦ true ]

  pub has_key-assign :
      (name other : String) (v : V) (d : Names V)
      → has_key other d ≡ true
      → has_key other (assign name v d) ≡ true
  unfolding has_key
  has_key-assign name other v d h = ground (arith, find-assign name other v d, h)

  pub has_key-assign_self :
      (name : String) (v : V) (d : Names V) → has_key name (assign name v d) ≡ true
  unfolding has_key
  has_key-assign_self name v d = ground (arith, find-assign name name v d, str_eq_refl name)

module _ {Json World : Type 0} (out : Outside Json World) where
  abbrev G : Type 0
  G = Graph Json World

  abbrev pub branches_of : G → List (List String)
  branches_of graph = map (λ f. f.branches) graph.fan_outs

  join_node-fan_outs :
      (join next : String) (wait_for : List String) (graph : G)
      → (add_join_node out join wait_for next none graph).fan_outs ≡ graph.fan_outs
  unfolding add_join_node add_edge add_conditional_edges add_node
  join_node-fan_outs join next wait_for graph =
      elim (Bool-cases (not (str_eq next "") && not (str_eq next end_node))) [
        | inl e ↦ rw e refl
        | inr e ↦ rw e refl
      ]

  join_node-nodes :
      (join next : String) (wait_for : List String) (graph : G)
      → (add_join_node out join wait_for next none graph).nodes
        ≡ assign join (join_fn out join wait_for none) graph.nodes
  unfolding add_join_node add_edge add_conditional_edges add_node
  join_node-nodes join next wait_for graph =
      elim (Bool-cases (not (str_eq next "") && not (str_eq next end_node))) [
        | inl e ↦ rw e refl
        | inr e ↦ rw e refl
      ]

  level_edges-nodes :
      (previous join : String) (ids : List String) (graph : G)
      → (add_level_edges previous ids join graph).nodes ≡ graph.nodes
  unfolding add_level_edges add_edge add_conditional_edges add_parallel_fanout
  level_edges-nodes previous join [] graph = refl
  level_edges-nodes previous join (s ∷ []) graph = refl
  level_edges-nodes previous join (s ∷ t ∷ rest) graph =
      branches-nodes previous join (s ∷ t ∷ rest) _

  fanout-branches :
      (previous join : String) (ids : List String) (graph : G)
      → branches_of (add_parallel_fanout previous ids join graph) ≡ branches_of graph ++ (ids ∷ [])
  unfolding add_parallel_fanout
  fanout-branches previous join ids graph =
      ap (map (λ (f : ParallelFanOut). f.branches)) (branches-fan_outs previous join ids _)
      ∙ map-append (λ (f : ParallelFanOut). f.branches) graph.fan_outs _

  level_edges-branches :
      (previous join : String) (level : List PlanStep) (graph : G)
      → branches_of (add_level_edges previous (level_ids level) join graph)
        ≡ branches_of graph ++ map level_ids (select is_wide (level ∷ []))
  unfolding add_level_edges level_ids select is_wide add_edge add_conditional_edges
  level_edges-branches previous join [] graph = fanout-branches previous join [] graph
  level_edges-branches previous join (s ∷ []) graph = sym (append-nil _)
  level_edges-branches previous join (s ∷ t ∷ rest) graph =
      fanout-branches previous join (level_ids (s ∷ t ∷ rest)) graph

  select-cons :
      (level : List PlanStep) (later : List (List PlanStep))
      → select is_wide (level ∷ later) ≡ select is_wide (level ∷ []) ++ select is_wide later
  unfolding select
  select-cons level later = elim (Bool-cases (is_wide level)) [
    | inl e ↦ rw e refl
    | inr e ↦ rw e refl
  ]

  pub wire_levels-branches :
      (index : ℕ) (previous : String) (levels : List (List PlanStep)) (graph : G)
      → branches_of (wire_levels out index previous levels graph)
        ≡ branches_of graph ++ map level_ids (select is_wide levels)
  unfolding wire_levels select
  wire_levels-branches index previous [] graph = sym (append-nil _)
  wire_levels-branches index previous (level ∷ later) graph =
      let edged = add_level_edges previous (level_ids level) (join_id index) graph in
      let joined =
        add_join_node out (join_id index) (level_ids level) (next_after_join later) none edged in
      wire_levels-branches (suc index) (join_id index) later joined
      ∙ ap
          (λ (f : List ParallelFanOut).
            map (λ (x : ParallelFanOut). x.branches) f ++ map level_ids (select is_wide later))
          (join_node-fan_outs (join_id index) (next_after_join later) (level_ids level) edged)
      ∙ ap (λ (l : List (List String)). l ++ map level_ids (select is_wide later))
          (level_edges-branches previous (join_id index) level graph)
      ∙ append_assoc (branches_of graph) _ _
      ∙ ap (λ (l : List (List String)). branches_of graph ++ l)
          (sym (map-append level_ids (select is_wide (level ∷ [])) (select is_wide later))
            ∙ ap (map level_ids) (sym (select-cons level later)))

  pub wire_levels-nodes :
      (index : ℕ) (previous name : String) (levels : List (List PlanStep)) (graph : G)
      → has_key name graph.nodes ≡ true
      → has_key name (wire_levels out index previous levels graph).nodes ≡ true
  unfolding wire_levels
  wire_levels-nodes index previous name [] graph h = h
  wire_levels-nodes index previous name (level ∷ later) graph h =
      let edged = add_level_edges previous (level_ids level) (join_id index) graph in
      wire_levels-nodes (suc index) (join_id index) name later _ (
        ap (has_key name)
          (join_node-nodes (join_id index) (next_after_join later) (level_ids level) edged)
        ∙ has_key-assign (join_id index) name _ edged.nodes (
            ap (has_key name) (level_edges-nodes previous (join_id index) (level_ids level) graph)
            ∙ h))
