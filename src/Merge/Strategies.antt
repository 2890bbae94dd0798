-- ===== src/Merge/Strategies.antt =====
-- graph/runtime/state_merge.py: the four strategies of merge_states against one another.
use trip_graph_agent_runtime.Prelude.{
  ◌≡◌, refl, ap, ◌∙◌, List, [], ◌∷◌, is_empty, Bool-cases, inl, inr, arith,
}
use trip_graph_agent_runtime.Errors.{ok}
use trip_graph_agent_runtime.AgentState.{AgentState, Outside}
use trip_graph_agent_runtime.ExecutionGraph.{Graphs}
use trip_graph_agent_runtime.Merge.{
  last_wins, deep_merging, merging_lists, fail_on_conflict, deep_merge, merge_lists,
  detect_conflicts, merge_pair, merge_states,
}

module _ {Json World : Type 0} (out : Outside Json World) where
  -- The last of the branches, or the base state.
  abbrev pub last_of : AgentState Json → List (AgentState Json) → AgentState Json
  last_of base [] = base
  last_of base (branch ∷ rest) = last_of branch rest

  merge_lists-deep_merge :
      (left right : AgentState Json) (graphs : Graphs Json)
      → merge_lists out left right graphs ≡ deep_merge out left right graphs
  unfolding merge_lists deep_merge
  merge_lists-deep_merge left right graphs = refl

  states-last_wins :
      (base : AgentState Json) (branches : List (AgentState Json)) (graphs : Graphs Json)
      → merge_states out last_wins base branches graphs ≡ ok (last_of base branches, graphs)
  unfolding merge_states merge_pair
  states-last_wins base [] graphs = refl
  states-last_wins base (branch ∷ rest) graphs = states-last_wins branch rest graphs

  states-merging_lists :
      (base : AgentState Json) (branches : List (AgentState Json)) (graphs : Graphs Json)
      → merge_states out merging_lists base branches graphs
        ≡ merge_states out deep_merging base branches graphs
  unfolding merge_states merge_pair
  states-merging_lists base [] graphs = refl
  states-merging_lists base (branch ∷ rest) graphs =
      let merged = deep_merge out base branch graphs in
      ap (λ (p : AgentState Json × Graphs Json). merge_states out merging_lists p.0 rest p.1)
        (merge_lists-deep_merge base branch graphs)
      ∙ states-merging_lists merged.0 rest merged.1

  states-fail_on_conflict :
      (base : AgentState Json) (branches : List (AgentState Json)) (graphs : Graphs Json)
      (merged : AgentState Json × Graphs Json)
      → merge_states out fail_on_conflict base branches graphs ≡ ok merged
      → merge_states out deep_merging base branches graphs ≡ ok merged
  unfolding merge_states merge_pair
  states-fail_on_conflict base [] graphs merged h = h
  states-fail_on_conflict base (branch ∷ rest) graphs merged h =
      elim (Bool-cases (is_empty (detect_conflicts out base branch))) [
        | inl e ↦
            let next = deep_merge out base branch graphs in
            states-fail_on_conflict next.0 rest next.1 merged (rw e at h)
        | inr e ↦ absurd (ground (arith, e, h))
      ]

  -- The strategies of merge_states: LAST_WINS returns the last branch; MERGE_LISTS returns what
  -- DEEP_MERGE does; and where FAIL_ON_CONFLICT returns a state, it is that of DEEP_MERGE.
  pub merge_states-strategies :
      (base : AgentState Json) (branches : List (AgentState Json)) (graphs : Graphs Json)
      → (merge_states out last_wins base branches graphs ≡ ok (last_of base branches, graphs))
        × (merge_states out merging_lists base branches graphs
            ≡ merge_states out deep_merging base branches graphs)
        × ((merged : AgentState Json × Graphs Json)
            → merge_states out fail_on_conflict base branches graphs ≡ ok merged
            → merge_states out deep_merging base branches graphs ≡ ok merged)
  merge_states-strategies base branches graphs = (
    states-last_wins base branches graphs,
    states-merging_lists base branches graphs,
    λ merged h. states-fail_on_conflict base branches graphs merged h,
  )
