-- ===== src/Merge/PlanStates.antt =====
-- graph/runtime/state_merge.py: whose plan state the merged state has.
use trip_graph_agent_runtime.Prelude.{
  ◌≡◌, sym, ap, ◌∙◌, some, List, [], ◌∷◌, ◌++◌, is_empty, Bool-cases, inl, inr, arith,
}
use trip_graph_agent_runtime.Errors.{ok, ok-injective, >>=-eq-ok}
use trip_graph_agent_runtime.AgentState.{AgentState, Outside}
use trip_graph_agent_runtime.ExecutionGraph.{Graphs}
use trip_graph_agent_runtime.Merge.{
  MergeStrategy, last_wins, deep_merging, merging_lists, fail_on_conflict, right_or, deep_merge,
  merge_lists, detect_conflicts, merge_pair, merge_states,
}

module _ {Json World : Type 0} (out : Outside Json World) where
  deep_merge-plan_state :
      (left right : AgentState Json) (graphs : Graphs Json) (plan : Json)
      → right.plan_state ≡ some plan
      → (deep_merge out left right graphs).0.plan_state ≡ some plan
  unfolding deep_merge
  deep_merge-plan_state left right graphs plan has = ap (right_or left.plan_state) has

  plan_state-of :
      {a b : AgentState Json × Graphs Json} {plan : Json}
      → ok a ≡ ok b
      → a.0.plan_state ≡ some plan
      → b.0.plan_state ≡ some plan
  plan_state-of h has =
      ap (λ (p : AgentState Json × Graphs Json). p.0.plan_state) (sym (ok-injective h)) ∙ has

  merge_pair-plan_state :
      (strategy : MergeStrategy) (left right : AgentState Json) (graphs : Graphs Json)
      (merged : AgentState Json × Graphs Json) (plan : Json)
      → merge_pair out strategy left right graphs ≡ ok merged
      → right.plan_state ≡ some plan
      → merged.0.plan_state ≡ some plan
  unfolding merge_pair merge_lists
  merge_pair-plan_state last_wins left right graphs merged plan h has = plan_state-of h has
  merge_pair-plan_state deep_merging left right graphs merged plan h has =
      plan_state-of h (deep_merge-plan_state left right graphs plan has)
  merge_pair-plan_state merging_lists left right graphs merged plan h has =
      plan_state-of h (deep_merge-plan_state left right graphs plan has)
  merge_pair-plan_state fail_on_conflict left right graphs merged plan h has =
      elim (Bool-cases (is_empty (detect_conflicts out left right))) [
        | inl e ↦ plan_state-of (rw e at h) (deep_merge-plan_state left right graphs plan has)
        | inr e ↦ absurd (ground (arith, e, h))
      ]

  -- Under every strategy: where merge_states returns a state and the last branch has a plan state,
  -- the merged state has that plan state, whatever the base state and the other branches have.
  pub merge_states-plan_state :
      (strategy : MergeStrategy) (base : AgentState Json) (before : List (AgentState Json))
      (last : AgentState Json) (graphs : Graphs Json) (merged : AgentState Json × Graphs Json)
      (plan : Json)
      → merge_states out strategy base (before ++ (last ∷ [])) graphs ≡ ok merged
      → last.plan_state ≡ some plan
      → merged.0.plan_state ≡ some plan
  unfolding merge_states
  merge_states-plan_state strategy base [] last graphs merged plan h has =
      let (next, e, rest) =
        >>=-eq-ok (merge_pair out strategy base last graphs)
          (λ (p : AgentState Json × Graphs Json). merge_states out strategy p.0 [] p.1) h in
      merge_pair-plan_state strategy base last graphs merged plan (e ∙ rest) has
  merge_states-plan_state strategy base (branch ∷ before) last graphs merged plan h has =
      let (next, e, rest) =
        >>=-eq-ok (merge_pair out strategy base branch graphs)
          (λ (p : AgentState Json × Graphs Json).
            merge_states out strategy p.0 (before ++ (last ∷ [])) p.1)
          h in
      merge_states-plan_state strategy next.0 before last next.1 merged plan rest has
