-- ===== src/State/Fresh.antt =====
-- plan/state.py: PlanState.from_plan, the state before the first step.
use trip_graph_agent_runtime.Prelude.{
  ℕ, ◌≡◌, refl, inl, String, true, List, [], elem, All, All-map, arith,
}
use trip_graph_agent_runtime.Prelude.Dict.{lookup, insert_all, lookup-insert_all}
use trip_graph_agent_runtime.Schema.{pending, PlanStep, Plan, is_pending}
use trip_graph_agent_runtime.State
use trip_graph_agent_runtime.State.{PlanState, ids}
use trip_graph_agent_runtime.State.Lookup.{Distinct-insert_all}
use trip_graph_agent_runtime.State.Schedule.{IsSettled, HasPriorDeps, All-inside}
use trip_graph_agent_runtime.State.Progress.{IsReady}

IsSettled-fresh :
    (ks : List ℕ) (steps : List PlanStep)
    → All (λ s. elem s.id ks ≡ true) steps
    → All (λ s. IsSettled (insert_all ks pending []) s.id) steps
IsSettled-fresh ks steps = All-map _ _ steps (λ s m. (
  pending,
  unfold lookup in ground (arith, lookup-insert_all ks s.id pending [], m),
  inl (unfold is_pending in refl),
))

module _ {Json Context : Type 0} where
  -- A fresh state of a plan whose dependencies point backwards satisfies the invariant.
  pub from_plan-IsReady :
      (plan : Plan) (session : String) (context : Context)
      → All (HasPriorDeps plan.steps) plan.steps
      → IsReady (State.from_plan {Json = Json} plan session context)
  unfolding State.from_plan
  from_plan-IsReady plan session context prior = record {
    unique = Distinct-insert_all (ids plan.steps) pending [] tt;
    prior = prior;
    settled =
        IsSettled-fresh (ids plan.steps) plan.steps (All-inside plan.steps plan.steps (λ k m. m));
  }
