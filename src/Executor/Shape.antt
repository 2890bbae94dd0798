-- ===== src/Executor/Shape.antt =====
-- plan/executor.py: what running one step leaves alone.
use trip_graph_agent_runtime.Prelude.{
  ℕ, ◌≡◌, refl, ap, inl, inr, ◌∙◌, false, Option, none, some, List, [], ◌∷◌, All, Distinct, ◌==◌,
  Option-cases, arith,
}
use trip_graph_agent_runtime.Prelude.Dict.{Dict, lookup, insert, keys, lookup-insert}
use trip_graph_agent_runtime.Errors.{ok}
use trip_graph_agent_runtime.Schema.{StepStatus, PlanStep}
use trip_graph_agent_runtime.GraphSchema.{GraphNodeStatus}
use trip_graph_agent_runtime.State.{ids}
use trip_graph_agent_runtime.State.Lookup.{Distinct-insert}
use trip_graph_agent_runtime.State.Schedule.{HasPriorDeps}
use trip_graph_agent_runtime.PlanGraph.{set_node_status}
use trip_graph_agent_runtime.Executor.{Services, Run, update_graph_node}

-- A predicate on ids, over steps and over the list of their ids.
module _ {κ} (P : ℕ → Type κ) where
  pub All-ids : (steps : List PlanStep) → All (λ s. P s.id) steps → All P (ids steps)
  All-ids [] h = tt
  All-ids (s ∷ rest) h = (h.0, All-ids rest h.1)

  pub All-steps : (steps : List PlanStep) → All P (ids steps) → All (λ s. P s.id) steps
  All-steps [] h = tt
  All-steps (s ∷ rest) h = (h.0, All-steps rest h.1)

module _ {Json : Type 0} {sv : Services Json} where
  abbrev pub steps_of : Run sv → List PlanStep
  steps_of r = r.state.plan.steps

  abbrev pub status_of : Run sv → Dict StepStatus
  status_of r = r.state.step_status

  -- The steps that the graph knows.
  abbrev graph_index : Run sv → Option (Dict PlanStep)
  graph_index r = elim r.graph [ none ↦ none | some g ↦ some g.steps ]

  -- Running the step k leaves the ids and the dependencies of the plan, the steps that the graph
  -- knows, and the status of every other step.
  pub record Keeps (k : ℕ) (r r' : Run sv) : Type 0 where
    pub same_ids : ids (steps_of r') ≡ ids (steps_of r)
    pub prior :
        All (HasPriorDeps (steps_of r)) (steps_of r)
        → All (HasPriorDeps (steps_of r')) (steps_of r')
    pub elsewhere : (j : ℕ) → (k == j) ≡ false → lookup j (status_of r') ≡ lookup j (status_of r)
    pub unique : Distinct (keys (status_of r)) → Distinct (keys (status_of r'))
    pub index : graph_index r' ≡ graph_index r

  pub Keeps-trans : (k : ℕ) (r s t : Run sv) → Keeps k r s → Keeps k s t → Keeps k r t
  Keeps-trans k r s t h g = record {
    same_ids = g.same_ids ∙ h.same_ids;
    prior = λ p. g.prior (h.prior p);
    elsewhere = λ j e. g.elsewhere j e ∙ h.elsewhere j e;
    unique = λ u. g.unique (h.unique u);
    index = g.index ∙ h.index;
  }

  -- Where the plan and the graph are the same and the status of k alone is written.
  pub Keeps-insert :
      (k : ℕ) (st : StepStatus) (r r' : Run sv)
      → steps_of r' ≡ steps_of r
      → status_of r' ≡ insert k st (status_of r)
      → graph_index r' ≡ graph_index r
      → Keeps k r r'
  Keeps-insert k st r r' steps statuses index = record {
    same_ids = ap ids steps;
    prior = λ p. rw steps p;
    elsewhere = λ j e. rw statuses (ground (arith, lookup-insert k j st (status_of r), e));
    unique = λ u. rw statuses (Distinct-insert k st (status_of r) u);
    index = index;
  }

  pub Keeps-same :
      (k : ℕ) (r r' : Run sv)
      → steps_of r' ≡ steps_of r
      → status_of r' ≡ status_of r
      → graph_index r' ≡ graph_index r
      → Keeps k r r'
  Keeps-same k r r' steps statuses index = record {
    same_ids = ap ids steps;
    prior = λ p. rw steps p;
    elsewhere = λ j e. rw statuses refl;
    unique = λ u. rw statuses u;
    index = index;
  }

  -- If there is a graph, it knows the step.
  abbrev pub KnowsStep : ℕ → Run sv → Type 0
  KnowsStep k r =
      (d : Dict PlanStep) → graph_index r ≡ some d → (s : PlanStep) × (lookup k d ≡ some s)

  pub update_graph_node-ok :
      (k : ℕ) (st : GraphNodeStatus) (r : Run sv)
      → KnowsStep k r
      → (r' : Run sv) × (update_graph_node sv k st r ≡ ok r')
        × (r'.state ≡ r.state)
        × (graph_index r' ≡ graph_index r)
  unfolding update_graph_node set_node_status
  update_graph_node-ok k st r knows = elim (Option-cases r.graph) [
    | inl absent ↦ (r, ground (arith, absent), refl, refl)
    | inr (g, present) ↦
        let (s, found) = knows g.steps (ground (arith, present)) in
        (
          record r { graph = some (record g { status = insert k st g.status }) },
          ground (arith, present, found),
          refl,
          ground (arith, present),
        )
  ]
