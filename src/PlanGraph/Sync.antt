-- ===== src/PlanGraph/Sync.antt =====
-- plan/graph.py: after sync_from_state the graph mirrors the plan's state.
use trip_graph_agent_runtime.Prelude.{
  ℕ, ◌≡◌, refl, inl, inr, String, true, false, Option, some, List, [], ◌∷◌, elem, All, Bool-cases,
  arith,
}
use trip_graph_agent_runtime.Prelude.Dict.{Dict, lookup, insert, lookup-insert, remove_all}
use trip_graph_agent_runtime.Errors.{ok}
use trip_graph_agent_runtime.Schema.{StepStatus, PlanStep}
use trip_graph_agent_runtime.State.{PlanState, ids, status_in, get_step_status}
use trip_graph_agent_runtime.GraphSchema.{GraphNodeStatus}
use trip_graph_agent_runtime.PlanGraph.{
  PlanGraph, index_steps, error_at, mirror, gone, map_status, sync_steps, sync_from_state,
}

-- The step has a status.
abbrev pub IsKnown : Dict StepStatus → ℕ → Type 0
IsKnown d k = (st : StepStatus) × (lookup k d ≡ some st)

lookup-index_other :
    (k : ℕ) (d : Dict PlanStep) (l : List PlanStep)
    → elem k (ids l) ≡ false
    → lookup k (index_steps d l) ≡ lookup k d
unfolding index_steps elem
lookup-index_other k d [] h = refl
lookup-index_other k d (s ∷ rest) h =
    ground (arith, lookup-index_other k (insert s.id s d) rest, lookup-insert s.id k s d)

lookup-index :
    (k : ℕ) (d : Dict PlanStep) (l : List PlanStep)
    → elem k (ids l) ≡ true
    → (s : PlanStep) × (lookup k (index_steps d l) ≡ some s)
unfolding index_steps elem
lookup-index k d [] h = absurd (ground arith)
lookup-index k d (s ∷ rest) h = elim (Bool-cases (elem k (ids rest))) [
  | inl later ↦ lookup-index k (insert s.id s d) rest later
  | inr last ↦ (
    s,
    ground (arith, lookup-index_other k (insert s.id s d) rest last, lookup-insert s.id k s d),
  )
]

module _ {Json Context : Type 0} (s : PlanState Json Context) where
  -- The tables after the loop over the steps.
  record Mirrors (l : List PlanStep) (before after : Dict GraphNodeStatus) : Type 0 where
    hit :
        (k : ℕ) (st : StepStatus)
        → elem k (ids l) ≡ true
        → lookup k s.step_status ≡ some st
        → lookup k after ≡ some (map_status st)
    miss : (k : ℕ) → elem k (ids l) ≡ false → lookup k after ≡ lookup k before

  sync_steps-Mirrors :
      (l : List PlanStep) (before : Dict GraphNodeStatus) (errors : Dict (Option String))
      → All (λ step. IsKnown s.step_status step.id) l
      → (after : Dict GraphNodeStatus) × (errors' : Dict (Option String)) × (sync_steps s l before
            errors
          ≡ ok (after, errors'))
        × Mirrors l before after
  unfolding sync_steps get_step_status status_in elem
  sync_steps-Mirrors [] before errors known =
      (before, errors, refl, record { hit = λ k st m e. absurd (ground arith); miss = λ k m. refl })
  sync_steps-Mirrors (step ∷ rest) before errors known =
      let (st, e) = known.0 in
      let before' = insert step.id (map_status st) before in
      let (after, errors', runs, mirrors) =
        sync_steps-Mirrors rest before' (insert step.id (error_at s step.id) errors) known.1 in
      (
        after,
        errors',
        ground (arith, e, runs),
        record {
          hit = λ k st' m e'. elim (Bool-cases (elem k (ids rest))) [
            | inl later ↦ mirrors.hit k st' later e'
            | inr last ↦
                ground (
                  arith,
                  mirrors.miss k last,
                  lookup-insert step.id k (map_status st) before,
                  e,
                  e',
                )
          ];
          miss =
              λ k m. ground (arith, mirrors.miss k, lookup-insert step.id k (map_status st) before);
        },
      )

-- When every step of the plan has a status, sync_from_state does not raise. Every step of the plan
-- is then a node of the graph, so set_node_status finds it, and its node status is the image of its
-- step status: COMPLETED and SKIPPED become SUCCESS, the others keep their name.
pub sync_from_state-mirrors :
    {Json Context : Type 0} (g : PlanGraph) (s : PlanState Json Context)
    → All (λ step. IsKnown s.step_status step.id) s.plan.steps
    → (g' : PlanGraph) × (sync_from_state g s ≡ ok g')
      × ((k : ℕ)
          → elem k (ids s.plan.steps) ≡ true
          → (step : PlanStep) × (lookup k g'.steps ≡ some step))
      × ((k : ℕ) (st : StepStatus)
          → elem k (ids s.plan.steps) ≡ true
          → lookup k s.step_status ≡ some st
          → lookup k g'.status ≡ some (map_status st))
unfolding sync_from_state
sync_from_state-mirrors g s known =
    let (after, errors, runs, mirrors) =
      sync_steps-Mirrors s s.plan.steps (remove_all (gone g s.plan.steps) g.status)
        (remove_all (gone g s.plan.steps) g.errors) known in
    (mirror s after errors, rw runs, λ k m. lookup-index k [] s.plan.steps m, mirrors.hit)
