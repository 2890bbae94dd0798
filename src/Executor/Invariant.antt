-- ===== src/Executor/Invariant.antt =====
-- plan/executor.py: the invariant of the executor's loop, and the steps that are left as its measure.
use trip_graph_agent_runtime.Prelude.{
  ℕ, ◌+◌, ◌≤◌, ◌<◌, ◌≡◌, refl, sym, subst, inl, inr, ◌∙◌, true, false, some, List, [], ◌∷◌, elem,
  All, All-map, ◌==◌, ==_iff, Bool-cases, Option-cases, if◌then◌else◌, arith,
}
use trip_graph_agent_runtime.Prelude.Dict.{Dict, lookup}
use trip_graph_agent_runtime.Errors.{ok}
use trip_graph_agent_runtime.Schema.{StepStatus, PlanStep}
use trip_graph_agent_runtime.State.{ids}
use trip_graph_agent_runtime.State.Lookup.{finished_at, finished_at→found}
use trip_graph_agent_runtime.State.Schedule.{IsSettled}
use trip_graph_agent_runtime.State.Progress.{IsReady}
use trip_graph_agent_runtime.PlanGraph.Sync.{IsKnown, sync_from_state-mirrors}
use trip_graph_agent_runtime.Executor.{Services, Run, sync_graph}
use trip_graph_agent_runtime.Executor.Shape.{
  All-ids, All-steps, steps_of, status_of, Keeps, KnowsStep,
}

-- The ids that are not finished yet, counted.
abbrev pub waiting : Dict StepStatus → List ℕ → ℕ
waiting d [] = 0
waiting d (k ∷ ks) = (if finished_at d k then 0 else 1) + waiting d ks

finished_at-same :
    (d d' : Dict StepStatus) (j : ℕ) → lookup j d' ≡ lookup j d → finished_at d' j ≡ finished_at d j
unfolding finished_at
finished_at-same d d' j e = rw (e, finished_at)

waiting-le :
    (d d' : Dict StepStatus) (k : ℕ) (ks : List ℕ)
    → ((j : ℕ) → (k == j) ≡ false → lookup j d' ≡ lookup j d)
    → finished_at d' k ≡ true
    → waiting d' ks ≤ waiting d ks
waiting-le d d' k [] same done = omega arith
waiting-le d d' k (x ∷ xs) same done = elim (Bool-cases (k == x)) [
  | inl e ↦ rw (sym ((==_iff k x).0 e)) (ground (arith, done, waiting-le d d' k xs same done))
  | inr e ↦ ground (arith, finished_at-same d d' x (same x e), waiting-le d d' k xs same done)
]

pub waiting-lt :
    (d d' : Dict StepStatus) (k : ℕ) (ks : List ℕ)
    → ((j : ℕ) → (k == j) ≡ false → lookup j d' ≡ lookup j d)
    → finished_at d' k ≡ true
    → finished_at d k ≡ false
    → elem k ks ≡ true
    → waiting d' ks < waiting d ks
unfolding elem
waiting-lt d d' k [] same done before m = absurd (ground arith)
waiting-lt d d' k (x ∷ xs) same done before m = elim (Bool-cases (k == x)) [
  | inl e ↦
      rw (sym ((==_iff k x).0 e)) (ground (arith, done, before, waiting-le d d' k xs same done))
  | inr e ↦ ground (
    arith,
    finished_at-same d d' x (same x e),
    waiting-lt d d' k xs same done before (ground arith),
  )
]

pub settled→known :
    (d : Dict StepStatus) (steps : List PlanStep)
    → All (λ s. IsSettled d s.id) steps
    → All (λ s. IsKnown d s.id) steps
settled→known d steps = All-map _ _ steps (λ s (st, e, kind). (st, e))

module _ {Json : Type 0} {sv : Services Json} where
  -- If there is a graph, it knows every step of the plan.
  abbrev Covers : Run sv → Type 0
  Covers r = (k : ℕ) → elem k (ids (steps_of r)) ≡ true → KnowsStep k r

  pub record IsGood (r : Run sv) : Type 0 where
    pub ready : IsReady r.state
    pub covers : Covers r

  abbrev pub left_over : Run sv → ℕ
  left_over r = waiting (status_of r) (ids (steps_of r))

  -- A refresh of the graph changes the graph alone, and the graph then knows every step.
  pub sync_graph-ok :
      (r : Run sv)
      → All (λ s. IsKnown (status_of r) s.id) (steps_of r)
      → (r' : Run sv) × (sync_graph sv r ≡ ok r') × (r'.state ≡ r.state) × Covers r'
  unfolding sync_graph
  sync_graph-ok r known = elim (Option-cases r.graph) [
    | inl absent ↦ (r, ground (arith, absent), refl, λ k m d e. absurd (ground (arith, absent, e)))
    | inr (g, present) ↦
        let (g', runs, index, statuses) = sync_from_state-mirrors g r.state known in
        (
          record r { graph = some g' },
          ground (arith, present, runs),
          refl,
          λ k m d e. let (s, found) = index k m in (s, ground (arith, e, found)),
        )
  ]

  -- After a step is settled the statuses are settled still.
  pub IsSettled-after :
      (k : ℕ) (r r' : Run sv)
      → Keeps k r r'
      → finished_at (status_of r') k ≡ true
      → All (λ s. IsSettled (status_of r) s.id) (steps_of r)
      → All (λ s. IsSettled (status_of r') s.id) (steps_of r')
  IsSettled-after k r r' kept done settled = All-steps (IsSettled (status_of r')) (steps_of r') (
      subst (All (IsSettled (status_of r'))) (sym kept.same_ids) (
        All-map (IsSettled (status_of r)) (IsSettled (status_of r')) (ids (steps_of r)) one
          (All-ids (IsSettled (status_of r)) (steps_of r) settled)))
    where
      one : (j : ℕ) → IsSettled (status_of r) j → IsSettled (status_of r') j
      one j (st, e, kind) = elim (Bool-cases (k == j)) [
        | inl here ↦
            let (st', e', fin) = finished_at→found (status_of r') k done in
            (st', rw (sym ((==_iff k j).0 here)) e', inr fin)
        | inr other ↦ (st, kept.elsewhere j other ∙ e, kind)
      ]
