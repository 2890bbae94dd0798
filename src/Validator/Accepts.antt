-- ===== src/Validator/Accepts.antt =====
-- plan/validator.py: the plans that validate accepts, described without the checks.
use trip_graph_agent_runtime.Prelude.{
  ◌<◌, ◌≡◌, refl, ◌↔◌, String, true, false, List, [], ◌∷◌, elem, range, Distinct-range, length,
  is_empty, All, All-map, Distinct, leb, arith,
}
use trip_graph_agent_runtime.Prelude.Sort.{sort}
use trip_graph_agent_runtime.Prelude.Ascending.{Distinct-unsort}
use trip_graph_agent_runtime.Prelude.Text.{is_blank}
use trip_graph_agent_runtime.Schema.{PlanStep, Plan, deps_of}
use trip_graph_agent_runtime.State.{ids}
use trip_graph_agent_runtime.State.Schedule.{HasPriorDeps}
use trip_graph_agent_runtime.Validator.{
  validate_structure, content_errors, validate_step_id_continuity, validate_duplicate_step_ids,
  validate_dependencies_exist, validate_tool_hints, validate,
}
use trip_graph_agent_runtime.Validator.Acyclic.{Below}
use trip_graph_agent_runtime.Validator.Checks.{
  append-eq-nil, structure_iff, continuity_iff, distinct→no_duplicates, dependencies_iff,
  registered, hints_iff, cycles-nil,
}

-- What validate is meant to accept: texts that are not blank, ids that are 1, ..., n in some order,
-- dependencies that are earlier steps of the plan, hints that name registered tools.
pub record IsValidPlan (available : List String) (plan : Plan) : Type 0 where
  pub has_goal : is_blank plan.goal ≡ false
  pub has_steps : is_empty plan.steps ≡ false
  pub has_tasks : All (λ s. is_blank s.task ≡ false) plan.steps
  pub numbered : sort leb (ids plan.steps) ≡ range 1 (length plan.steps)
  pub prior : All (HasPriorDeps plan.steps) plan.steps
  pub hinted : All (λ s. registered available s.tool_hint ≡ true) plan.steps

numbered-Distinct :
    (steps : List PlanStep) → sort leb (ids steps) ≡ range 1 (length steps) → Distinct (ids steps)
numbered-Distinct steps h = Distinct-unsort (ids steps) (rw h (Distinct-range 1 (length steps)))

prior-Below :
    (steps xs : List PlanStep) → All (HasPriorDeps steps) xs → All (λ s. Below s.id (deps_of s)) xs
prior-Below steps xs h =
    All-map (HasPriorDeps steps) (λ s. Below s.id (deps_of s)) xs
      (λ s.
        All-map (λ d. (d < s.id) × (elem d (ids steps) ≡ true)) (λ d. d < s.id) (deps_of s)
          (λ d p. p.0))
      h

content_errors-nil :
    (available : List String) (plan : Plan)
    → IsValidPlan available plan
    → content_errors available plan ≡ []
unfolding content_errors validate_duplicate_step_ids
content_errors-nil available plan v = rw (
  (continuity_iff plan.steps v.has_steps).1 v.numbered,
  distinct→no_duplicates (ids plan.steps) (numbered-Distinct plan.steps v.numbered),
  (dependencies_iff plan.steps (ids plan.steps)).1 v.prior,
  cycles-nil plan.steps (prior-Below plan.steps plan.steps v.prior),
  (hints_iff available plan.steps).1 v.hinted,
)

content_errors-parts :
    (available : List String) (plan : Plan)
    → content_errors available plan ≡ []
    → (validate_step_id_continuity plan.steps ≡ [])
      × (validate_dependencies_exist plan.steps (ids plan.steps) ≡ [])
      × (validate_tool_hints available plan.steps ≡ [])
unfolding content_errors
content_errors-parts available plan h =
    let (a, h1) = append-eq-nil _ _ h in
    let (b, h2) = append-eq-nil _ _ h1 in
    let (c, h3) = append-eq-nil _ _ h2 in let (d, e) = append-eq-nil _ _ h3 in (a, c, e)

is_empty→nil {ℓ} : {A : Type ℓ} (xs : List A) → is_empty xs ≡ true → xs ≡ []
is_empty→nil [] h = refl
is_empty→nil (x ∷ xs) h = absurd (ground arith)

-- validate succeeds exactly on the plans of IsValidPlan: the goal and every task are not blank, there
-- is a step, the sorted ids are 1, ..., n, every dependency is an earlier step of the plan, and every
-- hint names a registered tool. The checks for duplicates and for cycles reject nothing further.
pub validate_iff :
    (available : List String) (plan : Plan)
    → ((validate available plan).success ≡ true) ↔ IsValidPlan available plan
unfolding validate
validate_iff available plan = (
  accepted,
  λ v. ground (
    arith,
    (structure_iff plan).1 (v.has_goal, v.has_steps, v.has_tasks),
    content_errors-nil available plan v,
  ),
)
  where
    accepted : (validate available plan).success ≡ true → IsValidPlan available plan
    accepted h =
        let sound : validate_structure plan ≡ [] = is_empty→nil _ (ground (arith, h)) in
        let clean : content_errors available plan ≡ [] = is_empty→nil _ (ground (arith, h)) in
        let (goal, some_step, tasks) = (structure_iff plan).0 sound in
        let (numbers, deps, hints) = content_errors-parts available plan clean in
        record {
          has_goal = goal;
          has_steps = some_step;
          has_tasks = tasks;
          numbered = (continuity_iff plan.steps some_step).0 numbers;
          prior = (dependencies_iff plan.steps (ids plan.steps)).0 deps;
          hinted = (hints_iff available plan.steps).0 hints;
        }
