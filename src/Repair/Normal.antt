-- ===== src/Repair/Normal.antt =====
-- plan/repair.py and plan/validator.py together: which plans normalize_plan makes valid.
use trip_graph_agent_runtime.Prelude.{
  ◌≡◌, refl, sym, ap, subst, inl, inr, String, true, false, ◌&&◌, List, [], ◌∷◌, is_empty, All,
  All-map, Distinct, Bool-cases, if◌then◌else◌,
}
use trip_graph_agent_runtime.Prelude.Text.{is_blank}
use trip_graph_agent_runtime.Schema.{PlanStep, Plan, truthy}
use trip_graph_agent_runtime.State.{ids}
use trip_graph_agent_runtime.Validator.{validate}
use trip_graph_agent_runtime.Validator.Checks.{registered}
use trip_graph_agent_runtime.Validator.Accepts.{IsValidPlan, validate_iff}
use trip_graph_agent_runtime.Repair.{
  renumber_steps, remove_duplicate_steps, deduplicate_budget_steps, normalize_synthesis_steps,
  is_synthesis_task, prefer_tool_execution_order, normalize_plan,
}
use trip_graph_agent_runtime.Repair.Dedup.{All-dedup_from, Distinct-dedup_from, dedup-not_empty}
use trip_graph_agent_runtime.Repair.Budget.{IsSound, deduplicate_budget_steps-IsSound}
use trip_graph_agent_runtime.Repair.Order.{renumber_steps-prefer}
use trip_graph_agent_runtime.Repair.Valid.{renumber_steps-IsValidPlan}

-- normalize_synthesis_steps clears hints and changes nothing else.
ids-normalize_synthesis :
    (steps : List PlanStep) → ids (normalize_synthesis_steps steps).0 ≡ ids steps
unfolding normalize_synthesis_steps
ids-normalize_synthesis [] = refl
ids-normalize_synthesis (s ∷ rest) =
    elim (Bool-cases (truthy s.tool_hint && is_synthesis_task s.task)) [
      | inl e ↦ rw (e, if◌then◌else◌) (ap (λ l. s.id ∷ l) (ids-normalize_synthesis rest))
      | inr e ↦ rw (e, if◌then◌else◌) (ap (λ l. s.id ∷ l) (ids-normalize_synthesis rest))
    ]

-- The texts of a step that validate looks at.
abbrev HasTexts : List String → PlanStep → Type 0
HasTexts available s = (is_blank s.task ≡ false) × (registered available s.tool_hint ≡ true)

texts-normalize_synthesis :
    (available : List String) (steps : List PlanStep)
    → All (HasTexts available) steps
    → All (HasTexts available) (normalize_synthesis_steps steps).0
unfolding normalize_synthesis_steps
texts-normalize_synthesis available [] h = tt
texts-normalize_synthesis available (s ∷ rest) h =
    elim (Bool-cases (truthy s.tool_hint && is_synthesis_task s.task)) [
      | inl e ↦ rw (e, if◌then◌else◌) ((h.0.0, refl), texts-normalize_synthesis available rest h.1)
      | inr e ↦ rw (e, if◌then◌else◌) (h.0, texts-normalize_synthesis available rest h.1)
    ]

normalize_synthesis-not_empty :
    (steps : List PlanStep)
    → is_empty steps ≡ false
    → is_empty (normalize_synthesis_steps steps).0 ≡ false
unfolding normalize_synthesis_steps
normalize_synthesis-not_empty [] h = h
normalize_synthesis-not_empty (s ∷ rest) h =
    elim (Bool-cases (truthy s.tool_hint && is_synthesis_task s.task)) [
      | inl e ↦ rw (e, if◌then◌else◌) refl
      | inr e ↦ rw (e, if◌then◌else◌) refl
    ]

normalize_synthesis-IsSound :
    (available : List String) (steps : List PlanStep)
    → IsSound (HasTexts available) steps
    → IsSound (HasTexts available) (normalize_synthesis_steps steps).0
normalize_synthesis-IsSound available steps h = record {
  each = texts-normalize_synthesis available steps h.each;
  some_step = normalize_synthesis-not_empty steps h.some_step;
  once = subst Distinct (sym (ids-normalize_synthesis steps)) h.once;
}

dedup-IsSound :
    (available : List String) (steps : List PlanStep)
    → IsSound (HasTexts available) steps
    → IsSound (HasTexts available) (remove_duplicate_steps steps).0
unfolding remove_duplicate_steps
dedup-IsSound available steps h = record {
  each = All-dedup_from (HasTexts available) [] steps h.each;
  some_step = dedup-not_empty steps h.some_step;
  once = Distinct-dedup_from [] steps h.once;
}

renumbered-IsValidPlan :
    (available : List String) (goal : String) (steps : List PlanStep)
    → is_blank goal ≡ false
    → IsSound (HasTexts available) steps
    → IsValidPlan available
        (record { goal = goal; steps = (renumber_steps (prefer_tool_execution_order steps).0).0 })
renumbered-IsValidPlan available goal steps has_goal h =
    subst (λ l. IsValidPlan available (record { goal = goal; steps = l }))
      (sym (renumber_steps-prefer steps h.once).0)
      (renumber_steps-IsValidPlan available goal steps has_goal h.some_step
        (All-map (HasTexts available) (λ s. is_blank s.task ≡ false) steps (λ s t. t.0) h.each)
        (All-map (HasTexts available) (λ s. registered available s.tool_hint ≡ true) steps
          (λ s t. t.1) h.each)
        h.once)

-- A plan with a goal and steps whose texts are not blank, whose hints name registered tools and whose
-- ids are distinct passes validate after normalize_plan, its passes for duplicates, budget steps,
-- synthesis steps and order by tool and then the renumbering, whatever the dependencies were.
pub normalize_plan-validates :
    (available : List String) (plan : Plan)
    → is_blank plan.goal ≡ false
    → is_empty plan.steps ≡ false
    → All (λ s. (is_blank s.task ≡ false) × (registered available s.tool_hint ≡ true)) plan.steps
    → Distinct (ids plan.steps)
    → (validate available (normalize_plan plan).plan).success ≡ true
unfolding normalize_plan
normalize_plan-validates available plan has_goal some_step texts once =
    let deduplicated = (remove_duplicate_steps plan.steps).0 in
    let budgeted = (deduplicate_budget_steps deduplicated).0 in
    (validate_iff available (normalize_plan plan).plan).1 (
      renumbered-IsValidPlan available plan.goal (normalize_synthesis_steps budgeted).0 has_goal (
        normalize_synthesis-IsSound available budgeted (
          deduplicate_budget_steps-IsSound (HasTexts available) deduplicated (
            dedup-IsSound available plan.steps
              (record { each = texts; some_step = some_step; once = once })))))
