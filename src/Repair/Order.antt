-- ===== src/Repair/Order.antt =====
-- plan/repair.py: normalize_plan sorts by tool, and renumber_steps then sorts by id.
use trip_graph_agent_runtime.Prelude.{
  ℕ, suc, ◌≡◌, refl, sym, ap, inl, inr, ◌∙◌, List, [], ◌∷◌, map, range, length, list_eq, Distinct,
  leb, Bool-cases, if◌then◌else◌,
}
use trip_graph_agent_runtime.Prelude.Sort.{sort, by_key, sort-sort, map-sort_along}
use trip_graph_agent_runtime.Schema.{PlanStep}
use trip_graph_agent_runtime.State.{ids, sorted_steps}
use trip_graph_agent_runtime.Repair.{
  enumerate, tool_le, prefer_tool_execution_order, id_map_of, renumber_steps,
}

pub map-enumerate :
    (index : ℕ) (steps : List PlanStep) → map (λ p. p.1) (enumerate index steps) ≡ steps
unfolding enumerate
map-enumerate index [] = refl
map-enumerate index (s ∷ rest) = ap (λ l. s ∷ l) (map-enumerate (suc index) rest)

ids-enumerate :
    (index : ℕ) (steps : List PlanStep) → map (λ p. p.1.id) (enumerate index steps) ≡ ids steps
unfolding enumerate
ids-enumerate index [] = refl
ids-enumerate index (s ∷ rest) = ap (λ l. s.id ∷ l) (ids-enumerate (suc index) rest)

sorted-by_tool :
    (steps : List PlanStep)
    → Distinct (ids steps)
    → sorted_steps (map (λ p. p.1) (sort tool_le (enumerate 0 steps))) ≡ sorted_steps steps
unfolding sorted_steps
sorted-by_tool steps once =
    let pairs = enumerate 0 steps in
    let id_of = λ (s : PlanStep). s.id in
    let along = map-sort_along {B = ℕ × PlanStep} (λ p. p.1) id_of in
    sym (along (sort tool_le pairs))
    ∙ ap (map (λ p. p.1))
        (sort-sort {A = ℕ × PlanStep} (λ p. p.1.id) tool_le pairs (rw (ids-enumerate 0 steps) once))
    ∙ along pairs
    ∙ ap (sort (by_key id_of)) (map-enumerate 0 steps)

sorted-prefer :
    (steps : List PlanStep)
    → Distinct (ids steps)
    → sorted_steps (prefer_tool_execution_order steps).0 ≡ sorted_steps steps
unfolding prefer_tool_execution_order
sorted-prefer steps once = elim (Bool-cases (leb (length steps) 1)) [
  | inl short ↦ rw (short, if◌then◌else◌)
  | inr long ↦
      let same =
        list_eq (map (λ p. p.0) (sort tool_le (enumerate 0 steps))) (range 0 (length steps)) in
      elim (Bool-cases same) [
        | inl kept ↦ rw (long, if◌then◌else◌, kept)
        | inr moved ↦ rw (long, if◌then◌else◌, moved) (sorted-by_tool steps once)
      ]
]

-- On steps with distinct ids the reordering of prefer_tool_execution_order is undone: renumber_steps
-- gives the same steps and the same id map, with the reordering before it as without, since it sorts
-- by the old ids. The order "weather, map, budget" that the note announces never reaches the plan.
pub renumber_steps-prefer :
    (steps : List PlanStep)
    → Distinct (ids steps)
    → ((renumber_steps (prefer_tool_execution_order steps).0).0 ≡ (renumber_steps steps).0)
      × ((renumber_steps (prefer_tool_execution_order steps).0).1 ≡ (renumber_steps steps).1)
unfolding renumber_steps id_map_of
renumber_steps-prefer steps once = (rw (sorted-prefer steps once), rw (sorted-prefer steps once))
