-- ===== src/Repair/Valid.antt =====
-- plan/repair.py and plan/validator.py together: which plans repair_plan makes valid.
use trip_graph_agent_runtime.Prelude.{
  ℕ, ◌≡◌, refl, sym, ap, ◌∙◌, String, true, false, Option, List, [], ◌∷◌, map, range, length,
  length-map, is_empty, All, Distinct, leb, arith,
}
use trip_graph_agent_runtime.Prelude.Sort.{sort, by_key, All-sort}
use trip_graph_agent_runtime.Prelude.Ascending.{sort-range}
use trip_graph_agent_runtime.Prelude.Dict.{Dict}
use trip_graph_agent_runtime.Prelude.Text.{is_blank}
use trip_graph_agent_runtime.Schema.{PlanStep, Plan}
use trip_graph_agent_runtime.State.{ids, sorted_steps}
use trip_graph_agent_runtime.Validator.{validate}
use trip_graph_agent_runtime.Validator.Checks.{registered}
use trip_graph_agent_runtime.Validator.Accepts.{IsValidPlan, validate_iff}
use trip_graph_agent_runtime.Repair.{
  remap_step, renumber_steps, id_map_of, remove_duplicate_steps, repair_plan,
}
use trip_graph_agent_runtime.Repair.Renumber.{
  renumber_steps-ids_iff, renumber_steps-prior, length-sorted,
}
use trip_graph_agent_runtime.Repair.Dedup.{All-dedup_from, Distinct-dedup_from, dedup-not_empty}

-- What holds of the texts of every step holds after renumbering.
module _ (P : String → Option String → Type 0) where
  abbrev Texts : List PlanStep → Type 0
  Texts steps = All (λ s. P s.task s.tool_hint) steps

  All-map_remap : (m : Dict ℕ) (l : List PlanStep) → Texts l → Texts (map (remap_step m) l)
  unfolding remap_step
  All-map_remap m [] h = tt
  All-map_remap m (s ∷ rest) h = (h.0, All-map_remap m rest h.1)

  All-renumber : (steps : List PlanStep) → Texts steps → Texts (renumber_steps steps).0
  unfolding renumber_steps sorted_steps
  All-renumber steps h =
      All-map_remap (id_map_of steps) (sorted_steps steps)
        (All-sort (λ s. P s.task s.tool_hint) (by_key (λ s. s.id)) steps h)

length-renumber : (steps : List PlanStep) → length (renumber_steps steps).0 ≡ length steps
unfolding renumber_steps
length-renumber steps =
    length-map (remap_step (id_map_of steps)) (sorted_steps steps) ∙ length-sorted steps

is_empty-length {ℓ κ} :
    {A : Type ℓ} {B : Type κ} (xs : List A) (ys : List B)
    → length xs ≡ length ys
    → is_empty ys ≡ false
    → is_empty xs ≡ false
is_empty-length [] [] e h = h
is_empty-length [] (y ∷ ys) e h = absurd (omega arith)
is_empty-length (x ∷ xs) ys e h = refl

-- renumber_steps numbers the steps of a plan whose ids are distinct so that the plan is valid.
pub renumber_steps-IsValidPlan :
    (available : List String) (goal : String) (steps : List PlanStep)
    → is_blank goal ≡ false
    → is_empty steps ≡ false
    → All (λ s. is_blank s.task ≡ false) steps
    → All (λ s. registered available s.tool_hint ≡ true) steps
    → Distinct (ids steps)
    → IsValidPlan available (record { goal = goal; steps = (renumber_steps steps).0 })
renumber_steps-IsValidPlan available goal steps has_goal some_step tasks hints once =
    let numbered = (renumber_steps-ids_iff steps).1 once in
    record {
      has_goal = has_goal;
      has_steps = is_empty-length (renumber_steps steps).0 steps (length-renumber steps) some_step;
      has_tasks = All-renumber (λ t h. is_blank t ≡ false) steps tasks;
      numbered =
          ap (sort leb) numbered
          ∙ sort-range 1 (length steps)
          ∙ ap (range 1) (sym (length-renumber steps));
      prior = renumber_steps-prior steps once;
      hinted = All-renumber (λ t h. registered available h ≡ true) steps hints;
    }

-- Whatever its ids and dependencies, a plan with a goal and steps whose texts are not blank, whose
-- hints name registered tools and whose ids are distinct passes validate after repair_plan.
pub repair_plan-validates :
    (available : List String) (plan : Plan)
    → is_blank plan.goal ≡ false
    → is_empty plan.steps ≡ false
    → All (λ s. is_blank s.task ≡ false) plan.steps
    → All (λ s. registered available s.tool_hint ≡ true) plan.steps
    → Distinct (ids plan.steps)
    → (validate available (repair_plan plan).plan).success ≡ true
unfolding repair_plan remove_duplicate_steps
repair_plan-validates available plan has_goal some_step tasks hints once =
    let kept = (remove_duplicate_steps plan.steps).0 in
    (validate_iff available (repair_plan plan).plan).1 (
      renumber_steps-IsValidPlan available plan.goal kept has_goal
        (dedup-not_empty plan.steps some_step)
        (All-dedup_from (λ s. is_blank s.task ≡ false) [] plan.steps tasks)
        (All-dedup_from (λ s. registered available s.tool_hint ≡ true) [] plan.steps hints)
        (Distinct-dedup_from [] plan.steps once))
