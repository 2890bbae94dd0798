-- ===== src/Validator/Checks.antt =====
-- plan/validator.py: each check finds nothing exactly on the steps that it is meant to accept.
use trip_graph_agent_runtime.Prelude.{
  ℕ, ◌<◌, ◌≡◌, refl, ◌↔◌, String, Bool, true, false, Option, none, some, List, [], ◌∷◌, ◌++◌, elem,
  range, length, is_empty, list_eq→eq, list_eq_refl, All, Distinct, leb, arith,
}
use trip_graph_agent_runtime.Prelude.Sort.{sort}
use trip_graph_agent_runtime.Prelude.Text.{is_blank}
use trip_graph_agent_runtime.Schema.{PlanStep, Plan, deps_of}
use trip_graph_agent_runtime.State.{ids}
use trip_graph_agent_runtime.Validator.{
  blank_tasks, validate_structure, validate_step_id_continuity, duplicates_from, dependency_errors,
  validate_dependencies_exist, validate_dependency_cycles, validate_tool_hints, elem_text,
}
use trip_graph_agent_runtime.Validator.Search.{search_cycle_total}
use trip_graph_agent_runtime.Validator.Acyclic.{Below, search_cycle-false}

pub append-eq-nil {ℓ} : {A : Type ℓ} (xs ys : List A) → xs ++ ys ≡ [] → (xs ≡ []) × (ys ≡ [])
append-eq-nil [] ys h = (refl, h)
append-eq-nil (x ∷ xs) ys h = absurd (ground arith)

blank_tasks_iff :
    (steps : List PlanStep) → (blank_tasks steps ≡ []) ↔ All (λ s. is_blank s.task ≡ false) steps
unfolding blank_tasks
blank_tasks_iff [] = (λ _. tt, λ _. refl)
blank_tasks_iff (s ∷ rest) = ground (arith, blank_tasks_iff rest)

-- The goal and the tasks are not blank, and there is a step.
pub structure_iff :
    (plan : Plan)
    → (validate_structure plan ≡ []) ↔ (
        (is_blank plan.goal ≡ false)
        × (is_empty plan.steps ≡ false)
        × All (λ s. is_blank s.task ≡ false) plan.steps)
unfolding validate_structure
structure_iff plan = ground (arith, blank_tasks_iff plan.steps)

pub continuity_iff :
    (steps : List PlanStep)
    → is_empty steps ≡ false
    → (validate_step_id_continuity steps ≡ []) ↔ (sort leb (ids steps) ≡ range 1 (length steps))
unfolding validate_step_id_continuity
continuity_iff steps some_step = (
  λ h. list_eq→eq _ _ (ground (arith, h, some_step)),
  λ h. rw (some_step, h, list_eq_refl (range 1 (length steps))),
)

-- No id is among those seen, or occurs twice.
abbrev Unseen : List ℕ → List ℕ → Type 0
Unseen seen ks = All (λ k. elem k seen ≡ false) ks

Unseen-cons : (k : ℕ) (seen ks : List ℕ) → Unseen seen ks → elem k ks ≡ false → Unseen (k ∷ seen) ks
unfolding elem
Unseen-cons k seen [] h new = tt
Unseen-cons k seen (x ∷ xs) h new = (ground arith, Unseen-cons k seen xs h.1 (ground arith))

Unseen-uncons :
    (k : ℕ) (seen ks : List ℕ) → Unseen (k ∷ seen) ks → Unseen seen ks × (elem k ks ≡ false)
unfolding elem
Unseen-uncons k seen [] h = (tt, refl)
Unseen-uncons k seen (x ∷ xs) h =
    let (rest, new) = Unseen-uncons k seen xs h.1 in ((ground arith, rest), ground arith)

duplicates_iff :
    (seen ks : List ℕ) → (duplicates_from seen ks ≡ []) ↔ (Unseen seen ks × Distinct ks)
unfolding duplicates_from
duplicates_iff seen [] = (λ _. (tt, tt), λ _. refl)
duplicates_iff seen (k ∷ ks) = (
  λ h.
      let (rest, once) = (duplicates_iff (k ∷ seen) ks).0 (ground arith) in
      let (unseen, new) = Unseen-uncons k seen ks rest in ((ground arith, unseen), (new, once)),
  λ h.
      let later = (duplicates_iff (k ∷ seen) ks).1 (Unseen-cons k seen ks h.0.1 h.1.0, h.1.1) in
      ground (arith, h.0.0, later),
)

pub distinct→no_duplicates : (ks : List ℕ) → Distinct ks → duplicates_from [] ks ≡ []
distinct→no_duplicates ks once = (duplicates_iff [] ks).1 (nothing_seen ks, once)
  where
    nothing_seen : (xs : List ℕ) → Unseen [] xs
    nothing_seen [] = tt
    nothing_seen (x ∷ xs) = (unfold elem in refl, nothing_seen xs)

dependency_errors_iff :
    (step_ids : List ℕ) (k : ℕ) (deps : List ℕ)
    → (dependency_errors step_ids k deps ≡ []) ↔ All (λ d. (d < k) × (elem d step_ids ≡ true)) deps
unfolding dependency_errors
dependency_errors_iff step_ids k [] = (λ _. tt, λ _. refl)
dependency_errors_iff step_ids k (d ∷ ds) = ground (arith, dependency_errors_iff step_ids k ds)

pub dependencies_iff :
    (steps : List PlanStep) (step_ids : List ℕ)
    → (validate_dependencies_exist steps step_ids ≡ [])
      ↔ All (λ s. All (λ d. (d < s.id) × (elem d step_ids ≡ true)) (deps_of s)) steps
unfolding validate_dependencies_exist
dependencies_iff [] step_ids = (λ _. tt, λ _. refl)
dependencies_iff (s ∷ rest) step_ids = (
  λ h.
      let (here, later) = append-eq-nil (dependency_errors step_ids s.id (deps_of s)) _ h in
      (
        (dependency_errors_iff step_ids s.id (deps_of s)).0 here,
        (dependencies_iff rest step_ids).0 later,
      ),
  λ h.
      rw ((dependency_errors_iff step_ids s.id (deps_of s)).1 h.0)
        ((dependencies_iff rest step_ids).1 h.1),
)

-- A hint that is given names a registered tool.
abbrev pub registered : List String → Option String → Bool
registered available none = true
registered available (some name) = elem_text name available

pub hints_iff :
    (available : List String) (steps : List PlanStep)
    → (validate_tool_hints available steps ≡ [])
      ↔ All (λ s. registered available s.tool_hint ≡ true) steps
unfolding validate_tool_hints
hints_iff available [] = (λ _. tt, λ _. refl)
hints_iff available (s ∷ rest) = ground (arith, hints_iff available rest)

-- With prior dependencies the check for cycles finds nothing.
pub cycles-nil :
    (steps : List PlanStep)
    → All (λ s. Below s.id (deps_of s)) steps
    → validate_dependency_cycles steps ≡ []
unfolding validate_dependency_cycles
cycles-nil steps below =
    let (b, e) = search_cycle_total steps in ground (arith, e, search_cycle-false steps b below e)
