-- ===== src/Levels.antt =====
-- graph/runtime/compiler/plan_compiler.py: _topological_levels, which groups the steps of a plan into
-- levels that may run at the same time. `remaining` is a dict, `finished` a set of ids; the loop takes
-- fuel, one unit for each level.
use trip_graph_agent_runtime.Prelude.{
  ℕ, zero, suc, ◌≤◌, ◌<◌, ◌≡◌, refl, sym, ap, inl, inr, Bool, true, false, not, Option, none, some,
  List, [], ◌∷◌, ◌++◌, map, elem, select, all_true, is_empty, length, All, All-select_self,
  Bool-cases, if-true, if-false, subst, if◌then◌else◌, arith,
}
use trip_graph_agent_runtime.Prelude.Sort.{sort, by_key, All-sort}
use trip_graph_agent_runtime.Schema.{PlanStep, Plan, deps_of}
use trip_graph_agent_runtime.State.{ids}
use trip_graph_agent_runtime.PlanGraph.{index_steps}

-- all(dep in finished for dep in (step.dependency or []))
unfoldable pub is_ready : List ℕ → PlanStep → Bool
is_ready finished s = all_true (λ d. elem d finished) (deps_of s)

-- levels.append(level), where `later` is what the loop appends after it
unfoldable pub add_level :
    List PlanStep → Option (List (List PlanStep)) → Option (List (List PlanStep))
add_level level none = none
add_level level (some levels) = some (level ∷ levels)

-- The loop over the steps that remain.
unfoldable pub levels_from : ℕ → List ℕ → List PlanStep → Option (List (List PlanStep))
unfolding is_ready add_level
levels_from zero finished remaining = none
levels_from (suc fuel) finished remaining =
    let ready = select (is_ready finished) remaining in
    let level = sort (by_key (λ s. s.id)) ready in
    let later =
      levels_from fuel (ids level ++ finished)
        (select (λ s. not (is_ready finished s)) remaining) in
    if is_empty ready then some [] else add_level level later

-- _topological_levels; dict.values() with each id once
unfoldable pub topological_levels : Plan → Option (List (List PlanStep))
unfolding levels_from index_steps
topological_levels plan =
    let remaining = map (λ p. p.1) (index_steps [] plan.steps) in
    levels_from (suc (length remaining)) [] remaining

-- Every step of a level has its dependencies in the levels before it, or in `finished`.
abbrev pub IsLeveled : List ℕ → List (List PlanStep) → Type 0
IsLeveled finished [] = Unit
IsLeveled finished (level ∷ levels) =
    All (λ s. is_ready finished s ≡ true) level × IsLeveled (ids level ++ finished) levels

module _ {ℓ} {A : Type ℓ} (p : A → Bool) where
  length-select_le : (l : List A) → length (select p l) ≤ length l
  unfolding select
  length-select_le [] = omega arith
  length-select_le (x ∷ l) = ground (arith, length-select_le l)

length-select-not :
    (p : PlanStep → Bool) (l : List PlanStep)
    → is_empty (select p l) ≡ false
    → length (select (λ s. not (p s)) l) < length l
unfolding select
length-select-not p [] h = absurd (ground arith)
length-select-not p (s ∷ l) h = elim (Bool-cases (p s)) [
  | inl e ↦ ground (arith, e, length-select_le (λ t. not (p t)) l)
  | inr e ↦ ground (arith, e, h, length-select-not p l)
]

-- The loop came to an end, with levels.
abbrev pub Leveled : List ℕ → Option (List (List PlanStep)) → Type 0
Leveled finished outcome =
    (levels : List (List PlanStep)) × (outcome ≡ some levels) × IsLeveled finished levels

levels_from-Leveled :
    (fuel : ℕ) (finished : List ℕ) (remaining : List PlanStep)
    → length remaining < fuel
    → Leveled finished (levels_from fuel finished remaining)
unfolding levels_from
levels_from-Leveled zero finished remaining h = absurd (omega arith)
levels_from-Leveled (suc fuel) finished remaining h =
    let ready = select (is_ready finished) remaining in
    let level = sort (by_key (λ s. s.id)) ready in
    let rest = select (λ s. not (is_ready finished s)) remaining in
    elim (Bool-cases (is_empty ready)) [
      | inl stuck ↦
          subst (Leveled finished) (sym (if-true (is_empty ready) _ _ stuck)) ([], refl, tt)
      | inr more ↦
          let (levels, runs, leveled) =
            levels_from-Leveled fuel (ids level ++ finished) rest
              (omega (arith, length-select-not (is_ready finished) remaining more, h)) in
          subst (Leveled finished) (sym (if-false (is_empty ready) _ _ more)) (
            level ∷ levels,
            ap (add_level level) runs,
            (
              All-sort (λ s. is_ready finished s ≡ true) (by_key (λ s. s.id)) ready
                  (All-select_self (is_ready finished) remaining),
              leveled,
            ),
          )
    ]

-- Whatever the plan, dependencies that are missing or cyclic included, _topological_levels comes to an
-- end, on fuel for one round more than the plan has ids, and each step of a level has all its
-- dependencies in the levels before it.
pub topological_levels-Leveled : (plan : Plan) → Leveled [] (topological_levels plan)
unfolding topological_levels
topological_levels-Leveled plan =
    let remaining = map (λ p. p.1) (index_steps [] plan.steps) in
    levels_from-Leveled (suc (length remaining)) [] remaining (omega arith)
