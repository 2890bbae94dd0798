-- ===== src/Repair.antt =====
-- plan/repair.py: normalisation and light repair of the plans that a language model wrote. Notes are
-- data, one constructor for each message.
pub mod Renumber
pub mod Order
pub mod Dedup
pub mod Valid
pub mod Budget
pub mod Normal
use trip_graph_agent_runtime.Prelude.{
  ℕ, zero, suc, String, Bool, true, false, not, ◌&&◌, ◌||◌, Option, none, some, List, [], ◌∷◌, ◌++◌,
  map, elem, range, length, is_empty, list_eq, leb, ltb, ◌==◌, if◌then◌else◌, str_eq,
}
use trip_graph_agent_runtime.Prelude.Dict.{Dict, lookup, insert, keys}
use trip_graph_agent_runtime.Prelude.Sort.{sort}
use trip_graph_agent_runtime.Prelude.Text.{strip, search_any, codes}
use trip_graph_agent_runtime.Schema.{PlanStep, Plan, deps_of, or_none, truthy}
use trip_graph_agent_runtime.State.{ids, sorted_steps}
use trip_graph_agent_runtime.State.Replan.{hint_eq}

pub data Note : Type 0 where
  renumbered : Dict ℕ → Note
  dropped_unknown dropped_non_prior : (step dep : ℕ) → Note
  removed_duplicate : String → Option String → Note
  removed_budget : String → Note
  cleared_hint : String → Option String → Note
  reordered : Note

-- class RepairResult
pub record RepairResult : Type 0 where
  pub plan : Plan
  pub repaired : Bool
  pub notes : List Note
  pub id_map : Dict ℕ

-- {step.id: index for index, step in enumerate(sorted_steps, start=1)}, onto the entries so far
unfoldable pub number_from : ℕ → Dict ℕ → List PlanStep → Dict ℕ
number_from next id_map [] = id_map
number_from next id_map (s ∷ rest) = number_from (suc next) (insert s.id next id_map) rest

-- The loop over a step's dependencies: the mapped ids, and the notes on those that are dropped.
unfoldable pub remap_deps : Dict ℕ → ℕ → ℕ → List ℕ → List ℕ × List Note
remap_deps id_map k new_id [] = ([], [])
remap_deps id_map k new_id (dep ∷ deps) =
    let (kept, notes) = remap_deps id_map k new_id deps in
    elim (lookup dep id_map) [
      | none ↦ (kept, dropped_unknown k dep ∷ notes)
      | some mapped ↦
          if leb new_id mapped
          then (kept, dropped_non_prior k dep ∷ notes)
          else (mapped ∷ kept, notes)
    ]

-- id_map[step.id], for a step whose id is a key
unfoldable pub new_id_of : Dict ℕ → ℕ → ℕ
new_id_of id_map k = elim (lookup k id_map) [ none ↦ 0 | some n ↦ n ]

unfoldable pub remap_step : Dict ℕ → PlanStep → PlanStep
unfolding remap_deps new_id_of
remap_step id_map s =
    let new_id = new_id_of id_map s.id in
    record s { id = new_id; dependency = or_none (remap_deps id_map s.id new_id (deps_of s)).0 }

unfoldable pub remap_notes : Dict ℕ → List PlanStep → List Note
unfolding remap_deps new_id_of
remap_notes id_map [] = []
remap_notes id_map (s ∷ rest) =
    (remap_deps id_map s.id (new_id_of id_map s.id) (deps_of s)).1 ++ remap_notes id_map rest

-- sorted(id_map.keys()) != expected or list(id_map.values()) != expected
unfoldable pub is_renumbered : Dict ℕ → ℕ → Bool
is_renumbered id_map count =
    not (list_eq (sort leb (keys id_map)) (range 1 count))
    || not (list_eq (map (λ p. p.1) id_map) (range 1 count))

unfoldable pub id_map_of : List PlanStep → Dict ℕ
unfolding number_from
id_map_of steps = number_from 1 [] (sorted_steps steps)

-- (steps, id_map, notes); an empty list gives an empty map and no note by the same computation
unfoldable pub renumber_steps : List PlanStep → List PlanStep × Dict ℕ × List Note
unfolding remap_step remap_notes is_renumbered id_map_of
renumber_steps steps =
    let sorted = sorted_steps steps in
    let id_map = id_map_of steps in
    (
      map (remap_step id_map) sorted,
      id_map,
      (if is_renumbered id_map (length sorted) then renumbered id_map ∷ [] else [])
          ++ remap_notes id_map sorted,
    )

-- (step.task.strip(), step.tool_hint)
abbrev StepKey : Type 0
StepKey = List ℕ × Option String

unfoldable pub key_of : PlanStep → StepKey
key_of s = (strip s.task, s.tool_hint)

unfoldable pub key_eq : StepKey → StepKey → Bool
key_eq a b = list_eq a.0 b.0 && hint_eq a.1 b.1

unfoldable pub elem_key : StepKey → List StepKey → Bool
unfolding key_eq
elem_key k [] = false
elem_key k (x ∷ xs) = key_eq k x || elem_key k xs

-- The loop of remove_duplicate_steps with the set `seen`.
unfoldable pub dedup_from : List StepKey → List PlanStep → List PlanStep × List Note
unfolding elem_key key_of
dedup_from seen [] = ([], [])
dedup_from seen (s ∷ rest) = elim (elem_key (key_of s) seen) [
  | true ↦
      let (kept, notes) = dedup_from seen rest in
      (kept, removed_duplicate s.task s.tool_hint ∷ notes)
  | false ↦ let (kept, notes) = dedup_from (key_of s ∷ seen) rest in (s ∷ kept, notes)
]

unfoldable pub remove_duplicate_steps : List PlanStep → List PlanStep × List Note
remove_duplicate_steps steps = dedup_from [] steps

-- BUDGET_TASK_PATTERN. Its last alternative, a text that ends in the first one, adds no match.
is_budget_task : String → Bool
unfolding search_any
is_budget_task task = search_any ("预算" ∷ "费用" ∷ "花费" ∷ "总预算" ∷ "旅行预算" ∷ []) task

-- SYNTHESIS_TASK_PATTERN
is_synthesis_task : String → Bool
unfolding search_any
is_synthesis_task task =
    search_any ("综合" ∷ "总结" ∷ "汇总" ∷ "生成完整" ∷ "完整行程" ∷ "最终计划" ∷ "finalize" ∷ "synthesis" ∷ []) task

is_budget_step : PlanStep → Bool
unfolding is_budget_task hint_eq
is_budget_step s = hint_eq s.tool_hint (some "budget") || is_budget_task s.task

-- [index for index, step in enumerate(steps) if ...], with the steps
pub enumerate : ℕ → List PlanStep → List (ℕ × PlanStep)
enumerate index [] = []
enumerate index (s ∷ rest) = (index, s) ∷ enumerate (suc index) rest

budget_indices : List (ℕ × PlanStep) → List (ℕ × PlanStep)
unfolding is_budget_step
budget_indices [] = []
budget_indices (p ∷ rest) =
    let later = budget_indices rest in if is_budget_step p.1 then p ∷ later else later

-- max(budget_indices, key=task length): the first index with the longest task
longest_from : ℕ × PlanStep → List (ℕ × PlanStep) → ℕ
longest_from best [] = best.0
longest_from best (p ∷ rest) =
    longest_from (if ltb (length (codes best.1.task)) (length (codes p.1.task)) then p else best)
      rest

drop_budget : ℕ → List (ℕ × PlanStep) → List PlanStep × List Note
unfolding is_budget_step
drop_budget keep [] = ([], [])
drop_budget keep (p ∷ rest) =
    let (kept, notes) = drop_budget keep rest in
    if is_budget_step p.1 && not (p.0 == keep)
    then (kept, removed_budget p.1.task ∷ notes)
    else (p.1 ∷ kept, notes)

-- The end of deduplicate_budget_steps, from the budget steps: one or none is left alone, and of more
-- the longest stays.
keep_longest : List (ℕ × PlanStep) → List PlanStep → List (ℕ × PlanStep) → List PlanStep × List Note
unfolding longest_from drop_budget
keep_longest [] steps indexed = (steps, [])
keep_longest (p ∷ []) steps indexed = (steps, [])
keep_longest (p ∷ q ∷ more) steps indexed = drop_budget (longest_from p (q ∷ more)) indexed

unfoldable pub deduplicate_budget_steps : List PlanStep → List PlanStep × List Note
unfolding enumerate budget_indices keep_longest
deduplicate_budget_steps steps =
    let indexed = enumerate 0 steps in keep_longest (budget_indices indexed) steps indexed

normalize_synthesis_steps : List PlanStep → List PlanStep × List Note
unfolding is_synthesis_task truthy
normalize_synthesis_steps [] = ([], [])
normalize_synthesis_steps (s ∷ rest) =
    let (later, notes) = normalize_synthesis_steps rest in
    if truthy s.tool_hint && is_synthesis_task s.task
    then (record s { tool_hint = none } ∷ later, cleared_hint s.task s.tool_hint ∷ notes)
    else (s ∷ later, notes)

-- TOOL_ORDER.get(step.tool_hint or "", 99)
tool_order : Option String → ℕ
tool_order none = 99
tool_order (some hint) =
    if str_eq hint "weather"
    then 0
    else if str_eq hint "map"
    then 1
    else if str_eq hint "budget"
    then 2
    else 99

-- The order of the key (tool order, index).
tool_le : ℕ × PlanStep → ℕ × PlanStep → Bool
unfolding tool_order
tool_le a b =
    let x = tool_order a.1.tool_hint in
    let y = tool_order b.1.tool_hint in ltb x y || (x == y && leb a.0 b.0)

pub prefer_tool_execution_order : List PlanStep → List PlanStep × List Note
unfolding tool_le enumerate
prefer_tool_execution_order steps =
    let sorted = sort tool_le (enumerate 0 steps) in
    if leb (length steps) 1
    then (steps, [])
    else if list_eq (map (λ p. p.0) sorted) (range 0 (length steps))
    then (steps, [])
    else (map (λ p. p.1) sorted, reordered ∷ [])

unfoldable pub repair_plan : Plan → RepairResult
unfolding remove_duplicate_steps renumber_steps
repair_plan plan =
    let (steps, dedup_notes) = remove_duplicate_steps plan.steps in
    let (steps', id_map, renumber_notes) = renumber_steps steps in
    let notes = dedup_notes ++ renumber_notes in
    record {
      plan = record plan { steps = steps' };
      repaired = not (is_empty notes);
      notes = notes;
      id_map = id_map;
    }

unfoldable pub repair_steps : List PlanStep → RepairResult
unfolding repair_plan
repair_steps steps =
    let result = repair_plan (record { goal = "(replan)"; steps = steps }) in
    record result { plan = record { goal = "(replan)"; steps = result.plan.steps } }

pub normalize_plan : Plan → RepairResult
unfolding remove_duplicate_steps deduplicate_budget_steps normalize_synthesis_steps
    prefer_tool_execution_order renumber_steps
normalize_plan plan =
    let (steps1, dedup_notes) = remove_duplicate_steps plan.steps in
    let (steps2, budget_notes) = deduplicate_budget_steps steps1 in
    let (steps3, synthesis_notes) = normalize_synthesis_steps steps2 in
    let (steps4, order_notes) = prefer_tool_execution_order steps3 in
    let (steps5, id_map, renumber_notes) = renumber_steps steps4 in
    let notes =
      dedup_notes ++ (budget_notes ++ (synthesis_notes ++ (order_notes ++ renumber_notes))) in
    record {
      plan = record plan { steps = steps5 };
      repaired = not (is_empty notes);
      notes = notes;
      id_map = id_map;
    }
