-- ===== src/Validator.antt =====
-- plan/validator.py: PlanValidator. Messages are the data of `Errors`, and the registry enters as the
-- list of the names of the registered tools. The depth-first search takes
-- fuel, one more than the number of step ids.
pub mod Search
pub mod Acyclic
pub mod Checks
pub mod Accepts
use trip_graph_agent_runtime.Prelude.{
  ℕ, zero, suc, String, Bool, true, false, not, ◌||◌, Option, none, some, List, [], ◌∷◌, ◌++◌, elem,
  range, length, is_empty, list_eq, leb, if◌then◌else◌, str_eq,
}
use trip_graph_agent_runtime.Prelude.Dict.{Dict, lookup, insert, keys}
use trip_graph_agent_runtime.Prelude.Sort.{sort}
use trip_graph_agent_runtime.Prelude.Text.{is_blank}
use trip_graph_agent_runtime.Errors.{
  PlanError, goal_empty, no_steps, has_cycle, task_empty, ids_not_continuous, duplicate_id,
  unknown_dependency, dependency_not_prior, hint_not_registered, Result, ok, raise,
  plan_validation_error,
}
use trip_graph_agent_runtime.Schema.{PlanStep, Plan, deps_of}
use trip_graph_agent_runtime.State.{ids, remove_first}

-- class PlanValidationReport(BaseModel)
pub record PlanValidationReport : Type 0 where
  pub success : Bool
  pub errors : List PlanError

-- name in available
unfoldable pub elem_text : String → List String → Bool
elem_text name [] = false
elem_text name (x ∷ xs) = str_eq name x || elem_text name xs

unfoldable pub blank_tasks : List PlanStep → List PlanError
blank_tasks [] = []
blank_tasks (s ∷ rest) =
    let later = blank_tasks rest in if is_blank s.task then task_empty s.id ∷ later else later

unfoldable pub validate_structure : Plan → List PlanError
validate_structure plan =
    (if is_blank plan.goal then goal_empty ∷ [] else [])
    ++ ((if is_empty plan.steps then no_steps ∷ [] else []) ++ blank_tasks plan.steps)

unfoldable pub validate_step_id_continuity : List PlanStep → List PlanError
validate_step_id_continuity steps =
    let sorted_ids = sort leb (ids steps) in
    let expected = range 1 (length steps) in
    if is_empty steps
    then []
    else if list_eq sorted_ids expected
    then []
    else ids_not_continuous expected sorted_ids ∷ []

-- The loop of _validate_duplicate_step_ids with the set `seen`.
unfoldable pub duplicates_from : List ℕ → List ℕ → List PlanError
duplicates_from seen [] = []
duplicates_from seen (k ∷ ks) =
    let later = duplicates_from (k ∷ seen) ks in
    if elem k seen then duplicate_id k ∷ later else later

unfoldable pub validate_duplicate_step_ids : List PlanStep → List PlanError
validate_duplicate_step_ids steps = duplicates_from [] (ids steps)

-- The inner loop of _validate_dependencies_exist, for one step.
unfoldable pub dependency_errors : List ℕ → ℕ → List ℕ → List PlanError
dependency_errors step_ids k [] = []
dependency_errors step_ids k (dep ∷ deps) =
    (if elem dep step_ids then [] else unknown_dependency k dep ∷ [])
    ++ ((if leb k dep then dependency_not_prior k dep ∷ [] else [])
        ++ dependency_errors step_ids k deps)

unfoldable pub validate_dependencies_exist : List PlanStep → List ℕ → List PlanError
validate_dependencies_exist [] step_ids = []
validate_dependencies_exist (s ∷ rest) step_ids =
    dependency_errors step_ids s.id (deps_of s) ++ validate_dependencies_exist rest step_ids

-- {step.id: list(step.dependency or []) for step in steps}, onto the entries so far
unfoldable pub build_graph : Dict (List ℕ) → List PlanStep → Dict (List ℕ)
build_graph graph [] = graph
build_graph graph (s ∷ rest) = build_graph (insert s.id (deps_of s) graph) rest

-- The sets that dfs shares between its calls.
pub record Marks : Type 0 where
  pub visiting : List ℕ
  pub visited : List ℕ

abbrev pub Search : Type 0
Search = Marks → Option (Bool × Marks)

-- The loop of dfs over graph.get(node, []), where `search` is the recursive call.
unfoldable pub visit_all : (ℕ → Search) → Dict (List ℕ) → List ℕ → Search
visit_all search graph [] m = some (false, m)
visit_all search graph (n ∷ ns) m = elim (lookup n graph) [
  | none ↦ visit_all search graph ns m
  | some _ ↦ elim (search n m) [
    | none ↦ none
    | some (true, m') ↦ some (true, m')
    | some (false, m') ↦ visit_all search graph ns m'
  ]
]

-- visiting.remove(node); visited.add(node), once the loop found nothing
unfoldable pub leave : ℕ → Option (Bool × Marks) → Option (Bool × Marks)
leave n none = none
leave n (some (true, m)) = some (true, m)
leave n (some (false, m)) =
    some (false, record m { visiting = remove_first n m.visiting; visited = n ∷ m.visited })

unfoldable pub neighbors : Dict (List ℕ) → ℕ → List ℕ
neighbors graph n = elim (lookup n graph) [ none ↦ [] | some ds ↦ ds ]

unfoldable pub dfs : ℕ → Dict (List ℕ) → ℕ → Search
unfolding visit_all leave neighbors
dfs zero graph n m = none
dfs (suc fuel) graph n m =
    let inner =
      visit_all (dfs fuel graph) graph (neighbors graph n)
        (record m { visiting = n ∷ m.visiting }) in
    if elem n m.visiting
    then some (true, m)
    else if elem n m.visited
    then some (false, m)
    else leave n inner

-- for step_id in graph: if dfs(step_id): ...
unfoldable pub any_cycle : ℕ → Dict (List ℕ) → List ℕ → Marks → Option Bool
unfolding dfs
any_cycle fuel graph [] m = some false
any_cycle fuel graph (k ∷ ks) m = elim (dfs fuel graph k m) [
  | none ↦ none
  | some (true, m') ↦ some true
  | some (false, m') ↦ any_cycle fuel graph ks m'
]

unfoldable pub search_cycle : List PlanStep → Option Bool
unfolding any_cycle build_graph
search_cycle steps =
    let graph = build_graph [] steps in
    any_cycle (suc (length (keys graph))) graph (keys graph)
      (record { visiting = []; visited = [] })

unfoldable pub validate_dependency_cycles : List PlanStep → List PlanError
validate_dependency_cycles steps = elim (search_cycle steps) [ some true ↦ has_cycle ∷ [] | _ ↦ [] ]

unfoldable pub validate_tool_hints : List String → List PlanStep → List PlanError
unfolding elem_text
validate_tool_hints available [] = []
validate_tool_hints available (s ∷ rest) =
    let later = validate_tool_hints available rest in
    elim s.tool_hint [
      | none ↦ later
      | some hint ↦
          if elem_text hint available
          then later
          else hint_not_registered s.id hint available ∷ later
    ]

-- The checks that validate makes once the structure is sound.
unfoldable pub content_errors : List String → Plan → List PlanError
content_errors available plan =
    validate_step_id_continuity plan.steps
    ++ (validate_duplicate_step_ids plan.steps
        ++ (validate_dependencies_exist plan.steps (ids plan.steps)
            ++ (validate_dependency_cycles plan.steps ++ validate_tool_hints available plan.steps)))

unfoldable pub validate : List String → Plan → PlanValidationReport
validate available plan =
    let structure = validate_structure plan in
    let errors = content_errors available plan in
    if is_empty structure
    then record { success = is_empty errors; errors = errors }
    else record { success = false; errors = structure }

unfoldable pub assert_valid : List String → Plan → Result PlanValidationReport
unfolding validate
assert_valid available plan =
    let report = validate available plan in
    if report.success then ok report else raise (plan_validation_error report.errors)
