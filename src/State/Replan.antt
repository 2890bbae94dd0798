-- ===== src/State/Replan.antt =====
-- plan/state.py: the operations of PlanState that rewrite the plan.
use trip_graph_agent_runtime.Prelude.{
  ℕ, suc, String, Bool, true, false, not, ◌&&◌, Option, none, some, List, [], ◌∷◌, ◌++◌, elem,
  select, is_empty, list_eq, ◌==◌, leb, if◌then◌else◌, str_eq,
}
use trip_graph_agent_runtime.Prelude.Dict.{
  Dict, lookup, insert, remove, remove_all, insert_all, keys,
}
use trip_graph_agent_runtime.Schema.{StepStatus, pending, PlanStep, deps_of, or_none, is_completed}
use trip_graph_agent_runtime.State.{PlanState, ids, finished_step_ids}

-- max(ids) if ids else 0
unfoldable pub max_id : List ℕ → ℕ
max_id [] = 0
max_id (k ∷ ks) = let rest = max_id ks in if leb rest k then k else rest

-- The loop over enumerate(new_steps, start=1): the new id is max_id + index.
unfoldable pub remap_from : ℕ → List PlanStep → List PlanStep
remap_from next [] = []
remap_from next (s ∷ rest) =
    record s { id = next; dependency = or_none (deps_of s) } ∷ remap_from (suc next) rest

-- step.tool_hint == original.tool_hint
unfoldable pub hint_eq : Option String → Option String → Bool
hint_eq none none = true
hint_eq none (some b) = false
hint_eq (some a) none = false
hint_eq (some a) (some b) = str_eq a b

unfoldable pub same_content : PlanStep → PlanStep → Bool
unfolding hint_eq
same_content a b =
    str_eq a.task b.task && hint_eq a.tool_hint b.tool_hint && list_eq (deps_of a) (deps_of b)

-- The inner loop of restore_completed_step_snapshots: the first step with the id is replaced by the
-- original where it differs, and the flag says that it was.
unfoldable pub restore_step : ℕ → PlanStep → List PlanStep → List PlanStep × Bool
restore_step k original [] = ([], false)
restore_step k original (s ∷ rest) =
    let later = restore_step k original rest in
    if s.id == k
    then if same_content s original then (s ∷ rest, false) else (original ∷ rest, true)
    else (s ∷ later.0, later.1)

-- The outer loop, and the ids that the warnings name.
unfoldable pub restore_steps : Dict PlanStep → List PlanStep → List PlanStep × List ℕ
unfolding restore_step
restore_steps [] steps = (steps, [])
restore_steps ((k, original) ∷ snapshots) steps =
    let (steps', changed) = restore_step k original steps in
    let (final, warnings) = restore_steps snapshots steps' in
    (final, if changed then k ∷ warnings else warnings)

-- d[new_id] = d.pop(old_id), for each entry of the map whose old id is a key
unfoldable pub rename_keys {ℓ} : {V : Type ℓ} → (ℕ → V → V) → List (ℕ × ℕ) → Dict V → Dict V
rename_keys f [] d = d
rename_keys f ((old, new) ∷ id_map) d =
    rename_keys f id_map
      (elim (lookup old d) [ none ↦ d | some v ↦ insert new (f new v) (remove old d) ])

-- for step in plan.steps: if step.id not in new_status: new_status[step.id] = PENDING
unfoldable pub add_pending : List ℕ → Dict StepStatus → Dict StepStatus
add_pending [] d = d
add_pending (k ∷ ks) d =
    add_pending ks (elim (lookup k d) [ none ↦ insert k pending d | some st ↦ d ])

module _ {Json Context : Type 0} where
  unfoldable pub apply_replanned_steps :
      PlanState Json Context → List PlanStep → PlanState Json Context
  unfolding finished_step_ids
  apply_replanned_steps s new_steps =
      let completed = finished_step_ids s in
      let kept = select (λ step. elem step.id completed) s.plan.steps in
      let remapped = remap_from (suc (max_id completed)) new_steps in
      let removed = ids (select (λ step. not (elem step.id completed)) s.plan.steps) in
      record s {
        plan = record s.plan { steps = kept ++ remapped };
        step_status = insert_all (ids remapped) pending (remove_all removed s.step_status);
        step_results = remove_all removed s.step_results;
      }

  unfoldable pub restore_completed_step_snapshots :
      PlanState Json Context → Dict PlanStep → PlanState Json Context × List ℕ
  restore_completed_step_snapshots s snapshots =
      let (steps, warnings) = restore_steps snapshots s.plan.steps in
      (record s { plan = record s.plan { steps = steps } }, warnings)

  unfoldable pub remap_step_status : PlanState Json Context → List (ℕ × ℕ) → PlanState Json Context
  remap_step_status s id_map =
      let plan_ids = ids s.plan.steps in
      let moved = rename_keys (λ _ st. st) id_map s.step_status in
      let statuses = add_pending plan_ids (select (λ p. elem p.0 plan_ids) moved) in
      let results = rename_keys (λ new r. record r { step_id = new }) id_map s.step_results in
      if is_empty id_map then s else record s {
        step_status = statuses;
        step_results = select (λ p. elem p.0 plan_ids) results;
        completed_steps = keys (select (λ p. is_completed p.1) statuses);
      }
