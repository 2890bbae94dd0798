-- ===== src/State/Kept.antt =====
-- plan/state.py: what apply_replanned_steps keeps of the plan and of the status table.
use trip_graph_agent_runtime.Prelude.{
  ℕ, suc, ◌≤◌, ◌≡◌, refl, sym, ap, subst, inl, inr, ◌∙◌, true, false, not, some, List, [], ◌∷◌,
  ◌++◌, elem, All, All-map, All-append, All-select_self, Distinct, Distinct-append, Distinct-select,
  Distinct-range, elem-select, elem-range→le, range, length, select, Bool-cases, arith,
}
use trip_graph_agent_runtime.Prelude.Dict.{
  Dict, lookup, keys, insert_all, remove_all, lookup-insert_all, lookup-remove_all,
}
use trip_graph_agent_runtime.Schema.{StepStatus, pending, PlanStep, is_pending}
use trip_graph_agent_runtime.State.{PlanState, ids, finished_in}
use trip_graph_agent_runtime.State.Lookup.{
  finished_at, finished_at→found, elem-finished_in, Distinct-insert_all, Distinct-remove_all,
}
use trip_graph_agent_runtime.State.Replan.{max_id, remap_from, apply_replanned_steps}
use trip_graph_agent_runtime.State.Schedule.{IsSettled, All-inside}

le-max_id : (k : ℕ) (ks : List ℕ) → elem k ks ≡ true → k ≤ max_id ks
unfolding max_id elem
le-max_id k [] h = cc
le-max_id k (x ∷ xs) h = ground (arith, le-max_id k xs)

ids-remap_from :
    (next : ℕ) (steps : List PlanStep) → ids (remap_from next steps) ≡ range next (length steps)
unfolding remap_from
ids-remap_from next [] = refl
ids-remap_from next (s ∷ rest) = ap (λ l. next ∷ l) (ids-remap_from (suc next) rest)

ids-append : (xs ys : List PlanStep) → ids (xs ++ ys) ≡ ids xs ++ ids ys
ids-append [] ys = refl
ids-append (x ∷ xs) ys = ap (λ l. x.id ∷ l) (ids-append xs ys)

-- The status table after the rewrite, at one id.
module _ (d : Dict StepStatus) (steps new_steps : List PlanStep) (unique : Distinct (keys d)) where
  abbrev pub completed : List ℕ
  completed = finished_in d

  abbrev new_ids : List ℕ
  new_ids = ids (remap_from (suc (max_id completed)) new_steps)

  abbrev pub removed : List ℕ
  removed = ids (select (λ step. not (elem step.id completed)) steps)

  abbrev table : Dict StepStatus
  table = insert_all new_ids pending (remove_all removed d)

  new_id-fresh : (k : ℕ) → elem k completed ≡ true → elem k new_ids ≡ false
  new_id-fresh k m = elim (Bool-cases (elem k new_ids)) [
    | inl new ↦
        let low =
          elem-range→le k (suc (max_id completed)) (length new_steps) (
            subst (λ l. elem k l ≡ true) (ids-remap_from (suc (max_id completed)) new_steps) new) in
        absurd (omega (arith, le-max_id k completed m))
    | inr e ↦ e
  ]

  lookup-finished : (k : ℕ) → finished_at d k ≡ true → lookup k table ≡ lookup k d
  lookup-finished k done =
      let m = elem-finished_in k d unique ∙ done in
      ground (
        arith,
        lookup-insert_all new_ids k pending (remove_all removed d),
        lookup-remove_all removed k d,
        new_id-fresh k m,
        elem-select (λ (x : PlanStep). x.id) (λ j. not (elem j completed)) k steps,
        m,
      )

  lookup-new : (k : ℕ) → elem k new_ids ≡ true → lookup k table ≡ some pending
  lookup-new k m = ground (arith, lookup-insert_all new_ids k pending (remove_all removed d), m)

  IsSettled-kept : All (λ s. IsSettled table s.id) (select (λ step. elem step.id completed) steps)
  IsSettled-kept =
      All-map (λ s. elem s.id completed ≡ true) (λ s. IsSettled table s.id) _
        (λ s m.
          let done = sym (elem-finished_in s.id d unique) ∙ m in
          let (st, e, fin) = finished_at→found d s.id done in
          (st, lookup-finished s.id done ∙ e, inr fin))
        (All-select_self (λ step. elem step.id completed) steps)

  IsSettled-new : All (λ s. IsSettled table s.id) (remap_from (suc (max_id completed)) new_steps)
  IsSettled-new =
      All-map (λ s. elem s.id new_ids ≡ true) (λ s. IsSettled table s.id) _
        (λ s m. (pending, lookup-new s.id m, inl (unfold is_pending in refl)))
        (All-inside (remap_from (suc (max_id completed)) new_steps) _ (λ k m. m))

  Distinct-new_plan :
      Distinct (ids steps)
      → Distinct (
          ids (
            select (λ step. elem step.id completed) steps
            ++ remap_from (suc (max_id completed)) new_steps))
  Distinct-new_plan once =
      let kept = select (λ (step : PlanStep). elem step.id completed) steps in
      rw (ids-append kept (remap_from (suc (max_id completed)) new_steps)) (
        Distinct-append (ids kept) new_ids
          (Distinct-select (λ (x : PlanStep). x.id) (λ j. elem j completed) steps once)
          (rw (ids-remap_from (suc (max_id completed)) new_steps) (Distinct-range _ _))
          (λ k m.
            new_id-fresh k (
              ground
                (arith, elem-select (λ (x : PlanStep). x.id) (λ j. elem j completed) k steps))))

module _ {Json Context : Type 0} where
  -- When the status table has distinct keys and the plan distinct ids, then after
  -- apply_replanned_steps, whatever steps the planner returned: the status table has distinct keys,
  -- the plan has distinct ids, each step of the plan has a status that is PENDING, COMPLETED or
  -- SKIPPED, and every id that was COMPLETED or SKIPPED has the status that it had.
  pub apply_replanned_steps-keeps :
      (s : PlanState Json Context) (new_steps : List PlanStep)
      → Distinct (keys s.step_status)
      → Distinct (ids s.plan.steps)
      → Distinct (keys (apply_replanned_steps s new_steps).step_status)
        × Distinct (ids (apply_replanned_steps s new_steps).plan.steps)
        × All
            (λ step. IsSettled (apply_replanned_steps s new_steps).step_status step.id)
            (apply_replanned_steps s new_steps).plan.steps
        × ((k : ℕ)
            → finished_at s.step_status k ≡ true
            → lookup k (apply_replanned_steps s new_steps).step_status ≡ lookup k s.step_status)
  unfolding apply_replanned_steps
  apply_replanned_steps-keeps s new_steps unique once = (
    Distinct-insert_all _ pending _ (Distinct-remove_all _ s.step_status unique),
    Distinct-new_plan s.step_status s.plan.steps new_steps unique once,
    All-append (λ step. IsSettled (table s.step_status s.plan.steps new_steps unique) step.id) _ _
        (IsSettled-kept s.step_status s.plan.steps new_steps unique)
        (IsSettled-new s.step_status s.plan.steps new_steps unique),
    lookup-finished s.step_status s.plan.steps new_steps unique,
  )
