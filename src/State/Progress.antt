-- ===== src/State/Progress.antt =====
-- plan/state.py: the scheduler's queries on a plan whose dependencies point to earlier steps.
use trip_graph_agent_runtime.Prelude.{
  ℕ, ◌≡◌, refl, sym, ◌⊎◌, inl, inr, ◌∙◌, true, false, none, some, List, [], ◌∷◌, elem, All,
  Distinct, Bool-cases, if◌then◌else◌, arith,
}
use trip_graph_agent_runtime.Prelude.Dict.{Dict, lookup, keys}
use trip_graph_agent_runtime.Prelude.Sort.{
  sort, insert_sorted, by_key, Ordered, Ordered-sort, elem-sort, All-sort,
}
use trip_graph_agent_runtime.Errors.{ok}
use trip_graph_agent_runtime.Schema.{
  StepStatus, pending, PlanStep, is_finished, is_pending, is_terminal,
}
use trip_graph_agent_runtime.State.{
  PlanState, ids, status_in, deps_met_in, visit_step, first_ready_in, sorted_steps, all_terminal_in,
  next_executable_step, all_steps_finished,
}
use trip_graph_agent_runtime.State.Lookup.{finished_at, finished_at-eq}
use trip_graph_agent_runtime.State.Schedule.{
  IsSettled, HasPriorDeps, All-inside, head-deps_met, is_pending→eq, is_finished→not_pending,
}

module _ (d : Dict StepStatus) (steps : List PlanStep) where
  -- What the loop of next_executable_step gives: a waiting step, or none and all are finished.
  abbrev pub Outcome : List PlanStep → Type 0
  Outcome l =
      ((k : ℕ) × (first_ready_in d steps l ≡ ok (some k))
        × (lookup k d ≡ some pending)
        × (elem k (ids l) ≡ true))
      ⊎ ((first_ready_in d steps l ≡ ok none) × All (λ s. finished_at d s.id ≡ true) l)

  -- One round of the loop, at a waiting step whose dependencies are met, and at a finished step.
  first_ready-ready :
      (s : PlanStep) (rest : List PlanStep)
      → lookup s.id d ≡ some pending
      → deps_met_in d steps s.id ≡ ok true
      → first_ready_in d steps (s ∷ rest) ≡ ok (some s.id)
  unfolding first_ready_in visit_step status_in is_pending
  first_ready-ready s rest e met = ground arith

  first_ready-skip :
      (s : PlanStep) (rest : List PlanStep) (st : StepStatus)
      → lookup s.id d ≡ some st
      → is_pending st ≡ false
      → first_ready_in d steps (s ∷ rest) ≡ first_ready_in d steps rest
  unfolding first_ready_in visit_step status_in
  first_ready-skip s rest st e other = ground arith

  first_ready-progress :
      (l : List PlanStep)
      → Distinct (keys d)
      → All (HasPriorDeps steps) steps
      → Ordered (λ s. s.id) l
      → All (λ s. elem s.id (ids steps) ≡ true) l
      → All (λ s. IsSettled d s.id) l
      → ((k : ℕ) → elem k (ids steps) ≡ true → (finished_at d k ≡ true) ⊎ (elem k (ids l) ≡ true))
      → Outcome l
  unfolding elem
  first_ready-progress [] unique prior sorted inside settled cover =
      inr (unfold first_ready_in in refl, tt)
  first_ready-progress (s ∷ rest) unique prior sorted inside settled cover =
      let (st, e, kind) = settled.0 in
      elim kind [
        | inl waits ↦
            let e' : lookup s.id d ≡ some pending = cc (is_pending→eq st waits) in
            inl (
              s.id,
              first_ready-ready s rest e'
                  (head-deps_met d steps s rest unique prior sorted inside.0 cover),
              e',
              ground arith,
            )
        | inr done ↦
            let here = finished_at-eq d s.id st e ∙ done in
            later s rest st e (is_finished→not_pending st done) here (
              first_ready-progress rest unique prior sorted.1 inside.1 settled.1
                (λ k known. ground (arith, cover k known, here)))
      ]
    where
      later :
          (s : PlanStep) (rest : List PlanStep) (st : StepStatus)
          → lookup s.id d ≡ some st
          → is_pending st ≡ false
          → finished_at d s.id ≡ true
          → Outcome rest
          → Outcome (s ∷ rest)
      later s rest st e other here (inl (k, found, waits, inside)) =
          inl (k, first_ready-skip s rest st e other ∙ found, waits, ground arith)
      later s rest st e other here (inr (found, all)) =
          inr (first_ready-skip s rest st e other ∙ found, (here, all))

finished→terminal :
    (d : Dict StepStatus) (xs : List PlanStep)
    → All (λ s. IsSettled d s.id) xs
    → All (λ s. finished_at d s.id ≡ true) xs
    → all_terminal_in d xs ≡ ok true
unfolding all_terminal_in status_in finished_at is_finished is_terminal
finished→terminal d [] hs fs = refl
finished→terminal d (x ∷ xs) hs fs =
    let (st, e, kind) = hs.0 in ground (arith, e, fs.0, finished→terminal d xs hs.1 fs.1)

module _ {ℓ κ} {A : Type ℓ} (P : A → Type κ) (key : A → ℕ) where
  All-unsort_insert :
      (x : A) (xs : List A) → All P (insert_sorted (by_key key) x xs) → P x × All P xs
  unfolding insert_sorted
  All-unsort_insert x [] h = h
  All-unsort_insert x (y ∷ ys) h = elim (Bool-cases (by_key key x y)) [
    | inl e ↦ rw (e, if◌then◌else◌) at h
    | inr e ↦
        let h' : P y × All P (insert_sorted (by_key key) x ys) = rw (e, if◌then◌else◌) at h in
        let (px, rest) = All-unsort_insert x ys h'.1 in (px, (h'.0, rest))
  ]

  All-unsort : (xs : List A) → All P (sort (by_key key) xs) → All P xs
  unfolding sort
  All-unsort [] h = tt
  All-unsort (x ∷ xs) h =
      let (px, rest) = All-unsort_insert x (sort (by_key key) xs) h in (px, All-unsort xs rest)

module _ {Json Context : Type 0} where
  -- The steps' statuses are known, and none is RUNNING or FAILED; dependencies point backwards.
  pub record IsReady (s : PlanState Json Context) : Type 0 where
    pub unique : Distinct (keys s.step_status)
    pub prior : All (HasPriorDeps s.plan.steps) s.plan.steps
    pub settled : All (λ step. IsSettled s.step_status step.id) s.plan.steps

  -- Between two steps of a plan whose dependencies point to earlier steps of the plan, where every
  -- step waits or is finished, next_executable_step returns a waiting step of the plan, or it returns
  -- None and all_steps_finished holds. Neither query raises, so the executor's deadlock error is
  -- unreachable from such a state.
  pub next_executable_step-progress :
      (s : PlanState Json Context)
      → IsReady s
      → ((k : ℕ) × (next_executable_step s ≡ ok (some k))
          × (lookup k s.step_status ≡ some pending)
          × (elem k (ids s.plan.steps) ≡ true))
        ⊎ ((next_executable_step s ≡ ok none) × (all_steps_finished s ≡ ok true))
  unfolding next_executable_step all_steps_finished sorted_steps
  next_executable_step-progress s h =
      elim (first_ready-progress d steps (sort (by_key id_of) steps) h.unique h.prior
        (Ordered-sort id_of steps)
        (All-sort (λ x. elem x.id (ids steps) ≡ true) (by_key id_of) steps
          (All-inside steps steps (λ k m. m)))
        (All-sort (λ x. IsSettled d x.id) (by_key id_of) steps h.settled)
        (λ k m. inr (elem-sort id_of (by_key id_of) k steps ∙ m))) [
          | inl (k, found, waits, inside) ↦
              inl (k, found, waits, sym (elem-sort id_of (by_key id_of) k steps) ∙ inside)
          | inr (found, all) ↦ inr (
            found,
            finished→terminal d steps h.settled
                (All-unsort (λ x. finished_at d x.id ≡ true) id_of steps all),
          )
        ]
    where
      steps : List PlanStep
      steps = s.plan.steps

      d : Dict StepStatus
      d = s.step_status

      id_of : PlanStep → ℕ
      id_of = λ x. x.id
