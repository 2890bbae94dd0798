-- ===== src/State/Choice.antt =====
-- plan/state.py: what the answers of dependencies_met and next_executable_step mean.
use trip_graph_agent_runtime.Prelude.{
  ℕ, ◌<◌, ◌≡◌, ◌≢◌, refl, sym, ◌⊎◌, inl, inr, ◌∙◌, Bool, true, some, List, [], ◌∷◌, elem, All,
  All-map, Distinct, all_true, is_empty, ◌==◌, ==_iff, Bool-cases, if◌then◌else◌, arith,
}
use trip_graph_agent_runtime.Prelude.Dict.{Dict, keys}
use trip_graph_agent_runtime.Prelude.Sort.{sort, by_key, Ordered, Ordered-sort, elem-sort}
use trip_graph_agent_runtime.Errors.{ok, ◌>>=◌}
use trip_graph_agent_runtime.Schema.{StepStatus, pending, PlanStep, deps_of, is_pending}
use trip_graph_agent_runtime.State.{
  PlanState, ids, status_in, find_in, finished_in, deps_met_in, visit_step, first_ready_in,
  sorted_steps, find_step, get_step_status, dependencies_met, next_executable_step,
}
use trip_graph_agent_runtime.State.Lookup.{finished_at, elem-finished_in}
use trip_graph_agent_runtime.State.Schedule.{not_elem-below, All-lt}

module _ (d : Dict StepStatus) (steps : List PlanStep) where
  -- The step waits and its dependencies are met.
  abbrev WaitsReady : ℕ → Type 0
  WaitsReady k = (status_in d k ≡ ok pending) × (deps_met_in d steps k ≡ ok true)

  -- One round of the loop, when it ends with an answer.
  first_ready_cases :
      (s : PlanStep) (rest : List PlanStep) (k : ℕ)
      → first_ready_in d steps (s ∷ rest) ≡ ok (some k)
      → (s.id ≡ k) × WaitsReady k
        ⊎ (first_ready_in d steps rest ≡ ok (some k)) × ¬ (WaitsReady s.id)
  unfolding first_ready_in visit_step is_pending
  first_ready_cases s rest k h = ground arith

  first_ready-nil : (k : ℕ) → first_ready_in d steps [] ≢ ok (some k)
  unfolding first_ready_in
  first_ready-nil k h = cc

  first_ready-least :
      (l : List PlanStep) (k : ℕ)
      → Ordered (λ s. s.id) l
      → first_ready_in d steps l ≡ ok (some k)
      → WaitsReady k
        × (elem k (ids l) ≡ true)
        × ((j : ℕ) → elem j (ids l) ≡ true → j < k → ¬ (WaitsReady j))
  unfolding elem
  first_ready-least [] k sorted h = absurd (first_ready-nil k h)
  first_ready-least (s ∷ rest) k sorted h = elim (first_ready_cases s rest k h) [
    | inl (same, ready) ↦ (
      ready,
      ground arith,
      λ j m lt _.
          let below : j < s.id = omega arith in
          let absent = not_elem-below j (s ∷ rest) (below, All-lt j s.id rest below sorted.0) in cc,
    )
    | inr (later, other) ↦
        let (ready, inside, least) = first_ready-least rest k sorted.1 later in
        (
          ready,
          ground arith,
          λ j m lt r. elim (Bool-cases (j == s.id)) [
            | inl e ↦ other (rw (sym ((==_iff j s.id).0 e)) r)
            | inr e ↦ least j (ground arith) lt r
          ],
        )
  ]

all_true-elim {ℓ} :
    {A : Type ℓ} (p : A → Bool) (xs : List A) → all_true p xs ≡ true → All (λ x. p x ≡ true) xs
unfolding all_true
all_true-elim p [] h = tt
all_true-elim p (x ∷ xs) h = (ground arith, all_true-elim p xs (ground arith))

deps_met_in-elim :
    (d : Dict StepStatus) (steps : List PlanStep) (k : ℕ) (t : PlanStep)
    → find_in steps k ≡ ok t
    → deps_met_in d steps k ≡ ok true
    → all_true (λ x. elem x (finished_in d)) (deps_of t) ≡ true
unfolding deps_met_in
deps_met_in-elim d steps k t e h = deps_cases (deps_of t) (rw (e, ◌>>=◌) at h)
  where
    deps_cases :
        (ds : List ℕ)
        → (if is_empty ds then ok true else ok (all_true (λ x. elem x (finished_in d)) ds))
          ≡ ok true
        → all_true (λ x. elem x (finished_in d)) ds ≡ true
    deps_cases [] h = unfold all_true in refl
    deps_cases (x ∷ xs) h = cc

module _ {Json Context : Type 0} where
  -- When the keys of the status table are distinct and next_executable_step returns the id k: k is a
  -- step of the plan whose status is PENDING, the step that _find_step returns for k has only
  -- dependencies that are COMPLETED or SKIPPED, and for no smaller id of the plan that is PENDING does
  -- dependencies_met answer True.
  pub next_executable_step-least :
      (s : PlanState Json Context) (k : ℕ)
      → Distinct (keys s.step_status)
      → next_executable_step s ≡ ok (some k)
      → (elem k (ids s.plan.steps) ≡ true)
        × (get_step_status s k ≡ ok pending)
        × ((t : PlanStep)
            → find_step s k ≡ ok t
            → All (λ x. finished_at s.step_status x ≡ true) (deps_of t))
        × ((j : ℕ)
            → elem j (ids s.plan.steps) ≡ true
            → j < k
            → get_step_status s j ≡ ok pending
            → dependencies_met s j ≢ ok true)
  unfolding next_executable_step get_step_status dependencies_met find_step sorted_steps
  next_executable_step-least s k unique h =
      let steps = s.plan.steps in
      let id_of = λ (x : PlanStep). x.id in
      let (ready, inside, least) =
        first_ready-least s.step_status steps (sort (by_key id_of) steps) k
          (Ordered-sort id_of steps) h in
      (
        sym (elem-sort id_of (by_key id_of) k steps) ∙ inside,
        ready.0,
        λ t e.
            All-map (λ x. elem x (finished_in s.step_status) ≡ true)
              (λ x. finished_at s.step_status x ≡ true) (deps_of t)
              (λ x m. sym (elem-finished_in x s.step_status unique) ∙ m)
              (all_true-elim (λ x. elem x (finished_in s.step_status)) (deps_of t)
                (deps_met_in-elim s.step_status steps k t e ready.1)),
        λ j m lt waits met. least j (elem-sort id_of (by_key id_of) j steps ∙ m) lt (waits, met),
      )
