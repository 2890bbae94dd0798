-- ===== src/State/Schedule.antt =====
-- plan/state.py: which step next_executable_step picks, and that a plan with ordered dependencies
-- never runs dry while a step waits.
use trip_graph_agent_runtime.Prelude.{
  ℕ, ◌≤◌, ◌<◌, ◌≡◌, refl, ◌⊎◌, inl, inr, ◌∙◌, Bool, true, false, some, List, [], ◌∷◌, elem, All,
  Distinct, all_true, is_empty, Bool-cases, arith,
}
use trip_graph_agent_runtime.Prelude.Dict.{Dict, lookup, keys}
use trip_graph_agent_runtime.Prelude.Sort.{Ordered}
use trip_graph_agent_runtime.Errors.{ok}
use trip_graph_agent_runtime.Schema.{
  StepStatus, pending, PlanStep, deps_of, is_finished, is_pending,
}
use trip_graph_agent_runtime.State.{ids, find_in, finished_in, deps_met_in}
use trip_graph_agent_runtime.State.Lookup.{finished_at, elem-finished_in, All-elem}

-- The step has a status, and it waits or is finished: no step is RUNNING or FAILED.
abbrev pub IsSettled : Dict StepStatus → ℕ → Type 0
IsSettled d k =
    (st : StepStatus) × (lookup k d ≡ some st) × ((is_pending st ≡ true) ⊎ (is_finished st ≡ true))

-- Each dependency of the step is a step of the plan with a smaller id.
abbrev pub HasPriorDeps : List PlanStep → PlanStep → Type 0
HasPriorDeps steps s = All (λ d. (d < s.id) × (elem d (ids steps) ≡ true)) (deps_of s)

all_true-intro {ℓ} :
    {A : Type ℓ} (p : A → Bool) (xs : List A) → All (λ x. p x ≡ true) xs → all_true p xs ≡ true
unfolding all_true
all_true-intro p [] h = refl
all_true-intro p (x ∷ xs) h = ground (arith, all_true-intro p xs h.1)

pub not_elem-below : (k : ℕ) (xs : List PlanStep) → All (λ s. k < s.id) xs → elem k (ids xs) ≡ false
unfolding elem
not_elem-below k [] h = refl
not_elem-below k (x ∷ xs) h = ground (arith, not_elem-below k xs h.1)

pub All-lt :
    (k m : ℕ) (xs : List PlanStep) → k < m → All (λ s. m ≤ s.id) xs → All (λ s. k < s.id) xs
All-lt k m [] h hs = tt
All-lt k m (x ∷ xs) h hs = (omega arith, All-lt k m xs h hs.1)

pub is_pending→eq : (st : StepStatus) → is_pending st ≡ true → st ≡ pending
unfolding is_pending
is_pending→eq st h = ground arith

pub is_finished→not_pending : (st : StepStatus) → is_finished st ≡ true → is_pending st ≡ false
unfolding is_pending is_finished
is_finished→not_pending st h = ground arith

-- Every step of a list has its id among the ids.
pub All-inside :
    (xs ys : List PlanStep)
    → ((k : ℕ) → elem k (ids xs) ≡ true → elem k (ids ys) ≡ true)
    → All (λ s. elem s.id (ids ys) ≡ true) xs
All-inside [] ys h = tt
All-inside (x ∷ xs) ys h = (
  h x.id (unfold elem in ground arith),
  All-inside xs ys (λ k m. h k (unfold elem in ground arith)),
)

module _ (d : Dict StepStatus) (steps : List PlanStep) where
  -- The dependencies of a step, all finished, are found to be met.
  deps_met_in-true :
      (k : ℕ) (t : PlanStep)
      → find_in steps k ≡ ok t
      → All (λ dep. elem dep (finished_in d) ≡ true) (deps_of t)
      → deps_met_in d steps k ≡ ok true
  unfolding deps_met_in
  deps_met_in-true k t e h = rw e (elim (Bool-cases (is_empty (deps_of t))) [
    | inl b ↦ rw b
    | inr b ↦ rw b (rw (all_true-intro (λ x. elem x (finished_in d)) (deps_of t) h))
  ])

  pub head-deps_met :
      (s : PlanStep) (rest : List PlanStep)
      → Distinct (keys d)
      → All (HasPriorDeps steps) steps
      → Ordered (λ x. x.id) (s ∷ rest)
      → elem s.id (ids steps) ≡ true
      → ((k : ℕ)
          → elem k (ids steps) ≡ true
          → (finished_at d k ≡ true) ⊎ (elem k (ids (s ∷ rest)) ≡ true))
      → deps_met_in d steps s.id ≡ ok true
  head-deps_met s rest unique prior sorted here cover =
      let (t, found, same, deps) = All-elem (HasPriorDeps steps) steps s.id prior here in
      deps_met_in-true s.id t found (finished (deps_of t) t.id same deps)
    where
      finished :
          (ds : List ℕ) (m : ℕ)
          → m ≡ s.id
          → All (λ x. (x < m) × (elem x (ids steps) ≡ true)) ds
          → All (λ x. elem x (finished_in d) ≡ true) ds
      finished [] m same h = tt
      finished (x ∷ xs) m same h = (
        elim (cover x h.0.1) [
          | inl done ↦ elem-finished_in x d unique ∙ done
          | inr waits ↦
              let below : x < s.id = omega arith in
              let absent = not_elem-below x (s ∷ rest) (below, All-lt x s.id rest below sorted.0) in
              absurd (ground arith)
        ],
        finished xs m same h.1,
      )
