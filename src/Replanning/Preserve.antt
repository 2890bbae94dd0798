-- ===== src/Replanning/Preserve.antt =====
-- plan/state.py, plan/replanning_controller.py: what restore_completed_step_snapshots gives back.
use trip_graph_agent_runtime.Prelude.{
  ℕ, ◌≡◌, refl, sym, ap, ◌∙◌, ◌⊎◌, inl, inr, String, Bool, true, false, Option, none, some, List,
  [], ◌∷◌, All, all_true, ◌==◌, ==_iff, list_eq, elem, Bool-cases, Option-cases, Distinct, subst,
  arith,
}
use trip_graph_agent_runtime.Prelude.Names.{str_eq_refl}
use trip_graph_agent_runtime.Prelude.Dict.{Dict, keys}
use trip_graph_agent_runtime.Schema.{PlanStep, deps_of}
use trip_graph_agent_runtime.State.Replan.{
  hint_eq, same_content, restore_step, restore_steps, restore_completed_step_snapshots,
}
use trip_graph_agent_runtime.Replanning.{ReplanApplyMeta, Complaint, Held, write_back}
use trip_graph_agent_runtime.Replanning.Apply.{
  first_step, has_task, complaint_at, assert_completed_steps_preserved, keep_completed,
}

-- A step with the id was there, and the first one has the content of the original now; or none was,
-- and none is.
abbrev pub IsRestored : List PlanStep → List PlanStep → ℕ × PlanStep → Type 0
IsRestored old new (k, original) =
    ((s : PlanStep) × (before : PlanStep) × (first_step k old ≡ some before)
      × (first_step k new ≡ some s)
      × (same_content s original ≡ true))
    ⊎ ((first_step k old ≡ none) × (first_step k new ≡ none))

list_eq_refl : (l : List ℕ) → list_eq l l ≡ true
unfolding list_eq
list_eq_refl [] = refl
list_eq_refl (k ∷ l) = ground (arith, list_eq_refl l)

hint_eq_refl : (hint : Option String) → hint_eq hint hint ≡ true
unfolding hint_eq
hint_eq_refl none = refl
hint_eq_refl (some hint) = str_eq_refl hint

same_content_refl : (s : PlanStep) → same_content s s ≡ true
unfolding same_content
same_content_refl s =
    ground (arith, str_eq_refl s.task, hint_eq_refl s.tool_hint, list_eq_refl (deps_of s))

-- Steps before a restore that left the first step with an id alone.
IsRestored-before :
    (old middle new : List PlanStep) (p : ℕ × PlanStep)
    → first_step p.0 middle ≡ first_step p.0 old
    → IsRestored middle new p
    → IsRestored old new p
IsRestored-before old middle new p e (inl (s, before, was, now, same)) =
    inl (s, before, sym e ∙ was, now, same)
IsRestored-before old middle new p e (inr (was, now)) = inr (sym e ∙ was, now)

IsRestored-after :
    (old middle new : List PlanStep) (p : ℕ × PlanStep)
    → first_step p.0 new ≡ first_step p.0 middle
    → IsRestored old middle p
    → IsRestored old new p
IsRestored-after old middle new p e (inl (s, before, was, now, same)) =
    inl (s, before, was, e ∙ now, same)
IsRestored-after old middle new p e (inr (was, now)) = inr (was, e ∙ now)

restore_step-IsRestored :
    (k : ℕ) (original : PlanStep) (steps : List PlanStep)
    → original.id ≡ k
    → IsRestored steps (restore_step k original steps).0 (k, original)
unfolding restore_step first_step
restore_step-IsRestored k original [] h = inr (refl, refl)
restore_step-IsRestored k original (s ∷ rest) h = elim (Bool-cases (s.id == k)) [
  | inl e ↦ elim (Bool-cases (same_content s original)) [
    | inl same ↦ rw (e, same) (inl (s, s, refl, ground (arith, e), same))
    | inr differs ↦
        rw (e, differs) (inl (original, s, refl, ground (arith, h), same_content_refl original))
  ]
  | inr e ↦
      let later = (restore_step k original rest).0 in
      rw e (
        IsRestored-after rest later (s ∷ later) (k, original) (ground (arith, e))
          (restore_step-IsRestored k original rest h))
]

restore_step-other :
    (k other : ℕ) (original : PlanStep) (steps : List PlanStep)
    → original.id ≡ k
    → other == k ≡ false
    → first_step other (restore_step k original steps).0 ≡ first_step other steps
unfolding restore_step first_step
restore_step-other k other original [] h d = refl
restore_step-other k other original (s ∷ rest) h d = elim (Bool-cases (s.id == k)) [
  | inl e ↦ elim (Bool-cases (same_content s original)) [
    | inl same ↦ rw (e, same) refl
    | inr differs ↦ rw (e, differs) (ground (arith, h, d, e))
  ]
  | inr e ↦ rw e (ground (arith, restore_step-other k other original rest h d))
]

restore_steps-other :
    (other : ℕ) (snapshots : Dict PlanStep) (steps : List PlanStep)
    → All (λ p. p.1.id ≡ p.0) snapshots
    → elem other (keys snapshots) ≡ false
    → first_step other (restore_steps snapshots steps).0 ≡ first_step other steps
unfolding restore_steps elem
restore_steps-other other [] steps own d = refl
restore_steps-other other ((k, original) ∷ snapshots) steps (here, own) d =
    restore_steps-other other snapshots (restore_step k original steps).0 own (ground (arith, d))
    ∙ restore_step-other k other original steps here (ground (arith, d))

All-before :
    (old middle new : List PlanStep) (snapshots : Dict PlanStep)
    → All (λ p. first_step p.0 middle ≡ first_step p.0 old) snapshots
    → All (IsRestored middle new) snapshots
    → All (IsRestored old new) snapshots
All-before old middle new [] e h = tt
All-before old middle new (p ∷ snapshots) (e, es) (h, hs) =
    (IsRestored-before old middle new p e h, All-before old middle new snapshots es hs)

step-others :
    (k : ℕ) (original : PlanStep) (snapshots : Dict PlanStep) (steps : List PlanStep)
    → original.id ≡ k
    → elem k (keys snapshots) ≡ false
    → All (λ p. first_step p.0 (restore_step k original steps).0 ≡ first_step p.0 steps) snapshots
unfolding elem
step-others k original [] steps h d = tt
step-others k original ((other, o) ∷ snapshots) steps h d = (
  restore_step-other k other original steps h (ground (arith, d, ==_iff k other, ==_iff other k)),
  step-others k original snapshots steps h (ground (arith, d)),
)

restore_steps-IsRestored :
    (snapshots : Dict PlanStep) (steps : List PlanStep)
    → All (λ p. p.1.id ≡ p.0) snapshots
    → Distinct (keys snapshots)
    → All (IsRestored steps (restore_steps snapshots steps).0) snapshots
unfolding restore_steps
restore_steps-IsRestored [] steps own distinct = tt
restore_steps-IsRestored ((k, original) ∷ snapshots) steps (here, own) (new, distinct) =
    let middle = (restore_step k original steps).0 in
    (
      IsRestored-after steps middle (restore_steps snapshots middle).0 (k, original)
          (restore_steps-other k snapshots middle own new)
          (restore_step-IsRestored k original steps here),
      All-before steps middle (restore_steps snapshots middle).0 snapshots
          (step-others k original snapshots steps here new)
          (restore_steps-IsRestored snapshots middle own distinct),
    )

-- A step with the id was there, or one has the task now.
abbrev pub is_there : List PlanStep → List PlanStep → ℕ × PlanStep → Bool
is_there old new (k, original) = elim (first_step k old) [
  | none ↦ has_task original.task new
  | some s ↦ true
]

abbrev is_quiet : Option Complaint → Bool
is_quiet none = true
is_quiet (some c) = false

complaint_at-IsRestored :
    (old new : List PlanStep) (k : ℕ) (original : PlanStep)
    → IsRestored old new (k, original)
    → is_quiet (complaint_at new k original) ≡ is_there old new (k, original)
unfolding complaint_at
complaint_at-IsRestored old new k original (inl (s, before, was, now, same)) =
    ground (arith, was, now, same)
complaint_at-IsRestored old new k original (inr (was, now)) = ground (arith, was, now)

assert-IsRestored :
    (old new : List PlanStep) (snapshots : Dict PlanStep)
    → All (IsRestored old new) snapshots
    → is_quiet (assert_completed_steps_preserved new snapshots)
      ≡ all_true (is_there old new) snapshots
unfolding assert_completed_steps_preserved all_true
assert-IsRestored old new [] h = refl
assert-IsRestored old new ((k, original) ∷ snapshots) (h, hs) =
    ground
      (arith, complaint_at-IsRestored old new k original h, assert-IsRestored old new snapshots hs)

module _ {Json Context : Type 0} where
  keep_completed-answer :
      (before : Dict PlanStep) (meta : ReplanApplyMeta) (h : Held Json Context)
      → ((keep_completed before meta h).0
          ≡ is_quiet
              (assert_completed_steps_preserved (restore_steps before h.state.plan.steps).0 before))
        × ((keep_completed before meta h).2.state.plan.steps
            ≡ (restore_steps before h.state.plan.steps).0)
  unfolding keep_completed restore_completed_step_snapshots write_back
  keep_completed-answer before meta h =
      elim (Option-cases
        (assert_completed_steps_preserved (restore_steps before h.state.plan.steps).0 before)) [
          | inl fine ↦ rw (fine, keep_completed) (refl, refl)
          | inr (c, bad) ↦ rw (bad, keep_completed) (refl, refl)
        ]

  -- The end of _try_apply_replan_steps, whatever the new plan made of the finished steps, where the
  -- keys of `before` are the ids of its steps and distinct: the first step with the id of a finished
  -- step has its task, hint and dependencies again, if there is a step with the id. The answer is True
  -- exactly when, for each finished step, there is one, or some step of the plan has the task.
  pub keep_completed-restores :
      (before : Dict PlanStep) (meta : ReplanApplyMeta) (h : Held Json Context)
      → All (λ p. p.1.id ≡ p.0) before
      → Distinct (keys before)
      → All (IsRestored h.state.plan.steps (keep_completed before meta h).2.state.plan.steps) before
        × ((keep_completed before meta h).0
            ≡ all_true
                (is_there h.state.plan.steps (keep_completed before meta h).2.state.plan.steps)
                before)
  keep_completed-restores before meta h own distinct =
      let (answer, steps) = keep_completed-answer before meta h in
      let old = h.state.plan.steps in
      let restored = restore_steps-IsRestored before old own distinct in
      (
        subst (λ l. All (IsRestored old l) before) (sym steps) restored,
        answer
            ∙ assert-IsRestored old (restore_steps before old).0 before restored
            ∙ ap (λ l. all_true (is_there old l) before) (sym steps),
      )
