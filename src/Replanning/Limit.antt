-- ===== src/Replanning/Limit.antt =====
-- plan/replanning_controller.py: the limit on the attempts.
use trip_graph_agent_runtime.Prelude.{
  ℕ, ◌+◌, ◌<◌, ◌≡◌, refl, sym, ◌∙◌, subst, ◌⊎◌, inl, inr, false, not, Option, none, some, List, leb,
  leb-false→lt, Bool-cases, if-true, if-false, arith,
}
use trip_graph_agent_runtime.Prelude.Dict.{Dict}
use trip_graph_agent_runtime.Errors.{Result, ok, raise, ◌>>=◌}
use trip_graph_agent_runtime.Schema.{PlanStep}
use trip_graph_agent_runtime.Replanning.{
  new_meta, ExecutionCritique, ReplanningResult, Held, snapshot_for_replan,
}
use trip_graph_agent_runtime.Replanning.Apply.{try_apply_replan_steps, completed_step_snapshot}
use trip_graph_agent_runtime.Replanning.Handle.{
  ReplanningConfig, Planner, Controlled, no_replan, give_up, succeed, fall_back, use_steps,
  replan_now, handle, replan_anchor_step_id, record_replan_trace, build_replan_reason,
}

module _ {Json Context World : Type 0} (cfg : ReplanningConfig)
    (planner : Planner Json Context World) where
  -- An answer of the controller with the attempts `n`, in the state and in the result.
  abbrev HasAttempts : ℕ → Result (ReplanningResult × Controlled Json Context World) → Type 0
  HasAttempts n (ok (result, c)) = (c.attempts ≡ n) × (result.replan_attempt ≡ n)
  HasAttempts n (raise e) = Unit

  fall_back-HasAttempts :
      (critique : ExecutionCritique) (anchor : ℕ) (before : Dict PlanStep) (h : Held Json Context)
      (n : ℕ) (world : World)
      → HasAttempts n (fall_back cfg planner critique anchor before h n world)
  unfolding fall_back succeed give_up
  fall_back-HasAttempts critique anchor before h n world = ground arith

  use_steps-HasAttempts :
      (critique : ExecutionCritique) (anchor : ℕ) (before : Dict PlanStep) (h : Held Json Context)
      (n : ℕ) (world : World) (steps : Option (List PlanStep))
      → HasAttempts n (use_steps cfg planner critique anchor before h n world steps)
  unfolding use_steps succeed
  use_steps-HasAttempts critique anchor before h n world none = tt
  use_steps-HasAttempts critique anchor before h n world (some steps) =
      let applied = try_apply_replan_steps cfg.available steps before (new_meta false) h in
      elim (Bool-cases applied.0) [
        | inl good ↦ subst (HasAttempts n) (sym (if-true applied.0 _ _ good)) (refl, refl)
        | inr bad ↦
            subst (HasAttempts n) (sym (if-false applied.0 _ _ bad))
              (fall_back-HasAttempts critique anchor before applied.2 n world)
      ]

  bind-HasAttempts :
      (n : ℕ) (r : Result ℕ) (f : ℕ → Result (ReplanningResult × Controlled Json Context World))
      → ((k : ℕ) → HasAttempts n (f k))
      → HasAttempts n (r >>= f)
  bind-HasAttempts n (ok k) f h = h k
  bind-HasAttempts n (raise e) f h = tt

  replan_now-HasAttempts :
      (critique : ExecutionCritique) (c : Controlled Json Context World)
      → HasAttempts (c.attempts + 1) (replan_now cfg planner critique c)
  unfolding replan_now
  replan_now-HasAttempts critique c =
      bind-HasAttempts (c.attempts + 1) (replan_anchor_step_id c.state) _ (λ anchor.
        let traced = record_replan_trace (build_replan_reason critique) anchor c.state in
        let (steps, world) = planner.replan_from_critique traced critique anchor c.world in
        use_steps-HasAttempts critique anchor (completed_step_snapshot c.state)
          (snapshot_for_replan traced) (c.attempts + 1) world steps)

  -- Either nothing happened, or one attempt of those that were left was used.
  abbrev pub IsLimited :
      Controlled Json Context World
      → Result (ReplanningResult × Controlled Json Context World)
      → Type 0
  IsLimited c (ok (result, c')) =
      (result.replan_attempt ≡ c'.attempts)
      × (((c' ≡ c) × (result.replanned ≡ false))
          ⊎ ((c.attempts < cfg.max_replan_attempts) × (c'.attempts ≡ c.attempts + 1)))
  IsLimited c (raise e) = Unit

  used-IsLimited :
      (c : Controlled Json Context World)
      (r : Result (ReplanningResult × Controlled Json Context World))
      → c.attempts < cfg.max_replan_attempts
      → HasAttempts (c.attempts + 1) r
      → IsLimited c r
  used-IsLimited c (ok (result, c')) lt (state, count) = (count ∙ sym state, inr (lt, state))
  used-IsLimited c (raise e) lt h = tt

  -- handle answers with the count of attempts in the result and in the controller the same. Either the
  -- controller is as it was and nothing was replanned, or fewer attempts than the limit had been used
  -- and one more is.
  pub handle-IsLimited :
      (critique : ExecutionCritique) (c : Controlled Json Context World)
      → IsLimited c (handle cfg planner critique c)
  unfolding handle no_replan
  handle-IsLimited critique c = elim (Bool-cases (not critique.need_replan)) [
    | inl e ↦
        subst (IsLimited c) (sym (if-true (not critique.need_replan) _ _ e))
          (refl, inl (refl, refl))
    | inr e ↦
        subst (IsLimited c) (sym (if-false (not critique.need_replan) _ _ e))
          (elim (Bool-cases (not cfg.enabled)) [
            | inl off ↦
                subst (IsLimited c) (sym (if-true (not cfg.enabled) _ _ off))
                  (refl, inl (refl, refl))
            | inr on ↦
                subst (IsLimited c) (sym (if-false (not cfg.enabled) _ _ on))
                  (elim (Bool-cases (leb cfg.max_replan_attempts c.attempts)) [
                    | inl full ↦
                        subst (IsLimited c)
                          (sym (if-true (leb cfg.max_replan_attempts c.attempts) _ _ full))
                          (refl, inl (refl, refl))
                    | inr free ↦
                        subst (IsLimited c)
                          (sym (if-false (leb cfg.max_replan_attempts c.attempts) _ _ free))
                          (used-IsLimited c (replan_now cfg planner critique c)
                            (leb-false→lt cfg.max_replan_attempts c.attempts free)
                            (replan_now-HasAttempts critique c))
                  ])
          ])
  ]
