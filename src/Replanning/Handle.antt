-- ===== src/Replanning/Handle.antt =====
-- plan/replanning_controller.py: handle and _replan. The planner is a parameter; `join` stands for
-- "; ".join over the printed notes or errors.
use trip_graph_agent_runtime.Prelude.{
  ℕ, ◌+◌, String, Bool, true, false, not, Option, none, some, List, [], ◌∷◌, is_empty, leb,
  if◌then◌else◌,
}
use Prim.Native.String.{◌++◌ as ◌<>◌}
use trip_graph_agent_runtime.Prelude.Dict.{Dict}
use trip_graph_agent_runtime.Errors.{Result, ok, raise, service_error, ◌>>=◌}
use trip_graph_agent_runtime.Schema.{StepStatus, pending, failed, PlanStep, text_or}
use trip_graph_agent_runtime.State.{PlanState, append_trace, unfinished_step_ids}
use trip_graph_agent_runtime.Repair.{Note}
use trip_graph_agent_runtime.Replanning.{
  Complaint, ReplanApplyMeta, new_meta, ExecutionCritique, SkippedReason, not_needed, disabled,
  validation_failed, max_replan_attempts_reached, ReplanningResult, Held, snapshot_for_replan,
  write_back, restore_snapshot,
}
use trip_graph_agent_runtime.Replanning.Apply.{completed_step_snapshot, try_apply_replan_steps}

-- step_id for step_id, status in _step_status.items() if status == FAILED
unfoldable pub failed_ids : Dict StepStatus → List ℕ
failed_ids [] = []
failed_ids ((k, failed) ∷ d) = k ∷ failed_ids d
failed_ids ((k, _) ∷ d) = failed_ids d

-- xs[-1] if xs else 0
unfoldable pub last_or_zero : List ℕ → ℕ
last_or_zero [] = 0
last_or_zero (x ∷ []) = x
last_or_zero (x ∷ y ∷ xs) = last_or_zero (y ∷ xs)

-- sep.join(xs)
unfoldable pub join_text : String → List String → String
join_text sep [] = ""
join_text sep (x ∷ []) = x
join_text sep (x ∷ y ∷ xs) = x <> sep <> join_text sep (y ∷ xs)

-- _build_replan_reason
unfoldable pub build_replan_reason : ExecutionCritique → String
unfolding join_text
build_replan_reason c =
    let score = "score=" <> c.score_text in
    if is_empty c.missing_info
    then join_text " | " (c.critique ∷ score ∷ [])
    else join_text " | " (c.critique ∷ ("Missing: " <> join_text ", " c.missing_info) ∷ score ∷ [])

-- The settings, the names of the registered tools, and what prints lists of notes and of errors.
pub record ReplanningConfig : Type 0 where
  pub enabled : Bool
  pub max_replan_attempts : ℕ
  pub available : List String
  pub join_notes : List Note → String
  pub join_errors : List Complaint → String

-- The planner: its two ways to write steps, on its own state. No steps stand for an exception.
pub record Planner (Json Context World : Type 0) : Type 0 where
  pub replan_from_critique :
      PlanState Json Context → ExecutionCritique → ℕ → World → Option (List PlanStep) × World
  pub rulebased_replan_from_critique :
      PlanState Json Context → ExecutionCritique → ℕ → World → Option (List PlanStep) × World

-- The plan's state, the attempts used, and the planner's state.
pub record Controlled (Json Context World : Type 0) : Type 0 where
  pub state : PlanState Json Context
  pub attempts : ℕ
  pub world : World

module _ {Json Context : Type 0} where
  -- _replan_anchor_step_id
  unfoldable pub replan_anchor_step_id : PlanState Json Context → Result ℕ
  unfolding failed_ids last_or_zero
  replan_anchor_step_id s = unfinished_step_ids s >>= λ unfinished. ok (elim unfinished [
    | k ∷ ks ↦ k
    | [] ↦ elim (failed_ids s.step_status) [ k ∷ ks ↦ k | [] ↦ last_or_zero s.completed_steps ]
  ])

  -- _record_replan_trace, on the state
  unfoldable pub record_replan_trace : String → ℕ → PlanState Json Context → PlanState Json Context
  record_replan_trace reason anchor s = append_trace s (record {
    step_id = anchor;
    task = "[replan] critic-driven plan rewrite";
    status = pending;
    tool_name = none;
    success = none;
    error = some reason;
    attempt = 1;
    recovery_action = some "critic_replan";
  })

  -- _record_recovery_trace, where `success` says that the action is not replan_failed
  unfoldable pub record_recovery_trace :
      ℕ → String → Bool → String → Held Json Context → Held Json Context
  unfolding write_back
  record_recovery_trace anchor action success detail h = write_back h (
      append_trace h.state (record {
        step_id = anchor;
        task = "[replan] " <> action;
        status = pending;
        tool_name = none;
        success = some success;
        error = some detail;
        attempt = 1;
        recovery_action = some action;
      }))

module _ {Json Context World : Type 0} (cfg : ReplanningConfig)
    (planner : Planner Json Context World) where
  -- _no_replan
  unfoldable pub no_replan :
      SkippedReason
      → Controlled Json Context World
      → ReplanningResult × Controlled Json Context World
  no_replan reason c = (
    record {
      replanned = false;
      replan_reason = none;
      replan_attempt = c.attempts;
      skipped_reason = some reason;
      meta = new_meta false;
    },
    c,
  )

  -- The end of _replan, where no steps were applied: the snapshot is restored.
  unfoldable pub give_up :
      String
      → ℕ
      → ReplanApplyMeta
      → Held Json Context
      → ℕ
      → World
      → ReplanningResult × Controlled Json Context World
  unfolding restore_snapshot record_recovery_trace
  give_up reason anchor meta h attempts world =
      let detail = text_or (some (cfg.join_errors meta.validation_errors)) "validation failed" in
      let h' = record_recovery_trace anchor "replan_failed" false detail (restore_snapshot h) in
      (
        record {
          replanned = false;
          replan_reason = some reason;
          replan_attempt = attempts;
          skipped_reason = some validation_failed;
          meta = meta;
        },
        record { state = h'.state; attempts = attempts; world = world },
      )

  -- The end of _replan, where steps were applied.
  unfoldable pub succeed :
      String
      → ℕ
      → ReplanApplyMeta
      → Held Json Context
      → ℕ
      → World
      → ReplanningResult × Controlled Json Context World
  unfolding record_recovery_trace
  succeed reason anchor meta h attempts world =
      let detail = text_or (some (cfg.join_notes meta.repair_notes)) "plan repair applied" in
      let h' =
        if meta.repair_applied
        then record_recovery_trace anchor "replan_repair" true detail h
        else h in
      (
        record {
          replanned = true;
          replan_reason = some reason;
          replan_attempt = attempts;
          skipped_reason = none;
          meta = meta;
        },
        record { state = h'.state; attempts = attempts; world = world },
      )

  -- The fallback of _replan to the planner's rules, from the restored state.
  unfoldable pub fall_back :
      ExecutionCritique
      → ℕ
      → Dict PlanStep
      → Held Json Context
      → ℕ
      → World
      → Result (ReplanningResult × Controlled Json Context World)
  unfolding try_apply_replan_steps give_up succeed record_recovery_trace restore_snapshot
  fall_back critique anchor completed_before h attempts world =
      let restored = restore_snapshot h in
      let reason = build_replan_reason critique in
      let detail : String = "RuleBased replan fallback applied after validation failure" in
      let (steps, world') =
        planner.rulebased_replan_from_critique restored.state critique anchor world in
      elim steps [
        | none ↦ raise service_error
        | some new_steps ↦
            let (applied, meta, h') =
              try_apply_replan_steps cfg.available new_steps completed_before (new_meta true)
                restored in
            ok (
              if applied
              then succeed reason anchor meta
                  (record_recovery_trace anchor "replan_fallback" true detail h') attempts world'
              else give_up reason anchor meta h' attempts world')
      ]

  -- The part of _replan that follows the planner's answer.
  unfoldable pub use_steps :
      ExecutionCritique
      → ℕ
      → Dict PlanStep
      → Held Json Context
      → ℕ
      → World
      → Option (List PlanStep)
      → Result (ReplanningResult × Controlled Json Context World)
  unfolding try_apply_replan_steps fall_back succeed
  use_steps critique anchor completed_before held attempts world none = raise service_error
  use_steps critique anchor completed_before held attempts world (some new_steps) =
      let (applied, meta, h) =
        try_apply_replan_steps cfg.available new_steps completed_before (new_meta false) held in
      if applied
      then ok (succeed (build_replan_reason critique) anchor meta h attempts world)
      else fall_back critique anchor completed_before h attempts world

  -- _replan
  unfoldable pub replan_now :
      ExecutionCritique
      → Controlled Json Context World
      → Result (ReplanningResult × Controlled Json Context World)
  unfolding build_replan_reason replan_anchor_step_id completed_step_snapshot record_replan_trace
      snapshot_for_replan use_steps
  replan_now critique c = replan_anchor_step_id c.state >>= λ anchor.
      let traced = record_replan_trace (build_replan_reason critique) anchor c.state in
      let (steps, world) = planner.replan_from_critique traced critique anchor c.world in
      use_steps critique anchor (completed_step_snapshot c.state) (snapshot_for_replan traced)
        (c.attempts + 1) world steps

  -- handle
  unfoldable pub handle :
      ExecutionCritique
      → Controlled Json Context World
      → Result (ReplanningResult × Controlled Json Context World)
  unfolding replan_now no_replan
  handle critique c =
      if not critique.need_replan
      then ok (no_replan not_needed c)
      else if not cfg.enabled
      then ok (no_replan disabled c)
      else if leb cfg.max_replan_attempts c.attempts
      then ok (no_replan (max_replan_attempts_reached cfg.max_replan_attempts) c)
      else replan_now critique c
