-- ===== src/Replanning/Restore.antt =====
-- plan/replanning_controller.py: what the first restore_snapshot of a replan gives back.
use trip_graph_agent_runtime.Prelude.{
  ℕ, ◌≡◌, refl, sym, ◌∙◌, subst, inl, inr, String, Bool, true, false, not, List, [], ◌∷◌,
  Bool-cases, Option-cases, is_empty, if◌then◌else◌, if-true, if-false,
}
use trip_graph_agent_runtime.Prelude.Dict.{Dict}
use trip_graph_agent_runtime.Schema.{StepStatus, PlanStep, Plan}
use trip_graph_agent_runtime.State.{PlanState}
use trip_graph_agent_runtime.State.Replan.{
  apply_replanned_steps, restore_completed_step_snapshots, remap_step_status,
}
use trip_graph_agent_runtime.Validator.{validate}
use trip_graph_agent_runtime.Repair.{RepairResult, repair_plan}
use trip_graph_agent_runtime.Replanning.{
  ReplanApplyMeta, Snapshot, Held, all_fields, snapshot_of, snapshot_for_replan, write_back,
  restore_snapshot, set_plan, set_statuses, set_remapped,
}
use trip_graph_agent_runtime.Replanning.Apply.{
  adopt_repair, assert_completed_steps_preserved, validate_or_repair_plan, keep_completed,
  try_apply_replan_steps,
}

module _ {Json Context : Type 0} where
  -- The state shares nothing with the snapshot `k`, and keeps what no replan touches of `s`.
  record IsApart (s : PlanState Json Context) (k : Snapshot Json Context) (h : Held Json Context)
      : Type 0 where
    pub kept : h.kept ≡ k
    unshared : h.shared ≡ all_fields false
    pub session_id : h.state.session_id ≡ s.session_id
    pub current_step : h.state.current_step ≡ s.current_step
    pub global_context : h.state.global_context ≡ s.global_context

  -- The fields that no snapshot has agree.
  abbrev SameRest : PlanState Json Context → PlanState Json Context → Type 0
  SameRest t s =
      (t.session_id ≡ s.session_id)
      × (t.current_step ≡ s.current_step)
      × (t.global_context ≡ s.global_context)

  module _ (s : PlanState Json Context) (k : Snapshot Json Context) where
    write_back-IsApart :
        (h : Held Json Context) (t : PlanState Json Context)
        → IsApart s k h
        → SameRest t h.state
        → IsApart s k (write_back h t)
    unfolding write_back
    write_back-IsApart h t a (session, current, context) = record {
      kept = rw a.unshared a.kept;
      unshared = a.unshared;
      session_id = session ∙ a.session_id;
      current_step = current ∙ a.current_step;
      global_context = context ∙ a.global_context;
    }

    set_plan-IsApart :
        (h : Held Json Context) (plan : Plan) → IsApart s k h → IsApart s k (set_plan plan h)
    unfolding set_plan
    set_plan-IsApart h plan a = record {
      kept = a.kept;
      unshared = rw a.unshared refl;
      session_id = a.session_id;
      current_step = a.current_step;
      global_context = a.global_context;
    }

    set_statuses-IsApart :
        (h : Held Json Context) (d : Dict StepStatus)
        → IsApart s k h
        → IsApart s k (set_statuses d h)
    unfolding set_statuses
    set_statuses-IsApart h d a = record {
      kept = a.kept;
      unshared = rw a.unshared refl;
      session_id = a.session_id;
      current_step = a.current_step;
      global_context = a.global_context;
    }

    set_remapped-IsApart :
        (h : Held Json Context) (t : PlanState Json Context)
        → IsApart s k h
        → SameRest t h.state
        → IsApart s k (set_remapped t h)
    unfolding set_remapped
    set_remapped-IsApart h t a (session, current, context) = record {
      kept = a.kept;
      unshared = rw a.unshared refl;
      session_id = session ∙ a.session_id;
      current_step = current ∙ a.current_step;
      global_context = context ∙ a.global_context;
    }

    remap_step_status-SameRest :
        (t : PlanState Json Context) (id_map : List (ℕ × ℕ))
        → SameRest (remap_step_status t id_map) t
    unfolding remap_step_status
    remap_step_status-SameRest t [] = (refl, refl, refl)
    remap_step_status-SameRest t (p ∷ id_map) = (refl, refl, refl)

    adopt_repair-IsApart :
        (repair : RepairResult) (d : Dict StepStatus) (h : Held Json Context)
        → IsApart s k h
        → IsApart s k (adopt_repair repair d h)
    unfolding adopt_repair
    adopt_repair-IsApart repair d h a =
        let planned = set_plan-IsApart h repair.plan a in
        elim (Bool-cases (is_empty repair.id_map)) [
          | inl e ↦
              subst (IsApart s k) (sym (if-true (is_empty repair.id_map) _ _ e))
                (set_statuses-IsApart (set_plan repair.plan h) d planned)
          | inr e ↦ subst (IsApart s k) (sym (if-false (is_empty repair.id_map) _ _ e)) (
              set_remapped-IsApart (set_plan repair.plan h) _ planned
                (remap_step_status-SameRest (set_plan repair.plan h).state repair.id_map))
        ]

    -- A choice between two results that are apart is apart.
    record IsApartIn (result : Bool × ReplanApplyMeta × Held Json Context) : Type 0 where
      held : IsApart s k result.2

    if-IsApartIn :
        (b : Bool) (x y : Bool × ReplanApplyMeta × Held Json Context)
        → IsApartIn x
        → IsApartIn y
        → IsApartIn (if b then x else y)
    if-IsApartIn true x y hx hy = hx
    if-IsApartIn false x y hx hy = hy

    validate_or_repair_plan-IsApart :
        (available : List String) (d : Dict StepStatus) (meta : ReplanApplyMeta)
        (h : Held Json Context)
        → IsApart s k h
        → IsApartIn (validate_or_repair_plan available d meta h)
    unfolding validate_or_repair_plan
    validate_or_repair_plan-IsApart available d meta h a =
        let adopted = adopt_repair-IsApart (repair_plan h.state.plan) d h a in
        if-IsApartIn (validate available h.state.plan).success _ _ (record { held = a })
          (if-IsApartIn (not (repair_plan h.state.plan).repaired) _ _ (record { held = a })
            (if-IsApartIn
              (validate available (adopt_repair (repair_plan h.state.plan) d h).state.plan).success
              _ _ (record { held = adopted }) (record { held = adopted })))

    keep_completed-IsApart :
        (before : Dict PlanStep) (meta : ReplanApplyMeta) (h : Held Json Context)
        → IsApart s k h
        → IsApartIn (keep_completed before meta h)
    unfolding keep_completed restore_completed_step_snapshots
    keep_completed-IsApart before meta h a =
        let restored = (restore_completed_step_snapshots h.state before).0 in
        let written = write_back-IsApart h restored a (refl, refl, refl) in
        elim (Option-cases (assert_completed_steps_preserved restored.plan.steps before)) [
          | inl fine ↦ rw (fine, keep_completed) (record { held = written })
          | inr (c, bad) ↦ rw (bad, keep_completed) (record { held = written })
        ]

  try_apply_replan_steps-IsApart :
      (available : List String) (steps : List PlanStep) (before : Dict PlanStep)
      (meta : ReplanApplyMeta) (s : PlanState Json Context)
      → IsApart s
          (snapshot_of s)
          (try_apply_replan_steps available steps before meta (snapshot_for_replan s)).2
  unfolding try_apply_replan_steps snapshot_for_replan apply_replanned_steps
  try_apply_replan_steps-IsApart available steps before meta s =
      let start : IsApart s (snapshot_of s) (snapshot_for_replan s) = record {
        kept = refl;
        unshared = refl;
        session_id = refl;
        current_step = refl;
        global_context = refl;
      } in
      let applied =
        write_back-IsApart s (snapshot_of s) (snapshot_for_replan s) (apply_replanned_steps s _)
          start (refl, refl, refl) in
      let validated =
        validate_or_repair_plan-IsApart s (snapshot_of s) available s.step_status _ _ applied in
      (if-IsApartIn s (snapshot_of s) _ _ _
        (keep_completed-IsApart s (snapshot_of s) before _ _ validated.held)
        (record { held = validated.held })).held

  restore_snapshot-eq :
      (s : PlanState Json Context) (h : Held Json Context)
      → IsApart s (snapshot_of s) h
      → (restore_snapshot h).state ≡ s
  unfolding restore_snapshot
  restore_snapshot-eq s h a = rw (a.kept, a.session_id, a.current_step, a.global_context) refl

  -- Whatever steps the planner wrote, and however far _try_apply_replan_steps came with them, restoring
  -- the snapshot that was taken before it gives back the state as it was.
  pub restore_snapshot-undoes :
      (available : List String) (steps : List PlanStep) (before : Dict PlanStep)
      (meta : ReplanApplyMeta) (s : PlanState Json Context)
      → (restore_snapshot
          (try_apply_replan_steps available steps before meta (snapshot_for_replan s)).2).state
        ≡ s
  restore_snapshot-undoes available steps before meta s =
      restore_snapshot-eq s _ (try_apply_replan_steps-IsApart available steps before meta s)
