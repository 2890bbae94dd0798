-- ===== src/Replanning.antt =====
-- plan/replanning_controller.py: ReplanningController. A snapshot holds objects that the state may come
-- to share: restore_snapshot puts the snapshot's own objects into the state, so that what is written
-- into them later is written into the snapshot too. `Held` keeps the two together and says which
-- objects they share.
pub mod Apply
pub mod Handle
pub mod Restore
pub mod Preserve
pub mod Limit
use trip_graph_agent_runtime.Prelude.{ℕ, String, Bool, true, false, Option, List, [], if◌then◌else◌}
use trip_graph_agent_runtime.Prelude.Dict.{Dict}
use trip_graph_agent_runtime.Errors.{PlanError}
use trip_graph_agent_runtime.Schema.{StepStatus, PlanStep, Plan, StepResult, ExecutionTraceEntry}
use trip_graph_agent_runtime.State.{PlanState}
use trip_graph_agent_runtime.Repair.{Note}

-- What validation_errors holds: a message of the validator, or of _assert_completed_steps_preserved.
pub data Complaint : Type 0 where
  invalid : PlanError → Complaint
  removed modified : ℕ → Complaint

-- class _ReplanApplyMeta; an override is named by its step.
pub record ReplanApplyMeta : Type 0 where
  pub repair_applied : Bool
  pub fallback_used : Bool
  pub repair_notes : List Note
  pub validation_errors : List Complaint
  pub completed_step_overrides : List ℕ

abbrev pub new_meta : Bool → ReplanApplyMeta
new_meta fallback = record {
  repair_applied = false;
  fallback_used = fallback;
  repair_notes = [];
  validation_errors = [];
  completed_step_overrides = [];
}

-- class ExecutionCritique(BaseModel), with the score as the text that it is printed as
pub record ExecutionCritique : Type 0 where
  pub score_text : String
  pub critique : String
  pub need_replan : Bool
  pub missing_info : List String

-- What skipped_reason says.
pub data SkippedReason : Type 0 where
  not_needed disabled validation_failed : SkippedReason
  max_replan_attempts_reached : ℕ → SkippedReason

-- class ReplanningResult(BaseModel); new_plan is the plan of the state that comes with it.
pub record ReplanningResult : Type 0 where
  pub replanned : Bool
  pub replan_reason : Option String
  pub replan_attempt : ℕ
  pub skipped_reason : Option SkippedReason
  pub meta : ReplanApplyMeta

-- The objects of PlanState that a snapshot has a copy of.
pub record Shared : Type 0 where
  pub plan : Bool
  pub step_status : Bool
  pub step_results : Bool
  pub completed_steps : Bool
  pub execution_trace : Bool

abbrev all_fields : Bool → Shared
all_fields b = record {
  plan = b;
  step_status = b;
  step_results = b;
  completed_steps = b;
  execution_trace = b;
}

module _ (Json Context : Type 0) where
  -- The dict of snapshot_for_replan.
  pub record Snapshot : Type 0 where
    pub plan : Plan
    pub step_status : Dict StepStatus
    pub step_results : Dict (StepResult Json)
    pub completed_steps : List ℕ
    pub execution_trace : List ExecutionTraceEntry

  pub record Held : Type 0 where
    pub state : PlanState Json Context
    pub kept : Snapshot
    pub shared : Shared

module _ {Json Context : Type 0} where
  abbrev snapshot_of : PlanState Json Context → Snapshot Json Context
  snapshot_of s = record {
    plan = s.plan;
    step_status = s.step_status;
    step_results = s.step_results;
    completed_steps = s.completed_steps;
    execution_trace = s.execution_trace;
  }

  -- snapshot_for_replan: deep copies, so that nothing is shared
  unfoldable pub snapshot_for_replan : PlanState Json Context → Held Json Context
  snapshot_for_replan s = record { state = s; kept = snapshot_of s; shared = all_fields false }

  -- The state's objects are changed in place, so that it reads `s`; the snapshot sees those it shares.
  unfoldable pub write_back : Held Json Context → PlanState Json Context → Held Json Context
  write_back h s = record h {
    state = s;
    kept = record {
      plan = if h.shared.plan then s.plan else h.kept.plan;
      step_status = if h.shared.step_status then s.step_status else h.kept.step_status;
      step_results = if h.shared.step_results then s.step_results else h.kept.step_results;
      completed_steps =
          if h.shared.completed_steps then s.completed_steps else h.kept.completed_steps;
      execution_trace =
          if h.shared.execution_trace then s.execution_trace else h.kept.execution_trace;
    };
  }

  unfoldable pub restore_snapshot : Held Json Context → Held Json Context
  restore_snapshot h = record h {
    state = record h.state {
      plan = h.kept.plan;
      step_status = h.kept.step_status;
      step_results = h.kept.step_results;
      completed_steps = h.kept.completed_steps;
      execution_trace = h.kept.execution_trace;
    };
    shared = all_fields true;
  }

  -- state.plan = plan
  unfoldable pub set_plan : Plan → Held Json Context → Held Json Context
  set_plan plan h = record h {
    state = record h.state { plan = plan };
    shared = record h.shared { plan = false };
  }

  -- state._step_status = statuses
  unfoldable pub set_statuses : Dict StepStatus → Held Json Context → Held Json Context
  set_statuses statuses h = record h {
    state = record h.state { step_status = statuses };
    shared = record h.shared { step_status = false };
  }

  -- state.remap_step_status(id_map), which makes new objects of three
  unfoldable pub set_remapped : PlanState Json Context → Held Json Context → Held Json Context
  set_remapped s h = record h {
    state = s;
    shared = record h.shared { step_status = false; step_results = false; completed_steps = false };
  }
