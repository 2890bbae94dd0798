-- ===== src/AgentState/Delta.antt =====
-- state_hash.py and state_versioning.py: what changed between two snapshots, by key.
use trip_graph_agent_runtime.Prelude.{
  ◌≡◌, refl, String, Bool, true, not, Option, none, some, List, [], ◌∷◌, map, select, arith,
}
use trip_graph_agent_runtime.Prelude.Names.{Names, find}
use trip_graph_agent_runtime.AgentState.{Snapshot, AgentState, Outside, snapshot_of}

module _ {Json World : Type 0} (out : Outside Json World) where
  open out use {same, null, flag, number, text, array, object, trace_entry}

  -- What `json` writes for a value that may be None.
  unfoldable pub or_null {ℓ} : {A : Type ℓ} → (A → Json) → Option A → Json
  or_null write none = null
  or_null write (some x) = write x

  -- The dict of a snapshot, in the order of its sorted keys.
  unfoldable pub entries : Snapshot Json → Names Json
  unfolding or_null
  entries snap =
      ("branch_id", text snap.branch_id)
      ∷ ("current_step", or_null number snap.current_step)
      ∷ ("episodic_memory", array snap.episodic_memory)
      ∷ ("execution_critique", or_null (λ x. x) snap.execution_critique)
      ∷ ("execution_seed", or_null number snap.execution_seed)
      ∷ ("execution_trace", array snap.execution_trace)
      ∷ ("final_result", or_null text snap.final_result)
      ∷ ("graph_trace", array (map trace_entry snap.graph_trace))
      ∷ ("long_term_memory", array snap.long_term_memory)
      ∷ ("memory", object snap.memory)
      ∷ ("messages", array snap.messages)
      ∷ ("observations", object snap.observations)
      ∷ ("plan", or_null (λ x. x) snap.plan)
      ∷ ("plan_state", or_null (λ x. x) snap.plan_state)
      ∷ ("query", text snap.query)
      ∷ ("replan_attempts", number snap.replan_attempts)
      ∷ ("replan_history", array snap.replan_history)
      ∷ ("session_id", text snap.session_id)
      ∷ ("short_term_memory", array snap.short_term_memory)
      ∷ ("should_stop", flag snap.should_stop)
      ∷ ("state_version_id", or_null text snap.state_version_id)
      ∷ []

  unfoldable pub value_at : String → Names Json → Json
  unfolding or_null
  value_at key dict = or_null (λ x. x) (find key dict)

  -- old != new
  unfoldable pub changed : Names Json → Names Json → String → Bool
  unfolding value_at
  changed before after key = not (same (value_at key before) (value_at key after))

  -- The keys that _snapshot_diff lists, for two dicts with the same keys.
  unfoldable pub snapshot_diff : Snapshot Json → Snapshot Json → List String
  unfolding entries changed
  snapshot_diff before after =
      select (changed (entries before) (entries after)) (map (λ e. e.0) (entries before))

  unfoldable pub compute_state_delta : AgentState Json → AgentState Json → List String
  compute_state_delta before after = snapshot_diff (snapshot_of out before) (snapshot_of out after)

  module _ (same_refl : (x : Json) → same x x ≡ true) where
    no_change : (dict : Names Json) (keys : List String) → select (changed dict dict) keys ≡ []
    unfolding select changed
    no_change dict [] = refl
    no_change dict (key ∷ keys) = ground (arith, same_refl (value_at key dict), no_change dict keys)

    -- Two snapshots that agree have no difference.
    snapshot_diff_self : (snap : Snapshot Json) → snapshot_diff snap snap ≡ []
    unfolding snapshot_diff
    snapshot_diff_self snap = no_change (entries snap) (map (λ e. e.0) (entries snap))
