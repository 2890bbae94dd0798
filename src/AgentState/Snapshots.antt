-- ===== src/AgentState/Snapshots.antt =====
-- graph/runtime/agent_state.py: what a snapshot gives back.
use trip_graph_agent_runtime.Prelude.{◌≡◌, refl, ℕ, Option}
use trip_graph_agent_runtime.Prelude.Names.{discard-discard}
use trip_graph_agent_runtime.AgentState.{
  AgentState, Outside, snapshot_of, summary_of, apply_snapshot,
}

module _ {Json World : Type 0} (out : Outside Json World) where
  -- A snapshot of one state applied to another gives a state with that snapshot again, but for the
  -- plan state, which stays the other's.
  pub snapshot_of-apply_snapshot :
      (graph : Option ℕ) (s t : AgentState Json)
      → snapshot_of out (apply_snapshot graph (snapshot_of out s) t)
        ≡ record (snapshot_of out s) { plan_state = summary_of out t.plan_state }
  unfolding apply_snapshot snapshot_of
  snapshot_of-apply_snapshot graph s t = rw (discard-discard "compiled_plan_graph" s.memory) refl
