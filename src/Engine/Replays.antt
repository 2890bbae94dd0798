-- ===== src/Engine/Replays.antt =====
-- graph/runtime/core/graph.py: _execute_node when a node is called, and when it is replayed.
use trip_graph_agent_runtime.Prelude.{
  ℕ, ◌≡◌, refl, sym, ap, ◌∙◌, String, false, Option, none, some, [], ◌∷◌, ◌++◌, arith, subst,
  str_eq, eq_iff, ◌≢◌, Bool-cases, inl, inr, if-true, if-false,
}
use trip_graph_agent_runtime.Prelude.Names.{find, discard, str_eq_refl}
use trip_graph_agent_runtime.Errors.{ok}
use trip_graph_agent_runtime.AgentState.{
  AgentState, Snapshot, GraphTraceEntry, Outside, snapshot_of, summary_of, hash_state,
  apply_snapshot, log_graph,
}
use trip_graph_agent_runtime.Versions.{commit, commit_as}
use trip_graph_agent_runtime.ExecutionGraph.{NodeExecutionRecord}
use trip_graph_agent_runtime.Engine.{Graph, Env, NodeFn}
use trip_graph_agent_runtime.Engine.Policy.{
  ExecutionPolicy, replay, is_replay, peek_replay_record, maybe_pause,
}
use trip_graph_agent_runtime.Engine.Node.{
  Body, replay_output, replay_body, skip_record, called_body, node_body, snapshot_if, recorded_for,
  node_record, close_node, execute_fn, execute_if, execute_node,
}

module _ {Json World : Type 0} (out : Outside Json World) (graph : Graph Json World) (ref : ℕ) where
  -- The state that a node function gets.
  unfoldable pub started : String → AgentState Json → AgentState Json
  unfolding log_graph
  started node_id state =
      log_graph node_id "node_start" (("input_state_hash", out.text (hash_state out state)) ∷ [])
        state

  unfoldable pub paused :
      String → AgentState Json → ExecutionPolicy Json World → Env Json World → Env Json World
  paused node_id state policy env = record env {
    world =
        maybe_pause policy node_id (snapshot_if out policy.capture_state_snapshots state)
          (hash_state out state) env.world;
  }

  execute_node-found :
      (fn : NodeFn Json World) (node_id : String) (sequence : ℕ) (state : AgentState Json)
      (policy : ExecutionPolicy Json World) (env : Env Json World)
      → find node_id graph.nodes ≡ some fn
      → execute_node out graph ref node_id sequence state policy env
        ≡ execute_fn out fn ref node_id sequence state policy env
  unfolding execute_node
  execute_node-found fn node_id sequence state policy env h =
      ap (λ o. execute_if out o ref node_id sequence state policy env) h

  -- The body of a node, and what _execute_node makes of it.
  execute_node-body :
      (fn : NodeFn Json World) (node_id : String) (sequence : ℕ) (state : AgentState Json)
      (policy : ExecutionPolicy Json World) (env : Env Json World) (body : Body Json World)
      → find node_id graph.nodes ≡ some fn
      → node_body
          (replay_output (recorded_for node_id policy env) (hash_state out state))
          (recorded_for node_id policy env)
          fn
          policy
          (started node_id state)
          (paused node_id state policy env)
        ≡ ok body
      → execute_node out graph ref node_id sequence state policy env
        ≡ ok (
            close_node out ref
              (node_record out node_id sequence
                (hash_state out state)
                (snapshot_if out policy.capture_state_snapshots state)
                (started node_id state)
                body)
              body)
  unfolding execute_fn started paused
  execute_node-body fn node_id sequence state policy env body h e =
      execute_node-found fn node_id sequence state policy env h ∙ rw e refl

  close_node-kept :
      (entry : NodeExecutionRecord Json) (body : Body Json World)
      → ((close_node out ref entry body).0.should_stop ≡ body.state.should_stop)
        × ((close_node out ref entry body).1 ≡ body.policy)
  unfolding close_node commit commit_as log_graph
  close_node-kept entry body = (refl, refl)

  recorded_for-none :
      (node_id : String) (policy : ExecutionPolicy Json World) (env : Env Json World)
      → is_replay policy.mode ≡ false
      → recorded_for node_id policy env ≡ none
  unfolding recorded_for
  recorded_for-none node_id policy env m =
      if-false (is_replay policy.mode) (peek_replay_record node_id policy env.graphs) none m

  called :
      (entry : Option (NodeExecutionRecord Json)) (hash : String) (fn : NodeFn Json World)
      (policy : ExecutionPolicy Json World) (state : AgentState Json) (env : Env Json World)
      (after : AgentState Json × Env Json World)
      → entry ≡ none
      → fn state env ≡ ok after
      → node_body (replay_output entry hash) entry fn policy state env
        ≡ ok (called_body none policy after)
  unfolding node_body replay_output
  called none hash fn policy state env after h e = rw e refl
  called (some entry) hash fn policy state env after h e = cc

  -- Outside a replay the node function is called, and the policy stays.
  pub execute_node-called :
      (fn : NodeFn Json World) (node_id : String) (sequence : ℕ) (state : AgentState Json)
      (policy : ExecutionPolicy Json World) (env : Env Json World)
      (after : AgentState Json × Env Json World)
      → find node_id graph.nodes ≡ some fn
      → is_replay policy.mode ≡ false
      → fn (started node_id state) (paused node_id state policy env) ≡ ok after
      → (result : AgentState Json × ExecutionPolicy Json World × Env Json World) × (execute_node out
            graph ref node_id sequence state policy env
          ≡ ok result)
        × (result.0.should_stop ≡ after.0.should_stop)
        × (result.1 ≡ policy)
  unfolding called_body skip_record
  execute_node-called fn node_id sequence state policy env after h m e =
      let body = called_body none policy after in
      let entry =
        node_record out node_id sequence (hash_state out state)
          (snapshot_if out policy.capture_state_snapshots state) (started node_id state) body in
      let kept = close_node-kept entry body in
      (
        close_node out ref entry body,
        execute_node-body fn node_id sequence state policy env body h (
            called (recorded_for node_id policy env) (hash_state out state) fn policy
              (started node_id state) (paused node_id state policy env) after
              (recorded_for-none node_id policy env m) e),
        kept.0,
        kept.1,
      )

  replayed :
      (entry : NodeExecutionRecord Json) (snap : Snapshot Json) (hash : String)
      (fn : NodeFn Json World) (policy : ExecutionPolicy Json World) (state : AgentState Json)
      (env : Env Json World)
      → entry.input_state_hash ≡ hash
      → entry.output_state_snapshot ≡ some snap
      → node_body (replay_output (some entry) hash) (some entry) fn policy state env
        ≡ ok (replay_body snap policy state env)
  unfolding node_body replay_output
  replayed entry snap hash fn policy state env h o = rw (h, str_eq_refl hash, o) refl

  snapshot_of-closed :
      (snap : Snapshot Json) (entry : NodeExecutionRecord Json)
      (policy : ExecutionPolicy Json World) (state : AgentState Json) (env : Env Json World)
      → (note : GraphTraceEntry Json) × (snapshot_of out
            (close_node out ref entry (replay_body snap policy state env)).0
          ≡ record snap {
            memory = discard "compiled_plan_graph" snap.memory;
            graph_trace = snap.graph_trace ++ (note ∷ []);
            state_version_id = some (out.new_id env.world).0;
            plan_state = summary_of out state.plan_state;
          })
  unfolding close_node commit commit_as log_graph snapshot_of replay_body apply_snapshot
  snapshot_of-closed snap entry policy state env = (_, refl)

  closed_world :
      (entry : NodeExecutionRecord Json) (body : Body Json World)
      → (close_node out ref entry body).2.world ≡ (out.new_id body.env.world).1
  unfolding close_node commit
  closed_world entry body = refl

  paused-world :
      (node_id : String) (state : AgentState Json) (policy : ExecutionPolicy Json World)
      (env : Env Json World)
      → policy.debug ≡ false
      → (paused node_id state policy env).world ≡ env.world
  unfolding paused maybe_pause
  paused-world node_id state policy env d = ground (arith, d)

  -- In a replay, a node that has a record next in the replayed run, with the hash of the state and
  -- with an output snapshot, is not called: without a pause the world has only made one id. The
  -- state has the recorded snapshot, but for the new entry in its trace, its own new version id,
  -- the compiled plan graph, and the plan state, which stays.
  pub execute_node-replayed :
      (fn : NodeFn Json World) (node_id : String) (sequence : ℕ) (state : AgentState Json)
      (policy : ExecutionPolicy Json World) (env : Env Json World)
      (entry : NodeExecutionRecord Json) (snap : Snapshot Json)
      → find node_id graph.nodes ≡ some fn
      → policy.mode ≡ replay
      → policy.debug ≡ false
      → peek_replay_record node_id policy env.graphs ≡ some entry
      → entry.input_state_hash ≡ hash_state out state
      → entry.output_state_snapshot ≡ some snap
      → (result : AgentState Json × ExecutionPolicy Json World × Env Json World) × (execute_node out
            graph ref node_id sequence state policy env
          ≡ ok result)
        × (result.2.world ≡ (out.new_id env.world).1)
        × (note : GraphTraceEntry Json) × (snapshot_of out result.0 ≡ record snap {
          memory = discard "compiled_plan_graph" snap.memory;
          graph_trace = snap.graph_trace ++ (note ∷ []);
          state_version_id = some (out.new_id env.world).0;
          plan_state = summary_of out state.plan_state;
        })
  unfolding started
  execute_node-replayed fn node_id sequence state policy env entry snap h m d p i o =
      let before = started node_id state in
      let env' = paused node_id state policy env in
      let body = replay_body snap policy before env' in
      let hash = hash_state out state in
      let made =
        node_record out node_id sequence hash (snapshot_if out policy.capture_state_snapshots state)
          before body in
      let found : recorded_for node_id policy env ≡ some entry =
        unfold recorded_for in
        if-true (is_replay policy.mode) (peek_replay_record node_id policy env.graphs) none
          (ap is_replay m)
        ∙ p in
      let same = paused-world node_id state policy env d in
      let closed = snapshot_of-closed snap made policy before env' in
      (
        close_node out ref made body,
        execute_node-body fn node_id sequence state policy env body h (
            subst
              (λ (e : Option (NodeExecutionRecord Json)).
                node_body (replay_output e hash) e fn policy before env' ≡ ok body)
              (sym found) (replayed entry snap hash fn policy before env' i o)),
        closed_world made body ∙ unfold replay_body in ap (λ w. (out.new_id w).1) same,
        closed.0,
        closed.1
            ∙ ap
                (λ (w : World). record snap {
                  memory = discard "compiled_plan_graph" snap.memory;
                  graph_trace = snap.graph_trace ++ (closed.0 ∷ []);
                  state_version_id = some (out.new_id w).0;
                  plan_state = summary_of out state.plan_state;
                })
                same,
      )

  -- If the digest tells snapshots with different version ids apart, a record made at one state is
  -- not replayed at a state with another version id, whatever else they share.
  pub replay_output-version :
      ((a b : Snapshot Json)
        → out.digest a ≡ out.digest b
        → a.state_version_id ≡ b.state_version_id)
      → (entry : NodeExecutionRecord Json) (s t : AgentState Json)
      → entry.input_state_hash ≡ hash_state out t
      → s.state_version_id ≢ t.state_version_id
      → replay_output (some entry) (hash_state out s) ≡ none
  unfolding replay_output hash_state snapshot_of
  replay_output-version apart entry s t h different =
      if-false (str_eq entry.input_state_hash (hash_state out s)) entry.output_state_snapshot none
        (elim (Bool-cases (str_eq entry.input_state_hash (hash_state out s))) [
          | inl e ↦ absurd (
              different
                (apart _ _ (sym ((eq_iff entry.input_state_hash (hash_state out s)).0 e) ∙ h)))
          | inr e ↦ e
        ])
