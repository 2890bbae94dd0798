-- ===== src/Engine/Chain.antt =====
-- graph/runtime/core/graph.py: a run along a chain of nodes gets to the end.
use trip_graph_agent_runtime.Prelude.{
  ℕ, zero, suc, ◌+◌, ◌≤◌, ◌≡◌, refl, sym, ap, ◌∙◌, String, Bool, if◌then◌else◌, false, none, some,
  List, [], ◌∷◌, ◌++◌, map, map-append, append-nil, append_assoc, arith, length, str_eq, if-true,
  if-false,
}
use trip_graph_agent_runtime.Prelude.Names.{find, str_eq_refl}
use trip_graph_agent_runtime.Errors.{Result, ok, ◌>>=◌}
use trip_graph_agent_runtime.AgentState.{AgentState, Outside, hash_state}
use trip_graph_agent_runtime.Engine.{
  Graph, Env, NodeFn, end_node, fan_out_for, resolve_next, matched_edge,
}
use trip_graph_agent_runtime.Engine.Policy.{ExecutionPolicy, is_replay}
use trip_graph_agent_runtime.Engine.Run.{
  node_start, graph_end, Run, emit, after_node, add_edge_at, run_node_as, run_node, followed,
}
use trip_graph_agent_runtime.Engine.Loop.{
  label_of, kind_of, next_round, follow, one_round, must_stop, stop_early, run_loop, start_run,
  astream,
}
use trip_graph_agent_runtime.Engine.Trace.{ended, ended_quiet, run_node-ok}
use trip_graph_agent_runtime.Engine.Replays.{started, paused, execute_node-called}

module _ {Json World : Type 0} (graph : Graph Json World) where
  -- A node that always returns, and leaves should_stop as it is.
  abbrev pub Succeeds : NodeFn Json World → Type 0
  Succeeds fn =
      (state : AgentState Json) (env : Env Json World)
      → (after : AgentState Json × Env Json World) × (fn state env ≡ ok after)
        × (after.0.should_stop ≡ state.should_stop)

  -- From `current` the edges lead through these nodes to END, whatever the state is, and none of
  -- them is the source of a fan-out.
  abbrev pub Route : String → List String → Type 0
  Route current [] = current ≡ end_node
  Route current (node_id ∷ rest) =
      (current ≡ node_id)
      × (str_eq node_id end_node ≡ false)
      × (fan_out_for node_id graph ≡ none)
      × ((fn : NodeFn Json World) × (find node_id graph.nodes ≡ some fn) × Succeeds fn)
      × ((next : String) × ((state : AgentState Json) → resolve_next node_id state graph ≡ next)
          × Route next rest)

module _ {Json World : Type 0} (out : Outside Json World) (graph : Graph Json World) (ref : ℕ) where
  run_node-Succeeds :
      (fn : NodeFn Json World) (node_id : String) (run : Run Json World)
      → find node_id graph.nodes ≡ some fn
      → Succeeds graph fn
      → is_replay run.policy.mode ≡ false
      → (after : Run Json World) × (run_node out graph ref node_id run ≡ ok after)
        × (after.state.should_stop ≡ run.state.should_stop)
        × (after.policy ≡ run.policy)
  unfolding run_node run_node_as after_node started
  run_node-Succeeds fn node_id run h good m =
      let result =
        good (started out graph ref node_id run.state)
          (paused out graph ref node_id run.state run.policy run.env) in
      let executed =
        execute_node-called out graph ref fn node_id run.sequence run.state run.policy run.env
          result.0 h m result.1 in
      (
        record (after_node out graph ref false node_id (hash_state out run.state) run.sequence
            (emit (node_start false node_id (hash_state out run.state) run.sequence) run)
            executed.0) { sequence = suc run.sequence },
        rw executed.1 refl,
        executed.2 ∙ result.2,
        executed.3,
      )

  must_stop-false :
      (state : AgentState Json)
      → state.should_stop ≡ false
      → graph.termination ≡ none
      → must_stop out graph ref state ≡ ok false
  unfolding must_stop
  must_stop-false state s t = ground (arith, s, t)

  -- A round of the loop at a node that neither ends the run nor fans out.
  run_loop-step :
      (left : ℕ) (node_id : String) (run after : Run Json World)
      → str_eq node_id end_node ≡ false
      → must_stop out graph ref run.state ≡ ok false
      → fan_out_for node_id graph ≡ none
      → run_node out graph ref node_id run ≡ ok after
      → run_loop out graph ref (suc left) node_id run
        ≡ run_loop out graph ref left
            (resolve_next node_id after.state graph)
            (follow out graph ref node_id after).1
  unfolding run_loop follow
  run_loop-step left node_id run after not_end go plain e =
      if-false (str_eq node_id end_node) _ _ not_end
      ∙ ap
          (λ (m : Result Bool). m >>= λ stop.
            if stop
            then ok (stop_early out graph ref node_id run)
            else (one_round out graph ref (fan_out_for node_id graph) node_id run
                >>= λ (r : String × Run Json World). run_loop out graph ref left r.0 r.1))
          go
      ∙ ap
          (λ fan_out.
            one_round out graph ref fan_out node_id run >>= λ (r : String × Run Json World).
            run_loop out graph ref left r.0 r.1)
          plain
      ∙ unfold one_round in
        ap
          (λ (m : Result (Run Json World)).
            (m >>= λ (r : Run Json World). ok (follow out graph ref node_id r))
            >>= λ (r : String × Run Json World). run_loop out graph ref left r.0 r.1)
          e

  -- What the rounds along a chain leave: its nodes have ended, in order, after those before.
  pub record Walked (ids : List String) (before after : Run Json World) : Type 0 where
    pub ids_ended :
        map (λ p. p.0) (ended after.events) ≡ map (λ p. p.0) (ended before.events) ++ ids
    pub rounds : after.iterations ≡ before.iterations + length ids

  Walked-node :
      (node_id : String) (run after : Run Json World)
      → run_node out graph ref node_id run ≡ ok after
      → Walked (node_id ∷ []) run (follow out graph ref node_id after).1
  unfolding follow next_round add_edge_at ended
  Walked-node node_id run after e =
      let added = run_node-ok out graph ref node_id run after e in
      let target = resolve_next node_id after.state graph in
      let edge = matched_edge node_id after.state target graph in
      record {
        ids_ended =
            ap (map (λ p. p.0)) (
              ended_quiet (followed node_id target (label_of edge) (kind_of edge)) after.events refl
              ∙ added.ended_added)
            ∙ map-append (λ p. p.0) (ended run.events) ((node_id, run.sequence) ∷ []);
        rounds = omega (arith, added.iterations_kept);
      }

  Walked-cons :
      (node_id : String) (ids : List String) (a b c : Run Json World)
      → Walked (node_id ∷ []) a b
      → Walked ids b c
      → Walked (node_id ∷ ids) a c
  Walked-cons node_id ids a b c p q = record {
    ids_ended =
        q.ids_ended
        ∙ ap (λ (l : List String). l ++ ids) p.ids_ended
        ∙ append_assoc (map (λ p. p.0) (ended a.events)) (node_id ∷ []) ids;
    rounds = omega (arith, p.rounds, q.rounds);
  }

  kept_policy :
      (node_id : String) (run : Run Json World)
      → is_replay (follow out graph ref node_id run).1.policy.mode ≡ is_replay run.policy.mode
  unfolding follow next_round add_edge_at
  kept_policy node_id run = refl

  kept_stop :
      (node_id : String) (run : Run Json World)
      → (follow out graph ref node_id run).1.state.should_stop ≡ run.state.should_stop
  unfolding follow next_round add_edge_at
  kept_stop node_id run = refl

  run_loop-Walked :
      (ids : List String) (left : ℕ) (current : String) (run : Run Json World)
      → graph.termination ≡ none
      → Route graph current ids
      → length ids ≤ left
      → is_replay run.policy.mode ≡ false
      → run.state.should_stop ≡ false
      → (after : Run Json World) × (run_loop out graph ref left current run ≡ ok after)
        × Walked ids run after
  unfolding run_loop
  run_loop-Walked [] zero current run t route enough m s =
      (run, refl, record { ids_ended = sym (append-nil _); rounds = omega arith })
  run_loop-Walked [] (suc left) current run t route enough m s = (
    run,
    if-true (str_eq current end_node) _ _ (rw route (str_eq_refl end_node)),
    record { ids_ended = sym (append-nil _); rounds = omega arith },
  )
  run_loop-Walked (node_id ∷ rest) zero current run t route enough m s = absurd (omega arith)
  run_loop-Walked (node_id ∷ rest) (suc left) current run t
        (same, not_end, plain, (fn, h, good), (next, resolves, route)) enough m s =
      let node = run_node-Succeeds fn node_id run h good m in
      let followed = (follow out graph ref node_id node.0).1 in
      let later =
        run_loop-Walked rest left next followed t route (omega arith)
          (kept_policy node_id node.0
            ∙ ap (λ (p : ExecutionPolicy Json World). is_replay p.mode) node.3
            ∙ m)
          (kept_stop node_id node.0 ∙ node.2 ∙ s) in
      (
        later.0,
        ap (λ c. run_loop out graph ref (suc left) c run) same
            ∙ run_loop-step left node_id run node.0 not_end (must_stop-false run.state s t) plain
                node.1
            ∙ ap (λ n. run_loop out graph ref left n followed) (resolves node.0.state)
            ∙ later.1,
        Walked-cons node_id rest run followed later.0 (Walked-node node_id run node.0 node.1)
            later.2,
      )

module _ {Json World : Type 0} (out : Outside Json World) (graph : Graph Json World) where
  -- If the edges lead from the entry through a chain of nodes to END, with at most max_iterations
  -- nodes that all return and leave should_stop as it is, then a run outside a replay, from a state
  -- that need not stop and with no termination test, returns. The nodes of the chain have ended, in
  -- order and each once, and there was a round for each.
  pub astream-Route :
      (policy : ExecutionPolicy Json World) (state : AgentState Json) (env : Env Json World)
      (ids : List String)
      → graph.termination ≡ none
      → Route graph graph.entry ids
      → length ids ≤ graph.max_iterations
      → is_replay policy.mode ≡ false
      → state.should_stop ≡ false
      → (done : Run Json World) × (astream out graph policy state env ≡ ok done)
        × (map (λ p. p.0) (ended done.events) ≡ ids)
        × (done.iterations ≡ length ids)
  unfolding astream start_run ended
  astream-Route policy state env ids t route enough m s =
      let start = start_run out graph policy state env in
      let walked =
        run_loop-Walked out graph start.0 ids graph.max_iterations graph.entry start.1 t route
          enough m s in
      (
        emit (graph_end graph.graph_id walked.0.iterations) walked.0,
        rw walked.1 refl,
        ap (map (λ p. p.0))
              (ended_quiet (graph_end graph.graph_id walked.0.iterations) walked.0.events refl)
            ∙ walked.2.ids_ended,
        omega (arith, walked.2.rounds),
      )
