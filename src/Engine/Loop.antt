-- ===== src/Engine/Loop.antt =====
-- graph/runtime/core/graph.py: the loop of astream, and invoke.
use trip_graph_agent_runtime.Prelude.{
  ℕ, zero, suc, String, Bool, true, false, Option, none, some, [], ◌∷◌, str_eq, if◌then◌else◌,
}
use trip_graph_agent_runtime.Prelude.Names.{find}
use trip_graph_agent_runtime.Errors.{Result, ok, ◌>>=◌}
use trip_graph_agent_runtime.AgentState.{AgentState, Outside, log_graph}
use trip_graph_agent_runtime.ExecutionGraph.{ExecutionGraphModel, Graphs, allocate}
use trip_graph_agent_runtime.Engine.{
  NodeFn, Graph, Env, ParallelFanOut, ConditionalEdge, kind_value, end_node, fan_out_for,
  resolve_next, matched_edge,
}
use trip_graph_agent_runtime.Engine.Policy.{ExecutionPolicy, mode_value}
use trip_graph_agent_runtime.Engine.Run.{
  graph_start, early_stop, followed, graph_end, Run, emit, add_edge_at, run_node,
}
use trip_graph_agent_runtime.Engine.Fanout.{run_fanout}

-- next or END
unfoldable pub or_end : String → String
or_end next = if str_eq next "" then end_node else next

module _ {Json World : Type 0} where
  abbrev pub label_of : Option (ConditionalEdge Json World) → Option String
  label_of none = none
  label_of (some edge) = edge.label

  abbrev pub kind_of : Option (ConditionalEdge Json World) → Option String
  kind_of none = none
  kind_of (some edge) = some (kind_value edge.kind)

module _ {Json World : Type 0} (out : Outside Json World) (graph : Graph Json World) (ref : ℕ) where
  unfoldable pub source_if :
      Option (NodeFn Json World) → String → Run Json World → Result (Run Json World)
  unfolding run_node
  source_if none current run = ok run
  source_if (some fn) current run = run_node out graph ref current run

  -- The source of a fan-out runs as a node, if the graph has it.
  unfoldable pub run_source : String → Run Json World → Result (Run Json World)
  unfolding source_if
  run_source current run = source_if (find current graph.nodes) current run

  -- next_node of the join, or what follows the join node, or END
  unfoldable pub after_join : String → AgentState Json → String
  unfolding resolve_next
  after_join join_node state =
      let resolved = or_end (resolve_next join_node state graph) in
      elim (find join_node graph.join_specs) [
        | none ↦ resolved
        | some spec ↦ if str_eq spec.next_node "" then resolved else spec.next_node
      ]

  unfoldable pub next_round : Run Json World → Run Json World
  next_round run = record run { iterations = suc run.iterations }

  unfoldable pub follow : String → Run Json World → String × Run Json World
  unfolding resolve_next matched_edge add_edge_at kind_value next_round
  follow current run =
      let target = resolve_next current run.state graph in
      let edge = matched_edge current run.state target graph in
      let label = label_of edge in
      let kind = kind_of edge in
      (
        target,
        next_round (
            emit (followed current target label kind)
              (add_edge_at ref current target label kind run)),
      )

  -- One round of the loop, at a node with a fan-out or without.
  unfoldable pub one_round :
      Option ParallelFanOut → String → Run Json World → Result (String × Run Json World)
  unfolding run_source run_fanout after_join next_round run_node follow
  one_round (some fan_out) current run = run_source current run >>= λ at_source.
      run_fanout out graph ref fan_out at_source >>= λ after.
      ok (after_join fan_out.join_node after.state, next_round after)
  one_round none current run =
      run_node out graph ref current run >>= λ after. ok (follow current after)

  unfoldable pub must_stop : AgentState Json → Result Bool
  must_stop state =
      if state.should_stop
      then ok true
      else elim graph.termination [ none ↦ ok false | some termination ↦ termination state ]

  unfoldable pub stop_early : String → Run Json World → Run Json World
  unfolding log_graph
  stop_early current run = emit (early_stop current) (record run {
    state = log_graph current "early_stop" (("reason", out.text "termination") ∷ []) run.state;
  })

  -- The loop of astream, with the number of rounds that max_iterations still allows.
  unfoldable pub run_loop : ℕ → String → Run Json World → Result (Run Json World)
  unfolding must_stop stop_early one_round fan_out_for
  run_loop zero current run = ok run
  run_loop (suc left) current run =
      let go =
        one_round (fan_out_for current graph) current run >>= λ (after : String × Run Json World).
        run_loop left after.0 after.1 in
      if str_eq current end_node
      then ok run
      else (must_stop run.state >>= λ stop. if stop then ok (stop_early current run) else go)

module _ {Json World : Type 0} (out : Outside Json World) (graph : Graph Json World) where
  unfoldable pub new_execution_graph :
      ExecutionPolicy Json World → AgentState Json → ExecutionGraphModel Json
  unfolding mode_value
  new_execution_graph policy state = record {
    graph_id = graph.graph_id;
    session_id = state.session_id;
    seed = policy.seed;
    mode = mode_value policy.mode;
    node_records = [];
    edge_records = [];
  }

  -- The graph of the run: the state's, or a new one.
  unfoldable pub run_graph :
      ExecutionPolicy Json World → AgentState Json → Graphs Json → ℕ × Graphs Json
  unfolding new_execution_graph allocate
  run_graph policy state graphs = elim state.execution_graph [
    | none ↦ allocate (new_execution_graph policy state) graphs
    | some ref ↦ (ref, graphs)
  ]

  abbrev pub seed_world : Option ℕ → World → World
  seed_world none world = world
  seed_world (some seed) world = out.seed_random seed world

  unfoldable pub start_run :
      ExecutionPolicy Json World → AgentState Json → Env Json World → ℕ × Run Json World
  unfolding run_graph mode_value
  start_run policy state env =
      let (ref, graphs) = run_graph policy state env.graphs in
      (
        ref,
        record {
          state = record state { execution_seed = policy.seed; execution_graph = some ref };
          policy = policy;
          env = record { world = seed_world policy.seed env.world; graphs = graphs };
          sequence = 0;
          edge_sequence = 0;
          iterations = 0;
          events = graph_start graph.graph_id graph.entry (mode_value policy.mode) ∷ [];
        },
      )

  -- astream: the run when the stream has ended
  unfoldable pub astream :
      ExecutionPolicy Json World → AgentState Json → Env Json World → Result (Run Json World)
  unfolding start_run run_loop
  astream policy state env =
      let (ref, run) = start_run policy state env in
      run_loop out graph ref graph.max_iterations graph.entry run >>= λ done.
      ok (emit (graph_end graph.graph_id done.iterations) done)

  unfoldable pub invoke :
      ExecutionPolicy Json World
      → AgentState Json
      → Env Json World
      → Result (AgentState Json × Env Json World)
  unfolding astream
  invoke policy state env = astream policy state env >>= λ done. ok (done.state, done.env)
