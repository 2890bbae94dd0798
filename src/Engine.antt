-- ===== src/Engine.antt =====
-- graph/runtime/core/graph.py, edge.py, parallel.py: a graph of nodes, how it is built, and how the
-- next node is chosen. The run is in the modules below.
pub mod Policy
pub mod Node
pub mod Run
pub mod Fanout
pub mod Loop
pub mod Trace
pub mod Tasks
pub mod Turns
pub mod Branches
pub mod Bounds
pub mod Routing
pub mod Chain
pub mod Replays
use trip_graph_agent_runtime.Prelude.{
  ℕ, String, Bool, true, false, not, ◌&&◌, Option, none, some, List, [], ◌∷◌, ◌++◌, map, str_eq,
  is_empty, if◌then◌else◌,
}
use trip_graph_agent_runtime.Prelude.Names.{Names, find, assign}
use trip_graph_agent_runtime.Errors.{Result, ok}
use trip_graph_agent_runtime.AgentState.{AgentState, Outside, log_graph}
use trip_graph_agent_runtime.ExecutionGraph.{Graphs}
use trip_graph_agent_runtime.Merge.{MergeStrategy}

-- class EdgeKind(StrEnum)
pub data EdgeKind : Type 0 where
  direct conditional looping parallel join : EdgeKind

unfoldable pub kind_value : EdgeKind → String
kind_value direct = "direct"
kind_value conditional = "conditional"
kind_value looping = "loop"
kind_value parallel = "parallel"
kind_value join = "join"

abbrev pub is_parallel : EdgeKind → Bool
is_parallel parallel = true
is_parallel _ = false

abbrev pub end_node : String
end_node = "__end__"

-- class ParallelFanOut
pub record ParallelFanOut : Type 0 where
  pub source : String
  pub branches : List String
  pub join_node : String

-- class JoinSpec
pub record JoinSpec : Type 0 where
  pub join_id : String
  pub wait_for : List String
  pub next_node : String

unfoldable pub first_from : String → List ParallelFanOut → Option ParallelFanOut
first_from source [] = none
first_from source (fan_out ∷ rest) =
    if str_eq fan_out.source source then some fan_out else first_from source rest

-- What the nodes may change beside the state: the outside world, and the execution graphs.
pub record Env (Json World : Type 0) : Type 0 where
  pub world : World
  pub graphs : Graphs Json

module _ (Json World : Type 0) where
  -- NodeFn: the node may change the state and the rest, and may raise.
  abbrev pub NodeFn : Type 0
  NodeFn = AgentState Json → Env Json World → Result (AgentState Json × Env Json World)

  -- class ConditionalEdge
  pub record ConditionalEdge : Type 0 where
    pub target : String
    pub condition : Option (AgentState Json → Bool)
    pub kind : EdgeKind
    pub label : Option String

  -- class Graph. The termination test may raise.
  pub record Graph : Type 0 where
    pub graph_id : String
    pub entry : String
    pub termination : Option (AgentState Json → Result Bool)
    pub max_iterations : ℕ
    pub merge_strategy : MergeStrategy
    pub nodes : Names NodeFn
    pub edges : Names (List ConditionalEdge)
    pub fan_outs : List ParallelFanOut
    pub join_specs : Names JoinSpec

module _ {Json World : Type 0} where
  -- Graph.__init__, with the defaults of max_iterations and merge_strategy left to the caller
  unfoldable pub new_graph :
      String
      → String
      → Option (AgentState Json → Result Bool)
      → ℕ
      → MergeStrategy
      → Graph Json World
  new_graph graph_id entry termination max_iterations merge_strategy = record {
    graph_id = graph_id;
    entry = entry;
    termination = termination;
    max_iterations = max_iterations;
    merge_strategy = merge_strategy;
    nodes = [];
    edges = [];
    fan_outs = [];
    join_specs = [];
  }

  unfoldable pub add_node : String → NodeFn Json World → Graph Json World → Graph Json World
  add_node node_id fn graph = record graph { nodes = assign node_id fn graph.nodes }

  -- self._edges.get(source, [])
  unfoldable pub edges_of : String → Graph Json World → List (ConditionalEdge Json World)
  edges_of source graph = elim (find source graph.edges) [ none ↦ [] | some edges ↦ edges ]

  -- self._edges.setdefault(source, []).extend(edges)
  unfoldable pub add_conditional_edges :
      String → List (ConditionalEdge Json World) → Graph Json World → Graph Json World
  unfolding edges_of
  add_conditional_edges source edges graph = record graph {
    edges = assign source (edges_of source graph ++ edges) graph.edges;
  }

  unfoldable pub add_edge : String → String → EdgeKind → Graph Json World → Graph Json World
  unfolding add_conditional_edges
  add_edge source target kind graph =
      add_conditional_edges source
        (record { target = target; condition = none; kind = kind; label = some "default" } ∷ [])
        graph

  unfoldable pub add_loop_edge :
      String → String → (AgentState Json → Bool) → String → Graph Json World → Graph Json World
  unfolding add_conditional_edges
  add_loop_edge source target condition label graph =
      add_conditional_edges source
        (record { target = target; condition = some condition; kind = looping; label = some label }
          ∷ [])
        graph

  unfoldable pub add_branch_edges :
      String → String → List String → Graph Json World → Graph Json World
  unfolding add_edge
  add_branch_edges source join_node [] graph = graph
  add_branch_edges source join_node (branch ∷ rest) graph =
      add_branch_edges source join_node rest
        (add_edge branch join_node join (add_edge source branch parallel graph))

  unfoldable pub add_parallel_fanout :
      String → List String → String → Graph Json World → Graph Json World
  unfolding add_branch_edges
  add_parallel_fanout source branches join_node graph =
      add_branch_edges source join_node branches (record graph {
        fan_outs =
            graph.fan_outs
            ++ (record { source = source; branches = branches; join_node = join_node } ∷ []);
      })

  -- The node that add_join_node makes when it is given none.
  unfoldable pub join_pass : Outside Json World → String → List String → NodeFn Json World
  unfolding log_graph
  join_pass out join_id wait_for state env = ok (
    log_graph join_id "join_complete" (("waited_for", out.array (map out.text wait_for)) ∷ [])
        state,
    env,
  )

  unfoldable pub join_fn :
      Outside Json World → String → List String → Option (NodeFn Json World) → NodeFn Json World
  unfolding join_pass
  join_fn out join_id wait_for none = join_pass out join_id wait_for
  join_fn out join_id wait_for (some fn) = fn

  unfoldable pub add_join_node :
      Outside Json World
      → String
      → List String
      → String
      → Option (NodeFn Json World)
      → Graph Json World
      → Graph Json World
  unfolding add_edge add_node join_fn
  add_join_node out join_id wait_for next_node fn graph =
      let spec : JoinSpec = record {
        join_id = join_id;
        wait_for = wait_for;
        next_node = next_node;
      } in
      let joined =
        add_node join_id (join_fn out join_id wait_for fn)
          (record graph { join_specs = assign join_id spec graph.join_specs }) in
      if not (str_eq next_node "") && not (str_eq next_node end_node)
      then add_edge join_id next_node direct joined
      else joined

  unfoldable pub fan_out_for : String → Graph Json World → Option ParallelFanOut
  unfolding first_from
  fan_out_for source graph = first_from source graph.fan_outs

  -- ConditionalEdge.matches
  unfoldable pub matches : ConditionalEdge Json World → AgentState Json → Bool
  matches edge state = elim edge.condition [ none ↦ true | some condition ↦ condition state ]

  unfoldable pub first_match : List (ConditionalEdge Json World) → AgentState Json → String
  unfolding matches
  first_match [] state = end_node
  first_match (edge ∷ rest) state =
      if not (is_parallel edge.kind) && matches edge state
      then edge.target
      else first_match rest state

  -- _resolve_next, which never returns None
  unfoldable pub resolve_next : String → AgentState Json → Graph Json World → String
  unfolding first_match edges_of
  resolve_next source state graph = first_match (edges_of source graph) state

  unfoldable pub match_in :
      List (ConditionalEdge Json World)
      → AgentState Json
      → String
      → Option (ConditionalEdge Json World)
  unfolding matches
  match_in [] state target = none
  match_in (edge ∷ rest) state target =
      if str_eq edge.target target && matches edge state
      then some edge
      else match_in rest state target

  unfoldable pub matched_edge :
      String → AgentState Json → String → Graph Json World → Option (ConditionalEdge Json World)
  unfolding match_in edges_of
  matched_edge source state target graph = match_in (edges_of source graph) state target
