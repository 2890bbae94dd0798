-- ===== src/Merge.antt =====
-- graph/runtime/state_merge.py: the states of parallel branches become one.
pub mod Dedupe
pub mod Stores
pub mod Records
pub mod Keeps
pub mod Strategies
pub mod PlanStates
use trip_graph_agent_runtime.Prelude.{
  ℕ, String, Bool, true, false, not, ◌&&◌, ◌||◌, Option, none, some, List, [], ◌∷◌, ◌++◌, map,
  select, ltb, ◌==◌, is_empty, str_eq, if◌then◌else◌,
}
use trip_graph_agent_runtime.Prelude.Sort.{sort, by_key}
use trip_graph_agent_runtime.Prelude.Names.{Names, has_name, update}
use trip_graph_agent_runtime.Errors.{Result, ok, raise, merge_conflict, ◌>>=◌}
use trip_graph_agent_runtime.Schema.{truthy}
use trip_graph_agent_runtime.AgentState.{AgentState, StateVersion, StateVersionStore, Outside}
use trip_graph_agent_runtime.ExecutionGraph.{
  GraphEdgeRecord, NodeExecutionRecord, ExecutionGraphModel, Graphs, graph_at, allocate,
}

-- class MergeStrategy(StrEnum)
pub data MergeStrategy : Type 0 where
  last_wins deep_merging merging_lists fail_on_conflict : MergeStrategy

module _ {A : Type 0} (key : A → String) where
  -- The loop of _dedupe_list, which has met the texts of `seen`.
  unfoldable pub dedupe_from : List String → List A → List A
  unfolding has_name
  dedupe_from seen [] = []
  dedupe_from seen (x ∷ xs) =
      let skip = dedupe_from seen xs in
      let keep = x ∷ dedupe_from (key x ∷ seen) xs in if has_name (key x) seen then skip else keep

  unfoldable pub dedupe_list : List A → List A
  unfolding dedupe_from
  dedupe_list items = dedupe_from [] items

-- (node_id, sequence) in seen_nodes
unfoldable pub has_pair : String → ℕ → List (String × ℕ) → Bool
has_pair name n [] = false
has_pair name n ((other, m) ∷ rest) = str_eq name other && n == m || has_pair name n rest

-- (source, target, sequence) in seen_edges
unfoldable pub has_edge : GraphEdgeRecord → List GraphEdgeRecord → Bool
has_edge edge [] = false
has_edge edge (other ∷ rest) =
    str_eq edge.source other.source
      && str_eq edge.target other.target
      && edge.sequence == other.sequence
    || has_edge edge rest

-- The right value, unless it is None.
abbrev pub right_or {ℓ} : {A : Type ℓ} → Option A → Option A → Option A
right_or left none = left
right_or left (some x) = some x

abbrev pub max : ℕ → ℕ → ℕ
max m n = if ltb m n then n else m

-- Both are there, and differ.
unfoldable pub differ {ℓ} : {A : Type ℓ} → (A → A → Bool) → Option A → Option A → Bool
differ eq none right = false
differ eq (some l) none = false
differ eq (some l) (some r) = not (eq l r)

abbrev pub bool_eq : Bool → Bool → Bool
bool_eq true b = b
bool_eq false b = not b

abbrev pub name_if : Bool → String → List String
name_if true name = name ∷ []
name_if false name = []

module _ {Json : Type 0} where
  abbrev pub pair_of : NodeExecutionRecord Json → String × ℕ
  pair_of entry = (entry.node_id, entry.sequence)

  -- The records of the right graph that are new, and new among themselves.
  unfoldable pub new_nodes :
      List (String × ℕ) → List (NodeExecutionRecord Json) → List (NodeExecutionRecord Json)
  unfolding has_pair
  new_nodes seen [] = []
  new_nodes seen (entry ∷ rest) =
      let skip = new_nodes seen rest in
      let keep = entry ∷ new_nodes (pair_of entry ∷ seen) rest in
      if has_pair entry.node_id entry.sequence seen then skip else keep

  unfoldable pub merge_graphs :
      ExecutionGraphModel Json → ExecutionGraphModel Json → ExecutionGraphModel Json
  unfolding new_nodes has_edge
  merge_graphs left right = record left {
    node_records =
        sort (by_key (λ (r : NodeExecutionRecord Json). r.sequence))
          (left.node_records ++ new_nodes (map pair_of left.node_records) right.node_records);
    edge_records = sort (by_key (λ (e : GraphEdgeRecord). e.sequence)) (
        left.edge_records
        ++ select (λ edge. not (has_edge edge left.edge_records)) right.edge_records);
  }

  unfoldable pub merge_found :
      ℕ
      → Option (ExecutionGraphModel Json)
      → Option (ExecutionGraphModel Json)
      → Graphs Json
      → Option ℕ × Graphs Json
  merge_found ref none right graphs = (some ref, graphs)
  merge_found ref (some left) none graphs = (some ref, graphs)
  merge_found ref (some left) (some right) graphs =
      let (new, graphs') = allocate (merge_graphs left right) graphs in (some new, graphs')

  -- _merge_execution_graphs: one of the two objects if the other is missing, else a new one
  unfoldable pub merge_execution_graphs : Option ℕ → Option ℕ → Graphs Json → Option ℕ × Graphs Json
  unfolding merge_found
  merge_execution_graphs none right graphs = (right, graphs)
  merge_execution_graphs (some left) none graphs = (some left, graphs)
  merge_execution_graphs (some left) (some right) graphs =
      merge_found left (graph_at left graphs) (graph_at right graphs) graphs

  -- The versions of the right store whose id is new.
  abbrev pub new_versions : List String → List (StateVersion Json) → List (StateVersion Json)
  new_versions seen versions = dedupe_from (λ (v : StateVersion Json). v.version_id) seen versions

  unfoldable pub merge_stores :
      StateVersionStore Json → StateVersionStore Json → StateVersionStore Json
  unfolding dedupe_from
  merge_stores left right = record {
    current_version_id =
        if truthy right.current_version_id
        then right.current_version_id
        else left.current_version_id;
    branch_id = if truthy (some right.branch_id) then right.branch_id else left.branch_id;
    versions = left.versions ++ new_versions (map (λ v. v.version_id) left.versions) right.versions;
    branches = update left.branches right.branches;
  }

  unfoldable pub merge_version_stores :
      Option (StateVersionStore Json)
      → Option (StateVersionStore Json)
      → Option (StateVersionStore Json)
  unfolding merge_stores
  merge_version_stores none right = right
  merge_version_stores (some left) none = some left
  merge_version_stores (some left) (some right) = some (merge_stores left right)

  module _ {World : Type 0} (out : Outside Json World) where
    open out use {text_of, trace_entry, same}

    unfoldable pub deep_merge :
        AgentState Json → AgentState Json → Graphs Json → AgentState Json × Graphs Json
    unfolding dedupe_list merge_version_stores
    deep_merge left right graphs =
        let (graph, graphs') =
          merge_execution_graphs left.execution_graph right.execution_graph graphs in
        (
          record left {
            observations = update left.observations right.observations;
            memory = update left.memory right.memory;
            messages = dedupe_list text_of (left.messages ++ right.messages);
            execution_trace = dedupe_list text_of (left.execution_trace ++ right.execution_trace);
            graph_trace =
                dedupe_list (λ e. text_of (trace_entry e)) (left.graph_trace ++ right.graph_trace);
            replan_history = dedupe_list text_of (left.replan_history ++ right.replan_history);
            short_term_memory =
                dedupe_list text_of (left.short_term_memory ++ right.short_term_memory);
            long_term_memory =
                dedupe_list text_of (left.long_term_memory ++ right.long_term_memory);
            episodic_memory = dedupe_list text_of (left.episodic_memory ++ right.episodic_memory);
            plan = right_or left.plan right.plan;
            current_step = right_or left.current_step right.current_step;
            final_result = right_or left.final_result right.final_result;
            execution_critique = right_or left.execution_critique right.execution_critique;
            plan_state = right_or left.plan_state right.plan_state;
            should_stop = left.should_stop || right.should_stop;
            replan_attempts = max left.replan_attempts right.replan_attempts;
            execution_graph = graph;
            version_store = merge_version_stores left.version_store right.version_store;
            state_version_id =
                if truthy right.state_version_id
                then right.state_version_id
                else left.state_version_id;
          },
          graphs',
        )

    -- _merge_lists: three of the lists of the merged state are computed again
    unfoldable pub merge_lists :
        AgentState Json → AgentState Json → Graphs Json → AgentState Json × Graphs Json
    unfolding deep_merge
    merge_lists left right graphs =
        let (merged, graphs') = deep_merge left right graphs in
        (
          record merged {
            messages = dedupe_list text_of (left.messages ++ right.messages);
            execution_trace = dedupe_list text_of (left.execution_trace ++ right.execution_trace);
            graph_trace =
                dedupe_list (λ e. text_of (trace_entry e)) (left.graph_trace ++ right.graph_trace);
          },
          graphs',
        )

    unfoldable pub detect_conflicts : AgentState Json → AgentState Json → List String
    unfolding differ
    detect_conflicts left right =
        name_if (differ same left.plan right.plan) "plan"
        ++ name_if (differ ◌==◌ left.current_step right.current_step) "current_step"
        ++ name_if (differ str_eq left.final_result right.final_result) "final_result"
        ++ name_if (differ same left.execution_critique right.execution_critique)
            "execution_critique"
        ++ name_if (not (bool_eq left.should_stop right.should_stop)) "should_stop"
        ++ name_if (not (str_eq left.query right.query)) "query"

    unfoldable pub merge_pair :
        MergeStrategy
        → AgentState Json
        → AgentState Json
        → Graphs Json
        → Result (AgentState Json × Graphs Json)
    unfolding detect_conflicts merge_lists
    merge_pair last_wins left right graphs = ok (right, graphs)
    merge_pair deep_merging left right graphs = ok (deep_merge left right graphs)
    merge_pair merging_lists left right graphs = ok (merge_lists left right graphs)
    merge_pair fail_on_conflict left right graphs =
        if is_empty (detect_conflicts left right)
        then ok (deep_merge left right graphs)
        else raise (merge_conflict (detect_conflicts left right))

    -- merge_states: the branches are merged into the base one after the other
    unfoldable pub merge_states :
        MergeStrategy
        → AgentState Json
        → List (AgentState Json)
        → Graphs Json
        → Result (AgentState Json × Graphs Json)
    unfolding merge_pair
    merge_states strategy base [] graphs = ok (base, graphs)
    merge_states strategy base (branch ∷ rest) graphs =
        merge_pair strategy base branch graphs >>= λ (merged : AgentState Json × Graphs Json).
        merge_states strategy merged.0 rest merged.1
