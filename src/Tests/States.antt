-- ===== src/Tests/States.antt =====
-- States, versions and merges on small inputs. JSON values are texts, and the world counts the ids.
use trip_graph_agent_runtime.Prelude.{
  ℕ, suc, ◌≡◌, refl, String, false, Option, none, some, List, [], ◌∷◌, map, str_eq,
}
use Prim.Native.Char.{nul}
use trip_graph_agent_runtime.Prelude.Decimal.{decimal, numbered}
use trip_graph_agent_runtime.Prelude.Names.{find, discard, has_name}
use trip_graph_agent_runtime.Errors.{ok}
use trip_graph_agent_runtime.AgentState.{
  AgentState, StateVersion, Outside, append_message, snapshot_of, summary_of,
}
use trip_graph_agent_runtime.ExecutionGraph.{ExecutionGraphModel, NodeExecutionRecord}
use trip_graph_agent_runtime.Versions.{get_version, ensure_store, commit_as, rollback, lineage}
use trip_graph_agent_runtime.Versions.History.{IsHistory, version_ids, known}
use trip_graph_agent_runtime.Versions.Rollback.{rollback-commit_as}
use trip_graph_agent_runtime.Versions.Steps.{
  VersionStep, here, next, commits, edits, Reaches-IsHistory,
}
use trip_graph_agent_runtime.Versions.Lineage.{Descends, lineage-Descends}
use trip_graph_agent_runtime.Schema.{truthy}
use trip_graph_agent_runtime.AgentState.Delta.{snapshot_diff, changed, value_at, entries, or_null}
use trip_graph_agent_runtime.Versions.{add_version, new_version, diff_from, parent_of}
use trip_graph_agent_runtime.Prelude.{select, ◌||◌, All}
use trip_graph_agent_runtime.Prelude.Sort.{sort, insert_sorted, Ordered}
use mathlib.Core.List.{reverse}
use trip_graph_agent_runtime.ExecutionGraph.{Graphs, GraphEdgeRecord}
use trip_graph_agent_runtime.Merge.{
  merge_stores, merge_states, deep_merging, merging_lists, last_wins, fail_on_conflict,
  merge_graphs, new_nodes, has_pair, pair_of,
}
use trip_graph_agent_runtime.Merge.Stores.{merge_stores-IsHistory}
use trip_graph_agent_runtime.Merge.Keeps.{Kept, merge_states-Kept}
use trip_graph_agent_runtime.Merge.Strategies.{last_of, merge_states-strategies}
use trip_graph_agent_runtime.Merge.Records.{merge_graphs-records}

-- A digest that tells the version ids apart.
abbrev pub version_text : Option String → String
version_text none = ""
version_text (some text) = String.◌∷◌ nul text

abbrev first_text : List String → String
first_text [] = ""
first_text (text ∷ rest) = text

abbrev pub outside : Outside String ℕ
outside = record {
  new_id = λ count. (numbered "v" count, suc count);
  seed_random = λ seed count. count;
  next_turn = λ count running. 0;
  digest = λ snap. version_text snap.state_version_id;
  same = str_eq;
  text_of = λ text. text;
  summary = λ text. "summary";
  null = "null";
  flag = λ b. "flag";
  number = decimal;
  text = λ text. text;
  array = first_text;
  object = λ entries. "object";
  trace_entry = λ entry. entry.event;
}

abbrev pub blank : AgentState String
blank = record {
  messages = [];
  plan = none;
  current_step = none;
  observations = [];
  execution_trace = [];
  graph_trace = [];
  memory = [];
  short_term_memory = [];
  long_term_memory = [];
  episodic_memory = [];
  execution_graph = none;
  version_store = none;
  state_version_id = none;
  branch_id = "main";
  parent_graph_id = none;
  nested_graph_id = none;
  session_id = "default";
  query = "rain in Rome";
  plan_state = none;
  final_result = none;
  execution_critique = none;
  replan_history = [];
  should_stop = false;
  replan_attempts = 0;
  execution_seed = none;
}

-- One commit, then a message, then a second commit.
abbrev pub committed : AgentState String
committed = commit_as outside "v0" "weather" blank

abbrev pub twice : AgentState String
twice = commit_as outside "v1" "map" (append_message "hello" committed)

-- Another state that committed twice: the merge has both histories.
abbrev other : AgentState String
other = commit_as outside "v2" "budget" committed

-- The second version lists the keys that changed since the first.
twice-diff :
    map (λ (v : StateVersion String). v.diff_from_parent) (ensure_store twice).versions
    ≡ [] ∷ ("messages" ∷ "state_version_id" ∷ []) ∷ []
unfolding ensure_store commit_as new_version add_version diff_from parent_of get_version
    append_message snapshot_of summary_of snapshot_diff changed value_at entries or_null find
    discard decimal numbered select truthy
twice-diff = refl

-- The second commit, and then a branch: the first version is still there.
abbrev branched : AgentState String
branched = record twice {
  version_store = some (record (ensure_store twice) { branch_id = "side" });
}

rollback-commit_as_example :
    (r : AgentState String) × (rollback branched "v0" ≡ ok r)
    × (snapshot_of outside r
        ≡ record (snapshot_of outside blank) { state_version_id = some "v0"; plan_state = none })
    × ((ensure_store r).current_version_id ≡ some "v0")
    × ((ensure_store r).branch_id ≡ "main")
    × ((ensure_store r).versions ≡ (ensure_store twice).versions)
unfolding append_message ensure_store commit_as summary_of add_version new_version get_version
rollback-commit_as_example =
    rollback-commit_as outside "v0" "weather" blank branched
      (record (ensure_store twice) { branch_id = "side" }) refl refl refl

first_commit : VersionStep outside blank committed
unfolding ensure_store has_name truthy
first_commit = commits "v0" "weather" refl refl refl

message-kept : VersionStep outside committed (append_message "hello" committed)
unfolding append_message ensure_store
message-kept = edits refl

second_commit : VersionStep outside (append_message "hello" committed) twice
unfolding append_message ensure_store has_name truthy commit_as add_version new_version
second_commit = commits "v1" "map" refl refl refl

other_commit : VersionStep outside committed other
unfolding ensure_store has_name truthy commit_as add_version new_version
other_commit = commits "v2" "budget" refl refl refl

blank-IsHistory : IsHistory (ensure_store blank)
unfolding ensure_store known
blank-IsHistory = record { linked = tt; current_known = refl }

Reaches-IsHistory_example : IsHistory (ensure_store twice)
Reaches-IsHistory_example =
    Reaches-IsHistory outside blank blank-IsHistory
      (next (next (next here first_commit) message-kept) second_commit)

lineage-Descends_example :
    (chain : List (StateVersion String)) × (lineage (ensure_store twice) (some "v1")
      ≡ some (reverse chain))
    × Descends (some "v1") chain
lineage-Descends_example =
    lineage-Descends (ensure_store twice) "v1" Reaches-IsHistory_example (unfold truthy in refl)
      (unfold ensure_store has_name commit_as add_version new_version append_message in refl)

merge_stores-IsHistory_example :
    IsHistory (merge_stores (ensure_store twice) (ensure_store other))
    × ((name : String)
        → has_name name
            (version_ids (merge_stores (ensure_store twice) (ensure_store other)).versions)
          ≡ (has_name name (version_ids (ensure_store twice).versions)
              || has_name name (version_ids (ensure_store other).versions)))
merge_stores-IsHistory_example =
    merge_stores-IsHistory (ensure_store twice) (ensure_store other) Reaches-IsHistory_example
      (Reaches-IsHistory outside blank blank-IsHistory (next (next here first_commit) other_commit))

merge_states-Kept_example :
    (m : AgentState String) × (graphs : Graphs String) × (merge_states outside deep_merging blank
        (twice ∷ other ∷ [])
        []
      ≡ ok (m, graphs))
    × Kept outside blank m
    × All (λ branch. Kept outside branch m) (twice ∷ other ∷ [])
merge_states-Kept_example = merge_states-Kept outside blank (twice ∷ other ∷ []) []

merge_states-strategies_example :
    (merge_states outside last_wins blank (twice ∷ other ∷ []) []
      ≡ ok (last_of outside blank (twice ∷ other ∷ []), []))
    × (merge_states outside merging_lists blank (twice ∷ other ∷ []) []
        ≡ merge_states outside deep_merging blank (twice ∷ other ∷ []) [])
    × ((merged : AgentState String × Graphs String)
        → merge_states outside fail_on_conflict blank (twice ∷ other ∷ []) [] ≡ ok merged
        → merge_states outside deep_merging blank (twice ∷ other ∷ []) [] ≡ ok merged)
merge_states-strategies_example = merge_states-strategies outside blank (twice ∷ other ∷ []) []

abbrev weather_record : NodeExecutionRecord String
weather_record = record {
  node_id = "weather";
  sequence = 1;
  input_state_hash = "a";
  output_state_hash = "b";
  state_delta = [];
  input_state_snapshot = none;
  output_state_snapshot = none;
  replayed = false;
  status = "completed";
}

abbrev recorded_graph : List (NodeExecutionRecord String) → ExecutionGraphModel String
recorded_graph records = record {
  graph_id = "g";
  session_id = "s";
  seed = none;
  mode = "normal";
  node_records = records;
  edge_records = [];
}

abbrev left_graph : ExecutionGraphModel String
left_graph = recorded_graph (weather_record ∷ [])

abbrev right_graph : ExecutionGraphModel String
right_graph =
    recorded_graph (record weather_record { node_id = "start"; sequence = 0 } ∷ weather_record ∷ [])

-- The earlier record comes first, and the shared one stands once.
merge_graphs-ids :
    map
      (λ (r : NodeExecutionRecord String). r.node_id)
      (merge_graphs left_graph right_graph).node_records
    ≡ "start" ∷ "weather" ∷ []
unfolding merge_graphs new_nodes has_pair sort insert_sorted
merge_graphs-ids = refl

merge_graphs-records_example :
    (has_pair "start" 0 (map pair_of (merge_graphs left_graph right_graph).node_records) ≡ (
      has_pair "start" 0 (map pair_of left_graph.node_records)
      || has_pair "start" 0 (map pair_of right_graph.node_records)))
    × Ordered
        (λ (r : NodeExecutionRecord String). r.sequence)
        (merge_graphs left_graph right_graph).node_records
    × Ordered
        (λ (e : GraphEdgeRecord). e.sequence)
        (merge_graphs left_graph right_graph).edge_records
merge_graphs-records_example = merge_graphs-records left_graph right_graph "start" 0
