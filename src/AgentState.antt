-- ===== src/AgentState.antt =====
-- graph/runtime/agent_state.py, state_hash.py and schemas/state_versioning.py: the state that the
-- nodes of a graph pass on, its snapshots, and its versions. Pydantic models stand for what
-- `model_dump` gives of them, which `model_validate` reads back. `execution_graph` is a reference,
-- since a run and its states share that object.

pub mod Delta
pub mod Snapshots
use trip_graph_agent_runtime.Prelude.{
  ℕ, String, Bool, true, false, ◌&&◌, Option, none, some, List, [], ◌∷◌, ◌++◌, length, str_eq,
  if◌then◌else◌,
}
use trip_graph_agent_runtime.Prelude.Names.{Names, discard}

-- class GraphTraceEntry(BaseModel)
pub record GraphTraceEntry (Json : Type 0) : Type 0 where
  pub node_id : String
  pub event : String
  pub note : Names Json
  pub step_index : ℕ

-- What state_to_serializable writes: a dict that always has these keys.
pub record Snapshot (Json : Type 0) : Type 0 where
  pub messages : List Json
  pub plan : Option Json
  pub current_step : Option ℕ
  pub observations : Names Json
  pub execution_trace : List Json
  pub graph_trace : List (GraphTraceEntry Json)
  pub short_term_memory : List Json
  pub long_term_memory : List Json
  pub episodic_memory : List Json
  pub session_id : String
  pub query : String
  pub final_result : Option String
  pub execution_critique : Option Json
  pub replan_history : List Json
  pub should_stop : Bool
  pub replan_attempts : ℕ
  pub execution_seed : Option ℕ
  pub state_version_id : Option String
  pub branch_id : String
  pub memory : Names Json
  pub plan_state : Option Json

-- class StateVersion(BaseModel), without the time of creation. Of the changes since the parent the
-- keys are kept, since the values stand in the two snapshots.
pub record StateVersion (Json : Type 0) : Type 0 where
  pub version_id : String
  pub parent_version_id : Option String
  pub branch_id : String
  pub node_id : String
  pub state_hash : String
  pub snapshot : Snapshot Json
  pub diff_from_parent : List String

-- class StateVersionStore(BaseModel)
pub record StateVersionStore (Json : Type 0) : Type 0 where
  pub current_version_id : Option String
  pub branch_id : String
  pub versions : List (StateVersion Json)
  pub branches : Names String

-- class AgentState(BaseModel)
pub record AgentState (Json : Type 0) : Type 0 where
  pub messages : List Json
  pub plan : Option Json
  pub current_step : Option ℕ
  pub observations : Names Json
  pub execution_trace : List Json
  pub graph_trace : List (GraphTraceEntry Json)
  pub memory : Names Json
  pub short_term_memory : List Json
  pub long_term_memory : List Json
  pub episodic_memory : List Json
  pub execution_graph : Option ℕ
  pub version_store : Option (StateVersionStore Json)
  pub state_version_id : Option String
  pub branch_id : String
  pub parent_graph_id : Option String
  pub nested_graph_id : Option String
  pub session_id : String
  pub query : String
  pub plan_state : Option Json
  pub final_result : Option String
  pub execution_critique : Option Json
  pub replan_history : List Json
  pub should_stop : Bool
  pub replan_attempts : ℕ
  pub execution_seed : Option ℕ

-- Code outside this repository, and what this model does not read: `uuid4` (in a world that makes
-- the ids) and `random.seed`, `sha256` of the sorted JSON text, equality and `str` of a value, how a
-- field is written as JSON, and PlanState.summary, which forgets most of a plan's state. `next_turn` is
-- the event loop of asyncio: 0 lets the next branch of a fan-out start, and suc k lets the branch at
-- index k of those that have started end; when none is left to start, k itself is the index.
pub record Outside (Json World : Type 0) : Type 0 where
  pub new_id : World → String × World
  pub seed_random : ℕ → World → World
  pub next_turn : World → ℕ → ℕ
  pub digest : Snapshot Json → String
  pub same : Json → Json → Bool
  pub text_of : Json → String
  pub summary : Json → Json
  pub null : Json
  pub flag : Bool → Json
  pub number : ℕ → Json
  pub text : String → Json
  pub array : List Json → Json
  pub object : Names Json → Json
  pub trace_entry : GraphTraceEntry Json → Json

module _ {Json : Type 0} where
  unfoldable pub append_message : Json → AgentState Json → AgentState Json
  append_message message state = record state { messages = state.messages ++ (message ∷ []) }

  unfoldable pub log_graph : String → String → Names Json → AgentState Json → AgentState Json
  log_graph node_id event note state = record state {
    graph_trace =
        state.graph_trace
        ++ (record {
          node_id = node_id;
          event = event;
          note = note;
          step_index = length state.graph_trace;
        }
            ∷ []);
  }

  module _ {World : Type 0} (out : Outside Json World) where
    open out use {summary, digest}

    unfoldable pub summary_of : Option Json → Option Json
    summary_of none = none
    summary_of (some plan_state) = some (summary plan_state)

    -- state_to_serializable, and AgentState.snapshot
    unfoldable pub snapshot_of : AgentState Json → Snapshot Json
    unfolding summary_of
    snapshot_of state = record {
      messages = state.messages;
      plan = state.plan;
      current_step = state.current_step;
      observations = state.observations;
      execution_trace = state.execution_trace;
      graph_trace = state.graph_trace;
      short_term_memory = state.short_term_memory;
      long_term_memory = state.long_term_memory;
      episodic_memory = state.episodic_memory;
      session_id = state.session_id;
      query = state.query;
      final_result = state.final_result;
      execution_critique = state.execution_critique;
      replan_history = state.replan_history;
      should_stop = state.should_stop;
      replan_attempts = state.replan_attempts;
      execution_seed = state.execution_seed;
      state_version_id = state.state_version_id;
      branch_id = state.branch_id;
      memory = discard "compiled_plan_graph" state.memory;
      plan_state = summary_of state.plan_state;
    }

    -- The traces are left out of the hash.
    unfoldable pub hash_state : AgentState Json → String
    unfolding snapshot_of
    hash_state state =
        digest (record (snapshot_of state) { graph_trace = []; execution_trace = [] })

  -- The keys of the snapshot are written over the state's, except plan_state. A snapshot has no
  -- version store. `graph` refers to the copy of the execution graph that model_dump makes.
  unfoldable pub apply_snapshot : Option ℕ → Snapshot Json → AgentState Json → AgentState Json
  apply_snapshot graph snap state = record state {
    messages = snap.messages;
    plan = snap.plan;
    current_step = snap.current_step;
    observations = snap.observations;
    execution_trace = snap.execution_trace;
    graph_trace = snap.graph_trace;
    short_term_memory = snap.short_term_memory;
    long_term_memory = snap.long_term_memory;
    episodic_memory = snap.episodic_memory;
    session_id = snap.session_id;
    query = snap.query;
    final_result = snap.final_result;
    execution_critique = snap.execution_critique;
    replan_history = snap.replan_history;
    should_stop = snap.should_stop;
    replan_attempts = snap.replan_attempts;
    execution_seed = snap.execution_seed;
    state_version_id = snap.state_version_id;
    branch_id = snap.branch_id;
    memory = snap.memory;
    execution_graph = graph;
  }

  -- api_snapshot: the snapshot with the version store, if there is one.
  unfoldable pub api_snapshot :
      {World : Type 0}
      → Outside Json World
      → AgentState Json
      → Snapshot Json × Option (StateVersionStore Json)
  unfolding snapshot_of
  api_snapshot out state = (snapshot_of out state, state.version_store)

  -- from_api_snapshot: fields that a snapshot does not give have their defaults.
  unfoldable pub from_api_snapshot :
      Snapshot Json × Option (StateVersionStore Json) → AgentState Json
  from_api_snapshot (snap, store) = record {
    messages = snap.messages;
    plan = snap.plan;
    current_step = snap.current_step;
    observations = snap.observations;
    execution_trace = snap.execution_trace;
    graph_trace = snap.graph_trace;
    memory = snap.memory;
    short_term_memory = snap.short_term_memory;
    long_term_memory = snap.long_term_memory;
    episodic_memory = snap.episodic_memory;
    execution_graph = none;
    version_store = store;
    state_version_id = snap.state_version_id;
    branch_id = snap.branch_id;
    parent_graph_id = none;
    nested_graph_id = none;
    session_id = snap.session_id;
    query = snap.query;
    plan_state = none;
    final_result = snap.final_result;
    execution_critique = snap.execution_critique;
    replan_history = snap.replan_history;
    should_stop = snap.should_stop;
    replan_attempts = snap.replan_attempts;
    execution_seed = snap.execution_seed;
  }
