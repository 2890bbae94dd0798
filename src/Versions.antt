-- ===== src/Versions.antt =====
-- graph/runtime/state_versioning.py, and the methods of schemas/state_versioning.py: the versions of
-- a state, as a store of snapshots in which each version names its parent.
use trip_graph_agent_runtime.Prelude.{
  ℕ, zero, suc, String, Bool, Option, none, some, List, [], ◌∷◌, ◌++◌, length, str_eq,
  if◌then◌else◌,
}
pub mod Rollback
pub mod History
pub mod Steps
pub mod Lineage
use mathlib.Core.List.{reverse}
use mathlib.Core.Option
use trip_graph_agent_runtime.Prelude.Names.{assign}
use trip_graph_agent_runtime.Prelude.Decimal.{numbered}
use trip_graph_agent_runtime.Errors.{Result, ok, raise, value_error, missing_key, ◌>>=◌}
use trip_graph_agent_runtime.Schema.{truthy}
use trip_graph_agent_runtime.AgentState.{
  AgentState, StateVersion, StateVersionStore, Snapshot, Outside, snapshot_of, hash_state,
  apply_snapshot,
}
use trip_graph_agent_runtime.AgentState.Delta.{snapshot_diff}

-- from_version_id or store.current_version_id, where neither None nor an empty text counts
unfoldable pub base_version : Option String → Option String → Result String
base_version from current = elim (if truthy from then from else current) [
  | none ↦ raise (value_error "No version to fork from")
  | some id ↦ if truthy (some id) then ok id else raise (value_error "No version to fork from")
]

module _ {Json : Type 0} where
  unfoldable pub get_version : String → List (StateVersion Json) → Option (StateVersion Json)
  get_version id [] = none
  get_version id (version ∷ rest) =
      if str_eq version.version_id id then some version else get_version id rest

  -- One round of the loop of lineage: `up` goes on with the parent.
  unfoldable pub visit :
      Option (StateVersion Json)
      → (Option String → Option (List (StateVersion Json)))
      → Option (List (StateVersion Json))
  visit none up = some []
  visit (some version) up = elim (up version.parent_version_id) [
    | none ↦ none
    | some chain ↦ some (version ∷ chain)
  ]

  -- The loop of lineage, from a version to its oldest ancestor. `none` means that the fuel ran out.
  unfoldable pub walk :
      ℕ → List (StateVersion Json) → Option String → Option (List (StateVersion Json))
  unfolding visit
  walk zero versions cursor = none
  walk (suc fuel) versions none = some []
  walk (suc fuel) versions (some id) =
      if truthy (some id) then visit (get_version id versions) (walk fuel versions) else some []

  -- One round for each version, and one that finds no parent, are enough.
  unfoldable pub lineage :
      StateVersionStore Json → Option String → Option (List (StateVersion Json))
  unfolding walk
  lineage store version_id = Option.map reverse (
      walk (suc (length store.versions)) store.versions
        (if truthy version_id then version_id else store.current_version_id))

  abbrev pub empty_store : StateVersionStore Json
  empty_store = record {
    current_version_id = none;
    branch_id = "main";
    versions = [];
    branches = ("main", "main") ∷ [];
  }

  unfoldable pub ensure_store : AgentState Json → StateVersionStore Json
  ensure_store state = elim state.version_store [ none ↦ empty_store | some store ↦ store ]

  unfoldable pub add_version : StateVersion Json → StateVersionStore Json → StateVersionStore Json
  add_version version store = record store {
    versions = store.versions ++ (version ∷ []);
    current_version_id = some version.version_id;
  }

  module _ {World : Type 0} (out : Outside Json World) where
    -- The keys that changed since the parent, if the store has it.
    unfoldable pub diff_from : Option (StateVersion Json) → Snapshot Json → List String
    diff_from none snapshot = []
    diff_from (some parent) snapshot = snapshot_diff out parent.snapshot snapshot

    unfoldable pub parent_of : StateVersionStore Json → Option (StateVersion Json)
    unfolding get_version
    parent_of store = elim store.current_version_id [
      | none ↦ none
      | some id ↦ if truthy (some id) then get_version id store.versions else none
    ]

    unfoldable pub new_version :
        String → String → AgentState Json → StateVersionStore Json → StateVersion Json
    unfolding diff_from parent_of
    new_version id node_id state store = record {
      version_id = id;
      parent_version_id = store.current_version_id;
      branch_id = store.branch_id;
      node_id = node_id;
      state_hash = hash_state out state;
      snapshot = snapshot_of out state;
      diff_from_parent = diff_from (parent_of store) (snapshot_of out state);
    }

    unfoldable pub commit_as : String → String → AgentState Json → AgentState Json
    unfolding new_version add_version ensure_store
    commit_as id node_id state = record state {
      version_store =
          some
            (add_version (new_version id node_id state (ensure_store state)) (ensure_store state));
      state_version_id = some id;
    }

    -- commit: the state with its new version, whose id `uuid4` makes
    unfoldable pub commit : String → AgentState Json → World → AgentState Json × World
    unfolding commit_as
    commit node_id state world =
        let (id, world') = out.new_id world in (commit_as id node_id state, world')

  -- The state and the one that rollback returns share their version store.
  unfoldable pub restore :
      StateVersionStore Json → StateVersion Json → AgentState Json → AgentState Json
  restore store version state =
      record (apply_snapshot state.execution_graph version.snapshot state) {
        version_store = some (record store {
          current_version_id = some version.version_id;
          branch_id = version.branch_id;
        });
        state_version_id = some version.version_id;
      }

  unfoldable pub found : String → Option (StateVersion Json) → Result (StateVersion Json)
  found id none = raise (missing_key id)
  found id (some version) = ok version

  -- The copy that model_dump makes of the execution graph has the contents of the original, and is
  -- not told apart from it here.
  unfoldable pub rollback : AgentState Json → String → Result (AgentState Json)
  unfolding restore found ensure_store get_version
  rollback state id = found id (get_version id (ensure_store state).versions) >>= λ version.
      ok (restore (ensure_store state) version state)

  unfoldable pub diff :
      {World : Type 0}
      → Outside Json World
      → AgentState Json
      → String
      → String
      → Result (List String)
  unfolding found ensure_store get_version
  diff out state version_a version_b = do
    a ← found version_a (get_version version_a (ensure_store state).versions)
    b ← found version_b (get_version version_b (ensure_store state).versions)
    ok (snapshot_diff out a.snapshot b.snapshot)

  unfoldable pub branch_of : Option String → StateVersionStore Json → String
  branch_of branch_name store = elim branch_name [
    | none ↦ numbered "branch_" (length store.branches)
    | some name ↦ if truthy (some name) then name else numbered "branch_" (length store.branches)
  ]

  unfoldable pub open_branch : String → String → StateVersionStore Json → StateVersionStore Json
  open_branch branch_id base_id store = record store {
    branches = assign branch_id base_id store.branches;
    branch_id = branch_id;
  }

  -- The restored state, on its new branch.
  unfoldable pub fork_from : Option String → String → AgentState Json → String × AgentState Json
  unfolding branch_of open_branch ensure_store
  fork_from branch_name base_id restored =
      let name = branch_of branch_name (ensure_store restored) in
      (
        name,
        record restored {
          version_store = some (open_branch name base_id (ensure_store restored));
          branch_id = name;
        },
      )

  -- fork_branch: the state goes back to the base version, on a new branch
  unfoldable pub fork_branch :
      Option String → Option String → AgentState Json → Result (String × AgentState Json)
  unfolding base_version fork_from rollback
  fork_branch from_version_id branch_name state = do
    base_id ← base_version from_version_id (ensure_store state).current_version_id
    restored ← rollback state base_id
    ok (fork_from branch_name base_id restored)
