-- ===== src/Versions/Rollback.antt =====
-- graph/runtime/state_versioning.py: going back to a version.
use trip_graph_agent_runtime.Prelude.{
  ◌≡◌, refl, ◌∙◌, String, none, some, List, [], ◌∷◌, ◌++◌, str_eq, if◌then◌else◌, Option-cases, inl,
  inr, arith,
}
use trip_graph_agent_runtime.Prelude.Names.{discard-discard, str_eq_refl}
use trip_graph_agent_runtime.Errors.{ok}
use trip_graph_agent_runtime.AgentState.{
  AgentState, StateVersion, StateVersionStore, Outside, snapshot_of, summary_of, apply_snapshot,
}
use trip_graph_agent_runtime.Versions.{
  get_version, ensure_store, new_version, add_version, commit_as, restore, found, rollback,
}

module _ {Json : Type 0} where
  get_version-snoc :
      (id : String) (versions : List (StateVersion Json)) (version : StateVersion Json)
      → get_version id versions ≡ none
      → get_version id (versions ++ (version ∷ []))
        ≡ (if str_eq version.version_id id then some version else none)
  unfolding get_version
  get_version-snoc id [] version h = refl
  get_version-snoc id (v ∷ rest) version h = ground (arith, get_version-snoc id rest version)

  ensure_store-some :
      (t : AgentState Json) (store : StateVersionStore Json)
      → t.version_store ≡ some store
      → ensure_store t ≡ store
  unfolding ensure_store
  ensure_store-some t store h = ground arith

  rollback-found :
      (t : AgentState Json) (id : String) (store : StateVersionStore Json)
      (version : StateVersion Json)
      → t.version_store ≡ some store
      → get_version id store.versions ≡ some version
      → rollback t id ≡ ok (restore store version t)
  unfolding rollback found
  rollback-found t id store version h g = rw (ensure_store-some t store h, g) refl

  -- What a rollback that succeeds has found.
  pub rollback-ok :
      (t r : AgentState Json) (id : String)
      → rollback t id ≡ ok r
      → (v : StateVersion Json) × (get_version id (ensure_store t).versions ≡ some v)
        × (restore (ensure_store t) v t ≡ r)
  unfolding rollback found
  rollback-ok t r id e = elim (Option-cases (get_version id (ensure_store t).versions)) [
    | inl missing ↦ absurd (ground (arith, missing))
    | inr (v, g) ↦ (v, g, ground (arith, g))
  ]

  module _ {World : Type 0} (out : Outside Json World) where
    get_version-committed :
        (id node_id : String) (s : AgentState Json) (store : StateVersionStore Json)
        → get_version id store.versions ≡ none
        → get_version id (add_version (new_version out id node_id s store) store).versions
          ≡ some (new_version out id node_id s store)
    unfolding add_version new_version
    get_version-committed id node_id s store fresh =
        get_version-snoc id store.versions (new_version out id node_id s store) fresh
        ∙ rw (str_eq_refl id) refl

    snapshot_of-restore :
        (id node_id : String) (s t : AgentState Json) (store store' : StateVersionStore Json)
        → snapshot_of out (restore store' (new_version out id node_id s store) t)
          ≡ record (snapshot_of out s) {
            state_version_id = some id;
            plan_state = summary_of out t.plan_state;
          }
    unfolding restore snapshot_of apply_snapshot new_version
    snapshot_of-restore id node_id s t store store' =
        rw (discard-discard "compiled_plan_graph" s.memory) refl

    -- A commit under a new id, and then whatever else happens to the state, other commits and
    -- branches included, as long as its store finds the same version under that id: rollback to it
    -- gives back the snapshot that was committed, with the id as its version, except for the plan
    -- state, which stays what it was. The store then has the id as its current version, the branch
    -- of the commit, and all its versions.
    pub rollback-commit_as :
        (id node_id : String) (s t : AgentState Json) (store : StateVersionStore Json)
        → get_version id (ensure_store s).versions ≡ none
        → t.version_store ≡ some store
        → get_version id store.versions
          ≡ get_version id (ensure_store (commit_as out id node_id s)).versions
        → (r : AgentState Json) × (rollback t id ≡ ok r)
          × (snapshot_of out r ≡ record (snapshot_of out s) {
            state_version_id = some id;
            plan_state = summary_of out t.plan_state;
          })
          × ((ensure_store r).current_version_id ≡ some id)
          × ((ensure_store r).branch_id ≡ (ensure_store s).branch_id)
          × ((ensure_store r).versions ≡ store.versions)
    unfolding commit_as restore ensure_store add_version new_version
    rollback-commit_as id node_id s t store fresh kept same = (
      restore store (new_version out id node_id s (ensure_store s)) t,
      rollback-found t id store (new_version out id node_id s (ensure_store s)) kept
          (same ∙ get_version-committed id node_id s (ensure_store s) fresh),
      snapshot_of-restore id node_id s t (ensure_store s) store,
      refl,
      refl,
      refl,
    )
