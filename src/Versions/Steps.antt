-- ===== src/Versions/Steps.antt =====
-- graph/runtime/state_versioning.py: the operations in any order, as a step relation.
use trip_graph_agent_runtime.Prelude.{◌≡◌, String, true, false, Option, some, subst}
use trip_graph_agent_runtime.Prelude.Names.{has_name}
use trip_graph_agent_runtime.Schema.{truthy}
use trip_graph_agent_runtime.Errors.{ok}
use trip_graph_agent_runtime.AgentState.{AgentState, Outside}
use trip_graph_agent_runtime.Versions.{ensure_store, commit_as, rollback, fork_branch}
use trip_graph_agent_runtime.Versions.History.{
  version_ids, IsHistory, commit_as-IsHistory, rollback-IsHistory, fork_branch-IsHistory,
}

-- What code may do with the versions of a state: commit under a new id, go back, open a branch, or
-- change other fields.
pub data VersionStep {Json World : Type 0} (out : Outside Json World) (s t : AgentState Json)
    : Type 0 where
  commits :
      (id node_id : String)
      → truthy (some id) ≡ true
      → has_name id (version_ids (ensure_store s).versions) ≡ false
      → commit_as out id node_id s ≡ t
      → VersionStep out s t
  rolls_back : (id : String) → rollback s id ≡ ok t → VersionStep out s t
  forks :
      (from name : Option String) (branch : String)
      → fork_branch from name s ≡ ok (branch, t)
      → VersionStep out s t
  edits : ensure_store s ≡ ensure_store t → VersionStep out s t

pub data Reaches {Json World : Type 0} (out : Outside Json World) (s : AgentState Json)
    : AgentState Json → Type 0 where
  here : Reaches out s s
  next : {t u : AgentState Json} → Reaches out s t → VersionStep out t u → Reaches out s u

module _ {Json World : Type 0} (out : Outside Json World) where
  VersionStep-IsHistory :
      (s t : AgentState Json)
      → VersionStep out s t
      → IsHistory (ensure_store s)
      → IsHistory (ensure_store t)
  VersionStep-IsHistory s t (commits id node_id full new e) h =
      subst (λ (q : AgentState Json). IsHistory (ensure_store q)) e
        (commit_as-IsHistory out id node_id s full new h)
  VersionStep-IsHistory s t (rolls_back id e) h = rollback-IsHistory s t id e h
  VersionStep-IsHistory s t (forks from name branch e) h =
      fork_branch-IsHistory from name s t branch e h
  VersionStep-IsHistory s t (edits e) h = subst (λ q. IsHistory q) e h

  -- Whatever commits under new ids, rollbacks, forks and changes of other fields are made from a
  -- state whose versions are in order: ids stay distinct, each version stands after its parent, and
  -- the current version is one of them.
  pub Reaches-IsHistory :
      (s : AgentState Json) {t : AgentState Json}
      → IsHistory (ensure_store s)
      → Reaches out s t
      → IsHistory (ensure_store t)
  Reaches-IsHistory s h here = h
  Reaches-IsHistory s h (next {t} {u} path step) =
      VersionStep-IsHistory t u step (Reaches-IsHistory s h path)
