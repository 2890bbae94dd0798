-- ===== src/PlanGraph.antt =====
-- plan/graph.py: PlanExecutionGraph, the live view of the plan that the executor keeps.
pub mod Sync
use trip_graph_agent_runtime.Prelude.{
  ℕ, String, Bool, true, false, not, Option, none, some, List, [], ◌∷◌, ◌++◌, map, elem, select,
  ◌==◌, if◌then◌else◌,
}
use trip_graph_agent_runtime.Prelude.Dict.{Dict, lookup, insert, remove_all, insert_all, keys}
use trip_graph_agent_runtime.Prelude.Sort.{sort, by_key}
use trip_graph_agent_runtime.Errors.{Result, ok, raise, key_error, ◌>>=◌}
use trip_graph_agent_runtime.Schema.{
  StepStatus, pending, running, completed, failed, skipped, PlanStep, Plan, deps_of, StepResult,
}
use trip_graph_agent_runtime.GraphSchema.{
  GraphNodeStatus, PlanGraphEdge, PlanGraphNode, PlanExecutionGraphSnapshot,
}
use trip_graph_agent_runtime.State.{PlanState, ids, get_step_status}

pub record PlanGraph : Type 0 where
  pub goal : String
  pub session_id : String
  pub steps : Dict PlanStep
  pub status : Dict GraphNodeStatus
  pub errors : Dict (Option String)
  pub edges : List PlanGraphEdge
  pub current_step : Option ℕ

-- {step.id: step for step in steps}, onto the entries so far
unfoldable pub index_steps : Dict PlanStep → List PlanStep → Dict PlanStep
index_steps d [] = d
index_steps d (s ∷ rest) = index_steps (insert s.id s d) rest

-- _build_edges: one edge from each dependency to its step
unfoldable pub build_edges : List PlanStep → List PlanGraphEdge
build_edges [] = []
build_edges (s ∷ rest) =
    map (λ dep. record { source = dep; target = s.id }) (deps_of s) ++ build_edges rest

-- _map_status
unfoldable pub map_status : StepStatus → GraphNodeStatus
map_status pending = GraphNodeStatus.pending
map_status running = GraphNodeStatus.running
map_status completed = GraphNodeStatus.success
map_status failed = GraphNodeStatus.failed
map_status skipped = GraphNodeStatus.success

unfoldable pub from_plan : Plan → String → PlanGraph
unfolding index_steps build_edges
from_plan plan session = record {
  goal = plan.goal;
  session_id = session;
  steps = index_steps [] plan.steps;
  status = insert_all (ids plan.steps) GraphNodeStatus.pending [];
  errors = insert_all (ids plan.steps) none [];
  edges = build_edges plan.steps;
  current_step = none;
}

unfoldable pub set_node_status : PlanGraph → ℕ → GraphNodeStatus → Option String → Result PlanGraph
set_node_status g k st error = elim (lookup k g.steps) [
  | none ↦ raise (key_error k)
  | some _ ↦ ok (record g {
    status = insert k st g.status;
    errors = elim error [ none ↦ g.errors | some e ↦ insert k (some e) g.errors ];
  })
]

unfoldable pub rebuild_from_plan : PlanGraph → Plan → PlanGraph
unfolding index_steps build_edges
rebuild_from_plan g plan =
    let missing =
      select (λ k. elim (lookup k g.status) [ none ↦ true | some _ ↦ false ]) (ids plan.steps) in
    record g {
      steps = index_steps [] plan.steps;
      edges = build_edges plan.steps;
      status = insert_all missing GraphNodeStatus.pending g.status;
      errors = insert_all missing none g.errors;
    }

-- The keys of the status table that are no step of the plan any more.
abbrev gone : PlanGraph → List PlanStep → List ℕ
gone g steps =
    select (λ k. elim (lookup k (index_steps [] steps)) [ none ↦ true | some _ ↦ false ])
      (keys g.status)

module _ {Json Context : Type 0} where
  -- result.error if result else None
  abbrev error_at : PlanState Json Context → ℕ → Option String
  error_at s k = elim (lookup k s.step_results) [ none ↦ none | some r ↦ r.error ]

  -- The loop at the end of sync_from_state, on the tables of statuses and errors.
  unfoldable pub sync_steps :
      PlanState Json Context
      → List PlanStep
      → Dict GraphNodeStatus
      → Dict (Option String)
      → Result (Dict GraphNodeStatus × Dict (Option String))
  unfolding map_status
  sync_steps s [] statuses errors = ok (statuses, errors)
  sync_steps s (step ∷ rest) statuses errors = do
    st ← get_step_status s step.id
    sync_steps s rest (insert step.id (map_status st) statuses)
        (insert step.id (error_at s step.id) errors)

  -- The graph once its tables are those given.
  abbrev mirror : PlanState Json Context → Dict GraphNodeStatus → Dict (Option String) → PlanGraph
  mirror s statuses errors = record {
    goal = s.plan.goal;
    session_id = s.session_id;
    steps = index_steps [] s.plan.steps;
    status = statuses;
    errors = errors;
    edges = build_edges s.plan.steps;
    current_step = s.current_step;
  }

  unfoldable pub sync_from_state : PlanGraph → PlanState Json Context → Result PlanGraph
  unfolding sync_steps index_steps build_edges
  sync_from_state g s =
      sync_steps s s.plan.steps (remove_all (gone g s.plan.steps) g.status)
        (remove_all (gone g s.plan.steps) g.errors)
      >>= λ tables. ok (mirror s tables.0 tables.1)

-- The nodes of get_graph_snapshot, over the steps in order of their ids.
unfoldable pub snapshot_nodes : PlanGraph → List PlanStep → Result (List PlanGraphNode)
snapshot_nodes g [] = ok []
snapshot_nodes g (s ∷ rest) =
    let later = snapshot_nodes g rest in
    elim (lookup s.id g.status) [
      | none ↦ raise (key_error s.id)
      | some st ↦ later >>= λ nodes. ok (
          record {
            id = s.id;
            task = s.task;
            tool_hint = s.tool_hint;
            status = st;
            error = elim (lookup s.id g.errors) [ none ↦ none | some e ↦ e ];
          }
          ∷ nodes)
    ]

unfoldable set_current_step : PlanGraph → Option ℕ → PlanGraph
set_current_step g k = record g { current_step = k }

unfoldable get_graph_snapshot : PlanGraph → Result PlanExecutionGraphSnapshot
unfolding snapshot_nodes
get_graph_snapshot g =
    snapshot_nodes g (sort (by_key (λ s. s.id)) (map (λ p. p.1) g.steps)) >>= λ nodes. ok (record {
      goal = g.goal;
      session_id = g.session_id;
      current_step = g.current_step;
      nodes = nodes;
      edges = g.edges;
    })
