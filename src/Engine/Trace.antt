-- ===== src/Engine/Trace.antt =====
-- graph/runtime/core/graph.py: which nodes ended in a run, with their sequence numbers, as the events
-- tell.
use trip_graph_agent_runtime.Prelude.{
  ℕ, suc, ◌+◌, ◌≡◌, refl, sym, ap, ◌∙◌, String, Bool, false, List, [], ◌∷◌, ◌++◌, append-nil,
  append_assoc, arith, subst,
}
use trip_graph_agent_runtime.Errors.{ok, >>=-eq-ok, ok-injective}
use trip_graph_agent_runtime.AgentState.{AgentState, Outside, hash_state}
use trip_graph_agent_runtime.Engine.{Graph, Env}
use trip_graph_agent_runtime.Engine.Policy.{ExecutionPolicy}
use trip_graph_agent_runtime.Engine.Node.{execute_node}
use trip_graph_agent_runtime.Engine.Run.{
  Event, graph_start, early_stop, node_start, node_end, fanned_out, parallel_done, followed,
  graph_end, Run, emit, after_node, run_node_as, run_node,
}

-- The nodes that ended, with their sequence numbers.
unfoldable pub ended : List Event → List (String × ℕ)
ended [] = []
ended (graph_start graph_id entry policy ∷ events) = ended events
ended (early_stop node_id ∷ events) = ended events
ended (node_start fanned node_id hash sequence ∷ events) = ended events
ended (node_end fanned node_id before after sequence ∷ events) = (node_id, sequence) ∷ ended events
ended (fanned_out source branches join_node ∷ events) = ended events
ended (parallel_done sequence edge_sequence ∷ events) = ended events
ended (followed source target label kind ∷ events) = ended events
ended (graph_end graph_id iterations ∷ events) = ended events

pub ended-append : (xs ys : List Event) → ended (xs ++ ys) ≡ ended xs ++ ended ys
unfolding ended
ended-append [] ys = refl
ended-append (graph_start graph_id entry policy ∷ xs) ys = ended-append xs ys
ended-append (early_stop node_id ∷ xs) ys = ended-append xs ys
ended-append (node_start fanned node_id hash sequence ∷ xs) ys = ended-append xs ys
ended-append (node_end fanned node_id before after sequence ∷ xs) ys =
    ap (λ l. (node_id, sequence) ∷ l) (ended-append xs ys)
ended-append (fanned_out source branches join_node ∷ xs) ys = ended-append xs ys
ended-append (parallel_done sequence edge_sequence ∷ xs) ys = ended-append xs ys
ended-append (followed source target label kind ∷ xs) ys = ended-append xs ys
ended-append (graph_end graph_id iterations ∷ xs) ys = ended-append xs ys

-- An event that does not end a node adds nothing.
pub ended_quiet :
    (event : Event) (events : List Event)
    → ended (event ∷ []) ≡ []
    → ended (events ++ (event ∷ [])) ≡ ended events
ended_quiet event events h =
    ended-append events (event ∷ []) ∙ ap (λ l. ended events ++ l) h ∙ append-nil (ended events)

module _ {Json World : Type 0} where
  -- What a part of a run adds: nodes that ended, and a number of edge records. The sequence number
  -- and the number of rounds stay.
  pub record Added (ends : List (String × ℕ)) (edges : ℕ) (before after : Run Json World)
      : Type 0 where
    pub ended_added : ended after.events ≡ ended before.events ++ ends
    pub sequence_kept : after.sequence ≡ before.sequence
    pub edges_added : after.edge_sequence ≡ before.edge_sequence + edges
    pub iterations_kept : after.iterations ≡ before.iterations

  pub Added-trans :
      (ends ends' : List (String × ℕ)) (edges edges' : ℕ) (a b c : Run Json World)
      → Added ends edges a b
      → Added ends' edges' b c
      → Added (ends ++ ends') (edges + edges') a c
  Added-trans ends ends' edges edges' a b c p q = record {
    ended_added =
        q.ended_added
        ∙ ap (λ (l : List (String × ℕ)). l ++ ends') p.ended_added
        ∙ append_assoc (ended a.events) ends ends';
    sequence_kept = q.sequence_kept ∙ p.sequence_kept;
    edges_added = omega (arith, p.edges_added, q.edges_added);
    iterations_kept = q.iterations_kept ∙ p.iterations_kept;
  }

  pub Added-edges :
      (ends : List (String × ℕ)) (m n : ℕ) (a b : Run Json World)
      → m ≡ n
      → Added ends m a b
      → Added ends n a b
  Added-edges ends m n a b e h = subst (λ k. Added ends k a b) e h

  -- A part that adds no node.
  pub Added-quiet :
      (edges : ℕ) (a b : Run Json World)
      → ended b.events ≡ ended a.events
      → b.sequence ≡ a.sequence
      → b.edge_sequence ≡ a.edge_sequence + edges
      → b.iterations ≡ a.iterations
      → Added [] edges a b
  Added-quiet edges a b e s n r = record {
    ended_added = e ∙ sym (append-nil (ended a.events));
    sequence_kept = s;
    edges_added = n;
    iterations_kept = r;
  }

module _ {Json World : Type 0} (out : Outside Json World) (graph : Graph Json World) (ref : ℕ) where
  pub after_node-ends :
      (fanned : Bool) (node_id hash : String) (sequence : ℕ) (run : Run Json World)
      (result : AgentState Json × ExecutionPolicy Json World × Env Json World)
      → Added
          ((node_id, sequence) ∷ [])
          0
          run
          (after_node out graph ref fanned node_id hash sequence run result)
  unfolding after_node ended
  after_node-ends fanned node_id hash sequence run (state, policy, env) = record {
    ended_added =
        ended-append run.events (node_end fanned node_id hash (hash_state out state) sequence ∷ []);
    sequence_kept = refl;
    edges_added = omega arith;
    iterations_kept = refl;
  }

  after_node-Added :
      (fanned : Bool) (node_id hash : String) (sequence : ℕ) (run : Run Json World)
      (result : AgentState Json × ExecutionPolicy Json World × Env Json World)
      → Added ((node_id, sequence) ∷ []) 0 run (
          after_node out graph ref fanned node_id hash sequence
            (emit (node_start fanned node_id hash sequence) run)
            result)
  unfolding after_node ended
  after_node-Added fanned node_id hash sequence run result =
      let said = emit (node_start fanned node_id hash sequence) run in
      Added-trans [] ((node_id, sequence) ∷ []) 0 0 run said _
        (Added-quiet 0 run said
          (ended_quiet (node_start fanned node_id hash sequence) run.events refl) refl (omega arith)
          refl)
        (after_node-ends fanned node_id hash sequence said result)

  pub run_node_as-Added :
      (fanned : Bool) (sequence : ℕ) (node_id : String) (run after : Run Json World)
      → run_node_as out graph ref fanned sequence node_id run ≡ ok after
      → Added ((node_id, sequence) ∷ []) 0 run after
  unfolding run_node_as
  run_node_as-Added fanned sequence node_id run after e =
      let hash = hash_state out run.state in
      let result =
        >>=-eq-ok (execute_node out graph ref node_id sequence run.state run.policy run.env)
          (λ result. ok (
            after_node out graph ref fanned node_id hash sequence
              (emit (node_start fanned node_id hash sequence) run) result))
          e in
      subst (λ (r : Run Json World). Added ((node_id, sequence) ∷ []) 0 run r)
        (ok-injective result.2) (after_node-Added fanned node_id hash sequence run result.0)

  -- A node of the main loop.
  pub run_node-ok :
      (node_id : String) (run after : Run Json World)
      → run_node out graph ref node_id run ≡ ok after
      → Added ((node_id, run.sequence) ∷ []) 0 (record run { sequence = suc run.sequence }) after
  unfolding run_node
  run_node-ok node_id run after e =
      let result =
        >>=-eq-ok (run_node_as out graph ref false run.sequence node_id run)
          (λ (r : Run Json World). ok (record r { sequence = suc run.sequence })) e in
      let stepped = run_node_as-Added false run.sequence node_id run result.0 result.1 in
      subst
        (λ (r : Run Json World).
          Added ((node_id, run.sequence) ∷ []) 0 (record run { sequence = suc run.sequence }) r)
        (ok-injective result.2)
        (record {
          ended_added = stepped.ended_added;
          sequence_kept = refl;
          edges_added = stepped.edges_added;
          iterations_kept = stepped.iterations_kept;
        })
