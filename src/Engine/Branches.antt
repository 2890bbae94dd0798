-- ===== src/Engine/Branches.antt =====
-- graph/runtime/core/graph.py: what a fan-out adds to a run.
use mathlib.Core.List.{Perm}
use trip_graph_agent_runtime.Prelude.{
  ℕ, suc, ◌+◌, ◌≡◌, refl, ◌∙◌, String, true, Option, none, some, List, [], ◌∷◌, ◌++◌, arith, subst,
  length,
}
use trip_graph_agent_runtime.Prelude.Names.{find}
use trip_graph_agent_runtime.Errors.{ok, ◌>>=◌, >>=-eq-ok, ok-injective}
use trip_graph_agent_runtime.AgentState.{AgentState, Outside}
use trip_graph_agent_runtime.Versions.{commit}
use trip_graph_agent_runtime.ExecutionGraph.{Graphs}
use trip_graph_agent_runtime.Merge.{merge_states}
use trip_graph_agent_runtime.Engine.{Graph, NodeFn, ParallelFanOut}
use trip_graph_agent_runtime.Engine.Run.{parallel_done, fanned_out, Run, add_edge_at}
use trip_graph_agent_runtime.Engine.Fanout.{
  numbered_from, add_branch_records, add_join_records, merge_label, run_branches, merge_branches,
  join_if, run_join, close_fanout, announce, start_fanout, run_fanout,
}
use trip_graph_agent_runtime.Engine.Turns.{run_branches-Added}
use trip_graph_agent_runtime.Engine.Trace.{
  ended, ended_quiet, Added, Added-trans, Added-quiet, Added-edges, run_node_as-Added,
}

abbrev pub join_end {ℓ} : {A : Type ℓ} → Option A → String → ℕ → List (String × ℕ)
join_end none join_node n = []
join_end (some fn) join_node n = (join_node, n) ∷ []

module _ {Json World : Type 0} where
  Added-branch_records :
      (ref : ℕ) (source : String) (branches : List String) (run : Run Json World)
      → Added [] (length branches) run (add_branch_records ref source branches run)
  unfolding add_branch_records add_edge_at
  Added-branch_records ref source [] run = Added-quiet 0 run run refl refl (omega arith) refl
  Added-branch_records ref source (branch ∷ rest) run =
      let next = add_edge_at ref source branch (some "parallel") (some "parallel") run in
      let later = Added-branch_records ref source rest next in
      record {
        ended_added = later.ended_added;
        sequence_kept = later.sequence_kept;
        edges_added = omega (arith, later.edges_added);
        iterations_kept = later.iterations_kept;
      }

  Added-join_records :
      (ref : ℕ) (branches : List String) (join_node : String) (run : Run Json World)
      → Added [] (length branches) run (add_join_records ref branches join_node run)
  unfolding add_join_records add_edge_at
  Added-join_records ref [] join_node run = Added-quiet 0 run run refl refl (omega arith) refl
  Added-join_records ref (branch ∷ rest) join_node run =
      let next = add_edge_at ref branch join_node (some "join") (some "join") run in
      let later = Added-join_records ref rest join_node next in
      record {
        ended_added = later.ended_added;
        sequence_kept = later.sequence_kept;
        edges_added = omega (arith, later.edges_added);
        iterations_kept = later.iterations_kept;
      }

module _ {Json World : Type 0} (out : Outside Json World) (graph : Graph Json World) (ref : ℕ) where
  merge_branches-Added :
      (join_node : String) (base : AgentState Json) (states : List (AgentState Json))
      (run after : Run Json World)
      → merge_branches out graph ref join_node base states run ≡ ok after
      → Added [] 0 run after
  unfolding merge_branches
  merge_branches-Added join_node base states run after e =
      let merged =
        >>=-eq-ok (merge_states out graph.merge_strategy base states run.env.graphs)
          (λ (merged : AgentState Json × Graphs Json).
            let (state, world) = commit out (merge_label join_node) merged.0 run.env.world in
            ok (record run { state = state; env = record { world = world; graphs = merged.1 } }))
          e in
      subst (λ (r : Run Json World). Added [] 0 run r) (ok-injective merged.2)
        (Added-quiet 0 run _ refl refl (omega arith) refl)

  join_if-Added :
      (fn : Option (NodeFn Json World)) (join_node : String) (n : ℕ) (run after : Run Json World)
      → join_if out graph ref fn join_node n run ≡ ok after
      → Added (join_end fn join_node n) 0 run after
  unfolding join_if
  join_if-Added none join_node n run after e =
      subst (λ (r : Run Json World). Added [] 0 run r) (ok-injective e)
        (Added-quiet 0 run run refl refl (omega arith) refl)
  join_if-Added (some fn) join_node n run after e =
      run_node_as-Added out graph ref true n join_node run after e

  Added-start_fanout :
      (fan_out : ParallelFanOut) (run : Run Json World)
      → Added [] (length fan_out.branches) run (start_fanout out graph ref fan_out run)
  unfolding start_fanout announce ended
  Added-start_fanout fan_out run =
      Added-edges [] _ (length fan_out.branches) run (start_fanout out graph ref fan_out run)
        (omega arith)
        (Added-trans [] [] 0 (length fan_out.branches) run (announce out graph ref fan_out run)
          (start_fanout out graph ref fan_out run)
          (Added-quiet 0 run (announce out graph ref fan_out run)
            (ended_quiet (fanned_out fan_out.source fan_out.branches fan_out.join_node) run.events
              refl)
            refl (omega arith) refl)
          (Added-branch_records ref fan_out.source fan_out.branches
            (announce out graph ref fan_out run)))

  -- Everything that a fan-out does before its last event.
  run_fanout-parts :
      (fan_out : ParallelFanOut) (run after : Run Json World)
      → run_fanout out graph ref fan_out run ≡ ok after
      → (ends : List (String × ℕ)) × Perm ends (numbered_from run.sequence fan_out.branches)
        × (joined : Run Json World) × (close_fanout out graph ref
              (suc (run.sequence + length fan_out.branches))
              joined
            ≡ after)
        × Added
            (ends
              ++ join_end
                  (find fan_out.join_node graph.nodes)
                  fan_out.join_node
                  (run.sequence + length fan_out.branches))
            (length fan_out.branches + length fan_out.branches)
            run
            joined
  unfolding run_fanout run_join
  run_fanout-parts fan_out run after e =
      let started = start_fanout out graph ref fan_out run in
      let names = fan_out.branches in
      let n = run.sequence + length names in
      let first =
        >>=-eq-ok (run_branches out graph ref started.state run.sequence names started)
          (λ (branched : List (AgentState Json) × Run Json World).
            merge_branches out graph ref fan_out.join_node started.state branched.0
              (add_join_records ref names fan_out.join_node branched.1)
            >>= λ merged. run_join out graph ref fan_out.join_node n merged >>= λ done.
                ok (close_fanout out graph ref (suc n) done))
          e in
      let recorded = add_join_records ref names fan_out.join_node first.0.1 in
      let second =
        >>=-eq-ok (merge_branches out graph ref fan_out.join_node started.state first.0.0 recorded)
          (λ merged. run_join out graph ref fan_out.join_node n merged >>= λ done.
            ok (close_fanout out graph ref (suc n) done))
          first.2 in
      let third =
        >>=-eq-ok (run_join out graph ref fan_out.join_node n second.0)
          (λ (done : Run Json World). ok (close_fanout out graph ref (suc n) done)) second.2 in
      let (ends, same, ran) =
        run_branches-Added out graph ref started.state run.sequence names started first.0 first.1 in
      let last = join_end (find fan_out.join_node graph.nodes) fan_out.join_node n in
      let branched =
        Added-trans [] ends (length names) 0 run started first.0.1 (Added-start_fanout fan_out run)
          ran in
      let merged =
        Added-trans [] [] (length names) 0 first.0.1 recorded second.0
          (Added-join_records ref names fan_out.join_node first.0.1)
          (merge_branches-Added fan_out.join_node started.state first.0.0 recorded second.0
            second.1) in
      let joined = Added-trans [] last (length names + 0) 0 first.0.1 second.0 third.0 merged (
        join_if-Added (find fan_out.join_node graph.nodes) fan_out.join_node n second.0 third.0
          third.1) in
      (
        ends,
        same,
        third.0,
        ok-injective third.2,
        Added-edges (ends ++ last) _ _ run third.0 (omega arith) (
            Added-trans ends last (length names + 0) (length names + 0 + 0) run first.0.1 third.0
              branched joined),
      )

  pub run_fanout-ended :
      (fan_out : ParallelFanOut) (run after : Run Json World)
      → run_fanout out graph ref fan_out run ≡ ok after
      → (ends : List (String × ℕ)) × Perm ends (numbered_from run.sequence fan_out.branches)
        × (ended after.events
            ≡ ended run.events
              ++ (ends
                  ++ join_end
                      (find fan_out.join_node graph.nodes)
                      fan_out.join_node
                      (run.sequence + length fan_out.branches)))
        × (after.sequence ≡ suc (run.sequence + length fan_out.branches))
        × (after.edge_sequence
            ≡ run.edge_sequence + (length fan_out.branches + length fan_out.branches))
        × (after.iterations ≡ run.iterations)
  unfolding close_fanout ended
  run_fanout-ended fan_out run after e =
      let (ends, same, joined, closed, added) = run_fanout-parts fan_out run after e in
      let n = run.sequence + length fan_out.branches in
      let all = ends ++ join_end (find fan_out.join_node graph.nodes) fan_out.join_node n in
      let facts =
        subst
          (λ (r : Run Json World).
            (ended r.events ≡ ended run.events ++ all)
            × (r.sequence ≡ suc n)
            × (r.edge_sequence
                ≡ run.edge_sequence + (length fan_out.branches + length fan_out.branches))
            × (r.iterations ≡ run.iterations))
          closed
          (
            ended_quiet (parallel_done (suc n) joined.edge_sequence) joined.events refl
                ∙ added.ended_added,
            refl,
            added.edges_added,
            added.iterations_kept,
          ) in
      (ends, same, facts.0, facts.1, facts.2, facts.3)
