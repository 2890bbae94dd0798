-- ===== src/Engine/Bounds.antt =====
-- graph/runtime/core/graph.py: the rounds of a run are bounded, and its sequence numbers ascend.
use mathlib.Core.List.{Perm}
use mathlib.Core.List.Perm
use trip_graph_agent_runtime.Prelude.{
  ℕ, zero, suc, if◌then◌else◌, ◌+◌, ◌≤◌, ◌≡◌, refl, sym, ap, ◌∙◌, String, Option, none, some, List,
  [], ◌∷◌, ◌++◌, arith, subst, length, Bool-cases, inl, inr, str_eq,
}
use trip_graph_agent_runtime.Prelude.Names.{find}
use trip_graph_agent_runtime.Errors.{ok, ◌>>=◌, >>=-eq-ok, ok-injective}
use trip_graph_agent_runtime.AgentState.{AgentState, Outside}
use trip_graph_agent_runtime.Engine.{
  Graph, Env, NodeFn, ParallelFanOut, end_node, fan_out_for, resolve_next, matched_edge,
}
use trip_graph_agent_runtime.Engine.Policy.{ExecutionPolicy}
use trip_graph_agent_runtime.Engine.Run.{
  graph_end, early_stop, followed, Run, emit, add_edge_at, run_node,
}
use trip_graph_agent_runtime.Engine.Fanout.{numbered_from, run_fanout}
use trip_graph_agent_runtime.Engine.Loop.{
  label_of, kind_of, source_if, run_source, after_join, next_round, follow, one_round, must_stop,
  stop_early, run_loop, start_run, astream,
}
use trip_graph_agent_runtime.Engine.Trace.{ended, ended_quiet, run_node-ok}
use trip_graph_agent_runtime.Engine.Branches.{join_end, run_fanout-ended}

-- Sequence numbers from `low` on, each above the one before, and all below `high`.
abbrev pub Ascends : ℕ → List (String × ℕ) → ℕ → Type 0
Ascends low [] high = low ≤ high
Ascends low ((id, n) ∷ rest) high = (low ≤ n) × Ascends (suc n) rest high

Ascends-append :
    (low middle high : ℕ) (xs ys : List (String × ℕ))
    → Ascends low xs middle
    → Ascends middle ys high
    → Ascends low (xs ++ ys) high
Ascends-append low middle high [] [] hx hy = omega arith
Ascends-append low middle high [] ((id, n) ∷ ys) hx hy = (omega arith, hy.1)
Ascends-append low middle high ((id, n) ∷ xs) ys hx hy =
    (hx.0, Ascends-append (suc n) middle high xs ys hx.1 hy)

Ascends-numbered :
    (n : ℕ) (names : List String) → Ascends n (numbered_from n names) (n + length names)
Ascends-numbered n [] = omega arith
Ascends-numbered n (name ∷ rest) = (
  omega arith,
  subst (λ k. Ascends (suc n) (numbered_from (suc n) rest) k) (omega arith)
      (Ascends-numbered (suc n) rest),
)

Ascends-join_end :
    {A : Type 0} (o : Option A) (join_node : String) (n : ℕ)
    → Ascends n (join_end o join_node n) (suc n)
Ascends-join_end none join_node n = omega arith
Ascends-join_end (some fn) join_node n = omega arith

module _ {Json World : Type 0} where
  -- The numbers of the nodes that ended so far are distinct and below the next one: in some order,
  -- they ascend.
  pub record InOrder (run : Run Json World) : Type 0 where
    pub order : List (String × ℕ)
    pub same : Perm (ended run.events) order
    pub ascends : Ascends 0 order run.sequence

  -- A part of a run whose numbers start at the next one.
  InOrder-append :
      (ends more : List (String × ℕ)) (run after : Run Json World)
      → ended after.events ≡ ended run.events ++ ends
      → Perm ends more
      → Ascends run.sequence more after.sequence
      → InOrder run
      → InOrder after
  InOrder-append ends more run after e p up h = record {
    order = h.order ++ more;
    same = subst (λ l. Perm l (h.order ++ more)) (sym e) (Perm.append h.same p);
    ascends = Ascends-append 0 run.sequence after.sequence h.order more h.ascends up;
  }

  -- A part of a run that ends no node.
  InOrder-quiet :
      (run after : Run Json World)
      → ended after.events ≡ ended run.events
      → after.sequence ≡ run.sequence
      → InOrder run
      → InOrder after
  InOrder-quiet run after e n h = record {
    order = h.order;
    same = subst (λ l. Perm l h.order) (sym e) h.same;
    ascends = subst (λ k. Ascends 0 h.order k) (sym n) h.ascends;
  }

module _ {Json World : Type 0} (out : Outside Json World) (graph : Graph Json World) (ref : ℕ) where
  run_node-InOrder :
      (node_id : String) (run after : Run Json World)
      → run_node out graph ref node_id run ≡ ok after
      → InOrder run
      → InOrder after × (after.iterations ≡ run.iterations)
  run_node-InOrder node_id run after e h =
      let added = run_node-ok out graph ref node_id run after e in
      let end = (node_id, run.sequence) ∷ [] in
      (
        InOrder-append end end run after added.ended_added (Perm.refl end)
            (subst (λ n. Ascends run.sequence end n) (sym added.sequence_kept) (omega arith)) h,
        added.iterations_kept,
      )

  source_if-InOrder :
      (fn : Option (NodeFn Json World)) (current : String) (run after : Run Json World)
      → source_if out graph ref fn current run ≡ ok after
      → InOrder run
      → InOrder after × (after.iterations ≡ run.iterations)
  unfolding source_if
  source_if-InOrder none current run after e h =
      subst (λ (r : Run Json World). InOrder r × (r.iterations ≡ run.iterations)) (ok-injective e)
        (h, refl)
  source_if-InOrder (some fn) current run after e h = run_node-InOrder current run after e h

  run_fanout-InOrder :
      (fan_out : ParallelFanOut) (run after : Run Json World)
      → run_fanout out graph ref fan_out run ≡ ok after
      → InOrder run
      → InOrder after × (after.iterations ≡ run.iterations)
  run_fanout-InOrder fan_out run after e h =
      let (ends, same, ended_after, next, edges, rounds) =
        run_fanout-ended out graph ref fan_out run after e in
      let n = run.sequence + length fan_out.branches in
      let numbered = numbered_from run.sequence fan_out.branches in
      let last = join_end (find fan_out.join_node graph.nodes) fan_out.join_node n in
      (
        InOrder-append (ends ++ last) (numbered ++ last) run after ended_after
            (Perm.append same (Perm.refl last))
            (subst (λ k. Ascends run.sequence (numbered ++ last) k) (sym next)
              (Ascends-append run.sequence n (suc n) numbered last
                (Ascends-numbered run.sequence fan_out.branches)
                (Ascends-join_end (find fan_out.join_node graph.nodes) fan_out.join_node n)))
            h,
        rounds,
      )

  follow-InOrder :
      (current : String) (run : Run Json World)
      → InOrder run
      → InOrder (follow out graph ref current run).1
        × ((follow out graph ref current run).1.iterations ≡ suc run.iterations)
  unfolding follow next_round add_edge_at ended
  follow-InOrder current run h =
      let target = resolve_next current run.state graph in
      let edge = matched_edge current run.state target graph in
      (
        InOrder-quiet run (follow out graph ref current run).1
            (ended_quiet (followed current target (label_of edge) (kind_of edge)) run.events refl)
            refl h,
        refl,
      )

  one_round-InOrder :
      (fan_out : Option ParallelFanOut) (current : String) (run : Run Json World)
      (after : String × Run Json World)
      → one_round out graph ref fan_out current run ≡ ok after
      → InOrder run
      → InOrder after.1 × (after.1.iterations ≡ suc run.iterations)
  unfolding one_round run_source next_round
  one_round-InOrder none current run after e h =
      let node =
        >>=-eq-ok (run_node out graph ref current run)
          (λ (r : Run Json World). ok (follow out graph ref current r)) e in
      let ordered = run_node-InOrder current run node.0 node.1 h in
      let followed = follow-InOrder current node.0 ordered.0 in
      subst (λ (r : String × Run Json World). InOrder r.1 × (r.1.iterations ≡ suc run.iterations))
        (ok-injective node.2) (followed.0, followed.1 ∙ ap suc ordered.1)
  one_round-InOrder (some fan_out) current run after e h =
      let source =
        >>=-eq-ok (run_source out graph ref current run)
          (λ at_source. run_fanout out graph ref fan_out at_source >>= λ (r : Run Json World).
            ok (after_join out graph ref fan_out.join_node r.state, next_round out graph ref r))
          e in
      let fanned =
        >>=-eq-ok (run_fanout out graph ref fan_out source.0)
          (λ (r : Run Json World).
            ok (after_join out graph ref fan_out.join_node r.state, next_round out graph ref r))
          source.2 in
      let at_source =
        source_if-InOrder (find current graph.nodes) current run source.0 source.1 h in
      let done = run_fanout-InOrder fan_out source.0 fanned.0 fanned.1 at_source.0 in
      subst (λ (r : String × Run Json World). InOrder r.1 × (r.1.iterations ≡ suc run.iterations))
        (ok-injective fanned.2)
        (
          InOrder-quiet fanned.0 (next_round out graph ref fanned.0) refl refl done.0,
          ap suc (done.1 ∙ at_source.1),
        )

  run_loop-InOrder :
      (left : ℕ) (current : String) (run after : Run Json World)
      → run_loop out graph ref left current run ≡ ok after
      → InOrder run
      → InOrder after × (after.iterations ≤ run.iterations + left)
  unfolding run_loop stop_early ended
  run_loop-InOrder zero current run after e h =
      subst (λ (r : Run Json World). InOrder r × (r.iterations ≤ run.iterations + 0))
        (ok-injective e) (h, omega arith)
  run_loop-InOrder (suc left) current run after e h = elim (Bool-cases (str_eq current end_node)) [
    | inl done ↦
        subst (λ (r : Run Json World). InOrder r × (r.iterations ≤ run.iterations + suc left))
          (ok-injective (rw done at e)) (h, omega arith)
    | inr go ↦
        let decided =
          >>=-eq-ok (must_stop out graph ref run.state)
            (λ stop.
              if stop
              then ok (stop_early out graph ref current run)
              else (one_round out graph ref (fan_out_for current graph) current run
                  >>= λ (r : String × Run Json World). run_loop out graph ref left r.0 r.1))
            (rw go at e) in
        elim (Bool-cases decided.0) [
          | inl stop ↦
              subst (λ (r : Run Json World). InOrder r × (r.iterations ≤ run.iterations + suc left))
                (ok-injective (rw stop at decided.2))
                (
                  InOrder-quiet run (stop_early out graph ref current run)
                      (ended_quiet (early_stop current) run.events refl) refl h,
                  omega arith,
                )
          | inr on ↦
              let round =
                >>=-eq-ok (one_round out graph ref (fan_out_for current graph) current run)
                  (λ (r : String × Run Json World). run_loop out graph ref left r.0 r.1)
                  (rw on at decided.2) in
              let ordered =
                one_round-InOrder (fan_out_for current graph) current run round.0 round.1 h in
              let later = run_loop-InOrder left round.0.0 round.0.1 after round.2 ordered.0 in
              (later.0, omega (arith, later.1, ordered.1))
        ]
  ]

module _ {Json World : Type 0} (out : Outside Json World) (graph : Graph Json World) where
  -- A run whose stream ends has made at most max_iterations rounds. The sequence numbers of the nodes
  -- that ended, fan-outs included, are distinct and below the next one: the nodes can be put in an
  -- order in which their numbers ascend.
  pub astream-InOrder :
      (policy : ExecutionPolicy Json World) (state : AgentState Json) (env : Env Json World)
      (done : Run Json World)
      → astream out graph policy state env ≡ ok done
      → (done.iterations ≤ graph.max_iterations)
        × (order : List (String × ℕ)) × Perm (ended done.events) order
        × Ascends 0 order done.sequence
  unfolding astream start_run ended
  astream-InOrder policy state env done e =
      let start = start_run out graph policy state env in
      let looped =
        >>=-eq-ok (run_loop out graph start.0 graph.max_iterations graph.entry start.1)
          (λ (r : Run Json World). ok (emit (graph_end graph.graph_id r.iterations) r)) e in
      let facts =
        run_loop-InOrder out graph start.0 graph.max_iterations graph.entry start.1 looped.0
          looped.1 (record { order = []; same = Perm.refl []; ascends = omega arith }) in
      let closed = emit (graph_end graph.graph_id looped.0.iterations) looped.0 in
      let last =
        subst (λ (r : Run Json World). (r.iterations ≤ graph.max_iterations) × InOrder r)
          (ok-injective looped.2)
          (
            omega (arith, facts.1),
            InOrder-quiet looped.0 closed
                (ended_quiet (graph_end graph.graph_id looped.0.iterations) looped.0.events refl)
                refl facts.0,
          ) in
      (last.0, last.1.order, last.1.same, last.1.ascends)
