-- ===== src/Engine/Turns.antt =====
-- graph/runtime/core/graph.py: the branches of a fan-out end once each, whatever the event loop does.
use mathlib.Core.List.{Perm, perm_middle}
use mathlib.Core.List.Perm
use trip_graph_agent_runtime.Prelude.{
  ℕ, zero, suc, ◌+◌, ◌≡◌, refl, sym, ap, ◌∙◌, String, List, [], ◌∷◌, ◌++◌, map, arith, subst,
  length,
}
use trip_graph_agent_runtime.Prelude.Sort.{sort, by_key}
use trip_graph_agent_runtime.Errors.{ok, >>=-eq-ok, ok-injective}
use trip_graph_agent_runtime.AgentState.{AgentState, Outside}
use trip_graph_agent_runtime.Engine.{Graph}
use trip_graph_agent_runtime.Engine.Run.{Run}
use trip_graph_agent_runtime.Engine.Fanout.{
  numbered_from, Task, Branches, take_at, start_branch, finish_branch, start_next, finish_at,
  turn_by, turn, run_turns, run_branches,
}
use trip_graph_agent_runtime.Engine.Trace.{Added, Added-trans, Added-quiet}
use trip_graph_agent_runtime.Engine.Tasks.{
  take_at-Perm, length-take_at, length-numbered_from, name_of, pending, turns_left, nothing_pending,
  start_branch-ok, finish_branch-Added, Turned,
}

module _ {Json World : Type 0} (out : Outside Json World) (graph : Graph Json World) (ref : ℕ) where
  start_next-Turned :
      (base : AgentState Json) (next : String × ℕ) (rest : List (String × ℕ))
      (b after : Branches Json World)
      → start_next out graph ref base next rest b ≡ ok after
      → b.waiting ≡ next ∷ rest
      → Turned [] b after × (suc (turns_left after) ≡ turns_left b)
  unfolding start_next
  start_next-Turned base (branch, sequence) rest b after e w =
      let started =
        >>=-eq-ok (start_branch out graph ref base branch sequence b.run)
          (λ (s : Task Json World × Run Json World).
            ok (record b { waiting = rest; running = s.0 ∷ b.running; run = s.1 }))
          e in
      let facts = start_branch-ok out graph ref base branch sequence b.run started.0 started.1 in
      subst (λ (a : Branches Json World). Turned [] b a × (suc (turns_left a) ≡ turns_left b))
        (ok-injective started.2)
        (
          record {
            added = facts.1;
            same =
                subst
                  (λ l.
                    Perm (name_of started.0.0 ∷ (map name_of b.running ++ rest))
                      (map name_of b.running ++ l))
                  (sym w)
                  (subst
                    (λ x.
                      Perm (name_of started.0.0 ∷ (map name_of b.running ++ rest))
                        (map name_of b.running ++ (x ∷ rest)))
                    facts.0 (Perm.symm (perm_middle (map name_of b.running) rest)));
          },
          subst
              (λ (l : List (String × ℕ)).
                suc (suc (length b.running) + (length rest + length rest))
                ≡ length b.running + (length l + length l))
              (sym w) (omega arith),
        )

  finish_at-Turned :
      (k : ℕ) (task : Task Json World) (tasks : List (Task Json World))
      (b after : Branches Json World)
      → finish_at out graph ref k task tasks b ≡ ok after
      → b.running ≡ task ∷ tasks
      → (ends : List (String × ℕ)) × Turned ends b after × (suc (turns_left after) ≡ turns_left b)
  unfolding finish_at
  finish_at-Turned k task tasks b after e h =
      let taken = take_at k task tasks in
      let finished =
        >>=-eq-ok (finish_branch out graph ref taken.0 b.run)
          (λ run. ok (record b {
            running = taken.1;
            states = (taken.0.sequence, run.state) ∷ b.states;
            run = run;
          }))
          e in
      let ends = name_of taken.0 ∷ [] in
      let facts =
        subst (λ (a : Branches Json World). Turned ends b a × (suc (turns_left a) ≡ turns_left b))
          (ok-injective finished.2)
          (
            record {
              added = finish_branch-Added out graph ref taken.0 b.run finished.0 finished.1;
              same =
                  subst
                    (λ (l : List (Task Json World)).
                      Perm (name_of taken.0 ∷ (map name_of taken.1 ++ b.waiting))
                        (map name_of l ++ b.waiting))
                    (sym h) (Perm.append (take_at-Perm name_of k task tasks) (Perm.refl b.waiting));
            },
            subst
                (λ (l : List (Task Json World)).
                  suc (length taken.1 + (length b.waiting + length b.waiting))
                  ≡ length l + (length b.waiting + length b.waiting))
                (sym h) (omega (arith, length-take_at k task tasks)),
          ) in
      (ends, facts.0, facts.1)

  turn_by-Turned :
      (k : ℕ) (base : AgentState Json) (next : String × ℕ) (rest : List (String × ℕ))
      (task : Task Json World) (tasks : List (Task Json World)) (left : ℕ)
      (b after : Branches Json World)
      → turn_by out graph ref k base next rest task tasks b ≡ ok after
      → b.waiting ≡ next ∷ rest
      → b.running ≡ task ∷ tasks
      → turns_left b ≡ suc left
      → (ends : List (String × ℕ)) × Turned ends b after × (turns_left after ≡ left)
  unfolding turn_by
  turn_by-Turned zero base next rest task tasks left b after e w r n =
      let facts = start_next-Turned base next rest b after e w in
      ([], facts.0, omega (arith, facts.1, n))
  turn_by-Turned (suc k) base next rest task tasks left b after e w r n =
      let facts = finish_at-Turned k task tasks b after e r in
      (facts.0, facts.1, omega (arith, facts.2, n))

  -- Any turn, while branches are pending.
  turn-Turned :
      (base : AgentState Json) (waiting : List (String × ℕ)) (running : List (Task Json World))
      (left : ℕ) (b after : Branches Json World)
      → turn out graph ref base waiting running b ≡ ok after
      → b.waiting ≡ waiting
      → b.running ≡ running
      → turns_left b ≡ suc left
      → (ends : List (String × ℕ)) × Turned ends b after × (turns_left after ≡ left)
  unfolding turn
  turn-Turned base [] [] left b after e w r n =
      let nothing : turns_left b ≡ 0 =
        ap (λ (l : List (String × ℕ)). length b.running + (length l + length l)) w
        ∙ ap (λ (l : List (Task Json World)). length l + 0) r in
      absurd (omega (arith, nothing, n))
  turn-Turned base (next ∷ rest) [] left b after e w r n =
      let facts = start_next-Turned base next rest b after e w in
      ([], facts.0, omega (arith, facts.1, n))
  turn-Turned base [] (task ∷ tasks) left b after e w r n =
      let facts = finish_at-Turned _ task tasks b after e r in
      (facts.0, facts.1, omega (arith, facts.2, n))
  turn-Turned base (next ∷ rest) (task ∷ tasks) left b after e w r n =
      turn_by-Turned (out.next_turn b.run.env.world (length b.running)) base next rest task tasks
        left b after e w r n

  -- Turns for all the branches that are pending: each of them ends once.
  run_turns-Turned :
      (base : AgentState Json) (left : ℕ) (b after : Branches Json World)
      → run_turns out graph ref left base b ≡ ok after
      → turns_left b ≡ left
      → (ends : List (String × ℕ)) × Added ends 0 b.run after.run × Perm ends (pending b)
  unfolding run_turns
  run_turns-Turned base zero b after e n = (
    [],
    subst (λ (a : Branches Json World). Added [] 0 b.run a.run) (ok-injective e)
        (Added-quiet 0 b.run b.run refl refl (omega arith) refl),
    nothing_pending b.running b.waiting n,
  )
  run_turns-Turned base (suc left) b after e n =
      let first =
        >>=-eq-ok (turn out graph ref base b.waiting b.running b)
          (λ (next : Branches Json World). run_turns out graph ref left base next) e in
      let (ends, turned, fewer) =
        turn-Turned base b.waiting b.running left b first.0 first.1 refl refl n in
      let (later, added, same) = run_turns-Turned base left first.0 after first.2 fewer in
      (
        ends ++ later,
        Added-trans ends later 0 0 b.run first.0.run after.run turned.added added,
        Perm.trans (Perm.append (Perm.refl ends) same) turned.same,
      )

  -- Each branch ends once.
  pub run_branches-Added :
      (base : AgentState Json) (sequence : ℕ) (branches : List String) (run : Run Json World)
      (result : List (AgentState Json) × Run Json World)
      → run_branches out graph ref base sequence branches run ≡ ok result
      → (ends : List (String × ℕ)) × Perm ends (numbered_from sequence branches)
        × Added ends 0 run result.1
  unfolding run_branches
  run_branches-Added base sequence branches run result e =
      let b : Branches Json World = record {
        waiting = numbered_from sequence branches;
        running = [];
        states = [];
        run = run;
      } in
      let turned =
        >>=-eq-ok (run_turns out graph ref (length branches + length branches) base b)
          (λ (b : Branches Json World).
            ok (map (λ p. p.1) (sort (by_key (λ p. p.0)) b.states), b.run))
          e in
      let (ends, added, same) =
        run_turns-Turned base (length branches + length branches) b turned.0 turned.1
          (omega (arith, length-numbered_from sequence branches)) in
      (
        ends,
        same,
        subst (λ (r : List (AgentState Json) × Run Json World). Added ends 0 run r.1)
            (ok-injective turned.2) added,
      )
