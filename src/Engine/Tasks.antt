-- ===== src/Engine/Tasks.antt =====
-- graph/runtime/core/graph.py: one branch of a fan-out, as it starts and as it ends.
use mathlib.Core.List.{Perm}
use mathlib.Core.List.Perm
use trip_graph_agent_runtime.Prelude.{
  ℕ, zero, suc, ◌+◌, ◌≡◌, refl, ap, String, true, Option, none, some, List, [], ◌∷◌, ◌++◌, map,
  arith, subst, length,
}
use trip_graph_agent_runtime.Prelude.Names.{find}
use trip_graph_agent_runtime.Errors.{ok, >>=-eq-ok, ok-injective}
use trip_graph_agent_runtime.AgentState.{AgentState, Outside, hash_state}
use trip_graph_agent_runtime.Engine.{Graph, NodeFn}
use trip_graph_agent_runtime.Engine.Node.{Begun, begin_node, finish_node}
use trip_graph_agent_runtime.Engine.Run.{node_start, Run, emit, after_node}
use trip_graph_agent_runtime.Engine.Fanout.{
  numbered_from, Task, Branches, take_at, on_copy, task_if, start_branch, finish_branch,
}
use trip_graph_agent_runtime.Engine.Trace.{ended, ended_quiet, Added, Added-quiet, after_node-ends}

pub take_at-Perm {ℓ ℓ'} :
    {A : Type ℓ} {B : Type ℓ'} (f : A → B) (k : ℕ) (x : A) (rest : List A)
    → Perm (f (take_at k x rest).0 ∷ map f (take_at k x rest).1) (f x ∷ map f rest)
unfolding take_at
take_at-Perm f zero x rest = Perm.refl _
take_at-Perm f (suc k) x [] = Perm.refl _
take_at-Perm f (suc k) x (y ∷ rest) =
    Perm.trans (Perm.swap _ _ _) (Perm.cons (f x) (take_at-Perm f k y rest))

pub length-take_at {ℓ} :
    {A : Type ℓ} (k : ℕ) (x : A) (rest : List A) → length (take_at k x rest).1 ≡ length rest
unfolding take_at
length-take_at zero x rest = refl
length-take_at (suc k) x [] = refl
length-take_at (suc k) x (y ∷ rest) = ap suc (length-take_at k y rest)

pub length-numbered_from :
    (n : ℕ) (names : List String) → length (numbered_from n names) ≡ length names
length-numbered_from n [] = refl
length-numbered_from n (name ∷ rest) = ap suc (length-numbered_from (suc n) rest)

module _ {Json World : Type 0} where
  abbrev pub name_of : Task Json World → String × ℕ
  name_of task = (task.branch, task.sequence)

  -- The branches that have not ended.
  abbrev pub pending : Branches Json World → List (String × ℕ)
  pending b = map name_of b.running ++ b.waiting

  -- The turns that are left: two for a branch that waits, and one for one that runs.
  abbrev pub turns_left : Branches Json World → ℕ
  turns_left b = length b.running + (length b.waiting + length b.waiting)

  -- What turns add to a run: some of the pending branches end.
  pub record Turned (ends : List (String × ℕ)) (b after : Branches Json World) : Type 0 where
    pub added : Added ends 0 b.run after.run
    pub same : Perm (ends ++ pending after) (pending b)

  pub nothing_pending :
      (running : List (Task Json World)) (waiting : List (String × ℕ))
      → length running + (length waiting + length waiting) ≡ 0
      → Perm [] (map name_of running ++ waiting)
  nothing_pending [] [] n = Perm.refl _
  nothing_pending [] (next ∷ rest) n = absurd (omega (arith, n))
  nothing_pending (task ∷ tasks) waiting n = absurd (omega (arith, n))

module _ {Json World : Type 0} (out : Outside Json World) (graph : Graph Json World) (ref : ℕ) where
  task_if-ok :
      (fn : Option (NodeFn Json World)) (branch : String) (sequence : ℕ) (begun : Begun Json)
      (run : Run Json World) (result : Task Json World × Run Json World)
      → task_if out graph ref fn branch sequence begun run ≡ ok result
      → (name_of result.0 ≡ (branch, sequence)) × (run ≡ result.1)
  unfolding task_if
  task_if-ok none branch sequence begun run result e = cc
  task_if-ok (some fn) branch sequence begun run result e =
      subst
        (λ (r : Task Json World × Run Json World). (name_of r.0 ≡ (branch, sequence)) × (run ≡ r.1))
        (ok-injective e) (refl, refl)

  pub start_branch-ok :
      (base : AgentState Json) (branch : String) (sequence : ℕ) (run : Run Json World)
      (result : Task Json World × Run Json World)
      → start_branch out graph ref base branch sequence run ≡ ok result
      → (name_of result.0 ≡ (branch, sequence)) × Added [] 0 run result.1
  unfolding start_branch on_copy ended
  start_branch-ok base branch sequence run result e =
      let copied = on_copy out graph ref base run in
      let (begun, env) = begin_node out branch copied.state copied.policy copied.env in
      let start = node_start true branch (hash_state out copied.state) sequence in
      let task = task_if-ok (find branch graph.nodes) branch sequence begun _ result e in
      (
        task.0,
        subst (λ (r : Run Json World). Added [] 0 run r) task.1
            (Added-quiet 0 run (emit start (record copied { env = env }))
              (ended_quiet start run.events refl) refl (omega arith) refl),
      )

  pub finish_branch-Added :
      (task : Task Json World) (run after : Run Json World)
      → finish_branch out graph ref task run ≡ ok after
      → Added (name_of task ∷ []) 0 run after
  unfolding finish_branch
  finish_branch-Added task run after e =
      let result =
        >>=-eq-ok
          (finish_node out task.fn ref task.branch task.sequence task.begun run.policy run.env)
          (λ result. ok (
            after_node out graph ref true task.branch task.begun.input_hash task.sequence run
              result))
          e in
      subst (λ (r : Run Json World). Added (name_of task ∷ []) 0 run r) (ok-injective result.2)
        (after_node-ends out graph ref true task.branch task.begun.input_hash task.sequence run
          result.0)
