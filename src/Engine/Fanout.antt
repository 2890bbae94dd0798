-- ===== src/Engine/Fanout.antt =====
-- graph/runtime/core/graph.py: _run_parallel_fanout_stream. asyncio.gather starts the branches in the
-- order of the list. The event loop, `next_turn`, says whether the next one starts or which of those
-- that have started ends; what a node does after it has started is one step, at its end.
use trip_graph_agent_runtime.Prelude.{
  ℕ, zero, suc, ◌+◌, String, Option, true, none, some, List, [], ◌∷◌, map, length,
}
use Prim.Native.String.{◌++◌ as text_append}
use trip_graph_agent_runtime.Prelude.Names.{find}
use trip_graph_agent_runtime.Prelude.Sort.{sort, by_key}
use trip_graph_agent_runtime.Errors.{Result, ok, raise, missing_key, ◌>>=◌}
use trip_graph_agent_runtime.AgentState.{AgentState, Outside, log_graph, hash_state}
use trip_graph_agent_runtime.Versions.{commit}
use trip_graph_agent_runtime.ExecutionGraph.{Graphs}
use trip_graph_agent_runtime.Merge.{merge_states}
use trip_graph_agent_runtime.Engine.{NodeFn, Graph, ParallelFanOut}
use trip_graph_agent_runtime.Engine.Node.{copy_of, Begun, begin_node, finish_node}
use trip_graph_agent_runtime.Engine.Run.{
  fanned_out, parallel_done, node_start, Run, emit, add_edge_at, after_node, run_node_as,
}

module _ {Json World : Type 0} where
  unfoldable pub add_branch_records : ℕ → String → List String → Run Json World → Run Json World
  unfolding add_edge_at
  add_branch_records ref source [] run = run
  add_branch_records ref source (branch ∷ rest) run =
      add_branch_records ref source rest
        (add_edge_at ref source branch (some "parallel") (some "parallel") run)

  unfoldable pub add_join_records : ℕ → List String → String → Run Json World → Run Json World
  unfolding add_edge_at
  add_join_records ref [] join_node run = run
  add_join_records ref (branch ∷ rest) join_node run =
      add_join_records ref rest join_node
        (add_edge_at ref branch join_node (some "join") (some "join") run)

-- f"{join_node}:merge"
unfoldable pub merge_label : String → String
merge_label join_node = text_append join_node ":merge"

-- The branches with the sequence numbers from the given one on.
abbrev pub numbered_from : ℕ → List String → List (String × ℕ)
numbered_from n [] = []
numbered_from n (branch ∷ rest) = (branch, n) ∷ numbered_from (suc n) rest

-- A branch that has started, and whose node has not ended yet.
pub record Task (Json World : Type 0) : Type 0 where
  pub branch : String
  pub sequence : ℕ
  pub fn : NodeFn Json World
  pub begun : Begun Json

-- The branches of a fan-out under way: those that have not started, in order, the tasks, and the
-- states of those that have ended, with their sequence numbers.
pub record Branches (Json World : Type 0) : Type 0 where
  pub waiting : List (String × ℕ)
  pub running : List (Task Json World)
  pub states : List (ℕ × AgentState Json)
  pub run : Run Json World

-- The element at an index, or the last one, and the others.
unfoldable pub take_at {ℓ} : {A : Type ℓ} → ℕ → A → List A → A × List A
take_at zero x rest = (x, rest)
take_at (suc k) x [] = (x, [])
take_at (suc k) x (y ∷ rest) = let (chosen, others) = take_at k y rest in (chosen, x ∷ others)

module _ {Json World : Type 0} (out : Outside Json World) (graph : Graph Json World) (ref : ℕ) where
  -- run_branch: the node runs on a copy of the state.
  unfoldable pub on_copy : AgentState Json → Run Json World → Run Json World
  unfolding copy_of
  on_copy base run =
      let (copy, graphs) = copy_of base.execution_graph run.env.graphs in
      record run {
        state = record base { execution_graph = copy };
        env = record run.env { graphs = graphs };
      }

  -- A branch whose node the graph does not have is a KeyError.
  unfoldable pub task_if :
      Option (NodeFn Json World)
      → String
      → ℕ
      → Begun Json
      → Run Json World
      → Result (Task Json World × Run Json World)
  task_if none branch sequence begun run = raise (missing_key branch)
  task_if (some fn) branch sequence begun run =
      ok (record { branch = branch; sequence = sequence; fn = fn; begun = begun }, run)

  -- run_branch, up to the body of its node
  unfoldable pub start_branch :
      AgentState Json → String → ℕ → Run Json World → Result (Task Json World × Run Json World)
  unfolding on_copy hash_state begin_node task_if
  start_branch base branch sequence run =
      let copied = on_copy base run in
      let (begun, env) = begin_node out branch copied.state copied.policy copied.env in
      let said =
        emit (node_start true branch (hash_state out copied.state) sequence)
          (record copied { env = env }) in
      task_if (find branch graph.nodes) branch sequence begun said

  -- run_branch, from the body of its node on
  unfoldable pub finish_branch : Task Json World → Run Json World → Result (Run Json World)
  unfolding finish_node after_node
  finish_branch task run =
      finish_node out task.fn ref task.branch task.sequence task.begun run.policy run.env
      >>= λ after.
          ok (
            after_node out graph ref true task.branch task.begun.input_hash task.sequence run after)

  unfoldable pub start_next :
      AgentState Json
      → String × ℕ
      → List (String × ℕ)
      → Branches Json World
      → Result (Branches Json World)
  unfolding start_branch
  start_next base (branch, sequence) rest b =
      start_branch base branch sequence b.run >>= λ (started : Task Json World × Run Json World).
      ok (record b { waiting = rest; running = started.0 ∷ b.running; run = started.1 })

  unfoldable pub finish_at :
      ℕ
      → Task Json World
      → List (Task Json World)
      → Branches Json World
      → Result (Branches Json World)
  unfolding take_at finish_branch
  finish_at k task tasks b =
      let (chosen, others) = take_at k task tasks in
      finish_branch chosen b.run >>= λ run.
      ok
        (record b { running = others; states = (chosen.sequence, run.state) ∷ b.states; run = run })

  -- The turn that the event loop takes where both are possible.
  unfoldable pub turn_by :
      ℕ
      → AgentState Json
      → String × ℕ
      → List (String × ℕ)
      → Task Json World
      → List (Task Json World)
      → Branches Json World
      → Result (Branches Json World)
  unfolding start_next finish_at
  turn_by zero base next rest task tasks b = start_next base next rest b
  turn_by (suc k) base next rest task tasks b = finish_at k task tasks b

  -- One turn of the event loop: the next branch starts, or one that has started ends.
  unfoldable pub turn :
      AgentState Json
      → List (String × ℕ)
      → List (Task Json World)
      → Branches Json World
      → Result (Branches Json World)
  unfolding start_next finish_at turn_by
  turn base [] [] b = ok b
  turn base (next ∷ rest) [] b = start_next base next rest b
  turn base [] (task ∷ tasks) b =
      finish_at (out.next_turn b.run.env.world (length b.running)) task tasks b
  turn base (next ∷ rest) (task ∷ tasks) b =
      turn_by (out.next_turn b.run.env.world (length b.running)) base next rest task tasks b

  unfoldable pub run_turns :
      ℕ → AgentState Json → Branches Json World → Result (Branches Json World)
  unfolding turn
  run_turns zero base b = ok b
  run_turns (suc left) base b =
      turn base b.waiting b.running b >>= λ after. run_turns left base after

  -- asyncio.gather: two turns for each branch, and the states in the order of the branches
  unfoldable pub run_branches :
      AgentState Json
      → ℕ
      → List String
      → Run Json World
      → Result (List (AgentState Json) × Run Json World)
  unfolding run_turns
  run_branches base sequence branches run =
      run_turns (length branches + length branches) base
        (record { waiting = numbered_from sequence branches; running = []; states = []; run = run })
      >>= λ b. ok (map (λ p. p.1) (sort (by_key (λ p. p.0)) b.states), b.run)

  -- The merge of the branches, as a new version of the state.
  unfoldable pub merge_branches :
      String → AgentState Json → List (AgentState Json) → Run Json World → Result (Run Json World)
  unfolding merge_states commit
  merge_branches join_node base states run =
      merge_states out graph.merge_strategy base states run.env.graphs
      >>= λ (merged : AgentState Json × Graphs Json).
          let (state, world) = commit out (merge_label join_node) merged.0 run.env.world in
          ok (record run { state = state; env = record { world = world; graphs = merged.1 } })

  unfoldable pub join_if :
      Option (NodeFn Json World) → String → ℕ → Run Json World → Result (Run Json World)
  unfolding run_node_as
  join_if none join_node sequence run = ok run
  join_if (some fn) join_node sequence run = run_node_as out graph ref true sequence join_node run

  -- The join node runs on the merged state, if the graph has it.
  unfoldable pub run_join : String → ℕ → Run Json World → Result (Run Json World)
  unfolding join_if
  run_join join_node sequence run = join_if (find join_node graph.nodes) join_node sequence run

  unfoldable pub close_fanout : ℕ → Run Json World → Run Json World
  close_fanout sequence run =
      emit (parallel_done sequence run.edge_sequence) (record run { sequence = sequence })

  -- The log entry and the event that announce a fan-out.
  unfoldable pub announce : ParallelFanOut → Run Json World → Run Json World
  unfolding log_graph
  announce fan_out run =
      emit (fanned_out fan_out.source fan_out.branches fan_out.join_node) (record run {
        state =
            log_graph fan_out.source "parallel_fanout"
              (("branches", out.array (map out.text fan_out.branches)) ∷ []) run.state;
      })

  unfoldable pub start_fanout : ParallelFanOut → Run Json World → Run Json World
  unfolding add_branch_records announce
  start_fanout fan_out run =
      add_branch_records ref fan_out.source fan_out.branches (announce fan_out run)

  -- _run_parallel_fanout_stream
  unfoldable pub run_fanout : ParallelFanOut → Run Json World → Result (Run Json World)
  unfolding start_fanout run_branches add_join_records merge_branches run_join close_fanout
  run_fanout fan_out run =
      let started = start_fanout fan_out run in
      let joined = run.sequence + length fan_out.branches in
      run_branches started.state run.sequence fan_out.branches started
      >>= λ (branched : List (AgentState Json) × Run Json World).
          merge_branches fan_out.join_node started.state branched.0
            (add_join_records ref fan_out.branches fan_out.join_node branched.1)
          >>= λ merged. run_join fan_out.join_node joined merged >>= λ after.
              ok (close_fanout (suc joined) after)
