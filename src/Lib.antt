-- ===== src/Lib.antt =====
-- TripGraph Agent Runtime: the plan pipeline and the graph runtime.
--
-- The program plans a trip with a language model, repairs and validates the plan, and runs its
-- steps against tools. This library models that pipeline, the code in plan/, with the data of
-- schemas/ that it works on; the executor of tool calls and the policy that chooses a tool, in
-- tools/; and the core of graph/runtime/, which runs a graph of nodes on a shared state, with its
-- versions of that state, its merge of parallel branches and its record of a run.
--
--   Schema, GraphSchema   schemas/plan.py, schemas/plan_graph.py, plan/failure_policy.py: data
--   Errors                core/exceptions.py, KeyError and the messages of the validator, as data
--   State                 plan/state.py: PlanState, statuses, results, the scheduler's queries
--     State.Replan        apply_replanned_steps, restore_completed_step_snapshots,
--                         remap_step_status
--   Validator             plan/validator.py: the checks of PlanValidator, with the search for cycles
--   Repair                plan/repair.py: duplicates, renumbering, normalize_plan, repair_plan
--   PlanGraph             plan/graph.py: the view of a plan's progress as a graph
--   Tools                 tools/base.py, tools/reliability.py, tools/tracing.py, schemas/tool.py: data
--     Tools.Registry      tools/registry.py: ToolRegistry
--     Tools.Call          tools/executor.py: a call with retries, timeout and fallback
--     Tools.Batch         tools/executor.py: execute_batch, execute_llm_batch
--     Tools.Policy        tools/policy/models.py, reliability.py, engine.py: data and scores
--     Tools.Policy.Choices
--                         tools/policy/engine.py: ToolPolicyEngine, its choices and decisions
--     Tools.Policy.Decide tools/policy/engine.py: decide, with its strategies
--   Executor              plan/executor.py: PlanExecutor
--     Executor.Step       one attempt at a step, with the fallback to other tools
--     Executor.Recovery   _run_step_with_recovery under RETRY, SKIP and REPLAN, _handle_replan
--     Executor.Loop       execute
--   Prelude               what the modelled code uses of Python: lists, dicts, sorted, str
--   Levels                graph/runtime/compiler/plan_compiler.py: _topological_levels
--   Compiler              graph/runtime/compiler/plan_compiler.py: compile
--   Replanning            plan/replanning_controller.py: data, and the snapshots of plan/state.py
--     Replanning.Apply    _try_apply_replan_steps and what it calls
--     Replanning.Handle   handle, _replan
--   AgentState            graph/runtime/agent_state.py, state_hash.py: the state of a run
--     AgentState.Delta    the changes between two states by key
--   ExecutionGraph        schemas/execution_graph.py: the record of a run
--   Versions              graph/runtime/state_versioning.py, schemas/state_versioning.py: commit,
--                         rollback, diff, forks, lineage
--   Merge                 graph/runtime/state_merge.py: MergeStrategy, merge_states
--   Engine                graph/runtime/core/graph.py, edge.py, parallel.py: the graph, its builders
--                         and the choice of the next node
--     Engine.Policy       graph/runtime/execution_policy.py: ExecutionPolicy
--     Engine.Node         graph/runtime/core/node.py and graph.py: a node is executed or replayed
--     Engine.Run          graph/runtime/core/graph.py: what a run keeps, and its events
--     Engine.Fanout       graph/runtime/core/graph.py, parallel.py: the branches and their join
--     Engine.Loop         graph/runtime/core/graph.py: astream, invoke
--   Tests                 samples, runs and instances of the theorems
--
-- The other modules below these hold lemmas and theorems and are named for what they prove. A
-- definition has the name of the function or method that it models, without a leading underscore;
-- a loop or a branch that is a definition of its own says in a comment which one it is.
--
-- How the parts interact. The planner's plan goes through repair_plan or normalize_plan and
-- validate. PlanState.from_plan makes the state; execute asks it for the next step, runs the step,
-- writes the result back and refreshes the plan's graph from it. Under REPLAN a failed step makes
-- the planner write the steps that are left anew. The tool policy chooses which of the registered
-- tools a step calls.
--
-- A graph is built from nodes, edges and fan-outs. astream executes a node, which commits a version
-- of the state after it and adds a record to the execution graph, and then takes the fan-out of
-- that node or the first edge that matches. A fan-out copies the state for each branch, and merges
-- the branches and their versions before the join node runs. A replay takes the outputs of nodes
-- from the records of an earlier run, by the hash of the state that went in. compile makes such a
-- graph of the levels of a plan.
--
-- How Python is modelled. A mutable object is a record, and a method that changes it returns the
-- new one. A method that may raise returns a `Result`; the state that an exception leaves behind is
-- not modelled. A dict is an association list in insertion order, a set that is only asked for
-- membership is a list. Text is compared by its code points, and the patterns of plan/repair.py
-- are alternatives of literal texts that ignore the case of ASCII letters. Step ids are natural
-- numbers: negative ids are outside the model. Tool outputs and arguments have a type `Json` that
-- nothing looks into.
--
-- What is a parameter. `Services` (Executor) stands for the objects that the executor is given: the
-- tool executor, the argument resolver, the planner, the tool policy engine and the context
-- compressor, with `World` as their state. Nothing is assumed of them. What they do to the tracer
-- and to the log is not modelled, nor is a ValidationError for a tool hint of spaces alone or for
-- arguments that are no dict.
--
-- A tool is a function of its arguments and the world, which also says how long it takes: the
-- timeout is compared with that. A TimeoutError that a tool raises itself keeps its own text. The
-- executor of plans takes the executor of tools as a parameter.
--
-- A snapshot of the state and the state may share objects: `Held` (Replanning) keeps them together
-- with a flag for each object that they share. What is written into a shared object is written into
-- both, and an assignment to an attribute ends the sharing. The controller's planner is a parameter.
--
-- The state of a run. The execution graph of a state is an object that a run and its states share,
-- so the state holds a reference to it, and `Graphs` holds the objects. A pydantic model stands for
-- what model_dump gives of it, which model_validate reads back. A changed key of a state is a key
-- whose values differ. `Outside` stands for the digest and the JSON text of a snapshot, for uuid4,
-- and for the functions that make JSON values. A node of a compiled graph reads the plan state from
-- its JSON and writes it back, by the functions of `StepParts` (Compiler). The branches of a
-- fan-out start in the order of the list. `next_turn` of `Outside` is the event loop: from the
-- world it says whether the next branch starts or which of those that have started ends, so that
-- all orders in which the branches can end are covered. What a node does after it has started is
-- one step, at its end: what nodes do to the world in between, by suspending, is not modelled.
--
-- The tool policy. `Texts` stands for str.lower and str.isalnum, and `Floats` for the numbers of the
-- scores with their operations and comparisons. The text of the reason is data.
--
-- Fuel. `execute_loop` takes fuel, one unit for each round, and answers `none` without it; the
-- depth-first search of the validator takes one unit for each nested call, and `search_cycle` gives
-- it one more than the number of distinct ids. `topological_levels` gives its loop one unit more
-- than there are ids, and each level takes one. `astream` has no fuel: max_iterations bounds its
-- rounds. `lineage` takes one unit for each version on the way back, and one more than there are
-- versions are enough where the versions are in order.
--
-- Not modelled: nodes that hold a subgraph, the runner, the replay debugger and the nodes of the
-- graph runtime; the resolver of arguments, the critic, the orchestrator and the compression of
-- context, whose work is done by a language model in large part; the rest of the repository (the
-- API, agents, memory, persistence, streaming, observability, evaluation, the tools' own code),
-- which is reached through a parameter or does not take part; and validate_raw, which parses JSON.
pub mod Prelude
pub mod Schema
pub mod Errors
pub mod State
pub mod Validator
pub mod Repair
pub mod GraphSchema
pub mod PlanGraph
pub mod Replanning
pub mod Tools
pub mod Levels
pub mod Executor
pub mod AgentState
pub mod Versions
pub mod ExecutionGraph
pub mod Merge
pub mod Compiler
pub mod Engine
pub mod Tests
