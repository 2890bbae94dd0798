-- ===== src/Tests/Samples.antt =====
-- Sample plans, states and collaborators for the tests.
use trip_graph_agent_runtime.Prelude.{ℕ, suc, String, true, false, none, some, List, [], ◌∷◌, leb}
use trip_graph_agent_runtime.Schema.{pending, completed, PlanStep, Plan, FailurePolicy}
use trip_graph_agent_runtime.State.{PlanState}
use trip_graph_agent_runtime.PlanGraph.{PlanGraph}
use trip_graph_agent_runtime.Executor.{Context, Services, ExecutorConfig}

abbrev pub weather_step : PlanStep
weather_step = record {
  id = 1;
  task = "ask the weather";
  tool_hint = some "weather";
  dependency = none;
}

abbrev pub route_step : PlanStep
route_step = record {
  id = 2;
  task = "plan the route";
  tool_hint = none;
  dependency = some (1 ∷ []);
}

abbrev pub trip : Plan
trip = record { goal = "trip"; steps = weather_step ∷ route_step ∷ [] }

-- A plan as a model may write it: ids out of order, a dependency on a later step and on no step.
abbrev pub untidy : Plan
untidy = record {
  goal = "trip";
  steps =
      record {
        id = 7;
        task = "plan the route";
        tool_hint = some "map";
        dependency = some (3 ∷ 9 ∷ []);
      }
      ∷ record {
        id = 3;
        task = "ask the weather";
        tool_hint = some "weather";
        dependency = some (7 ∷ []);
      }
      ∷ [];
}

-- Steps that depend on each other.
abbrev pub cyclic_steps : List PlanStep
cyclic_steps =
    record { id = 1; task = "a"; tool_hint = none; dependency = some (2 ∷ []) }
    ∷ record { id = 2; task = "b"; tool_hint = none; dependency = some (1 ∷ []) }
    ∷ []

abbrev pub empty_context : Context String
empty_context = record {
  values = [];
  step_outputs = [];
  tool_outputs = [];
  tool_policy_decisions = [];
}

-- Under way: the first step is COMPLETED.
abbrev pub under_way : PlanState String (Context String)
under_way = record {
  plan = trip;
  session_id = "s";
  current_step = none;
  completed_steps = 1 ∷ [];
  step_results = [];
  global_context = empty_context;
  execution_trace = [];
  step_status = (1, completed) ∷ (2, pending) ∷ [];
}

-- Collaborators whose world counts the tool calls: the first call fails and the later ones succeed.
abbrev pub demo : Services String
demo = record {
  World = ℕ;
  null = "";
  completed_message = λ task. task;
  resolve = λ step context. some "args";
  has_tool = λ tool. true;
  execute_llm_call = λ fallback tool args step attempt calls. (
    record {
      tool = tool;
      args = args;
      output = "sunny";
      success = leb 1 calls;
      error = some "timeout";
    },
    suc calls,
  );
  recovery_action_for_fallback = λ failed_tool tool. "fallback";
  replan_unfinished_steps = λ s step error calls. (none, calls);
  maybe_compress = λ s calls. (some s.global_context, calls);
}

abbrev pub config_for : FailurePolicy → ExecutorConfig
config_for policy = record {
  failure_config = record {
    failure_policy = policy;
    step_max_retries = 1;
    max_replan_attempts = 1;
  };
  tool_policy_enabled = false;
  tool_policy_mcp_fallback_enabled = false;
  has_policy_engine = false;
  has_planner = false;
  validator = none;
}

-- A graph that knows no step yet.
abbrev pub no_graph : PlanGraph
no_graph = record {
  goal = "";
  session_id = "";
  steps = [];
  status = [];
  errors = [];
  edges = [];
  current_step = none;
}
