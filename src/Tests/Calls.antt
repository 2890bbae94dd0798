-- ===== src/Tests/Calls.antt =====
-- The tool executor on a registry with a tool that fails twice and a tool that works.
use trip_graph_agent_runtime.Prelude.{
  ℕ, suc, ◌≡◌, refl, String, Bool, true, false, none, some, List, [], ◌∷◌, map, ltb, str_eq,
}
use trip_graph_agent_runtime.Errors.{ok, raise, value_error}
use trip_graph_agent_runtime.Schema.{truthy}
use trip_graph_agent_runtime.Tools.{given, ToolCall, Ran, returned, failed, Tool, max_attempts}
use trip_graph_agent_runtime.Tools.Registry.{ToolTable, get, has, register, register-get}
use trip_graph_agent_runtime.Tools.Call.{
  ToolExecutor, Session, Call, run_with_timeout, run_tool, trace_record, recorded, next_attempt,
  try_from, try_with_retries, fallback_tool, execute_fallback, execute_with_reliability, attempt_id,
}
use trip_graph_agent_runtime.Tools.Attempts.{Tried, try_with_retries-Tried}
use trip_graph_agent_runtime.Tools.Fallback.{Called, execute_with_reliability-Called}
use trip_graph_agent_runtime.Tools.Batch.{BatchJson, execute_batch, IsBatch, execute_batch-IsBatch}

abbrev if_done : Bool → Ran String
if_done true = returned "sunny"
if_done false = failed "busy"

-- The world counts the runs; the tool fails until it has run twice.
abbrev weather_tool : Tool String ℕ
weather_tool = record { name = "weather"; run = λ args runs. (if_done (ltb 1 runs), 1, suc runs) }

-- This one takes longer than the timeout.
abbrev slow_tool : Tool String ℕ
slow_tool = record { name = "map"; run = λ args runs. (returned "route", 9, suc runs) }

abbrev executor : ToolExecutor String ℕ
executor = record {
  registry = ("weather", weather_tool) ∷ ("map", slow_tool) ∷ [];
  reliability = record {
    max_retries = 1;
    timeout_sec = some 5;
    fallback_tools = ("map", "weather") ∷ [];
  };
  null = "";
  text_of = λ e. "error";
}

abbrev pub fresh : Session String ℕ
fresh = record { world = 0; records = [] }

abbrev call_of : String → Call String
call_of name = record {
  tool_name = name;
  args = "";
  call_id = given "c";
  parent_id = none;
  is_fallback = false;
  original_tool = none;
}

-- Two attempts at the slow tool time out, and the fallback works at its first attempt.
execute-map :
    map {B = String × ℕ × Bool}
      (λ e. (e.tool_name, e.attempt, e.success))
      (execute_with_reliability executor (call_of "map") fresh).1.records
    ≡ ("map", 1, false) ∷ ("map", 2, false) ∷ ("weather", 1, true) ∷ []
unfolding execute_with_reliability execute_fallback fallback_tool try_with_retries try_from recorded
    next_attempt trace_record run_tool run_with_timeout get max_attempts attempt_id truthy
execute-map = refl

try_with_retries-Tried_example :
    Tried executor 1 1 fresh (try_with_retries executor (call_of "weather") fresh)
try_with_retries-Tried_example = try_with_retries-Tried executor (call_of "weather") fresh

execute_with_reliability-Called_example :
    Called executor "map" fresh (execute_with_reliability executor (call_of "map") fresh)
execute_with_reliability-Called_example =
    execute_with_reliability-Called executor (call_of "map") fresh

abbrev pub json : BatchJson String
json = record {
  tools = λ l. "";
  results = λ l. "";
  count = λ n. "";
  observations = λ n. "";
  blank_text = λ name. "";
}

abbrev pub calls : List (ToolCall String)
calls =
    record { call_id = given "a"; name = "map"; arguments = "" }
    ∷ record { call_id = given "b"; name = "bus"; arguments = "" }
    ∷ []

execute_batch-IsBatch_example :
    IsBatch executor json
      (given "batch")
      calls
      fresh
      (execute_batch executor json (given "batch") calls fresh).0
execute_batch-IsBatch_example = execute_batch-IsBatch executor json (given "batch") calls fresh

register-get_example :
    (has "map" (("weather", weather_tool) ∷ []) ≡ true
      → register slow_tool (("weather", weather_tool) ∷ []) ≡ raise (value_error "map"))
    × (has "map" (("weather", weather_tool) ∷ []) ≡ false
        → (added : ToolTable String ℕ) × (register slow_tool (("weather", weather_tool) ∷ [])
            ≡ ok added)
          × (get "map" added ≡ some slow_tool)
          × ((name : String)
              → str_eq "map" name ≡ false
              → get name added ≡ get name (("weather", weather_tool) ∷ [])))
register-get_example = register-get slow_tool (("weather", weather_tool) ∷ [])
