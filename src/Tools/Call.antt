-- ===== src/Tools/Call.antt =====
-- tools/executor.py: ToolExecutor, with the retries, the timeout and the fallback of a call, and the
-- batches. The tracer is the list of its records. The text of an exception is the parameter `text_of`.
use trip_graph_agent_runtime.Prelude.{
  ℕ, zero, suc, ◌+◌, String, Bool, true, false, Option, none, some, List, [], ◌∷◌, ◌++◌, ltb, ◌==◌,
  if◌then◌else◌, str_eq,
}
use trip_graph_agent_runtime.Schema.{truthy}
use trip_graph_agent_runtime.Tools.{
  CallId, retry_of, fallback_of, ToolError, raised, timed_out, unknown_tool, ToolObservation,
  ToolCall, ToolCallResult, ToolTraceRecord, returned, failed, Tool, ToolReliabilityPolicy,
  max_attempts,
}
use trip_graph_agent_runtime.Tools.Registry.{ToolTable, get}

-- The answer of a call inside the executor: an output, or the exception that it catches.
pub data Answer (Json : Type 0) : Type 0 where
  answered : Json → Answer Json
  stopped : ToolError → Answer Json

-- fallback_tools.get(requested_tool)
unfoldable pub fallback_tool : String → List (String × String) → Option String
fallback_tool name [] = none
fallback_tool name ((key, other) ∷ rest) =
    if str_eq key name then some other else fallback_tool name rest

-- call_id if attempt == 1 else f"{call_id}-retry-{attempt}"
unfoldable pub attempt_id : CallId → ℕ → CallId
attempt_id call_id attempt = if attempt == 1 then call_id else retry_of call_id attempt

-- What the executor is made of: the registry, the policy, None, and str(exc).
pub record ToolExecutor (Json World : Type 0) : Type 0 where
  pub registry : ToolTable Json World
  pub reliability : ToolReliabilityPolicy
  pub null : Json
  pub text_of : ToolError → String

-- The state that calls change: what the tools touch, and the tracer's records.
pub record Session (Json World : Type 0) : Type 0 where
  pub world : World
  pub records : List (ToolTraceRecord Json)

-- What stays the same over the attempts at one call of one tool.
pub record Call (Json : Type 0) : Type 0 where
  pub tool_name : String
  pub args : Json
  pub call_id : CallId
  pub parent_id : Option CallId
  pub is_fallback : Bool
  pub original_tool : Option String

-- ToolCallResult(...), of the call and its observation
unfoldable pub call_result :
    {Json : Type 0} → ToolCall Json → ToolObservation Json → ToolCallResult Json
call_result call obs = record {
  call_id = call.call_id;
  name = call.name;
  output = obs.output;
  success = obs.success;
  error = obs.error;
}

module _ {Json World : Type 0} where
  -- _run_with_timeout. A TimeoutError that the tool raises itself keeps its own text here.
  unfoldable pub run_with_timeout : Option ℕ → Tool Json World → Json → World → Answer Json × World
  run_with_timeout timeout tool args world =
      let (ran, took, world') = tool.run args world in
      let answer : Answer Json = elim ran [
        | returned out ↦ answered out
        | failed e ↦ stopped (raised e)
      ] in
      elim timeout [
        | none ↦ (answer, world')
        | some limit ↦
            if ltb limit took
            then (stopped (timed_out tool.name limit), world')
            else (answer, world')
      ]

module _ {Json World : Type 0} (ex : ToolExecutor Json World) where
  -- The body of the try block: look the tool up and run it.
  unfoldable pub run_tool : Call Json → World → Answer Json × World
  unfolding run_with_timeout
  run_tool call world = elim (get call.tool_name ex.registry) [
    | none ↦ (stopped (unknown_tool call.tool_name), world)
    | some tool ↦ run_with_timeout ex.reliability.timeout_sec tool call.args world
  ]

  -- The record that an attempt leaves.
  unfoldable pub trace_record : Call Json → ℕ → Answer Json → ToolTraceRecord Json
  unfolding attempt_id
  trace_record call attempt answer = record {
    call_id = attempt_id call.call_id attempt;
    tool_name = call.tool_name;
    input_args = call.args;
    output = elim answer [ answered out ↦ out | stopped e ↦ ex.null ];
    success = elim answer [ answered out ↦ true | stopped e ↦ false ];
    error = elim answer [ answered out ↦ none | stopped e ↦ some (ex.text_of e) ];
    parent_id = call.parent_id;
    attempt = attempt;
    max_attempts = max_attempts ex.reliability;
    is_fallback = call.is_fallback;
    original_tool = call.original_tool;
  }

  -- The session once an attempt has its answer.
  unfoldable pub recorded :
      Call Json → ℕ → Answer Json → World → Session Json World → Session Json World
  unfolding trace_record
  recorded call attempt answer world s = record {
    world = world;
    records = s.records ++ (trace_record call attempt answer ∷ []);
  }

  -- The end of a round: the observation of an output, or the next round with the error's text.
  unfoldable pub next_attempt :
      (Option String → Session Json World → ToolObservation Json × Session Json World)
      → Call Json
      → Answer Json
      → Session Json World
      → ToolObservation Json × Session Json World
  next_attempt again call (answered out) s = (
    record { tool = call.tool_name; args = call.args; output = out; success = true; error = none },
    s,
  )
  next_attempt again call (stopped e) s = again (some (ex.text_of e)) s

  -- The loop of _try_with_retries: `left` rounds are left, and `attempt` is the number of this one.
  unfoldable pub try_from :
      ℕ
      → ℕ
      → Call Json
      → Option String
      → Session Json World
      → ToolObservation Json × Session Json World
  unfolding recorded next_attempt
  try_from zero attempt call last_error s = (
    record {
      tool = call.tool_name;
      args = call.args;
      output = ex.null;
      success = false;
      error = last_error;
    },
    s,
  )
  try_from (suc left) attempt call last_error s =
      let (answer, world) = run_tool call s.world in
      next_attempt (try_from left (attempt + 1) call) call answer
        (recorded call attempt answer world s)

  -- _try_with_retries
  unfoldable pub try_with_retries :
      Call Json → Session Json World → ToolObservation Json × Session Json World
  unfolding try_from
  try_with_retries call s = try_from (max_attempts ex.reliability) 1 call none s

  -- _execute_with_reliability, where the call is a fallback
  unfoldable pub execute_fallback :
      Call Json → String → Session Json World → ToolObservation Json × Session Json World
  unfolding try_with_retries
  execute_fallback call requested s =
      let (obs, s') = try_with_retries call s in (record obs { tool = requested }, s')

  -- _execute_with_reliability, where the call is the first one
  unfoldable pub execute_with_reliability :
      Call Json → Session Json World → ToolObservation Json × Session Json World
  unfolding execute_fallback fallback_tool
  execute_with_reliability call s =
      let requested = call.tool_name in
      let (obs, s') = try_with_retries call s in
      let fallback = fallback_tool requested ex.reliability.fallback_tools in
      let final : ToolObservation Json × Session Json World =
        (record obs { tool = requested }, s') in
      if obs.success
      then final
      else if truthy fallback
      then elim fallback [
        | none ↦ final
        | some name ↦
            execute_fallback
              (record {
                tool_name = name;
                args = call.args;
                call_id = fallback_of call.call_id;
                parent_id = call.parent_id;
                is_fallback = true;
                original_tool = some requested;
              })
              requested s'
      ]
      else final

  -- execute_llm_call, for a call that is parsed and has an id
  pub execute_llm_call :
      String
      → Json
      → CallId
      → Option CallId
      → Session Json World
      → ToolObservation Json × Session Json World
  unfolding execute_with_reliability
  execute_llm_call tool args call_id parent_id s =
      execute_with_reliability
        (record {
          tool_name = tool;
          args = args;
          call_id = call_id;
          parent_id = parent_id;
          is_fallback = false;
          original_tool = none;
        })
        s

  -- execute
  unfoldable pub execute :
      ToolCall Json → Session Json World → ToolCallResult Json × Session Json World
  unfolding execute_llm_call call_result
  execute call s =
      let (obs, s') = execute_llm_call call.name call.arguments call.call_id none s in
      (call_result call obs, s')
