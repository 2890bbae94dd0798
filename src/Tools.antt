-- ===== src/Tools.antt =====
-- tools/: tools, their calls and the records of the calls. `Json` is the type of arguments and outputs,
-- `World` the state of everything that a tool may touch. A call id is data: the id that was given, and
-- the suffixes that retries and fallbacks add. Latencies and timestamps are not modelled.
pub mod Registry
pub mod Call
pub mod Attempts
pub mod Fallback
pub mod Batch
pub mod Policy
use trip_graph_agent_runtime.Prelude.{ℕ, suc, String, Bool, Option, List}

pub data CallId : Type 0 where
  given : String → CallId
  retry_of : CallId → ℕ → CallId
  fallback_of : CallId → CallId

-- What an attempt at a call may raise: the tool's own exception, the timeout, or an unknown name.
data ToolError : Type 0 where
  raised : String → ToolError
  timed_out : String → ℕ → ToolError
  unknown_tool : String → ToolError

module _ (Json : Type 0) where
  -- class ToolObservation(BaseModel)
  pub record ToolObservation : Type 0 where
    pub tool : String
    pub args : Json
    pub output : Json
    pub success : Bool
    pub error : Option String

  -- class ToolCall(BaseModel)
  pub record ToolCall : Type 0 where
    pub call_id : CallId
    pub name : String
    pub arguments : Json

  -- class ToolCallResult(BaseModel)
  record ToolCallResult : Type 0 where
    pub call_id : CallId
    pub name : String
    pub output : Json
    pub success : Bool
    pub error : Option String

  -- class ToolTraceRecord(BaseModel)
  record ToolTraceRecord : Type 0 where
    pub call_id : CallId
    pub tool_name : String
    pub input_args : Json
    pub output : Json
    pub success : Bool
    pub error : Option String
    pub parent_id : Option CallId
    pub attempt : ℕ
    pub max_attempts : ℕ
    pub is_fallback : Bool
    pub original_tool : Option String

  -- How BaseTool.run ends.
  pub data Ran : Type 0 where
    returned : Json → Ran
    failed : String → Ran

-- class BaseTool: its name, and its run with the time that it takes
pub record Tool (Json World : Type 0) : Type 0 where
  pub name : String
  pub run : Json → World → Ran Json × ℕ × World

-- class ToolReliabilityPolicy(BaseModel)
pub record ToolReliabilityPolicy : Type 0 where
  pub max_retries : ℕ
  pub timeout_sec : Option ℕ
  pub fallback_tools : List (String × String)

unfoldable pub max_attempts : ToolReliabilityPolicy → ℕ
max_attempts p = suc p.max_retries
