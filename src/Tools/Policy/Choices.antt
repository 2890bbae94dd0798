-- ===== src/Tools/Policy/Choices.antt =====
-- tools/policy/engine.py: the engine, what it chooses and decides, and the functions on texts.
use Prim.Native.String.{◌++◌ as text_append}
use trip_graph_agent_runtime.Prelude.{
  ℕ, String, Bool, true, false, ◌||◌, Option, none, some, List, [], ◌∷◌, if◌then◌else◌,
}
use trip_graph_agent_runtime.Schema.{truthy}
use trip_graph_agent_runtime.Tools.Registry.{ToolTable}
use trip_graph_agent_runtime.Tools.Policy.{
  ToolFamily, weather, map_family, budget, echo, unknown_family, ToolProvider, builtin, mcp,
  unknown_provider, ToolPolicyStrategy, planner_hint_first, builtin_first, mcp_first, deterministic,
  cost_aware, reliability_aware, within, ReliabilityScore, ToolReliabilityStats,
}

-- Why a tool was chosen: one constructor for each text, with the values it prints.
pub data Reason (Float : Type 0) : Type 0 where
  respects_hint : String → Reason Float
  mentions_mcp mentions_builtin nothing_known : Reason Float
  family_default : ToolFamily → Reason Float
  prefers_builtin prefers_mcp stats_missing no_scored_providers : Reason Float
  disabled_fallback : Reason Float → String → Reason Float
  disabled_alone : Reason Float → Reason Float
  scored : ToolFamily → ReliabilityScore Float → Option (ReliabilityScore Float) → Reason Float
  only_available : Reason Float → String → Reason Float

-- The tuple that each strategy returns.
pub record Choice (Float : Type 0) : Type 0 where
  pub preferred : Option String
  pub fallbacks : List String
  pub reason : Reason Float
  pub confidence : Float

-- class ToolPolicyDecision, without the latency
pub record ToolPolicyDecision (Float : Type 0) : Type 0 where
  pub original_tool_hint : Option String
  pub selected_tool : Option String
  pub selected_provider : ToolProvider
  pub family : ToolFamily
  pub policy_name : ToolPolicyStrategy
  pub confidence : Float
  pub fallback_candidates : List String
  pub reason : Reason Float

-- class ToolPolicyEngine
pub record ToolPolicyEngine (Json World Float : Type 0) : Type 0 where
  pub registry : ToolTable Json World
  pub strategy : ToolPolicyStrategy
  pub mcp_enabled : Bool
  pub mcp_prefix : String
  pub reliability_stats : ToolReliabilityStats Float
  pub weights : Float × Float × Float

-- str.lower, and the characters of \w
pub record Texts : Type 0 where
  pub lower : String → String
  pub is_word : ℕ → Bool

-- [name] if name else []
unfoldable pub listed : Option String → List String
unfolding truthy
listed none = []
listed (some name) = if truthy (some name) then name ∷ [] else []

abbrev pub text_or_empty : Option String → String
text_or_empty none = ""
text_or_empty (some text) = text

-- query or task
abbrev pub query_or : String → String → String
query_or query task = if truthy (some query) then query else task

unfoldable pub resolve_own : ToolPolicyStrategy → ToolPolicyStrategy
resolve_own cost_aware = builtin_first
resolve_own deterministic = builtin_first
resolve_own planner_hint_first = planner_hint_first
resolve_own builtin_first = builtin_first
resolve_own mcp_first = mcp_first
resolve_own reliability_aware = reliability_aware

unfoldable pub infer_family : Texts → String → String → ToolFamily
unfolding within
infer_family texts task query =
    let text = texts.lower (text_append task (text_append " " query)) in
    if within "天气" text || within "weather" text || within "气温" text
    then weather
    else if within "路线" text
        || within "地图" text
        || within "map" text
        || within "导航" text
        || within "景点" text
    then map_family
    else if within "预算" text || within "budget" text || within "费用" text || within "花费" text
    then budget
    else if within "echo" text
    then echo
    else unknown_family

unfoldable pub is_builtin : ToolProvider → Bool
is_builtin builtin = true
is_builtin mcp = false
is_builtin unknown_provider = false

unfoldable pub action_between : ToolProvider → ToolProvider → String
action_between mcp builtin = "mcp_to_builtin_fallback"
action_between builtin mcp = "builtin_to_mcp_fallback"
action_between mcp mcp = "tool_policy_fallback"
action_between mcp unknown_provider = "tool_policy_fallback"
action_between builtin builtin = "tool_policy_fallback"
action_between builtin unknown_provider = "tool_policy_fallback"
action_between unknown_provider other = "tool_policy_fallback"
