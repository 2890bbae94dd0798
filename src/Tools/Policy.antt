-- ===== src/Tools/Policy.antt =====
-- tools/policy/models.py, reliability.py and engine.py: which tool a step is given, the builtin one
-- or that of an MCP server. Numbers with a fraction, `str.lower` and `str.isalnum` are parameters.
pub mod Choices
pub mod Decide
pub mod Sound
use Prim.Native.Char.{code}
use trip_graph_agent_runtime.Prelude.{
  ◌==◌, ℕ, String, Bool, true, false, not, ◌&&◌, ◌||◌, Option, none, some, List, [], ◌∷◌, str_eq,
  if◌then◌else◌,
}
use trip_graph_agent_runtime.Prelude.Names.{Names, find}
use trip_graph_agent_runtime.Schema.{truthy}

-- class ToolFamily(StrEnum)
pub data ToolFamily : Type 0 where
  weather map_family budget echo unknown_family : ToolFamily

-- class ToolProvider(StrEnum)
pub data ToolProvider : Type 0 where
  builtin mcp unknown_provider : ToolProvider

-- class ToolPolicyStrategy(StrEnum)
pub data ToolPolicyStrategy : Type 0 where
  planner_hint_first builtin_first mcp_first deterministic cost_aware reliability_aware :
      ToolPolicyStrategy

unfoldable pub family_value : ToolFamily → String
family_value weather = "weather"
family_value map_family = "map"
family_value budget = "budget"
family_value echo = "echo"
family_value unknown_family = "unknown"

abbrev pub is_unknown : ToolFamily → Bool
is_unknown unknown_family = true
is_unknown _ = false

-- FAMILY_BY_TOOL
abbrev family_by_tool : Names ToolFamily
family_by_tool =
    ("weather", weather)
    ∷ ("map", map_family)
    ∷ ("budget", budget)
    ∷ ("echo", echo)
    ∷ ("mcp_weather", weather)
    ∷ ("mcp_map", map_family)
    ∷ ("mcp_budget", budget)
    ∷ []

unfoldable pub family_or_unknown : Option ToolFamily → ToolFamily
family_or_unknown none = unknown_family
family_or_unknown (some family) = family

-- name.startswith(prefix)
unfoldable pub starts : String → String → Bool
starts String.[] name = true
starts (String.◌∷◌ c prefix) String.[] = false
starts (String.◌∷◌ c prefix) (String.◌∷◌ d name) = code c == code d && starts prefix name

-- part in text
unfoldable pub within : String → String → Bool
unfolding starts
within part String.[] = starts part String.[]
within part (String.◌∷◌ c text) = starts part (String.◌∷◌ c text) || within part text

-- BUILTIN_BY_FAMILY and MCP_BY_FAMILY, which ignores the prefix
unfoldable pub builtin_tool_for_family : ToolFamily → Option String
builtin_tool_for_family weather = some "weather"
builtin_tool_for_family map_family = some "map"
builtin_tool_for_family budget = some "budget"
builtin_tool_for_family echo = some "echo"
builtin_tool_for_family unknown_family = none

unfoldable pub mcp_tool_for_family : ToolFamily → Option String
mcp_tool_for_family weather = some "mcp_weather"
mcp_tool_for_family map_family = some "mcp_map"
mcp_tool_for_family budget = some "mcp_budget"
mcp_tool_for_family echo = none
mcp_tool_for_family unknown_family = none

module _ (lower : String → String) where
  unfoldable pub tool_family : Option String → ToolFamily
  unfolding truthy find family_or_unknown
  tool_family none = unknown_family
  tool_family (some name) =
      if truthy (some name)
      then family_or_unknown (find (lower name) family_by_tool)
      else unknown_family

  unfoldable pub tool_provider : Option String → ToolProvider
  unfolding truthy starts
  tool_provider none = unknown_provider
  tool_provider (some name) =
      if not (truthy (some name))
      then unknown_provider
      else if starts "mcp_" (lower name)
      then mcp
      else if str_eq (lower name) "weather"
          || str_eq (lower name) "map"
          || str_eq (lower name) "budget"
          || str_eq (lower name) "echo"
      then builtin
      else unknown_provider

-- Python's float, as far as the scores use it; `decimal n k` is n / 10^k.
pub record Floats (Float : Type 0) : Type 0 where
  pub decimal : ℕ → ℕ → Float
  pub plus : Float → Float → Float
  pub minus : Float → Float → Float
  pub times : Float → Float → Float
  pub divided : Float → Float → Float
  pub below : Float → Float → Bool
  pub rounded : Float → Float

module _ (Float : Type 0) where
  -- class ToolProviderReliability
  pub record ToolProviderReliability : Type 0 where
    pub success_rate : Float
    pub avg_latency_ms : Float
    pub fallback_rate : Float

  -- class ReliabilityScore
  pub record ReliabilityScore : Type 0 where
    pub provider : String
    pub tool_name : Option String
    pub score : Float
    pub success_rate : Float
    pub normalized_latency : Float
    pub fallback_rate : Float

  -- class ToolReliabilityStats: by family, then by provider
  abbrev pub ToolReliabilityStats : Type 0
  ToolReliabilityStats = Names (Names ToolProviderReliability)

module _ {Float : Type 0} where
  unfoldable pub get_provider :
      String → String → ToolReliabilityStats Float → Option (ToolProviderReliability Float)
  unfolding find
  get_provider family provider stats = elim (find family stats) [
    | none ↦ none
    | some providers ↦ find provider providers
  ]

  -- The family is there, and has a provider.
  unfoldable pub has_family : String → ToolReliabilityStats Float → Bool
  unfolding find
  has_family family stats = elim (find family stats) [
    | none ↦ false
    | some [] ↦ false
    | some (p ∷ rest) ↦ true
  ]

  module _ (floats : Floats Float) where
    open floats use {decimal, plus, minus, times, divided, below, rounded}

    -- min(max(x, low), high)
    unfoldable pub clamp : Float → Float → Float → Float
    clamp low high x =
        let raised = if below x low then low else x in if below high raised then high else raised

    unfoldable pub normalize_latency : Float → Float
    unfolding clamp
    normalize_latency avg_latency_ms =
        clamp (decimal 0 0) (decimal 1 0) (divided avg_latency_ms (decimal 1000 0))

    -- The weights of success, latency and fallback.
    unfoldable pub score_of :
        String → ToolProviderReliability Float → Float × Float × Float → ReliabilityScore Float
    unfolding normalize_latency
    score_of provider entry (success, latency, fallback) =
        let norm = normalize_latency entry.avg_latency_ms in
        record {
          provider = provider;
          tool_name = none;
          score = rounded (
              minus (minus (times entry.success_rate success) (times norm latency))
                (times entry.fallback_rate fallback));
          success_rate = entry.success_rate;
          normalized_latency = rounded norm;
          fallback_rate = entry.fallback_rate;
        }

    unfoldable pub score_tool_provider :
        String
        → String
        → ToolReliabilityStats Float
        → Float × Float × Float
        → Option (ReliabilityScore Float)
    unfolding get_provider score_of
    score_tool_provider family provider stats weights = elim (get_provider family provider stats) [
      | none ↦ none
      | some entry ↦ some (score_of provider entry weights)
    ]

    -- compare_providers_for_family, for one provider: its score, with the name of its tool
    unfoldable pub named :
        Option (ReliabilityScore Float) → Option String → Option (ReliabilityScore Float)
    named none tool = none
    named (some score) tool =
        if truthy tool then some (record score { tool_name = tool }) else some score
