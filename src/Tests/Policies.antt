-- ===== src/Tests/Policies.antt =====
-- The tool policy on two registries. Scores are whole numbers here.
use trip_graph_agent_runtime.Prelude.{
  ℕ, ◌+◌, ◌-◌, ◌*◌, ◌≡◌, refl, inl, String, true, false, Option, none, some, [], ◌∷◌, All, ltb,
  str_eq, select,
}
use trip_graph_agent_runtime.Prelude.Names.{find}
use trip_graph_agent_runtime.Schema.{truthy}
use trip_graph_agent_runtime.Tools.{Tool, returned}
use trip_graph_agent_runtime.Tools.Registry.{has, get}
use trip_graph_agent_runtime.Tools.Policy.{
  ToolPolicyStrategy, deterministic, builtin_first, planner_hint_first, reliability_aware, Floats,
  family_or_unknown, starts, within, builtin_tool_for_family, mcp_tool_for_family, tool_family,
  tool_provider, get_provider, has_family, clamp, normalize_latency, score_of, score_tool_provider,
  named, family_value,
}
use trip_graph_agent_runtime.Tools.Policy.Choices.{ToolPolicyEngine, Texts, listed, infer_family}
use trip_graph_agent_runtime.Tools.Policy.Decide.{
  resolve_strategy, registered, disabled, provider_first, scored_choice, candidate, best, score_for,
  choice_or, by_reliability, apply_strategy, first_available, pick_available, with_hint, decided,
  family_of, decide,
}
use trip_graph_agent_runtime.Tools.Policy.Sound.{decide-selects, decide-overrides}

abbrev texts : Texts
texts = record { lower = λ text. text; is_word = λ c. ltb 64 c }

abbrev floats : Floats ℕ
floats = record {
  decimal = λ n k. n;
  plus = λ a b. a + b;
  minus = λ a b. a - b;
  times = λ a b. a * b;
  divided = λ a b. a;
  below = ltb;
  rounded = λ a. a;
}

abbrev tool : String → String × Tool String ℕ
tool name = (name, record { name = name; run = λ args runs. (returned "done", 1, runs) })

-- MCP is off; the builtin weather tool is missing.
abbrev mcp_only : ToolPolicyEngine String ℕ ℕ
mcp_only = record {
  registry = tool "mcp_weather" ∷ tool "budget" ∷ [];
  strategy = deterministic;
  mcp_enabled = false;
  mcp_prefix = "mcp_";
  reliability_stats = [];
  weights = (7, 2, 1);
}

-- Both weather tools, MCP on, and statistics in which the MCP tool succeeds more often.
abbrev both_tools : ToolPolicyEngine String ℕ ℕ
both_tools = record mcp_only {
  registry = tool "weather" ∷ tool "mcp_weather" ∷ [];
  mcp_enabled = true;
  reliability_stats =
      (
        "weather",
        ("builtin", record { success_rate = 4; avg_latency_ms = 0; fallback_rate = 1 })
            ∷ ("mcp", record { success_rate = 9; avg_latency_ms = 0; fallback_rate = 1 })
            ∷ [],
      )
      ∷ [];
}

abbrev selected :
    ToolPolicyEngine String ℕ ℕ → Option String → String → ToolPolicyStrategy → Option String
selected engine hint task strategy =
    (decide texts floats engine hint task "" (some strategy)).selected_tool

-- A hint selects the MCP tool although MCP is off; a task about the budget finds the builtin tool;
-- the statistics choose the MCP tool.
decide_runs :
    (selected mcp_only (some "mcp_weather") "" builtin_first ≡ some "mcp_weather")
    × (selected mcp_only none "plan the budget" builtin_first ≡ some "budget")
    × (selected both_tools (some "weather") "" reliability_aware ≡ some "mcp_weather")
unfolding decide resolve_strategy family_of infer_family within starts tool_family family_or_unknown
    find truthy apply_strategy provider_first by_reliability best scored_choice candidate score_for
    named score_tool_provider get_provider score_of normalize_latency clamp choice_or has_family
    family_value listed disabled builtin_tool_for_family mcp_tool_for_family pick_available
    first_available with_hint decided tool_provider select has get
decide_runs = (refl, refl, refl)

decide-selects_example :
    ((n : String)
      → (decide texts floats mcp_only (some "mcp_weather") "" "" (some builtin_first)).selected_tool
        ≡ some n
      → (registered texts floats mcp_only n ≡ true)
        × (disabled texts floats mcp_only n ≡ true → some "mcp_weather" ≡ some n)
        × All
            (λ name. (registered texts floats mcp_only name ≡ true) × (str_eq name n ≡ false))
            (decide texts floats mcp_only
              (some "mcp_weather")
              ""
              ""
              (some builtin_first)).fallback_candidates)
    × ((hint : String)
        → (decide texts floats mcp_only (some hint) "" "" (some builtin_first)).selected_tool ≡ none
        → truthy (some hint) ≡ true
        → registered texts floats mcp_only hint ≡ false)
decide-selects_example =
    decide-selects texts floats mcp_only (some "mcp_weather") "" "" (some builtin_first)

decide-overrides_example :
    (mcp_only.strategy ≡ deterministic
      → decide texts floats mcp_only (some "budget") "" "" none
        ≡ decide texts floats mcp_only (some "budget") "" "" (some builtin_first))
    × (decide texts floats mcp_only (some "budget") "" "" (some deterministic)
        ≡ record (decide texts floats mcp_only (some "budget") "" "" (some planner_hint_first)) {
          policy_name = deterministic;
        })
decide-overrides_example =
    decide-overrides texts floats mcp_only deterministic (some "budget") "" "" (inl refl)
