-- ===== src/Tools/Policy/Decide.antt =====
-- tools/policy/engine.py: ToolPolicyEngine.decide and the strategies.
use trip_graph_agent_runtime.Prelude.{
  String, Bool, false, not, ◌&&◌, ◌||◌, Option, none, some, List, [], ◌∷◌, str_eq, if◌then◌else◌,
  select,
}
use trip_graph_agent_runtime.Prelude.Text.{codes, search_any, search_word}
use trip_graph_agent_runtime.Schema.{truthy}
use trip_graph_agent_runtime.Tools.Registry.{has}
use trip_graph_agent_runtime.Tools.Policy.{
  ToolFamily, unknown_provider, ToolPolicyStrategy, planner_hint_first, builtin_first, mcp_first,
  deterministic, cost_aware, reliability_aware, family_value, is_unknown, tool_family,
  tool_provider, starts, builtin_tool_for_family, mcp_tool_for_family, Floats, ReliabilityScore,
  has_family, score_tool_provider, named,
}
use trip_graph_agent_runtime.Tools.Policy.Choices.{
  Reason, Choice, ToolPolicyDecision, ToolPolicyEngine, Texts, listed, text_or_empty, query_or,
  resolve_own, infer_family, is_builtin, action_between, respects_hint, mentions_mcp,
  mentions_builtin, nothing_known, family_default, prefers_builtin, prefers_mcp, stats_missing,
  no_scored_providers, disabled_fallback, disabled_alone, scored, only_available,
}

module _ {Json World Float : Type 0} (texts : Texts) (floats : Floats Float)
    (engine : ToolPolicyEngine Json World Float) where
  open floats use {decimal, plus, times, below}

  unfoldable pub resolve_strategy : Option ToolPolicyStrategy → ToolPolicyStrategy
  unfolding resolve_own
  resolve_strategy none = resolve_own engine.strategy
  resolve_strategy (some override) = override

  -- The name is registered; self._registry.has(name)
  abbrev pub registered : String → Bool
  registered name = has name engine.registry

  -- name.startswith(self._mcp_prefix) and not self._mcp_enabled
  unfoldable pub disabled : String → Bool
  unfolding starts
  disabled name = starts engine.mcp_prefix name && not engine.mcp_enabled

  unfoldable pub provider_first : Option String → Option String → Reason Float → Choice Float
  unfolding listed disabled
  provider_first preferred fallback reason =
      if truthy preferred && disabled (text_or_empty preferred)
      then if truthy fallback
        then record {
          preferred = fallback;
          fallbacks = [];
          reason = disabled_fallback reason (text_or_empty fallback);
          confidence = decimal 7 1;
        }
        else record {
          preferred = none;
          fallbacks = [];
          reason = disabled_alone reason;
          confidence = decimal 0 0;
        }
      else record {
        preferred = preferred;
        fallbacks = listed fallback;
        reason = reason;
        confidence = decimal 85 2;
      }

  abbrev chosen : Option String → Option String → Reason Float → Float → Choice Float
  chosen preferred fallback reason confidence = record {
    preferred = preferred;
    fallbacks = listed fallback;
    reason = reason;
    confidence = confidence;
  }

  -- The branches of _planner_hint_first for a step without a hint that is registered.
  unfoldable pub without_hint :
      Option String → ToolFamily → Option String → Option String → String → Choice Float
  unfolding listed search_any search_word
  without_hint tool_hint family builtin_tool mcp_tool text =
      if search_word texts.is_word false (codes "mcp") (codes text)
      then chosen mcp_tool builtin_tool mentions_mcp (decimal 75 2)
      else if search_any ("本地" ∷ "builtin" ∷ "内置" ∷ []) text
      then chosen builtin_tool mcp_tool mentions_builtin (decimal 75 2)
      else if not (is_unknown family)
      then chosen builtin_tool mcp_tool (family_default family) (decimal 6 1)
      else chosen tool_hint none nothing_known (decimal 3 1)

  unfoldable pub hint_first :
      Option String → ToolFamily → Option String → Option String → String → String → Choice Float
  unfolding without_hint is_builtin
  hint_first tool_hint family builtin_tool mcp_tool task query =
      if truthy tool_hint && registered (text_or_empty tool_hint)
      then chosen tool_hint
          (if is_builtin (tool_provider texts.lower tool_hint) then mcp_tool else builtin_tool)
          (respects_hint (text_or_empty tool_hint)) (decimal 9 1)
      else without_hint tool_hint family builtin_tool mcp_tool (query_or query task)

  abbrev least : Float → Float → Float
  least a b = if below b a then b else a

  abbrev tool_of : Option (ReliabilityScore Float × String) → Option String
  tool_of none = none
  tool_of (some (score, tool)) = some tool

  abbrev score_or : Option (ReliabilityScore Float × String) → Option (ReliabilityScore Float)
  score_or none = none
  score_or (some (score, tool)) = some score

  unfoldable pub scored_choice :
      ToolFamily
      → ReliabilityScore Float
      → String
      → Option (ReliabilityScore Float × String)
      → Choice Float
  unfolding listed
  scored_choice family score tool other =
      chosen (some tool) (tool_of other) (scored family score (score_or other))
        (least (decimal 95 2) (plus (decimal 6 1) (times score.score (decimal 3 1))))

  -- A candidate: its score is there, and it has a tool.
  unfoldable pub candidate :
      Option (ReliabilityScore Float) → Option String → Option (ReliabilityScore Float × String)
  candidate none tool = none
  candidate (some score) none = none
  candidate (some score) (some tool) = if truthy (some tool) then some (score, tool) else none

  -- The better of the scored candidates, the builtin one first; the sort is stable.
  unfoldable pub best :
      ToolFamily
      → Option (ReliabilityScore Float × String)
      → Option (ReliabilityScore Float × String)
      → Option (Choice Float)
  unfolding scored_choice
  best family none none = none
  best family (some (score, tool)) none = some (scored_choice family score tool none)
  best family none (some (score, tool)) = some (scored_choice family score tool none)
  best family (some (first, tool)) (some (second, other)) =
      if below first.score second.score
      then some (scored_choice family second other (some (first, tool)))
      else some (scored_choice family first tool (some (second, other)))

  unfoldable pub score_for : ToolFamily → String → Option String → Option (ReliabilityScore Float)
  unfolding named score_tool_provider family_value
  score_for family provider tool =
      named floats
        (score_tool_provider floats (family_value family) provider engine.reliability_stats
          engine.weights)
        tool

  unfoldable pub choice_or : Option (Choice Float) → Choice Float → Choice Float
  choice_or none other = other
  choice_or (some choice) other = choice

  unfoldable pub by_reliability : ToolFamily → Option String → Option String → Choice Float
  unfolding provider_first best candidate score_for choice_or has_family
  by_reliability family builtin_tool mcp_tool =
      if is_unknown family || not (has_family (family_value family) engine.reliability_stats)
      then provider_first builtin_tool mcp_tool stats_missing
      else choice_or
          (best family (candidate (score_for family "builtin" builtin_tool) builtin_tool)
            (candidate (score_for family "mcp" mcp_tool) mcp_tool))
          (provider_first builtin_tool mcp_tool no_scored_providers)

  -- _apply_strategy: what is neither of the others is planner_hint_first
  unfoldable pub apply_strategy :
      ToolPolicyStrategy → Option String → ToolFamily → String → String → Choice Float
  unfolding hint_first provider_first by_reliability builtin_tool_for_family mcp_tool_for_family
  apply_strategy builtin_first tool_hint family task query =
      provider_first (builtin_tool_for_family family) (mcp_tool_for_family family) prefers_builtin
  apply_strategy mcp_first tool_hint family task query =
      provider_first (mcp_tool_for_family family) (builtin_tool_for_family family) prefers_mcp
  apply_strategy reliability_aware tool_hint family task query =
      by_reliability family (builtin_tool_for_family family) (mcp_tool_for_family family)
  apply_strategy planner_hint_first tool_hint family task query =
      hint_first tool_hint family (builtin_tool_for_family family) (mcp_tool_for_family family) task
        query
  apply_strategy deterministic tool_hint family task query =
      hint_first tool_hint family (builtin_tool_for_family family) (mcp_tool_for_family family) task
        query
  apply_strategy cost_aware tool_hint family task query =
      hint_first tool_hint family (builtin_tool_for_family family) (mcp_tool_for_family family) task
        query

  -- The loop of _pick_available over the fallbacks.
  unfoldable pub first_available : List String → Option String
  unfolding disabled
  first_available [] = none
  first_available (name ∷ rest) =
      if truthy (some name) && not (disabled name) && registered name
      then some name
      else first_available rest

  unfoldable pub pick_available : Option String → List String → Option String
  unfolding first_available
  pick_available none fallbacks = first_available fallbacks
  pick_available (some name) fallbacks =
      if truthy (some name) && registered name && not (disabled name)
      then some name
      else first_available fallbacks

  -- What is selected, with the original hint as the last resort.
  unfoldable pub with_hint :
      Option String → Option String → Choice Float → Option String × Choice Float
  with_hint (some name) tool_hint choice = (some name, choice)
  with_hint none none choice = (none, choice)
  with_hint none (some hint) choice =
      if truthy (some hint) && registered hint
      then (
        some hint,
        record choice {
          reason = only_available choice.reason hint;
          confidence =
              if below choice.confidence (decimal 5 1) then decimal 5 1 else choice.confidence;
        },
      )
      else (none, choice)

  unfoldable pub decided :
      ToolPolicyStrategy
      → Option String
      → ToolFamily
      → Option String × Choice Float
      → ToolPolicyDecision Float
  unfolding tool_provider tool_family select
  decided strategy tool_hint family (none, choice) = record {
    original_tool_hint = tool_hint;
    selected_tool = none;
    selected_provider = unknown_provider;
    family = family;
    policy_name = strategy;
    confidence = decimal 0 0;
    fallback_candidates = choice.fallbacks;
    reason = choice.reason;
  }
  decided strategy tool_hint family (some selected, choice) = record {
    original_tool_hint = tool_hint;
    selected_tool = some selected;
    selected_provider = tool_provider texts.lower (some selected);
    family = tool_family texts.lower (some selected);
    policy_name = strategy;
    confidence = choice.confidence;
    fallback_candidates =
        select (λ name. not (str_eq name selected) && registered name) choice.fallbacks;
    reason = choice.reason;
  }

  unfoldable pub family_of : Option String → String → String → ToolFamily
  unfolding tool_family infer_family
  family_of tool_hint task query =
      let family = tool_family texts.lower tool_hint in
      if is_unknown family && truthy (some task) then infer_family texts task query else family

  unfoldable pub decide :
      Option String → String → String → Option ToolPolicyStrategy → ToolPolicyDecision Float
  unfolding resolve_strategy family_of apply_strategy pick_available with_hint decided
  decide tool_hint task query policy_override =
      let strategy = resolve_strategy policy_override in
      let family = family_of tool_hint task query in
      let choice = apply_strategy strategy tool_hint family task query in
      decided strategy tool_hint family
        (with_hint (pick_available choice.preferred choice.fallbacks) tool_hint choice)

  unfoldable pub recovery_action_for_fallback : String → String → String
  unfolding tool_provider
  recovery_action_for_fallback failed_tool fallback_tool =
      action_between (tool_provider texts.lower (some failed_tool))
        (tool_provider texts.lower (some fallback_tool))
