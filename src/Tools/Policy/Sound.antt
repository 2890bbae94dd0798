-- ===== src/Tools/Policy/Sound.antt =====
-- tools/policy/engine.py: what holds of every decision.
use trip_graph_agent_runtime.Prelude.{
  ◌≡◌, refl, ap, ◌∙◌, String, Bool, true, false, not, ◌&&◌, ◌⊎◌, inl, inr, Option, none, some, List,
  [], ◌∷◌, All, All-map, All-select_self, arith, str_eq,
}
use trip_graph_agent_runtime.Schema.{truthy}
use trip_graph_agent_runtime.Tools.Policy.{
  ToolFamily, ToolPolicyStrategy, planner_hint_first, builtin_first, deterministic, cost_aware,
  Floats,
}
use trip_graph_agent_runtime.Tools.Policy.Choices.{Choice, ToolPolicyEngine, Texts, resolve_own}
use trip_graph_agent_runtime.Tools.Policy.Decide.{
  resolve_strategy, registered, disabled, apply_strategy, first_available, pick_available,
  with_hint, decided, family_of, decide,
}

module _ {Json World Float : Type 0} (texts : Texts) (floats : Floats Float)
    (engine : ToolPolicyEngine Json World Float) where
  abbrev is_registered : String → Bool
  is_registered name = registered texts floats engine name

  abbrev is_disabled : String → Bool
  is_disabled name = disabled texts floats engine name

  first_available-some :
      (names : List String) (n : String)
      → first_available texts floats engine names ≡ some n
      → (is_registered n ≡ true) × (is_disabled n ≡ false)
  unfolding first_available
  first_available-some [] n h = cc
  first_available-some (name ∷ rest) n h = ground (arith, h, first_available-some rest n)

  pick_available-some :
      (preferred : Option String) (fallbacks : List String) (n : String)
      → pick_available texts floats engine preferred fallbacks ≡ some n
      → (is_registered n ≡ true) × (is_disabled n ≡ false)
  unfolding pick_available
  pick_available-some none fallbacks n h = first_available-some fallbacks n h
  pick_available-some (some name) fallbacks n h =
      ground (arith, h, first_available-some fallbacks n)

  -- Selected from the candidates, or the hint.
  with_hint-some :
      (picked tool_hint : Option String) (choice : Choice Float) (n : String)
      → ((m : String) → picked ≡ some m → (is_registered m ≡ true) × (is_disabled m ≡ false))
      → (with_hint texts floats engine picked tool_hint choice).0 ≡ some n
      → (is_registered n ≡ true) × (is_disabled n ≡ true → tool_hint ≡ some n)
  unfolding with_hint
  with_hint-some (some name) tool_hint choice n good h =
      (ground (arith, h, good name refl), λ d. ground (arith, h, d, good name refl))
  with_hint-some none none choice n good h = cc
  with_hint-some none (some hint) choice n good h = (ground (arith, h), λ d. ground (arith, h))

  with_hint-none :
      (picked : Option String) (choice : Choice Float) (hint : String)
      → (with_hint texts floats engine picked (some hint) choice).0 ≡ none
      → truthy (some hint) ≡ true
      → (picked ≡ none) × (is_registered hint ≡ false)
  unfolding with_hint
  with_hint-none (some name) choice hint h t = cc
  with_hint-none none choice hint h t = (refl, ground (arith, h, t))

  abbrev Others : String → List String → Type 0
  Others n names = All (λ name. (is_registered name ≡ true) × (str_eq name n ≡ false)) names

  decided-some :
      (strategy : ToolPolicyStrategy) (tool_hint : Option String) (family : ToolFamily)
      (picked : Option String × Choice Float) (n : String)
      → (decided texts floats engine strategy tool_hint family picked).selected_tool ≡ some n
      → (picked.0 ≡ some n)
        × Others n
            (decided texts floats engine strategy tool_hint family picked).fallback_candidates
  unfolding decided
  decided-some strategy tool_hint family (none, choice) n h = cc
  decided-some strategy tool_hint family (some m, choice) n h = (
    h,
    All-map (λ name. (not (str_eq name m) && is_registered name) ≡ true)
        (λ name. (is_registered name ≡ true) × (str_eq name n ≡ false)) _
        (λ name kept. (ground (arith, kept), ground (arith, kept, h)))
        (All-select_self (λ name. not (str_eq name m) && is_registered name) choice.fallbacks),
  )

  decided-none :
      (strategy : ToolPolicyStrategy) (tool_hint : Option String) (family : ToolFamily)
      (picked : Option String × Choice Float)
      → (decided texts floats engine strategy tool_hint family picked).selected_tool ≡ none
      → picked.0 ≡ none
  unfolding decided
  decided-none strategy tool_hint family (none, choice) h = refl
  decided-none strategy tool_hint family (some m, choice) h = cc

  -- Whatever the strategy: a tool that decide selects is registered, and if it is an MCP tool while
  -- MCP is disabled, then it is the hint itself; every fallback candidate is registered too, and is
  -- another tool. When decide selects none, a hint that is not empty is not registered.
  pub decide-selects :
      (tool_hint : Option String) (task query : String)
      (policy_override : Option ToolPolicyStrategy)
      → ((n : String)
          → (decide texts floats engine tool_hint task query policy_override).selected_tool ≡ some n
          → (registered texts floats engine n ≡ true)
            × (disabled texts floats engine n ≡ true → tool_hint ≡ some n)
            × All
                (λ name. (registered texts floats engine name ≡ true) × (str_eq name n ≡ false))
                (decide texts floats engine tool_hint task query
                  policy_override).fallback_candidates)
        × ((hint : String)
            → (decide texts floats engine (some hint) task query policy_override).selected_tool
              ≡ none
            → truthy (some hint) ≡ true
            → registered texts floats engine hint ≡ false)
  unfolding decide
  decide-selects tool_hint task query policy_override =
      let strategy = resolve_strategy texts floats engine policy_override in
      let choice_for = λ (hint : Option String).
        apply_strategy texts floats engine strategy hint
          (family_of texts floats engine hint task query) task query in
      let picked = λ (choice : Choice Float).
        pick_available texts floats engine choice.preferred choice.fallbacks in
      (
        λ n h.
            let choice = choice_for tool_hint in
            let parts =
              decided-some strategy tool_hint (family_of texts floats engine tool_hint task query)
                (with_hint texts floats engine (picked choice) tool_hint choice) n h in
            let selected =
              with_hint-some (picked choice) tool_hint choice n
                (λ m e. pick_available-some choice.preferred choice.fallbacks m e) parts.0 in
            (selected.0, selected.1, parts.1),
        λ hint h t.
            let choice = choice_for (some hint) in
            (with_hint-none (picked choice) choice hint
              (decided-none strategy (some hint)
                (family_of texts floats engine (some hint) task query)
                (with_hint texts floats engine (picked choice) (some hint) choice) h)
              t).1,
      )

  decided-name :
      (strategy other : ToolPolicyStrategy) (tool_hint : Option String) (family : ToolFamily)
      (picked : Option String × Choice Float)
      → decided texts floats engine strategy tool_hint family picked
        ≡ record (decided texts floats engine other tool_hint family picked) {
          policy_name = strategy;
        }
  unfolding decided
  decided-name strategy other tool_hint family (none, choice) = refl
  decided-name strategy other tool_hint family (some m, choice) = refl

  decided-with :
      (strategy other : ToolPolicyStrategy) (tool_hint : Option String) (task query : String)
      → apply_strategy texts floats engine strategy tool_hint
          (family_of texts floats engine tool_hint task query)
          task
          query
        ≡ apply_strategy texts floats engine other tool_hint
            (family_of texts floats engine tool_hint task query)
            task
            query
      → decide texts floats engine tool_hint task query (some strategy)
        ≡ record (decide texts floats engine tool_hint task query (some other)) {
          policy_name = strategy;
        }
  unfolding decide resolve_strategy
  decided-with strategy other tool_hint task query e =
      let family = family_of texts floats engine tool_hint task query in
      ap
        (λ (choice : Choice Float). decided texts floats engine strategy tool_hint family (
          with_hint texts floats engine
            (pick_available texts floats engine choice.preferred choice.fallbacks) tool_hint
            choice))
        e
      ∙ decided-name strategy other tool_hint family _

  own-decide :
      (strategy : ToolPolicyStrategy) (tool_hint : Option String) (task query : String)
      → resolve_own engine.strategy ≡ strategy
      → decide texts floats engine tool_hint task query none
        ≡ decide texts floats engine tool_hint task query (some strategy)
  unfolding decide resolve_strategy
  own-decide strategy tool_hint task query e =
      ap
        (λ (own : ToolPolicyStrategy).
          let choice =
            apply_strategy texts floats engine own tool_hint
              (family_of texts floats engine tool_hint task query) task query in
          decided texts floats engine own tool_hint
            (family_of texts floats engine tool_hint task query)
            (with_hint texts floats engine
              (pick_available texts floats engine choice.preferred choice.fallbacks) tool_hint
              choice))
        e

  -- DETERMINISTIC and COST_AWARE mean BUILTIN_FIRST when they are the strategy of the engine; as an
  -- override they decide as PLANNER_HINT_FIRST does, under their own name.
  pub decide-overrides :
      (strategy : ToolPolicyStrategy) (tool_hint : Option String) (task query : String)
      → (strategy ≡ deterministic) ⊎ (strategy ≡ cost_aware)
      → (engine.strategy ≡ strategy
          → decide texts floats engine tool_hint task query none
            ≡ decide texts floats engine tool_hint task query (some builtin_first))
        × (decide texts floats engine tool_hint task query (some strategy)
            ≡ record (decide texts floats engine tool_hint task query (some planner_hint_first)) {
              policy_name = strategy;
            })
  unfolding resolve_own apply_strategy
  decide-overrides strategy tool_hint task query (inl e) = (
    λ h. own-decide builtin_first tool_hint task query (ap resolve_own (h ∙ e)),
    decided-with strategy planner_hint_first tool_hint task query (rw e refl),
  )
  decide-overrides strategy tool_hint task query (inr e) = (
    λ h. own-decide builtin_first tool_hint task query (ap resolve_own (h ∙ e)),
    decided-with strategy planner_hint_first tool_hint task query (rw e refl),
  )
