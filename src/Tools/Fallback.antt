-- ===== src/Tools/Fallback.antt =====
-- tools/executor.py: a call with its retries and its fallback.
use trip_graph_agent_runtime.Prelude.{
  ℕ, zero, suc, ◌+◌, ◌*◌, ◌≤◌, ◌≡◌, refl, sym, ap, ◌∙◌, subst, ◌⊎◌, inl, inr, String, Bool, true,
  false, Option, none, some, List, ◌∷◌, ◌++◌, map, map-append, append_assoc, Bool-cases, if-true,
  if-false, if◌then◌else◌, arith,
}
use trip_graph_agent_runtime.Schema.{truthy}
use trip_graph_agent_runtime.Tools.{fallback_of, ToolObservation, ToolTraceRecord}
use trip_graph_agent_runtime.Tools.Call.{
  ToolExecutor, Session, Call, try_with_retries, fallback_tool, execute_fallback,
  execute_with_reliability,
}
use trip_graph_agent_runtime.Tools.Attempts.{failures_then, Tried, try_with_retries-Tried}

failures_then-append :
    (m n : ℕ) (last : Bool)
    → failures_then m false ++ failures_then n last ≡ failures_then (suc (m + n)) last
failures_then-append zero n last =
    let same : n ≡ zero + n = omega arith in ap (λ k. false ∷ failures_then k last) same
failures_then-append (suc m) n last =
    ap (λ l. false ∷ l)
      (let same : suc (m + n) ≡ suc m + n = omega arith in
        failures_then-append m n last ∙ ap (λ k. failures_then k last) same)

module _ {Json World : Type 0} (ex : ToolExecutor Json World) where
  -- How many attempts a call that fails has made.
  abbrev all_attempts : Option String → ℕ
  all_attempts fallback =
      if truthy fallback then 2 * suc ex.reliability.max_retries else suc ex.reliability.max_retries

  -- From the state `s` to the answer of a call of `requested`.
  pub record Called (requested : String) (s : Session Json World)
      (final : ToolObservation Json × Session Json World) : Type 0 where
    pub extra : ℕ
    pub entries : List (ToolTraceRecord Json)
    pub recorded : final.1.records ≡ s.records ++ entries
    pub few : suc extra ≤ all_attempts (fallback_tool requested ex.reliability.fallback_tools)
    pub used_up :
        final.0.success ≡ false
        → suc extra ≡ all_attempts (fallback_tool requested ex.reliability.fallback_tools)
    pub outcomes : map (λ e. e.success) entries ≡ failures_then extra final.0.success
    named : final.0.tool ≡ requested

  max_le : (fallback : Option String) → suc ex.reliability.max_retries ≤ all_attempts fallback
  max_le fallback = ground arith

  first_call-Called :
      (call : Call Json) (s : Session Json World)
      (final : ToolObservation Json × Session Json World)
      → Tried ex ex.reliability.max_retries 1 s final
      → (final.0.success ≡ true)
        ⊎ (truthy (fallback_tool call.tool_name ex.reliability.fallback_tools) ≡ false)
      → Called call.tool_name s (record final.0 { tool = call.tool_name }, final.1)
  first_call-Called call s final h why = record {
    extra = h.extra;
    entries = h.entries;
    recorded = h.recorded;
    few = omega (arith, h.few, max_le (fallback_tool call.tool_name ex.reliability.fallback_tools));
    used_up = λ bad. last_resort bad why;
    outcomes = h.outcomes;
    named = refl;
  }
    where
      last_resort :
          final.0.success ≡ false
          → (final.0.success ≡ true)
            ⊎ (truthy (fallback_tool call.tool_name ex.reliability.fallback_tools) ≡ false)
          → suc h.extra ≡ all_attempts (fallback_tool call.tool_name ex.reliability.fallback_tools)
      last_resort bad (inl good) = absurd (cc)
      last_resort bad (inr unusable) = rw unusable (ap suc (h.used_up bad))

  fallback_call-Called :
      (call : Call Json) (s : Session Json World)
      (first final : ToolObservation Json × Session Json World)
      → Tried ex ex.reliability.max_retries 1 s first
      → Tried ex ex.reliability.max_retries 1 first.1 final
      → first.0.success ≡ false
      → truthy (fallback_tool call.tool_name ex.reliability.fallback_tools) ≡ true
      → Called call.tool_name s (record final.0 { tool = call.tool_name }, final.1)
  fallback_call-Called call s first final h g failed usable = record {
    extra = suc (h.extra + g.extra);
    entries = h.entries ++ g.entries;
    recorded =
        g.recorded
        ∙ ap (λ l. l ++ g.entries) h.recorded
        ∙ append_assoc s.records h.entries g.entries;
    few = rw usable (omega (arith, h.few, g.few));
    used_up = λ bad. rw usable (omega (arith, h.used_up failed, g.used_up bad));
    outcomes =
        map-append (λ e. e.success) h.entries g.entries
        ∙ ap (λ l. l ++ map (λ e. e.success) g.entries)
            (h.outcomes ∙ ap (failures_then h.extra) failed)
        ∙ ap (λ l. failures_then h.extra false ++ l) g.outcomes
        ∙ failures_then-append h.extra g.extra final.0.success;
    named = refl;
  }

  truthy→some : (o : Option String) → truthy o ≡ true → (name : String) × (o ≡ some name)
  unfolding truthy
  truthy→some none h = absurd (cc)
  truthy→some (some name) h = (name, refl)

  -- A call with its retries and its fallback. It makes at least one attempt, and leaves one record for
  -- each. It makes at most max_retries + 1, or twice as many where a fallback tool is named for the
  -- tool, and exactly that many when it fails. All attempts but the last failed, the observation says
  -- whether the last one did, and it names the tool that was asked for.
  pub execute_with_reliability-Called :
      (call : Call Json) (s : Session Json World)
      → Called call.tool_name s (execute_with_reliability ex call s)
  unfolding execute_with_reliability execute_fallback
  execute_with_reliability-Called call s =
      let first = try_with_retries ex call s in
      let h = try_with_retries-Tried ex call s in
      let fallback = fallback_tool call.tool_name ex.reliability.fallback_tools in
      let goal = Called call.tool_name s in
      elim (Bool-cases first.0.success) [
        | inl good ↦
            subst goal (sym (if-true first.0.success _ _ good))
              (first_call-Called call s first h (inl good))
        | inr bad ↦
            subst goal (sym (if-false first.0.success _ _ bad))
              (elim (Bool-cases (truthy fallback)) [
                | inr unusable ↦
                    subst goal (sym (if-false (truthy fallback) _ _ unusable))
                      (first_call-Called call s first h (inr unusable))
                | inl usable ↦
                    let (name, found) = truthy→some fallback usable in
                    let again : Call Json = record {
                      tool_name = name;
                      args = call.args;
                      call_id = fallback_of call.call_id;
                      parent_id = call.parent_id;
                      is_fallback = true;
                      original_tool = some call.tool_name;
                    } in
                    let second = try_with_retries ex again first.1 in
                    subst goal (sym (if-true (truthy fallback) _ _ usable)) (
                      rw found (
                        fallback_call-Called call s first second h
                          (try_with_retries-Tried ex again first.1) bad usable))
              ])
      ]
