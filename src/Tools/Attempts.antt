-- ===== src/Tools/Attempts.antt =====
-- tools/executor.py: the attempts that a call makes, as its records show them.
use trip_graph_agent_runtime.Prelude.{
  ℕ, zero, suc, ◌+◌, ◌≤◌, ◌≡◌, refl, ap, ◌∙◌, subst, String, Bool, false, Option, none, some, List,
  [], ◌∷◌, ◌++◌, map, append_assoc, range, arith,
}
use trip_graph_agent_runtime.Tools.{ToolObservation, ToolTraceRecord, max_attempts}
use trip_graph_agent_runtime.Tools.Call.{
  Answer, answered, stopped, ToolExecutor, Session, Call, run_tool, trace_record, recorded,
  next_attempt, try_from, try_with_retries,
}

-- `n` failures, and then the last attempt.
abbrev pub failures_then : ℕ → Bool → List Bool
failures_then zero last = last ∷ []
failures_then (suc n) last = false ∷ failures_then n last

module _ {Json World : Type 0} (ex : ToolExecutor Json World) where
  -- From the state `s` to the answer, `extra` + 1 attempts of at most `left` + 1 were made, numbered
  -- from `first`; all but the last failed, and a failure comes after `left` + 1 attempts only.
  pub record Tried (left first : ℕ) (s : Session Json World)
      (final : ToolObservation Json × Session Json World) : Type 0 where
    pub extra : ℕ
    pub entries : List (ToolTraceRecord Json)
    pub recorded : final.1.records ≡ s.records ++ entries
    pub few : extra ≤ left
    pub used_up : final.0.success ≡ false → extra ≡ left
    pub outcomes : map (λ e. e.success) entries ≡ failures_then extra final.0.success
    pub numbered : map (λ e. e.attempt) entries ≡ range first (suc extra)

  -- One attempt, before the attempts that follow a failure.
  attempt-Tried :
      (left attempt : ℕ)
      (again : Option String → Session Json World → ToolObservation Json × Session Json World)
      (call : Call Json) (answer : Answer Json) (world : World) (s : Session Json World)
      → ((err : Option String) (t : Session Json World) → Tried left (attempt + 1) t (again err t))
      → Tried
          (suc left)
          attempt
          s
          (next_attempt ex again call answer (recorded ex call attempt answer world s))
  unfolding next_attempt recorded trace_record
  attempt-Tried left attempt again call (answered out) world s later = record {
    extra = 0;
    entries = trace_record ex call attempt (answered out) ∷ [];
    recorded = refl;
    few = omega arith;
    used_up = λ bad. absurd (cc);
    outcomes = refl;
    numbered = refl;
  }
  attempt-Tried left attempt again call (stopped e) world s later =
      let h = later (some (ex.text_of e)) (recorded ex call attempt (stopped e) world s) in
      record {
        extra = suc h.extra;
        entries = trace_record ex call attempt (stopped e) ∷ h.entries;
        recorded =
            h.recorded
            ∙ append_assoc s.records (trace_record ex call attempt (stopped e) ∷ []) h.entries;
        few = omega (arith, h.few);
        used_up = λ bad. ap suc (h.used_up bad);
        outcomes = ap (λ l. false ∷ l) h.outcomes;
        numbered =
            ap (λ l. attempt ∷ l)
              (subst (λ n. map (λ e. e.attempt) h.entries ≡ range n (suc h.extra)) (omega arith)
                h.numbered);
      }

  last-Tried :
      (attempt : ℕ) (call : Call Json) (answer : Answer Json) (world : World)
      (s : Session Json World)
      → Tried 0 attempt s (
          next_attempt ex
            (try_from ex 0 (attempt + 1) call)
            call
            answer
            (recorded ex call attempt answer world s))
  unfolding next_attempt recorded trace_record try_from
  last-Tried attempt call (answered out) world s = record {
    extra = 0;
    entries = trace_record ex call attempt (answered out) ∷ [];
    recorded = refl;
    few = omega arith;
    used_up = λ bad. absurd (cc);
    outcomes = refl;
    numbered = refl;
  }
  last-Tried attempt call (stopped e) world s = record {
    extra = 0;
    entries = trace_record ex call attempt (stopped e) ∷ [];
    recorded = refl;
    few = omega arith;
    used_up = λ bad. refl;
    outcomes = refl;
    numbered = refl;
  }

  try_from-Tried :
      (left attempt : ℕ) (call : Call Json) (last : Option String) (s : Session Json World)
      → Tried left attempt s (try_from ex (suc left) attempt call last s)
  unfolding try_from
  try_from-Tried zero attempt call last s =
      last-Tried attempt call (run_tool ex call s.world).0 (run_tool ex call s.world).1 s
  try_from-Tried (suc left) attempt call last s =
      attempt-Tried left attempt (try_from ex (suc left) (attempt + 1) call) call
        (run_tool ex call s.world).0 (run_tool ex call s.world).1 s
        (try_from-Tried left (attempt + 1) call)

  -- _try_with_retries makes at least one attempt and at most max_retries + 1, numbered from 1; each
  -- leaves one record. All attempts but the last failed, the observation says whether the last one
  -- did, and it says so only after max_retries + 1 attempts.
  pub try_with_retries-Tried :
      (call : Call Json) (s : Session Json World)
      → Tried ex.reliability.max_retries 1 s (try_with_retries ex call s)
  unfolding try_with_retries max_attempts
  try_with_retries-Tried call s = try_from-Tried ex.reliability.max_retries 1 call none s
