-- ===== src/Tools/Batch.antt =====
-- tools/executor.py: execute_batch and execute_llm_batch. What the batch writes into its own record
-- are JSON objects that `BatchJson` makes; `blank_text` is the text of a ValidationError.
use trip_graph_agent_runtime.Prelude.{
  ℕ, ◌≡◌, refl, sym, ap, ◌∙◌, subst, String, Bool, true, false, Option, none, some, List, [], ◌∷◌,
  ◌++◌, map, length, All, all_true, Bool-cases, inl, inr, if-true, if-false, if◌then◌else◌, ◌⊎◌,
}
use trip_graph_agent_runtime.Prelude.Text.{is_blank}
use Prim.Native.String.{◌++◌ as ◌<>◌}
use trip_graph_agent_runtime.Errors.{
  Result, ok, raise, Exception, tool_execution_error, blank_tool, ◌>>=◌,
}
use trip_graph_agent_runtime.Schema.{text_or}
use trip_graph_agent_runtime.Tools.{CallId, ToolObservation, ToolCall, ToolCallResult}
use trip_graph_agent_runtime.Tools.Call.{ToolExecutor, Session, execute_llm_call, call_result}

pub record BatchJson (Json : Type 0) : Type 0 where
  pub tools : List String → Json
  pub results : List (ToolCallResult Json) → Json
  pub count : ℕ → Json
  pub observations : ℕ → Json
  pub blank_text : String → String

module _ {Json World : Type 0} (ex : ToolExecutor Json World) (json : BatchJson Json) where
  -- The record that the batch itself leaves when its block ends.
  batch_record :
      CallId → Json → Json → Bool → Option String → Session Json World → Session Json World
  batch_record batch_id args output success error s = record s {
    records =
        s.records
        ++ (record {
          call_id = batch_id;
          tool_name = "__batch__";
          input_args = args;
          output = output;
          success = success;
          error = error;
          parent_id = none;
          attempt = 1;
          max_attempts = 1;
          is_fallback = false;
          original_tool = none;
        }
            ∷ []);
  }

  -- result.error or f"Tool {call.name} failed"
  failure_text : ToolCallResult Json → String
  failure_text result = text_or result.error ("Tool " <> result.name <> " failed")

  -- The loop of execute_batch. A call without a name is refused by LLMToolCall before it is made, and
  -- a failed call ends the loop with the exception.
  pub run_calls :
      CallId
      → List (ToolCall Json)
      → Session Json World
      → Result (List (ToolCallResult Json)) × Session Json World
  unfolding call_result failure_text
  run_calls batch_id [] s = (ok [], s)
  run_calls batch_id (call ∷ calls) s =
      let (obs, s') = execute_llm_call ex call.name call.arguments call.call_id (some batch_id) s in
      let result = call_result call obs in
      let (later, s'') = run_calls batch_id calls s' in
      if is_blank call.name
      then (raise (blank_tool call.name), s)
      else if result.success
      then (later >>= λ results. ok (result ∷ results), s'')
      else (raise (tool_execution_error (failure_text result)), s')

  -- The end of the block: the batch's record, with the results or with the exception's text.
  close_batch :
      CallId
      → List (ToolCall Json)
      → Result (List (ToolCallResult Json))
      → Session Json World
      → Session Json World
  unfolding batch_record
  close_batch batch_id calls (ok results) s =
      batch_record batch_id (json.tools (map (λ c. c.name) calls)) (json.results results) true none
        s
  close_batch batch_id calls (raise (tool_execution_error text)) s =
      batch_record batch_id (json.tools (map (λ c. c.name) calls)) ex.null false (some text) s
  close_batch batch_id calls (raise (blank_tool name)) s =
      batch_record batch_id (json.tools (map (λ c. c.name) calls)) ex.null false
        (some (json.blank_text name)) s
  close_batch batch_id calls (raise _) s = s

  -- execute_batch
  pub execute_batch :
      CallId
      → List (ToolCall Json)
      → Session Json World
      → Result (List (ToolCallResult Json)) × Session Json World
  unfolding run_calls close_batch
  execute_batch batch_id calls s =
      let (outcome, s') = run_calls batch_id calls s in
      (outcome, close_batch batch_id calls outcome s')

  -- The loop of execute_llm_batch, over calls that have their ids.
  observe_calls :
      CallId
      → List (ToolCall Json)
      → Session Json World
      → List (ToolObservation Json) × Session Json World
  observe_calls batch_id [] s = ([], s)
  observe_calls batch_id (call ∷ calls) s =
      let (obs, s') = execute_llm_call ex call.name call.arguments call.call_id (some batch_id) s in
      let (later, s'') = observe_calls batch_id calls s' in (obs ∷ later, s'')

  -- execute_llm_batch
  unfoldable execute_llm_batch :
      CallId
      → List (ToolCall Json)
      → Session Json World
      → List (ToolObservation Json) × Session Json World
  unfolding observe_calls batch_record
  execute_llm_batch batch_id calls s =
      let (observations, s') = observe_calls batch_id calls s in
      (
        observations,
        batch_record batch_id (json.count (length calls)) (json.observations (length observations))
            (all_true (λ o. o.success) observations) none s',
      )

  -- One call of the batch.
  abbrev observed :
      CallId → ToolCall Json → Session Json World → ToolObservation Json × Session Json World
  observed batch_id call s =
      execute_llm_call ex call.name call.arguments call.call_id (some batch_id) s

  -- Why a call ends the batch: it has no name, or it has one and fails.
  abbrev pub IsCulprit : CallId → ToolCall Json → Session Json World → Exception → Type 0
  IsCulprit batch_id call s e =
      ((is_blank call.name ≡ true) × (e ≡ blank_tool call.name))
      ⊎ ((is_blank call.name ≡ false)
          × ((observed batch_id call s).0.success ≡ false)
          × ((text : String) × (e ≡ tool_execution_error text)))

  -- What a batch gives: a result of each call in order, all of them successes and with names that are
  -- not blank; or the exception at a call that is refused or fails, where the calls before it give
  -- their results.
  abbrev pub IsBatch :
      CallId
      → List (ToolCall Json)
      → Session Json World
      → Result (List (ToolCallResult Json))
      → Type 0
  IsBatch batch_id calls s (ok results) =
      (map (λ r. r.name) results ≡ map (λ c. c.name) calls)
      × (map (λ r. r.call_id) results ≡ map (λ c. c.call_id) calls)
      × All (λ r. r.success ≡ true) results
      × All (λ c. is_blank c.name ≡ false) calls
  IsBatch batch_id calls s (raise e) =
      (before : List (ToolCall Json)) × (culprit : ToolCall Json) × (rest : List (ToolCall Json))
      × (results : List (ToolCallResult Json)) × (calls ≡ before ++ (culprit ∷ rest))
      × ((run_calls batch_id before s).0 ≡ ok results)
      × IsCulprit batch_id culprit (run_calls batch_id before s).1 e

  cons-IsBatch :
      (batch_id : CallId) (call : ToolCall Json) (calls : List (ToolCall Json))
      (s : Session Json World) (later : Result (List (ToolCallResult Json)))
      → is_blank call.name ≡ false
      → (observed batch_id call s).0.success ≡ true
      → IsBatch batch_id calls (observed batch_id call s).1 later
      → IsBatch batch_id
          (call ∷ calls)
          s
          (later >>= λ results. ok (call_result call (observed batch_id call s).0 ∷ results))
  unfolding call_result run_calls
  cons-IsBatch batch_id call calls s (ok results) named good (names, call_ids, all, all_named) = (
    ap (λ l. call.name ∷ l) names,
    ap (λ l. call.call_id ∷ l) call_ids,
    (good, all),
    (named, all_named),
  )
  cons-IsBatch batch_id call calls s (raise e) named good
        (before, culprit, rest, results, split, ran, failed) =
      let result = call_result call (observed batch_id call s).0 in
      let step : run_calls batch_id (call ∷ before) s ≡ (
        (run_calls batch_id before (observed batch_id call s).1).0 >>= (λ rs. ok (result ∷ rs)),
        (run_calls batch_id before (observed batch_id call s).1).1,
      ) =
        if-false (is_blank call.name) _ _ named
        ∙ if-true (observed batch_id call s).0.success _ _ good in
      (
        call ∷ before,
        culprit,
        rest,
        result ∷ results,
        ap (λ l. call ∷ l) split,
        ap (λ (p : Result (List (ToolCallResult Json)) × Session Json World). p.0) step
            ∙ ap (λ (m : Result (List (ToolCallResult Json))). m >>= λ rs. ok (result ∷ rs)) ran,
        subst
            (λ (p : Result (List (ToolCallResult Json)) × Session Json World).
              IsCulprit batch_id culprit p.1 e)
            (sym step) failed,
      )

  run_calls-IsBatch :
      (batch_id : CallId) (calls : List (ToolCall Json)) (s : Session Json World)
      → IsBatch batch_id calls s (run_calls batch_id calls s).0
  unfolding run_calls call_result
  run_calls-IsBatch batch_id [] s = (refl, refl, tt, tt)
  run_calls-IsBatch batch_id (call ∷ calls) s =
      let obs = (observed batch_id call s).0 in
      let goal = λ (p : Result (List (ToolCallResult Json)) × Session Json World).
        IsBatch batch_id (call ∷ calls) s p.0 in
      elim (Bool-cases (is_blank call.name)) [
        | inl blank ↦
            subst goal (sym (if-true (is_blank call.name) _ _ blank))
              ([], call, calls, [], refl, refl, inl (blank, refl))
        | inr named ↦
            subst goal (sym (if-false (is_blank call.name) _ _ named))
              (elim (Bool-cases obs.success) [
                | inl good ↦ subst goal (sym (if-true obs.success _ _ good)) (
                    cons-IsBatch batch_id call calls s _ named good
                      (run_calls-IsBatch batch_id calls (observed batch_id call s).1))
                | inr bad ↦ subst goal (sym (if-false obs.success _ _ bad)) (
                  [],
                  call,
                  calls,
                  [],
                  refl,
                  refl,
                  inr (named, bad, (failure_text (call_result call obs), refl)),
                )
              ])
      ]

  -- execute_batch runs the calls in order until one is refused or fails. When it returns, no name is
  -- blank and there is a result for each call, in order and with its name and id, and all are
  -- successes. When it raises, the calls before some call alone give their results, and that call has a
  -- blank name, which is a ValidationError, or fails, which is a ToolExecutionError.
  pub execute_batch-IsBatch :
      (batch_id : CallId) (calls : List (ToolCall Json)) (s : Session Json World)
      → IsBatch batch_id calls s (execute_batch batch_id calls s).0
  unfolding execute_batch
  execute_batch-IsBatch batch_id calls s = run_calls-IsBatch batch_id calls s
