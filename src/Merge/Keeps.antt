-- ===== src/Merge/Keeps.antt =====
-- graph/runtime/state_merge.py: what a deep merge keeps of the states it merges.
use trip_graph_agent_runtime.Prelude.{
  ◌≤◌, ◌≡◌, refl, ap, ◌∙◌, String, true, ◌||◌, Option, none, some, List, [], ◌∷◌, ◌++◌, map,
  map-append, All, arith,
}
use trip_graph_agent_runtime.Prelude.Names.{has_name}
use trip_graph_agent_runtime.Errors.{ok}
use trip_graph_agent_runtime.AgentState.{AgentState, StateVersionStore, Outside}
use trip_graph_agent_runtime.ExecutionGraph.{Graphs}
use trip_graph_agent_runtime.Versions.{ensure_store}
use trip_graph_agent_runtime.Versions.History.{version_ids, has_name-append}
use trip_graph_agent_runtime.Merge.{
  dedupe_list, deep_merging, deep_merge, merge_states, merge_version_stores,
}
use trip_graph_agent_runtime.Merge.Dedupe.{has_name-dedupe_list}
use trip_graph_agent_runtime.Merge.Stores.{has_name-merged}

-- Every text of the one list is a text of the other.
abbrev pub Within : List String → List String → Type 0
Within xs ys = (name : String) → has_name name xs ≡ true → has_name name ys ≡ true

module _ {A : Type 0} (key : A → String) where
  has_name-dedupe-append :
      (name : String) (xs ys : List A)
      → has_name name (map key (dedupe_list key (xs ++ ys)))
        ≡ (has_name name (map key xs) || has_name name (map key ys))
  has_name-dedupe-append name xs ys =
      has_name-dedupe_list key name (xs ++ ys)
      ∙ ap (has_name name) (map-append key xs ys)
      ∙ has_name-append name (map key xs) (map key ys)

  Within-left : (xs ys : List A) → Within (map key xs) (map key (dedupe_list key (xs ++ ys)))
  Within-left xs ys name h = ground (arith, has_name-dedupe-append name xs ys, h)

  Within-right : (xs ys : List A) → Within (map key ys) (map key (dedupe_list key (xs ++ ys)))
  Within-right xs ys name h = ground (arith, has_name-dedupe-append name xs ys, h)

module _ {Json World : Type 0} (out : Outside Json World) where
  open out use {text_of, trace_entry}

  -- What the merged state must not lose of a state.
  pub record Kept (s m : AgentState Json) : Type 0 where
    pub messages : Within (map text_of s.messages) (map text_of m.messages)
    pub execution_trace : Within (map text_of s.execution_trace) (map text_of m.execution_trace)
    pub graph_trace :
        Within
          (map (λ e. text_of (trace_entry e)) s.graph_trace)
          (map (λ e. text_of (trace_entry e)) m.graph_trace)
    pub replan_history : Within (map text_of s.replan_history) (map text_of m.replan_history)
    pub short_term : Within (map text_of s.short_term_memory) (map text_of m.short_term_memory)
    pub long_term : Within (map text_of s.long_term_memory) (map text_of m.long_term_memory)
    pub episodic : Within (map text_of s.episodic_memory) (map text_of m.episodic_memory)
    pub versions :
        Within (version_ids (ensure_store s).versions) (version_ids (ensure_store m).versions)
    pub stops : s.should_stop ≡ true → m.should_stop ≡ true
    pub attempts : s.replan_attempts ≤ m.replan_attempts

  Kept-refl : (s : AgentState Json) → Kept s s
  Kept-refl s = record {
    messages = λ name h. h;
    execution_trace = λ name h. h;
    graph_trace = λ name h. h;
    replan_history = λ name h. h;
    short_term = λ name h. h;
    long_term = λ name h. h;
    episodic = λ name h. h;
    versions = λ name h. h;
    stops = λ h. h;
    attempts = omega arith;
  }

  Kept-trans : (s t u : AgentState Json) → Kept s t → Kept t u → Kept s u
  Kept-trans s t u p q = record {
    messages = λ name h. q.messages name (p.messages name h);
    execution_trace = λ name h. q.execution_trace name (p.execution_trace name h);
    graph_trace = λ name h. q.graph_trace name (p.graph_trace name h);
    replan_history = λ name h. q.replan_history name (p.replan_history name h);
    short_term = λ name h. q.short_term name (p.short_term name h);
    long_term = λ name h. q.long_term name (p.long_term name h);
    episodic = λ name h. q.episodic name (p.episodic name h);
    versions = λ name h. q.versions name (p.versions name h);
    stops = λ h. q.stops (p.stops h);
    attempts = omega (arith, p.attempts, q.attempts);
  }

  abbrev versions_of : Option (StateVersionStore Json) → List String
  versions_of none = []
  versions_of (some store) = version_ids store.versions

  has_name-merge_version_stores :
      (name : String) (left right : Option (StateVersionStore Json))
      → has_name name (versions_of (merge_version_stores left right))
        ≡ (has_name name (versions_of left) || has_name name (versions_of right))
  unfolding merge_version_stores has_name
  has_name-merge_version_stores name none right = refl
  has_name-merge_version_stores name (some left) none = ground arith
  has_name-merge_version_stores name (some left) (some right) =
      has_name-merged name left.versions right.versions

  versions_of-ensure :
      (s : AgentState Json) → version_ids (ensure_store s).versions ≡ versions_of s.version_store
  unfolding ensure_store
  versions_of-ensure s = ground arith

  Within-versions :
      (s m : AgentState Json)
      → Within (versions_of s.version_store) (versions_of m.version_store)
      → Within (version_ids (ensure_store s).versions) (version_ids (ensure_store m).versions)
  Within-versions s m h = rw (versions_of-ensure s, versions_of-ensure m) h

  deep_merge-Kept :
      (left right : AgentState Json) (graphs : Graphs Json)
      → Kept left (deep_merge out left right graphs).0
        × Kept right (deep_merge out left right graphs).0
  unfolding deep_merge
  deep_merge-Kept left right graphs = (
    record {
      messages = Within-left text_of left.messages right.messages;
      execution_trace = Within-left text_of left.execution_trace right.execution_trace;
      graph_trace = Within-left (λ e. text_of (trace_entry e)) left.graph_trace right.graph_trace;
      replan_history = Within-left text_of left.replan_history right.replan_history;
      short_term = Within-left text_of left.short_term_memory right.short_term_memory;
      long_term = Within-left text_of left.long_term_memory right.long_term_memory;
      episodic = Within-left text_of left.episodic_memory right.episodic_memory;
      versions = Within-versions left (deep_merge out left right graphs).0 (λ name h.
          ground
            (arith, h, has_name-merge_version_stores name left.version_store right.version_store));
      stops = λ h. rw h refl;
      attempts = ground arith;
    },
    record {
      messages = Within-right text_of left.messages right.messages;
      execution_trace = Within-right text_of left.execution_trace right.execution_trace;
      graph_trace = Within-right (λ e. text_of (trace_entry e)) left.graph_trace right.graph_trace;
      replan_history = Within-right text_of left.replan_history right.replan_history;
      short_term = Within-right text_of left.short_term_memory right.short_term_memory;
      long_term = Within-right text_of left.long_term_memory right.long_term_memory;
      episodic = Within-right text_of left.episodic_memory right.episodic_memory;
      versions = Within-versions right (deep_merge out left right graphs).0 (λ name h.
          ground
            (arith, h, has_name-merge_version_stores name left.version_store right.version_store));
      stops = λ h. ground (arith, h);
      attempts = ground arith;
    },
  )

  -- merge_states under DEEP_MERGE returns a state. Whatever texts the base state or a branch has in
  -- its messages, traces, histories and memories, and whatever versions in its store, the merged
  -- state has; it stops if one of them stops, and has no fewer replan attempts than any.
  pub merge_states-Kept :
      (base : AgentState Json) (branches : List (AgentState Json)) (graphs : Graphs Json)
      → (m : AgentState Json) × (graphs' : Graphs Json) × (merge_states out deep_merging base
            branches graphs
          ≡ ok (m, graphs'))
        × Kept base m
        × All (λ branch. Kept branch m) branches
  unfolding merge_states
  merge_states-Kept base [] graphs = (base, graphs, refl, Kept-refl base, tt)
  merge_states-Kept base (branch ∷ rest) graphs =
      let merged = deep_merge out base branch graphs in
      let pair = deep_merge-Kept base branch graphs in
      let later = merge_states-Kept merged.0 rest merged.1 in
      (
        later.0,
        later.1,
        later.2,
        Kept-trans base merged.0 later.0 pair.0 later.3,
        (Kept-trans branch merged.0 later.0 pair.1 later.3, later.4),
      )
