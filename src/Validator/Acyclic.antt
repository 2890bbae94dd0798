-- ===== src/Validator/Acyclic.antt =====
-- plan/validator.py: where every dependency is a smaller id, the search for cycles finds none.
use trip_graph_agent_runtime.Prelude.{
  ℕ, zero, suc, ◌≤◌, ◌<◌, ◌≡◌, refl, inl, inr, ◌∙◌, Bool, false, Option, none, some, List, [], ◌∷◌,
  elem, length, All, ◌==◌, Bool-cases, Option-cases, arith,
}
use trip_graph_agent_runtime.Prelude.Dict.{Dict, lookup, insert, keys, lookup-insert}
use trip_graph_agent_runtime.State.{remove_first}
use trip_graph_agent_runtime.Schema.{PlanStep, deps_of}
use trip_graph_agent_runtime.Validator.{
  Marks, Search, visit_all, leave, neighbors, dfs, any_cycle, search_cycle, build_graph,
}

abbrev pub Below : ℕ → List ℕ → Type 0
Below n ds = All (λ d. d < n) ds

abbrev Above : ℕ → List ℕ → Type 0
Above n visiting = All (λ v. n < v) visiting

abbrev AtLeast : ℕ → List ℕ → Type 0
AtLeast n visiting = All (λ v. n ≤ v) visiting

-- A search from below everything that is being visited finds no cycle.
abbrev Clear : Search → ℕ → Type 0
Clear search n =
    (m : Marks) (found : Bool) (m' : Marks)
    → Above n m.visiting
    → search m ≡ some (found, m')
    → (found ≡ false) × (m'.visiting ≡ m.visiting)

Above-not_elem : (n : ℕ) (visiting : List ℕ) → Above n visiting → elem n visiting ≡ false
unfolding elem
Above-not_elem n [] h = refl
Above-not_elem n (v ∷ vs) h = ground (arith, Above-not_elem n vs h.1)

Above-lt : (d n : ℕ) (visiting : List ℕ) → d < n → AtLeast n visiting → Above d visiting
Above-lt d n [] lt h = tt
Above-lt d n (v ∷ vs) lt h = (omega arith, Above-lt d n vs lt h.1)

Above→AtLeast : (n : ℕ) (visiting : List ℕ) → Above n visiting → AtLeast n visiting
Above→AtLeast n [] h = tt
Above→AtLeast n (v ∷ vs) h = (omega arith, Above→AtLeast n vs h.1)

module _ (graph : Dict (List ℕ)) (search : ℕ → Search) (clear : (n : ℕ) → Clear (search n) n) where
  visit_all-Clear :
      (ns : List ℕ) (n : ℕ) (m : Marks) (found : Bool) (m' : Marks)
      → Below n ns
      → AtLeast n m.visiting
      → visit_all search graph ns m ≡ some (found, m')
      → (found ≡ false) × (m'.visiting ≡ m.visiting)
  unfolding visit_all
  visit_all-Clear [] n m found m' below above e = ground arith
  visit_all-Clear (x ∷ xs) n m found m' below above e = elim (Option-cases (lookup x graph)) [
    | inl missing ↦ visit_all-Clear xs n m found m' below.1 above (ground (arith, e, missing))
    | inr (ds, present) ↦ elim (Option-cases (search x m)) [
      | inl stuck ↦ absurd (ground (arith, e, present, stuck))
      | inr (r, back) ↦
          let (quiet, same) = clear x m r.0 r.1 (Above-lt x n m.visiting below.0 above) back in
          let rest : visit_all search graph xs r.1 ≡ some (found, m') =
            ground (arith, e, present, back, quiet) in
          let (quiet', same') = visit_all-Clear xs n r.1 found m' below.1 (rw same above) rest in
          (quiet', same' ∙ same)
    ]
  ]

leave-Clear :
    (n : ℕ) (visiting : List ℕ) (r : Option (Bool × Marks)) (found : Bool) (m' : Marks)
    → ((b : Bool) (m : Marks) → r ≡ some (b, m) → (b ≡ false) × (m.visiting ≡ n ∷ visiting))
    → leave n r ≡ some (found, m')
    → (found ≡ false) × (m'.visiting ≡ visiting)
unfolding leave remove_first
leave-Clear n visiting none found m' inner e = absurd (ground arith)
leave-Clear n visiting (some (b, m)) found m' inner e =
    let (quiet, same) = inner b m refl in ground (arith, quiet, same, e)

-- Every dependency in the graph is below its node.
abbrev Descends : Dict (List ℕ) → Type 0
Descends graph = (n : ℕ) (ds : List ℕ) → lookup n graph ≡ some ds → Below n ds

module _ (graph : Dict (List ℕ)) (descends : Descends graph) where
  neighbors-Below : (n : ℕ) → Below n (neighbors graph n)
  unfolding neighbors
  neighbors-Below n = elim (Option-cases (lookup n graph)) [
    | inl missing ↦ rw (missing, neighbors) tt
    | inr (ds, present) ↦ rw (present, neighbors) (descends n ds present)
  ]

  dfs-Clear : (fuel n : ℕ) → Clear (dfs fuel graph n) n
  unfolding dfs
  dfs-Clear zero n m found m' above e = absurd (ground arith)
  dfs-Clear (suc fuel) n m found m' above e = elim (Bool-cases (elem n m.visited)) [
    | inl done ↦ ground (arith, e, done, Above-not_elem n m.visiting above)
    | inr todo ↦
        leave-Clear n m.visiting
          (visit_all (dfs fuel graph) graph (neighbors graph n)
            (record m { visiting = n ∷ m.visiting }))
          found m'
          (λ b m'' inner.
            visit_all-Clear graph (dfs fuel graph) (dfs-Clear fuel) (neighbors graph n) n
              (record m { visiting = n ∷ m.visiting }) b m'' (neighbors-Below n)
              (omega arith, Above→AtLeast n m.visiting above) inner)
          (ground (arith, e, todo, Above-not_elem n m.visiting above))
  ]

  any_cycle-false :
      (fuel : ℕ) (ks : List ℕ) (m : Marks) (b : Bool)
      → m.visiting ≡ []
      → any_cycle fuel graph ks m ≡ some b
      → b ≡ false
  unfolding any_cycle
  any_cycle-false fuel [] m b idle e = ground arith
  any_cycle-false fuel (k ∷ ks) m b idle e = elim (Option-cases (dfs fuel graph k m)) [
    | inl stuck ↦ absurd (ground (arith, e, stuck))
    | inr (r, back) ↦
        let (quiet, same) = dfs-Clear fuel k m r.0 r.1 (rw idle tt) back in
        any_cycle-false fuel ks r.1 b (same ∙ idle) (ground (arith, e, back, quiet))
  ]

Descends-build :
    (graph : Dict (List ℕ)) (steps : List PlanStep)
    → Descends graph
    → All (λ s. Below s.id (deps_of s)) steps
    → Descends (build_graph graph steps)
unfolding build_graph
Descends-build graph [] h below = h
Descends-build graph (s ∷ rest) h below =
    Descends-build (insert s.id (deps_of s) graph) rest step below.1
  where
    step : Descends (insert s.id (deps_of s) graph)
    step n ds e = elim (Bool-cases (s.id == n)) [
      | inl same ↦
          let found : ds ≡ deps_of s =
            ground (arith, e, same, lookup-insert s.id n (deps_of s) graph) in
          let here : n ≡ s.id = ground (arith, same) in rw (found, here) below.0
      | inr other ↦ h n ds (ground (arith, e, other, lookup-insert s.id n (deps_of s) graph))
    ]

-- With smaller dependencies only, an answer of the search is that there is no cycle.
pub search_cycle-false :
    (steps : List PlanStep) (b : Bool)
    → All (λ s. Below s.id (deps_of s)) steps
    → search_cycle steps ≡ some b
    → b ≡ false
unfolding search_cycle
search_cycle-false steps b below e =
    let graph = build_graph [] steps in
    any_cycle-false graph (Descends-build [] steps (λ n ds m. unfold lookup in cc) below)
      (suc (length (keys graph))) (keys graph) _ b refl e
