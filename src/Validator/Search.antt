-- ===== src/Validator/Search.antt =====
-- plan/validator.py: the depth-first search of _validate_dependency_cycles ends, on any graph.
use trip_graph_agent_runtime.Prelude.{
  ℕ, zero, suc, ◌≤◌, ◌<◌, ◌≡◌, refl, sym, inl, inr, ◌∙◌, Bool, true, false, not, Option, some, List,
  [], ◌∷◌, elem, length, select, ◌==◌, ==_iff, Bool-cases, Option-cases, arith,
}
use trip_graph_agent_runtime.Prelude.Dict.{Dict, lookup, keys}
use trip_graph_agent_runtime.State.{remove_first}
use trip_graph_agent_runtime.State.Lookup.{lookup-not_elem}
use trip_graph_agent_runtime.Schema.{PlanStep}
use trip_graph_agent_runtime.Validator.{
  Marks, Search, visit_all, leave, neighbors, dfs, any_cycle, search_cycle, build_graph,
}

-- The ids that are not being visited.
abbrev pub free : List ℕ → List ℕ → ℕ
free ks visiting = length (select (λ k. not (elem k visiting)) ks)

free-cons : (n : ℕ) (visiting ks : List ℕ) → free ks (n ∷ visiting) ≤ free ks visiting
unfolding select elem
free-cons n visiting [] = omega arith
free-cons n visiting (k ∷ ks) = ground (arith, free-cons n visiting ks)

free-lt :
    (n : ℕ) (visiting ks : List ℕ)
    → elem n ks ≡ true
    → elem n visiting ≡ false
    → suc (free ks (n ∷ visiting)) ≤ free ks visiting
unfolding select elem
free-lt n visiting [] m new = cc
free-lt n visiting (k ∷ ks) m new = elim (Bool-cases (n == k)) [
  | inl e ↦ rw (sym ((==_iff n k).0 e)) (ground (arith, free-cons n visiting ks))
  | inr e ↦ ground (arith, free-lt n visiting ks)
]

-- A search returns, and leaves `visiting` as it was unless it found a cycle.
abbrev Returns : List ℕ → Option (Bool × Marks) → Type 0
Returns visiting r =
    (found : Bool) × (m : Marks) × (r ≡ some (found, m)) × (found ≡ false → m.visiting ≡ visiting)

elem-lookup :
    (graph : Dict (List ℕ)) (n : ℕ) (ds : List ℕ)
    → lookup n graph ≡ some ds
    → elem n (keys graph) ≡ true
elem-lookup graph n ds e = elim (Bool-cases (elem n (keys graph))) [
  | inl m ↦ m
  | inr m ↦ absurd (ground (arith, lookup-not_elem n graph m))
]

module _ (graph : Dict (List ℕ)) (fuel : ℕ) (search : ℕ → Search)
    (returns : (n : ℕ) (m : Marks)
      → elem n (keys graph) ≡ true
      → free (keys graph) m.visiting < fuel
      → Returns m.visiting (search n m)) where
  visit_all-Returns :
      (ns : List ℕ) (m : Marks)
      → free (keys graph) m.visiting < fuel
      → Returns m.visiting (visit_all search graph ns m)
  unfolding visit_all
  visit_all-Returns [] m h = (false, m, refl, λ _. refl)
  visit_all-Returns (n ∷ ns) m h = elim (Option-cases (lookup n graph)) [
    | inl missing ↦ rw (missing, visit_all) (visit_all-Returns ns m h)
    | inr (ds, present) ↦
        let (found, m', e, same) = returns n m (elem-lookup graph n ds present) h in
        elim (Bool-cases found) [
          | inl cyclic ↦ (true, m', ground (arith, present, e), λ bad. absurd (ground arith))
          | inr clear ↦
              let (found', last, e', same') = visit_all-Returns ns m' (rw (same clear) h) in
              (
                found',
                last,
                ground (arith, present, e, e'),
                λ none_found. same' none_found ∙ same clear,
              )
        ]
  ]

leave-Returns :
    (n : ℕ) (visiting : List ℕ) (r : Option (Bool × Marks))
    → Returns (n ∷ visiting) r
    → Returns visiting (leave n r)
unfolding leave remove_first
leave-Returns n visiting r (found, m, e, same) = elim (Bool-cases found) [
  | inl cyclic ↦ (true, m, ground (arith, e), λ bad. absurd (ground arith))
  | inr clear ↦ (
    false,
    record m { visiting = remove_first n m.visiting; visited = n ∷ m.visited },
    ground (arith, e),
    λ _. rw (same clear) (ground arith),
  )
]

module _ (graph : Dict (List ℕ)) where
  dfs-Returns :
      (fuel n : ℕ) (m : Marks)
      → elem n (keys graph) ≡ true
      → free (keys graph) m.visiting < fuel
      → Returns m.visiting (dfs fuel graph n m)
  unfolding dfs
  dfs-Returns zero n m known h = absurd (omega arith)
  dfs-Returns (suc fuel) n m known h = elim (Bool-cases (elem n m.visiting)) [
    | inl open_node ↦ rw open_node (true, m, refl, λ bad. absurd (ground arith))
    | inr new ↦ rw new (elim (Bool-cases (elem n m.visited)) [
      | inl done ↦ rw done (false, m, refl, λ _. refl)
      | inr todo ↦ rw todo (
          leave-Returns n m.visiting _ (
            visit_all-Returns graph fuel (dfs fuel graph) (dfs-Returns fuel) (neighbors graph n)
              (record m { visiting = n ∷ m.visiting })
              (omega (arith, free-lt n m.visiting (keys graph) known new))))
    ])
  ]

  any_cycle-returns :
      (fuel : ℕ) (ks : List ℕ) (m : Marks)
      → ((k : ℕ) → elem k ks ≡ true → elem k (keys graph) ≡ true)
      → free (keys graph) m.visiting < fuel
      → (b : Bool) × (any_cycle fuel graph ks m ≡ some b)
  unfolding any_cycle
  any_cycle-returns fuel [] m inside h = (false, refl)
  any_cycle-returns fuel (k ∷ ks) m inside h =
      let (found, m', e, same) = dfs-Returns fuel k m (inside k (unfold elem in ground arith)) h in
      elim (Bool-cases found) [
        | inl cyclic ↦ (true, ground (arith, e))
        | inr clear ↦
            let (b, e') =
              any_cycle-returns fuel ks m' (λ j i. inside j (unfold elem in ground arith))
                (rw (same clear) h) in
            (b, ground (arith, e, e'))
      ]

free-le : (ks visiting : List ℕ) → free ks visiting ≤ length ks
unfolding select
free-le [] visiting = omega arith
free-le (k ∷ ks) visiting = ground (arith, free-le ks visiting)

-- Whatever the steps and their dependencies, cycles included, the depth-first search of
-- _validate_dependency_cycles comes back with an answer: no chain of nested calls is longer than the
-- number of distinct step ids plus one, which is the fuel of `search_cycle`.
pub search_cycle_total : (steps : List PlanStep) → (b : Bool) × (search_cycle steps ≡ some b)
unfolding search_cycle
search_cycle_total steps =
    let graph = build_graph [] steps in
    any_cycle-returns graph (suc (length (keys graph))) (keys graph) _ (λ k m. m)
      (omega (arith, free-le (keys graph) []))
