-- ===== src/Repair/Budget.antt =====
-- plan/repair.py: what deduplicate_budget_steps keeps.
use trip_graph_agent_runtime.Prelude.{
  ℕ, ◌≡◌, refl, sym, ap, subst, inl, inr, true, false, Bool, not, ◌&&◌, List, [], ◌∷◌, map, elem,
  is_empty, All, Distinct, Bool-cases, if-true, if-false, ◌==◌, ltb, length, if◌then◌else◌, arith,
}
use trip_graph_agent_runtime.Prelude.Text.{codes}
use trip_graph_agent_runtime.Schema.{PlanStep}
use trip_graph_agent_runtime.State.{ids}
use trip_graph_agent_runtime.Repair.{
  is_budget_step, enumerate, budget_indices, longest_from, drop_budget, keep_longest,
  deduplicate_budget_steps,
}
use trip_graph_agent_runtime.Repair.Order.{map-enumerate}

abbrev Indexed : Type 0
Indexed = List (ℕ × PlanStep)

abbrev steps_in : Indexed → List PlanStep
steps_in l = map (λ p. p.1) l

abbrev is_dropped : ℕ → ℕ × PlanStep → Bool
is_dropped keep p = is_budget_step p.1 && not (p.0 == keep)

-- One round of the loop.
drop_budget-dropped :
    (keep : ℕ) (p : ℕ × PlanStep) (rest : Indexed)
    → is_dropped keep p ≡ true
    → (drop_budget keep (p ∷ rest)).0 ≡ (drop_budget keep rest).0
unfolding drop_budget
drop_budget-dropped keep p rest e = ground (arith, e)

drop_budget-kept :
    (keep : ℕ) (p : ℕ × PlanStep) (rest : Indexed)
    → is_dropped keep p ≡ false
    → (drop_budget keep (p ∷ rest)).0 ≡ p.1 ∷ (drop_budget keep rest).0
unfolding drop_budget
drop_budget-kept keep p rest e = ground (arith, e)

module _ (keep : ℕ) where
  All-drop_budget {κ} :
      (P : PlanStep → Type κ) (l : Indexed) → All P (steps_in l) → All P (drop_budget keep l).0
  All-drop_budget P [] h = unfold drop_budget in tt
  All-drop_budget P (p ∷ rest) h = elim (Bool-cases (is_dropped keep p)) [
    | inl e ↦ rw (drop_budget-dropped keep p rest e) (All-drop_budget P rest h.1)
    | inr e ↦ rw (drop_budget-kept keep p rest e) (h.0, All-drop_budget P rest h.1)
  ]

  elem-drop_budget :
      (k : ℕ) (l : Indexed)
      → elem k (ids (steps_in l)) ≡ false
      → elem k (ids (drop_budget keep l).0) ≡ false
  unfolding elem
  elem-drop_budget k [] h = unfold drop_budget in refl
  elem-drop_budget k (p ∷ rest) h = elim (Bool-cases (is_dropped keep p)) [
    | inl e ↦ rw (drop_budget-dropped keep p rest e) (elem-drop_budget k rest (ground arith))
    | inr e ↦
        rw (drop_budget-kept keep p rest e) (ground (arith, elem-drop_budget k rest (ground arith)))
  ]

  Distinct-drop_budget :
      (l : Indexed) → Distinct (ids (steps_in l)) → Distinct (ids (drop_budget keep l).0)
  Distinct-drop_budget [] h = unfold drop_budget in tt
  Distinct-drop_budget (p ∷ rest) h = elim (Bool-cases (is_dropped keep p)) [
    | inl e ↦ rw (drop_budget-dropped keep p rest e) (Distinct-drop_budget rest h.1)
    | inr e ↦
        rw (drop_budget-kept keep p rest e)
          (elem-drop_budget p.1.id rest h.0, Distinct-drop_budget rest h.1)
  ]

  -- Where the index that is kept occurs, something is kept.
  drop_budget-not_empty :
      (l : Indexed) → elem keep (map (λ p. p.0) l) ≡ true → is_empty (drop_budget keep l).0 ≡ false
  unfolding elem
  drop_budget-not_empty [] h = absurd (ground arith)
  drop_budget-not_empty (p ∷ rest) h = elim (Bool-cases (is_dropped keep p)) [
    | inl e ↦ rw (drop_budget-dropped keep p rest e) (drop_budget-not_empty rest (ground arith))
    | inr e ↦ rw (drop_budget-kept keep p rest e) refl
  ]

longest_from-next :
    (best p next : ℕ × PlanStep) (rest : Indexed)
    → (if ltb (length (codes best.1.task)) (length (codes p.1.task)) then p else best) ≡ next
    → longest_from best (p ∷ rest) ≡ longest_from next rest
unfolding longest_from
longest_from-next best p next rest e = ap (λ b. longest_from b rest) e

elem-longest_from :
    (best : ℕ × PlanStep) (l : Indexed)
    → elem (longest_from best l) (map (λ p. p.0) (best ∷ l)) ≡ true
unfolding elem
elem-longest_from best [] = unfold longest_from in ground arith
elem-longest_from best (p ∷ rest) =
    let longer = ltb (length (codes best.1.task)) (length (codes p.1.task)) in
    elim (Bool-cases longer) [
      | inl e ↦
          let next = longest_from-next best p p rest (if-true longer p best e) in
          subst (λ k. elem k (map (λ q. q.0) (best ∷ p ∷ rest)) ≡ true) (sym next)
            (ground (arith, elem-longest_from p rest))
      | inr e ↦
          let next = longest_from-next best p best rest (if-false longer p best e) in
          subst (λ k. elem k (map (λ q. q.0) (best ∷ p ∷ rest)) ≡ true) (sym next)
            (ground (arith, elem-longest_from best rest))
    ]

elem-budget_indices :
    (k : ℕ) (l : Indexed)
    → elem k (map (λ p. p.0) (budget_indices l)) ≡ true
    → elem k (map (λ p. p.0) l) ≡ true
unfolding elem budget_indices
elem-budget_indices k [] h = h
elem-budget_indices k (p ∷ rest) h = elim (Bool-cases (is_budget_step p.1)) [
  | inl e ↦ ground (arith, e, h, elem-budget_indices k rest)
  | inr e ↦ ground (arith, e, h, elem-budget_indices k rest)
]

-- What a plan's steps need before they are renumbered: `P` holds of each, there is one, and the ids
-- are distinct.
pub record IsSound {κ} (P : PlanStep → Type κ) (steps : List PlanStep) : Type κ where
  pub each : All P steps
  pub some_step : is_empty steps ≡ false
  pub once : Distinct (ids steps)

module _ {κ} (P : PlanStep → Type κ) where
  drop_budget-IsSound :
      (keep : ℕ) (l : Indexed)
      → elem keep (map (λ p. p.0) l) ≡ true
      → IsSound P (steps_in l)
      → IsSound P (drop_budget keep l).0
  drop_budget-IsSound keep l m h = record {
    each = All-drop_budget keep P l h.each;
    some_step = drop_budget-not_empty keep l m;
    once = Distinct-drop_budget keep l h.once;
  }

  keep_longest-IsSound :
      (budget : Indexed) (steps : List PlanStep) (l : Indexed)
      → ((k : ℕ) → elem k (map (λ p. p.0) budget) ≡ true → elem k (map (λ p. p.0) l) ≡ true)
      → IsSound P (steps_in l)
      → IsSound P steps
      → IsSound P (keep_longest budget steps l).0
  unfolding keep_longest
  keep_longest-IsSound [] steps l inside h g = g
  keep_longest-IsSound (p ∷ []) steps l inside h g = g
  keep_longest-IsSound (p ∷ q ∷ more) steps l inside h g =
      drop_budget-IsSound (longest_from p (q ∷ more)) l (inside _ (elem-longest_from p (q ∷ more)))
        h

  -- deduplicate_budget_steps leaves steps, of those that were there.
  pub deduplicate_budget_steps-IsSound :
      (steps : List PlanStep) → IsSound P steps → IsSound P (deduplicate_budget_steps steps).0
  unfolding deduplicate_budget_steps
  deduplicate_budget_steps-IsSound steps h =
      keep_longest-IsSound (budget_indices (enumerate 0 steps)) steps (enumerate 0 steps)
        (λ k. elem-budget_indices k (enumerate 0 steps))
        (subst (IsSound P) (sym (map-enumerate 0 steps)) h) h
