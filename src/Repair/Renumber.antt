-- ===== src/Repair/Renumber.antt =====
-- plan/repair.py: the ids and the dependencies after renumber_steps.
use trip_graph_agent_runtime.Prelude.{
  ℕ, suc, ◌<◌, ◌≡◌, refl, sym, ap, subst, ◌↔◌, ◌⊎◌, inl, inr, ◌∙◌, true, false, some, List, [], ◌∷◌,
  map, elem, range, Distinct-range, length, All, Distinct, leb, leb-false→lt, Bool-cases,
  Option-cases, arith,
}
use trip_graph_agent_runtime.Prelude.Dict.{Dict, lookup, insert, lookup-insert}
use trip_graph_agent_runtime.Prelude.Sort.{sort, by_key, map-sort, length-sort}
use trip_graph_agent_runtime.Prelude.Ascending.{Distinct-sort, Distinct-unsort, Distinct-unmap}
use trip_graph_agent_runtime.Schema.{PlanStep, deps_of, or_none}
use trip_graph_agent_runtime.State.{ids, sorted_steps}
use trip_graph_agent_runtime.State.Schedule.{HasPriorDeps}
use trip_graph_agent_runtime.Repair.{
  number_from, remap_deps, new_id_of, remap_step, id_map_of, renumber_steps,
}

lookup-number_other :
    (k next : ℕ) (m : Dict ℕ) (l : List PlanStep)
    → elem k (ids l) ≡ false
    → lookup k (number_from next m l) ≡ lookup k m
unfolding number_from elem
lookup-number_other k next m [] h = refl
lookup-number_other k next m (s ∷ rest) h =
    ground (
      arith,
      lookup-number_other k (suc next) (insert s.id next m) rest,
      lookup-insert s.id k next m,
    )

-- With distinct ids each step gets its position.
new_ids-range :
    (next : ℕ) (m : Dict ℕ) (l : List PlanStep)
    → Distinct (ids l)
    → map (new_id_of (number_from next m l)) (ids l) ≡ range next (length l)
unfolding number_from
new_ids-range next m [] once = refl
new_ids-range next m (s ∷ rest) once =
    let m' = insert s.id next m in
    let head : new_id_of (number_from (suc next) m' rest) s.id ≡ next =
      unfold new_id_of in
      ground (
        arith,
        lookup-number_other s.id (suc next) m' rest once.0,
        lookup-insert s.id s.id next m,
      ) in
    ground (arith, head, new_ids-range (suc next) m' rest once.1)

-- Every number in the map is a position, or was there before.
lookup-number_cases :
    (k next : ℕ) (m : Dict ℕ) (l : List PlanStep) (v : ℕ)
    → lookup k (number_from next m l) ≡ some v
    → (lookup k m ≡ some v) ⊎ (elem v (range next (length l)) ≡ true)
unfolding number_from elem
lookup-number_cases k next m [] v h = inl h
lookup-number_cases k next m (s ∷ rest) v h = ground (
  arith,
  lookup-number_cases k (suc next) (insert s.id next m) rest v h,
  lookup-insert s.id k next m,
)

ids-map_remap :
    (id_map : Dict ℕ) (l : List PlanStep)
    → ids (map (remap_step id_map) l) ≡ map (new_id_of id_map) (ids l)
unfolding remap_step
ids-map_remap id_map [] = refl
ids-map_remap id_map (s ∷ rest) = ap (λ t. new_id_of id_map s.id ∷ t) (ids-map_remap id_map rest)

ids-sorted : (steps : List PlanStep) → ids (sorted_steps steps) ≡ sort leb (ids steps)
unfolding sorted_steps
ids-sorted steps = map-sort (λ (s : PlanStep). s.id) steps

pub length-sorted : (steps : List PlanStep) → length (sorted_steps steps) ≡ length steps
unfolding sorted_steps
length-sorted steps = length-sort (by_key (λ (s : PlanStep). s.id)) steps

Distinct-sorted :
    (steps : List PlanStep) → Distinct (ids steps) → Distinct (ids (sorted_steps steps))
Distinct-sorted steps once = rw (ids-sorted steps) (Distinct-sort (ids steps) once)

-- renumber_steps gives the ids 1, ..., n in order exactly when the ids that came in were distinct: two
-- steps with one id are given one new id, so renumbering does not repair a plan with duplicate ids.
pub renumber_steps-ids_iff :
    (steps : List PlanStep)
    → (ids (renumber_steps steps).0 ≡ range 1 (length steps)) ↔ Distinct (ids steps)
unfolding renumber_steps id_map_of
renumber_steps-ids_iff steps = (distinct, λ once. numbered (Distinct-sorted steps once))
  where
    moved :
        ids (renumber_steps steps).0 ≡ map (new_id_of (id_map_of steps)) (ids (sorted_steps steps))
    moved = ids-map_remap (id_map_of steps) (sorted_steps steps)

    distinct : ids (renumber_steps steps).0 ≡ range 1 (length steps) → Distinct (ids steps)
    distinct h =
        let positions = subst Distinct (sym h ∙ moved) (Distinct-range 1 (length steps)) in
        let sorted =
          Distinct-unmap (new_id_of (id_map_of steps)) (ids (sorted_steps steps)) positions in
        Distinct-unsort (ids steps) (subst Distinct (ids-sorted steps) sorted)

    numbered :
        Distinct (ids (sorted_steps steps)) → ids (renumber_steps steps).0 ≡ range 1 (length steps)
    numbered once =
        moved ∙ new_ids-range 1 [] (sorted_steps steps) once ∙ ap (range 1) (length-sorted steps)

-- The dependencies that are kept are numbers of the map below the new id.
remap_deps-kept :
    (id_map : Dict ℕ) (k new_id : ℕ) (deps : List ℕ) (good : List ℕ)
    → ((d v : ℕ) → lookup d id_map ≡ some v → elem v good ≡ true)
    → All (λ d. (d < new_id) × (elem d good ≡ true)) (remap_deps id_map k new_id deps).0
unfolding remap_deps
remap_deps-kept id_map k new_id [] good h = tt
remap_deps-kept id_map k new_id (d ∷ ds) good h = elim (Option-cases (lookup d id_map)) [
  | inl missing ↦ rw (missing, remap_deps) (remap_deps-kept id_map k new_id ds good h)
  | inr (v, e) ↦ elim (Bool-cases (leb new_id v)) [
    | inl late ↦ rw (e, remap_deps, late) (remap_deps-kept id_map k new_id ds good h)
    | inr early ↦
        rw (e, remap_deps, early)
          ((leb-false→lt new_id v early, h d v e), remap_deps-kept id_map k new_id ds good h)
  ]
]

deps_of-or_none :
    (s : PlanStep) (n : ℕ) (ds : List ℕ)
    → deps_of (record s { id = n; dependency = or_none ds }) ≡ ds
unfolding deps_of or_none
deps_of-or_none s n [] = refl
deps_of-or_none s n (d ∷ ds) = refl

map_remap-prior :
    (id_map : Dict ℕ) (good : List ℕ) (l : List PlanStep)
    → ((d v : ℕ) → lookup d id_map ≡ some v → elem v good ≡ true)
    → All
        (λ t. All (λ d. (d < t.id) × (elem d good ≡ true)) (deps_of t))
        (map (remap_step id_map) l)
unfolding remap_step
map_remap-prior id_map good [] h = tt
map_remap-prior id_map good (s ∷ rest) h = (
  rw (deps_of-or_none s (new_id_of id_map s.id) _)
      (remap_deps-kept id_map s.id (new_id_of id_map s.id) (deps_of s) good h),
  map_remap-prior id_map good rest h,
)

-- When the ids that come in are distinct, every dependency after renumber_steps is an earlier step
-- of the result, whatever the dependencies were.
pub renumber_steps-prior :
    (steps : List PlanStep)
    → Distinct (ids steps)
    → All (HasPriorDeps (renumber_steps steps).0) (renumber_steps steps).0
unfolding renumber_steps id_map_of
renumber_steps-prior steps once =
    map_remap-prior (id_map_of steps) (ids (renumber_steps steps).0) (sorted_steps steps) λ d v e.
      rw ((renumber_steps-ids_iff steps).1 once)
        (elim (lookup-number_cases d 1 [] (sorted_steps steps) v e) [
          | inl old ↦ absurd (unfold lookup in ground (arith, old))
          | inr inside ↦ rw (length-sorted steps) at inside
        ])
