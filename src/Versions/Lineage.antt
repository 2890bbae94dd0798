-- ===== src/Versions/Lineage.antt =====
-- schemas/state_versioning.py: the loop of lineage ends, and what it returns.
use trip_graph_agent_runtime.Prelude.{
  ℕ, zero, suc, ◌+◌, ◌≡◌, refl, sym, ap, ◌∙◌, String, true, false, Option, none, some, List, [],
  ◌∷◌, ◌++◌, append_assoc, append-nil, eq_iff, if-true, Bool-cases, Option-cases, inl, inr, arith,
  subst, length, All,
}
use mathlib.Core.List.{reverse}
use mathlib.Core.Option
use trip_graph_agent_runtime.Prelude.Names.{has_name, str_eq_refl}
use trip_graph_agent_runtime.Schema.{truthy}
use trip_graph_agent_runtime.AgentState.{StateVersion, StateVersionStore}
use trip_graph_agent_runtime.Versions.{get_version, visit, walk, lineage}
use trip_graph_agent_runtime.Versions.History.{
  version_ids, Linked, IsHistory, known, version_ids-append, has_name-append,
}

has_name-last :
    (other id : String) (seen : List String)
    → has_name other seen ≡ false
    → has_name other (seen ++ (id ∷ [])) ≡ true
    → id ≡ other
unfolding has_name
has_name-last other id seen new h =
    ground (arith, has_name-append other seen (id ∷ []), eq_iff other id)

nothing_seen : (name : String) → ¬ (has_name name [] ≡ true)
unfolding has_name
nothing_seen name h = cc

module _ {Json : Type 0} where
  -- From a version to its oldest ancestor: each element is the parent of the one before.
  abbrev pub Descends : Option String → List (StateVersion Json) → Type 0
  Descends cursor [] = truthy cursor ≡ false
  Descends cursor (v ∷ rest) = (cursor ≡ some v.version_id) × Descends v.parent_version_id rest

  get_version-skip :
      (id : String) (pre rest : List (StateVersion Json))
      → has_name id (version_ids pre) ≡ false
      → get_version id (pre ++ rest) ≡ get_version id rest
  unfolding get_version has_name
  get_version-skip id [] rest h = refl
  get_version-skip id (v ∷ pre) rest h =
      ground (arith, get_version-skip id pre rest, eq_iff v.version_id id, eq_iff id v.version_id)

  -- Each version of a store in order is found under its id.
  All-get_version :
      (pre versions : List (StateVersion Json))
      → Linked (version_ids pre) versions
      → All (λ v. get_version v.version_id (pre ++ versions) ≡ some v) versions
  unfolding get_version
  All-get_version pre [] h = tt
  All-get_version pre (v ∷ rest) h = (
    get_version-skip v.version_id pre (v ∷ rest) h.1 ∙ rw (str_eq_refl v.version_id) refl,
    subst (λ l. All (λ w. get_version w.version_id l ≡ some w) rest)
        (append_assoc pre (v ∷ []) rest)
        (All-get_version (pre ++ (v ∷ [])) rest
          (subst (λ l. Linked l rest) (sym (version_ids-append pre (v ∷ []))) h.3)),
  )

  visit_more :
      (found : Option (StateVersion Json))
      (up up' : Option String → Option (List (StateVersion Json)))
      (chain : List (StateVersion Json))
      → ((p : Option String) (c : List (StateVersion Json)) → up p ≡ some c → up' p ≡ some c)
      → visit found up ≡ some chain
      → visit found up' ≡ some chain
  unfolding visit
  visit_more none up up' chain more h = h
  visit_more (some v) up up' chain more h = elim (Option-cases (up v.parent_version_id)) [
    | inl e ↦ absurd (ground (arith, e))
    | inr (c, e) ↦ ground (arith, e, more v.parent_version_id c e)
  ]

  module _ (all : List (StateVersion Json)) where
    walk_more :
        (fuel : ℕ) (cursor : Option String) (chain : List (StateVersion Json))
        → walk fuel all cursor ≡ some chain
        → walk (suc fuel) all cursor ≡ some chain
    unfolding walk
    walk_more zero cursor chain h = cc
    walk_more (suc fuel) none chain h = h
    walk_more (suc fuel) (some id) chain h = elim (Bool-cases (truthy (some id))) [
      | inl e ↦ rw e (
          visit_more (get_version id all) (walk fuel all) (walk (suc fuel) all) chain
            (λ p c. walk_more fuel p c) (rw e at h))
      | inr e ↦ rw e (rw e at h)
    ]

    -- The loop ends within the fuel, with the ancestors of the version.
    abbrev Ends : ℕ → Option String → Type 0
    Ends fuel cursor =
        (chain : List (StateVersion Json)) × (walk fuel all cursor ≡ some chain)
        × Descends cursor chain

    Ends-suc : (fuel : ℕ) (cursor : Option String) → Ends fuel cursor → Ends (suc fuel) cursor
    Ends-suc fuel cursor h = (h.0, walk_more fuel cursor h.0 h.1, h.2)

    -- A version whose parent's walk ends has a walk that ends one round later.
    Ends-version :
        (fuel : ℕ) (v : StateVersion Json)
        → truthy (some v.version_id) ≡ true
        → get_version v.version_id all ≡ some v
        → Ends fuel v.parent_version_id
        → Ends (suc fuel) (some v.version_id)
    unfolding walk visit
    Ends-version fuel v t g (chain, e, d) = (v ∷ chain, rw (t, g, e) refl, (refl, d))

    Ends-parent :
        (fuel : ℕ) (parent : Option String) (seen : List String)
        → ((id : String) → has_name id seen ≡ true → Ends (suc fuel) (some id))
        → known parent seen ≡ true
        → Ends (suc fuel) parent
    unfolding walk known truthy
    Ends-parent fuel none seen ends h = ([], refl, refl)
    Ends-parent fuel (some id) seen ends h = ends id (ground arith)

    Ends-versions :
        (versions : List (StateVersion Json)) (seen : List String) (fuel : ℕ)
        → Linked seen versions
        → All (λ v. get_version v.version_id all ≡ some v) versions
        → ((id : String) → has_name id seen ≡ true → Ends (suc fuel) (some id))
        → (id : String) → has_name id (seen ++ version_ids versions) ≡ true
        → Ends (suc fuel + length versions) (some id)
    Ends-versions [] seen fuel linked found ends id h =
        subst (λ n. Ends n (some id)) (omega arith)
          (ends id (subst (λ l. has_name id l ≡ true) (append-nil seen) h))
    Ends-versions (v ∷ rest) seen fuel linked found ends id h =
        subst (λ n. Ends n (some id)) (omega arith)
          (Ends-versions rest (seen ++ (v.version_id ∷ [])) (suc fuel) linked.3 found.1
            (λ other m. Ends-next other m) id
            (subst (λ l. has_name id l ≡ true)
              (sym (append_assoc seen (v.version_id ∷ []) (version_ids rest))) h))
      where
        Ends-next :
            (other : String)
            → has_name other (seen ++ (v.version_id ∷ [])) ≡ true
            → Ends (suc (suc fuel)) (some other)
        Ends-next other m = elim (Bool-cases (has_name other seen)) [
          | inl e ↦ Ends-suc (suc fuel) (some other) (ends other e)
          | inr e ↦
              subst (λ n. Ends (suc (suc fuel)) (some n))
                (has_name-last other v.version_id seen e m)
                (Ends-version (suc fuel) v linked.0 found.0
                  (Ends-parent fuel v.parent_version_id seen ends linked.2))
        ]

  lineage_of_walk :
      (store : StateVersionStore Json) (id : String) (chain : List (StateVersion Json))
      → truthy (some id) ≡ true
      → walk (suc (length store.versions)) store.versions (some id) ≡ some chain
      → lineage store (some id) ≡ some (reverse chain)
  unfolding lineage
  lineage_of_walk store id chain t e =
      ap (λ c. Option.map reverse (walk (suc (length store.versions)) store.versions c))
        (if-true (truthy (some id)) (some id) store.current_version_id t)
      ∙ ap (Option.map reverse) e

  -- In a store whose versions are in order, lineage ends for the id of any version. It returns the
  -- ancestors of that version, the oldest first: read backwards, they start with the version, go
  -- on with the parent of each, and end at one that has no parent.
  pub lineage-Descends :
      (store : StateVersionStore Json) (id : String)
      → IsHistory store
      → truthy (some id) ≡ true
      → has_name id (version_ids store.versions) ≡ true
      → (chain : List (StateVersion Json)) × (lineage store (some id) ≡ some (reverse chain))
        × Descends (some id) chain
  lineage-Descends store id h t m =
      let ends =
        Ends-versions store.versions store.versions [] 0 h.linked
          (All-get_version [] store.versions h.linked) (λ other m. absurd (nothing_seen other m)) id
          m in
      (
        ends.0,
        lineage_of_walk store id ends.0 t
            (subst (λ n. walk n store.versions (some id) ≡ some ends.0) (omega arith) ends.1),
        ends.2,
      )
