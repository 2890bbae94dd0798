-- ===== src/Merge/Stores.antt =====
-- graph/runtime/state_merge.py: the merge of two version stores.
use trip_graph_agent_runtime.Prelude.{
  ◌≡◌, refl, sym, ap, ◌∙◌, String, true, ◌||◌, Option, none, some, List, [], ◌∷◌, ◌++◌, Bool-cases,
  inl, inr, eq_iff, arith, subst, append_assoc, append-nil, if◌then◌else◌, if-true, if-false,
}
use trip_graph_agent_runtime.Prelude.Names.{has_name}
use trip_graph_agent_runtime.Schema.{truthy}
use trip_graph_agent_runtime.AgentState.{StateVersion, StateVersionStore}
use trip_graph_agent_runtime.Versions.History.{
  version_ids, version_ids-append, Linked, IsHistory, known, has_name-append,
}
use trip_graph_agent_runtime.Merge.{dedupe_from, new_versions, merge_stores}
use trip_graph_agent_runtime.Merge.Dedupe.{has_name-dedupe_from}

known_mono :
    (id : Option String) (xs ys : List String)
    → ((name : String) → has_name name xs ≡ true → has_name name ys ≡ true)
    → known id xs ≡ true
    → known id ys ≡ true
unfolding known
known_mono none xs ys more h = refl
known_mono (some id) xs ys more h = ground (arith, h, more id)

known_or :
    (right left : Option String) (names : List String)
    → known right names ≡ true
    → known left names ≡ true
    → known (if truthy right then right else left) names ≡ true
known_or right left names hr hl = elim (Bool-cases (truthy right)) [
  | inl e ↦ rw e hr
  | inr e ↦ rw e hl
]

module _ {Json : Type 0} where
  Linked-append :
      (seen : List String) (xs ys : List (StateVersion Json))
      → Linked seen xs
      → Linked (seen ++ version_ids xs) ys
      → Linked seen (xs ++ ys)
  Linked-append seen [] ys hx hy = subst (λ l. Linked l ys) (append-nil seen) hy
  Linked-append seen (v ∷ xs) ys hx hy = (
    hx.0,
    hx.1,
    hx.2,
    Linked-append (seen ++ (v.version_id ∷ [])) xs ys hx.3 (
        subst (λ l. Linked l ys) (sym (append_assoc seen (v.version_id ∷ []) (version_ids xs))) hy),
  )

  -- `before` are the ids that stand before in the right store, `merged` those in the merged one.
  Linked-new_versions :
      (versions : List (StateVersion Json)) (before merged seen : List String)
      → Linked before versions
      → ((name : String) → has_name name before ≡ true → has_name name merged ≡ true)
      → ((name : String) → has_name name merged ≡ has_name name seen)
      → Linked merged (new_versions seen versions)
  unfolding dedupe_from has_name
  Linked-new_versions [] before merged seen h more same = tt
  Linked-new_versions (v ∷ rest) before merged seen h more same =
      elim (Bool-cases (has_name v.version_id seen)) [
        | inl e ↦
            subst (λ (l : List (StateVersion Json)). Linked merged l)
              (sym (if-true (has_name v.version_id seen) _ _ e))
              (Linked-new_versions rest (before ++ (v.version_id ∷ [])) merged seen h.3
                (λ name m. ground (
                  arith,
                  e,
                  more name,
                  same name,
                  has_name-append name before (v.version_id ∷ []),
                  eq_iff name v.version_id,
                ))
                same)
        | inr e ↦
            subst (λ (l : List (StateVersion Json)). Linked merged l)
              (sym (if-false (has_name v.version_id seen) _ _ e))
              (
                h.0,
                same v.version_id ∙ e,
                known_mono v.parent_version_id before merged more h.2,
                Linked-new_versions rest (before ++ (v.version_id ∷ []))
                    (merged ++ (v.version_id ∷ [])) (v.version_id ∷ seen) h.3
                    (λ name m. ground (
                      arith,
                      more name,
                      m,
                      has_name-append name before (v.version_id ∷ []),
                      has_name-append name merged (v.version_id ∷ []),
                    ))
                    (λ name.
                      ground (arith, same name, has_name-append name merged (v.version_id ∷ []))),
              )
      ]

  pub has_name-merged :
      (name : String) (left right : List (StateVersion Json))
      → has_name name (version_ids (left ++ new_versions (version_ids left) right))
        ≡ (has_name name (version_ids left) || has_name name (version_ids right))
  unfolding has_name
  has_name-merged name left right =
      ap (has_name name) (version_ids-append left (new_versions (version_ids left) right))
      ∙ ground (
        arith,
        has_name-append name (version_ids left)
            (version_ids (new_versions (version_ids left) right)),
        has_name-dedupe_from (λ (v : StateVersion Json). v.version_id) name (version_ids left)
            right,
      )

  -- The merge of two stores whose versions are in order is in order again: a version that only the
  -- right store has comes after its parent, no id stands twice, and the current version is there.
  -- It has the versions of both.
  pub merge_stores-IsHistory :
      (left right : StateVersionStore Json)
      → IsHistory left
      → IsHistory right
      → IsHistory (merge_stores left right)
        × ((name : String)
            → has_name name (version_ids (merge_stores left right).versions) ≡ (
                has_name name (version_ids left.versions)
                || has_name name (version_ids right.versions)))
  unfolding merge_stores
  merge_stores-IsHistory left right hl hr = (
    record {
      linked =
          Linked-append [] left.versions (new_versions (version_ids left.versions) right.versions)
            hl.linked
            (Linked-new_versions right.versions [] (version_ids left.versions)
              (version_ids left.versions) hr.linked (λ name m. cc) (λ name. refl));
      current_known =
          known_or right.current_version_id left.current_version_id
            (version_ids (left.versions ++ new_versions (version_ids left.versions) right.versions))
            (known_mono right.current_version_id (version_ids right.versions) _
              (λ name m. ground (arith, m, has_name-merged name left.versions right.versions))
              hr.current_known)
            (known_mono left.current_version_id (version_ids left.versions) _
              (λ name m. ground (arith, m, has_name-merged name left.versions right.versions))
              hl.current_known);
    },
    λ name. has_name-merged name left.versions right.versions,
  )
