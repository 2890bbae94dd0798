-- ===== src/Versions/History.antt =====
-- graph/runtime/state_versioning.py: in a store of versions each version comes after its parent.
use trip_graph_agent_runtime.Prelude.{
  ◌≡◌, refl, sym, String, Bool, true, false, ◌||◌, ◌&&◌, Option, none, some, List, [], ◌∷◌, ◌++◌,
  map, map-append, append_assoc, append-nil, str_eq, eq_iff, Bool-cases, inl, inr, arith, subst,
}
use trip_graph_agent_runtime.Prelude.Names.{has_name, str_eq_refl}
use trip_graph_agent_runtime.Schema.{truthy}
use trip_graph_agent_runtime.Errors.{ok, ◌>>=◌, >>=-eq-ok}
use trip_graph_agent_runtime.AgentState.{AgentState, StateVersion, StateVersionStore, Outside}
use trip_graph_agent_runtime.Versions.Rollback.{rollback-ok}
use trip_graph_agent_runtime.Versions.{
  get_version, ensure_store, add_version, new_version, commit_as, rollback, restore, fork_branch,
  fork_from, open_branch, base_version,
}

pub has_name-append :
    (name : String) (xs ys : List String)
    → has_name name (xs ++ ys) ≡ (has_name name xs || has_name name ys)
unfolding has_name
has_name-append name [] ys = refl
has_name-append name (x ∷ xs) ys = ground (arith, has_name-append name xs ys)

-- No id, or a text that is not empty and stands in the list.
unfoldable pub known : Option String → List String → Bool
known none seen = true
known (some id) seen = truthy (some id) && has_name id seen

module _ {Json : Type 0} where
  abbrev pub version_ids : List (StateVersion Json) → List String
  version_ids versions = map (λ v. v.version_id) versions

  -- Each id is new and not empty, and each parent stands before its version.
  abbrev pub Linked : List String → List (StateVersion Json) → Type 0
  Linked seen [] = Unit
  Linked seen (v ∷ rest) =
      (truthy (some v.version_id) ≡ true)
      × (has_name v.version_id seen ≡ false)
      × (known v.parent_version_id seen ≡ true)
      × Linked (seen ++ (v.version_id ∷ [])) rest

  pub record IsHistory (store : StateVersionStore Json) : Type 0 where
    pub linked : Linked [] store.versions
    pub current_known : known store.current_version_id (version_ids store.versions) ≡ true

  pub Linked-snoc :
      (seen : List String) (versions : List (StateVersion Json)) (v : StateVersion Json)
      → truthy (some v.version_id) ≡ true
      → has_name v.version_id (seen ++ version_ids versions) ≡ false
      → known v.parent_version_id (seen ++ version_ids versions) ≡ true
      → Linked seen versions
      → Linked seen (versions ++ (v ∷ []))
  Linked-snoc seen [] v t new k h = (
    t,
    subst (λ l. has_name v.version_id l ≡ false) (append-nil seen) new,
    subst (λ l. known v.parent_version_id l ≡ true) (append-nil seen) k,
    tt,
  )
  Linked-snoc seen (w ∷ rest) v t new k h = (
    h.0,
    h.1,
    h.2,
    Linked-snoc (seen ++ (w.version_id ∷ [])) rest v t
        (subst (λ l. has_name v.version_id l ≡ false)
          (sym (append_assoc seen (w.version_id ∷ []) (version_ids rest))) new)
        (subst (λ l. known v.parent_version_id l ≡ true)
          (sym (append_assoc seen (w.version_id ∷ []) (version_ids rest))) k)
        h.3,
  )

  -- What get_version finds stands in the list, under its id.
  pub get_version-some :
      (id : String) (versions : List (StateVersion Json)) (v : StateVersion Json)
      → get_version id versions ≡ some v
      → (v.version_id ≡ id) × (has_name id (version_ids versions) ≡ true)
  unfolding get_version has_name
  get_version-some id [] v h = cc
  get_version-some id (w ∷ rest) v h =
      ground (arith, eq_iff w.version_id id, eq_iff id w.version_id, get_version-some id rest v)

  pub version_ids-append :
      (versions more : List (StateVersion Json))
      → version_ids (versions ++ more) ≡ version_ids versions ++ version_ids more
  version_ids-append versions more = map-append (λ v. v.version_id) versions more

  pub known-last :
      (versions : List (StateVersion Json)) (v : StateVersion Json)
      → truthy (some v.version_id) ≡ true
      → known (some v.version_id) (version_ids (versions ++ (v ∷ []))) ≡ true
  unfolding known has_name
  known-last versions v t =
      subst (λ l. known (some v.version_id) l ≡ true) (sym (version_ids-append versions (v ∷ [])))
        (ground (
          arith,
          t,
          has_name-append v.version_id (version_ids versions) (v.version_id ∷ []),
          str_eq_refl v.version_id,
        ))

  module _ {World : Type 0} (out : Outside Json World) where
    -- A commit under an id that is new and not empty keeps the history of the versions, and the new
    -- version comes last.
    pub commit_as-IsHistory :
        (id node_id : String) (s : AgentState Json)
        → truthy (some id) ≡ true
        → has_name id (version_ids (ensure_store s).versions) ≡ false
        → IsHistory (ensure_store s)
        → IsHistory (ensure_store (commit_as out id node_id s))
    unfolding commit_as ensure_store add_version new_version
    commit_as-IsHistory id node_id s t new h = record {
      linked =
          Linked-snoc [] (ensure_store s).versions (new_version out id node_id s (ensure_store s)) t
            new h.current_known h.linked;
      current_known =
          known-last (ensure_store s).versions (new_version out id node_id s (ensure_store s)) t;
    }

  restore-IsHistory :
      (t : AgentState Json) (version : StateVersion Json)
      → known (some version.version_id) (version_ids (ensure_store t).versions) ≡ true
      → IsHistory (ensure_store t)
      → IsHistory (ensure_store (restore (ensure_store t) version t))
  unfolding restore ensure_store
  restore-IsHistory t version k h = record { linked = h.linked; current_known = k }

  Linked-truthy :
      (seen : List String) (versions : List (StateVersion Json)) (id : String)
      (v : StateVersion Json)
      → Linked seen versions
      → get_version id versions ≡ some v
      → truthy (some v.version_id) ≡ true
  unfolding get_version
  Linked-truthy seen [] id v h g = cc
  Linked-truthy seen (w ∷ rest) id v h g = elim (Bool-cases (str_eq w.version_id id)) [
    | inl e ↦ ground (arith, h.0)
    | inr e ↦ Linked-truthy (seen ++ (w.version_id ∷ [])) rest id v h.3 (ground arith)
  ]

  known-found :
      (versions : List (StateVersion Json)) (id : String) (v : StateVersion Json)
      → Linked [] versions
      → get_version id versions ≡ some v
      → known (some v.version_id) (version_ids versions) ≡ true
  unfolding known
  known-found versions id v h g =
      let found = get_version-some id versions v g in
      ground (arith, Linked-truthy [] versions id v h g, found.0, found.1)

  pub rollback-IsHistory :
      (t r : AgentState Json) (id : String)
      → rollback t id ≡ ok r
      → IsHistory (ensure_store t)
      → IsHistory (ensure_store r)
  rollback-IsHistory t r id e h =
      let inverted = rollback-ok t r id e in
      subst (λ (q : AgentState Json). IsHistory (ensure_store q)) inverted.2
        (restore-IsHistory t inverted.0
          (known-found (ensure_store t).versions id inverted.0 h.linked inverted.1) h)

  fork_from-IsHistory :
      (name : Option String) (base : String) (s : AgentState Json)
      → IsHistory (ensure_store s)
      → IsHistory (ensure_store (fork_from name base s).1)
  unfolding fork_from ensure_store open_branch
  fork_from-IsHistory name base s h = record { linked = h.linked; current_known = h.current_known }

  fork_branch-ok :
      (from name : Option String) (s t : AgentState Json) (branch : String)
      → fork_branch from name s ≡ ok (branch, t)
      → (base : String) × (r : AgentState Json) × (rollback s base ≡ ok r)
        × ((fork_from name base r).1 ≡ t)
  unfolding fork_branch
  fork_branch-ok from name s t branch e =
      let base =
        >>=-eq-ok (base_version from (ensure_store s).current_version_id)
          (λ id. rollback s id >>= λ r. ok (fork_from name id r)) e in
      let back = >>=-eq-ok (rollback s base.0) (λ r. ok (fork_from name base.0 r)) base.2 in
      (base.0, back.0, back.1, ground (arith, back.2))

  pub fork_branch-IsHistory :
      (from name : Option String) (s t : AgentState Json) (branch : String)
      → fork_branch from name s ≡ ok (branch, t)
      → IsHistory (ensure_store s)
      → IsHistory (ensure_store t)
  fork_branch-IsHistory from name s t branch e h =
      let p = fork_branch-ok from name s t branch e in
      subst (λ (q : AgentState Json). IsHistory (ensure_store q)) p.3
        (fork_from-IsHistory name p.0 p.1 (rollback-IsHistory s p.1 p.0 p.2 h))
