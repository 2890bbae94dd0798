-- ===== src/State/Lookup.antt =====
-- plan/state.py: facts about the status table and the search for a step.
use trip_graph_agent_runtime.Prelude.{
  ℕ, ◌≡◌, refl, inl, inr, Bool, true, false, ◌||◌, none, some, List, [], ◌∷◌, elem, All, Distinct,
  select, ◌==◌, ==_iff, Bool-cases, if◌then◌else◌, arith,
}
use trip_graph_agent_runtime.Prelude.Dict.{
  Dict, lookup, insert, remove, remove_all, insert_all, keys, lookup-insert,
}
use trip_graph_agent_runtime.Errors.{ok}
use trip_graph_agent_runtime.Schema.{StepStatus, PlanStep, is_finished}
use trip_graph_agent_runtime.State.{ids, find_in, finished_in}

-- The status of a step is COMPLETED or SKIPPED.
unfoldable pub finished_at : Dict StepStatus → ℕ → Bool
finished_at d k = elim (lookup k d) [ none ↦ false | some st ↦ is_finished st ]

pub finished_at→found :
    (d : Dict StepStatus) (k : ℕ)
    → finished_at d k ≡ true
    → (st : StepStatus) × (lookup k d ≡ some st) × (is_finished st ≡ true)
unfolding finished_at
finished_at→found d k h = ground arith

pub finished_at-eq :
    (d : Dict StepStatus) (k : ℕ) (st : StepStatus)
    → lookup k d ≡ some st
    → finished_at d k ≡ is_finished st
unfolding finished_at
finished_at-eq d k st e = ground arith

module _ {ℓ} {V : Type ℓ} where
  pub lookup-not_elem : (k : ℕ) (d : Dict V) → elem k (keys d) ≡ false → lookup k d ≡ none
  unfolding lookup elem
  lookup-not_elem k [] h = refl
  lookup-not_elem k ((j, v) ∷ d) h = ground (arith, lookup-not_elem k d)

  lookup-elem : (k : ℕ) (d : Dict V) → elem k (keys d) ≡ true → (v : V) × (lookup k d ≡ some v)
  unfolding lookup elem
  lookup-elem k [] h = cc
  lookup-elem k ((j, v) ∷ d) h = elim (Bool-cases (j == k)) [
    | inl e ↦ (v, rw e)
    | inr e ↦ rw e (lookup-elem k d (ground arith))
  ]

  elem-keys-insert :
      (k j : ℕ) (v : V) (d : Dict V) → elem j (keys (insert k v d)) ≡ (k == j || elem j (keys d))
  unfolding insert elem
  elem-keys-insert k j v [] = ground arith
  elem-keys-insert k j v ((i, w) ∷ d) = ground (arith, elem-keys-insert k j v d)

  elem-keys-remove :
      (k j : ℕ) (d : Dict V) → elem j (keys d) ≡ false → elem j (keys (remove k d)) ≡ false
  unfolding remove elem
  elem-keys-remove k j [] h = refl
  elem-keys-remove k j ((i, w) ∷ d) h = ground (arith, elem-keys-remove k j d)

  pub Distinct-insert :
      (k : ℕ) (v : V) (d : Dict V) → Distinct (keys d) → Distinct (keys (insert k v d))
  unfolding insert elem
  Distinct-insert k v [] h = (refl, tt)
  Distinct-insert k v ((i, w) ∷ d) h = elim (Bool-cases (i == k)) [
    | inl e ↦ rw e h
    | inr e ↦ rw e (ground (arith, elem-keys-insert k i v d), Distinct-insert k v d h.1)
  ]

  Distinct-remove : (k : ℕ) (d : Dict V) → Distinct (keys d) → Distinct (keys (remove k d))
  unfolding remove elem
  Distinct-remove k [] h = tt
  Distinct-remove k ((i, w) ∷ d) h = elim (Bool-cases (i == k)) [
    | inl e ↦ rw e (Distinct-remove k d h.1)
    | inr e ↦ rw e (elem-keys-remove k i d h.0, Distinct-remove k d h.1)
  ]

  pub Distinct-insert_all :
      (ks : List ℕ) (v : V) (d : Dict V) → Distinct (keys d) → Distinct (keys (insert_all ks v d))
  unfolding insert_all
  Distinct-insert_all [] v d h = h
  Distinct-insert_all (k ∷ ks) v d h =
      Distinct-insert_all ks v (insert k v d) (Distinct-insert k v d h)

  pub Distinct-remove_all :
      (ks : List ℕ) (d : Dict V) → Distinct (keys d) → Distinct (keys (remove_all ks d))
  unfolding remove_all
  Distinct-remove_all [] d h = h
  Distinct-remove_all (k ∷ ks) d h = Distinct-remove_all ks (remove k d) (Distinct-remove k d h)

-- Only keys of the table are among the finished ids.
elem-finished_not_key :
    (k : ℕ) (d : Dict StepStatus) → elem k (keys d) ≡ false → elem k (finished_in d) ≡ false
unfolding finished_in select elem
elem-finished_not_key k [] h = refl
elem-finished_not_key k ((j, st) ∷ d) h = ground (arith, elem-finished_not_key k d)

-- finished_step_ids holds exactly the ids whose status is COMPLETED or SKIPPED.
pub elem-finished_in :
    (k : ℕ) (d : Dict StepStatus) → Distinct (keys d) → elem k (finished_in d) ≡ finished_at d k
unfolding finished_in finished_at select elem lookup
elem-finished_in k [] h = refl
elem-finished_in k ((j, st) ∷ d) h = ground (arith, elem-finished_in k d, elem-finished_not_key k d)

pub finished_at-insert :
    (k j : ℕ) (st : StepStatus) (d : Dict StepStatus)
    → finished_at (insert k st d) j ≡ (if k == j then is_finished st else finished_at d j)
unfolding finished_at
finished_at-insert k j st d = ground (arith, lookup-insert k j st d)

module _ {κ} (P : PlanStep → Type κ) where
  pub All-elem :
      (steps : List PlanStep) (k : ℕ)
      → All P steps
      → elem k (ids steps) ≡ true
      → (s : PlanStep) × (find_in steps k ≡ ok s) × (s.id ≡ k) × P s
  unfolding find_in elem
  All-elem [] k hs h = cc
  All-elem (s ∷ rest) k hs h = elim (Bool-cases (s.id == k)) [
    | inl e ↦ (s, rw e, (==_iff _ _).0 e, hs.0)
    | inr e ↦ rw e (All-elem rest k hs.1 (ground arith))
  ]
