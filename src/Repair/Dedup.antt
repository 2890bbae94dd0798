-- ===== src/Repair/Dedup.antt =====
-- plan/repair.py: what remove_duplicate_steps keeps.
use trip_graph_agent_runtime.Prelude.{
  ℕ, ◌≡◌, refl, inl, inr, true, false, List, [], ◌∷◌, elem, is_empty, All, Distinct, Bool-cases,
  arith,
}
use trip_graph_agent_runtime.Schema.{PlanStep}
use trip_graph_agent_runtime.State.{ids}
use trip_graph_agent_runtime.Repair.{StepKey, key_of, elem_key, dedup_from, remove_duplicate_steps}

-- One round of the loop.
dedup_from-seen :
    (seen : List StepKey) (s : PlanStep) (rest : List PlanStep)
    → elem_key (key_of s) seen ≡ true
    → (dedup_from seen (s ∷ rest)).0 ≡ (dedup_from seen rest).0
unfolding dedup_from
dedup_from-seen seen s rest e = ground (arith, e)

dedup_from-new :
    (seen : List StepKey) (s : PlanStep) (rest : List PlanStep)
    → elem_key (key_of s) seen ≡ false
    → (dedup_from seen (s ∷ rest)).0 ≡ s ∷ (dedup_from (key_of s ∷ seen) rest).0
unfolding dedup_from
dedup_from-new seen s rest e = ground (arith, e)

module _ {κ} (P : PlanStep → Type κ) where
  pub All-dedup_from :
      (seen : List StepKey) (steps : List PlanStep) → All P steps → All P (dedup_from seen steps).0
  All-dedup_from seen [] h = unfold dedup_from in tt
  All-dedup_from seen (s ∷ rest) h = elim (Bool-cases (elem_key (key_of s) seen)) [
    | inl e ↦ rw (dedup_from-seen seen s rest e) (All-dedup_from seen rest h.1)
    | inr e ↦ rw (dedup_from-new seen s rest e) (h.0, All-dedup_from (key_of s ∷ seen) rest h.1)
  ]

elem-dedup_from :
    (k : ℕ) (seen : List StepKey) (steps : List PlanStep)
    → elem k (ids steps) ≡ false
    → elem k (ids (dedup_from seen steps).0) ≡ false
unfolding elem
elem-dedup_from k seen [] h = unfold dedup_from in refl
elem-dedup_from k seen (s ∷ rest) h = elim (Bool-cases (elem_key (key_of s) seen)) [
  | inl e ↦ rw (dedup_from-seen seen s rest e) (elem-dedup_from k seen rest (ground arith))
  | inr e ↦
      rw (dedup_from-new seen s rest e)
        (ground (arith, elem-dedup_from k (key_of s ∷ seen) rest (ground arith)))
]

pub Distinct-dedup_from :
    (seen : List StepKey) (steps : List PlanStep)
    → Distinct (ids steps)
    → Distinct (ids (dedup_from seen steps).0)
Distinct-dedup_from seen [] h = unfold dedup_from in tt
Distinct-dedup_from seen (s ∷ rest) h = elim (Bool-cases (elem_key (key_of s) seen)) [
  | inl e ↦ rw (dedup_from-seen seen s rest e) (Distinct-dedup_from seen rest h.1)
  | inr e ↦ rw (dedup_from-new seen s rest e) (
    elem-dedup_from s.id (key_of s ∷ seen) rest h.0,
    Distinct-dedup_from (key_of s ∷ seen) rest h.1,
  )
]

-- The first step stays.
pub dedup-not_empty :
    (steps : List PlanStep)
    → is_empty steps ≡ false
    → is_empty (remove_duplicate_steps steps).0 ≡ false
unfolding remove_duplicate_steps
dedup-not_empty [] h = absurd (ground arith)
dedup-not_empty (s ∷ rest) h = rw (dedup_from-new [] s rest (unfold elem_key in refl))

-- The keys of the steps differ from those seen and from one another.
abbrev pub AreNew : List StepKey → List PlanStep → Type 0
AreNew seen [] = Unit
AreNew seen (s ∷ rest) = (elem_key (key_of s) seen ≡ false) × AreNew (key_of s ∷ seen) rest

dedup_from-AreNew :
    (seen : List StepKey) (steps : List PlanStep) → AreNew seen (dedup_from seen steps).0
dedup_from-AreNew seen [] = unfold dedup_from in tt
dedup_from-AreNew seen (s ∷ rest) = elim (Bool-cases (elem_key (key_of s) seen)) [
  | inl e ↦ rw (dedup_from-seen seen s rest e) (dedup_from-AreNew seen rest)
  | inr e ↦ rw (dedup_from-new seen s rest e) (e, dedup_from-AreNew (key_of s ∷ seen) rest)
]

-- Nothing is removed where all keys are new, and no note is written.
dedup_from-fixed :
    (seen : List StepKey) (steps : List PlanStep)
    → AreNew seen steps
    → dedup_from seen steps ≡ (steps, [])
unfolding dedup_from
dedup_from-fixed seen [] h = refl
dedup_from-fixed seen (s ∷ rest) h =
    ground (arith, h.0, dedup_from-fixed (key_of s ∷ seen) rest h.1)

-- remove_duplicate_steps leaves steps whose keys (stripped task and tool hint) are pairwise distinct,
-- and a second pass removes nothing and writes no note.
pub remove_duplicate_steps_idem :
    (steps : List PlanStep)
    → AreNew [] (remove_duplicate_steps steps).0
      × (remove_duplicate_steps (remove_duplicate_steps steps).0
          ≡ ((remove_duplicate_steps steps).0, []))
unfolding remove_duplicate_steps
remove_duplicate_steps_idem steps =
    let new = dedup_from-AreNew [] steps in (new, dedup_from-fixed [] (dedup_from [] steps).0 new)
