-- ===== src/Merge/Dedupe.antt =====
-- graph/runtime/state_merge.py: _dedupe_list keeps the first item for each text, and loses none.
use trip_graph_agent_runtime.Prelude.{
  ◌≡◌, refl, String, false, ◌||◌, List, [], ◌∷◌, map, Bool-cases, inl, inr, eq_iff, arith,
}
use trip_graph_agent_runtime.Prelude.Names.{has_name}
use trip_graph_agent_runtime.Merge.{dedupe_from, dedupe_list}

-- No text occurs twice, nor stands in `seen`.
abbrev pub NoRepeat : {A : Type 0} → (A → String) → List String → List A → Type 0
NoRepeat key seen [] = Unit
NoRepeat key seen (x ∷ xs) = (has_name (key x) seen ≡ false) × NoRepeat key (key x ∷ seen) xs

module _ {A : Type 0} (key : A → String) where
  NoRepeat-dedupe_from :
      (seen : List String) (xs : List A) → NoRepeat key seen (dedupe_from key seen xs)
  unfolding dedupe_from
  NoRepeat-dedupe_from seen [] = tt
  NoRepeat-dedupe_from seen (x ∷ xs) = elim (Bool-cases (has_name (key x) seen)) [
    | inl e ↦ rw e (NoRepeat-dedupe_from seen xs)
    | inr e ↦ rw e (e, NoRepeat-dedupe_from (key x ∷ seen) xs)
  ]

  -- A list without repetition is left as it is.
  dedupe_from-NoRepeat :
      (seen : List String) (xs : List A) → NoRepeat key seen xs → dedupe_from key seen xs ≡ xs
  unfolding dedupe_from
  dedupe_from-NoRepeat seen [] h = refl
  dedupe_from-NoRepeat seen (x ∷ xs) h =
      rw h.0 (ground (arith, dedupe_from-NoRepeat (key x ∷ seen) xs h.1))

  pub dedupe_list_idem : (xs : List A) → dedupe_list key (dedupe_list key xs) ≡ dedupe_list key xs
  unfolding dedupe_list
  dedupe_list_idem xs = dedupe_from-NoRepeat [] (dedupe_from key [] xs) (NoRepeat-dedupe_from [] xs)

  pub has_name-dedupe_from :
      (name : String) (seen : List String) (xs : List A)
      → (has_name name (map key (dedupe_from key seen xs)) || has_name name seen)
        ≡ (has_name name (map key xs) || has_name name seen)
  unfolding dedupe_from has_name
  has_name-dedupe_from name seen [] = refl
  has_name-dedupe_from name seen (x ∷ xs) = elim (Bool-cases (has_name (key x) seen)) [
    | inl e ↦ rw e (ground (arith, has_name-dedupe_from name seen xs, eq_iff name (key x)))
    | inr e ↦ rw e (ground (arith, has_name-dedupe_from name (key x ∷ seen) xs))
  ]

  -- The texts of the items are the same before and after.
  pub has_name-dedupe_list :
      (name : String) (xs : List A)
      → has_name name (map key (dedupe_list key xs)) ≡ has_name name (map key xs)
  unfolding dedupe_list has_name
  has_name-dedupe_list name xs = ground (arith, has_name-dedupe_from name [] xs)
