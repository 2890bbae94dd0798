-- ===== src/Prelude/Sort.antt =====
-- `sorted(xs, key=...)`: a stable insertion sort by a test `le a b`, which says that the key of `a`
-- is not above the key of `b`.
use Prim.Native.Nat.{ℕ, suc, ◌≤◌}
use mathlib.Core.Path.{◌≡◌, refl, ap, ◌∙◌}
use mathlib.Core.Logic.{◌≢◌}
use mathlib.Core.Bool.{Bool, false}
use mathlib.Core.List.{List, [], ◌∷◌, map}
use native.Mathlib.Omega.{arith}
use mathlib.Core.Logic.{inl, inr}
use trip_graph_agent_runtime.Prelude.Tests.{
  leb, leb→le, le→leb, leb-false→lt, Bool-cases, if◌then◌else◌,
}
use trip_graph_agent_runtime.Prelude.Lists.{length, elem, Distinct, All}

module _ {ℓ} {A : Type ℓ} (le : A → A → Bool) where
  unfoldable pub insert_sorted : A → List A → List A
  insert_sorted x [] = x ∷ []
  insert_sorted x (y ∷ ys) = if le x y then x ∷ y ∷ ys else y ∷ insert_sorted x ys

  unfoldable pub sort : List A → List A
  unfolding insert_sorted
  sort [] = []
  sort (x ∷ xs) = insert_sorted x (sort xs)

module _ {ℓ} {A : Type ℓ} (le : A → A → Bool) where
  length-insert_sorted : (x : A) (xs : List A) → length (insert_sorted le x xs) ≡ suc (length xs)
  unfolding insert_sorted
  length-insert_sorted x [] = refl
  length-insert_sorted x (y ∷ ys) = ground (arith, length-insert_sorted x ys)

  pub length-sort : (xs : List A) → length (sort le xs) ≡ length xs
  unfolding sort
  length-sort [] = refl
  length-sort (x ∷ xs) = omega (arith, length-insert_sorted x (sort le xs), length-sort xs)

-- Sorting keeps what holds of every element.
module _ {ℓ κ} {A : Type ℓ} (P : A → Type κ) (le : A → A → Bool) where
  All-insert_sorted : (x : A) (xs : List A) → P x → All P xs → All P (insert_sorted le x xs)
  unfolding insert_sorted
  All-insert_sorted x [] h hs = (h, tt)
  All-insert_sorted x (y ∷ ys) h hs = elim (Bool-cases (le x y)) [
    | inl e ↦ rw e (h, hs)
    | inr e ↦ rw e (hs.0, All-insert_sorted x ys h hs.1)
  ]

  pub All-sort : (xs : List A) → All P xs → All P (sort le xs)
  unfolding sort
  All-sort [] hs = tt
  All-sort (x ∷ xs) hs = All-insert_sorted x (sort le xs) hs.0 (All-sort xs hs.1)

-- Sorting by a numeric key.
module _ {ℓ} {A : Type ℓ} (key : A → ℕ) where
  abbrev pub by_key : A → A → Bool
  by_key a b = leb (key a) (key b)

  -- In ascending order of the key.
  abbrev pub Ordered : List A → Type 0
  Ordered [] = Unit
  Ordered (x ∷ xs) = All (λ y. key x ≤ key y) xs × Ordered xs

module _ {ℓ} {A : Type ℓ} (key : A → ℕ) where
  All-key_le : (a b : ℕ) (xs : List A) → a ≤ b → All (λ y. b ≤ key y) xs → All (λ y. a ≤ key y) xs
  All-key_le a b [] h hs = tt
  All-key_le a b (x ∷ xs) h hs = (omega arith, All-key_le a b xs h hs.1)

  Ordered-insert_sorted :
      (x : A) (xs : List A) → Ordered key xs → Ordered key (insert_sorted (by_key key) x xs)
  unfolding insert_sorted
  Ordered-insert_sorted x [] hs = (tt, tt)
  Ordered-insert_sorted x (y ∷ ys) hs = elim (Bool-cases (leb (key x) (key y))) [
    | inl e ↦ rw e ((leb→le _ _ e, All-key_le (key x) (key y) ys (leb→le _ _ e) hs.0), hs)
    | inr e ↦ rw e (
      All-insert_sorted (λ z. key y ≤ key z) (by_key key) x ys
          (omega (arith, leb-false→lt (key x) (key y) e)) hs.0,
      Ordered-insert_sorted x ys hs.1,
    )
  ]

  pub Ordered-sort : (xs : List A) → Ordered key (sort (by_key key) xs)
  unfolding sort
  Ordered-sort [] = tt
  Ordered-sort (x ∷ xs) = Ordered-insert_sorted x (sort (by_key key) xs) (Ordered-sort xs)

  insert_sorted-Ordered :
      (x : A) (xs : List A) → Ordered key (x ∷ xs) → insert_sorted (by_key key) x xs ≡ x ∷ xs
  unfolding insert_sorted
  insert_sorted-Ordered x [] h = refl
  insert_sorted-Ordered x (y ∷ ys) h = rw (le→leb (key x) (key y) h.0.0)

  -- A list in order is left as it is.
  pub sort-Ordered : (xs : List A) → Ordered key xs → sort (by_key key) xs ≡ xs
  unfolding sort
  sort-Ordered [] h = refl
  sort-Ordered (x ∷ xs) h = rw (sort-Ordered xs h.1) (insert_sorted-Ordered x xs h)

  insert_sorted_comm :
      (x y : A) (xs : List A)
      → key x ≢ key y
      → insert_sorted (by_key key) x (insert_sorted (by_key key) y xs)
        ≡ insert_sorted (by_key key) y (insert_sorted (by_key key) x xs)
  unfolding insert_sorted
  insert_sorted_comm x y [] h = ground arith
  insert_sorted_comm x y (z ∷ zs) h = ground (arith, insert_sorted_comm x y zs)

  -- The keys after sorting are the sorted keys.
  map-insert_sorted :
      (x : A) (xs : List A)
      → map key (insert_sorted (by_key key) x xs) ≡ insert_sorted leb (key x) (map key xs)
  unfolding insert_sorted
  map-insert_sorted x [] = refl
  map-insert_sorted x (y ∷ ys) = ground (arith, map-insert_sorted x ys)

  pub map-sort : (xs : List A) → map key (sort (by_key key) xs) ≡ sort leb (map key xs)
  unfolding sort
  map-sort [] = refl
  map-sort (x ∷ xs) =
      map-insert_sorted x (sort (by_key key) xs) ∙ ap (insert_sorted leb (key x)) (map-sort xs)

  -- Sorting by any test keeps the keys, as a set.
  module _ (le : A → A → Bool) where
    elem-insert_sorted :
        (k : ℕ) (x : A) (xs : List A)
        → elem k (map key (insert_sorted le x xs)) ≡ elem k (key x ∷ map key xs)
    unfolding insert_sorted elem
    elem-insert_sorted k x [] = refl
    elem-insert_sorted k x (y ∷ ys) = ground (arith, elem-insert_sorted k x ys)

    pub elem-sort : (k : ℕ) (xs : List A) → elem k (map key (sort le xs)) ≡ elem k (map key xs)
    unfolding sort elem
    elem-sort k [] = refl
    elem-sort k (x ∷ xs) = ground (arith, elem-insert_sorted k x (sort le xs), elem-sort k xs)

    -- Where no two keys agree, the order in which the elements came does not show.
    sort-insert_sorted :
        (x : A) (xs : List A)
        → elem (key x) (map key xs) ≡ false
        → sort (by_key key) (insert_sorted le x xs)
          ≡ insert_sorted (by_key key) x (sort (by_key key) xs)
    unfolding sort elem
    sort-insert_sorted x [] h = unfold insert_sorted in refl
    sort-insert_sorted x (y ∷ ys) h = elim (Bool-cases (le x y)) [
      | inl e ↦ rw e
      | inr e ↦ rw e (
          ap (insert_sorted (by_key key) y) (sort-insert_sorted x ys (ground arith))
          ∙ insert_sorted_comm y x (sort (by_key key) ys) (ground arith))
    ]

    pub sort-sort :
        (xs : List A)
        → Distinct (map key xs)
        → sort (by_key key) (sort le xs) ≡ sort (by_key key) xs
    unfolding sort
    sort-sort [] h = refl
    sort-sort (x ∷ xs) h =
        sort-insert_sorted x (sort le xs) (elem-sort (key x) xs ∙ h.0)
        ∙ ap (insert_sorted (by_key key) x) (sort-sort xs h.1)

-- A function that carries the key along commutes with sorting.
module _ {ℓ κ} {A : Type ℓ} {B : Type κ} (f : B → A) (key : A → ℕ) where
  map-insert_sorted_along :
      (x : B) (xs : List B)
      → map f (insert_sorted (by_key (λ b. key (f b))) x xs)
        ≡ insert_sorted (by_key key) (f x) (map f xs)
  unfolding insert_sorted
  map-insert_sorted_along x [] = refl
  map-insert_sorted_along x (y ∷ ys) = elim (Bool-cases (leb (key (f x)) (key (f y)))) [
    | inl e ↦ rw e
    | inr e ↦ rw e (ap (λ l. f y ∷ l) (map-insert_sorted_along x ys))
  ]

  pub map-sort_along :
      (xs : List B) → map f (sort (by_key (λ b. key (f b))) xs) ≡ sort (by_key key) (map f xs)
  unfolding sort
  map-sort_along [] = refl
  map-sort_along (x ∷ xs) =
      map-insert_sorted_along x (sort (by_key (λ b. key (f b))) xs)
      ∙ ap (insert_sorted (by_key key) (f x)) (map-sort_along xs)
