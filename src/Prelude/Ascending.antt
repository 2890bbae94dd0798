-- ===== src/Prelude/Ascending.antt =====
-- Sorting lists of numbers: what the sorted list says of the list.
use Prim.Native.Nat.{ℕ, zero, suc, ◌≤◌}
use mathlib.Core.Path.{◌≡◌, refl, ap, ◌∙◌}
use mathlib.Core.Logic.{inl, inr}
use mathlib.Core.Bool.{false, ◌||◌}
use mathlib.Core.List.{List, [], ◌∷◌, map}
use native.Mathlib.Omega.{arith}
use trip_graph_agent_runtime.Prelude.Tests.{◌==◌, ==_iff, leb, Bool-cases, if◌then◌else◌}
use trip_graph_agent_runtime.Prelude.Lists.{elem, Distinct, All, range}
use trip_graph_agent_runtime.Prelude.Sort.{sort, insert_sorted, Ordered, sort-Ordered}

elem-insert_sorted :
    (k x : ℕ) (xs : List ℕ) → elem k (insert_sorted leb x xs) ≡ (k == x || elem k xs)
unfolding insert_sorted elem
elem-insert_sorted k x [] = refl
elem-insert_sorted k x (y ∷ ys) = ground (arith, elem-insert_sorted k x ys)

elem-sort-leb : (k : ℕ) (xs : List ℕ) → elem k (sort leb xs) ≡ elem k xs
unfolding sort elem
elem-sort-leb k [] = refl
elem-sort-leb k (x ∷ xs) = ground (arith, elem-insert_sorted k x (sort leb xs), elem-sort-leb k xs)

Distinct-unsort_insert :
    (x : ℕ) (xs : List ℕ) → Distinct (insert_sorted leb x xs) → (elem x xs ≡ false) × Distinct xs
unfolding insert_sorted elem
Distinct-unsort_insert x [] h = (refl, tt)
Distinct-unsort_insert x (y ∷ ys) h = elim (Bool-cases (leb x y)) [
  | inl e ↦ rw (e, if◌then◌else◌) at h
  | inr e ↦
      let h' : (elem y (insert_sorted leb x ys) ≡ false) × Distinct (insert_sorted leb x ys) =
        rw (e, if◌then◌else◌) at h in
      let (new, once) = Distinct-unsort_insert x ys h'.1 in
      (ground (arith, new, e), (ground (arith, h'.0, elem-insert_sorted y x ys), once))
]

pub Distinct-unsort : (xs : List ℕ) → Distinct (sort leb xs) → Distinct xs
unfolding sort
Distinct-unsort [] h = tt
Distinct-unsort (x ∷ xs) h =
    let (new, once) = Distinct-unsort_insert x (sort leb xs) h in
    (ground (arith, new, elem-sort-leb x xs), Distinct-unsort xs once)

Distinct-insert_sorted :
    (x : ℕ) (xs : List ℕ) → elem x xs ≡ false → Distinct xs → Distinct (insert_sorted leb x xs)
unfolding insert_sorted elem
Distinct-insert_sorted x [] new once = (refl, tt)
Distinct-insert_sorted x (y ∷ ys) new once = elim (Bool-cases (leb x y)) [
  | inl e ↦ rw e (new, once)
  | inr e ↦
      rw e (
        ground (arith, elem-insert_sorted y x ys),
        Distinct-insert_sorted x ys (ground arith) once.1,
      )
]

pub Distinct-sort : (xs : List ℕ) → Distinct xs → Distinct (sort leb xs)
unfolding sort
Distinct-sort [] once = tt
Distinct-sort (x ∷ xs) once =
    Distinct-insert_sorted x (sort leb xs) (elem-sort-leb x xs ∙ once.0) (Distinct-sort xs once.1)

range-Ordered : (first count : ℕ) → Ordered (λ (x : ℕ). x) (range first count)
range-Ordered first zero = tt
range-Ordered first (suc count) =
    (all_above first (suc first) count (omega arith), range-Ordered (suc first) count)
  where
    all_above : (low start n : ℕ) → low ≤ start → All (λ y. low ≤ y) (range start n)
    all_above low start zero h = tt
    all_above low start (suc n) h = (h, all_above low (suc start) n (omega arith))

pub sort-range : (first count : ℕ) → sort leb (range first count) ≡ range first count
sort-range first count = sort-Ordered (λ (x : ℕ). x) (range first count) (range-Ordered first count)

-- A function that takes a list to a list without repetitions met none in it.
pub Distinct-unmap : (f : ℕ → ℕ) (xs : List ℕ) → Distinct (map f xs) → Distinct xs
unfolding elem
Distinct-unmap f [] h = tt
Distinct-unmap f (x ∷ xs) h = (absent xs h.0, Distinct-unmap f xs h.1)
  where
    absent : (ys : List ℕ) → elem (f x) (map f ys) ≡ false → elem x ys ≡ false
    absent [] m = refl
    absent (y ∷ ys) m = elim (Bool-cases (x == y)) [
      | inl e ↦ absurd (ground (arith, m, ap f ((==_iff x y).0 e)))
      | inr e ↦ ground (arith, absent ys)
    ]
