-- ===== src/Prelude/Lists.antt =====
-- Lists measured by native numbers, membership as a test (`x in xs` in Python), `range`, and the
-- predicates by recursion that the statements use.
use Prim.Native.Nat.{ℕ, zero, suc, ◌+◌, ◌≤◌, ◌<◌}
use mathlib.Core.Path.{◌≡◌, refl, ap}
use mathlib.Core.Logic.{inl, inr}
use mathlib.Core.Bool.{Bool, true, false, ◌&&◌, ◌||◌}
use mathlib.Core.List.{List, [], ◌∷◌, ◌++◌, map}
use native.Mathlib.Omega.{arith}
use trip_graph_agent_runtime.Prelude.Tests.{
  leb, leb→le, leb-false→lt, ◌==◌, ==_iff, Bool-cases, if◌then◌else◌,
}

module _ {ℓ} {A : Type ℓ} where
  abbrev pub length : List A → ℕ
  length [] = 0
  length (x ∷ xs) = suc (length xs)

  length-append : (xs ys : List A) → length (xs ++ ys) ≡ length xs + length ys
  length-append [] ys = omega arith
  length-append (x ∷ xs) ys = omega (arith, length-append xs ys)

  abbrev pub is_empty : List A → Bool
  is_empty [] = true
  is_empty (x ∷ xs) = false

  -- [x for x in xs if p(x)]
  unfoldable pub select : (A → Bool) → List A → List A
  select p [] = []
  select p (x ∷ xs) = let rest = select p xs in if p x then x ∷ rest else rest

  -- all(p(x) for x in xs)
  unfoldable pub all_true : (A → Bool) → List A → Bool
  all_true p [] = true
  all_true p (x ∷ xs) = p x && all_true p xs

  abbrev pub All {κ} : (A → Type κ) → List A → Type κ
  All P [] = Unit
  All P (x ∷ xs) = P x × All P xs

module _ {ℓ κ} {A : Type ℓ} {B : Type κ} where
  pub length-map : (f : A → B) (xs : List A) → length (map f xs) ≡ length xs
  length-map f [] = refl
  length-map f (x ∷ xs) = ap suc (length-map f xs)

-- k in xs
unfoldable pub elem : ℕ → List ℕ → Bool
elem k [] = false
elem k (x ∷ xs) = k == x || elem k xs

elem-append : (k : ℕ) (xs ys : List ℕ) → elem k (xs ++ ys) ≡ (elem k xs || elem k ys)
unfolding elem
elem-append k [] ys = refl
elem-append k (x ∷ xs) ys = ground (arith, elem-append k xs ys)

-- No value occurs twice.
abbrev pub Distinct : List ℕ → Type 0
Distinct [] = Unit
Distinct (x ∷ xs) = (elem x xs ≡ false) × Distinct xs

pub Distinct-append :
    (xs ys : List ℕ)
    → Distinct xs
    → Distinct ys
    → ((k : ℕ) → elem k xs ≡ true → elem k ys ≡ false)
    → Distinct (xs ++ ys)
unfolding elem
Distinct-append [] ys hx hy apart = hy
Distinct-append (x ∷ xs) ys hx hy apart = (
  ground (arith, elem-append x xs ys, apart x),
  Distinct-append xs ys hx.1 hy (λ k m. apart k (ground arith)),
)

-- list(range(first, first + count))
abbrev pub range : ℕ → ℕ → List ℕ
range first zero = []
range first (suc count) = first ∷ range (suc first) count

length-range : (first count : ℕ) → length (range first count) ≡ count
length-range first zero = refl
length-range first (suc count) = ap suc (length-range (suc first) count)

elem-range_below : (k first count : ℕ) → k < first → elem k (range first count) ≡ false
unfolding elem
elem-range_below k first zero h = refl
elem-range_below k first (suc count) h =
    ground (arith, elem-range_below k (suc first) count (omega arith))

pub Distinct-range : (first count : ℕ) → Distinct (range first count)
Distinct-range first zero = tt
Distinct-range first (suc count) =
    (elem-range_below first (suc first) count (omega arith), Distinct-range (suc first) count)

-- xs == ys, for lists of numbers.
unfoldable pub list_eq : List ℕ → List ℕ → Bool
list_eq [] [] = true
list_eq [] (y ∷ ys) = false
list_eq (x ∷ xs) [] = false
list_eq (x ∷ xs) (y ∷ ys) = x == y && list_eq xs ys

pub list_eq→eq : (xs ys : List ℕ) → list_eq xs ys ≡ true → xs ≡ ys
unfolding list_eq
list_eq→eq [] [] h = refl
list_eq→eq [] (y ∷ ys) h = cc
list_eq→eq (x ∷ xs) [] h = cc
list_eq→eq (x ∷ xs) (y ∷ ys) h = ground (arith, list_eq→eq xs ys)

pub list_eq_refl : (xs : List ℕ) → list_eq xs xs ≡ true
unfolding list_eq
list_eq_refl [] = refl
list_eq_refl (x ∷ xs) = ground (arith, list_eq_refl xs)

-- Filtering a list by a test of a numeric key.
module _ {ℓ} {A : Type ℓ} (key : A → ℕ) (p : ℕ → Bool) where
  pub elem-select :
      (k : ℕ) (xs : List A)
      → elem k (map key (select (λ x. p (key x)) xs)) ≡ (p k && elem k (map key xs))
  unfolding elem select
  elem-select k [] = ground arith
  elem-select k (x ∷ xs) = elim (Bool-cases (k == key x)) [
    | inl e ↦ rw ((==_iff k (key x)).0 e) (ground (arith, elem-select (key x) xs))
    | inr e ↦ ground (arith, elem-select k xs)
  ]

  pub Distinct-select :
      (xs : List A) → Distinct (map key xs) → Distinct (map key (select (λ x. p (key x)) xs))
  unfolding select
  Distinct-select [] h = tt
  Distinct-select (x ∷ xs) h = elim (Bool-cases (p (key x))) [
    | inl e ↦ rw e (ground (arith, elem-select (key x) xs), Distinct-select xs h.1)
    | inr e ↦ rw e (Distinct-select xs h.1)
  ]

module _ {ℓ} {A : Type ℓ} (p : A → Bool) where
  pub All-select_self : (xs : List A) → All (λ x. p x ≡ true) (select p xs)
  unfolding select
  All-select_self [] = tt
  All-select_self (x ∷ xs) = elim (Bool-cases (p x)) [
    | inl e ↦ rw e (e, All-select_self xs)
    | inr e ↦ rw e (All-select_self xs)
  ]

module _ {ℓ κ} {A : Type ℓ} (P : A → Type κ) where
  pub All-append : (xs ys : List A) → All P xs → All P ys → All P (xs ++ ys)
  All-append [] ys hx hy = hy
  All-append (x ∷ xs) ys hx hy = (hx.0, All-append xs ys hx.1 hy)

  pub All-map {μ} : (Q : A → Type μ) (xs : List A) → ((x : A) → P x → Q x) → All P xs → All Q xs
  All-map Q [] f h = tt
  All-map Q (x ∷ xs) f h = (f x h.0, All-map Q xs f h.1)

pub elem-range→le : (k first count : ℕ) → elem k (range first count) ≡ true → first ≤ k
elem-range→le k first count h = elim (Bool-cases (leb first k)) [
  | inl e ↦ leb→le first k e
  | inr e ↦ absurd (ground (arith, elem-range_below k first count (leb-false→lt first k e)))
]
