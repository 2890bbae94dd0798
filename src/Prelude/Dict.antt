-- ===== src/Prelude/Dict.antt =====
-- A Python dict with integer keys: an association list in insertion order. Assignment to a key that
-- is there keeps its place, and a new key goes to the end.
use Prim.Native.Nat.{ℕ}
use mathlib.Core.Path.{◌≡◌, refl}
use mathlib.Core.Option.{Option, none, some}
use mathlib.Core.List.{List, [], ◌∷◌, map}
use native.Mathlib.Omega.{arith}
use trip_graph_agent_runtime.Prelude.Tests.{◌==◌, if◌then◌else◌}
use trip_graph_agent_runtime.Prelude.Lists.{elem}

abbrev pub Dict {ℓ} : Type ℓ → Type ℓ
Dict V = List (ℕ × V)

module _ {ℓ} {V : Type ℓ} where
  -- d.get(k)
  unfoldable pub lookup : ℕ → Dict V → Option V
  lookup k [] = none
  lookup k ((j, v) ∷ d) = if j == k then some v else lookup k d

  -- d[k] = v
  unfoldable pub insert : ℕ → V → Dict V → Dict V
  insert k v [] = (k, v) ∷ []
  insert k v ((j, w) ∷ d) = if j == k then (j, v) ∷ d else (j, w) ∷ insert k v d

  -- d.pop(k, None)
  unfoldable pub remove : ℕ → Dict V → Dict V
  remove k [] = []
  remove k ((j, v) ∷ d) = let rest = remove k d in if j == k then rest else (j, v) ∷ rest

  abbrev pub keys : Dict V → List ℕ
  keys d = map (λ p. p.0) d

  -- for k in ks: d.pop(k, None)
  unfoldable pub remove_all : List ℕ → Dict V → Dict V
  remove_all [] d = d
  remove_all (k ∷ ks) d = remove_all ks (remove k d)

  -- for k in ks: d[k] = v
  unfoldable pub insert_all : List ℕ → V → Dict V → Dict V
  insert_all [] v d = d
  insert_all (k ∷ ks) v d = insert_all ks v (insert k v d)

  pub lookup-insert :
      (k j : ℕ) (v : V) (d : Dict V)
      → lookup j (insert k v d) ≡ (if k == j then some v else lookup j d)
  unfolding lookup insert
  lookup-insert k j v [] = refl
  lookup-insert k j v ((i, w) ∷ d) = ground (arith, lookup-insert k j v d)

  lookup-remove :
      (k j : ℕ) (d : Dict V) → lookup j (remove k d) ≡ (if k == j then none else lookup j d)
  unfolding lookup remove
  lookup-remove k j [] = ground arith
  lookup-remove k j ((i, w) ∷ d) = ground (arith, lookup-remove k j d)

  pub lookup-remove_all :
      (ks : List ℕ) (j : ℕ) (d : Dict V)
      → lookup j (remove_all ks d) ≡ (if elem j ks then none else lookup j d)
  unfolding remove_all elem
  lookup-remove_all [] j d = refl
  lookup-remove_all (k ∷ ks) j d =
      ground (arith, lookup-remove_all ks j (remove k d), lookup-remove k j d)

  pub lookup-insert_all :
      (ks : List ℕ) (j : ℕ) (v : V) (d : Dict V)
      → lookup j (insert_all ks v d) ≡ (if elem j ks then some v else lookup j d)
  unfolding insert_all elem
  lookup-insert_all [] j v d = refl
  lookup-insert_all (k ∷ ks) j v d =
      ground (arith, lookup-insert_all ks j v (insert k v d), lookup-insert k j v d)

ruleset dict_laws = (lookup-insert, lookup-remove, lookup-remove_all, lookup-insert_all)
