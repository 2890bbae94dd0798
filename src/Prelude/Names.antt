-- ===== src/Prelude/Names.antt =====
-- A Python dict with text keys, as an association list in insertion order.
use Prim.Native.String.{String}
use mathlib.Core.Path.{◌≡◌, refl}
use mathlib.Core.Bool.{Bool, true, false, ◌||◌}
use mathlib.Core.Option.{Option, none, some}
use mathlib.Core.List.{List, [], ◌∷◌}
use native.Mathlib.Omega.{arith}
use text.Mathlib.Text.{◌==◌ as str_eq}
use text.Mathlib.TextEquality.{eq_iff}
use trip_graph_agent_runtime.Prelude.Tests.{Bool-cases, if◌then◌else◌}
use mathlib.Core.Logic.{inl, inr}

abbrev pub Names {ℓ} : Type ℓ → Type ℓ
Names V = List (String × V)

-- name in names, for a list of texts
unfoldable pub has_name : String → List String → Bool
has_name name [] = false
has_name name (x ∷ xs) = str_eq name x || has_name name xs

module _ {ℓ} {V : Type ℓ} where
  -- d.get(name)
  unfoldable pub find : String → Names V → Option V
  find name [] = none
  find name ((key, v) ∷ d) = if str_eq key name then some v else find name d

  -- d[name] = v
  unfoldable pub assign : String → V → Names V → Names V
  assign name v [] = (name, v) ∷ []
  assign name v ((key, w) ∷ d) =
      if str_eq key name then (key, v) ∷ d else (key, w) ∷ assign name v d

  -- d.pop(name, None)
  unfoldable pub discard : String → Names V → Names V
  discard name [] = []
  discard name ((key, v) ∷ d) =
      let rest = discard name d in if str_eq key name then rest else (key, v) ∷ rest

  -- d.update(e), and {**d, **e}
  unfoldable pub update : Names V → Names V → Names V
  update d [] = d
  update d ((key, v) ∷ e) = update (assign key v d) e

  pub find-assign :
      (name other : String) (v : V) (d : Names V)
      → find other (assign name v d) ≡ (if str_eq name other then some v else find other d)
  unfolding find assign
  find-assign name other v [] = refl
  find-assign name other v ((key, w) ∷ d) = elim (Bool-cases (str_eq key name)) [
    | inl e ↦ rw e (ground (arith, eq_iff key name, find-assign name other v d))
    | inr e ↦ rw e (ground (arith, eq_iff key name, eq_iff name other, find-assign name other v d))
  ]

  pub discard-discard :
      (name : String) (d : Names V) → discard name (discard name d) ≡ discard name d
  unfolding discard
  discard-discard name [] = refl
  discard-discard name ((key, v) ∷ d) = elim (Bool-cases (str_eq key name)) [
    | inl e ↦ rw e (discard-discard name d)
    | inr e ↦ rw e (ground (arith, discard-discard name d))
  ]

pub str_eq_refl : (name : String) → str_eq name name ≡ true
str_eq_refl name = (eq_iff name name).1 refl
