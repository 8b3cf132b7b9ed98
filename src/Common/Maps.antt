-- ===== src/Common/Maps.antt =====
-- Go maps keyed by strings: as functions where the code only reads and writes keys, and as
-- association lists where it ranges over the entries.
use mathlib.Core.Path.{◌≡◌, refl}
use mathlib.Core.Logic.{inl, inr}
use mathlib.Core.Option.{Option, none, some}
use mathlib.Core.List.{List, [], ◌∷◌}
use native.Mathlib.Omega.{arith}
use reference_implementation.Common.Tests.{if◌then◌else◌, Bool-cases}
use reference_implementation.Common.Strings.{Text, text_eq, text_eq_iff, text_eq→eq}

abbrev pub Map {ℓ} : Type ℓ → Type ℓ
Map V = Text → Option V

module _ {ℓ} {V : Type ℓ} where
  -- `m[k] = v`
  abbrev pub put : Map V → Text → V → Map V
  put m k v j = if text_eq k j then some v else m j

  -- `delete(m, k)`
  abbrev pub delete : Map V → Text → Map V
  delete m k j = if text_eq k j then none else m j

  abbrev pub empty : Map V
  empty k = none

  abbrev pub lookup : Text → List (Text × V) → Option V
  lookup k [] = none
  lookup k ((j, v) ∷ m) = if text_eq j k then some v else lookup k m

  abbrev pub insert : Text → V → List (Text × V) → List (Text × V)
  insert k v [] = (k, v) ∷ []
  insert k v ((j, w) ∷ m) = if text_eq j k then (k, v) ∷ m else (j, w) ∷ insert k v m

  abbrev pub erase : Text → List (Text × V) → List (Text × V)
  erase k [] = []
  erase k ((j, w) ∷ m) = if text_eq j k then m else (j, w) ∷ erase k m

  pub lookup-insert :
      (k j : Text) (v : V) (m : List (Text × V))
      → lookup j (insert k v m) ≡ (if text_eq k j then some v else lookup j m)
  lookup-insert k j v [] = refl
  lookup-insert k j v ((i, w) ∷ m) =
      ground (arith, text_eq_iff k j, text_eq_iff i k, text_eq_iff i j, lookup-insert k j v m)

-- No key is listed twice, as in a Go map.
module _ {ℓ} {V : Type ℓ} where
  abbrev pub Distinct : List (Text × V) → Type ℓ
  Distinct [] = Unit
  Distinct ((k, v) ∷ m) = (lookup k m ≡ none) × Distinct m

  pub lookup-erase :
      (k j : Text) (m : List (Text × V))
      → Distinct m
      → lookup j (erase k m) ≡ (if text_eq k j then none else lookup j m)
  lookup-erase k j [] d = ground arith
  lookup-erase k j ((i, w) ∷ m) d =
      ground (arith, text_eq_iff k j, text_eq_iff i k, text_eq_iff i j, lookup-erase k j m d.1)

  pub Distinct-erase : (k : Text) (m : List (Text × V)) → Distinct m → Distinct (erase k m)
  Distinct-erase k [] d = d
  Distinct-erase k ((i, w) ∷ m) d = elim (Bool-cases (text_eq i k)) [
    | inl same ↦ rw same d.1
    | inr other ↦
        rw other
          (rw (lookup-erase k i m d.1) (ground (arith, text_eq_iff k i)), Distinct-erase k m d.1)
  ]

  pub Distinct-insert :
      (k : Text) (v : V) (m : List (Text × V)) → Distinct m → Distinct (insert k v m)
  Distinct-insert k v [] d = (refl, tt)
  Distinct-insert k v ((i, w) ∷ m) d = elim (Bool-cases (text_eq i k)) [
    | inl same ↦ rw same (rw (← text_eq→eq i k same) d.0, d.1)
    | inr other ↦ rw other (
      rw lookup-insert (ground (arith, text_eq_iff k i, text_eq_iff i k)),
      Distinct-insert k v m d.1,
    )
  ]
