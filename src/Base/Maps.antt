-- ===== src/Base/Maps.antt =====
-- A Go map with string keys, as an association list. The order of the entries stands for the
-- order in which a `range` over the map visits them, which Go leaves open.
use Prim.Native.String.{String}
use mathlib.Core.Path.{◌≡◌, refl}
use mathlib.Core.Option.{Option, none, some}
use mathlib.Core.List.{List, [], ◌∷◌}
use native.Mathlib.Omega.{arith}
use text.Mathlib.Text.{◌==◌}
use text.Mathlib.TextEquality.{eq_iff}
use splai.Base.Tests.{if◌then◌else◌}

abbrev pub Map {ℓ} : Type ℓ → Type ℓ
Map V = List (String × V)

module _ {ℓ} {V : Type ℓ} where
  -- v, ok := m[k]
  unfoldable pub lookup : String → Map V → Option V
  lookup key [] = none
  lookup key ((other, x) ∷ rest) = if other == key then some x else lookup key rest

  -- m[k] = v
  unfoldable pub insert : String → V → Map V → Map V
  insert key x [] = (key, x) ∷ []
  insert key x ((other, y) ∷ rest) =
      if other == key then (key, x) ∷ rest else (other, y) ∷ insert key x rest

  -- delete(m, k)
  unfoldable pub delete : String → Map V → Map V
  delete key [] = []
  delete key ((other, x) ∷ rest) =
      let kept = delete key rest in if other == key then kept else (other, x) ∷ kept

  -- the values in the order of a `range`
  abbrev pub values : Map V → List V
  values [] = []
  values ((key, x) ∷ rest) = x ∷ values rest

  -- m[k], where a missing key gives the zero value
  abbrev pub lookup_or : V → String → Map V → V
  lookup_or d key rest = elim (lookup key rest) [ none ↦ d | some x ↦ x ]

  -- no key stands twice
  abbrev pub Distinct : Map V → Type ℓ
  Distinct [] = Unit
  Distinct ((key, x) ∷ rest) = (lookup key rest ≡ none) × Distinct rest

  pub lookup-insert :
      (key other : String) (x : V) (rest : Map V)
      → lookup other (insert key x rest) ≡ (if key == other then some x else lookup other rest)
  unfolding lookup insert
  lookup-insert key other x [] = refl
  lookup-insert key other x ((k, y) ∷ rest) =
      ground (arith, lookup-insert key other x rest, eq_iff k other, eq_iff k key, eq_iff key other)

  pub lookup-delete :
      (key other : String) (rest : Map V)
      → lookup other (delete key rest) ≡ (if key == other then none else lookup other rest)
  unfolding lookup delete
  lookup-delete key other [] = ground arith
  lookup-delete key other ((k, y) ∷ rest) =
      ground (arith, lookup-delete key other rest, eq_iff k other, eq_iff k key, eq_iff key other)

  pub insert-Distinct :
      (key : String) (x : V) (rest : Map V) → Distinct rest → Distinct (insert key x rest)
  unfolding insert lookup
  insert-Distinct key x [] d = (refl, tt)
  insert-Distinct key x ((other, y) ∷ rest) d = ground (
    arith,
    eq_iff other key,
    eq_iff key other,
    insert-Distinct key x rest d.1,
    lookup-insert key other x rest,
  )

  pub delete-Distinct : (key : String) (rest : Map V) → Distinct rest → Distinct (delete key rest)
  unfolding delete
  delete-Distinct key [] d = tt
  delete-Distinct key ((other, y) ∷ rest) d =
      ground (arith, delete-Distinct key rest d.1, lookup-delete key other rest)

  -- deleting an absent key changes nothing
  pub delete_absent :
      (key : String) (rest : Map V) → lookup key rest ≡ none → delete key rest ≡ rest
  unfolding lookup delete
  delete_absent key [] h = refl
  delete_absent key ((other, y) ∷ rest) h = ground (arith, delete_absent key rest)
