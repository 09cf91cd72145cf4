-- ===== src/Prelude/Map.antt =====
-- Go's `map[string]V`: an association list with one entry to a key. `insert` writes an entry in
-- place, `erase` is `delete`, and a missing key reads as `none`.
use Prim.Native.String.{String}
use mathlib.Core.Path.{◌≡◌, refl}
use mathlib.Core.Option.{Option, none, some}
use mathlib.Core.List.{List, [], ◌∷◌}
use native.Mathlib.Omega.{arith}
use text.Mathlib.Text.{◌==◌ as str_eq}
use text.Mathlib.TextEquality.{eq_iff}
use flowctl.Prelude.Tests.{if◌then◌else◌}

abbrev pub StringMap {ℓ} : Type ℓ → Type ℓ
StringMap V = List (String × V)

module _ {ℓ} {V : Type ℓ} where
  unfoldable pub lookup : String → StringMap V → Option V
  lookup key [] = none
  lookup key ((name, v) ∷ entries) = if str_eq name key then some v else lookup key entries

  unfoldable pub insert : String → V → StringMap V → StringMap V
  insert key v [] = (key, v) ∷ []
  insert key v ((name, old) ∷ entries) =
      if str_eq name key then (key, v) ∷ entries else (name, old) ∷ insert key v entries

  unfoldable pub erase : String → StringMap V → StringMap V
  erase key [] = []
  erase key ((name, old) ∷ entries) =
      let rest = erase key entries in if str_eq name key then rest else (name, old) ∷ rest

  pub lookup-insert :
      (key name : String) (v : V) (entries : StringMap V)
      → lookup name (insert key v entries)
        ≡ (if str_eq key name then some v else lookup name entries)
  unfolding lookup insert
  lookup-insert key name v [] = refl
  lookup-insert key name v ((first, old) ∷ entries) = ground (
    arith,
    lookup-insert key name v entries,
    eq_iff first name,
    eq_iff first key,
    eq_iff key name,
  )

  pub lookup-erase :
      (key name : String) (entries : StringMap V)
      → lookup name (erase key entries) ≡ (if str_eq key name then none else lookup name entries)
  unfolding lookup erase
  lookup-erase key name [] = ground arith
  lookup-erase key name ((first, old) ∷ entries) =
      ground
        (arith, lookup-erase key name entries, eq_iff first name, eq_iff first key, eq_iff key name)

  -- Each key has one entry.
  abbrev pub HasUniqueKeys : StringMap V → Type ℓ
  HasUniqueKeys [] = Unit
  HasUniqueKeys ((key, v) ∷ entries) = (lookup key entries ≡ none) × HasUniqueKeys entries

  pub insert-HasUniqueKeys :
      (key : String) (v : V) (entries : StringMap V)
      → HasUniqueKeys entries
      → HasUniqueKeys (insert key v entries)
  unfolding lookup insert
  insert-HasUniqueKeys key v [] h = (refl, tt)
  insert-HasUniqueKeys key v ((name, old) ∷ entries) (new, h) = ground (
    arith,
    eq_iff name key,
    eq_iff key name,
    lookup-insert key name v entries,
    insert-HasUniqueKeys key v entries h,
  )

  pub erase-HasUniqueKeys :
      (key : String) (entries : StringMap V)
      → HasUniqueKeys entries
      → HasUniqueKeys (erase key entries)
  unfolding lookup erase
  erase-HasUniqueKeys key [] h = tt
  erase-HasUniqueKeys key ((name, old) ∷ entries) (new, h) = ground (
    arith,
    eq_iff name key,
    eq_iff key name,
    lookup-erase key name entries,
    erase-HasUniqueKeys key entries h,
  )

  abbrev pub or_else : Option V → Option V → Option V
  or_else none b = b
  or_else (some a) b = some a

  -- Every entry of the second map is written over the first. (Go ranges over the second map in no
  -- fixed order, and its keys are distinct: the order of the writes does not show.)
  unfoldable pub merge : StringMap V → StringMap V → StringMap V
  merge base [] = base
  merge base ((key, v) ∷ entries) = insert key v (merge base entries)

  pub lookup-merge :
      (name : String) (base entries : StringMap V)
      → lookup name (merge base entries) ≡ or_else (lookup name entries) (lookup name base)
  unfolding lookup merge
  lookup-merge name base [] = refl
  lookup-merge name base ((key, v) ∷ entries) =
      ground (arith, lookup-insert key name v (merge base entries), lookup-merge name base entries)

-- Reading a `map[string]string`: a missing key reads as the empty text.
abbrev pub read : String → StringMap String → String
read key entries = elim (lookup key entries) [ none ↦ "" | some v ↦ v ]
