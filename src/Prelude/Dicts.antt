-- ===== src/Prelude/Dicts.antt =====
-- A Go `map[string]V` as an association list. `insert` replaces the entry of its key, so a map
-- built by it holds each key once. The order of the entries is one of those in which Go may range.

use Prim.Native.String.{String}
use native.Mathlib.Omega.{arith}
use text.Mathlib.TextEquality.{eq_iff}
use mathlib.Core.Path.{◌≡◌}
use mathlib.Core.Logic.{◌≢◌}
use mathlib.Core.Option.{Option, none, some}
use mathlib.Core.List.{List, [], ◌∷◌}
use test_api.Prelude.Tests.{if◌then◌else◌}
use test_api.Prelude.Equality.{◌==◌, ◌!=◌, string_eq}

abbrev pub Dict {ℓ} : Type ℓ → Type ℓ
Dict V = List (String × V)

module _ {ℓ} {V : Type ℓ} where
  -- `v, ok := m[k]`
  unfoldable pub lookup : String → Dict V → Option V
  lookup key [] = none
  lookup key (entry ∷ rest) = if entry.0 == key then some entry.1 else lookup key rest

  -- `m[k] = v`
  unfoldable pub insert : String → V → Dict V → Dict V
  insert key value [] = (key, value) ∷ []
  insert key value (entry ∷ rest) =
      if entry.0 != key then entry ∷ insert key value rest else (key, value) ∷ rest

  pub lookup-insert_same :
      (key : String) (value : V) (m : Dict V) → lookup key (insert key value m) ≡ some value
  unfolding lookup insert
  lookup-insert_same key value [] = ground (arith, eq_iff key key)
  lookup-insert_same key value ((k, w) ∷ rest) =
      ground (arith, eq_iff k key, eq_iff key key, lookup-insert_same key value rest)

  pub lookup-insert_other :
      (key other : String) (value : V) (m : Dict V)
      → key ≢ other
      → lookup other (insert key value m) ≡ lookup other m
  unfolding lookup insert
  lookup-insert_other key other value [] apart = ground (arith, eq_iff key other)
  lookup-insert_other key other value ((k, w) ∷ rest) apart = ground (
    arith,
    eq_iff k key,
    eq_iff k other,
    eq_iff key other,
    lookup-insert_other key other value rest apart,
  )
