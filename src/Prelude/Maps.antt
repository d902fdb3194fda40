-- ===== src/Prelude/Maps.antt =====
-- Go's maps with text keys, as lists of keys and values.
use mathlib.Core.Path.{◌≡◌}
use mathlib.Core.Bool.{false}
use mathlib.Core.List.{List, [], ◌∷◌}
use mathlib.Core.Option.{Option, none, some}
use Prim.Native.String.{String}
use native.Mathlib.Omega.{arith}
use vpn_platform.Prelude.Tests.{◌==◌, ==_iff, ==_self, if◌then◌else◌}

module _ {A : Type 0} where
  -- `m[key]`.
  unfoldable pub lookup : String → List (String × A) → Option A
  lookup key [] = none
  lookup key (e ∷ es) = if e.0 == key then some e.1 else lookup key es

  -- `m[key] = a`.
  unfoldable pub assign : String → A → List (String × A) → List (String × A)
  assign key a [] = (key, a) ∷ []
  assign key a (e ∷ es) = if e.0 == key then (key, a) ∷ es else e ∷ assign key a es

  -- `delete(m, key)`.
  unfoldable pub delete : String → List (String × A) → List (String × A)
  delete key [] = []
  delete key (e ∷ es) = if e.0 == key then delete key es else e ∷ delete key es

  pub lookup-assign :
      (key : String) (a : A) (es : List (String × A)) → lookup key (assign key a es) ≡ some a
  unfolding lookup assign
  lookup-assign key a [] = ground (arith, ==_self key)
  lookup-assign key a (e ∷ es) = ground (arith, ==_self key, lookup-assign key a es)

  pub lookup-assign_other :
      (key other : String) (a : A) (es : List (String × A))
      → (key == other) ≡ false
      → lookup other (assign key a es) ≡ lookup other es
  unfolding lookup assign
  lookup-assign_other key other a [] h = ground (arith, h)
  lookup-assign_other key other a (e ∷ es) h =
      ground (arith, h, ==_iff e.0 key, lookup-assign_other key other a es h)
