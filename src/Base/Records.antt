-- ===== src/Base/Records.antt =====
-- Maps keyed by texts, as association lists with at most one entry for a key.
use Prim.Native.String.{String}
use mathlib.Core.Path.{◌≡◌}
use mathlib.Core.Logic.{inl, inr}
use mathlib.Core.Bool.{Bool, true, false}
use mathlib.Core.Option.{Option, none, some}
use mathlib.Core.List.{List, [], ◌∷◌}
use native.Mathlib.Omega.{arith}
use text.Mathlib.TextEquality.{eq_iff}
use relay_scheduler.Base.Tests.{◌==◌, if◌then◌else◌, Bool-cases}

module _ {ℓ} {V : Type ℓ} where
  unfoldable pub lookup : String → List (String × V) → Option V
  lookup key [] = none
  lookup key ((name, value) ∷ rest) = if name == key then some value else lookup key rest

  -- Go's `delete(m, k)`.
  unfoldable pub remove : String → List (String × V) → List (String × V)
  remove k [] = []
  remove k ((j, v) ∷ m) = if j == k then remove k m else (j, v) ∷ remove k m

  -- Go's `m[k] = v`.
  unfoldable pub insert : String → V → List (String × V) → List (String × V)
  unfolding remove
  insert k v m = (k, v) ∷ remove k m

  pub lookup-remove :
      (k j : String) (m : List (String × V))
      → lookup j (remove k m) ≡ (if k == j then none else lookup j m)
  unfolding lookup remove
  lookup-remove k j [] = ground arith
  lookup-remove k j ((i, w) ∷ m) =
      ground (arith, eq_iff k j, eq_iff i k, eq_iff i j, lookup-remove k j m)

  pub lookup-insert :
      (key name : String) (value : V) (m : List (String × V))
      → lookup name (insert key value m) ≡ (if key == name then some value else lookup name m)
  unfolding lookup insert
  lookup-insert key name value m = ground (arith, eq_iff key name, lookup-remove key name m)

-- Sets of texts, as lists.
unfoldable pub contains : String → List String → Bool
contains k [] = false
contains k (j ∷ s) = if j == k then true else contains k s

unfoldable pub discard : String → List String → List String
discard k [] = []
discard k (j ∷ s) = if j == k then discard k s else j ∷ discard k s

-- Adding an element that is there changes nothing.
unfoldable pub adjoin : String → List String → List String
unfolding contains
adjoin k s = if contains k s then s else k ∷ s

pub contains-discard :
    (k j : String) (s : List String)
    → contains j (discard k s) ≡ (if k == j then false else contains j s)
unfolding contains discard
contains-discard k j [] = ground arith
contains-discard k j (i ∷ s) =
    ground (arith, eq_iff k j, eq_iff i k, eq_iff i j, contains-discard k j s)

pub contains-adjoin :
    (k j : String) (s : List String)
    → contains j (adjoin k s) ≡ (if k == j then true else contains j s)
unfolding adjoin contains
contains-adjoin k j s = elim (Bool-cases (k == j)) [
  | inl same ↦ ground (arith, eq_iff k j)
  | inr other ↦ ground (arith, eq_iff k j)
]
