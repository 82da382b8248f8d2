-- ===== src/Base/Dict.antt =====
-- Python's dict (and OrderedDict) with string keys, as the list of its items in their order.
pub mod Keys
use Prim.Native.Nat.{ℕ, suc, ◌+◌, ◌≤◌}
use Prim.Native.String.{String}
use mathlib.Core.Bool.{Bool, true, false}
use mathlib.Core.List.{List, [], ◌∷◌, ◌++◌}
use mathlib.Core.Option.{Option, none, some}
use mathlib.Core.Path.{◌≡◌, refl}
use native.Mathlib.Omega.{arith}
use text.Mathlib.Text.{◌==◌ as str_eq}
use text.Mathlib.TextEquality.{eq_iff}
use text.Mathlib.TextPositions.{eq_refl}
use mcp_awareness.Base.Tests.{if◌then◌else◌}
use mcp_awareness.Base.Lists.{length}

abbrev pub Dict {ℓ} : Type ℓ → Type ℓ
Dict V = List (String × V)

module _ {ℓ} {V : Type ℓ} where
  -- d.get(k)
  unfoldable pub lookup : String → Dict V → Option V
  lookup k [] = none
  lookup k ((j, v) ∷ d) = if str_eq j k then some v else lookup k d

  -- d[k] = v: a known key keeps its place, a new one comes last
  unfoldable pub insert : String → V → Dict V → Dict V
  insert k v [] = (k, v) ∷ []
  insert k v ((j, w) ∷ d) = if str_eq j k then (j, v) ∷ d else (j, w) ∷ insert k v d

  -- d.pop(k, None)
  unfoldable pub remove : String → Dict V → Dict V
  remove k [] = []
  remove k ((j, w) ∷ d) = if str_eq j k then remove k d else (j, w) ∷ remove k d

  pub lookup-insert :
      (k j : String) (v : V) (d : Dict V)
      → lookup j (insert k v d) ≡ (if str_eq k j then some v else lookup j d)
  unfolding lookup insert
  lookup-insert k j v [] = refl
  lookup-insert k j v ((i, w) ∷ d) =
      ground (arith, eq_iff k j, eq_iff i k, eq_iff i j, lookup-insert k j v d)

  pub lookup-remove :
      (k j : String) (d : Dict V)
      → lookup j (remove k d) ≡ (if str_eq k j then none else lookup j d)
  unfolding lookup remove
  lookup-remove k j [] = ground arith
  lookup-remove k j ((i, w) ∷ d) =
      ground (arith, eq_iff k j, eq_iff i k, eq_iff i j, lookup-remove k j d)

  pub lookup-append :
      (j : String) (d e : Dict V)
      → lookup j (d ++ e) ≡ elim (lookup j d) [ none ↦ lookup j e | some v ↦ some v ]
  unfolding lookup
  lookup-append j [] e = refl
  lookup-append j ((i, w) ∷ d) e = ground (arith, lookup-append j d e)

  pub length-insert-le : (k : String) (v : V) (d : Dict V) → length (insert k v d) ≤ length d + 1
  unfolding insert
  length-insert-le k v [] = omega arith
  length-insert-le k v ((j, w) ∷ d) = ground (arith, length-insert-le k v d)

  pub length-remove-le : (k : String) (d : Dict V) → length (remove k d) ≤ length d
  unfolding remove
  length-remove-le k [] = omega arith
  length-remove-le k ((j, w) ∷ d) = ground (arith, length-remove-le k d)
