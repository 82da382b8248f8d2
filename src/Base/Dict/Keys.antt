-- ===== src/Base/Dict/Keys.antt =====
-- Tables: a dict whose keys are distinct, with updates of one row and of all rows that pass a test.
use Prim.Native.Nat.{ℕ, suc, ◌≤◌}
use Prim.Native.String.{String}
use mathlib.Core.Bool.{Bool, true, false}
use mathlib.Core.List.{[], ◌∷◌}
use mathlib.Core.Logic.{inl, inr}
use mathlib.Core.Option.{Option, none, some}
use mathlib.Core.Path.{◌≡◌, refl, ◌∙◌, subst}
use native.Mathlib.Omega.{arith}
use text.Mathlib.Text.{◌==◌ as str_eq}
use text.Mathlib.TextEquality.{eq_iff}
use mcp_awareness.Base.Tests.{if◌then◌else◌, Bool-cases}
use mcp_awareness.Base.Dict.{Dict, lookup, insert, lookup-insert}

module _ {ℓ} {V : Type ℓ} where
  -- UPDATE … WHERE key = k
  unfoldable pub adjust : String → (V → V) → Dict V → Dict V
  adjust k f [] = []
  adjust k f ((j, v) ∷ d) = if str_eq j k then (j, f v) ∷ adjust k f d else (j, v) ∷ adjust k f d

  -- DELETE … WHERE NOT p: the rows that stay
  unfoldable pub retain : (V → Bool) → Dict V → Dict V
  retain p [] = []
  retain p ((j, v) ∷ d) = if p v then (j, v) ∷ retain p d else retain p d

  -- SELECT COUNT(*) … WHERE p
  unfoldable pub count : (V → Bool) → Dict V → ℕ
  count p [] = 0
  count p ((j, v) ∷ d) = if p v then suc (count p d) else count p d

  -- no key stands twice
  abbrev pub Distinct : Dict V → Type ℓ
  Distinct [] = Unit
  Distinct ((j, v) ∷ d) = (lookup j d ≡ none) × Distinct d

  abbrev apply_to : (V → V) → Option V → Option V
  apply_to f none = none
  apply_to f (some v) = some (f v)

  abbrev pass : (V → Bool) → Option V → Option V
  pass p none = none
  pass p (some v) = if p v then some v else none

  pub lookup-adjust :
      (k j : String) (f : V → V) (d : Dict V)
      → lookup j (adjust k f d) ≡ (if str_eq k j then apply_to f (lookup j d) else lookup j d)
  unfolding lookup adjust
  lookup-adjust k j f [] = ground arith
  lookup-adjust k j f ((i, v) ∷ d) =
      ground (arith, eq_iff k j, eq_iff i k, eq_iff i j, lookup-adjust k j f d)

  pub lookup-retain :
      (p : V → Bool) (j : String) (d : Dict V)
      → Distinct d
      → lookup j (retain p d) ≡ pass p (lookup j d)
  unfolding lookup retain
  lookup-retain p j [] h = refl
  lookup-retain p j ((i, v) ∷ d) h =
      ground (arith, eq_iff i j, lookup-retain p j d h.1, h.0, absent)
    where
      absent : i ≡ j → lookup j d ≡ none
      absent e = subst (λ k. lookup k d ≡ none) e h.0

  adjust-none :
      (k j : String) (f : V → V) (d : Dict V) → lookup j d ≡ none → lookup j (adjust k f d) ≡ none
  adjust-none k j f d h = lookup-adjust k j f d ∙ (rw h (ground arith))

  pub adjust-Distinct : (k : String) (f : V → V) (d : Dict V) → Distinct d → Distinct (adjust k f d)
  unfolding adjust
  adjust-Distinct k f [] h = tt
  adjust-Distinct k f ((j, v) ∷ d) h = elim (Bool-cases (str_eq j k)) [
    | inl e ↦ rw e (adjust-none k j f d h.0, adjust-Distinct k f d h.1)
    | inr e ↦ rw e (adjust-none k j f d h.0, adjust-Distinct k f d h.1)
  ]

  pub retain-Distinct : (p : V → Bool) (d : Dict V) → Distinct d → Distinct (retain p d)
  unfolding retain
  retain-Distinct p [] h = tt
  retain-Distinct p ((j, v) ∷ d) h = elim (Bool-cases (p v)) [
    | inl e ↦ rw e (lookup-retain p j d h.1 ∙ (rw (h.0)), retain-Distinct p d h.1)
    | inr e ↦ rw e (retain-Distinct p d h.1)
  ]

  pub insert-Distinct : (k : String) (v : V) (d : Dict V) → Distinct d → Distinct (insert k v d)
  unfolding insert
  insert-Distinct k v [] h = (unfold lookup in refl, tt)
  insert-Distinct k v ((j, w) ∷ d) h = elim (Bool-cases (str_eq j k)) [
    | inl e ↦ rw e h
    | inr e ↦ rw e (
      lookup-insert k j v d ∙ (ground (arith, eq_iff j k, eq_iff k j, h.0)),
      insert-Distinct k v d h.1,
    )
  ]

  pub count-insert_new :
      (p : V → Bool) (k : String) (v : V) (d : Dict V)
      → lookup k d ≡ none
      → count p (insert k v d) ≡ (if p v then suc (count p d) else count p d)
  unfolding count insert lookup
  count-insert_new p k v [] h = refl
  count-insert_new p k v ((j, w) ∷ d) h = ground (arith, count-insert_new p k v d)

  pub count-retain-le : (p q : V → Bool) (d : Dict V) → count p (retain q d) ≤ count p d
  unfolding count retain
  count-retain-le p q [] = omega arith
  count-retain-le p q ((j, v) ∷ d) = ground (arith, count-retain-le p q d)

  adjust_absent : (k : String) (f : V → V) (d : Dict V) → lookup k d ≡ none → adjust k f d ≡ d
  unfolding lookup adjust
  adjust_absent k f [] h = refl
  adjust_absent k f ((j, v) ∷ d) h = ground (arith, adjust_absent k f d)

  -- The row that an update takes out of the count.
  pub count-adjust_out :
      (p : V → Bool) (k : String) (f : V → V) (v : V) (d : Dict V)
      → Distinct d
      → lookup k d ≡ some v
      → p v ≡ true
      → p (f v) ≡ false
      → suc (count p (adjust k f d)) ≡ count p d
  unfolding count lookup adjust
  count-adjust_out p k f v [] h e a b = cc
  count-adjust_out p k f v ((j, w) ∷ d) h e a b = elim (Bool-cases (str_eq j k)) [
    | inl same ↦
        let absent : lookup k d ≡ none = subst (λ i. lookup i d ≡ none) ((eq_iff j k).0 same) h.0 in
        rw (adjust_absent k f d absent) (ground arith)
    | inr other ↦ ground (arith, count-adjust_out p k f v d h.1)
  ]
