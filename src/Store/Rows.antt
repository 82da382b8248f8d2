-- ===== src/Store/Rows.antt =====
-- The rows of the table by their identifiers, and what the lists of selected entries hold.
use mcp_awareness.Base.{
  eq_refl, leb, ℕ, ◌≡◌, refl, ◌∙◌, inl, inr, Bool, Bool-cases, Option-cases, true, false, ◌||◌,
  String, List, [], ◌∷◌, Option, none, some, arith, str_eq, eq_iff, any, All,
}
use mathlib.Core.Path.{subst}
use mcp_awareness.Base.Dict.{lookup}
use mcp_awareness.Base.Dict.Keys.{Distinct, adjust, adjust-Distinct}
use mcp_awareness.Store.{
  Stored, Row, Table, insert_by, order_by, select, write_row, visible, get_entry_by_id,
}

-- every row stands under the id of its entry
abbrev pub Named : Table → Type 0
Named [] = Unit
Named ((i, row) ∷ t) = (row.entry.id ≡ i) × Named t

-- a table with a primary key
abbrev pub Keyed : Table → Type 0
Keyed t = Distinct t × Named t

-- the row under an id passes a test
abbrev pub passes : (Row → Bool) → Option Row → Bool
passes p none = false
passes p (some row) = p row

any-insert_by :
    (q : Stored → Bool) (key : Stored → ℕ) (e : Stored) (es : List Stored)
    → any q (insert_by key e es) ≡ q e || any q es
unfolding insert_by
any-insert_by q key e [] = refl
any-insert_by q key e (f ∷ fs) = ground (arith, any-insert_by q key e fs)

pub any-order_by :
    (q : Stored → Bool) (key : Stored → ℕ) (es : List Stored) → any q (order_by key es) ≡ any q es
unfolding order_by
any-order_by q key [] = refl
any-order_by q key (e ∷ es) =
    any-insert_by q key e (order_by key es) ∙ (rw (any-order_by q key es) refl)

pub any-select :
    (p : Row → Bool) (i : String) (t : Table)
    → Keyed t
    → any (λ e. str_eq e.id i) (select p t) ≡ passes p (lookup i t)
unfolding select lookup
any-select p i [] k = refl
any-select p i ((j, row) ∷ t) k =
    ground (arith, any-select p i t (k.0.1, k.1.1), k.0.0, k.1.0, eq_iff j i, eq_iff row.entry.id i)

module _ (P : Stored → Type 0) where
  All-insert_by :
      (key : Stored → ℕ) (e : Stored) (es : List Stored)
      → P e
      → All P es
      → All P (insert_by key e es)
  unfolding insert_by
  All-insert_by key e [] h v = (h, tt)
  All-insert_by key e (f ∷ fs) h v = elim (Bool-cases (leb (key f) (key e))) [
    | inl b ↦ rw b (h, v)
    | inr n ↦ rw n (v.0, All-insert_by key e fs h v.1)
  ]

  pub All-order_by : (key : Stored → ℕ) (es : List Stored) → All P es → All P (order_by key es)
  unfolding order_by
  All-order_by key [] v = tt
  All-order_by key (e ∷ es) v = All-insert_by key e (order_by key es) v.0 (All-order_by key es v.1)

  pub All-select :
      (p : Row → Bool) (t : Table)
      → Distinct t
      → ((i : String) (row : Row) → lookup i t ≡ some row → p row ≡ true → P row.entry)
      → All P (select p t)
  unfolding select lookup
  All-select p [] k f = tt
  All-select p ((j, row) ∷ t) k f = elim (Bool-cases (p row)) [
    | inl b ↦ rw b (f j row (rw (eq_refl j) refl) b, All-select p t k.1 tail)
    | inr n ↦ rw n (All-select p t k.1 tail)
  ]
    where
      tail : (i : String) (r : Row) → lookup i t ≡ some r → p r ≡ true → P r.entry
      tail i r h q = f i r (ground (arith, absent, eq_iff j i, k.0, h)) q
        where
          absent : j ≡ i → lookup i t ≡ none
          absent e = subst (λ x. lookup x t ≡ none) e k.0

adjust-Named :
    (i owner : String) (e : Stored) (t : Table)
    → e.id ≡ i
    → Named t
    → Named (adjust i (write_row owner e) t)
unfolding adjust
adjust-Named i owner e [] h n = tt
adjust-Named i owner e ((j, row) ∷ t) h n = elim (Bool-cases (str_eq j i)) [
  | inl b ↦ rw b (name_kept b, adjust-Named i owner e t h n.1)
  | inr b ↦ rw b (n.0, adjust-Named i owner e t h n.1)
]
  where
    name_kept : str_eq j i ≡ true → (write_row owner e row).entry.id ≡ j
    name_kept b = ground (arith, eq_iff j i, h, n.0)

-- An update of an entry keeps the primary key.
pub adjust-Keyed :
    (i owner : String) (e : Stored) (t : Table)
    → e.id ≡ i
    → Keyed t
    → Keyed (adjust i (write_row owner e) t)
adjust-Keyed i owner e t h k =
    (adjust-Distinct i (write_row owner e) t k.0, adjust-Named i owner e t h k.1)

pub lookup-Named :
    (i : String) (row : Row) (t : Table) → lookup i t ≡ some row → Named t → row.entry.id ≡ i
unfolding lookup
lookup-Named i row [] h n = absurd (ground arith)
lookup-Named i row ((j, r) ∷ t) h n = elim (Bool-cases (str_eq j i)) [
  | inl b ↦ ground (arith, n.0, eq_iff j i, b, rw b at h)
  | inr b ↦ lookup-Named i row t (rw b at h) n.1
]

-- The entry that is read by an id has it.
pub get-Named :
    (owner i : String) (e : Stored) (t : Table)
    → get_entry_by_id owner i t ≡ some e
    → Named t
    → e.id ≡ i
unfolding get_entry_by_id
get-Named owner i e t h n = elim (Option-cases (lookup i t)) [
  | inl missing ↦ absurd (ground (arith, rw (get_entry_by_id, missing) at h))
  | inr (row, found) ↦ elim (Bool-cases (visible owner row)) [
    | inl v ↦ ground (arith, rw (get_entry_by_id, found, v) at h, lookup-Named i row t found n)
    | inr v ↦ absurd (ground (arith, rw (get_entry_by_id, found, v) at h))
  ]
]
