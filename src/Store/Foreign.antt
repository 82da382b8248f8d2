-- ===== src/Store/Foreign.antt =====
-- What the statements of the store leave of the rows of other owners.
use mcp_awareness.Base.{
  ℕ, ◌≡◌, refl, ◌∙◌, ◌&&◌, Bool, inl, inr, true, false, not, String, List, [], ◌∷◌, Option, none,
  some, arith, str_eq, eq_iff, if-cases, is_some, ◌||◌, Option-cases, ltb,
}
use mcp_awareness.Base.Dict.{lookup, insert}
use mcp_awareness.Base.Dict.Keys.{adjust, retain}
use mcp_awareness.Store.{Data, Stored, Row, Table, StoreEnv, write_row}
use mcp_awareness.Store.Writes.{
  entry_row, add, insert_entry, with_regconfig, written, key_taken, update_or_add,
}
use mcp_awareness.Store.Trash.{
  update_where, soft_delete, trash_row, restore, restore_row, has_duplicate,
}
use mcp_awareness.Store.Commands.{after}
use mcp_awareness.Knowledge.{Draft, is_unchanged, key_taken_elsewhere, save, save_or_raise}
use mcp_awareness.Knowledge.Upsert.{update_first, merge_entry, saved}

-- the rows of the other owners
abbrev pub foreign : String → Table → Table
foreign owner = retain (λ row. not (str_eq row.owner_id owner))

module _ (owner : String) where
  foreign-insert :
      (i : String) (e : Stored) (t : Table)
      → lookup i t ≡ none
      → foreign owner (insert i (entry_row owner e) t) ≡ foreign owner t
  unfolding insert retain lookup
  foreign-insert i e [] h = ground (arith, eq_iff owner owner)
  foreign-insert i e ((j, row) ∷ t) h = ground (arith, foreign-insert i e t)

  pub foreign-adjust :
      (i : String) (e : Stored) (t : Table)
      → foreign owner (adjust i (write_row owner e) t) ≡ foreign owner t
  unfolding adjust retain
  foreign-adjust i e [] = refl
  foreign-adjust i e ((j, row) ∷ t) = ground (arith, foreign-adjust i e t)

  pub foreign-retain :
      (p : Row → Bool) (t : Table)
      → ((row : Row) → str_eq row.owner_id owner ≡ false → p row ≡ true)
      → foreign owner (retain p t) ≡ foreign owner t
  unfolding retain
  foreign-retain p [] h = refl
  foreign-retain p ((j, row) ∷ t) h = ground (arith, foreign-retain p t h, h row)

  foreign-update_where :
      (p : Row → Bool) (f : Row → Row) (t : Table)
      → ((row : Row) → p row ≡ true → str_eq row.owner_id owner ≡ true)
      → ((row : Row) → (f row).owner_id ≡ row.owner_id)
      → foreign owner (update_where p f t) ≡ foreign owner t
  unfolding update_where retain
  foreign-update_where p f [] h k = refl
  foreign-update_where p f ((j, row) ∷ t) h k =
      ground (arith, foreign-update_where p f t h k, h row, k row)

  module _ (env : StoreEnv) where
    pub foreign-add :
        (e : Stored) (t t' : Table)
        → foreign owner t' ≡ foreign owner t
        → foreign owner (after (λ r. r.1) t (add env owner e t')) ≡ foreign owner t
    unfolding add insert_entry
    foreign-add e t t' same =
        if-cases {A = Option Table}
          (λ o.
            foreign owner (after (λ r. r.1) t (written (with_regconfig env e) o)) ≡ foreign owner t)
          (is_some (lookup e.id t') || key_taken owner e.source e.logical_key t') none
          (some (insert e.id (entry_row owner (with_regconfig env e)) t')) (λ taken. refl)
          (λ free. foreign-insert e.id (with_regconfig env e) t' (vacant free) ∙ same)
      where
        vacant :
            is_some (lookup e.id t') || key_taken owner e.source e.logical_key t' ≡ false
            → lookup e.id t' ≡ none
        vacant free = elim (Option-cases (lookup e.id t')) [
          | inl missing ↦ missing
          | inr (row, found) ↦ absurd (ground (arith, rw found at free))
        ]

    pub foreign-update_or_add :
        (now : ℕ) (tags : List String) (d : Data) (e : Stored) (t : Table) (es : List Stored)
        → foreign owner (after (λ r. r.1) t (update_or_add env now owner tags d e t es))
          ≡ foreign owner t
    unfolding update_or_add
    foreign-update_or_add now tags d e t [] = foreign-add e t t refl
    foreign-update_or_add now tags d e t (old ∷ rest) = foreign-adjust old.id _ t

    pub foreign-save :
        (now : ℕ) (i : String) (c : Draft) (t : Table)
        → foreign owner (save env now owner i c t).1 ≡ foreign owner t
    unfolding save
    foreign-save now i (e, c) t =
        if-cases {A = Option Stored × Table} (λ r. foreign owner r.1 ≡ foreign owner t)
          (is_unchanged c) _ _ (λ same. refl) (λ changed. foreign-adjust i _ t)

    pub foreign-save_or_raise :
        (now : ℕ) (i : String) (d : Draft) (t : Table)
        → foreign owner (after (λ r. r.1) t (save_or_raise env now owner i d t)) ≡ foreign owner t
    unfolding save_or_raise
    foreign-save_or_raise now i d t =
        if-cases {A = Option (Option Stored × Table)}
          (λ o. foreign owner (after (λ r. r.1) t o) ≡ foreign owner t)
          (not (is_unchanged d.1) && key_taken_elsewhere owner i d.0 t) _ _ (λ b. refl)
          (λ b. foreign-save now i d t)

    pub foreign-saved :
        (t : Table) (r : Option Stored × Table)
        → foreign owner r.1 ≡ foreign owner t
        → foreign owner (after (λ q. q.1) t (saved r)) ≡ foreign owner t
    foreign-saved t (none, t') h = refl
    foreign-saved t (some e, t') h = h

    pub foreign-update_first :
        (now : ℕ) (e : Stored) (es : List Stored) (t : Table)
        → foreign owner (after (λ r. r.1) t (update_first env now owner e es t)) ≡ foreign owner t
    unfolding update_first
    foreign-update_first now e [] t = refl
    foreign-update_first now e (old ∷ rest) t =
        foreign-saved t (save env now owner old.id (merge_entry e old) t)
          (foreign-save now old.id (merge_entry e old) t)

    pub foreign-soft_delete :
        (now : ℕ) (p : Row → Bool) (t : Table)
        → ((row : Row) → p row ≡ true → str_eq row.owner_id owner ≡ true)
        → foreign owner (soft_delete env now p t).0 ≡ foreign owner t
    unfolding soft_delete trash_row
    foreign-soft_delete now p t own = foreign-update_where p (trash_row env now) t own (λ row. refl)

    pub foreign-restore :
        (p : Row → Bool) (t : Table)
        → ((row : Row) → p row ≡ true → str_eq row.owner_id owner ≡ true)
        → foreign owner (after (λ r. r.0) t (restore env p t)) ≡ foreign owner t
    unfolding restore restore_row
    foreign-restore p t own =
        if-cases {A = Option (Table × ℕ)}
          (λ o. foreign owner (after (λ r. r.0) t o) ≡ foreign owner t)
          (has_duplicate (update_where p (restore_row env) t)) _ _ (λ taken. refl)
          (λ free. foreign-update_where p (restore_row env) t own (λ row. refl))

    pub foreign-restored :
        (t : Table) (o : Option (Table × ℕ))
        → foreign owner (after (λ r. r.0) t o) ≡ foreign owner t
        → foreign owner (
            after {A = Table × Bool}
              (λ r. r.0)
              t
              (elim o [ none ↦ none | some r ↦ some (r.0, ltb 0 r.1) ]))
          ≡ foreign owner t
    foreign-restored t none h = h
    foreign-restored t (some r) h = h

    pub foreign-inserted :
        (e e' : Stored) (t : Table) (o : Option Table)
        → foreign owner (after (λ r. r.1) t (written e' o)) ≡ foreign owner t
        → foreign owner (
            after {A = (Stored × Bool) × Table}
              (λ r. r.1)
              t
              (elim o [ none ↦ none | some t' ↦ some ((e, true), t') ]))
          ≡ foreign owner t
    foreign-inserted e e' t none h = h
    foreign-inserted e e' t (some t') h = h
