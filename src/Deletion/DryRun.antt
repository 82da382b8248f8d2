-- ===== src/Deletion/DryRun.antt =====
-- The counts of a bulk deletion.
use mcp_awareness.Base.{
  ℕ, ◌≡◌, refl, ◌∙◌, sym, ap, Bool, Bool-cases, inl, inr, true, false, ◌&&◌, String, List, [], ◌∷◌,
  Option, arith, length, keep, Option-cases, or_else,
}
use mcp_awareness.Base.Text.{is_truthy}
use mcp_awareness.Base.Dict.Keys.{count}
use mcp_awareness.Schema.{EntryType, last_change}
use mcp_awareness.Store.{
  Stored, Row, Table, StoreEnv, visible, insert_by, order_by, select, query_entries, has_tags,
}
use mcp_awareness.Store.Queries.{get_entries}
use mcp_awareness.Helpers.Pages.{limit_clause}
use mcp_awareness.Store.Trash.{soft_delete, soft_delete_by_tags, soft_delete_by_source}
use mcp_awareness.Deletion.{
  DeleteResult, parse_entry_type, delete_by_tags, delete_by_source, delete_source, delete_entry,
}

length-keep-insert_by :
    (q : Stored → Bool) (key : Stored → ℕ) (e : Stored) (es : List Stored)
    → length (keep q (insert_by key e es)) ≡ length (keep q (e ∷ es))
unfolding insert_by
length-keep-insert_by q key e [] = refl
length-keep-insert_by q key e (f ∷ fs) = ground (arith, length-keep-insert_by q key e fs)

length-keep-order_by :
    (q : Stored → Bool) (key : Stored → ℕ) (es : List Stored)
    → length (keep q (order_by key es)) ≡ length (keep q es)
unfolding order_by
length-keep-order_by q key [] = refl
length-keep-order_by q key (e ∷ es) =
    length-keep-insert_by q key e (order_by key es)
    ∙ (ground (arith, length-keep-order_by q key es))

length-keep-select :
    (q : Stored → Bool) (p : Row → Bool) (t : Table)
    → length (keep q (select p t)) ≡ count (λ row. p row && q row.entry) t
unfolding select count
length-keep-select q p [] = refl
length-keep-select q p ((i, row) ∷ t) = ground (arith, length-keep-select q p t)

count-same : (p q : Row → Bool) (t : Table) → ((row : Row) → p row ≡ q row) → count p t ≡ count q t
unfolding count
count-same p q [] h = refl
count-same p q ((i, row) ∷ t) h = ground (arith, count-same p q t h, h row)

-- the number of the entries of a query that pass a test
keep-query_entries :
    (q w : Stored → Bool) (r : Row → Bool) (owner : String) (t : Table)
    → ((row : Row) → (visible owner row && w row.entry) && q row.entry ≡ r row)
    → length (keep q (query_entries owner w t)) ≡ count r t
unfolding query_entries
keep-query_entries q w r owner t h =
    length-keep-order_by q last_change _ ∙ length-keep-select q _ t ∙ count-same _ _ t h

keep_all : (es : List Stored) → keep (λ e. true) es ≡ es
keep_all [] = refl
keep_all (e ∷ es) = ap (◌∷◌ e) (keep_all es)

-- the result that a dry run gives in place of one
abbrev pub as_dry_run : DeleteResult → DeleteResult
as_dry_run (DeleteResult.trashed n) = DeleteResult.dry_run n
as_dry_run r = r

delete_by_tags-dry_run :
    (env : StoreEnv) (now : ℕ) (owner tag : String) (tags : List String) (t : Table)
    → delete_by_tags env now owner (tag ∷ tags) false t
      ≡ (as_dry_run (delete_by_tags env now owner (tag ∷ tags) true t).0, t)
unfolding delete_by_tags get_entries limit_clause soft_delete_by_tags soft_delete
delete_by_tags-dry_run env now owner tag tags t =
    ap (λ n. (DeleteResult.dry_run n, t))
      (keep-query_entries (has_tags (tag ∷ tags)) _ _ owner t (λ row. ground arith))

delete_by_source-dry_run :
    (env : StoreEnv) (now : ℕ) (owner source : String) (kind : Option EntryType) (t : Table)
    → delete_by_source env now owner source kind false t
      ≡ (as_dry_run (delete_by_source env now owner source kind true t).0, t)
unfolding delete_by_source get_entries limit_clause soft_delete_by_source soft_delete
delete_by_source-dry_run env now owner source kind t =
    ap (λ n. (DeleteResult.dry_run n, t))
      (ap length (sym (keep_all _))
        ∙ keep-query_entries (λ e. true) _ _ owner t (λ row. ground arith))

delete_source-dry_run :
    (env : StoreEnv) (now : ℕ) (owner : String) (source entry_type : Option String) (t : Table)
    → delete_source env now owner source entry_type false t
      ≡ (as_dry_run (delete_source env now owner source entry_type true t).0, t)
unfolding delete_source
delete_source-dry_run env now owner source entry_type t = elim (Bool-cases (is_truthy source)) [
  | inl given ↦ elim (Option-cases (parse_entry_type entry_type)) [
    | inl bad ↦ rw (delete_source, given, bad) refl
    | inr (kind, good) ↦
        rw (delete_source, given, good)
          (delete_by_source-dry_run env now owner (or_else source "") kind t)
  ]
  | inr missing ↦ rw (delete_source, missing) refl
]

-- A bulk deletion without confirmation leaves the table as it is, and reports what the confirmed
-- one does: the number of the entries that would go to the trash, or the same error.
pub delete_entry-dry_run :
    (env : StoreEnv) (now : ℕ) (owner : String) (source entry_type entry_id : Option String)
    (tags : List String) (t : Table)
    → is_truthy entry_id ≡ false
    → delete_entry env now owner source entry_type entry_id tags false t
      ≡ (as_dry_run (delete_entry env now owner source entry_type entry_id tags true t).0, t)
unfolding delete_entry
delete_entry-dry_run env now owner source entry_type entry_id [] t bulk =
    rw (delete_entry, bulk) (delete_source-dry_run env now owner source entry_type t)
delete_entry-dry_run env now owner source entry_type entry_id (tag ∷ tags) t bulk =
    rw (delete_entry, bulk) (delete_by_tags-dry_run env now owner tag tags t)
