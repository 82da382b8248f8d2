-- ===== src/Deletion.antt =====
-- The tools `delete_entry` and `restore_entry` of src/mcp_awareness/tools.py, with
-- `_parse_entry_type` of src/mcp_awareness/helpers.py, over the operations of the store. A result
-- stands for the JSON text that the tool returns, or for the error that it raises.
pub mod Protection
pub mod DryRun
mod Tests
use mcp_awareness.Base.{
  ℕ, Bool, true, false, not, ◌&&◌, String, List, [], ◌∷◌, Option, none, some, str_eq, if◌then◌else◌,
  length, keep, or_else,
}
use mcp_awareness.Base.Text.{codes, is_truthy}
use mcp_awareness.Schema.{Entry, EntryType}
use mcp_awareness.Schema.Dicts.{type_of}
use mcp_awareness.Store.{Stored, Table, StoreEnv, same_type, get_entry_by_id, has_tags}
use mcp_awareness.Store.Queries.{Filter, get_entries}
use mcp_awareness.Store.Trash.{
  soft_delete_by_id, soft_delete_by_tags, soft_delete_by_source, restore_by_id, restore_by_tags,
}
use mcp_awareness.Schemas.{Deletable, assert_schema_deletable}

pub data DeleteResult : Type 0 where
  acknowledged : String → DeleteResult
  schema_in_use : ℕ → List String → DeleteResult
  dry_run : ℕ → DeleteResult
  trashed : ℕ → DeleteResult
  invalid_parameter : DeleteResult
  assertion_error : DeleteResult

-- the filter of a listing by source, type and tags
abbrev pub list_filter : Option String → Option EntryType → List String → Filter
list_filter source entry_type tags = record {
  entry_type = entry_type;
  source = source;
  tags = tags;
  since = none;
  until = none;
  learned_from = none;
  created_after = none;
  created_before = none;
  language = none;
}

-- What `_parse_entry_type` gives; `none` is the error of an invalid name.
unfoldable pub parse_entry_type : Option String → Option (Option EntryType)
parse_entry_type none = some none
parse_entry_type (some s) =
    if str_eq s "" then some none else (elim (type_of s) [ none ↦ none | some ty ↦ some (some ty) ])

-- whether the entry is a schema, and its logical key
abbrev pub schema_key : Stored → Option String
schema_key e = if same_type e.entry_type EntryType.schema then e.logical_key else none

-- the test of the schema before a deletion by id
unfoldable pub check_deletable : String → String → Table → Deletable
unfolding get_entry_by_id assert_schema_deletable
check_deletable owner_id entry_id t = elim (get_entry_by_id owner_id entry_id t) [
  | none ↦ Deletable.deletable
  | some e ↦ elim (schema_key e) [
    | none ↦ Deletable.deletable
    | some key ↦ assert_schema_deletable owner_id (codes key) t
  ]
]

-- by entry_id
unfoldable pub delete_by_id : StoreEnv → ℕ → String → String → Table → DeleteResult × Table
unfolding check_deletable soft_delete_by_id
delete_by_id env now owner_id entry_id t = elim (check_deletable owner_id entry_id t) [
  | Deletable.deletable ↦
      (DeleteResult.acknowledged entry_id, (soft_delete_by_id env now owner_id entry_id t).0)
  | Deletable.in_use n ids ↦ (DeleteResult.schema_in_use n ids, t)
  | Deletable.assertion_error ↦ (DeleteResult.assertion_error, t)
]

-- by tags
unfoldable pub delete_by_tags :
    StoreEnv → ℕ → String → List String → Bool → Table → DeleteResult × Table
unfolding get_entries soft_delete_by_tags
delete_by_tags env now owner_id tags confirm t =
    if confirm
    then (
      DeleteResult.trashed (soft_delete_by_tags env now owner_id tags t).1,
      (soft_delete_by_tags env now owner_id tags t).0,
    )
    else (
      DeleteResult.dry_run (
          length
            (keep (has_tags tags) (get_entries owner_id (list_filter none none tags) none none t))),
      t,
    )

-- by source, and by type if one is given
unfoldable pub delete_by_source :
    StoreEnv → ℕ → String → String → Option EntryType → Bool → Table → DeleteResult × Table
unfolding get_entries soft_delete_by_source
delete_by_source env now owner_id source kind confirm t =
    if confirm
    then (
      DeleteResult.trashed (soft_delete_by_source env now owner_id source kind t).1,
      (soft_delete_by_source env now owner_id source kind t).0,
    )
    else (
      DeleteResult.dry_run
          (length (get_entries owner_id (list_filter (some source) kind []) none none t)),
      t,
    )

-- the last mode, which needs a source and the name of a type or none
unfoldable pub delete_source :
    StoreEnv → ℕ → String → Option String → Option String → Bool → Table → DeleteResult × Table
unfolding parse_entry_type delete_by_source
delete_source env now owner_id source entry_type confirm t =
    if is_truthy source
    then (elim (parse_entry_type entry_type) [
      | none ↦ (DeleteResult.invalid_parameter, t)
      | some kind ↦ delete_by_source env now owner_id (or_else source "") kind confirm t
    ])
    else (DeleteResult.invalid_parameter, t)

unfoldable pub delete_entry :
    StoreEnv
    → ℕ
    → String
    → Option String
    → Option String
    → Option String
    → List String
    → Bool
    → Table
    → DeleteResult × Table
unfolding delete_by_id delete_by_tags delete_source
delete_entry env now owner_id source entry_type entry_id [] confirm t =
    if is_truthy entry_id
    then delete_by_id env now owner_id (or_else entry_id "") t
    else delete_source env now owner_id source entry_type confirm t
delete_entry env now owner_id source entry_type entry_id (tag ∷ tags) confirm t =
    if is_truthy entry_id
    then delete_by_id env now owner_id (or_else entry_id "") t
    else delete_by_tags env now owner_id (tag ∷ tags) confirm t

-- What `restore_entry` gives.
pub data RestoreResult : Type 0 where
  restored : ℕ → RestoreResult
  not_found : RestoreResult
  no_argument : RestoreResult

-- `none` is a UniqueViolation, which the tool does not handle
unfoldable pub restore_one : StoreEnv → String → String → Table → Option (RestoreResult × Table)
unfolding restore_by_id
restore_one env owner_id entry_id t = elim (restore_by_id env owner_id entry_id t) [
  | none ↦ none
  | some r ↦ some (if r.1 then (RestoreResult.restored 1, r.0) else (RestoreResult.not_found, r.0))
]

unfoldable pub restore_tagged :
    StoreEnv → String → List String → Table → Option (RestoreResult × Table)
unfolding restore_by_tags
restore_tagged env owner_id tags t = elim (restore_by_tags env owner_id tags t) [
  | none ↦ none
  | some r ↦ some (RestoreResult.restored r.1, r.0)
]

unfoldable pub restore_entry :
    StoreEnv → String → Option String → List String → Table → Option (RestoreResult × Table)
unfolding restore_one restore_tagged
restore_entry env owner_id entry_id [] t =
    if is_truthy entry_id
    then restore_one env owner_id (or_else entry_id "") t
    else some (RestoreResult.no_argument, t)
restore_entry env owner_id entry_id (tag ∷ tags) t =
    if is_truthy entry_id
    then restore_one env owner_id (or_else entry_id "") t
    else restore_tagged env owner_id (tag ∷ tags) t
