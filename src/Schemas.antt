-- ===== src/Schemas.antt =====
-- The schemas of records: src/mcp_awareness/validation.py, and `find_schema` and
-- `count_records_referencing` of src/mcp_awareness/postgres_store.py with sql/find_schema.sql,
-- sql/count_records_referencing.sql and sql/list_records_referencing_ids.sql. The validation by the
-- jsonschema package is a parameter.
pub mod Keys
use mcp_awareness.Base.{
  ℕ, Bool, true, false, not, ◌&&◌, ◌||◌, ◌==◌, String, List, [], ◌∷◌, ◌++◌, Option, none, some,
  str_eq, leb, ltb, if◌then◌else◌, map, length, take, is_some, or_else,
}
use mcp_awareness.Base.Text.{Text, codes, text_eq}
use mcp_awareness.Schema.{Entry, EntryType}
use mcp_awareness.Store.{Stored, Row, Table, text_at, same_type, visible, select}

abbrev pub compose_schema_logical_key : Text → Text → Text
compose_schema_logical_key family version = family ++ b':' ∷ version

-- An error of a record's content, flattened, or the mark of the errors that are left out.
pub data ContentError (E : Type 0) : Type 0 where
  flat : E → ContentError E
  truncated : ℕ → ContentError E

abbrev pub max_validation_errors : ℕ
max_validation_errors = 50

-- `validate_record_content` of the validator's errors in their order
unfoldable pub validate_record_content : {E : Type 0} → List E → List (ContentError E)
validate_record_content all_errors =
    if leb (length all_errors) max_validation_errors
    then map ContentError.flat all_errors
    else map ContentError.flat (take max_validation_errors all_errors)
      ++ ContentError.truncated (length all_errors) ∷ []

-- `value = %s` of a text
abbrev pub equals_text : Text → Option String → Bool
equals_text s none = false
equals_text s (some t) = text_eq (codes t) s

-- the rows that find_schema looks among
abbrev pub is_schema : Text → Row → Bool
is_schema key row =
    same_type row.entry.entry_type EntryType.schema
    && equals_text key row.entry.logical_key
    && not (is_some row.deleted)

abbrev first_schema : List Stored → Option Stored
first_schema [] = none
first_schema (e ∷ es) = some e

-- the caller's own schema, or else that of the owner `_system`
unfoldable pub find_schema : String → Text → Table → Option Stored
unfolding select
find_schema owner_id key t = first_schema (
    select (λ row. is_schema key row && str_eq row.owner_id owner_id) t
    ++ select (λ row. is_schema key row && str_eq row.owner_id "_system") t)

unfoldable pub resolve_schema : String → Text → Text → Table → Option Stored
unfolding find_schema
resolve_schema owner_id family version t =
    find_schema owner_id (compose_schema_logical_key family version) t

-- s.rpartition(":"), where `none` is a text without the separator
unfoldable pub rpartition : Text → Option (Text × Text)
rpartition [] = none
rpartition (c ∷ s) = elim (rpartition s) [
  | none ↦ if c == b':' then some ([], s) else none
  | some r ↦ some (c ∷ r.0, r.1)
]

abbrev pub refers_to_schema : Text → Text → Stored → Bool
refers_to_schema ref version e =
    same_type e.entry_type EntryType.record_entry
    && equals_text ref (text_at "schema_ref" e.payload)
    && equals_text version (text_at "schema_version" e.payload)

-- ORDER BY created
unfoldable pub insert_created : Stored → List Stored → List Stored
insert_created e [] = e ∷ []
insert_created e (f ∷ fs) = if leb e.created f.created then e ∷ f ∷ fs else f ∷ insert_created e fs

unfoldable pub order_created : List Stored → List Stored
unfolding insert_created
order_created [] = []
order_created (e ∷ es) = insert_created e (order_created es)

abbrev is_empty : Text → Bool
is_empty [] = true
is_empty (c ∷ s) = false

-- the records of an owner that refer to a schema
unfoldable pub referencing : String → Text → Text → Table → List Stored
unfolding select order_created
referencing owner_id ref version t =
    order_created (select (λ row. visible owner_id row && refers_to_schema ref version row.entry) t)

-- `none` is an AssertionError
unfoldable pub count_records_referencing : String → Text → Table → Option (ℕ × List String)
unfolding rpartition referencing
count_records_referencing owner_id key t = elim (rpartition key) [
  | none ↦ none
  | some r ↦
      if is_empty r.0 || is_empty r.1
      then none
      else (let found = referencing owner_id r.0 r.1 t in
          some (length found, map (λ e. e.id) (take 10 found)))
]

-- What `assert_schema_deletable` does.
pub data Deletable : Type 0 where
  deletable : Deletable
  in_use : ℕ → List String → Deletable
  assertion_error : Deletable

unfoldable pub assert_schema_deletable : String → Text → Table → Deletable
unfolding count_records_referencing
assert_schema_deletable owner_id key t = elim (count_records_referencing owner_id key t) [
  | none ↦ Deletable.assertion_error
  | some r ↦ if ltb 0 r.0 then Deletable.in_use r.0 r.1 else Deletable.deletable
]
