-- ===== src/Store/Writes.antt =====
-- The inserts and upserts of `PostgresStore` (src/mcp_awareness/postgres_store.py) with
-- sql/insert_entry.sql, sql/upsert_status_delete.sql, sql/select_*_for_update.sql and
-- sql/upsert_*_update.sql. A new entry's id, which make_id draws, is an argument. `none` is a
-- UniqueViolation, of the primary key or of the index on owner, source and logical key of the rows
-- that are not deleted. The advisory locks make each upsert one step. The cleanup that a write
-- schedules is a step of its own, in Store/Trash.
use mcp_awareness.Base.{
  ℕ, Bool, false, not, ◌&&◌, ◌||◌, String, List, [], ◌∷◌, Option, none, some, str_eq, if◌then◌else◌,
  is_some,
}
use mcp_awareness.Base.Dict.{lookup, insert}
use mcp_awareness.Base.Dict.Keys.{adjust, retain}
use mcp_awareness.Schema.{EntryType}
use mcp_awareness.Store.{
  Data, Stored, Row, Table, StoreEnv, text_at, equals, same_type, validate_regconfig, visible,
  query_entries, write_row,
}

-- a row holds the logical key in the index
abbrev pub holds_key : String → String → String → Row → Bool
holds_key owner_id source key row =
    str_eq row.owner_id owner_id
    && not (is_some row.deleted)
    && str_eq row.entry.source source
    && equals key row.entry.logical_key

unfoldable pub key_taken : String → String → Option String → Table → Bool
key_taken owner_id source none t = false
key_taken owner_id source (some key) [] = false
key_taken owner_id source (some key) ((i, row) ∷ t) =
    holds_key owner_id source key row || key_taken owner_id source (some key) t

abbrev pub entry_row : String → Stored → Row
entry_row owner_id e = record { owner_id = owner_id; deleted = none; entry = e }

-- `entry.language = self.validate_regconfig(entry.language)`
abbrev pub with_regconfig : StoreEnv → Stored → Stored
with_regconfig env e = record e { language = validate_regconfig env e.language }

-- `_insert_entry`
unfoldable pub insert_entry : StoreEnv → String → Stored → Table → Option Table
unfolding key_taken validate_regconfig
insert_entry env owner_id e t =
    if is_some (lookup e.id t) || key_taken owner_id e.source e.logical_key t
    then none
    else some (insert e.id (entry_row owner_id (with_regconfig env e)) t)

-- an operation's entry with the table after it
abbrev pub written : Stored → Option Table → Option (Stored × Table)
written e none = none
written e (some t) = some (e, t)

unfoldable pub add : StoreEnv → String → Stored → Table → Option (Stored × Table)
unfolding insert_entry
add env owner_id e t = written (with_regconfig env e) (insert_entry env owner_id e t)

-- a new entry of the store's own making
abbrev pub fresh_entry : String → ℕ → EntryType → String → List String → Data → Stored
fresh_entry new_id now kind source tags values = record {
  id = new_id;
  entry_type = kind;
  source = source;
  tags = tags;
  created = now;
  updated = none;
  expires = none;
  payload = values;
  logical_key = none;
  language = "simple";
}

-- the rows that `upsert_status` deletes
abbrev pub old_status : String → String → Row → Bool
old_status owner_id source row =
    visible owner_id row
    && same_type row.entry.entry_type EntryType.status
    && str_eq row.entry.source source

unfoldable pub upsert_status :
    StoreEnv → ℕ → String → String → String → List String → Data → Table → Option (Stored × Table)
unfolding add
upsert_status env now new_id owner_id source tags values t =
    add env owner_id (fresh_entry new_id now EntryType.status source tags values)
      (retain (λ row. not (old_status owner_id source row)) t)

-- `e.data.update(data)`
unfoldable pub merge : Data → Data → Data
merge d [] = d
merge d ((k, v) ∷ e) = merge (insert k v d) e

-- the update of the row that was found, or the insert
unfoldable pub update_or_add :
    StoreEnv
    → ℕ
    → String
    → List String
    → Data
    → Stored
    → Table
    → List Stored
    → Option (Stored × Table)
unfolding merge add
update_or_add env now owner_id tags values new t [] = add env owner_id new t
update_or_add env now owner_id tags values new t (old ∷ rest) =
    let e = record old { updated = some now; tags = tags; payload = merge old.payload values } in
    some (e, adjust old.id (write_row owner_id e) t)

unfoldable pub upsert_alert :
    StoreEnv
    → ℕ
    → String
    → String
    → String
    → List String
    → String
    → Data
    → Table
    → Option (Stored × Table)
unfolding update_or_add query_entries
upsert_alert env now new_id owner_id source tags alert_id values t =
    update_or_add env now owner_id tags values
      (fresh_entry new_id now EntryType.alert source tags values) t
      (query_entries owner_id
        (λ e.
          same_type e.entry_type EntryType.alert
          && str_eq e.source source
          && equals alert_id (text_at "alert_id" e.payload))
        t)

unfoldable pub upsert_preference :
    StoreEnv
    → ℕ
    → String
    → String
    → String
    → String
    → List String
    → Data
    → Table
    → Option (Stored × Table)
unfolding update_or_add query_entries
upsert_preference env now new_id owner_id key scope tags values t =
    update_or_add env now owner_id tags values
      (fresh_entry new_id now EntryType.preference scope tags values) t
      (query_entries owner_id
        (λ e.
          same_type e.entry_type EntryType.preference
          && equals key (text_at "key" e.payload)
          && equals scope (text_at "scope" e.payload))
        t)
