-- ===== src/Knowledge/Upsert.antt =====
-- `upsert_by_logical_key` of src/mcp_awareness/postgres_store.py with sql/upsert_by_logical_key.sql:
-- an insert, or an update of the row that holds the logical key.
use mcp_awareness.Base.{
  ℕ, Bool, true, false, ◌&&◌, String, List, [], ◌∷◌, Option, none, some, str_eq, if◌then◌else◌,
}
use mcp_awareness.Base.Json.{Json, null}
use mcp_awareness.Base.Dict.{lookup}
use mcp_awareness.Store.{Stored, Table, StoreEnv, equals, query_entries}
use mcp_awareness.Store.Writes.{key_taken, with_regconfig, insert_entry}
use mcp_awareness.Knowledge.{Draft, set_tags, set_field, save}

-- a new value that is None is left out
unfoldable pub set_new : String → Option Json → Draft → Draft
unfolding set_field
set_new key none d = d
set_new key (some null) d = d
set_new key (some v) d = set_field key (some v) d

-- the fields of the entry that differ from the old one's
unfoldable pub merge_entry : Stored → Stored → Draft
unfolding set_new set_tags
merge_entry e old = set_new "content_type" (lookup "content_type" e.payload) (
    set_new "content" (lookup "content" e.payload)
      (set_new "description" (lookup "description" e.payload) (set_tags (some e.tags) (old, []))))

-- the entry that was saved, which is not a new one
abbrev pub saved : Option Stored × Table → Option ((Stored × Bool) × Table)
saved (none, t) = none
saved (some e, t) = some ((e, false), t)

-- the first of the rows that the key names; without one the code raises an IndexError
unfoldable pub update_first :
    StoreEnv → ℕ → String → Stored → List Stored → Table → Option ((Stored × Bool) × Table)
unfolding merge_entry save
update_first env now owner_id e [] t = none
update_first env now owner_id e (old ∷ rest) t =
    saved (save env now owner_id old.id (merge_entry e old) t)

unfoldable pub upsert_by_logical_key :
    StoreEnv → ℕ → String → String → String → Stored → Table → Option ((Stored × Bool) × Table)
unfolding key_taken insert_entry update_first query_entries
upsert_by_logical_key env now owner_id source key entry t =
    let e = with_regconfig env entry in
    if key_taken owner_id e.source e.logical_key t
    then update_first env now owner_id e
        (query_entries owner_id (λ f. str_eq f.source source && equals key f.logical_key) t) t
    else (elim (insert_entry env owner_id e t) [ none ↦ none | some t' ↦ some ((e, true), t') ])
