-- ===== src/Knowledge/Updates.antt =====
-- What an update leaves in the table.
use mcp_awareness.Base.{[], ◌∷◌, ℕ, ◌≡◌, refl, false, String, none, some, arith, eq_refl}
use mcp_awareness.Base.Json.{Json, text, json_eq}
use mcp_awareness.Base.Dict.{lookup, insert}
use mcp_awareness.Base.Dict.Keys.{adjust, lookup-adjust}
use mcp_awareness.Store.{Data, Stored, Table, StoreEnv, get_entry_by_id, write_row}
use mcp_awareness.Knowledge.{
  EntryUpdates, apply_updates, is_immutable, save, save_or_raise, update_entry, set_source, Draft,
  set_tags, set_language, set_field, set_fields,
}

-- the entry that is read back is the one that was written
pub get-adjust :
    (owner i : String) (e e' : Stored) (t : Table)
    → get_entry_by_id owner i t ≡ some e
    → get_entry_by_id owner i (adjust i (write_row owner e') t) ≡ some e'
unfolding get_entry_by_id
get-adjust owner i e e' t h = ground (arith, h, lookup-adjust i i (write_row owner e') t, eq_refl i)

-- the changelog of a draft is that of the entry
abbrev KeepsLog : Data → Draft → Type 0
KeepsLog d r = lookup "changelog" r.0.payload ≡ lookup "changelog" d

-- the updates that set the description alone
abbrev pub only_description : String → EntryUpdates
only_description v = record {
  source = none;
  tags = none;
  language = none;
  fields = ("description", text v) ∷ [];
}

-- An update that gives a description to an entry that has none is not stored: the entry with the
-- description is returned, and the table is as it was.
update_entry-lost :
    (env : StoreEnv) (now : ℕ) (owner i v : String) (t : Table) (e : Stored)
    → get_entry_by_id owner i t ≡ some e
    → is_immutable e.entry_type ≡ false
    → lookup "description" e.payload ≡ none
    → update_entry env now owner i (only_description v) t
      ≡ some (some (record e { payload = insert "description" (text v) e.payload }), t)
unfolding update_entry save_or_raise apply_updates set_source set_tags set_language set_field
    set_fields save lookup json_eq
update_entry-lost env now owner i v t e found mutable missing =
    rw (update_entry, found, mutable, missing) refl
