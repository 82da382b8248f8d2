-- ===== src/Knowledge.antt =====
-- `update_entry` of src/mcp_awareness/postgres_store.py with sql/update_entry.sql: an update in
-- place that records the former values in the entry's changelog, and raises a UniqueViolation if
-- another row holds the entry's logical key under the new source. A changelog that is no list, which
-- nothing writes, is not modelled.
pub mod Updates
pub mod Upsert
mod Tests
use mcp_awareness.Base.{
  ℕ, Bool, true, false, not, ◌&&◌, ◌||◌, String, List, [], ◌∷◌, ◌++◌, Option, none, some, str_eq,
  if◌then◌else◌, is_some,
}
use mcp_awareness.Base.Json.{
  Json, null, text, arr, obj, Items, nil, cons, json_eq, append_item, fields_of,
}
use mcp_awareness.Base.Dict.{Dict, lookup, insert, remove}
use mcp_awareness.Base.Dict.Keys.{adjust}
use mcp_awareness.Schema.{Entry, EntryType}
use mcp_awareness.Schema.Dicts.{items_of}
use mcp_awareness.Store.Writes.{key_taken}
use mcp_awareness.Store.{
  Data, Stored, Row, Table, StoreEnv, validate_regconfig, get_entry_by_id, write_row,
}

-- `updates`: the fields that the caller sets. The values of the data's fields are JSON.
pub record EntryUpdates : Type 0 where
  pub source : Option String
  pub tags : Option (List String)
  pub language : Option String
  pub fields : Data

-- the entry so far, and what has been recorded
abbrev pub Draft : Type 0
Draft = Stored × Data

unfoldable pub tags_eq : List String → List String → Bool
tags_eq [] [] = true
tags_eq [] (t ∷ ts) = false
tags_eq (s ∷ ss) [] = false
tags_eq (s ∷ ss) (t ∷ ts) = str_eq s t && tags_eq ss ts

unfoldable pub set_source : Option String → Draft → Draft
set_source none d = d
set_source (some v) (e, c) =
    if str_eq v e.source
    then (e, c)
    else (record e { source = v }, insert "source" (text e.source) c)

unfoldable pub set_tags : Option (List String) → Draft → Draft
unfolding tags_eq
set_tags none d = d
set_tags (some v) (e, c) =
    if tags_eq v e.tags
    then (e, c)
    else (record e { tags = v }, insert "tags" (arr (items_of e.tags)) c)

unfoldable pub set_language : StoreEnv → Option String → Draft → Draft
unfolding validate_regconfig
set_language env none d = d
set_language env (some v) (e, c) =
    if str_eq v e.language
    then (e, c)
    else (record e { language = validate_regconfig env v }, insert "language" (text e.language) c)

-- `old_val is not None`
abbrev pub is_value : Option Json → Bool
is_value none = false
is_value (some null) = false
is_value (some v) = true

-- an old value that is None is not recorded
abbrev pub record_old : String → Option Json → Data → Data
record_old key none c = c
record_old key (some null) c = c
record_old key (some v) c = insert key v c

-- `updates[field] != entry.data.get(field)`, where a missing key is None
abbrev pub same_value : Json → Option Json → Bool
same_value v none = json_eq v null
same_value v (some w) = json_eq v w

-- one round of the loop over the data's fields
unfoldable pub set_field : String → Option Json → Draft → Draft
set_field key none d = d
set_field key (some v) (e, c) =
    if same_value v (lookup key e.payload)
    then (e, c)
    else (record e { payload = insert key v e.payload }, record_old key (lookup key e.payload) c)

-- the loop over ("description", "content", "content_type")
unfoldable pub set_fields : Data → Draft → Draft
unfolding set_field
set_fields u d =
    set_field "content_type" (lookup "content_type" u) (
      set_field "content" (lookup "content" u) (set_field "description" (lookup "description" u) d))

-- the three loops over the fields, from an empty record of changes
unfoldable pub apply_updates : StoreEnv → EntryUpdates → Stored → Draft
unfolding set_source set_tags set_language set_fields
apply_updates env u e =
    set_fields u.fields
      (set_language env u.language (set_tags u.tags (set_source u.source (e, []))))

-- `not changed`
abbrev pub is_unchanged : Data → Bool
is_unchanged [] = true
is_unchanged (kv ∷ c) = false

unfoldable pub is_immutable : EntryType → Bool
is_immutable EntryType.status = true
is_immutable EntryType.alert = true
is_immutable EntryType.suppression = true
is_immutable _ = false

-- `data.setdefault("changelog", [])`
abbrev pub changelog_of : Data → Items
changelog_of d = elim (lookup "changelog" d) [
  | none ↦ nil
  | some v ↦ elim v [ arr js ↦ js | _ ↦ nil ]
]

-- one element of the changelog
abbrev pub change : StoreEnv → ℕ → Data → Json
change env now c =
    obj (fields_of (("updated", text (env.to_iso now)) ∷ ("changed", obj (fields_of c)) ∷ []))

-- `changelog.append(…)`, `entry.updated = now`
unfoldable pub logged : StoreEnv → ℕ → Draft → Stored
unfolding append_item fields_of
logged env now (e, c) = record e {
  updated = some now;
  payload =
      insert "changelog" (arr (append_item (changelog_of e.payload) (change env now c))) e.payload;
}

-- the end of `update_entry`, with what the loops give
unfoldable pub save : StoreEnv → ℕ → String → String → Draft → Table → Option Stored × Table
unfolding logged
save env now owner_id entry_id (e, c) t = if is_unchanged c then (some e, t) else (
  some (logged env now (e, c)),
  adjust entry_id (write_row owner_id (logged env now (e, c))) t,
)

-- the unique index (owner_id, source, logical_key) has a live row other than the entry's
unfoldable pub key_taken_elsewhere : String → String → Stored → Table → Bool
unfolding key_taken remove
key_taken_elsewhere owner_id entry_id e t =
    key_taken owner_id e.source e.logical_key (remove entry_id t)

-- The UPDATE, which is sent only if something was recorded, raises if the index has another row.
unfoldable pub save_or_raise :
    StoreEnv → ℕ → String → String → Draft → Table → Option (Option Stored × Table)
unfolding save key_taken_elsewhere
save_or_raise env now owner_id entry_id d t =
    if not (is_unchanged d.1) && key_taken_elsewhere owner_id entry_id d.0 t
    then none
    else some (save env now owner_id entry_id d t)

-- `none` is the UniqueViolation.
unfoldable pub update_entry :
    StoreEnv → ℕ → String → String → EntryUpdates → Table → Option (Option Stored × Table)
unfolding get_entry_by_id is_immutable apply_updates save_or_raise
update_entry env now owner_id entry_id u t = elim (get_entry_by_id owner_id entry_id t) [
  | none ↦ some (none, t)
  | some e ↦
      if is_immutable e.entry_type
      then some (none, t)
      else save_or_raise env now owner_id entry_id (apply_updates env u e) t
]
