-- ===== src/Tools/Updates.antt =====
-- The tool update_entry of src/mcp_awareness/tools.py.
use mcp_awareness.Base.{
  ℕ, Bool, true, false, not, ◌&&◌, String, List, [], ◌∷◌, Option, none, some, if◌then◌else◌,
  is_some,
}
use mcp_awareness.Base.Json.{Json, text}
use mcp_awareness.Base.Dict.{insert}
use mcp_awareness.Schema.{EntryType}
use mcp_awareness.Language.{iso_to_regconfig}
use mcp_awareness.Store.{Data, Stored, Table, text_at, same_type, get_entry_by_id}
use mcp_awareness.Knowledge.{EntryUpdates}
use mcp_awareness.Knowledge
use mcp_awareness.Tools.{ToolEnv, Answer}
use mcp_awareness.Tools.Notes.{content_text}
use mcp_awareness.Tools.Records.{Validation, validate_content}

-- `if value is not None: updates[key] = value`
abbrev update_text : String → Option String → Data → Data
update_text key none u = u
update_text key (some v) u = insert key (text v) u

-- the code of a language that is given
abbrev regconfig_of : Option String → Option String
regconfig_of none = none
regconfig_of (some s) = some (iso_to_regconfig (some s))

abbrev is_empty : Data → Bool
is_empty [] = true
is_empty (f ∷ u) = false

-- `updates`, without the content
unfoldable pub updates_of :
    Option String
    → Option (List String)
    → Option String
    → Option String
    → Option String
    → EntryUpdates
unfolding iso_to_regconfig
updates_of description tags source content_type language = record {
  source = source;
  tags = tags;
  language = regconfig_of language;
  fields = update_text "content_type" content_type (update_text "description" description []);
}

abbrev no_updates : EntryUpdates → Bool
no_updates u =
    not (is_some u.source) && not (is_some u.tags) && not (is_some u.language) && is_empty u.fields

abbrev with_content : Option Json → EntryUpdates → EntryUpdates
with_content none u = u
with_content (some j) u = record u { fields = insert "content" j u.fields }

-- the answer of the store's update, which is None where nothing was updated
abbrev changed : Table → Option (Option Stored × Table) → Answer × Table
changed t none = (Answer.raised, t)
changed t (some (none, t')) = (Answer.refused "not_found", t')
changed t (some (some e, t')) = (Answer.done e.id, t')

unfoldable pub apply_update : ToolEnv → ℕ → String → String → EntryUpdates → Table → Answer × Table
unfolding Knowledge.update_entry
apply_update env now owner_id entry_id u t =
    changed t (Knowledge.update_entry env.store now owner_id entry_id u t)

-- `json.loads(content) if isinstance(content, str) else content`
abbrev parsed_content : ToolEnv → Json → Option Json
parsed_content env (text s) = env.loads s
parsed_content env j = some j

-- the update of a record's content, which is validated again
unfoldable pub update_record :
    ToolEnv → ℕ → String → String → Stored → Json → EntryUpdates → Table → Answer × Table
unfolding validate_content apply_update
update_record env now owner_id entry_id e content u t = elim (text_at "schema_ref" e.payload) [
  | none ↦ (Answer.raised, t)
  | some schema_ref ↦ elim (text_at "schema_version" e.payload) [
    | none ↦ (Answer.raised, t)
    | some schema_version ↦ elim (parsed_content env content) [
      | none ↦ (Answer.raised, t)
      | some j ↦ elim (validate_content env owner_id schema_ref schema_version j t) [
        | Validation.valid ↦ apply_update env now owner_id entry_id (with_content (some j) u) t
        | Validation.invalid ↦ (Answer.refused "validation_failed", t)
        | Validation.schema_not_found ↦ (Answer.refused "schema_not_found", t)
        | Validation.exception ↦ (Answer.raised, t)
      ]
    ]
  ]
]

-- content of an entry that is no record is written as text
abbrev text_of_content : ToolEnv → Option Json → Option Json
text_of_content env none = none
text_of_content env (some j) = some (content_text env j)

-- the update of an entry that was found
unfoldable pub update_found :
    ToolEnv → ℕ → String → String → Stored → Option Json → EntryUpdates → Table → Answer × Table
unfolding apply_update update_record
update_found env now owner_id entry_id e content u t =
    if same_type e.entry_type EntryType.schema
    then (Answer.refused "schema_immutable", t)
    else if same_type e.entry_type EntryType.record_entry
    then (elim content [
      | none ↦ apply_update env now owner_id entry_id u t
      | some j ↦ update_record env now owner_id entry_id e j u t
    ])
    else apply_update env now owner_id entry_id (with_content (text_of_content env content) u) t

unfoldable pub update_entry :
    ToolEnv
    → ℕ
    → String
    → String
    → Option String
    → Option (List String)
    → Option String
    → Option Json
    → Option String
    → Option String
    → Table
    → Answer × Table
unfolding updates_of get_entry_by_id apply_update update_found
update_entry env now owner_id entry_id description tags source content content_type language t =
    let u = updates_of description tags source content_type language in
    if not (is_some content) && no_updates u
    then (Answer.refused "invalid_parameter", t)
    else (elim (get_entry_by_id owner_id entry_id t) [
      | none ↦
          apply_update env now owner_id entry_id (with_content (text_of_content env content) u) t
      | some e ↦ update_found env now owner_id entry_id e content u t
    ])
