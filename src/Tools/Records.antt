-- ===== src/Tools/Records.antt =====
-- The tools register_schema and create_record of src/mcp_awareness/tools.py.
use Prim.Native.String.{◌++◌ as ◌+ₛ◌}
use mcp_awareness.Base.{ℕ, String, List, [], ◌∷◌, Option, none, some, str_eq, if◌then◌else◌}
use mcp_awareness.Base.Json.{Json, text}
use mcp_awareness.Base.Text.{codes}
use mcp_awareness.Base.Dict.{lookup}
use mcp_awareness.Schema.{EntryType}
use mcp_awareness.Language.{compose_detection_text, resolve_language}
use mcp_awareness.Store.{Data, Stored, Table}
use mcp_awareness.Store.Writes.{add}
use mcp_awareness.Knowledge.Upsert.{upsert_by_logical_key}
use mcp_awareness.Schemas.{resolve_schema}
use mcp_awareness.Tools.{ToolEnv, Answer, written_entry, language_of, check_unsupported_language}
use mcp_awareness.Tools.Notes.{upserted}

-- the answer of an insert, whose UniqueViolation the tool handles
abbrev registered : Table → Option (Stored × Table) → Answer × Table
registered t none = (Answer.refused "schema_already_exists", t)
registered t (some (e, t')) = (Answer.done e.id, t')

unfoldable pub register_schema :
    ToolEnv
    → ℕ
    → String
    → String
    → String
    → String
    → List String
    → String
    → String
    → String
    → Json
    → String
    → Option String
    → Table
    → Answer × Table
unfolding compose_detection_text resolve_language check_unsupported_language add
register_schema env now new_id alert_id owner_id source tags description family version schema
      learned_from language t =
    let d =
      ("family", text family)
      ∷ ("version", text version)
      ∷ ("schema", schema)
      ∷ ("description", text description)
      ∷ ("learned_from", text learned_from)
      ∷ [] in
    let s = compose_detection_text "schema" d in
    let resolved = language_of env language s in
    let t' = check_unsupported_language env now alert_id owner_id s resolved t in
    if str_eq family ""
    then (Answer.refused "invalid_parameter", t)
    else if str_eq version ""
    then (Answer.refused "invalid_parameter", t)
    else if env.is_schema_body schema
    then registered t' (
        add env.store owner_id
          (record (written_entry new_id now EntryType.schema source tags resolved d) {
            logical_key = some ((family +ₛ ":") +ₛ version);
          })
          t')
    else (Answer.refused "invalid_schema", t)

-- What the validation of a content against an entry's schema gives.
pub data Validation : Type 0 where
  valid : Validation
  invalid : Validation
  schema_not_found : Validation
  exception : Validation

-- `none` is an exception of the jsonschema package
abbrev pub verdict_of : Option (List String) → Validation
verdict_of none = Validation.exception
verdict_of (some []) = Validation.valid
verdict_of (some (e ∷ es)) = Validation.invalid

-- A schema without a body is a KeyError.
unfoldable pub validate_content : ToolEnv → String → String → String → Json → Table → Validation
unfolding resolve_schema
validate_content env owner_id schema_ref schema_version content t =
    elim (resolve_schema owner_id (codes schema_ref) (codes schema_version) t) [
      | none ↦ Validation.schema_not_found
      | some e ↦ elim (lookup "schema" e.payload) [
        | none ↦ Validation.exception
        | some body ↦ verdict_of (env.errors_of body content)
      ]
    ]

-- the record that is written
unfoldable pub save_record :
    ToolEnv
    → ℕ
    → String
    → String
    → String
    → String
    → List String
    → String
    → String
    → Data
    → Option String
    → Table
    → Answer × Table
unfolding compose_detection_text resolve_language check_unsupported_language upsert_by_logical_key
save_record env now new_id alert_id owner_id source tags description logical_key d language t =
    let s = compose_detection_text "record" d in
    let resolved = language_of env language s in
    let t' = check_unsupported_language env now alert_id owner_id s resolved t in
    upserted t' (
      upsert_by_logical_key env.store now owner_id source logical_key
        (record (written_entry new_id now EntryType.record_entry source tags resolved d) {
          logical_key = some logical_key;
        })
        t')

unfoldable pub create_record :
    ToolEnv
    → ℕ
    → String
    → String
    → String
    → String
    → List String
    → String
    → String
    → String
    → String
    → Json
    → String
    → Option String
    → Table
    → Answer × Table
unfolding validate_content save_record
create_record env now new_id alert_id owner_id source tags description logical_key schema_ref
      schema_version content learned_from language t =
    elim (validate_content env owner_id schema_ref schema_version content t) [
      | Validation.valid ↦
          save_record env now new_id alert_id owner_id source tags description logical_key
            (("schema_ref", text schema_ref)
              ∷ ("schema_version", text schema_version)
              ∷ ("content", content)
              ∷ ("description", text description)
              ∷ ("learned_from", text learned_from)
              ∷ [])
            language t
      | Validation.invalid ↦ (Answer.refused "validation_failed", t)
      | Validation.schema_not_found ↦ (Answer.refused "schema_not_found", t)
      | Validation.exception ↦ (Answer.refused "validation_error", t)
    ]
