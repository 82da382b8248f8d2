-- ===== src/Tools/Validity.antt =====
-- What a record that was written has passed.
use mcp_awareness.Base.{
  ℕ, ◌≡◌, refl, Bool, true, String, List, [], ◌∷◌, Option, some, arith, eq_refl,
}
use mcp_awareness.Base.Json.{Json, text}
use mcp_awareness.Base.Text.{codes}
use mcp_awareness.Base.Dict.{lookup}
use mcp_awareness.Store.{Data, Stored, Table, StoreEnv, get_entry_by_id}
use mcp_awareness.Store.Writes.{insert_entry, with_regconfig}
use mcp_awareness.Tools.Delivery.{insert_entry-some}
use mcp_awareness.Schemas.{resolve_schema}
use mcp_awareness.Tools.{ToolEnv, Answer, written_entry, language_of, check_unsupported_language}
use mcp_awareness.Schema.{EntryType}
use mcp_awareness.Language.{compose_detection_text}

-- a schema is found whose body the content has no error against
abbrev pub Conforms : ToolEnv → String → String → String → Json → Table → Type 0
Conforms env owner schema_ref schema_version content t =
    (e : Stored) × (resolve_schema owner (codes schema_ref) (codes schema_version) t ≡ some e)
    × ((body : Json) × (lookup "schema" e.payload ≡ some body)
        × (env.errors_of body content ≡ some []))

-- What a record that was asked for has become: `Recorded … t r` of the answer and the table r. After
-- a refusal the table is t. Anything else has passed the schema, and a record that is new is read
-- back under its id with the content and with the schema that it was checked against.
pub data Recorded (env : ToolEnv) (owner schema_ref schema_version : String) (content : Json)
    (t : Table) : Answer × Table → Type 0 where
  refused :
      (code : String)
      → Recorded env owner schema_ref schema_version content t (Answer.refused code, t)
  created :
      {i : String} {t' : Table} (e : Stored)
      → Conforms env owner schema_ref schema_version content t
      → get_entry_by_id owner i t' ≡ some e
      → lookup "content" e.payload ≡ some content
      → lookup "schema_ref" e.payload ≡ some (text schema_ref)
      → lookup "schema_version" e.payload ≡ some (text schema_version)
      → Recorded env owner schema_ref schema_version content t (Answer.done_as i "created", t')
  updated :
      {i : String} {t' : Table}
      → Conforms env owner schema_ref schema_version content t
      → Recorded env owner schema_ref schema_version content t (Answer.done_as i "updated", t')
  failed :
      {t' : Table}
      → Conforms env owner schema_ref schema_version content t
      → Recorded env owner schema_ref schema_version content t (Answer.raised, t')

new_row :
    (env : StoreEnv) (owner : String) (entry e : Stored) (t t' u : Table)
    → insert_entry env owner (with_regconfig env entry) t ≡ some t'
    → ◌≡◌ {A = Option ((Stored × Bool) × Table)}
        (some ((with_regconfig env entry, true), t'))
        (some ((e, true), u))
    → (x : Stored) × (get_entry_by_id owner e.id u ≡ some x) × (x.payload ≡ entry.payload)
unfolding get_entry_by_id
new_row env owner entry e t t' u done same = (
  with_regconfig env (with_regconfig env entry),
  rw
      (
        get_entry_by_id,
        ← same_entry,
        ← same_table,
        insert_entry-some env owner (with_regconfig env entry) t t' done,
        eq_refl owner,
      )
      refl,
  refl,
)
  where
    same_entry : with_regconfig env entry ≡ e
    same_entry = ground (arith, same)

    same_table : t' ≡ u
    same_table = ground (arith, same)

module _ (env : ToolEnv) (now : ℕ) (new_id alert_id owner source : String) (tags : List String)
    (description logical_key schema_ref schema_version : String) (content : Json)
    (learned_from : String) (language : Option String) (t : Table) where
  record_data : Data
  record_data =
      ("schema_ref", text schema_ref)
      ∷ ("schema_version", text schema_version)
      ∷ ("content", content)
      ∷ ("description", text description)
      ∷ ("learned_from", text learned_from)
      ∷ []

  abbrev in_language : String
  in_language = language_of env language (compose_detection_text "record" record_data)

  -- the table with the alert of a language that is not supported
  abbrev reported : Table
  reported =
      check_unsupported_language env now alert_id owner
        (compose_detection_text "record" record_data) in_language t

  abbrev entry : Stored
  entry =
      record (written_entry new_id now EntryType.record_entry source tags in_language record_data) {
        logical_key = some logical_key;
      }
