-- ===== src/Tools/Notes.antt =====
-- The tools learn_pattern, remember and add_context of src/mcp_awareness/tools.py. `alert_id` is the
-- id of the alert that an unsupported language makes.
use mcp_awareness.Base.{
  ℕ, ◌+◌, ◌*◌, Bool, String, List, [], ◌∷◌, Option, none, some, if◌then◌else◌, or_else,
}
use mcp_awareness.Base.Int.{ℤ}
use mcp_awareness.Base.Json.{Json, text, obj, end}
use mcp_awareness.Base.Text.{is_truthy}
use mcp_awareness.Schema.{EntryType, microseconds}
use mcp_awareness.Language.{compose_detection_text, resolve_language}
use mcp_awareness.Store.{Data, Stored, Table}
use mcp_awareness.Store.Writes.{add}
use mcp_awareness.Knowledge.Upsert.{upsert_by_logical_key}
use mcp_awareness.Tools.{
  ToolEnv, Answer, stored, opt_text, written_entry, language_of, check_unsupported_language,
  positive,
}

unfoldable pub learn_pattern :
    ToolEnv
    → ℕ
    → String
    → String
    → String
    → String
    → List String
    → String
    → Option Json
    → Option String
    → String
    → Option String
    → Table
    → Answer × Table
unfolding compose_detection_text resolve_language check_unsupported_language add
learn_pattern env now new_id alert_id owner_id source tags description conditions effect
      learned_from language t =
    let s =
      compose_detection_text "pattern"
        (("description", text description) ∷ ("effect", opt_text effect) ∷ []) in
    let resolved = language_of env language s in
    let t' = check_unsupported_language env now alert_id owner_id s resolved t in
    stored t' (
      add env.store owner_id
        (written_entry new_id now EntryType.pattern_entry source tags resolved (
          ("description", text description)
          ∷ ("conditions", or_else conditions (obj end))
          ∷ ("effect", text (or_else effect ""))
          ∷ ("learned_from", text learned_from)
          ∷ []))
        t')

-- content that is no text is written as JSON
abbrev pub content_text : ToolEnv → Json → Json
content_text env (text s) = text s
content_text env j = text (env.dumps j)

abbrev pub note_content : ToolEnv → Option Json → String → Data
note_content env none content_type = []
note_content env (some j) content_type =
    ("content", content_text env j) ∷ ("content_type", text content_type) ∷ []

-- the answer of an upsert
abbrev pub upserted : Table → Option ((Stored × Bool) × Table) → Answer × Table
upserted t none = (Answer.raised, t)
upserted t (some ((e, created), t')) =
    (Answer.done_as e.id (if created then "created" else "updated"), t')

unfoldable pub remember :
    ToolEnv
    → ℕ
    → String
    → String
    → String
    → String
    → List String
    → String
    → Option Json
    → String
    → String
    → Option String
    → Option String
    → Table
    → Answer × Table
unfolding compose_detection_text resolve_language check_unsupported_language add
    upsert_by_logical_key
remember env now new_id alert_id owner_id source tags description content content_type learned_from
      logical_key language t =
    let d =
      ("description", text description)
      ∷ ("learned_from", text learned_from)
      ∷ note_content env content content_type in
    let s = compose_detection_text "note" d in
    let resolved = language_of env language s in
    let t' = check_unsupported_language env now alert_id owner_id s resolved t in
    let e = record (written_entry new_id now EntryType.note source tags resolved d) {
      logical_key = logical_key;
    } in
    if is_truthy logical_key
    then upserted t'
        (upsert_by_logical_key env.store now owner_id source (or_else logical_key "") e t')
    else stored t' (add env.store owner_id e t')

unfoldable pub add_context :
    ToolEnv
    → ℕ
    → String
    → String
    → String
    → String
    → List String
    → String
    → ℤ
    → Option String
    → Table
    → Answer × Table
unfolding compose_detection_text resolve_language check_unsupported_language add
add_context env now new_id alert_id owner_id source tags description expires_days language t =
    elim (positive expires_days) [
      | none ↦ (Answer.refused "invalid_parameter", t)
      | some days ↦
          let s = compose_detection_text "context" (("description", text description) ∷ []) in
          let resolved = language_of env language s in
          let t' = check_unsupported_language env now alert_id owner_id s resolved t in
          stored t' (
            add env.store owner_id
              (record (written_entry new_id now EntryType.context source tags resolved
                (("description", text description) ∷ [])) {
                  expires = some (now + microseconds (days * 86400));
                })
              t')
    ]
