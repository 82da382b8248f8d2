-- ===== src/Tools/Reminders.antt =====
-- The tools remind and update_intention of src/mcp_awareness/tools.py, with `_validate_timestamp` of
-- src/mcp_awareness/helpers.py.
use mcp_awareness.Base.{ℕ, String, List, [], ◌∷◌, Option, none, some, str_eq, if◌then◌else◌}
use mcp_awareness.Base.Json.{text}
use mcp_awareness.Schema.{EntryType}
use mcp_awareness.Helpers.Suggest.{validate_enum}
use mcp_awareness.Language.{compose_detection_text, resolve_language}
use mcp_awareness.Store.{Stored, Table, StoreEnv}
use mcp_awareness.Store.Writes.{add}
use mcp_awareness.Intentions.{update_intention_state}
use mcp_awareness.Tools.{
  ToolEnv, Answer, checked, opt_text, written_entry, language_of, check_unsupported_language,
}

-- `none` is the error of a text that is no instant
unfoldable pub validate_timestamp : StoreEnv → Option String → Option (Option ℕ)
validate_timestamp env none = some none
validate_timestamp env (some s) =
    if str_eq s ""
    then none
    else (elim (env.parse_time s) [ none ↦ none | some at ↦ some (some at) ])

abbrev pub urgencies : List String
urgencies = "low" ∷ "normal" ∷ "high" ∷ []

abbrev intention_states : List String
intention_states = "pending" ∷ "fired" ∷ "active" ∷ "completed" ∷ "snoozed" ∷ "cancelled" ∷ []

-- the text of an instant that may be None
abbrev pub iso_or_none : StoreEnv → Option ℕ → Option String
iso_or_none env none = none
iso_or_none env (some at) = some (env.to_iso at)

abbrev pub reminded : Table → Option (Stored × Table) → Answer × Table
reminded t none = (Answer.raised, t)
reminded t (some (e, t')) = (Answer.done_as e.id "pending", t')

-- the tool past the test of the urgency, with what the test of the instant gives
unfoldable pub remind_at :
    ToolEnv
    → ℕ
    → String
    → String
    → String
    → String
    → String
    → List String
    → Option (Option ℕ)
    → Option String
    → String
    → Option String
    → String
    → Option String
    → Table
    → Answer × Table
unfolding compose_detection_text resolve_language check_unsupported_language add
remind_at env now new_id alert_id owner_id goal source tags none constraints urgency recurrence
      learned_from language t =
    (Answer.refused "invalid_parameter", t)
remind_at env now new_id alert_id owner_id goal source tags (some at) constraints urgency recurrence
      learned_from language t =
    let s = compose_detection_text "intention" (("goal", text goal) ∷ []) in
    let resolved = language_of env language s in
    let t' = check_unsupported_language env now alert_id owner_id s resolved t in
    reminded t' (
      add env.store owner_id
        (written_entry new_id now EntryType.intention source tags resolved (
          ("goal", text goal)
          ∷ ("state", text "pending")
          ∷ ("deliver_at", opt_text (iso_or_none env.store at))
          ∷ ("constraints", opt_text constraints)
          ∷ ("urgency", text urgency)
          ∷ ("recurrence", opt_text recurrence)
          ∷ ("learned_from", text learned_from)
          ∷ []))
        t')

unfoldable pub remind :
    ToolEnv
    → ℕ
    → String
    → String
    → String
    → String
    → String
    → List String
    → Option String
    → Option String
    → String
    → Option String
    → String
    → Option String
    → Table
    → Answer × Table
unfolding validate_enum validate_timestamp remind_at
remind env now new_id alert_id owner_id goal source tags deliver_at constraints urgency recurrence
      learned_from language t =
    checked urgency "urgency" urgencies t (
      remind_at env now new_id alert_id owner_id goal source tags
        (validate_timestamp env.store deliver_at) constraints urgency recurrence learned_from
        language t)

abbrev transitioned : String → Option Stored × Table → Answer × Table
transitioned entry_id (none, t) = (Answer.refused "not_found", t)
transitioned entry_id (some e, t) = (Answer.done entry_id, t)

unfoldable pub update_intention :
    ToolEnv → ℕ → String → String → String → Option String → Table → Answer × Table
unfolding validate_enum update_intention_state
update_intention env now owner_id entry_id state reason t =
    checked state "state" intention_states t (
      transitioned entry_id (update_intention_state env.store now owner_id entry_id state reason t))
