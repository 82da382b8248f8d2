-- ===== src/Tools/Reports.antt =====
-- The tools report_status, report_alert, suppress_alert and set_preference of
-- src/mcp_awareness/tools.py.
use mcp_awareness.Base.{
  ℕ, ◌+◌, ◌*◌, Bool, String, List, [], ◌∷◌, Option, none, some, if◌then◌else◌, or_else,
}
use mcp_awareness.Base.Int.{ℤ}
use mcp_awareness.Base.Json.{Json, bool, num, text}
use mcp_awareness.Schema.{EntryType, microseconds}
use mcp_awareness.Helpers.Suggest.{validate_enum}
use mcp_awareness.Store.{Table}
use mcp_awareness.Store.Writes.{fresh_entry, add, upsert_status, upsert_alert, upsert_preference}
use mcp_awareness.Tools.{ToolEnv, Answer, stored, checked, opt_text, with_field, positive}

abbrev pub alert_levels : List String
alert_levels = "warning" ∷ "critical" ∷ []

abbrev pub alert_types : List String
alert_types = "threshold" ∷ "structural" ∷ "baseline" ∷ []

unfoldable pub report_status :
    ToolEnv
    → ℕ
    → String
    → String
    → String
    → List String
    → Json
    → Option Json
    → ℤ
    → Table
    → Answer × Table
unfolding upsert_status
report_status env now new_id owner_id source tags metrics inventory ttl_sec t = stored t (
    upsert_status env.store now new_id owner_id source tags
      (with_field "inventory" inventory (("metrics", metrics) ∷ ("ttl_sec", num ttl_sec) ∷ [])) t)

-- the answer names the action
abbrev as_action : String → Answer → Answer
as_action action (Answer.done i) = Answer.done_as i action
as_action action r = r

unfoldable pub report_alert :
    ToolEnv
    → ℕ
    → String
    → String
    → String
    → List String
    → String
    → String
    → String
    → String
    → Option Json
    → Option Json
    → Bool
    → Table
    → Answer × Table
unfolding validate_enum upsert_alert
report_alert env now new_id owner_id source tags alert_id level alert_type message details
      diagnostics resolved t =
    let (answer, t') = stored t (
      upsert_alert env.store now new_id owner_id source tags alert_id
        (with_field "diagnostics" diagnostics (
          with_field "details" details (
            ("alert_id", text alert_id)
            ∷ ("level", text level)
            ∷ ("alert_type", text alert_type)
            ∷ ("message", text message)
            ∷ ("resolved", bool resolved)
            ∷ [])))
        t) in
    checked level "level" alert_levels t (
      checked alert_type "alert_type" alert_types t
        (as_action (if resolved then "resolved" else "reported") answer, t'))

unfoldable pub suppress_alert :
    ToolEnv
    → ℕ
    → String
    → String
    → Option String
    → List String
    → Option String
    → String
    → ℤ
    → Bool
    → String
    → Table
    → Answer × Table
unfolding validate_enum add
suppress_alert env now new_id owner_id source tags metric level duration_minutes escalation_override
      reason t =
    checked level "level" alert_levels t (elim (positive duration_minutes) [
      | none ↦ (Answer.refused "invalid_parameter", t)
      | some minutes ↦ stored t (
          add env.store owner_id
            (record (fresh_entry new_id now EntryType.suppression (or_else source "") tags (
              ("metric", opt_text metric)
              ∷ ("suppress_level", text level)
              ∷ ("escalation_override", bool escalation_override)
              ∷ ("reason", text reason)
              ∷ [])) { expires = some (now + microseconds (minutes * 60)) })
            t)
    ])

unfoldable pub set_preference :
    ToolEnv → ℕ → String → String → String → String → String → Table → Answer × Table
unfolding upsert_preference
set_preference env now new_id owner_id key value scope t = stored t (
    upsert_preference env.store now new_id owner_id key scope []
      (("key", text key) ∷ ("value", text value) ∷ ("scope", text scope) ∷ []) t)
