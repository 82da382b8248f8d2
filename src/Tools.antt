-- ===== src/Tools.antt =====
-- The tools of src/mcp_awareness/tools.py that write, over the operations of the store: what they
-- share, with `_check_unsupported_language`. A tool gives its answer and the table after it; the
-- answer stands for the JSON text or the error that the client gets. The entries' embeddings, which
-- the tools have made afterwards, lie in another table and are not modelled.
pub mod Reports
pub mod Notes
pub mod Records
pub mod Updates
pub mod Reminders
pub mod Delivery
pub mod Validity
mod Tests
use Prim.Native.String.{◌++◌ as ◌+ₛ◌}
use mcp_awareness.Base.{
  ℕ, ◌*◌, Bool, true, false, not, String, List, [], ◌∷◌, Option, none, some, str_eq, if◌then◌else◌,
  is_some, or_else,
}
use mcp_awareness.Base.Int.{ℤ, pos, negsuc}
use mcp_awareness.Base.Json.{Json, null, bool, text}
use mcp_awareness.Base.Text.{Text}
use mcp_awareness.Base.Dict.{Dict, lookup, insert}
use mcp_awareness.Schema.{Entry, EntryType}
use mcp_awareness.Helpers.Suggest.{ErrorEnvelope, Checked, validate_enum}
use mcp_awareness.Language.{Detector, regconfigs, detect_language_iso, resolve_language}
use mcp_awareness.Store.{Data, Stored, Table, StoreEnv}
use mcp_awareness.Store.Writes.{fresh_entry, upsert_alert}

-- What the tools take from outside. `errors_of` is the jsonschema package's list of the errors of a
-- content, and `none` an exception of it.
pub record ToolEnv : Type 0 where
  pub store : StoreEnv
  pub detector : Detector
  pub dumps : Json → String
  pub loads : String → Option Json
  pub is_schema_body : Json → Bool
  pub errors_of : Json → Json → Option (List String)

-- The id of an entry, with the action if there is one; an error by its code; or an exception that
-- the tool does not handle.
pub data Answer : Type 0 where
  done : String → Answer
  done_as : String → String → Answer
  refused : String → Answer
  raised : Answer

-- the answer of a tool that ends with the store's operation
abbrev pub stored : Table → Option (Stored × Table) → Answer × Table
stored t none = (Answer.raised, t)
stored t (some (e, t')) = (Answer.done e.id, t')

-- a tool that checks an enumeration first
abbrev pub checked : String → String → List String → Table → Answer × Table → Answer × Table
checked value param valid t answer = elim (validate_enum value param valid) [
  | Checked.ok u ↦ answer
  | Checked.raise e ↦ (Answer.refused e.error_code, t)
]

-- a value that may be None
abbrev pub opt_text : Option String → Json
opt_text none = null
opt_text (some s) = text s

-- `if value: data[key] = value`, where `none` is an empty value
abbrev pub with_field : String → Option Json → Data → Data
with_field key none d = d
with_field key (some v) d = insert key v d

-- the entry that a tool makes, in its language
abbrev pub written_entry : String → ℕ → EntryType → String → List String → String → Data → Stored
written_entry new_id now kind source tags language d =
    record (fresh_entry new_id now kind source tags d) { language = language }

-- `resolve_language(explicit=language, text_for_detection=…)`
abbrev pub language_of : ToolEnv → Option String → Text → String
language_of env language s = resolve_language env.detector language none (some s)

-- the table after an operation whose exceptions are logged
abbrev pub logged_only : Table → Option (Stored × Table) → Table
logged_only t none = t
logged_only t (some (e, t')) = t'

-- the alert on a language without a configuration
unfoldable pub report_language : ToolEnv → ℕ → String → String → String → Table → Table
unfolding upsert_alert
report_language env now new_id owner_id iso t = logged_only t (
    upsert_alert env.store now new_id owner_id "mcp-awareness" ("language" ∷ "unsupported" ∷ [])
      ("unsupported-language-" +ₛ iso)
      (("alert_id", text ("unsupported-language-" +ₛ iso))
        ∷ ("level", text "info")
        ∷ ("alert_type", text "structural")
        ∷ (
          "message",
          text (
              ("Detected language '" +ₛ iso)
              +ₛ "' has no Postgres regconfig — entry stored with 'simple' fallback. If this language appears frequently, consider adding support in a future release."),
        )
        ∷ ("resolved", bool false)
        ∷ ("detected_iso", text iso)
        ∷ [])
      t)

unfoldable pub check_unsupported_language :
    ToolEnv → ℕ → String → String → Text → String → Table → Table
unfolding report_language detect_language_iso
check_unsupported_language env now new_id owner_id s resolved t =
    if str_eq resolved "simple"
    then (elim (detect_language_iso env.detector s) [
      | none ↦ t
      | some iso ↦
          if is_some (lookup iso regconfigs)
          then t
          else report_language env now new_id owner_id iso t
    ])
    else t

-- a number that is at least 1
abbrev pub positive : ℤ → Option ℕ
positive (pos ℕ.zero) = none
positive (pos (ℕ.suc n)) = some (ℕ.suc n)
positive (negsuc n) = none
