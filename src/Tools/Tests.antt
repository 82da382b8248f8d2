-- ===== src/Tools/Tests.antt =====
-- Some calls of the tools, and the theorems of the tools at them.
use mcp_awareness.Base.{◌≡◌, refl, ap, true, false, ℕ, [], ◌∷◌, none, some}
use mcp_awareness.Base.Marks.{marks, count_marks, count_marks-marks}
use mcp_awareness.Base.Json.{text, obj, end}
use mcp_awareness.Base.Dict.{lookup, insert}
use mcp_awareness.Schema.{EntryType}
use mcp_awareness.Schema.Dicts.{type_name}
use mcp_awareness.Base.Text.{text_eq, strip, strip_left, is_space, to_lower}
use mcp_awareness.Helpers.Suggest.{validate_enum}
use mcp_awareness.Collator.Briefing.Generate.{generate_briefing}
use mcp_awareness.Language.{
  compose_detection_text, resolve_language, known_regconfig, iso_to_regconfig, detected,
  detect_language, detect_language_iso,
}
use mcp_awareness.Store.{Stored, Table, validate_regconfig, select}
use mcp_awareness.Store.Rows.{Keyed}
use mcp_awareness.Store.Writes.{add, insert_entry, key_taken, fresh_entry}
use mcp_awareness.Knowledge.Upsert.{upsert_by_logical_key}
use mcp_awareness.Schemas.{resolve_schema, find_schema}
use mcp_awareness.Intentions.States.{Entries, postgres_store, intention_state}
use mcp_awareness.Tools.{ToolEnv, Answer, check_unsupported_language}
use mcp_awareness.Tools.Records.{create_record, validate_content, save_record}
use mcp_awareness.Tools.Reminders.{remind, remind_at, validate_timestamp}
use mcp_awareness.Tools.Delivery.{remind-generate_briefing}

abbrev test_env : ToolEnv
test_env = record {
  store = record {
    to_iso = marks;
    parse_time = λ s. some (count_marks s);
    is_regconfig = λ s. false;
  };
  detector = none;
  dumps = λ j. "{}";
  loads = λ s. none;
  is_schema_body = λ j. true;
  errors_of = λ body content. some [];
}

abbrev call_remind : Answer × Table
call_remind =
    remind test_env 3 "i1" "a1" "alice" "milk" "home" [] (some "||||") none "normal" none "chat"
      none []

reminded_once : call_remind ≡ (Answer.done_as "i1" "pending", call_remind.1)
unfolding remind remind_at validate_timestamp validate_enum check_unsupported_language add
    insert_entry key_taken compose_detection_text resolve_language known_regconfig iso_to_regconfig
    detected detect_language detect_language_iso lookup insert strip strip_left is_space to_lower
    text_eq validate_regconfig
reminded_once = refl

call_remind-Keyed : Keyed call_remind.1
unfolding remind remind_at validate_timestamp validate_enum check_unsupported_language add
    insert_entry key_taken compose_detection_text resolve_language known_regconfig iso_to_regconfig
    detected detect_language detect_language_iso lookup insert strip strip_left is_space to_lower
    text_eq validate_regconfig
call_remind-Keyed = ((refl, tt), (refl, tt))

abbrev after_remind : Entries
after_remind = record { table = call_remind.1; keyed = call_remind-Keyed }

remind-generate_briefing_example :
    intention_state
      (generate_briefing (postgres_store test_env.store) 9 after_remind "alice").0
      "alice"
      "i1"
    ≡ some "fired"
remind-generate_briefing_example =
    remind-generate_briefing test_env 3 "i1" "a1" "alice" "milk" "home" [] "||||" 4 none "normal"
      none "chat" none 9 "i1" [] after_remind (λ n. parses n) refl refl reminded_once
  where
    parses : (n : ℕ) → some (count_marks (marks n)) ≡ some n
    parses n = ap some (count_marks-marks n)

abbrev test_schema : Stored
test_schema = record (fresh_entry "s1" 1 EntryType.schema "home" [] (("schema", obj end) ∷ [])) {
  logical_key = some "m:1";
}

abbrev test_table : Table
test_table = ("s1", record { owner_id = "_system"; deleted = none; entry = test_schema }) ∷ []

abbrev call_create : Answer × Table
call_create =
    create_record test_env 3 "r1" "a1" "alice" "home" [] "a record" "k" "m" "1" (text "x") "chat"
      none test_table

created_once : call_create ≡ (Answer.done_as "r1" "created", call_create.1)
unfolding create_record validate_content save_record upsert_by_logical_key
    check_unsupported_language insert_entry key_taken compose_detection_text resolve_language
    known_regconfig iso_to_regconfig detected detect_language detect_language_iso lookup insert
    strip strip_left is_space to_lower text_eq validate_regconfig resolve_schema find_schema select
    type_name
created_once = refl
