-- ===== src/Readers/Tests.antt =====
-- Three notes, and the theorems of get_knowledge at them.
use mcp_awareness.Base.{ℕ, true, String, [], ◌∷◌, Option, none, some}
use mcp_awareness.Base.Dict.{Dict}
use mcp_awareness.Schema.{EntryType}
use mcp_awareness.Store.{Stored, Row, Table, StoreEnv}
use mcp_awareness.Store.Queries.{Filter}
use mcp_awareness.Store.Writes.{fresh_entry}
use mcp_awareness.Logs.{Log}
use mcp_awareness.Readers.Knowledge.{Query}

abbrev test_env : StoreEnv
test_env = record { to_iso = λ t. "now"; parse_time = λ s. none; is_regconfig = λ s. true }

abbrev test_note : String → ℕ → Stored
test_note i at = fresh_entry i at EntryType.note "nas" [] []

abbrev test_row : String → ℕ → Row
test_row i at = record { owner_id = "ann"; deleted = none; entry = test_note i at }

abbrev three_notes : Table
three_notes = ("a", test_row "a" 3) ∷ ("b", test_row "b" 2) ∷ ("c", test_row "c" 1) ∷ []

abbrev test_query : Query
test_query = record {
  source = none;
  tags = [];
  entry_type = none;
  include_history = some "true";
  since = none;
  until = none;
  learned_from = none;
  created_after = none;
  created_before = none;
  hint = some "backup";
  language = none;
}

abbrev test_filter : Filter
test_filter = record {
  entry_type = none;
  source = none;
  tags = [];
  since = none;
  until = none;
  learned_from = none;
  created_after = none;
  created_before = none;
  language = none;
}

abbrev test_scores : Dict ℕ
test_scores = ("b", 9) ∷ ("a", 4) ∷ []

abbrev test_search : String → Option (Dict ℕ)
test_search hint = some test_scores

abbrev empty_log : Log
empty_log = record { reads = []; actions = []; next_read = 1; next_action = 1 }
