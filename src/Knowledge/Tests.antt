-- ===== src/Knowledge/Tests.antt =====
-- The updates of one note.
use mcp_awareness.Base.{◌≡◌, refl, true, [], ◌∷◌, none, some}
use mcp_awareness.Base.Json.{text}
use mcp_awareness.Base.Dict.{lookup}
use mcp_awareness.Schema.{EntryType}
use mcp_awareness.Store.{Stored, Table, StoreEnv}
use mcp_awareness.Knowledge.{EntryUpdates}

abbrev test_env : StoreEnv
test_env = record { to_iso = λ t. "now"; parse_time = λ s. none; is_regconfig = λ s. true }

abbrev test_note : Stored
test_note = record {
  id = "n1";
  entry_type = EntryType.note;
  source = "personal";
  tags = [];
  created = 5;
  updated = none;
  expires = none;
  payload = ("content", text "plant") ∷ [];
  logical_key = none;
  language = "simple";
}

abbrev test_rows : Table
test_rows = ("n1", record { owner_id = "alice"; deleted = none; entry = test_note }) ∷ []

abbrev test_updates : EntryUpdates
test_updates = record {
  source = some "garden";
  tags = none;
  language = none;
  fields = ("content", text "sow") ∷ [];
}

test_missing : lookup "description" test_note.payload ≡ none
unfolding lookup
test_missing = refl
