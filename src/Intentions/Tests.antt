-- ===== src/Intentions/Tests.antt =====
-- A table with two intentions, and the refinement at it.
use mcp_awareness.Base.{◌≡◌, refl, true, String, [], ◌∷◌, none, some, map}
use mcp_awareness.Base.Json.{text}
use mcp_awareness.Base.Dict.{lookup}
use mcp_awareness.Schema.{EntryType}
use mcp_awareness.Schema.Dicts.{type_name}
use mcp_awareness.Collator.Briefing.Interface.{BriefingStoreLaws}
use mcp_awareness.Store.{Stored, Table, StoreEnv, order_by, insert_by, select, query_entries}
use mcp_awareness.Intentions.{get_fired_intentions}
use mcp_awareness.Intentions.States.{
  postgres_store, intention_state, postgres_store-BriefingStoreLaws,
}

abbrev test_env : StoreEnv
test_env = record {
  to_iso = λ t. "1970-01-01T00:00:00Z";
  parse_time = λ s. some 0;
  is_regconfig = λ s. true;
}

abbrev test_intention : String → String → Stored
test_intention i state = record {
  id = i;
  entry_type = EntryType.intention;
  source = "home";
  tags = [];
  created = 5;
  updated = none;
  expires = none;
  payload = ("state", text state) ∷ ("deliver_at", text "1970-01-01T00:00:00Z") ∷ [];
  logical_key = none;
  language = "simple";
}

abbrev test_table : Table
test_table =
    ("i1", record { owner_id = "alice"; deleted = none; entry = test_intention "i1" "pending" })
    ∷ ("i2", record { owner_id = "alice"; deleted = none; entry = test_intention "i2" "fired" })
    ∷ []

-- of the two only the pending intention is due
due : map (λ e. e.id) (get_fired_intentions test_env 9 "alice" test_table) ≡ "i1" ∷ []
unfolding get_fired_intentions query_entries order_by insert_by select lookup type_name
due = refl

postgres_store-BriefingStoreLaws_example :
    BriefingStoreLaws (postgres_store test_env) intention_state
postgres_store-BriefingStoreLaws_example = postgres_store-BriefingStoreLaws test_env
