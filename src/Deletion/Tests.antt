-- ===== src/Deletion/Tests.antt =====
-- A table with a schema and a record that refers to it, and the theorems of the deletions at it.
use mcp_awareness.Base.{◌≡◌, refl, true, false, String, [], ◌∷◌, Option, none, some}
use mcp_awareness.Base.Json.{text}
use mcp_awareness.Base.Text.{codes}
use mcp_awareness.Base.Dict.{lookup}
use mcp_awareness.Schema.{EntryType}
use mcp_awareness.Store.{Data, Stored, Row, Table, StoreEnv, get_entry_by_id}
use mcp_awareness.Schemas.{referencing}
use mcp_awareness.Deletion.{delete_entry}
use mcp_awareness.Deletion.Protection.{delete_verdict, delete_entry-schema}
use mcp_awareness.Deletion.DryRun.{as_dry_run, delete_entry-dry_run}

abbrev test_env : StoreEnv
test_env = record { to_iso = λ t. ""; parse_time = λ s. none; is_regconfig = λ s. true }

abbrev test_entry : String → EntryType → Option String → Data → Stored
test_entry i kind key d = record {
  id = i;
  entry_type = kind;
  source = "home";
  tags = "edge" ∷ [];
  created = 5;
  updated = none;
  expires = none;
  payload = d;
  logical_key = key;
  language = "simple";
}

abbrev test_schema : Stored
test_schema = test_entry "s1" EntryType.schema (some "m:1") []

abbrev test_record : Stored
test_record =
    test_entry "r1" EntryType.record_entry (some "r")
      (("schema_ref", text "m") ∷ ("schema_version", text "1") ∷ [])

abbrev owned : Stored → Row
owned e = record { owner_id = "alice"; deleted = none; entry = e }

abbrev test_table : Table
test_table = ("s1", owned test_schema) ∷ ("r1", owned test_record) ∷ []

found : get_entry_by_id "alice" "s1" test_table ≡ some test_schema
unfolding get_entry_by_id lookup
found = refl

delete_entry-schema_example :
    delete_entry test_env 9 "alice" none none (some "s1") [] false test_table
    ≡ delete_verdict test_env 9 "alice" "s1"
        (referencing "alice" (codes "m") (codes "1") test_table)
        test_table
delete_entry-schema_example =
    delete_entry-schema test_env 9 "alice" "s1" "m:1" none none [] false b'm' b'1' [] [] test_table
      test_schema refl found refl refl refl refl

delete_entry-dry_run_example :
    delete_entry test_env 9 "alice" none none none ("edge" ∷ []) false test_table ≡ (
      as_dry_run (delete_entry test_env 9 "alice" none none none ("edge" ∷ []) true test_table).0,
      test_table,
    )
delete_entry-dry_run_example =
    delete_entry-dry_run test_env 9 "alice" none none none ("edge" ∷ []) test_table refl
