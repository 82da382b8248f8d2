-- ===== src/Store/Tests.antt =====
-- A table with the entries of two owners, and the theorems of the store at it.
use mcp_awareness.Base.{ℕ, ◌≡◌, refl, ap, true, false, String, [], ◌∷◌, none, some, length}
use mcp_awareness.Base.Marks.{marks, count_marks, count_marks-marks}
use mcp_awareness.Base.Json.{text}
use mcp_awareness.Base.Dict.{lookup}
use mcp_awareness.Base.Dict.Keys.{retain}
use mcp_awareness.Schema.{EntryType, is_expired}
use mcp_awareness.Schema.Dicts.{type_name}
use mcp_awareness.Store.{Stored, Row, Table, StoreEnv, get_entry_by_id}
use mcp_awareness.Store.Rows.{Keyed}
use mcp_awareness.Store.Writes.{key_taken}
use mcp_awareness.Store.Trash.{
  expiry_key, has_duplicate, soft_delete_by_id, restore_by_id, cleanup_entries, is_opted_in,
}
use mcp_awareness.Store.Commands.{Command, run}
use mcp_awareness.Store.Foreign.{foreign}
use mcp_awareness.Store.Isolation.{run-foreign}
use mcp_awareness.Store.Restores.{restore_by_id-soft_delete_by_id}

abbrev test_env : StoreEnv
test_env = record {
  to_iso = marks;
  parse_time = λ s. some (count_marks s);
  is_regconfig = λ s. false;
}

abbrev test_note : String → Stored
test_note i = record {
  id = i;
  entry_type = EntryType.note;
  source = "home";
  tags = "todo" ∷ [];
  created = 5;
  updated = none;
  expires = some 7;
  payload = ("description", text "milk") ∷ [];
  logical_key = some i;
  language = "simple";
}

abbrev test_row : String → String → Row
test_row owner i = record { owner_id = owner; deleted = none; entry = test_note i }

abbrev test_table : Table
test_table = ("n1", test_row "alice" "n1") ∷ ("n2", test_row "bob" "n2") ∷ []

run-foreign_example :
    foreign "alice" (run test_env 9 "alice" (Command.delete_by_tags ("todo" ∷ [])) test_table)
    ≡ foreign "alice" test_table
run-foreign_example =
    run-foreign test_env 9 "alice" (Command.delete_by_tags ("todo" ∷ [])) test_table

test_table-Keyed : Keyed test_table
unfolding lookup
test_table-Keyed = ((refl, (refl, tt)), (refl, (refl, tt)))

unique : has_duplicate test_table ≡ false
unfolding has_duplicate key_taken
unique = refl

found : get_entry_by_id "alice" "n1" test_table ≡ some (test_note "n1")
unfolding get_entry_by_id lookup
found = refl

clean : lookup expiry_key (test_note "n1").payload ≡ none
unfolding lookup
clean = refl

restore_by_id-soft_delete_by_id_example :
    (get_entry_by_id "alice" "n1" (soft_delete_by_id test_env 9 "alice" "n1" test_table).0 ≡ none)
    × (restore_by_id test_env "alice" "n1" (soft_delete_by_id test_env 9 "alice" "n1" test_table).0
        ≡ some (test_table, true))
restore_by_id-soft_delete_by_id_example =
    restore_by_id-soft_delete_by_id test_env 9 "alice" "n1" test_table (test_note "n1")
      (λ n. parses n) test_table-Keyed unique found clean
  where
    parses : (n : ℕ) → some (count_marks (marks n)) ≡ some n
    parses n = ap some (count_marks-marks n)

-- The trash of an owner who did not opt in is not cleaned up, however long ago it was filled.
never_cleaned :
    length (cleanup_entries 9000000000000 (soft_delete_by_id test_env 9 "alice" "n1" test_table).0)
    ≡ 2
unfolding cleanup_entries soft_delete_by_id is_opted_in retain is_expired type_name
never_cleaned = refl
