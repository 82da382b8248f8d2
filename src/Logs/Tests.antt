-- ===== src/Logs/Tests.antt =====
-- A log with two reads, and the theorems of the log at it.
use mcp_awareness.Base.{
  ◌≡◌, ◌&&◌, refl, not, String, List, [], ◌∷◌, none, some, str_eq, if◌then◌else◌, any, keep, map,
}
use mcp_awareness.Base.Dict.{lookup}
use mcp_awareness.Schema.{EntryType}
use mcp_awareness.Store.{Row, Table, select, order_by, insert_by}
use mcp_awareness.Store.Writes.{fresh_entry}
use mcp_awareness.Logs.{
  ReadRow, ActionRow, Log, get_reads, get_activity, get_read_counts, get_unread, log_read,
  insert_reads, was_read, read_matches, action_matches,
}
use mcp_awareness.Logs.Unread.{exist, get_unread-log_read}
use mcp_awareness.Logs.Feed.{summary, get_read_counts-get_reads}

abbrev note_row : String → Row
note_row i = record {
  owner_id = "ann";
  deleted = none;
  entry = fresh_entry i 3 EntryType.note "nas" [] [];
}

abbrev two_notes : Table
two_notes = ("a", note_row "a") ∷ ("b", note_row "b") ∷ []

abbrev read_of : String → String → List ReadRow
read_of i tool =
    record {
      id = 1;
      owner_id = "ann";
      entry_id = i;
      timestamp = 7;
      platform = none;
      tool_used = tool;
    }
    ∷ []

abbrev acted : List ActionRow
acted =
    record {
      id = 1;
      owner_id = "ann";
      entry_id = "a";
      timestamp = 9;
      platform = none;
      action = "used";
      detail = none;
      tags = [];
    }
    ∷ []

abbrev empty_log : Log
empty_log = record { reads = []; actions = []; next_read = 1; next_action = 1 }

abbrev test_log : Log
test_log = record { reads = read_of "a" "search"; actions = acted; next_read = 2; next_action = 2 }

get_unread-log_read_example :
    get_unread "ann"
      (some 5)
      none
      two_notes
      (log_read 8 "ann" ("b" ∷ []) "get_knowledge" none two_notes empty_log)
    ≡ (if exist ("b" ∷ []) two_notes && str_eq "ann" "ann"
        then keep
            (λ e. not (any (λ i. str_eq i e.id) ("b" ∷ [])))
            (get_unread "ann" (some 5) none two_notes empty_log)
        else get_unread "ann" (some 5) none two_notes empty_log)
get_unread-log_read_example =
    get_unread-log_read "ann" (some 5) 8 refl "ann" ("b" ∷ []) "get_knowledge" none two_notes
      empty_log

-- One note stays unread.
one_left :
    map
      (λ e. e.id)
      (get_unread "ann"
        (some 5)
        none
        two_notes
        (log_read 8 "ann" ("b" ∷ []) "get_knowledge" none two_notes empty_log))
    ≡ "a" ∷ []
unfolding get_unread log_read insert_reads was_read select order_by insert_by lookup
one_left = refl

-- The action is newer than the read.
newest_first : map (λ e. e.timestamp) (get_activity "ann" none none none test_log) ≡ 9 ∷ 7 ∷ []
unfolding get_activity read_matches action_matches order_by insert_by
newest_first = refl

get_read_counts-get_reads_example : lookup "a" (get_read_counts "ann" ("a" ∷ []) test_log) ≡ (
    if any (λ j. str_eq j "a") ("a" ∷ [])
    then summary (get_reads "ann" (some "a") none none none test_log)
    else none)
get_read_counts-get_reads_example = get_read_counts-get_reads "ann" ("a" ∷ []) test_log "a" refl
