-- ===== src/Intentions.antt =====
-- The intentions of `PostgresStore` (src/mcp_awareness/postgres_store.py) with
-- sql/update_intention_state.sql. A `deliver_at` that is no time, at which the query fails, is
-- never due here.
pub mod Payloads
pub mod Updates
pub mod Listings
pub mod States
mod Tests
use mcp_awareness.Base.{
  ℕ, Bool, false, ◌&&◌, String, List, [], ◌∷◌, Option, none, some, str_eq, leb, if◌then◌else◌,
  or_else,
}
use mcp_awareness.Base.Json.{Json, text}
use mcp_awareness.Base.Dict.{lookup, insert}
use mcp_awareness.Base.Dict.Keys.{adjust}
use mcp_awareness.Schema.{Entry, EntryType}
use mcp_awareness.Helpers.Pages.{limit_clause}
use mcp_awareness.Store.{
  Data, Stored, Row, Table, StoreEnv, text_at, equals, same_type, query_entries, get_entry_by_id,
  write_row, has_tags, if_named,
}
use mcp_awareness.Knowledge.{record_old, logged}

unfoldable pub get_intentions :
    String → Option String → Option String → List String → Option ℕ → Table → List Stored
unfolding query_entries limit_clause
get_intentions owner_id state source tags limit t =
    limit_clause
      (query_entries owner_id
        (λ e.
          same_type e.entry_type EntryType.intention
          && if_named (λ s. equals s (text_at "state" e.payload)) state
          && if_named (λ s. str_eq e.source s) source
          && has_tags tags e)
        t)
      limit none

-- `if reason: entry.data["state_reason"] = reason`
abbrev pub set_reason : Option String → Data → Data
set_reason none d = d
set_reason (some r) d = if str_eq r "" then d else insert "state_reason" (text r) d

-- `changed`: the former state and reason
abbrev pub old_values : Data → Data
old_values d =
    record_old "state_reason" (lookup "state_reason" d)
      (("state", or_else (lookup "state" d) (text "pending")) ∷ [])

-- the entry in its new state
unfoldable pub in_state : StoreEnv → ℕ → String → Option String → Stored → Stored
unfolding logged
in_state env now new_state reason e = logged env now (
  record e { payload = set_reason reason (insert "state" (text new_state) e.payload) },
  old_values e.payload,
)

unfoldable pub update_intention_state :
    StoreEnv → ℕ → String → String → String → Option String → Table → Option Stored × Table
unfolding get_entry_by_id in_state
update_intention_state env now owner_id entry_id new_state reason t =
    elim (get_entry_by_id owner_id entry_id t) [
      | none ↦ (none, t)
      | some e ↦
          if same_type e.entry_type EntryType.intention
          then (
            some (in_state env now new_state reason e),
            adjust entry_id (write_row owner_id (in_state env now new_state reason e)) t,
          )
          else (none, t)
    ]

-- `data->>'deliver_at'` is not NULL and not later than `now`
abbrev pub is_due : StoreEnv → ℕ → Data → Bool
is_due env now d = elim (text_at "deliver_at" d) [
  | none ↦ false
  | some s ↦ elim (env.parse_time s) [ none ↦ false | some at ↦ leb at now ]
]

unfoldable pub get_fired_intentions : StoreEnv → ℕ → String → Table → List Stored
unfolding query_entries
get_fired_intentions env now owner_id t =
    query_entries owner_id
      (λ e.
        same_type e.entry_type EntryType.intention
        && equals "pending" (text_at "state" e.payload)
        && is_due env now e.payload)
      t
