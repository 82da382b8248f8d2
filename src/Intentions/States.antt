-- ===== src/Intentions/States.antt =====
-- `PostgresStore` as the store of a briefing: its table implements the interface of the collator's
-- model, with the states that the intentions have in the table.
use mcp_awareness.Base.{String, [], Option, none, some, map}
use mcp_awareness.Collator.Briefing.Interface.{BriefingStore, BriefingStoreLaws}
use mcp_awareness.Store.{Table, StoreEnv, get_entry_by_id}
use mcp_awareness.Store.Rows.{Keyed}
use mcp_awareness.Store.Queries.{
  get_all_statuses, get_all_active_alerts, get_all_active_suppressions, get_all_patterns,
  get_sources, count_active_suppressions,
}
use mcp_awareness.Intentions.{get_intentions, update_intention_state, get_fired_intentions}
use mcp_awareness.Intentions.Payloads.{
  alert_data, suppression_data, pattern_data, status_data, intention_data, decode, decode_values,
  state_in,
}
use mcp_awareness.Intentions.Updates.{update-Keyed, state-update}
use mcp_awareness.Intentions.Listings.{found_iff, All-decode, pending_due}

-- the entries of the store
pub record Entries : Type 0 where
  pub table : Table
  pub keyed : Keyed table

unfoldable pub intention_state : Entries → String → String → Option String
unfolding get_entry_by_id
intention_state s owner i = state_in (get_entry_by_id owner i s.table)

abbrev pub postgres_store : StoreEnv → BriefingStore Entries
postgres_store env = record {
  get_all_statuses = λ s owner. decode_values (decode status_data) (get_all_statuses owner s.table);
  get_all_active_alerts = λ now s owner.
      decode_values (map (decode alert_data)) (get_all_active_alerts now owner s.table);
  get_all_active_suppressions = λ now s owner.
      decode_values (map (decode suppression_data)) (get_all_active_suppressions now owner s.table);
  get_all_patterns =
      λ s owner. decode_values (map (decode pattern_data)) (get_all_patterns owner s.table);
  get_sources = λ s owner. get_sources owner s.table;
  count_active_suppressions = λ now s owner. count_active_suppressions now owner s.table;
  get_fired_intentions =
      λ now s owner. map (decode intention_data) (get_fired_intentions env now owner s.table);
  get_intentions = λ s owner state.
      map (decode intention_data) (get_intentions owner (some state) none [] none s.table);
  update_intention_state = λ now s owner i state reason. record {
    table = (update_intention_state env now owner i state reason s.table).1;
    keyed = update-Keyed env now owner i state reason s.table s.keyed;
  };
}

-- The table of `PostgresStore`, with the states that the visible intentions have in it, keeps what
-- the collator relies on: an update of an intention's state changes that state alone, the listing by
-- a state lists exactly the owner's intentions in it, and only pending ones come due.
pub postgres_store-BriefingStoreLaws :
    (env : StoreEnv) → BriefingStoreLaws (postgres_store env) intention_state
postgres_store-BriefingStoreLaws env = record {
  state_of-update =
      unfold intention_state in
      λ now s owner i state reason j. state-update env now owner i state reason s.table j;
  get_intentions_iff = λ s owner state i given.
      unfold intention_state in found_iff owner state i s.table s.keyed given;
  due_pending = λ now s owner.
      unfold intention_state in
      All-decode _ (get_fired_intentions env now owner s.table)
        (pending_due env now owner s.table s.keyed);
}
