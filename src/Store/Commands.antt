-- ===== src/Store/Commands.antt =====
-- The writes of `PostgresStore` (src/mcp_awareness/postgres_store.py) that act for one owner, as
-- commands on the table. A statement that fails leaves the table as it was. The cleanup, which
-- acts for every owner who opted in, is none of them.
use mcp_awareness.Base.{ℕ, String, List, Option, none, some}
use mcp_awareness.Schema.{EntryType}
use mcp_awareness.Store.{Data, Stored, Table, StoreEnv}
use mcp_awareness.Store.Writes.{add, upsert_status, upsert_alert, upsert_preference}
use mcp_awareness.Store.Trash.{
  soft_delete_by_id, soft_delete_by_tags, soft_delete_by_source, restore_by_id, restore_by_tags,
  clear,
}
use mcp_awareness.Knowledge.{EntryUpdates, update_entry}
use mcp_awareness.Knowledge.Upsert.{upsert_by_logical_key}
use mcp_awareness.Intentions.{update_intention_state}

pub data Command : Type 0 where
  add_entry : Stored → Command
  put_status : String → String → List String → Data → Command
  put_alert : String → String → List String → String → Data → Command
  put_preference : String → String → String → List String → Data → Command
  put_by_logical_key : String → String → Stored → Command
  change_entry : String → EntryUpdates → Command
  change_state : String → String → Option String → Command
  delete_by_id : String → Command
  delete_by_tags : List String → Command
  delete_by_source : String → Option EntryType → Command
  undelete_by_id : String → Command
  undelete_by_tags : List String → Command
  delete_all : Command

-- the table after an operation that may fail
abbrev pub after {ℓ} : {A : Type ℓ} → (A → Table) → Table → Option A → Table
after f t none = t
after f t (some a) = f a

-- a command of the owner, with a new entry's id in the commands that may make one
unfoldable pub run : StoreEnv → ℕ → String → Command → Table → Table
unfolding add upsert_status upsert_alert upsert_preference upsert_by_logical_key update_entry
    update_intention_state soft_delete_by_id soft_delete_by_tags soft_delete_by_source restore_by_id
    restore_by_tags clear
run env now owner (add_entry e) t = after (λ r. r.1) t (add env owner e t)
run env now owner (put_status new_id source tags d) t =
    after (λ r. r.1) t (upsert_status env now new_id owner source tags d t)
run env now owner (put_alert new_id source tags alert_id d) t =
    after (λ r. r.1) t (upsert_alert env now new_id owner source tags alert_id d t)
run env now owner (put_preference new_id key scope tags d) t =
    after (λ r. r.1) t (upsert_preference env now new_id owner key scope tags d t)
run env now owner (put_by_logical_key source key e) t =
    after (λ r. r.1) t (upsert_by_logical_key env now owner source key e t)
run env now owner (change_entry i u) t = after (λ r. r.1) t (update_entry env now owner i u t)
run env now owner (change_state i state reason) t =
    (update_intention_state env now owner i state reason t).1
run env now owner (delete_by_id i) t = (soft_delete_by_id env now owner i t).0
run env now owner (delete_by_tags tags) t = (soft_delete_by_tags env now owner tags t).0
run env now owner (delete_by_source source kind) t =
    (soft_delete_by_source env now owner source kind t).0
run env now owner (undelete_by_id i) t = after (λ r. r.0) t (restore_by_id env owner i t)
run env now owner (undelete_by_tags tags) t = after (λ r. r.0) t (restore_by_tags env owner tags t)
run env now owner delete_all t = clear owner t
