-- ===== src/Logs.antt =====
-- The read and the action log of `PostgresStore` (src/mcp_awareness/postgres_store.py): the tables
-- `reads` and `actions` with the statements of sql/log_*.sql, sql/get_reads.sql,
-- sql/get_actions.sql, sql/get_activity.sql, sql/get_read_counts.sql and sql/get_unread.sql. The
-- deletion of rows with the entry that they refer to (ON DELETE CASCADE) is not modelled.
pub mod Order
pub mod Unread
pub mod Feed
mod Tests
use mcp_awareness.Base.{
  ℕ, ◌+◌, Bool, true, false, not, ◌&&◌, ◌||◌, String, List, [], ◌∷◌, ◌++◌, Option, none, some,
  str_eq, leb, max, if◌then◌else◌, or_else, is_some, all, any, keep, map, length, take,
}
use mcp_awareness.Base.Dict.{Dict, lookup, insert}
use mcp_awareness.Helpers.Pages.{limit_clause}
use mcp_awareness.Store.{
  Stored, Row, Table, equals, visible, order_by, select, get_entry_by_id, if_given, if_named,
}

pub record ReadRow : Type 0 where
  pub id : ℕ
  pub owner_id : String
  pub entry_id : String
  pub timestamp : ℕ
  pub platform : Option String
  pub tool_used : String

pub record ActionRow : Type 0 where
  pub id : ℕ
  pub owner_id : String
  pub entry_id : String
  pub timestamp : ℕ
  pub platform : Option String
  pub action : String
  pub detail : Option String
  pub tags : List String

-- The two tables, each with the next number of its sequence.
pub record Log : Type 0 where
  pub reads : List ReadRow
  pub actions : List ActionRow
  pub next_read : ℕ
  pub next_action : ℕ

abbrev pub read_row : ℕ → String → Option String → String → String → ℕ → ReadRow
read_row now owner_id platform tool_used entry_id n = record {
  id = n;
  owner_id = owner_id;
  entry_id = entry_id;
  timestamp = now;
  platform = platform;
  tool_used = tool_used;
}

abbrev pub with_read : ℕ → String → Option String → String → String → Log → Log
with_read now owner_id platform tool_used entry_id l = record l {
  reads = l.reads ++ read_row now owner_id platform tool_used entry_id l.next_read ∷ [];
  next_read = l.next_read + 1;
}

-- The rows of one transaction, until one refers to an entry that does not exist; with whether all
-- were inserted.
unfoldable pub insert_reads :
    ℕ → String → Option String → String → List String → Table → Log → Bool × Log
insert_reads now owner_id platform tool_used [] t l = (true, l)
insert_reads now owner_id platform tool_used (i ∷ is') t l =
    let rest =
      insert_reads now owner_id platform tool_used is' t
        (with_read now owner_id platform tool_used i l) in
    if is_some (lookup i t) then rest else (false, record l { next_read = l.next_read + 1 })

-- A row that is refused takes the others back, but not the numbers that were drawn.
abbrev pub committed : Log → Bool × Log → Log
committed l (true, l') = l'
committed l (false, l') = record l { next_read = l'.next_read }

unfoldable pub log_read : ℕ → String → List String → String → Option String → Table → Log → Log
unfolding insert_reads
log_read now owner_id [] tool_used platform t l = l
log_read now owner_id (i ∷ is') tool_used platform t l =
    committed l (insert_reads now owner_id platform tool_used (i ∷ is') t l)

-- the action's row, or `none` for an entry that is not found
unfoldable pub log_action :
    ℕ
    → String
    → String
    → String
    → Option String
    → Option String
    → Option (List String)
    → Table
    → Log
    → Option ActionRow × Log
unfolding get_entry_by_id
log_action now owner_id entry_id action platform detail tags t l =
    elim (get_entry_by_id owner_id entry_id t) [
      | none ↦ (none, l)
      | some e ↦
          let row : ActionRow = record {
            id = l.next_action;
            owner_id = owner_id;
            entry_id = entry_id;
            timestamp = now;
            platform = platform;
            action = action;
            detail = detail;
            tags = or_else tags e.tags;
          } in
          (some row, record l { actions = l.actions ++ row ∷ []; next_action = l.next_action + 1 })
    ]

-- `if limit:`, where 0 is no bound
abbrev pub bound : Option ℕ → Option ℕ
bound none = none
bound (some n) = if leb n 0 then none else some n

unfoldable pub read_matches : String → Option String → Option ℕ → Option String → ReadRow → Bool
read_matches owner_id entry_id since platform r =
    str_eq r.owner_id owner_id
    && if_named (λ i. str_eq r.entry_id i) entry_id
    && if_given (λ s. leb s r.timestamp) since
    && if_named (λ p. equals p r.platform) platform

unfoldable pub get_reads :
    String → Option String → Option ℕ → Option String → Option ℕ → Log → List ReadRow
unfolding read_matches order_by limit_clause
get_reads owner_id entry_id since platform limit l =
    limit_clause
      (order_by (λ r. r.timestamp) (keep (read_matches owner_id entry_id since platform) l.reads))
      (bound limit) none

unfoldable pub action_matches :
    String → Option String → Option ℕ → Option String → List String → ActionRow → Bool
action_matches owner_id entry_id since platform tags r =
    str_eq r.owner_id owner_id
    && if_named (λ i. str_eq r.entry_id i) entry_id
    && if_given (λ s. leb s r.timestamp) since
    && if_named (λ p. equals p r.platform) platform
    && all (λ tag. any (λ u. str_eq u tag) r.tags) tags

unfoldable pub get_actions :
    String
    → Option String
    → Option ℕ
    → Option String
    → List String
    → Option ℕ
    → Log
    → List ActionRow
unfolding action_matches order_by limit_clause
get_actions owner_id entry_id since platform tags limit l =
    limit_clause
      (order_by (λ r. r.timestamp)
        (keep (action_matches owner_id entry_id since platform tags) l.actions))
      (bound limit) none

-- `e.id = r.entry_id`, of the reads since an instant. Of the rows of `reads` the statement sees the
-- owner's alone, by the policy of row-level security and the context that `_set_rls_context` sets.
unfoldable pub was_read : String → Option ℕ → Log → Stored → Bool
was_read owner_id since l e =
    any
      (λ r.
        str_eq r.owner_id owner_id
        && (str_eq r.entry_id e.id && if_given (λ s. leb s r.timestamp) since))
      l.reads

-- A limit of 0 gives no entry here.
unfoldable pub get_unread : String → Option ℕ → Option ℕ → Table → Log → List Stored
unfolding was_read order_by select limit_clause
get_unread owner_id since limit t l =
    limit_clause
      (order_by (λ e. e.created)
        (select (λ row. visible owner_id row && not (was_read owner_id since l row.entry)) t))
      limit none

-- a row of the feed
pub record Event : Type 0 where
  pub is_read : Bool
  pub entry_id : String
  pub timestamp : ℕ
  pub platform : Option String
  pub detail : Option String
  pub action : Option String
  pub tags : List String

abbrev pub read_event : ReadRow → Event
read_event r = record {
  is_read = true;
  entry_id = r.entry_id;
  timestamp = r.timestamp;
  platform = r.platform;
  detail = some r.tool_used;
  action = none;
  tags = [];
}

abbrev pub action_event : ActionRow → Event
action_event r = record {
  is_read = false;
  entry_id = r.entry_id;
  timestamp = r.timestamp;
  platform = r.platform;
  detail = r.detail;
  action = some r.action;
  tags = r.tags;
}

unfoldable pub get_activity : String → Option ℕ → Option String → Option ℕ → Log → List Event
unfolding read_matches action_matches order_by limit_clause
get_activity owner_id since platform limit l =
    limit_clause
      (order_by (λ e. e.timestamp)
        (map read_event (keep (read_matches owner_id none since platform) l.reads)
          ++ map action_event (keep (action_matches owner_id none since platform []) l.actions)))
      (bound limit) none

-- the reads of one entry, and the last of them
pub record ReadCount : Type 0 where
  pub read_count : ℕ
  pub last_read : ℕ

-- COUNT(*) and MAX(timestamp) of the rows of a group; there is no group without a row.
unfoldable pub count_reads : List ReadRow → Option ReadCount
count_reads [] = none
count_reads (r ∷ rs) = elim (count_reads rs) [
  | none ↦ some (record { read_count = 1; last_read = r.timestamp })
  | some c ↦
      some (record { read_count = c.read_count + 1; last_read = max r.timestamp c.last_read })
]

-- the group of each of the ids
unfoldable pub get_read_counts : String → List String → Log → Dict ReadCount
unfolding count_reads
get_read_counts owner_id [] l = []
get_read_counts owner_id (i ∷ is') l =
    elim (count_reads (keep (λ r. str_eq r.owner_id owner_id && str_eq r.entry_id i) l.reads)) [
      | none ↦ get_read_counts owner_id is' l
      | some c ↦ insert i c (get_read_counts owner_id is' l)
    ]
