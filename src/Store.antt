-- ===== src/Store.antt =====
-- The table `entries` of `PostgresStore` (src/mcp_awareness/postgres_store.py) with the statements
-- that read one entry or the entries that pass a filter: sql/query_entries.sql and those that the
-- briefing sends. The table is a dict by id. An entry's data is the dict of its JSON object;
-- `data->>key` is modelled for values that are texts. The row-level security policies
-- repeat the filter by owner of these statements and are not modelled; where they restrict a join
-- further, in get_unread (Logs), they are.
pub mod Rows
pub mod Queries
pub mod Writes
pub mod Trash
pub mod Restores
pub mod Commands
pub mod Foreign
pub mod Isolation
mod Tests
use mcp_awareness.Base.{
  ℕ, Bool, true, false, not, ◌&&◌, ◌||◌, String, List, [], ◌∷◌, ◌++◌, Option, none, some, str_eq,
  leb, ltb, if◌then◌else◌, or_else, is_some, all, any, keep, map,
}
use mcp_awareness.Base.Json.{Json, text, bool, Items, nil, cons, arr, obj, Fields, end, field}
use mcp_awareness.Base.Dict.{Dict, lookup}
use mcp_awareness.Schema.{Entry, EntryType, last_change, is_expired}
use mcp_awareness.Schema.Dicts.{type_name}
use mcp_awareness.Helpers.Pages.{limit_clause}

abbrev pub Data : Type 0
Data = Dict Json

abbrev pub Stored : Type 0
Stored = Entry Data

pub record Row : Type 0 where
  pub owner_id : String
  pub deleted : Option ℕ
  pub entry : Stored

abbrev pub Table : Type 0
Table = Dict Row

-- What the store takes from outside: the texts of instants, and the names of the text search
-- configurations in pg_ts_config.
pub record StoreEnv : Type 0 where
  pub to_iso : ℕ → String
  pub parse_time : String → Option ℕ
  pub is_regconfig : String → Bool

-- the text of a JSON value that is one
abbrev pub as_text : Option Json → Option String
as_text (some (text s)) = some s
as_text _ = none

-- data->>key
abbrev pub text_at : String → Data → Option String
text_at key d = as_text (lookup key d)

-- `value = %s`, which is not true of NULL
abbrev pub equals : String → Option String → Bool
equals s none = false
equals s (some t) = str_eq t s

abbrev pub same_type : EntryType → EntryType → Bool
same_type a b = str_eq (type_name a) (type_name b)

-- `validate_regconfig`, whose cache knows what pg_ts_config knows
unfoldable pub validate_regconfig : StoreEnv → String → String
validate_regconfig env s = if env.is_regconfig s then s else "simple"

-- `owner_id = %s AND deleted IS NULL`
abbrev pub visible : String → Row → Bool
visible owner_id row = str_eq row.owner_id owner_id && not (is_some row.deleted)

-- `ORDER BY … DESC` of a number. Equal numbers keep the table's order here; SQL leaves theirs open.
unfoldable pub insert_by : {A : Type 0} → (A → ℕ) → A → List A → List A
insert_by key e [] = e ∷ []
insert_by key e (f ∷ fs) = if leb (key f) (key e) then e ∷ f ∷ fs else f ∷ insert_by key e fs

unfoldable pub order_by : {A : Type 0} → (A → ℕ) → List A → List A
unfolding insert_by
order_by key [] = []
order_by key (e ∷ es) = insert_by key e (order_by key es)

-- `SELECT * FROM entries WHERE …`
unfoldable pub select : (Row → Bool) → Table → List Stored
select p [] = []
select p ((i, row) ∷ t) = if p row then row.entry ∷ select p t else select p t

-- `_query_entries` without LIMIT and OFFSET, in its default order
unfoldable pub query_entries : String → (Stored → Bool) → Table → List Stored
unfolding select order_by
query_entries owner_id where_clause t =
    order_by last_change (select (λ row. visible owner_id row && where_clause row.entry) t)

unfoldable pub get_entry_by_id : String → String → Table → Option Stored
get_entry_by_id owner_id entry_id t = elim (lookup entry_id t) [
  | none ↦ none
  | some row ↦ if visible owner_id row then some row.entry else none
]

unfoldable pub get_entries_by_ids : String → List String → Table → List Stored
unfolding query_entries
get_entries_by_ids owner_id [] t = []
get_entries_by_ids owner_id (i ∷ is') t =
    query_entries owner_id (λ e. any (λ j. str_eq j e.id) (i ∷ is')) t

-- `UPDATE entries SET … WHERE id = %s AND owner_id = %s`, with the entry that the code read before
abbrev pub write_row : String → Stored → Row → Row
write_row owner_id e row = if str_eq row.owner_id owner_id then record row { entry = e } else row

-- `tags @> […]` for each tag
abbrev pub has_tags : List String → Stored → Bool
has_tags tags e = all (λ tag. any (λ u. str_eq u tag) e.tags) tags

-- a filter that is left out if its argument is None
abbrev pub if_given {ℓ} : {A : Type ℓ} → (A → Bool) → Option A → Bool
if_given p none = true
if_given p (some a) = p a

-- `if source:`
abbrev pub if_named : (String → Bool) → Option String → Bool
if_named p none = true
if_named p (some s) = if str_eq s "" then true else p s

-- `expires IS NULL OR expires > NOW()`
abbrev pub unexpired : ℕ → Stored → Bool
unexpired now e = not (is_expired now e)

-- `data @> '{"resolved": true}'`
abbrev pub is_resolved : Stored → Bool
is_resolved e = elim (lookup "resolved" e.payload) [
  | none ↦ false
  | some v ↦ elim v [ bool b ↦ b | _ ↦ false ]
]
