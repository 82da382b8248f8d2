-- ===== src/Store/Trash.antt =====
-- The trash and the deletions of `PostgresStore` (src/mcp_awareness/postgres_store.py) with
-- sql/soft_delete_*.sql, sql/restore_*.sql, sql/cleanup_expired.sql and sql/clear_entries.sql. A
-- soft-deleted row keeps its former expiry in its data. A statement gives the table and the number
-- of the rows it changed; `none` is a UniqueViolation, of a restored logical key.
use mcp_awareness.Base.{
  ℕ, ◌+◌, Bool, false, not, ◌&&◌, ◌||◌, String, List, [], ◌∷◌, Option, none, some, str_eq, ltb,
  if◌then◌else◌, is_some,
}
use mcp_awareness.Base.Json.{text}
use mcp_awareness.Base.Dict.{insert, remove}
use mcp_awareness.Base.Dict.Keys.{retain, count}
use mcp_awareness.Schema.{EntryType, is_expired, microseconds}
use mcp_awareness.Store.{
  Data, Row, Table, StoreEnv, text_at, equals, same_type, visible, has_tags, if_given,
}
use mcp_awareness.Store.Writes.{key_taken}

-- timedelta(days=TRASH_RETENTION_DAYS)
abbrev pub trash_retention : ℕ
trash_retention = microseconds 2592000

abbrev pub expiry_key : String
expiry_key = "_original_expires"

-- CASE WHEN expires IS NOT NULL …
abbrev pub keep_expiry : StoreEnv → Option ℕ → Data → Data
keep_expiry env none d = remove expiry_key d
keep_expiry env (some t) d = insert expiry_key (text (env.to_iso t)) d

-- (data->>'_original_expires')::timestamptz
abbrev pub read_expiry : StoreEnv → Option String → Option ℕ
read_expiry env none = none
read_expiry env (some s) = env.parse_time s

-- the SET of the soft deletes
unfoldable pub trash_row : StoreEnv → ℕ → Row → Row
trash_row env now row = record row {
  deleted = some now;
  entry = record row.entry {
    expires = some (now + trash_retention);
    payload = keep_expiry env row.entry.expires row.entry.payload;
  };
}

-- the SET of the restores
unfoldable pub restore_row : StoreEnv → Row → Row
restore_row env row = record row {
  deleted = none;
  entry = record row.entry {
    expires = read_expiry env (text_at expiry_key row.entry.payload);
    payload = remove expiry_key row.entry.payload;
  };
}

-- `UPDATE entries SET … WHERE …`
unfoldable pub update_where : (Row → Bool) → (Row → Row) → Table → Table
update_where p f [] = []
update_where p f ((i, row) ∷ t) = (if p row then (i, f row) else (i, row)) ∷ update_where p f t

unfoldable pub soft_delete : StoreEnv → ℕ → (Row → Bool) → Table → Table × ℕ
unfolding trash_row update_where
soft_delete env now p t = (update_where p (trash_row env now) t, count p t)

unfoldable pub soft_delete_by_id : StoreEnv → ℕ → String → String → Table → Table × Bool
unfolding soft_delete
soft_delete_by_id env now owner_id entry_id t =
    let (t', n) =
      soft_delete env now (λ row. visible owner_id row && str_eq row.entry.id entry_id) t in
    (t', ltb 0 n)

-- no tags at all delete nothing
unfoldable pub soft_delete_by_tags : StoreEnv → ℕ → String → List String → Table → Table × ℕ
unfolding soft_delete
soft_delete_by_tags env now owner_id [] t = (t, 0)
soft_delete_by_tags env now owner_id (tag ∷ tags) t =
    soft_delete env now (λ row. visible owner_id row && has_tags (tag ∷ tags) row.entry) t

unfoldable pub soft_delete_by_source :
    StoreEnv → ℕ → String → String → Option EntryType → Table → Table × ℕ
unfolding soft_delete
soft_delete_by_source env now owner_id source kind t =
    soft_delete env now
      (λ row.
        visible owner_id row
        && str_eq row.entry.source source
        && if_given (λ k. same_type row.entry.entry_type k) kind)
      t

-- a row of the owner's trash
abbrev pub in_trash : String → Row → Bool
in_trash owner_id row = str_eq row.owner_id owner_id && is_some row.deleted

-- two rows of the table hold one logical key in the index
unfoldable pub has_duplicate : Table → Bool
unfolding key_taken
has_duplicate [] = false
has_duplicate ((i, row) ∷ t) =
    (not (is_some row.deleted) && key_taken row.owner_id row.entry.source row.entry.logical_key t)
    || has_duplicate t

unfoldable pub restore : StoreEnv → (Row → Bool) → Table → Option (Table × ℕ)
unfolding restore_row update_where has_duplicate
restore env p t =
    if has_duplicate (update_where p (restore_row env) t)
    then none
    else some (update_where p (restore_row env) t, count p t)

unfoldable pub restore_by_id : StoreEnv → String → String → Table → Option (Table × Bool)
unfolding restore
restore_by_id env owner_id entry_id t =
    elim (restore env (λ row. in_trash owner_id row && str_eq row.entry.id entry_id) t) [
      | none ↦ none
      | some r ↦ some (r.0, ltb 0 r.1)
    ]

unfoldable pub restore_by_tags : StoreEnv → String → List String → Table → Option (Table × ℕ)
unfolding restore
restore_by_tags env owner_id [] t = some (t, 0)
restore_by_tags env owner_id (tag ∷ tags) t =
    restore env (λ row. in_trash owner_id row && has_tags (tag ∷ tags) row.entry) t

-- an owner's preference `auto_cleanup` with the value `true`
abbrev pub opts_in : Row → Bool
opts_in row =
    same_type row.entry.entry_type EntryType.preference
    && not (is_some row.deleted)
    && equals "auto_cleanup" (text_at "key" row.entry.payload)
    && equals "true" (text_at "value" row.entry.payload)

unfoldable pub is_opted_in : String → Table → Bool
is_opted_in owner_id [] = false
is_opted_in owner_id ((i, row) ∷ t) =
    (opts_in row && str_eq row.owner_id owner_id) || is_opted_in owner_id t

-- `_do_cleanup`: the expired rows of every owner who opted in are deleted, the trash among them
unfoldable pub cleanup_entries : ℕ → Table → Table
unfolding is_opted_in
cleanup_entries now t =
    retain (λ row. not (is_expired now row.entry && is_opted_in row.owner_id t)) t

-- the rows that `clear` deletes
unfoldable pub clear : String → Table → Table
clear owner_id t = retain (λ row. not (str_eq row.owner_id owner_id)) t
