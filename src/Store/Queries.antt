-- ===== src/Store/Queries.antt =====
-- The readers of `PostgresStore` (src/mcp_awareness/postgres_store.py). NOW() is an argument.
use mcp_awareness.Base.{
  ℕ, Bool, true, false, not, ◌&&◌, ◌||◌, String, List, [], ◌∷◌, ◌++◌, Option, none, some, str_eq,
  leb, if◌then◌else◌, or_else, any, keep, map, length, take, drop,
}
use mcp_awareness.Base.Json.{arr, Items, nil, cons}
use mcp_awareness.Base.Dict.{Dict, lookup, insert, remove}
use mcp_awareness.Schema.{EntryType, last_change}
use mcp_awareness.Helpers.Pages.{limit_clause}
use mcp_awareness.Store.{
  Stored, Table, as_text, text_at, equals, same_type, visible, order_by, select, query_entries,
  has_tags, if_given, if_named, unexpired, is_resolved,
}

-- The filters of get_entries and get_knowledge; `none` is an argument that is None.
pub record Filter : Type 0 where
  pub entry_type : Option EntryType
  pub source : Option String
  pub tags : List String
  pub since : Option ℕ
  pub until : Option ℕ
  pub learned_from : Option String
  pub created_after : Option ℕ
  pub created_before : Option ℕ
  pub language : Option String

unfoldable pub get_entries : String → Filter → Option ℕ → Option ℕ → Table → List Stored
unfolding query_entries limit_clause
get_entries owner_id f limit offset t =
    limit_clause
      (query_entries owner_id
        (λ e.
          if_given (λ ty. same_type e.entry_type ty) f.entry_type
          && if_given (λ s. str_eq e.source s) f.source
          && has_tags f.tags e
          && if_given (λ s. leb s (last_change e)) f.since)
        t)
      limit offset

-- `type = %s`, or one of the four knowledge types
abbrev pub of_kind : Option EntryType → Stored → Bool
of_kind (some ty) e = same_type e.entry_type ty
of_kind none e =
    same_type e.entry_type EntryType.pattern_entry
    || same_type e.entry_type EntryType.context
    || same_type e.entry_type EntryType.preference
    || same_type e.entry_type EntryType.note

unfoldable pub knowledge_matches : Filter → Stored → Bool
knowledge_matches f e =
    of_kind f.entry_type e
    && if_given (λ s. str_eq e.source s) f.source
    && has_tags f.tags e
    && if_given (λ s. leb s (last_change e)) f.since
    && if_given (λ u. leb (last_change e) u) f.until
    && if_given (λ s. equals s (text_at "learned_from" e.payload)) f.learned_from
    && if_given (λ s. leb s e.created) f.created_after
    && if_given (λ u. leb e.created u) f.created_before
    && if_given (λ l. str_eq e.language l) f.language

-- `if e.data.get("changelog")`
abbrev pub has_history : Stored → Bool
has_history e = elim (lookup "changelog" e.payload) [
  | none ↦ false
  | some v ↦ elim v [ arr js ↦ (elim js [ nil ↦ false | cons j ks ↦ true ]) | _ ↦ false ]
]

-- `e.data.pop("changelog", None)`
abbrev pub without_history : Stored → Stored
without_history e = record e { payload = remove "changelog" e.payload }

-- `if offset:` and `if limit:`, where 0 is no bound
abbrev slice : Option ℕ → Option ℕ → List Stored → List Stored
slice limit offset es = elim limit [
  | none ↦ drop (or_else offset 0) es
  | some n ↦ (if leb n 0 then drop (or_else offset 0) es else take n (drop (or_else offset 0) es))
]

unfoldable pub get_knowledge :
    String → Filter → Option String → Option ℕ → Option ℕ → Table → List Stored
unfolding query_entries knowledge_matches limit_clause
get_knowledge owner_id f include_history limit offset t =
    let found = query_entries owner_id (knowledge_matches f) t in
    if str_eq (or_else include_history "") "only"
    then slice limit offset (keep has_history found)
    else if str_eq (or_else include_history "") "true"
    then limit_clause found limit offset
    else map without_history (limit_clause found limit offset)

unfoldable pub get_active_alerts :
    ℕ → String → Option String → Option ℕ → Option ℕ → Option ℕ → Table → List Stored
unfolding query_entries limit_clause
get_active_alerts now owner_id source since limit offset t =
    limit_clause
      (query_entries owner_id
        (λ e.
          same_type e.entry_type EntryType.alert
          && not (is_resolved e)
          && unexpired now e
          && if_named (λ s. str_eq e.source s) source
          && if_given (λ s. leb s (last_change e)) since)
        t)
      limit offset

-- with the suppressions of the empty source, which are global
unfoldable pub get_active_suppressions : ℕ → String → Option String → Table → List Stored
unfolding query_entries
get_active_suppressions now owner_id source t =
    query_entries owner_id
      (λ e.
        same_type e.entry_type EntryType.suppression
        && unexpired now e
        && if_named (λ s. str_eq e.source s || str_eq e.source "") source)
      t

unfoldable pub get_patterns : String → Option String → Table → List Stored
unfolding query_entries
get_patterns owner_id source t =
    query_entries owner_id
      (λ e.
        same_type e.entry_type EntryType.pattern_entry && if_named (λ s. str_eq e.source s) source)
      t

-- SELECT DISTINCT source
unfoldable pub distinct_sources : List Stored → List String
distinct_sources [] = []
distinct_sources (e ∷ es) =
    let rest = distinct_sources es in
    if any (λ s. str_eq s e.source) rest then rest else e.source ∷ rest

unfoldable pub get_sources : String → Table → List String
unfolding distinct_sources select
get_sources owner_id t =
    distinct_sources
      (select (λ row. visible owner_id row && same_type row.entry.entry_type EntryType.status) t)

-- the status entries, the newest first
unfoldable pub statuses : String → Table → List Stored
unfolding order_by select
statuses owner_id t =
    order_by (λ e. e.created)
      (select (λ row. visible owner_id row && same_type row.entry.entry_type EntryType.status) t)

abbrev first_of : List Stored → Option Stored
first_of [] = none
first_of (e ∷ es) = some e

unfoldable pub get_latest_status : String → String → Table → Option Stored
unfolding statuses
get_latest_status owner_id source t =
    first_of (keep (λ e. str_eq e.source source) (statuses owner_id t))

-- `DISTINCT ON (source)`: of several with one source the first stays. The order of the dict, which
-- nothing reads, is another.
unfoldable pub by_source : List Stored → Dict Stored
by_source [] = []
by_source (e ∷ es) = insert e.source e (remove e.source (by_source es))

unfoldable pub get_all_statuses : String → Table → Dict Stored
unfolding by_source statuses
get_all_statuses owner_id t = by_source (statuses owner_id t)

-- `result[row["source"]].append(…)` for each row in turn
unfoldable pub group_from : Dict (List Stored) → List Stored → Dict (List Stored)
group_from d [] = d
group_from d (e ∷ es) = group_from (insert e.source (or_else (lookup e.source d) [] ++ e ∷ []) d) es

unfoldable pub get_all_active_alerts : ℕ → String → Table → Dict (List Stored)
unfolding group_from query_entries
get_all_active_alerts now owner_id t = group_from [] (
    query_entries owner_id
      (λ e. same_type e.entry_type EntryType.alert && not (is_resolved e) && unexpired now e) t)

unfoldable pub get_all_active_suppressions : ℕ → String → Table → Dict (List Stored)
unfolding group_from query_entries
get_all_active_suppressions now owner_id t = group_from [] (
    query_entries owner_id (λ e. same_type e.entry_type EntryType.suppression && unexpired now e) t)

unfoldable pub get_all_patterns : String → Table → Dict (List Stored)
unfolding group_from query_entries
get_all_patterns owner_id t =
    group_from [] (query_entries owner_id (λ e. same_type e.entry_type EntryType.pattern_entry) t)

unfoldable pub count_active_suppressions : ℕ → String → Table → ℕ
unfolding select
count_active_suppressions now owner_id t = length (
    select
      (λ row.
        visible owner_id row
        && same_type row.entry.entry_type EntryType.suppression
        && unexpired now row.entry)
      t)

-- ORDER BY deleted DESC
unfoldable pub insert_deleted : ℕ → Stored → List (ℕ × Stored) → List (ℕ × Stored)
insert_deleted when e [] = (when, e) ∷ []
insert_deleted when e ((w, f) ∷ fs) =
    if leb w when then (when, e) ∷ (w, f) ∷ fs else (w, f) ∷ insert_deleted when e fs

-- the rows of the trash that were deleted at `since` or later
unfoldable pub trash_rows : String → Option ℕ → Table → List (ℕ × Stored)
unfolding insert_deleted
trash_rows owner_id since [] = []
trash_rows owner_id since ((i, row) ∷ t) = elim row.deleted [
  | none ↦ trash_rows owner_id since t
  | some when ↦
      if str_eq row.owner_id owner_id && if_given (λ s. leb s when) since
      then insert_deleted when row.entry (trash_rows owner_id since t)
      else trash_rows owner_id since t
]

unfoldable pub get_deleted : String → Option ℕ → Option ℕ → Option ℕ → Table → List Stored
unfolding limit_clause trash_rows
get_deleted owner_id since limit offset t =
    limit_clause (map (λ r. r.1) (trash_rows owner_id since t)) limit offset

-- `data->'related_ids' @> […]`
abbrev pub lists_text : String → Items → Bool
lists_text s nil = false
lists_text s (cons j js) = equals s (as_text (some j)) || lists_text s js

abbrev pub refers_to : String → Stored → Bool
refers_to i e = elim (lookup "related_ids" e.payload) [
  | none ↦ false
  | some v ↦ elim v [ arr js ↦ lists_text i js | _ ↦ false ]
]

unfoldable pub get_referencing_entries : String → String → Table → List Stored
unfolding query_entries
get_referencing_entries owner_id entry_id t = query_entries owner_id (refers_to entry_id) t
