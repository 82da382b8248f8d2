-- ===== src/Readers.antt =====
-- The tools of src/mcp_awareness/tools.py that read, over the store and its logs: get_alerts,
-- get_status, get_suppressions, get_deleted, get_intentions, get_related and those on the logs, with
-- `_log_reads` of src/mcp_awareness/server.py and `_parse_entry_type` of
-- src/mcp_awareness/helpers.py. A tool that logs reads gives the log after it. The answer stands for
-- the JSON text or the error that the client gets. The limits of the tools on the logs and on
-- intentions, which are not validated, are natural numbers.
pub mod Knowledge
pub mod Hints
pub mod Shown
mod Tests
use mcp_awareness.Base.{
  ℕ, ◌+◌, Bool, true, false, not, ◌&&◌, ◌||◌, ◌⊎◌, inl, inr, String, List, [], ◌∷◌, ◌++◌, Option,
  none, some, str_eq, if◌then◌else◌, or_else, any, keep, map, take,
}
use mcp_awareness.Base.Int.{ℤ}
use mcp_awareness.Base.Json.{Json, obj, text, arr, Items, nil, cons, fields_of}
use mcp_awareness.Base.Dict.{Dict, lookup}
use mcp_awareness.Schema.{Entry, EntryType}
use mcp_awareness.Schema.Dicts.{to_dict, type_of}
use mcp_awareness.Schema.Lists.{to_list_dict}
use mcp_awareness.Helpers.Pages.{Page, paginate, validate_pagination, default_query_limit}
use mcp_awareness.Store.{Stored, Table, StoreEnv, get_entry_by_id, get_entries_by_ids, as_text}
use mcp_awareness.Store.Queries.{
  get_active_alerts, get_latest_status, get_active_suppressions, get_deleted,
  get_referencing_entries,
}
use mcp_awareness.Intentions.{get_intentions}
use mcp_awareness.Tools.Reminders.{validate_timestamp}
use mcp_awareness.Logs
use mcp_awareness.Logs.{Log, ReadRow, ActionRow, Event, log_read, log_action}

-- An answer, or an error by its code and the parameter that it names.
pub data Reply {ℓ} (A : Type ℓ) : Type ℓ where
  ok : A → Reply A
  refused : String → String → Reply A

infixl 5 ◌>>=◌
abbrev pub ◌>>=◌ {ℓ κ} : {A : Type ℓ} {B : Type κ} → Reply A → (A → Reply B) → Reply B
ok a >>= f = f a
refused c p >>= f = refused c p

-- `_validate_timestamp`
abbrev pub timestamp : StoreEnv → String → Option String → Reply (Option ℕ)
timestamp env param value = elim (validate_timestamp env value) [
  | none ↦ refused "invalid_parameter" param
  | some at ↦ ok at
]

-- `_validate_pagination` and the error that its message is made to
abbrev pub pagination : Option ℤ → Option ℤ → Reply (ℕ × Option ℕ)
pagination limit offset = elim (validate_pagination limit offset default_query_limit) [
  | inl message ↦
      refused "invalid_parameter"
        (if str_eq message "limit must be non-negative" then "limit" else "offset")
  | inr bounds ↦ ok bounds
]

abbrev pub entry_type_of : Option String → Reply (Option EntryType)
entry_type_of none = ok none
entry_type_of (some s) = if str_eq s "" then ok none else (elim (type_of s) [
  | none ↦ refused "invalid_parameter" "entry_type"
  | some kind ↦ ok (some kind)
])

-- the entry with its data as a JSON object
abbrev pub with_object : Stored → Entry Json
with_object e = record {
  id = e.id;
  entry_type = e.entry_type;
  source = e.source;
  tags = e.tags;
  created = e.created;
  updated = e.updated;
  expires = e.expires;
  payload = obj (fields_of e.payload);
  logical_key = e.logical_key;
  language = e.language;
}

-- `to_list_dict` in the mode "list", else `to_dict`
unfoldable pub shown_as : StoreEnv → Option String → Stored → Dict Json
shown_as env mode e =
    if str_eq (or_else mode "") "list"
    then to_list_dict env.to_iso e
    else to_dict env.to_iso (with_object e)

abbrev pub ids_of : List Stored → List String
ids_of = map (λ e. e.id)

-- `_log_reads`
unfoldable pub log_reads : ℕ → String → List Stored → String → Table → Log → Log
unfolding log_read
log_reads now owner_id entries tool_name t l =
    log_read now owner_id (ids_of entries) tool_name none t l

-- the page of the rows, of which there may be one more than it shows
abbrev pub page_of : StoreEnv → Option String → ℕ → Option ℕ → List Stored → Page (Dict Json)
page_of env mode limit offset entries = paginate (map (shown_as env mode) entries) limit offset

module _ (env : StoreEnv) (now : ℕ) (owner_id : String) (t : Table) where
  -- the rows of the page and one more, with the bounds
  unfoldable pub alert_rows :
      Option String → Option String → Option ℤ → Option ℤ → Reply (List Stored × ℕ × Option ℕ)
  unfolding get_active_alerts
  alert_rows source since limit offset = do
    (n, k) ← pagination limit offset
    since_dt ← timestamp env "since" since
    ok (get_active_alerts now owner_id source since_dt (some (n + 1)) k t, n, k)

  unfoldable pub get_alerts :
      Option String
      → Option String
      → Option String
      → Option ℤ
      → Option ℤ
      → Log
      → Reply (Page (Dict Json)) × Log
  unfolding alert_rows log_reads shown_as
  get_alerts source since mode limit offset l = elim (alert_rows source since limit offset) [
    | refused c p ↦ (refused c p, l)
    | ok (alerts, n, k) ↦
        (ok (page_of env mode n k alerts), log_reads now owner_id (take n alerts) "get_alerts" t l)
  ]

  unfoldable pub get_status : String → Reply (Dict Json)
  unfolding get_latest_status shown_as
  get_status source = elim (get_latest_status owner_id source t) [
    | none ↦ refused "not_found" "source"
    | some e ↦ ok (shown_as env none e)
  ]

  unfoldable pub get_suppressions : List (Dict Json)
  unfolding get_active_suppressions shown_as
  get_suppressions = map (shown_as env none) (get_active_suppressions now owner_id none t)

  unfoldable pub deleted_page :
      Option String → Option String → Option ℤ → Option ℤ → Reply (Page (Dict Json))
  unfolding get_deleted shown_as
  deleted_page since mode limit offset = do
    (n, k) ← pagination limit offset
    since_dt ← timestamp env "since" since
    ok (page_of env mode n k (get_deleted owner_id since_dt (some (n + 1)) k t))

  unfoldable pub intentions_page :
      Option String → Option String → List String → Option String → Option ℕ → Page (Dict Json)
  unfolding get_intentions shown_as
  intentions_page state source tags mode limit =
      let n = or_else limit default_query_limit in
      page_of env mode n none (get_intentions owner_id state source tags (some (n + 1)) t)

  -- `acted_on`; `none` is the error of an entry that is not found
  unfoldable pub acted_on :
      String
      → String
      → Option String
      → Option String
      → Option (List String)
      → Log
      → Option ActionRow × Log
  unfolding log_action
  acted_on entry_id action platform detail tags l =
      log_action now owner_id entry_id action platform detail tags t l

  unfoldable pub unread_page : Option String → Option ℕ → Log → Reply (Page (Dict Json))
  unfolding Logs.get_unread
  unread_page since limit l = do
    since_dt ← timestamp env "since" since
    let n = or_else limit default_query_limit
    ok (
        paginate
          (map (to_list_dict env.to_iso) (Logs.get_unread owner_id since_dt (some (n + 1)) t l)) n
          none)

  -- `[rid for rid in entry.data.get("related_ids", []) if rid != entry_id]`, of the texts
  abbrev texts_but : String → Items → List String
  texts_but s nil = []
  texts_but s (cons j js) = elim (as_text (some j)) [
    | none ↦ texts_but s js
    | some r ↦ if str_eq r s then texts_but s js else r ∷ texts_but s js
  ]

  abbrev forward_ids : String → Stored → List String
  forward_ids entry_id e = elim (lookup "related_ids" e.payload) [
    | none ↦ []
    | some v ↦ elim v [ arr js ↦ texts_but entry_id js | _ ↦ [] ]
  ]

  -- each entry once, where it comes first
  unfoldable pub without_repeats : List String → List Stored → List Stored
  without_repeats seen [] = []
  without_repeats seen (e ∷ es) =
      let rest = without_repeats (e.id ∷ seen) es in
      let skipped = without_repeats seen es in
      if any (λ i. str_eq i e.id) seen then skipped else e ∷ rest

  unfoldable pub related_entries : String → Stored → List Stored
  unfolding without_repeats get_entries_by_ids get_referencing_entries
  related_entries entry_id e = without_repeats [] (
      get_entries_by_ids owner_id (forward_ids entry_id e) t
      ++ get_referencing_entries owner_id entry_id t)

  unfoldable pub get_related : String → Option String → Log → Reply (List (Dict Json)) × Log
  unfolding related_entries log_reads shown_as get_entry_by_id
  get_related entry_id mode l = elim (get_entry_by_id owner_id entry_id t) [
    | none ↦ (refused "not_found" "entry_id", l)
    | some e ↦ (
      ok (map (shown_as env mode) (related_entries entry_id e)),
      log_reads now owner_id (related_entries entry_id e) "get_related" t l,
    )
  ]

-- The pages of the histories. Without a limit the default is taken.
unfoldable pub reads_page :
    StoreEnv
    → String
    → Option String
    → Option String
    → Option String
    → Option ℕ
    → Log
    → Reply (Page ReadRow)
unfolding Logs.get_reads
reads_page env owner_id entry_id since platform limit l = do
  since_dt ← timestamp env "since" since
  let n = or_else limit default_query_limit
  ok (paginate (Logs.get_reads owner_id entry_id since_dt platform (some (n + 1)) l) n none)

unfoldable pub actions_page :
    StoreEnv
    → String
    → Option String
    → Option String
    → Option String
    → List String
    → Option ℕ
    → Log
    → Reply (Page ActionRow)
unfolding Logs.get_actions
actions_page env owner_id entry_id since platform tags limit l = do
  since_dt ← timestamp env "since" since
  let n = or_else limit default_query_limit
  ok (paginate (Logs.get_actions owner_id entry_id since_dt platform tags (some (n + 1)) l) n none)

unfoldable pub activity_page :
    StoreEnv → String → Option String → Option String → Option ℕ → Log → Reply (Page Event)
unfolding Logs.get_activity
activity_page env owner_id since platform limit l = do
  since_dt ← timestamp env "since" since
  let n = or_else limit default_query_limit
  ok (paginate (Logs.get_activity owner_id since_dt platform (some (n + 1)) l) n none)
