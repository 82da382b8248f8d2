-- ===== src/Readers/Knowledge.antt =====
-- The tool get_knowledge of src/mcp_awareness/tools.py. What the embedding provider and the semantic
-- search make of a hint, the scores of entries by their ids, is an argument; a score is a number
-- that is only compared, and `none` stands for no provider or for an exception.
use mcp_awareness.Base.{
  ℕ, ◌+◌, Bool, String, List, [], ◌∷◌, Option, none, some, str_eq, if◌then◌else◌, or_else, is_some,
  map, take,
}
use mcp_awareness.Base.Int.{ℤ}
use mcp_awareness.Base.Json.{Json}
use mcp_awareness.Base.Text.{is_truthy, text_eq, codes}
use mcp_awareness.Base.Dict.{Dict, lookup}
use mcp_awareness.Schema.Lists.{to_list_dict}
use mcp_awareness.Schema.Dicts.{to_dict}
use mcp_awareness.Helpers.Pages.{Page, paginate}
use mcp_awareness.Language.{normalized, regconfigs, iso_to_regconfig, get_text}
use mcp_awareness.Store.{Stored, Table, StoreEnv, order_by}
use mcp_awareness.Store.Queries.{Filter}
use mcp_awareness.Store.Queries
use mcp_awareness.Logs.{Log, ReadCount, get_read_counts}
use mcp_awareness.Readers.{
  Reply, ok, refused, ◌>>=◌, timestamp, pagination, entry_type_of, with_object, ids_of, log_reads,
}

-- The arguments of the tool but for the limit, the offset and the mode.
pub record Query : Type 0 where
  pub source : Option String
  pub tags : List String
  pub entry_type : Option String
  pub include_history : Option String
  pub since : Option String
  pub until : Option String
  pub learned_from : Option String
  pub created_after : Option String
  pub created_before : Option String
  pub hint : Option String
  pub language : Option String

-- `normalized == SIMPLE`
abbrev is_simple : String → Bool
is_simple s = text_eq (normalized s) (codes "simple")

-- the configuration that the filter by language asks for
abbrev pub language_filter : Option String → Reply (Option String)
language_filter none = ok none
language_filter (some s) =
    if str_eq s ""
    then ok none
    else if is_simple s
    then ok (some "simple")
    else if is_some (get_text (normalized s) regconfigs)
    then ok (some (iso_to_regconfig (some s)))
    else refused "invalid_parameter" "language"

-- what the filter of the store's get_knowledge is
unfoldable pub filter_of : StoreEnv → Query → Reply Filter
filter_of env q = do
  since ← timestamp env "since" q.since
  until ← timestamp env "until" q.until
  created_after ← timestamp env "created_after" q.created_after
  created_before ← timestamp env "created_before" q.created_before
  kind ← entry_type_of q.entry_type
  language ← language_filter q.language
  ok (record {
    entry_type = kind;
    source = q.source;
    tags = q.tags;
    since = since;
    until = until;
    learned_from = q.learned_from;
    created_after = created_after;
    created_before = created_before;
    language = language;
  })

-- `similarity_map.get(e.id, -1.0)`, less than any score
abbrev pub rank : Dict ℕ → Stored → ℕ
rank scores e = elim (lookup e.id scores) [ none ↦ 0 | some s ↦ s + 1 ]

-- `entries.sort(key=…, reverse=True)`, which keeps the order of equal keys
unfoldable pub rerank : Option (Dict ℕ) → List Stored → List Stored
unfolding order_by
rerank none entries = entries
rerank (some scores) entries = order_by (rank scores) entries

-- An item of the answer, with what is added to the entry's fields.
pub record Item : Type 0 where
  pub fields : Dict Json
  pub reads : Option (Option ReadCount)
  pub similarity : Option ℕ

module _ (env : StoreEnv) (now : ℕ) (owner_id : String) (search : String → Option (Dict ℕ)) where
  -- the scores, if there is a hint and there are entries
  abbrev pub scores_for : Option String → List Stored → Option (Dict ℕ)
  scores_for hint [] = none
  scores_for hint (e ∷ es) = if is_truthy hint then search (or_else hint "") else none

  -- in the mode "list" with the number of the reads
  unfoldable pub item : Option String → Dict ReadCount → Dict ℕ → Stored → Item
  unfolding to_list_dict to_dict
  item mode counts scores e =
      if str_eq (or_else mode "") "list"
      then record {
        fields = to_list_dict env.to_iso e;
        reads = some (lookup e.id counts);
        similarity = lookup e.id scores;
      }
      else record {
        fields = to_dict env.to_iso (with_object e);
        reads = none;
        similarity = lookup e.id scores;
      }

  -- The rows in the order of the hint, of which the page shows the first, and its bounds.
  unfoldable pub ranked_rows :
      Query → Option ℤ → Option ℤ → Table → Reply (List Stored × Dict ℕ × ℕ × Option ℕ)
  unfolding filter_of rerank Queries.get_knowledge
  ranked_rows q limit offset t = do
    (n, k) ← pagination limit offset
    f ← filter_of env q
    let found = Queries.get_knowledge owner_id f q.include_history (some (n + 1)) k t
    let scores = scores_for q.hint found
    ok (rerank scores found, or_else scores [], n, k)

  unfoldable pub get_knowledge :
      Query → Option String → Option ℤ → Option ℤ → Table → Log → Reply (Page Item) × Log
  unfolding ranked_rows log_reads item
  get_knowledge q mode limit offset t l = elim (ranked_rows q limit offset t) [
    | refused c p ↦ (refused c p, l)
    | ok (entries, scores, n, k) ↦
        let l' = log_reads now owner_id (take n entries) "get_knowledge" t l in
        let counts = get_read_counts owner_id (ids_of entries) l' in
        (ok (paginate (map (item mode counts scores) entries) n k), l')
  ]
