-- ===== src/Embeddings/Texts.antt =====
-- `compose_embedding_text` and `should_embed` of src/mcp_awareness/embeddings.py: the text of an
-- entry that is embedded. Python's str of a value that is no text is a parameter.
use mcp_awareness.Base.{
  ℕ, Bool, not, String, List, [], ◌∷◌, ◌++◌, none, some, ltb, if◌then◌else◌, map, length, take,
}
use mcp_awareness.Base.Text.{Text, codes}
use mcp_awareness.Base.Json.{Json, null, text, arr, obj, Items, nil, cons, Fields, end, field}
use mcp_awareness.Base.Dict.{lookup}
use mcp_awareness.Schema.{EntryType}
use mcp_awareness.Schema.Dicts.{type_name}
use mcp_awareness.Schema.Lists.{json_truthy}
use mcp_awareness.Store.{Data, Stored, same_type}

-- sep.join(parts)
unfoldable pub join_texts : Text → List Text → Text
join_texts sep [] = []
join_texts sep (p ∷ []) = p
join_texts sep (p ∷ q ∷ ps) = p ++ (sep ++ join_texts sep (q ∷ ps))

-- `str(value)`
abbrev str : (Json → Text) → Json → Text
str str_of (text s) = codes s
str str_of j = str_of j

-- `if value := data.get(key): parts.append(prefix + str(value))`
abbrev truthy_part : (Json → Text) → String → String → Data → List Text
truthy_part str_of key prefix d = elim (lookup key d) [
  | none ↦ []
  | some v ↦ if json_truthy v then (codes prefix ++ str str_of v) ∷ [] else []
]

-- `if (value := data.get("value")) is not None`
abbrev value_part : (Json → Text) → Data → List Text
value_part str_of d = elim (lookup "value" d) [
  | none ↦ []
  | some v ↦ elim v [ null ↦ [] | other ↦ (codes "value: " ++ str str_of other) ∷ [] ]
]

unfoldable pub metric_parts : (Json → Text) → Fields → List Text
metric_parts str_of end = []
metric_parts str_of (field k v fs) = (codes k ++ b'=' ∷ str str_of v) ∷ metric_parts str_of fs

-- of metrics that are a dict with some item
abbrev metrics_part : (Json → Text) → Data → List Text
metrics_part str_of d = elim (lookup "metrics" d) [
  | none ↦ []
  | some v ↦ elim v [
    | obj fs ↦
        if json_truthy (obj fs)
        then (codes "metrics: " ++ join_texts (codes ", ") (metric_parts str_of fs)) ∷ []
        else []
    | _ ↦ []
  ]
]

unfoldable pub item_texts : (Json → Text) → Items → List Text
item_texts str_of nil = []
item_texts str_of (cons j js) = str str_of j ∷ item_texts str_of js

abbrev inventory_text : (Json → Text) → Json → Text
inventory_text str_of (arr js) = join_texts (codes ", ") (item_texts str_of js)
inventory_text str_of j = str str_of j

abbrev inventory_part : (Json → Text) → Data → List Text
inventory_part str_of d = elim (lookup "inventory" d) [
  | none ↦ []
  | some v ↦ if json_truthy v then (codes "inventory: " ++ inventory_text str_of v) ∷ [] else []
]

abbrev max_content_len : ℕ
max_content_len = 500

-- `content_str[:_max_content_len] + "..."` of a long content
abbrev cut : Text → Text
cut s = if ltb max_content_len (length s) then take max_content_len s ++ codes "..." else s

abbrev content_part : (Json → Text) → Data → List Text
content_part str_of d = elim (lookup "content" d) [
  | none ↦ []
  | some v ↦ if json_truthy v then cut (str str_of v) ∷ [] else []
]

abbrev tags_part : List String → List Text
tags_part [] = []
tags_part (u ∷ us) = (codes "tags: " ++ join_texts (codes ", ") (map codes (u ∷ us))) ∷ []

unfoldable pub compose_embedding_text : (Json → Text) → Stored → Text
unfolding join_texts type_name metric_parts item_texts
compose_embedding_text str_of e = join_texts (codes "\n") (
    (codes "type: " ++ codes (type_name e.entry_type))
    ∷ (codes "source: " ++ codes e.source)
    ∷ (tags_part e.tags
        ++ (truthy_part str_of "description" "" e.payload
            ++ (truthy_part str_of "goal" "" e.payload
                ++ (truthy_part str_of "message" "" e.payload
                    ++ (truthy_part str_of "effect" "effect: " e.payload
                        ++ (truthy_part str_of "key" "key: " e.payload
                            ++ (value_part str_of e.payload
                                ++ (truthy_part str_of "scope" "scope: " e.payload
                                    ++ (metrics_part str_of e.payload
                                        ++ (inventory_part str_of e.payload
                                            ++ content_part str_of e.payload)))))))))))

unfoldable pub should_embed : Stored → Bool
should_embed e = not (same_type e.entry_type EntryType.suppression)
