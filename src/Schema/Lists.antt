-- ===== src/Schema/Lists.antt =====
-- `Entry.to_list_dict` of src/mcp_awareness/schema.py: the metadata of an entry, for lists.
use mcp_awareness.Base.{
  ℕ, Bool, true, false, not, ◌&&◌, String, [], ◌∷◌, ◌++◌, Option, none, some, str_eq, if◌then◌else◌,
  or_else,
}
use mcp_awareness.Base.Int.{pos}
use mcp_awareness.Base.Json.{Json, null, bool, num, text, arr, obj, nil, cons, end, field}
use mcp_awareness.Base.Dict.{Dict, lookup}
use mcp_awareness.Schema.{Entry}
use mcp_awareness.Schema.Dicts.{type_name, items_of}

-- bool(value)
abbrev pub json_truthy : Json → Bool
json_truthy null = false
json_truthy (bool b) = b
json_truthy (num n) = elim n [ pos k ↦ (elim k [ ℕ.zero ↦ false | ℕ.suc m ↦ true ]) | _ ↦ true ]
json_truthy (text s) = not (str_eq s "")
json_truthy (arr js) = elim js [ nil ↦ false | cons j ks ↦ true ]
json_truthy (obj fs) = elim fs [ end ↦ false | field k v gs ↦ true ]

abbrev get_or : String → Json → Dict Json → Json
get_or key default d = or_else (lookup key d) default

-- an alert without description shows its message
unfoldable pub list_description : Entry (Dict Json) → Json
unfolding type_name
list_description e =
    if not (json_truthy (get_or "description" (text "") e.payload))
      && str_eq (type_name e.entry_type) "alert"
    then get_or "message" (text "") e.payload
    else get_or "description" (text "") e.payload

abbrev intention_fields : Entry (Dict Json) → Dict Json
intention_fields e =
    if str_eq (type_name e.entry_type) "intention"
    then ("goal", get_or "goal" (text "") e.payload)
      ∷ ("state", get_or "state" (text "pending") e.payload)
      ∷ []
    else []

abbrev key_field : Option String → Dict Json
key_field none = []
key_field (some k) = ("logical_key", text k) ∷ []

abbrev updated_text : (ℕ → String) → Option ℕ → Json
updated_text to_iso none = null
updated_text to_iso (some at) = text (to_iso at)

unfoldable pub to_list_dict : (ℕ → String) → Entry (Dict Json) → Dict Json
unfolding items_of list_description type_name
to_list_dict to_iso e =
    ("id", text e.id)
    ∷ ("type", text (type_name e.entry_type))
    ∷ ("source", text e.source)
    ∷ ("tags", arr (items_of e.tags))
    ∷ ("description", list_description e)
    ∷ ("created", text (to_iso e.created))
    ∷ ("updated", updated_text to_iso e.updated)
    ∷ (intention_fields e ++ key_field e.logical_key)
