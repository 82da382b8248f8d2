-- ===== src/Schema/Dicts.antt =====
-- `Entry.to_dict`, `to_list_dict` and `from_dict` of src/mcp_awareness/schema.py: the JSON form of
-- an entry. The text of an instant and its parsing are arguments. `from_dict` gives `none` where
-- the code raises; a value of another JSON kind than `to_dict` writes is not modelled.
use mcp_awareness.Base.{
  ℕ, ◌≡◌, refl, String, List, [], ◌∷◌, ◌++◌, Option, none, some, arith, str_eq, eq_iff,
  if◌then◌else◌, or_else,
}
use mcp_awareness.Base.Json.{Json, null, text, arr, obj, end, Items, nil, cons}
use mcp_awareness.Base.Dict.{Dict, lookup}
use mcp_awareness.Schema.{Entry, EntryType}

-- EntryType's value
unfoldable pub type_name : EntryType → String
type_name EntryType.status = "status"
type_name EntryType.alert = "alert"
type_name EntryType.pattern_entry = "pattern"
type_name EntryType.suppression = "suppression"
type_name EntryType.context = "context"
type_name EntryType.preference = "preference"
type_name EntryType.note = "note"
type_name EntryType.intention = "intention"
type_name EntryType.schema = "schema"
type_name EntryType.record_entry = "record"

abbrev pub all_types : List EntryType
all_types =
    EntryType.status ∷ EntryType.alert ∷ EntryType.pattern_entry ∷ EntryType.suppression
    ∷ EntryType.context ∷ EntryType.preference ∷ EntryType.note ∷ EntryType.intention
    ∷ EntryType.schema ∷ EntryType.record_entry ∷ []

unfoldable pub type_among : List EntryType → String → Option EntryType
unfolding type_name
type_among [] s = none
type_among (t ∷ ts) s = if str_eq (type_name t) s then some t else type_among ts s

-- EntryType(s); `none` is its ValueError
abbrev pub type_of : String → Option EntryType
type_of = type_among all_types

unfoldable pub items_of : List String → Items
items_of [] = nil
items_of (s ∷ ss) = cons (text s) (items_of ss)

-- SIMPLE of language.py
abbrev pub simple : String
simple = "simple"

abbrev optional_field : String → Option String → Dict Json
optional_field k none = []
optional_field k (some s) = (k, text s) ∷ []

abbrev time_or_null : (ℕ → String) → Option ℕ → Json
time_or_null to_iso none = null
time_or_null to_iso (some t) = text (to_iso t)

unfoldable pub to_dict : (ℕ → String) → Entry Json → Dict Json
unfolding items_of type_name
to_dict to_iso e =
    ("id", text e.id)
    ∷ ("type", text (type_name e.entry_type))
    ∷ ("source", text e.source)
    ∷ ("tags", arr (items_of e.tags))
    ∷ ("created", text (to_iso e.created))
    ∷ ("updated", time_or_null to_iso e.updated)
    ∷ ("expires", time_or_null to_iso e.expires)
    ∷ ("data", e.payload)
    ∷ (optional_field "logical_key" e.logical_key
        ++ (if str_eq e.language simple then [] else ("language", text e.language) ∷ []))

abbrev as_text : Option Json → Option String
as_text (some (text s)) = some s
as_text _ = none

unfoldable pub texts_of : Items → Option (List String)
texts_of nil = some []
texts_of (cons (text s) js) = elim (texts_of js) [ none ↦ none | some ss ↦ some (s ∷ ss) ]
texts_of (cons _ js) = none

-- d.get("tags", [])
abbrev as_tags : Option Json → Option (List String)
as_tags none = some []
as_tags (some (arr js)) = texts_of js
as_tags _ = none

abbrev as_type : Option Json → Option EntryType
as_type j = elim (as_text j) [ none ↦ none | some s ↦ type_of s ]

-- ensure_dt
abbrev as_time : (String → Option ℕ) → Option Json → Option ℕ
as_time parse j = elim (as_text j) [ none ↦ none | some s ↦ parse s ]

abbrev parsed : Option ℕ → Option (Option ℕ)
parsed none = none
parsed (some t) = some (some t)

-- ensure_dt_optional of d.get(…)
abbrev as_optional_time : (String → Option ℕ) → Option Json → Option (Option ℕ)
as_optional_time parse none = some none
as_optional_time parse (some null) = some none
as_optional_time parse (some (text s)) = parsed (parse s)
as_optional_time parse _ = none

infixl 5 ◌>>=◌
abbrev ◌>>=◌ {ℓ κ} : {A : Type ℓ} {B : Type κ} → Option A → (A → Option B) → Option B
none >>= f = none
some a >>= f = f a

unfoldable pub from_dict : (String → Option ℕ) → Dict Json → Option (Entry Json)
unfolding texts_of
from_dict parse d = do
  i ← as_text (lookup "id" d)
  kind ← as_type (lookup "type" d)
  src ← as_text (lookup "source" d)
  tags ← as_tags (lookup "tags" d)
  created ← as_time parse (lookup "created" d)
  updated ← as_optional_time parse (lookup "updated" d)
  expires ← as_optional_time parse (lookup "expires" d)
  some (record {
    id = i;
    entry_type = kind;
    source = src;
    tags = tags;
    created = created;
    updated = updated;
    expires = expires;
    payload = or_else (lookup "data" d) (obj end);
    logical_key = as_text (lookup "logical_key" d);
    language = or_else (as_text (lookup "language" d)) simple;
  })

texts-items : (ss : List String) → texts_of (items_of ss) ≡ some ss
unfolding texts_of items_of
texts-items [] = refl
texts-items (s ∷ ss) = rw (texts-items ss) refl

type_of-type_name : (t : EntryType) → type_of (type_name t) ≡ some t
unfolding type_among type_name
type_of-type_name EntryType.status = refl
type_of-type_name EntryType.alert = refl
type_of-type_name EntryType.pattern_entry = refl
type_of-type_name EntryType.suppression = refl
type_of-type_name EntryType.context = refl
type_of-type_name EntryType.preference = refl
type_of-type_name EntryType.note = refl
type_of-type_name EntryType.intention = refl
type_of-type_name EntryType.schema = refl
type_of-type_name EntryType.record_entry = refl

abbrev tail : Option String → String → Dict Json
tail k l =
    optional_field "logical_key" k ++ (if str_eq l simple then [] else ("language", text l) ∷ [])

key_back : (k : Option String) (l : String) → as_text (lookup "logical_key" (tail k l)) ≡ k
unfolding lookup
key_back none l = ground arith
key_back (some s) l = refl

language_back :
    (k : Option String) (l : String) → or_else (as_text (lookup "language" (tail k l))) simple ≡ l
unfolding lookup
language_back none l = ground (arith, eq_iff l simple)
language_back (some s) l = ground (arith, eq_iff l simple)

module _ (to_iso : ℕ → String) (parse : String → Option ℕ)
    (parse-to_iso : (t : ℕ) → parse (to_iso t) ≡ some t) where
  time_back : (o : Option ℕ) → as_optional_time parse (some (time_or_null to_iso o)) ≡ some o
  time_back none = refl
  time_back (some t) = rw (parse-to_iso t) refl

  -- If an instant can be read back from its text, an entry can be read back from its JSON form.
  pub from_dict-to_dict : (e : Entry Json) → from_dict parse (to_dict to_iso e) ≡ some e
  unfolding from_dict to_dict lookup
  from_dict-to_dict e =
      rw
        (
          type_of-type_name e.entry_type,
          texts-items e.tags,
          parse-to_iso e.created,
          time_back e.updated,
          time_back e.expires,
          key_back e.logical_key e.language,
          language_back e.logical_key e.language,
        )
        refl
