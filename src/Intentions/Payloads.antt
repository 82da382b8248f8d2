-- ===== src/Intentions/Payloads.antt =====
-- The operations of `PostgresStore` that src/mcp_awareness/collator.py calls, as the interface that
-- the collator's model takes: an entry's data is read at the keys that the collator reads.
use mcp_awareness.Base.{
  or_else, if◌then◌else◌, Bool, String, List, [], ◌∷◌, Option, none, some, map,
}
use mcp_awareness.Base.Int.{ℤ}
use mcp_awareness.Base.Json.{Json, bool, num, text, arr, obj, Items, nil, cons, Fields, end, field}
use mcp_awareness.Base.Dict.{Dict, lookup}
use mcp_awareness.Schema.{Entry, EntryType, StatusData}
use mcp_awareness.Collator.Suppression.{AlertData, SuppressionData}
use mcp_awareness.Collator.Patterns.{PatternData, ConditionValue}
use mcp_awareness.Collator.Briefing.Interface.{IntentionData}
use mcp_awareness.Store.{Data, Stored, text_at, same_type}

abbrev as_bool : Option Json → Option Bool
as_bool (some (bool b)) = some b
as_bool _ = none

abbrev as_num : Option Json → Option ℤ
as_num (some (num n)) = some n
as_num _ = none

abbrev put_num : Option ℤ → Option (List ℤ) → Option (List ℤ)
put_num (some n) (some ns) = some (n ∷ ns)
put_num _ _ = none

-- the numbers of a list of nothing else
unfoldable numbers_of : Items → Option (List ℤ)
numbers_of nil = some []
numbers_of (cons j js) = put_num (as_num (some j)) (numbers_of js)

abbrev condition_value : Json → ConditionValue
condition_value (text s) = ConditionValue.text s
condition_value (arr js) = elim (numbers_of js) [
  | none ↦ ConditionValue.other
  | some ns ↦ ConditionValue.numbers ns
]
condition_value _ = ConditionValue.other

unfoldable conditions_of : Fields → Dict ConditionValue
unfolding numbers_of
conditions_of end = []
conditions_of (field k v fs) = (k, condition_value v) ∷ conditions_of fs

abbrev as_conditions : Option Json → Option (Dict ConditionValue)
as_conditions (some (obj fs)) = some (conditions_of fs)
as_conditions _ = none

abbrev pub alert_data : Data → AlertData
alert_data d = record {
  alert_id = text_at "alert_id" d;
  level = text_at "level" d;
  alert_type = text_at "alert_type" d;
  message = text_at "message" d;
  metric = text_at "metric" d;
}

abbrev pub suppression_data : Data → SuppressionData
suppression_data d = record {
  metric = text_at "metric" d;
  suppress_level = text_at "suppress_level" d;
  escalation_override = as_bool (lookup "escalation_override" d);
}

unfoldable pub pattern_data : Data → PatternData
unfolding conditions_of
pattern_data d = record {
  conditions = as_conditions (lookup "conditions" d);
  effect = text_at "effect" d;
}

abbrev pub status_data : Data → StatusData
status_data d = record { ttl_sec = as_num (lookup "ttl_sec" d) }

abbrev pub intention_data : Data → IntentionData
intention_data d = record {
  goal = text_at "goal" d;
  description = text_at "description" d;
  urgency = text_at "urgency" d;
  state = text_at "state" d;
}

-- the entry with its data read
abbrev pub decode : {D : Type 0} → (Data → D) → Stored → Entry D
decode read e = record {
  id = e.id;
  entry_type = e.entry_type;
  source = e.source;
  tags = e.tags;
  created = e.created;
  updated = e.updated;
  expires = e.expires;
  payload = read e.payload;
  logical_key = e.logical_key;
  language = e.language;
}

-- each value of a dict
abbrev pub decode_values : {A B : Type 0} → (A → B) → Dict A → Dict B
decode_values f d = map (λ r. (r.0, f r.1)) d

-- the state of an owner's intention
abbrev pub state_in : Option Stored → Option String
state_in none = none
state_in (some e) =
    if same_type e.entry_type EntryType.intention
    then some (or_else (text_at "state" e.payload) "")
    else none
