-- ===== src/Collator/Patterns.antt =====
-- `matches_pattern`, `_effect_matches_alert` and `_conditions_match` of
-- src/mcp_awareness/collator.py.
pub mod Hours
use mcp_awareness.Base.{
  ℕ, Bool, true, false, not, ◌&&◌, ◌||◌, String, List, [], ◌∷◌, Option, none, some, ltb, ◌==◌,
  if◌then◌else◌, or_else, any, all, keep, str_eq, map,
}
use mcp_awareness.Base.Int.{ℤ, pos, ltb_ℤ}
use mcp_awareness.Base.Dict.{Dict}
use mcp_awareness.Base.Text.{Text, codes, lower_codes, text_eq, split}
use mcp_awareness.Schema.{Entry, weekday, hour}
use mcp_awareness.Collator.Suppression.{AlertData, Alert}

-- A condition's JSON value, as far as the evaluation tells values apart. `other` is a value whose
-- text is no day name and which is no list of two; a list holds integers.
pub data ConditionValue : Type 0 where
  text : String → ConditionValue
  numbers : List ℤ → ConditionValue
  other : ConditionValue

pub record PatternData : Type 0 where
  pub conditions : Option (Dict ConditionValue)
  pub effect : Option String

abbrev pub Pattern : Type 0
Pattern = Entry PatternData

-- `.replace("—", " ").replace("-", " ")`
abbrev dash_to_space : ℕ → ℕ
dash_to_space c = if c == 8212 || c == b'-' then b' ' else c

stop_words : List String
stop_words =
    "suppress" ∷ "ignore" ∷ "skip" ∷ "the" ∷ "a" ∷ "an" ∷ "on" ∷ "in" ∷ "for" ∷ "and" ∷ "or" ∷ "is"
    ∷ "at" ∷ []

abbrev has_word : List Text → Text → Bool
has_word ws w = any (λ v. text_eq v w) ws

-- the significant words of a text
unfoldable pub words : String → List Text
unfolding stop_words
words s =
    keep (λ w. not (has_word (map codes stop_words) w)) (split (map dash_to_space (lower_codes s)))

-- `effect_words & token_words` is not empty
unfoldable pub share_word : List Text → List Text → Bool
share_word ws vs = any (has_word vs) ws

abbrev tokens : AlertData → List String
tokens d =
    or_else d.alert_id ""
    ∷ or_else d.alert_type ""
    ∷ or_else d.metric ""
    ∷ or_else d.message ""
    ∷ []

unfoldable pub effect_matches_alert : String → AlertData → Bool
unfolding words share_word
effect_matches_alert effect d =
    not (str_eq effect "")
    && any (λ token. not (str_eq token "") && share_word (words effect) (words token)) (tokens d)

-- day_names[now.weekday()]
unfoldable pub day_name : ℕ → String
day_name d =
    if d == 0
    then "monday"
    else if d == 1
    then "tuesday"
    else if d == 2
    then "wednesday"
    else if d == 3
    then "thursday"
    else if d == 4
    then "friday"
    else if d == 5
    then "saturday"
    else "sunday"

-- the test of an hour against a list of two: from the first up to the second, past midnight if
-- the first is later
unfoldable pub hour_in_range : ℤ → ℤ → ℕ → Bool
hour_in_range from to h =
    if ltb_ℤ to from
    then not (ltb_ℤ (pos h) from) || ltb_ℤ (pos h) to
    else not (ltb_ℤ (pos h) from) && ltb_ℤ (pos h) to

unfoldable pub day_matches : ℕ → ConditionValue → Bool
unfolding day_name weekday
day_matches now (text s) = text_eq (codes (day_name (weekday now))) (lower_codes s)
day_matches now _ = false

-- a value that is no list of two leaves the condition out of account
unfoldable pub hour_matches : ℕ → ConditionValue → Bool
unfolding hour_in_range hour
hour_matches now (numbers (from ∷ to ∷ [])) = hour_in_range from to (hour now)
hour_matches now _ = true

-- one round of the loop; a key of another name is passed over
unfoldable pub condition_holds : ℕ → String × ConditionValue → Bool
unfolding day_matches hour_matches
condition_holds now (key, value) =
    if str_eq key "day_of_week"
    then day_matches now value
    else if str_eq key "hour_range"
    then hour_matches now value
    else true

unfoldable pub conditions_match : ℕ → Dict ConditionValue → Bool
unfolding condition_holds
conditions_match now conditions = all (condition_holds now) conditions

abbrev pub pattern_matches : ℕ → Alert → Pattern → Bool
pattern_matches now alert p =
    effect_matches_alert (or_else p.payload.effect "") alert.payload
    && conditions_match now (or_else p.payload.conditions [])

unfoldable pub matches_pattern : ℕ → Alert → List Pattern → Bool
matches_pattern now alert patterns = any (pattern_matches now alert) patterns
