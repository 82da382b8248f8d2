-- ===== src/Collator/Suppression.antt =====
-- `is_suppressed` and `_suppression_tags_match` of src/mcp_awareness/collator.py.
pub mod First
use mcp_awareness.Base.{
  ℕ, Bool, true, false, not, ◌&&◌, ◌||◌, String, List, [], ◌∷◌, Option, none, some, str_eq,
  if◌then◌else◌, or_else, any,
}
use mcp_awareness.Base.Int.{ltb_ℤ}
use mcp_awareness.Base.Text.{Text, lower_codes, contains, is_truthy}
use mcp_awareness.Schema.{Entry, severity_rank, is_expired}

-- The keys of an alert's data that the collator reads; `none` is a missing key.
pub record AlertData : Type 0 where
  pub alert_id : Option String
  pub level : Option String
  pub alert_type : Option String
  pub message : Option String
  pub metric : Option String

pub record SuppressionData : Type 0 where
  pub metric : Option String
  pub suppress_level : Option String
  pub escalation_override : Option Bool

abbrev pub Alert : Type 0
Alert = Entry AlertData

abbrev pub Suppression : Type 0
Suppression = Entry SuppressionData

abbrev pub optional_eq : Option String → Option String → Bool
optional_eq none none = true
optional_eq none (some t) = false
optional_eq (some s) none = false
optional_eq (some s) (some t) = str_eq s t

abbrev is_empty_text : Text → Bool
is_empty_text [] = true
is_empty_text (c ∷ s) = false

-- `any(tag_lower in field for field in content_fields if field)`
abbrev occurs_in : Text → List Text → Bool
occurs_in tag = any (λ field. not (is_empty_text field) && contains field tag)

abbrev content_fields : AlertData → List Text
content_fields d =
    lower_codes (or_else d.alert_id "")
    ∷ lower_codes (or_else d.message "")
    ∷ lower_codes (or_else d.metric "")
    ∷ []

unfoldable pub suppression_tags_match : List String → Alert → Bool
suppression_tags_match s_tags alert =
    any (λ t. any (λ u. str_eq u t) alert.tags) s_tags
    || any (λ tag. occurs_in (lower_codes tag) (content_fields alert.payload)) s_tags

abbrev pub has_tags : List String → Bool
has_tags [] = false
has_tags (t ∷ ts) = true

-- a suppression that no `continue` of the loop passes over
unfoldable pub applies : ℕ → Alert → Suppression → Bool
applies now alert s =
    not (is_expired now s)
    && not (not (str_eq s.source "") && not (str_eq s.source alert.source))
    && not (is_truthy s.payload.metric && not (optional_eq s.payload.metric alert.payload.metric))
    && not (has_tags s.tags && not (suppression_tags_match s.tags alert))

abbrev pub alert_level : Alert → String
alert_level alert = or_else alert.payload.level "warning"

unfoldable pub escalated : Alert → Suppression → Bool
escalated alert s =
    or_else s.payload.escalation_override true
    && ltb_ℤ (severity_rank (or_else s.payload.suppress_level "warning"))
        (severity_rank (alert_level alert))

-- the loop: the first suppression that applies decides
unfoldable pub is_suppressed : ℕ → Alert → List Suppression → Bool
is_suppressed now alert [] = false
is_suppressed now alert (s ∷ ss) =
    if applies now alert s then not (escalated alert s) else is_suppressed now alert ss
