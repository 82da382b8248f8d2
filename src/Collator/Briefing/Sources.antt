-- ===== src/Collator/Briefing/Sources.antt =====
-- The loop of `generate_briefing` over the sources, with its counters.
use Prim.Native.String.{◌++◌ as join2}
use mcp_awareness.Base.{
  ℕ, ◌+◌, ◌-◌, Bool, true, false, not, ◌||◌, String, List, [], ◌∷◌, ◌++◌, Option, none, some,
  str_eq, if◌then◌else◌, or_else, any, keep, length,
}
use mcp_awareness.Base.Int.{ltb_ℤ}
use mcp_awareness.Base.Dict.{Dict, lookup, insert}
use mcp_awareness.Schema.{Entry, StatusData, is_stale, age_seconds, last_change, severity_rank}
use mcp_awareness.Collator.Suppression.{Alert, Suppression, is_suppressed, alert_level}
use mcp_awareness.Collator.Patterns.{Pattern, matches_pattern}
use mcp_awareness.Collator.Summary.{SourceEntry, SourceStatus, ok, warning, critical, stale}
use mcp_awareness.Base.Decimal.{decimal}

-- what the four batch queries return
pub record Batch : Type 0 where
  pub statuses : Dict (Entry StatusData)
  pub alerts : Dict (List Alert)
  pub suppressions : Dict (List Suppression)
  pub patterns : Dict (List Pattern)

-- the loop's variables
pub record Tally : Type 0 where
  pub sources : Dict SourceEntry
  pub active_alerts : ℕ
  pub attention_needed : Bool
  pub alerts_checked : ℕ
  pub suppressed : ℕ
  pub pattern_matched : ℕ
  pub stale_sources : ℕ

abbrev pub start : Tally
start = record {
  sources = [];
  active_alerts = 0;
  attention_needed = false;
  alerts_checked = 0;
  suppressed = 0;
  pattern_matched = 0;
  stale_sources = 0;
}

-- d.get(source, [])
abbrev pub list_of {ℓ} : {A : Type ℓ} → String → Dict (List A) → List A
list_of source d = or_else (lookup source d) []

-- the alerts that no suppression filters out, and those of them that no pattern expects
unfoldable pub unsuppressed : ℕ → Batch → String → List Alert
unsuppressed now b source =
    keep
      (λ a. not (is_suppressed now a (list_of source b.suppressions ++ list_of "" b.suppressions)))
      (list_of source b.alerts)

unfoldable pub active_alerts : ℕ → Batch → String → List Alert
unfolding unsuppressed
active_alerts now b source =
    keep (λ a. not (matches_pattern now a (list_of source b.patterns ++ list_of "" b.patterns)))
      (unsuppressed now b source)

-- a.data.get("level") == "critical"
abbrev pub is_critical : Alert → Bool
is_critical a = elim a.payload.level [ none ↦ false | some l ↦ str_eq l "critical" ]

unfoldable pub status_of : List Alert → SourceStatus
status_of [] = ok
status_of (a ∷ as') = if any is_critical (a ∷ as') then critical else warning

-- max(…, key=…): the first of those with the greatest key
unfoldable pub top_from : Alert → List Alert → Alert
top_from best [] = best
top_from best (a ∷ as') =
    top_from
      (if ltb_ℤ (severity_rank (alert_level best)) (severity_rank (alert_level a)) then a else best)
      as'

unfoldable pub source_entry : String → Option (Entry StatusData) → List Alert → SourceEntry
unfolding status_of top_from
source_entry source status [] = record {
  source_status = ok;
  last_report = elim status [ none ↦ none | some e ↦ some (last_change e) ];
  headline = none;
  drill_down = none;
}
source_entry source status (a ∷ as') = record {
  source_status = status_of (a ∷ as');
  last_report = elim status [ none ↦ none | some e ↦ some (last_change e) ];
  headline = some (or_else (top_from a as').payload.message "");
  drill_down = some (join2 "awareness://alerts/" source);
}

unfoldable pub stale_entry : ℕ → String → Entry StatusData → SourceEntry
stale_entry now source status = record {
  source_status = stale;
  last_report = some (last_change status);
  headline =
      some (
        join2 source
          (join2 " has not reported in " (join2 (decimal (age_seconds now status)) "s")));
  drill_down = some (join2 "awareness://status/" source);
}

abbrev pub has_any {ℓ} : {A : Type ℓ} → List A → Bool
has_any [] = false
has_any (x ∷ xs) = true

-- the round of a stale source, which ends with `continue`
unfoldable pub stale_round : ℕ → String → Entry StatusData → Tally → Tally
unfolding stale_entry
stale_round now source status t = record t {
  sources = insert source (stale_entry now source status) t.sources;
  attention_needed = true;
  stale_sources = t.stale_sources + 1;
}

unfoldable pub live_round : ℕ → Batch → String → Tally → Tally
unfolding active_alerts source_entry
live_round now b source t = record t {
  sources =
      insert source (source_entry source (lookup source b.statuses) (active_alerts now b source))
        t.sources;
  active_alerts = t.active_alerts + length (active_alerts now b source);
  attention_needed = t.attention_needed || has_any (active_alerts now b source);
  alerts_checked = t.alerts_checked + length (list_of source b.alerts);
  suppressed =
      t.suppressed + (length (list_of source b.alerts) - length (unsuppressed now b source));
  pattern_matched =
      t.pattern_matched
      + (length (unsuppressed now b source) - length (active_alerts now b source));
}

-- `status and status.is_stale()`
abbrev pub stale_status : ℕ → Batch → String → Option (Entry StatusData)
stale_status now b source = elim (lookup source b.statuses) [
  | none ↦ none
  | some e ↦ if is_stale now e then some e else none
]

unfoldable pub round : ℕ → Batch → String → Tally → Tally
unfolding stale_round live_round
round now b source t = elim (stale_status now b source) [
  | none ↦ live_round now b source t
  | some e ↦ stale_round now source e t
]

unfoldable pub collate : ℕ → Batch → List String → Tally → Tally
unfolding round
collate now b [] t = t
collate now b (source ∷ rest) t = collate now b rest (round now b source t)
