-- ===== src/Collator/Tests.antt =====
-- Alerts, suppressions and a store of intentions, and the theorems of the collator at them.
use mcp_awareness.Base.{
  ℕ, ◌≡◌, ◌↔◌, inl, inr, refl, true, false, String, [], ◌∷◌, Option, none, some, arith, eq_iff,
}
use mcp_awareness.Base.Int.{pos}
use mcp_awareness.Schema.{EntryType, severity_rank}
use mcp_awareness.Collator.Suppression.{Alert, Suppression, escalated, is_suppressed}
use mcp_awareness.Collator.Suppression.First.{
  Applies, Decides, LetsCriticalThrough, is_suppressed_iff,
}
use mcp_awareness.Collator.Patterns.{Pattern, numbers}

abbrev test_alert : Option String → String → Alert
test_alert level message = record {
  id = "a1";
  entry_type = EntryType.alert;
  source = "nas";
  tags = "infra" ∷ [];
  created = 0;
  updated = none;
  expires = none;
  logical_key = none;
  language = "simple";
  payload = record {
    alert_id = some "cpu-high";
    level = level;
    alert_type = none;
    message = some message;
    metric = none;
  };
}

abbrev test_suppression : Option String → Option String → Option ℕ → Suppression
test_suppression metric level expires = record {
  id = "s1";
  entry_type = EntryType.suppression;
  source = "nas";
  tags = [];
  created = 0;
  updated = none;
  expires = expires;
  logical_key = none;
  language = "simple";
  payload = record { metric = metric; suppress_level = level; escalation_override = none };
}

abbrev hot : Alert
hot = test_alert (some "critical") "CPU at 99%"

abbrev for_warnings : Suppression
for_warnings = test_suppression none (some "warning") (some 5000)

abbrev for_all : Suppression
for_all = test_suppression none (some "critical") none

abbrev for_cpu : Suppression
for_cpu = test_suppression (some "cpu_pct") (some "critical") none

for_warnings-Applies : Applies 1000 hot for_warnings
for_warnings-Applies = record {
  live = inr (5000, refl, omega arith);
  of_source = inr refl;
  of_metric = inl refl;
  of_tags = inl refl;
}

for_all-Applies : Applies 1000 hot for_all
for_all-Applies = record {
  live = inl refl;
  of_source = inr refl;
  of_metric = inl refl;
  of_tags = inl refl;
}

for_warnings-escalated : escalated hot for_warnings ≡ true
unfolding escalated severity_rank
for_warnings-escalated = refl

for_all-escalated : escalated hot for_all ≡ false
unfolding escalated severity_rank
for_all-escalated = refl

is_suppressed_iff_example :
    (is_suppressed 1000 hot (for_cpu ∷ for_all ∷ []) ≡ true)
    ↔ ((s : Suppression) × Decides 1000 hot (for_cpu ∷ for_all ∷ []) s × (escalated hot s ≡ false))
is_suppressed_iff_example = is_suppressed_iff 1000 hot (for_cpu ∷ for_all ∷ [])

for_warnings-LetsCriticalThrough : LetsCriticalThrough for_warnings
for_warnings-LetsCriticalThrough = record {
  override = λ e. cc;
  level = λ e. ground (arith, eq_iff "warning" "critical");
}

abbrev nightly : Pattern
nightly = record {
  id = "p1";
  entry_type = EntryType.pattern_entry;
  source = "nas";
  tags = [];
  created = 0;
  updated = none;
  expires = none;
  logical_key = none;
  language = "simple";
  payload = record {
    conditions = some (("hour_range", numbers (pos 22 ∷ pos 6 ∷ [])) ∷ []);
    effect = some "cpu";
  };
}
