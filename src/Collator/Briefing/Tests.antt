-- ===== src/Collator/Briefing/Tests.antt =====
-- A store with a source, an alert and an intention, and the theorems of the briefing at it. Its
-- state is the intention's state.
use mcp_awareness.Base.{
  ◌+◌, ◌≤◌, ◌<◌, ◌≡◌, ◌↔◌, refl, true, String, List, [], ◌∷◌, Option, none, some, arith, str_eq,
  eq_iff, length, take, drop, All, Any, here, there, if◌then◌else◌, ap, Bool-cases, inl, inr,
}
use mcp_awareness.Base.Dict.{lookup}
use mcp_awareness.Schema.{EntryType}
use mcp_awareness.Collator.Suppression.{Alert}
use mcp_awareness.Collator.Summary.{SourceEntry}
use mcp_awareness.Collator.Briefing.Interface.{Intention, BriefingStore, BriefingStoreLaws, Lists}
use mcp_awareness.Collator.Briefing.Generate.{
  sort_fired, generate_briefing, fetch, max_fired_in_briefing, fired_store, fire_all,
}
use mcp_awareness.Collator.Briefing.Counts.{briefing_accounts}
use mcp_awareness.Collator.Briefing.PerSource.{Tells, briefing_per_source}
use mcp_awareness.Collator.Briefing.Fired.{
  NoneBefore, sort_fired_cut, briefing_fires, briefing_shows,
}
use mathlib.Core.List.{Perm}

abbrev test_intention : String → Option String → Intention
test_intention i urgency = record {
  id = i;
  entry_type = EntryType.intention;
  source = "nas";
  tags = [];
  created = 0;
  updated = none;
  expires = none;
  logical_key = none;
  language = "simple";
  payload = record { goal = some "buy milk"; description = none; urgency = urgency; state = none };
}

abbrev test_alert : Alert
test_alert = record {
  id = "a1";
  entry_type = EntryType.alert;
  source = "nas";
  tags = [];
  created = 0;
  updated = none;
  expires = none;
  logical_key = none;
  language = "simple";
  payload = record {
    alert_id = some "disk";
    level = some "critical";
    alert_type = none;
    message = some "disk full";
    metric = none;
  };
}

abbrev one_if : String → String → List Intention
one_if s state = if str_eq s state then test_intention "milk" none ∷ [] else []

abbrev test_store : BriefingStore String
test_store = record {
  get_all_statuses = λ s owner. [];
  get_all_active_alerts = λ now s owner. ("nas", test_alert ∷ []) ∷ [];
  get_all_active_suppressions = λ now s owner. [];
  get_all_patterns = λ s owner. [];
  get_sources = λ s owner. "nas" ∷ [];
  count_active_suppressions = λ now s owner. 0;
  get_fired_intentions = λ now s owner. one_if s "pending";
  get_intentions = λ s owner state. one_if s state;
  update_intention_state = λ now s owner i state reason. if str_eq i "milk" then state else s;
}

abbrev milk_state : String → String → String → Option String
milk_state s owner j = if str_eq j "milk" then some s else none

state_of-update :
    (s i state j : String)
    → milk_state (if str_eq i "milk" then state else s) "" j ≡ (
        if str_eq i j
        then (elim (milk_state s "" j) [ none ↦ none | some _ ↦ some state ])
        else milk_state s "" j)
state_of-update s i state j = ground (arith, eq_iff i "milk", eq_iff j "milk", eq_iff i j)

only_milk : (i : String) → Lists (test_intention "milk" none ∷ []) i → "milk" ≡ i
only_milk i (here e) = e
only_milk i (there a) = elim a [ ]

listed_iff : (s state i : String) → Lists (one_if s state) i ↔ (milk_state s "" i ≡ some state)
listed_iff s state i = elim (Bool-cases (str_eq s state)) [
  | inl same ↦ rw same (
    λ a. ground (arith, only_milk i a, eq_iff i "milk", eq_iff s state),
    λ h. here (ground (arith, h, eq_iff i "milk")),
  )
  | inr other ↦ rw other (λ a. elim a [ ], λ h. ground (arith, h, eq_iff s state))
]

due_pending : (s : String) → All (λ e. milk_state s "" e.id ≡ some "pending") (one_if s "pending")
due_pending s = elim (Bool-cases (str_eq s "pending")) [
  | inl same ↦ rw same (ap some ((eq_iff s "pending").0 same), tt)
  | inr other ↦ rw other tt
]

abbrev test_laws : BriefingStoreLaws test_store milk_state
test_laws = record {
  state_of-update = λ now s owner i state reason j. state_of-update s i state j;
  get_intentions_iff = λ s owner state i given. listed_iff s state i;
  due_pending = λ now s owner. due_pending s;
}

due : Lists (test_store.get_fired_intentions 1000 "pending" "alice") "milk"
due = here refl

briefing_accounts_example :
    let b = (generate_briefing test_store 1000 "pending" "alice").1.briefing in
    (b.evaluation.alerts_checked
      ≡ b.evaluation.suppressed + b.evaluation.pattern_matched + b.evaluation.surfaced)
    × (b.active_alerts ≡ b.evaluation.surfaced)
    × ((b.attention_needed ≡ true)
        ↔ (0 < b.evaluation.surfaced + b.evaluation.stale_sources + b.evaluation.intentions_fired))
briefing_accounts_example = briefing_accounts test_store 1000 "pending" "alice"

briefing_per_source_example :
    (e : SourceEntry) × (lookup "nas"
        (generate_briefing test_store 1000 "pending" "alice").1.briefing.sources
      ≡ some e)
    × Tells 1000 (fetch test_store 1000 "pending" "alice") "nas" e
briefing_per_source_example = briefing_per_source test_store 1000 "pending" "alice" "nas" refl

abbrev test_fired : List Intention
test_fired =
    test_intention "milk" (some "low")
    ∷ test_intention "call" (some "high")
    ∷ test_intention "mail" none
    ∷ []

sort_fired_cut_example :
    Perm (sort_fired test_fired) test_fired
    × All (λ i. NoneBefore i (drop 1 (sort_fired test_fired))) (take 1 (sort_fired test_fired))
sort_fired_cut_example = sort_fired_cut test_fired 1

briefing_fires_example :
    (Lists (test_store.get_fired_intentions 1000 "pending" "alice") "milk"
      → milk_state (generate_briefing test_store 1000 "pending" "alice").0 "alice" "milk"
        ≡ some "fired")
    × (¬ Lists (test_store.get_fired_intentions 1000 "pending" "alice") "milk"
        → milk_state (generate_briefing test_store 1000 "pending" "alice").0 "alice" "milk"
          ≡ milk_state "pending" "alice" "milk")
briefing_fires_example =
    briefing_fires test_store milk_state test_laws 1000 "pending" "alice" "milk"

few :
    length (
      test_store.get_intentions
        (generate_briefing test_store 1000 "pending" "alice").0
        "alice"
        "fired")
    ≤ max_fired_in_briefing
unfolding generate_briefing fired_store fire_all
few = omega arith

briefing_shows_example :
    Any
      (λ f. f.id ≡ "milk")
      (generate_briefing test_store 1000 "pending" "alice").1.briefing.fired_intentions
    × ((generate_briefing test_store 1000 "pending" "alice").1.briefing.attention_needed ≡ true)
briefing_shows_example =
    briefing_shows test_store milk_state test_laws 1000 "pending" "alice" "milk" due few
