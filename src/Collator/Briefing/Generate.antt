-- ===== src/Collator/Briefing/Generate.antt =====
-- `generate_briefing` of src/mcp_awareness/collator.py: the order of the fired intentions, and the
-- whole briefing over a store's operations.
use mcp_awareness.Base.{
  ℕ, Bool, ◌||◌, ◌&&◌, String, List, [], ◌∷◌, Option, none, some, str_eq, ltb, ◌==◌, if◌then◌else◌,
  or_else, length, map, take,
}
use mcp_awareness.Schema.{last_change}
use mcp_awareness.Collator.Summary.{Briefing, FiredIntention, compose_summary, compose_mention}
use mcp_awareness.Collator.Briefing.Sources.{Batch, Tally, start, collate, has_any}
use mcp_awareness.Collator.Briefing.Interface.{BriefingStore, Intention}

abbrev pub max_fired_in_briefing : ℕ
max_fired_in_briefing = 10

-- _URGENCY_RANK.get(urgency, 1)
unfoldable pub urgency_rank : String → ℕ
urgency_rank u =
    if str_eq u "low" then 0 else if str_eq u "normal" then 1 else if str_eq u "high" then 2 else 1

abbrev pub rank_of : Intention → ℕ
rank_of i = urgency_rank (or_else i.payload.urgency "normal")

-- the key of `i` is less than that of `j`: more urgent, or as urgent and changed later
unfoldable pub goes_before : Intention → Intention → Bool
goes_before i j =
    ltb (rank_of j) (rank_of i) || (rank_of i == rank_of j && ltb (last_change j) (last_change i))

unfoldable pub insert_fired : Intention → List Intention → List Intention
insert_fired i [] = i ∷ []
insert_fired i (j ∷ js) = if goes_before j i then j ∷ insert_fired i js else i ∷ j ∷ js

-- all_fired.sort(key=…), which is stable
unfoldable pub sort_fired : List Intention → List Intention
unfolding insert_fired
sort_fired [] = []
sort_fired (i ∷ is') = insert_fired i (sort_fired is')

unfoldable pub show_fired : Intention → FiredIntention
show_fired i = record {
  id = i.id;
  goal = or_else i.payload.goal (or_else i.payload.description "");
  source = i.source;
  tags = i.tags;
  urgency = or_else i.payload.urgency "normal";
  updated = last_change i;
}

-- The briefing with the two texts that are composed from it.
pub record Delivered : Type 0 where
  pub briefing : Briefing
  pub summary : String
  pub suggested_mention : Option String

module _ {S : Type 0} (store : BriefingStore S) where
  -- the four batch queries
  unfoldable pub fetch : ℕ → S → String → Batch
  fetch now s owner = record {
    statuses = store.get_all_statuses s owner;
    alerts = store.get_all_active_alerts now s owner;
    suppressions = store.get_all_active_suppressions now s owner;
    patterns = store.get_all_patterns s owner;
  }

  -- the loop of the auto-fire path
  unfoldable pub fire_all : ℕ → String → List Intention → S → S
  fire_all now owner [] s = s
  fire_all now owner (i ∷ due) s =
      fire_all now owner due
        (store.update_intention_state now s owner i.id "fired" (some "Delivered via briefing"))

  unfoldable pub fired_store : ℕ → S → String → S
  unfolding fire_all
  fired_store now s owner = fire_all now owner (store.get_fired_intentions now s owner) s

  unfoldable pub assemble : ℕ → S → String → Tally → List Intention → Briefing
  assemble now s owner t all_fired = record {
    generated = now;
    sources = t.sources;
    active_alerts = t.active_alerts;
    active_suppressions = store.count_active_suppressions now s owner;
    attention_needed = t.attention_needed || has_any all_fired;
    fired_intentions = map show_fired (take max_fired_in_briefing all_fired);
    pending_intentions = length (store.get_intentions s owner "pending");
    evaluation = record {
      alerts_checked = t.alerts_checked;
      suppressed = t.suppressed;
      pattern_matched = t.pattern_matched;
      stale_sources = t.stale_sources;
      surfaced = t.active_alerts;
      intentions_pending = length (store.get_intentions s owner "pending");
      intentions_fired = length all_fired;
    };
  }

  unfoldable pub deliver : Briefing → Delivered
  deliver b = record {
    briefing = b;
    summary = compose_summary b;
    suggested_mention = if b.attention_needed then some (compose_mention b) else none;
  }

  unfoldable pub generate_briefing : ℕ → S → String → S × Delivered
  unfolding fetch fired_store assemble deliver collate sort_fired
  generate_briefing now s owner =
      let t = collate now (fetch now s owner) (store.get_sources s owner) start in
      let s' = fired_store now s owner in
      let all_fired = sort_fired (store.get_intentions s' owner "fired") in
      (s', deliver (assemble now s' owner t all_fired))
