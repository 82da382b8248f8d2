-- ===== src/Collator/Briefing/PerSource.antt =====
-- What the briefing says of each source.
use mathlib.Core.Path.{subst}
use mcp_awareness.Base.{
  ℕ, ◌≡◌, ◌≢◌, refl, ◌↔◌, inl, inr, true, false, not, String, List, [], ◌∷◌, ◌++◌, Option, none,
  some, arith, str_eq, eq_iff, if◌then◌else◌, ◌||◌, Bool, any, Any, All, keep, keep-keep,
  keep-eq-nil_iff, Any-map, All-map, Any-keep, keep-Any, any→Any, Any→any, ◌&&◌, Option-cases,
  Bool-cases, ◌∙◌, ap,
}
use mcp_awareness.Base.Dict.{lookup, insert, lookup-insert}
use mcp_awareness.Schema.{Entry, StatusData, is_stale}
use mcp_awareness.Collator.Summary.{SourceEntry, ok, critical, stale}
use mcp_awareness.Collator.Suppression.{Alert, is_suppressed}
use mcp_awareness.Collator.Patterns.{matches_pattern}
use mcp_awareness.Collator.Briefing.Sources.{
  Batch, Tally, start, list_of, active_alerts, is_critical, status_of, source_entry, stale_entry,
  stale_status, stale_round, live_round, round, collate,
}
use mcp_awareness.Collator.Briefing.Interface.{BriefingStore}
use mcp_awareness.Collator.Briefing.Generate.{generate_briefing, fetch}

-- the entry of a source, as a function of the batch alone
pub report_of : ℕ → Batch → String → SourceEntry
report_of now b source = elim (stale_status now b source) [
  | none ↦ source_entry source (lookup source b.statuses) (active_alerts now b source)
  | some e ↦ stale_entry now source e
]

round-sources :
    (now : ℕ) (b : Batch) (source : String) (t : Tally)
    → (round now b source t).sources ≡ insert source (report_of now b source) t.sources
unfolding round report_of stale_round live_round
round-sources now b source t = elim (Option-cases (stale_status now b source)) [
  | inl e ↦ rw (e, round, report_of)
  | inr (s, e) ↦ rw (e, round, report_of)
]

abbrev pub named : String → List String → Bool
named source = any (λ x. str_eq x source)

collate-lookup :
    (now : ℕ) (b : Batch) (sources : List String) (t : Tally) (source : String)
    → lookup source (collate now b sources t).sources
      ≡ (if named source sources then some (report_of now b source) else lookup source t.sources)
unfolding collate
collate-lookup now b [] t source = refl
collate-lookup now b (x ∷ rest) t source = collate-lookup now b rest (round now b x t) source ∙ step
  where
    step :
        (if named source rest
          then some (report_of now b source)
          else lookup source (round now b x t).sources)
        ≡ (if str_eq x source || named source rest
            then some (report_of now b source)
            else lookup source t.sources)
    step =
        rw (round-sources now b x t, lookup-insert)
          (ground (arith, eq_iff x source, ap (report_of now b)))

-- An alert of the list that is neither suppressed nor expected by a pattern.
abbrev pub Surfaces : ℕ → Batch → String → Alert → Type 0
Surfaces now b source a =
    (is_suppressed now a (list_of source b.suppressions ++ list_of "" b.suppressions) ≡ false)
    × (matches_pattern now a (list_of source b.patterns ++ list_of "" b.patterns) ≡ false)

abbrev surfaces : ℕ → Batch → String → Alert → Bool
surfaces now b source a =
    not (is_suppressed now a (list_of source b.suppressions ++ list_of "" b.suppressions))
    && not (matches_pattern now a (list_of source b.patterns ++ list_of "" b.patterns))

surfaces_iff :
    (now : ℕ) (b : Batch) (source : String) (a : Alert)
    → (surfaces now b source a ≡ true) ↔ Surfaces now b source a
surfaces_iff now b source a = (λ h. (ground arith, ground arith), λ h. ground (arith, h.0, h.1))

active_alerts-keep :
    (now : ℕ) (b : Batch) (source : String)
    → active_alerts now b source ≡ keep (surfaces now b source) (list_of source b.alerts)
unfolding active_alerts
active_alerts-keep now b source = keep-keep _ _ (list_of source b.alerts)

critical-active :
    (now : ℕ) (b : Batch) (source : String)
    → Any (λ a. a.payload.level ≡ some "critical") (active_alerts now b source)
      ↔ Any
          (λ a. (a.payload.level ≡ some "critical") × Surfaces now b source a)
          (list_of source b.alerts)
critical-active now b source = rw active_alerts-keep (
  λ h. Any-map (λ a e. (e.0, (surfaces_iff now b source a).0 e.1)) (Any-keep _ _ h),
  λ h. keep-Any _ (Any-map (λ a e. (e.0, (surfaces_iff now b source a).1 e.1)) h),
)

quiet-active :
    (now : ℕ) (b : Batch) (source : String)
    → (active_alerts now b source ≡ [])
      ↔ All (λ a. ¬ Surfaces now b source a) (list_of source b.alerts)
quiet-active now b source = rw active_alerts-keep (
  λ h. All-map _ (λ a e v. cc (e, (surfaces_iff now b source a).1 v)) ((keep-eq-nil_iff _ _).0 h),
  λ h.
      (keep-eq-nil_iff _ _).1
        (All-map _ (λ a v. not_true (λ e. v ((surfaces_iff now b source a).0 e))) h),
)
  where
    not_true : {c : Bool} → ¬ (c ≡ true) → c ≡ false
    not_true {c} h = ground arith

critical_level : (a : Alert) → is_critical a ≡ true → a.payload.level ≡ some "critical"
critical_level a h = elim (Option-cases a.payload.level) [
  | inl e ↦ cc (rw e at h)
  | inr (l, e) ↦ e ∙ ap some ((eq_iff l "critical").0 (rw e at h))
]

level_critical : (a : Alert) → a.payload.level ≡ some "critical" → is_critical a ≡ true
level_critical a h = rw h

status_of-critical :
    (as' : List Alert)
    → (status_of as' ≡ critical) ↔ Any (λ a. a.payload.level ≡ some "critical") as'
unfolding status_of
status_of-critical [] = (λ h. cc, λ h. elim h [ ])
status_of-critical (a ∷ as') = (
  λ h. any→Any is_critical (a ∷ as') critical_level (ground arith),
  λ h. rw (Any→any is_critical {xs = a ∷ as'} level_critical h),
)

status_of-ok : (as' : List Alert) → (status_of as' ≡ ok) ↔ (as' ≡ [])
unfolding status_of
status_of-ok [] = (λ h. refl, λ h. refl)
status_of-ok (a ∷ as') = (λ h. ground arith, λ h. cc)

source_entry-status :
    (source : String) (status : Option (Entry StatusData)) (as' : List Alert)
    → (source_entry source status as').source_status ≡ status_of as'
unfolding source_entry
source_entry-status source status [] = refl
source_entry-status source status (a ∷ as') = refl

status_of-live : (as' : List Alert) → status_of as' ≢ stale
unfolding status_of
status_of-live [] = λ h. cc
status_of-live (a ∷ as') = λ h. ground arith

-- What the briefing's entry of a source says, in terms of the source's last report and alerts.
pub record Tells (now : ℕ) (b : Batch) (source : String) (e : SourceEntry) : Type 0 where
  pub of_stale :
      (e.source_status ≡ stale)
      ↔ ((r : Entry StatusData) × (lookup source b.statuses ≡ some r) × (is_stale now r ≡ true))
  pub of_critical : (e.source_status ≡ critical) ↔ (
      (e.source_status ≢ stale)
      × Any
          (λ a. (a.payload.level ≡ some "critical") × Surfaces now b source a)
          (list_of source b.alerts))
  pub of_ok :
      (e.source_status ≡ ok)
      ↔ ((e.source_status ≢ stale) × All (λ a. ¬ Surfaces now b source a) (list_of source b.alerts))

stale_status-some :
    (now : ℕ) (b : Batch) (source : String) (r : Entry StatusData)
    → stale_status now b source ≡ some r
    → (lookup source b.statuses ≡ some r) × (is_stale now r ≡ true)
stale_status-some now b source r h = elim (Option-cases (lookup source b.statuses)) [
  | inl e ↦ ground arith
  | inr (x, e) ↦ elim (Bool-cases (is_stale now x)) [
    | inl old ↦
        let same : x ≡ r = ground arith in
        (e ∙ ap some same, subst (λ y. is_stale now y ≡ true) same old)
    | inr new ↦ ground arith
  ]
]

stale_status-none :
    (now : ℕ) (b : Batch) (source : String) (r : Entry StatusData)
    → stale_status now b source ≡ none
    → lookup source b.statuses ≡ some r
    → is_stale now r ≢ true
stale_status-none now b source r h e old = ground arith

report_of-live :
    (now : ℕ) (b : Batch) (source : String)
    → stale_status now b source ≡ none
    → report_of now b source
      ≡ source_entry source (lookup source b.statuses) (active_alerts now b source)
unfolding report_of
report_of-live now b source h = rw (h, report_of)

report_of-stale :
    (now : ℕ) (b : Batch) (source : String) (r : Entry StatusData)
    → stale_status now b source ≡ some r
    → report_of now b source ≡ stale_entry now source r
unfolding report_of
report_of-stale now b source r h = rw (h, report_of)

stale-Tells :
    (now : ℕ) (b : Batch) (source : String) (r : Entry StatusData)
    → stale_status now b source ≡ some r
    → Tells now b source (stale_entry now source r)
unfolding stale_entry
stale-Tells now b source r h = record {
  of_stale = (λ e. let (a, c) = stale_status-some now b source r h in (r, a, c), λ w. refl);
  of_critical = (λ e. cc, λ w. absurd (w.0 refl));
  of_ok = (λ e. cc, λ w. absurd (w.0 refl));
}

live-Tells :
    (now : ℕ) (b : Batch) (source : String)
    → stale_status now b source ≡ none
    → Tells now b source
        (source_entry source (lookup source b.statuses) (active_alerts now b source))
live-Tells now b source h = rw source_entry-status (record {
  of_stale = (
    λ e. absurd (status_of-live _ e),
    λ w. let (r, a, c) = w in absurd (stale_status-none now b source r h a c),
  );
  of_critical = (
    λ e. (status_of-live _, (critical-active now b source).0 ((status_of-critical _).0 e)),
    λ w. (status_of-critical _).1 ((critical-active now b source).1 w.1),
  );
  of_ok = (
    λ e. (status_of-live _, (quiet-active now b source).0 ((status_of-ok _).0 e)),
    λ w. (status_of-ok _).1 ((quiet-active now b source).1 w.1),
  );
})

report_of-Tells :
    (now : ℕ) (b : Batch) (source : String) → Tells now b source (report_of now b source)
report_of-Tells now b source = elim (Option-cases (stale_status now b source)) [
  | inl e ↦ rw (report_of-live now b source e) (live-Tells now b source e)
  | inr (r, e) ↦ rw (report_of-stale now b source r e) (stale-Tells now b source r e)
]

-- Every source that the store names has an entry in the briefing. It is stale exactly if the
-- source's status entry has outlived its TTL; of the others it is critical exactly if one of the
-- source's critical alerts is neither suppressed nor expected by a pattern, and ok exactly if all
-- its alerts are one or the other.
pub briefing_per_source :
    {S : Type 0} (store : BriefingStore S) (now : ℕ) (s : S) (owner source : String)
    → named source (store.get_sources s owner) ≡ true
    → (e : SourceEntry) × (lookup source (generate_briefing store now s owner).1.briefing.sources
        ≡ some e)
      × Tells now (fetch store now s owner) source e
unfolding generate_briefing
briefing_per_source store now s owner source h = (
  report_of now (fetch store now s owner) source,
  collate-lookup now (fetch store now s owner) (store.get_sources s owner) start source ∙ (rw h),
  report_of-Tells now (fetch store now s owner) source,
)
