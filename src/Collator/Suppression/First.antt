-- ===== src/Collator/Suppression/First.antt =====
-- Which suppression decides about an alert, and when a suppression applies.
use mcp_awareness.Base.{
  ℕ, ◌<◌, ◌≡◌, ◌≢◌, refl, ◌↔◌, ◌⊎◌, inl, inr, true, false, String, List, [], ◌∷◌, Option, none,
  some, arith, str_eq, eq_iff, All, Bool-cases, not, ◌&&◌, Bool, or_else, leb, ◌∙◌,
}
use mcp_awareness.Base.Int.{ltb_ℤ}
use mcp_awareness.Schema.{severity_rank, is_expired}
use mcp_awareness.Base.Text.{is_truthy}
use mcp_awareness.Collator.Suppression.{
  Alert, Suppression, optional_eq, suppression_tags_match, has_tags, applies, escalated,
  is_suppressed,
}

-- What the docstring of `is_suppressed` asks of a suppression that matches.
pub record Applies (now : ℕ) (alert : Alert) (s : Suppression) : Type 0 where
  pub live : (s.expires ≡ none) ⊎ ((t : ℕ) × (s.expires ≡ some t) × (now < t))
  pub of_source : (s.source ≡ "") ⊎ (s.source ≡ alert.source)
  pub of_metric :
      (s.payload.metric ≡ none)
      ⊎ (s.payload.metric ≡ some "")
      ⊎ (s.payload.metric ≡ alert.payload.metric)
  pub of_tags : (s.tags ≡ []) ⊎ (suppression_tags_match s.tags alert ≡ true)

live_iff :
    (now : ℕ) (o : Option ℕ)
    → (not (elim o [ none ↦ false | some t ↦ leb t now ]) ≡ true)
      ↔ ((o ≡ none) ⊎ ((t : ℕ) × (o ≡ some t) × (now < t)))
live_iff now none = (λ h. inl refl, λ h. refl)
live_iff now (some t) = (λ h. inr (t, refl, ground arith), λ h. ground arith)

source_iff :
    (s a : String) → (not (not (str_eq s "") && not (str_eq s a)) ≡ true) ↔ ((s ≡ "") ⊎ (s ≡ a))
source_iff s a =
    (λ h. ground (arith, eq_iff s "", eq_iff s a), λ h. ground (arith, eq_iff s "", eq_iff s a))

metric_iff :
    (m a : Option String)
    → (not (is_truthy m && not (optional_eq m a)) ≡ true) ↔ ((m ≡ none) ⊎ (m ≡ some "") ⊎ (m ≡ a))
metric_iff none a = (λ h. inl refl, λ h. refl)
metric_iff (some m) none = (λ h. ground (arith, eq_iff m ""), λ h. ground (arith, eq_iff m ""))
metric_iff (some m) (some a) =
    (λ h. ground (arith, eq_iff m "", eq_iff m a), λ h. ground (arith, eq_iff m "", eq_iff m a))

tags_iff :
    (ts : List String) (b : Bool) → (not (has_tags ts && not b) ≡ true) ↔ ((ts ≡ []) ⊎ (b ≡ true))
tags_iff [] b = (λ h. inl refl, λ h. refl)
tags_iff (t ∷ ts) b = (λ h. inr (ground arith), λ h. ground arith)

four_iff :
    (a b c d : Bool)
    → (a && b && c && d ≡ true) ↔ ((a ≡ true) × (b ≡ true) × (c ≡ true) × (d ≡ true))
four_iff a b c d = (λ h. ground arith, λ h. ground arith)

-- The guards of the loop are the documented conditions.
applies_iff :
    (now : ℕ) (alert : Alert) (s : Suppression) → (applies now alert s ≡ true) ↔ Applies now alert s
unfolding applies is_expired
applies_iff now alert s = (
  λ h.
      let (a, b, c, d) = (four_iff _ _ _ _).0 h in
      record {
        live = (live_iff now s.expires).0 a;
        of_source = (source_iff s.source alert.source).0 b;
        of_metric = (metric_iff s.payload.metric alert.payload.metric).0 c;
        of_tags = (tags_iff s.tags _).0 d;
      },
  λ v. (four_iff _ _ _ _).1 (
    (live_iff now s.expires).1 v.live,
    (source_iff s.source alert.source).1 v.of_source,
    (metric_iff s.payload.metric alert.payload.metric).1 v.of_metric,
    (tags_iff s.tags _).1 v.of_tags,
  ),
)

-- `Decides now alert ss s`: s is the first of ss that applies to the alert.
pub data Decides (now : ℕ) (alert : Alert) : List Suppression → Suppression → Type 0 where
  here :
      {s : Suppression} {ss : List Suppression} → Applies now alert s → Decides now alert (s ∷ ss) s
  there :
      {s t : Suppression} {ss : List Suppression}
      → ¬ Applies now alert t
      → Decides now alert ss s
      → Decides now alert (t ∷ ss) s

deciding :
    (now : ℕ) (alert : Alert) (ss : List Suppression)
    → is_suppressed now alert ss ≡ true
    → (s : Suppression) × Decides now alert ss s × (escalated alert s ≡ false)
unfolding is_suppressed
deciding now alert [] h = absurd (ground arith)
deciding now alert (s ∷ ss) h = elim (Bool-cases (applies now alert s)) [
  | inl hit ↦ (s, here ((applies_iff now alert s).0 hit), ground arith)
  | inr miss ↦
      let (t, d, e) = deciding now alert ss (rw miss at h) in
      (t, there (λ v. cc (miss, (applies_iff now alert s).1 v)) d, e)
]

suppressed_of :
    (now : ℕ) (alert : Alert) {ss : List Suppression} {s : Suppression}
    → Decides now alert ss s
    → is_suppressed now alert ss ≡ not (escalated alert s)
unfolding is_suppressed
suppressed_of now alert (here {s = s} v) = rw ((applies_iff now alert s).1 v)
suppressed_of now alert (there {t = t} skip d) = elim (Bool-cases (applies now alert t)) [
  | inl hit ↦ absurd (skip ((applies_iff now alert t).0 hit))
  | inr miss ↦ rw miss (suppressed_of now alert d)
]

-- An alert is suppressed exactly if some suppression applies to it and the first that does is not
-- overridden by the alert's level.
pub is_suppressed_iff :
    (now : ℕ) (alert : Alert) (ss : List Suppression)
    → (is_suppressed now alert ss ≡ true)
      ↔ ((s : Suppression) × Decides now alert ss s × (escalated alert s ≡ false))
is_suppressed_iff now alert ss =
    (deciding now alert ss, λ w. let (s, d, e) = w in suppressed_of now alert d ∙ (rw e))

-- A suppression that still escalates: its override is on and its level is below critical.
pub record LetsCriticalThrough (s : Suppression) : Type 0 where
  pub override : s.payload.escalation_override ≢ some false
  pub level : s.payload.suppress_level ≢ some "critical"

override_on : (o : Option Bool) → o ≢ some false → or_else o true ≡ true
override_on none h = refl
override_on (some b) h = ground arith

below_critical :
    (o : Option String)
    → o ≢ some "critical"
    → ltb_ℤ (severity_rank (or_else o "warning")) (severity_rank "critical") ≡ true
unfolding severity_rank
below_critical none h = refl
below_critical (some l) h = ground (arith, eq_iff l "critical")

escalated_critical :
    (alert : Alert) (s : Suppression)
    → alert.payload.level ≡ some "critical"
    → LetsCriticalThrough s
    → escalated alert s ≡ true
unfolding escalated
escalated_critical alert s h v = rw (
  h,
  override_on s.payload.escalation_override v.override,
  below_critical s.payload.suppress_level v.level,
)

-- A critical alert breaks through every suppression whose override is on and whose level is
-- below critical, however many apply.
critical_breaks_through :
    (now : ℕ) (alert : Alert) (ss : List Suppression)
    → alert.payload.level ≡ some "critical"
    → All LetsCriticalThrough ss
    → is_suppressed now alert ss ≡ false
unfolding is_suppressed
critical_breaks_through now alert [] h vs = refl
critical_breaks_through now alert (s ∷ ss) h vs =
    ground (arith, escalated_critical alert s h vs.0, critical_breaks_through now alert ss h vs.1)

metric_idle :
    (now : ℕ) (alert : Alert) (s : Suppression)
    → alert.payload.metric ≡ none
    → is_truthy s.payload.metric ≡ true
    → ¬ Applies now alert s
metric_idle now alert s h named v = ground (arith, v.of_metric)

-- Suppressions that name a metric never suppress an alert whose data has none, as the data that
-- `report_alert` writes.
metric_suppressions_idle :
    (now : ℕ) (alert : Alert) (ss : List Suppression)
    → alert.payload.metric ≡ none
    → All (λ s. is_truthy s.payload.metric ≡ true) ss
    → is_suppressed now alert ss ≡ false
unfolding is_suppressed
metric_suppressions_idle now alert [] h vs = refl
metric_suppressions_idle now alert (s ∷ ss) h vs = elim (Bool-cases (applies now alert s)) [
  | inl hit ↦ absurd (metric_idle now alert s h vs.0 ((applies_iff now alert s).0 hit))
  | inr miss ↦ rw miss (metric_suppressions_idle now alert ss h vs.1)
]

-- The order of the suppressions matters: of two that apply, one overridden by the alert's level
-- and one not, the first decides.
order_decides :
    (now : ℕ) (alert : Alert) (s t : Suppression)
    → Applies now alert s
    → Applies now alert t
    → escalated alert s ≡ true
    → escalated alert t ≡ false
    → (is_suppressed now alert (s ∷ t ∷ []) ≡ false) × (is_suppressed now alert (t ∷ s ∷ []) ≡ true)
order_decides now alert s t a b up down =
    (suppressed_of now alert (here a) ∙ (rw up), suppressed_of now alert (here b) ∙ (rw down))
