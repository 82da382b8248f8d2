-- ===== src/Collator/Briefing/Counts.antt =====
-- The counters of the briefing, its statuses and its attention flag.
use mcp_awareness.Base.{
  ℕ, ◌+◌, ◌≤◌, ◌<◌, ◌≡◌, refl, ◌↔◌, inl, inr, true, false, String, List, [], ◌∷◌, arith, length,
  length-keep-le, ◌||◌, Option-cases,
}
use mcp_awareness.Schema.{Entry, StatusData}
use mcp_awareness.Collator.Briefing.Sources.{
  Batch, Tally, start, list_of, unsuppressed, active_alerts, stale_status, stale_round, live_round,
  round, collate, has_any,
}
use mcp_awareness.Collator.Briefing.Interface.{BriefingStore}
use mcp_awareness.Collator.Briefing.Generate.{generate_briefing, assemble, deliver, fetch}

-- What holds of the counters after any number of rounds.
pub record Balanced (t : Tally) : Type 0 where
  pub accounts : t.alerts_checked ≡ t.suppressed + t.pattern_matched + t.active_alerts
  pub quiet : t.attention_needed ≡ false → (t.active_alerts ≡ 0) × (t.stale_sources ≡ 0)
  pub loud : t.attention_needed ≡ true → 0 < t.active_alerts + t.stale_sources

unsuppressed-le :
    (now : ℕ) (b : Batch) (source : String)
    → length (unsuppressed now b source) ≤ length (list_of source b.alerts)
unfolding unsuppressed
unsuppressed-le now b source = length-keep-le _ (list_of source b.alerts)

active_alerts-le :
    (now : ℕ) (b : Batch) (source : String)
    → length (active_alerts now b source) ≤ length (unsuppressed now b source)
unfolding active_alerts
active_alerts-le now b source = length-keep-le _ (unsuppressed now b source)

has_any_lem : {A : Type 0} (xs : List A) → (has_any xs ≡ false) ↔ (length xs ≡ 0)
has_any_lem [] = (λ h. refl, λ h. refl)
has_any_lem (x ∷ xs) = (λ h. ground arith, λ h. ground arith)

live_round-Balanced :
    (now : ℕ) (b : Batch) (source : String) (t : Tally)
    → Balanced t
    → Balanced (live_round now b source t)
unfolding live_round
live_round-Balanced now b source t v = record {
  accounts = omega (arith, v.accounts, unsuppressed-le now b source, active_alerts-le now b source);
  quiet = λ h. ground (arith, v.quiet, has_any_lem (active_alerts now b source));
  loud = λ h. ground (arith, v.loud, has_any_lem (active_alerts now b source));
}

stale_round-Balanced :
    (now : ℕ) (source : String) (e : Entry StatusData) (t : Tally)
    → Balanced t
    → Balanced (stale_round now source e t)
unfolding stale_round
stale_round-Balanced now source e t v = record {
  accounts = v.accounts;
  quiet = λ h. cc;
  loud = λ h. omega arith;
}

round-Balanced :
    (now : ℕ) (b : Batch) (source : String) (t : Tally)
    → Balanced t
    → Balanced (round now b source t)
unfolding round
round-Balanced now b source t v = elim (Option-cases (stale_status now b source)) [
  | inl e ↦ rw (e, round) (live_round-Balanced now b source t v)
  | inr (s, e) ↦ rw (e, round) (stale_round-Balanced now source s t v)
]

collate-Balanced :
    (now : ℕ) (b : Batch) (sources : List String) (t : Tally)
    → Balanced t
    → Balanced (collate now b sources t)
unfolding collate
collate-Balanced now b [] t v = v
collate-Balanced now b (source ∷ rest) t v =
    collate-Balanced now b rest (round now b source t) (round-Balanced now b source t v)

start-Balanced : Balanced start
start-Balanced = record { accounts = omega arith; quiet = λ h. (refl, refl); loud = λ h. cc }

attention_iff :
    {A : Type 0} (t : Tally) (xs : List A)
    → Balanced t
    → (t.attention_needed || has_any xs ≡ true)
      ↔ (0 < t.active_alerts + t.stale_sources + length xs)
attention_iff t xs v = (
  λ h. ground (arith, v.quiet, v.loud, has_any_lem xs),
  λ h. ground (arith, v.quiet, v.loud, has_any_lem xs),
)

-- In every briefing each alert that was checked is counted once: as suppressed, as expected by a
-- pattern or as surfaced. It asks for attention exactly if an alert surfaced, a source is stale
-- or an intention is in the fired state.
pub briefing_accounts :
    {S : Type 0} (store : BriefingStore S) (now : ℕ) (s : S) (owner : String)
    → let b = (generate_briefing store now s owner).1.briefing in
      (b.evaluation.alerts_checked
        ≡ b.evaluation.suppressed + b.evaluation.pattern_matched + b.evaluation.surfaced)
      × (b.active_alerts ≡ b.evaluation.surfaced)
      × ((b.attention_needed ≡ true) ↔ (
          0 < b.evaluation.surfaced + b.evaluation.stale_sources + b.evaluation.intentions_fired))
unfolding generate_briefing assemble deliver
briefing_accounts store now s owner = (v.accounts, refl, attention_iff _ _ v)
  where
    v : Balanced (collate now (fetch store now s owner) (store.get_sources s owner) start)
    v = collate-Balanced now _ (store.get_sources s owner) start start-Balanced
