-- ===== src/Collator/Summary.antt =====
-- The briefing's data, `compose_summary` and `compose_mention` of src/mcp_awareness/collator.py.
use Prim.Native.String.{◌++◌ as join2}
use mcp_awareness.Base.{
  ℕ, Bool, true, false, not, String, List, [], ◌∷◌, ◌++◌, Option, none, some, ◌==◌, str_eq,
  if◌then◌else◌, length, map, keep,
}
use mcp_awareness.Base.Dict.{Dict}
use mcp_awareness.Base.Decimal.{decimal, join, concat}

pub data SourceStatus : Type 0 where
  ok warning critical stale : SourceStatus

-- one value of `briefing["sources"]`; a key that is missing or None is `none`
pub record SourceEntry : Type 0 where
  pub source_status : SourceStatus
  pub last_report : Option ℕ
  pub headline : Option String
  pub drill_down : Option String

pub record FiredIntention : Type 0 where
  pub id : String
  pub goal : String
  pub source : String
  pub tags : List String
  pub urgency : String
  pub updated : ℕ

pub record Evaluation : Type 0 where
  pub alerts_checked : ℕ
  pub suppressed : ℕ
  pub pattern_matched : ℕ
  pub stale_sources : ℕ
  pub surfaced : ℕ
  pub intentions_pending : ℕ
  pub intentions_fired : ℕ

-- `upcoming` is always the empty list, so it has no field; an absent `fired_intentions` is [].
pub record Briefing : Type 0 where
  pub generated : ℕ
  pub sources : Dict SourceEntry
  pub active_alerts : ℕ
  pub active_suppressions : ℕ
  pub attention_needed : Bool
  pub fired_intentions : List FiredIntention
  pub pending_intentions : ℕ
  pub evaluation : Evaluation

-- "s" if n != 1 else ""
abbrev plural : ℕ → String
plural n = if n == 1 then "" else "s"

abbrev pub has_status : SourceStatus → SourceStatus → Bool
has_status ok ok = true
has_status warning warning = true
has_status critical critical = true
has_status stale stale = true
has_status _ _ = false

-- the names of the sources with a status
unfoldable pub sources_with : SourceStatus → Dict SourceEntry → List String
sources_with st sources = map (λ e. e.0) (keep (λ e. has_status st e.1.source_status) sources)

abbrev is_none {ℓ} : {A : Type ℓ} → List A → Bool
is_none [] = true
is_none (x ∷ xs) = false

-- one element of `parts`, if there is anything to say
abbrev part {ℓ} : {A : Type ℓ} → List A → String → List String
part xs s = if is_none xs then [] else s ∷ []

unfoldable pub summary_parts : Briefing → List String
unfolding sources_with join decimal
summary_parts b =
    part criticals
      (concat (decimal (length criticals) ∷ " critical on " ∷ join ", " criticals ∷ []))
    ++ (part warnings
          (concat (decimal (length warnings) ∷ " warning on " ∷ join ", " warnings ∷ []))
        ++ (part stales (concat (join ", " stales ∷ " stale" ∷ []))
            ++ part b.fired_intentions
                (concat (decimal total ∷ " intention" ∷ plural total ∷ " ready" ∷ []))))
  where
    criticals : List String
    criticals = sources_with critical b.sources

    warnings : List String
    warnings = sources_with warning b.sources

    stales : List String
    stales = sources_with stale b.sources

    total : ℕ
    total = b.evaluation.intentions_fired

-- The last case reads `total` as the loop left it; where no part was added, it is the number of
-- the sources.
unfoldable pub compose_summary : Briefing → String
unfolding summary_parts
compose_summary b =
    if not b.attention_needed
    then concat ("All clear across " ∷ decimal total ∷ " source" ∷ plural total ∷ "." ∷ [])
    else if is_none (summary_parts b)
    then concat ("All clear across " ∷ decimal total ∷ " sources." ∷ [])
    else join2 (join ". " (summary_parts b)) "."
  where
    total : ℕ
    total = length b.sources

headline_part : SourceStatus → String → String
headline_part critical h = join2 "CRITICAL: " h
headline_part stale h = join2 "STALE: " h
headline_part _ h = join2 "FYI: " h

source_mention : SourceEntry → List String
unfolding headline_part
source_mention e = elim e.headline [
  | none ↦ []
  | some h ↦ if str_eq h "" then [] else headline_part e.source_status h ∷ []
]

intention_mention : FiredIntention → List String
intention_mention i = if str_eq i.goal "" then [] else join2 "INTENTION: " i.goal ∷ []

abbrev gather {ℓ} : {A : Type ℓ} → (A → List String) → List A → List String
gather f [] = []
gather f (x ∷ xs) = f x ++ gather f xs

unfoldable pub compose_mention : Briefing → String
unfolding source_mention intention_mention join
compose_mention b =
    join " "
      (gather (λ e. source_mention e.1) b.sources ++ gather intention_mention b.fired_intentions)
