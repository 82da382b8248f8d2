-- ===== src/Collator/Patterns/Hours.antt =====
-- The hour ranges and the weekdays of a pattern.
use mcp_awareness.Base.{
  ℕ, ◌+◌, ◌<◌, ◌%◌, ◌≡◌, refl, ◌↔◌, ◌≢◌, ◌-◌, true, false, String, List, [], ◌∷◌, arith,
}
use mcp_awareness.Base.Int.{ℤ, pos}
use mcp_awareness.Base.Dict.{Dict}
use mcp_awareness.Schema.{weekday, hour}
use mcp_awareness.Collator.Suppression.{Alert}
use mcp_awareness.Collator.Patterns.{
  ConditionValue, Pattern, numbers, text, hour_in_range, hour_matches, day_matches, condition_holds,
  conditions_match, matches_pattern,
}

-- The hours from `from` on, round the clock, for (to - from) mod 24 hours.
abbrev pub WithinHours : ℕ → ℕ → ℕ → Type 0
WithinHours from to h = (h + 24 - from) % 24 < (to + 24 - from) % 24

-- For two different hours of the day the test is membership in the cyclic interval that starts
-- with the first and ends before the second, so that it may cross midnight.
hour_in_range_iff :
    (from to h : ℕ)
    → from < 24
    → to < 24
    → h < 24
    → from ≢ to
    → (hour_in_range (pos from) (pos to) h ≡ true) ↔ WithinHours from to h
unfolding hour_in_range
hour_in_range_iff from to h f t k d = (λ e. ground arith, λ e. ground arith)

-- A range that ends where it starts holds at no hour.
hour_in_range_empty : (n : ℤ) (h : ℕ) → hour_in_range n n h ≡ false
unfolding hour_in_range
hour_in_range_empty n h = ground arith

weekday-add_week : (now : ℕ) → weekday (now + 604800000000) ≡ weekday now
unfolding weekday
weekday-add_week now = omega arith

hour-add_week : (now : ℕ) → hour (now + 604800000000) ≡ hour now
unfolding hour
hour-add_week now = omega arith

condition_holds-add_week :
    (now : ℕ) (c : String × ConditionValue)
    → condition_holds (now + 604800000000) c ≡ condition_holds now c
unfolding condition_holds day_matches hour_matches
condition_holds-add_week now (key, text s) = rw weekday-add_week
condition_holds-add_week now (key, numbers (from ∷ to ∷ [])) = rw hour-add_week
condition_holds-add_week now (key, _) = ground arith

conditions_match-add_week :
    (now : ℕ) (conditions : Dict ConditionValue)
    → conditions_match (now + 604800000000) conditions ≡ conditions_match now conditions
unfolding conditions_match
conditions_match-add_week now [] = refl
conditions_match-add_week now (c ∷ cs) =
    rw (condition_holds-add_week, conditions_match-add_week now cs)

-- What a pattern expects recurs every week: an alert that matches it now matches it at the same
-- weekday and hour of any other week, and no condition depends on the date.
pub matches_pattern-add_week :
    (now : ℕ) (alert : Alert) (patterns : List Pattern)
    → matches_pattern (now + 604800000000) alert patterns ≡ matches_pattern now alert patterns
unfolding matches_pattern
matches_pattern-add_week now alert [] = refl
matches_pattern-add_week now alert (p ∷ ps) =
    rw (conditions_match-add_week, matches_pattern-add_week now alert ps)
