-- ===== src/Collator/Briefing/Interface.antt =====
-- The operations of the store that src/mcp_awareness/collator.py calls, as an interface over the
-- type of the store's states, and what it relies on of the intentions' states.
use mcp_awareness.Base.{
  ℕ, ◌≡◌, ◌↔◌, String, List, false, Option, none, some, str_eq, if◌then◌else◌, All, Any,
}
use mcp_awareness.Base.Dict.{Dict}
use mcp_awareness.Schema.{Entry, StatusData}
use mcp_awareness.Collator.Suppression.{Alert, Suppression}
use mcp_awareness.Collator.Patterns.{Pattern}

-- The keys of an intention's data that the collator reads.
pub record IntentionData : Type 0 where
  pub goal : Option String
  pub description : Option String
  pub urgency : Option String
  pub state : Option String

abbrev pub Intention : Type 0
Intention = Entry IntentionData

-- The owner is an argument of each operation, and the clock's reading of those that compare it.
pub record BriefingStore (S : Type 0) : Type 0 where
  pub get_all_statuses : S → String → Dict (Entry StatusData)
  pub get_all_active_alerts : ℕ → S → String → Dict (List Alert)
  pub get_all_active_suppressions : ℕ → S → String → Dict (List Suppression)
  pub get_all_patterns : S → String → Dict (List Pattern)
  pub get_sources : S → String → List String
  pub count_active_suppressions : ℕ → S → String → ℕ
  pub get_fired_intentions : ℕ → S → String → List Intention
  pub get_intentions : S → String → String → List Intention
  pub update_intention_state : ℕ → S → String → String → String → Option String → S

-- the entries with an identifier
abbrev pub Lists : List Intention → String → Type 0
Lists es i = Any (λ e. e.id ≡ i) es

-- What the briefing relies on, where `state_of` is what the store's states say of the intentions: an
-- update sets the state of the intention it names, the listing by a state lists exactly those in
-- the state, and only pending intentions come due.
pub record BriefingStoreLaws {S : Type 0} (store : BriefingStore S)
    (state_of : S → String → String → Option String) : Type 0 where
  pub state_of-update :
      (now : ℕ) (s : S) (owner i state : String) (reason : Option String) (j : String)
      → state_of (store.update_intention_state now s owner i state reason) owner j ≡ (
          if str_eq i j
          then (elim (state_of s owner j) [ none ↦ none | some _ ↦ some state ])
          else state_of s owner j)
  pub get_intentions_iff :
      (s : S) (owner state i : String)
      → str_eq state "" ≡ false
      → Lists (store.get_intentions s owner state) i ↔ (state_of s owner i ≡ some state)
  pub due_pending :
      (now : ℕ) (s : S) (owner : String)
      → All (λ e. state_of s owner e.id ≡ some "pending") (store.get_fired_intentions now s owner)
