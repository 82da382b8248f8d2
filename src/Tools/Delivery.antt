-- ===== src/Tools/Delivery.antt =====
-- From a reminder to the briefing that delivers it.
use mcp_awareness.Base.{
  ℕ, ◌≡◌, refl, ◌∙◌, sym, ap, Bool-cases, inl, inr, true, false, ◌&&◌, ◌||◌, String, List, [], ◌∷◌,
  Option, none, some, arith, str_eq, leb, eq_refl, any, is_some,
}
use mcp_awareness.Base.Json.{text}
use mcp_awareness.Base.Dict.{lookup, insert, lookup-insert}
use mcp_awareness.Schema.{EntryType, last_change}
use mcp_awareness.Schema.Dicts.{type_name}
use mcp_awareness.Helpers.Suggest.{Checked, validate_enum}
use mcp_awareness.Collator.Briefing.Generate.{generate_briefing}
use mcp_awareness.Collator.Briefing.Fired.{briefing_fires}
use mcp_awareness.Language.{compose_detection_text}
use mcp_awareness.Store.{
  Stored, Table, StoreEnv, text_at, equals, same_type, visible, query_entries,
}
use mcp_awareness.Store.Writes.{add, insert_entry, key_taken, with_regconfig, entry_row, written}
use mcp_awareness.Store.Rows.{Keyed, passes, any-order_by, any-select}
use mcp_awareness.Intentions.{get_fired_intentions, is_due}
use mcp_awareness.Intentions.Listings.{listed_iff}
use mcp_awareness.Intentions.States.{
  Entries, postgres_store, intention_state, postgres_store-BriefingStoreLaws,
}
use mcp_awareness.Tools.{ToolEnv, Answer, opt_text, written_entry, language_of}
use mcp_awareness.Tools.Reminders.{remind, remind_at, reminded, validate_timestamp, urgencies}

-- the entry of a reminder for an instant, as it is stored
abbrev reminder :
    ToolEnv
    → ℕ
    → String
    → String
    → String
    → List String
    → ℕ
    → Option String
    → String
    → Option String
    → String
    → Option String
    → Stored
reminder env now new_id goal source tags at constraints urgency recurrence learned_from language =
    with_regconfig env.store (
      written_entry new_id now EntryType.intention source tags
        (language_of env language (compose_detection_text "intention" (("goal", text goal) ∷ [])))
        (("goal", text goal)
          ∷ ("state", text "pending")
          ∷ ("deliver_at", text (env.store.to_iso at))
          ∷ ("constraints", opt_text constraints)
          ∷ ("urgency", text urgency)
          ∷ ("recurrence", opt_text recurrence)
          ∷ ("learned_from", text learned_from)
          ∷ []))

-- an insert that succeeds stores the row
pub insert_entry-some :
    (env : StoreEnv) (owner : String) (e : Stored) (t t' : Table)
    → insert_entry env owner e t ≡ some t'
    → lookup e.id t' ≡ some (entry_row owner (with_regconfig env e))
unfolding insert_entry
insert_entry-some env owner e t t' h =
    elim (Bool-cases (is_some (lookup e.id t) || key_taken owner e.source e.logical_key t)) [
      | inl taken ↦ absurd (ground (arith, rw (insert_entry, taken) at h))
      | inr free ↦
          let same : insert e.id (entry_row owner (with_regconfig env e)) t ≡ t' =
            ground (arith, rw (insert_entry, free) at h) in
          ap (lookup e.id) (sym same)
          ∙ lookup-insert e.id e.id (entry_row owner (with_regconfig env e)) t
          ∙ (rw (eq_refl e.id) refl)
    ]

reminded-some :
    (e : Stored) (i state : String) (t t' : Table) (o : Option Table)
    → reminded t (written e o) ≡ (Answer.done_as i state, t')
    → o ≡ some t'
reminded-some e i state t t' none h = cc
reminded-some e i state t t' (some u) h = cc

checked-done :
    (i state : String) (t t' : Table) (answer : Answer × Table) (c : Checked (Unit {0}))
    → (elim c [ Checked.ok u ↦ answer | Checked.raise e ↦ (Answer.refused e.error_code, t) ])
      ≡ (Answer.done_as i state, t')
    → answer ≡ (Answer.done_as i state, t')
checked-done i state t t' answer (Checked.ok u) h = h
checked-done i state t t' answer (Checked.raise e) h = cc

fired_matches :
    (env : StoreEnv) (now : ℕ) (owner i : String) (t : Table)
    → Keyed t
    → any (λ e. str_eq e.id i) (get_fired_intentions env now owner t)
      ≡ passes
          (λ row.
            visible owner row
            && (same_type row.entry.entry_type EntryType.intention
                && equals "pending" (text_at "state" row.entry.payload)
                && is_due env now row.entry.payload))
          (lookup i t)
unfolding get_fired_intentions query_entries
fired_matches env now owner i t k =
    any-order_by (λ e. str_eq e.id i) last_change _ ∙ any-select _ i t k

-- the arguments of a reminder, and the instant that its text names
module _ (env : ToolEnv) (now : ℕ) (new_id alert_id owner goal source : String) (tags : List String)
    (deliver_at : String) (at : ℕ) (constraints : Option String) (urgency : String)
    (recurrence : Option String) (learned_from : String) (language : Option String) where
  remind-at :
      (i : String) (t t' : Table)
      → remind env now new_id alert_id owner goal source tags
          (some deliver_at)
          constraints
          urgency
          recurrence
          learned_from
          language
          t
        ≡ (Answer.done_as i "pending", t')
      → remind_at env now new_id alert_id owner goal source tags
          (validate_timestamp env.store (some deliver_at))
          constraints
          urgency
          recurrence
          learned_from
          language
          t
        ≡ (Answer.done_as i "pending", t')
  unfolding remind
  remind-at i t t' h = checked-done i "pending" t t' _ (validate_enum urgency "urgency" urgencies) h

  remind_at-lookup :
      (i : String) (t t' : Table)
      → remind_at env now new_id alert_id owner goal source tags
          (some (some at))
          constraints
          urgency
          recurrence
          learned_from
          language
          t
        ≡ (Answer.done_as i "pending", t')
      → lookup new_id t'
        ≡ some (
            entry_row owner (
              reminder env now new_id goal source tags at constraints urgency recurrence
                learned_from language))
  unfolding remind_at add
  remind_at-lookup i t t' h =
      insert_entry-some env.store owner
        (written_entry new_id now EntryType.intention source tags _ _) _ t'
        (reminded-some _ i "pending" _ t' _ h)

  stamped :
      env.store.parse_time deliver_at ≡ some at
      → str_eq deliver_at "" ≡ false
      → validate_timestamp env.store (some deliver_at) ≡ some (some at)
  unfolding validate_timestamp
  stamped parsed given = rw (given, parsed) refl

  remind-lookup :
      (i : String) (t t' : Table)
      → env.store.parse_time deliver_at ≡ some at
      → remind env now new_id alert_id owner goal source tags
          (some deliver_at)
          constraints
          urgency
          recurrence
          learned_from
          language
          t
        ≡ (Answer.done_as i "pending", t')
      → lookup new_id t'
        ≡ some (
            entry_row owner (
              reminder env now new_id goal source tags at constraints urgency recurrence
                learned_from language))
  unfolding remind_at
  remind-lookup i t t' parsed h = elim (Bool-cases (str_eq deliver_at "")) [
    | inl empty ↦ absurd (not_refused (rw (unstamped empty) at (remind-at i t t' h)))
    | inr given ↦ remind_at-lookup i t t' (rw (stamped parsed given) at (remind-at i t t' h))
  ]
    where
      unstamped :
          str_eq deliver_at "" ≡ true → validate_timestamp env.store (some deliver_at) ≡ none
      unstamped empty = unfold validate_timestamp in rw empty refl

      not_refused : ¬ (
          remind_at env now new_id alert_id owner goal source tags none constraints urgency
            recurrence learned_from language t
          ≡ (Answer.done_as i "pending", t'))
      not_refused q = ground (arith, q)

  reminder_due :
      (later : ℕ)
      → ((x : ℕ) → env.store.parse_time (env.store.to_iso x) ≡ some x)
      → leb at later ≡ true
      → passes
          (λ row.
            visible owner row
            && (same_type row.entry.entry_type EntryType.intention
                && equals "pending" (text_at "state" row.entry.payload)
                && is_due env.store later row.entry.payload))
          (some (
            entry_row owner (
              reminder env now new_id goal source tags at constraints urgency recurrence
                learned_from language)))
        ≡ true
  unfolding lookup type_name
  reminder_due later parses past = rw (eq_refl owner, parses at) past

  -- Once a reminder for an instant is accepted, a briefing of the owner at that instant or later, on
  -- the entries that the reminder left, moves it to the fired state, where the texts of instants
  -- are read as those instants.
  pub remind-generate_briefing :
      (later : ℕ) (i : String) (t : Table) (s : Entries)
      → ((x : ℕ) → env.store.parse_time (env.store.to_iso x) ≡ some x)
      → env.store.parse_time deliver_at ≡ some at
      → leb at later ≡ true
      → remind env now new_id alert_id owner goal source tags
          (some deliver_at)
          constraints
          urgency
          recurrence
          learned_from
          language
          t
        ≡ (Answer.done_as i "pending", s.table)
      → intention_state (generate_briefing (postgres_store env.store) later s owner).0 owner new_id
        ≡ some "fired"
  remind-generate_briefing later i t s parses parsed past h =
      (briefing_fires (postgres_store env.store) intention_state
          (postgres_store-BriefingStoreLaws env.store) later s owner new_id).0
        ((listed_iff new_id (get_fired_intentions env.store later owner s.table)).1 (
          fired_matches env.store later owner new_id s.table s.keyed
          ∙ (rw (remind-lookup i t s.table parsed h) (reminder_due later parses past))))
