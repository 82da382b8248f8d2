-- ===== src/Intentions/Updates.antt =====
-- What `update_intention_state` (src/mcp_awareness/postgres_store.py) leaves of the states in the table.
use mcp_awareness.Base.{
  ℕ, ◌≡◌, refl, inl, inr, Bool-cases, true, false, String, Option, none, some, arith, str_eq,
  eq_iff, if◌then◌else◌, if-cases, elim-cases, Option-cases,
}
use mathlib.Core.Path.{subst}
use mcp_awareness.Base.Dict.{lookup-insert}
use mcp_awareness.Base.Dict.Keys.{adjust, lookup-adjust}
use mcp_awareness.Schema.{EntryType}
use mcp_awareness.Store.{Stored, Table, StoreEnv, text_at, same_type, get_entry_by_id, write_row}
use mcp_awareness.Store.Rows.{Keyed, get-Named, adjust-Keyed}
use mcp_awareness.Knowledge.{logged}
use mcp_awareness.Intentions.{in_state, update_intention_state}
use mcp_awareness.Intentions.Payloads.{state_in}

pub update-Keyed :
    (env : StoreEnv) (now : ℕ) (owner i state : String) (reason : Option String) (t : Table)
    → Keyed t
    → Keyed (update_intention_state env now owner i state reason t).1
unfolding update_intention_state in_state logged
update-Keyed env now owner i state reason t k =
    elim-cases {B = Option Stored × Table} (λ r. Keyed r.1) (get_entry_by_id owner i t) _ _ k
      (λ e found.
        if-cases {A = Option Stored × Table} (λ r. Keyed r.1)
          (same_type e.entry_type EntryType.intention) _ _
          (λ b. adjust-Keyed i owner _ t (get-Named owner i e t found k.1) k) (λ b. k))

-- what an update makes of the entry that is read by an id
abbrev overwritten : Stored → Option Stored → Option Stored
overwritten e none = none
overwritten e (some _) = some e

get-adjust :
    (owner i j : String) (e : Stored) (t : Table)
    → get_entry_by_id owner j (adjust i (write_row owner e) t) ≡ (
        if str_eq i j then overwritten e (get_entry_by_id owner j t) else get_entry_by_id owner j t)
unfolding get_entry_by_id
get-adjust owner i j e t = ground (arith, lookup-adjust i j (write_row owner e) t)

text_at-in_state :
    (env : StoreEnv) (now : ℕ) (state : String) (reason : Option String) (e : Stored)
    → text_at "state" (in_state env now state reason e).payload ≡ some state
unfolding in_state logged
text_at-in_state env now state none e =
    rw (lookup-insert "changelog" "state", lookup-insert "state" "state") refl
text_at-in_state env now state (some r) e = elim (Bool-cases (str_eq r "")) [
  | inl b ↦ rw (b, lookup-insert "changelog" "state", lookup-insert "state" "state") refl
  | inr b ↦
      rw
        (
          b,
          lookup-insert "changelog" "state",
          lookup-insert "state_reason" "state",
          lookup-insert "state" "state",
        )
        refl
]

state_in-in_state :
    (env : StoreEnv) (now : ℕ) (state : String) (reason : Option String) (e : Stored)
    → same_type e.entry_type EntryType.intention ≡ true
    → state_in (some (in_state env now state reason e)) ≡ some state
state_in-in_state env now state reason e b =
    rw (in_state_type, text_at-in_state env now state reason e) refl
  where
    in_state_type :
        same_type (in_state env now state reason e).entry_type EntryType.intention ≡ true
    in_state_type = unfold in_state logged in b

module _ (env : StoreEnv) (now : ℕ) (owner i state : String) (reason : Option String)
    (t : Table) where
  update-some :
      (e : Stored)
      → get_entry_by_id owner i t ≡ some e
      → same_type e.entry_type EntryType.intention ≡ true
      → (update_intention_state env now owner i state reason t).1
        ≡ adjust i (write_row owner (in_state env now state reason e)) t
  unfolding update_intention_state
  update-some e found is_intention = rw (update_intention_state, found, is_intention) refl

  update-other :
      (e : Stored)
      → get_entry_by_id owner i t ≡ some e
      → same_type e.entry_type EntryType.intention ≡ false
      → (update_intention_state env now owner i state reason t).1 ≡ t
  unfolding update_intention_state
  update-other e found no_intention = rw (update_intention_state, found, no_intention) refl

  update-none :
      get_entry_by_id owner i t ≡ none
      → (update_intention_state env now owner i state reason t).1 ≡ t
  unfolding update_intention_state
  update-none missing = rw (update_intention_state, missing) refl

  pub state-update :
      (j : String)
      → state_in (get_entry_by_id owner j (update_intention_state env now owner i state reason t).1)
        ≡ (if str_eq i j
            then (elim (state_in (get_entry_by_id owner j t)) [ none ↦ none | some _ ↦ some state ])
            else state_in (get_entry_by_id owner j t))
  state-update j = elim (Option-cases (get_entry_by_id owner i t)) [
    | inl missing ↦ rw (update-none missing) (ground (arith, eq_iff i j, missing))
    | inr (e, found) ↦ elim (Bool-cases (same_type e.entry_type EntryType.intention)) [
      | inl b ↦
          rw (update-some e found b, get-adjust owner i j (in_state env now state reason e) t)
            (ground
              (arith, found_at e found, eq_iff i j, state_in-in_state env now state reason e b, b))
      | inr b ↦ rw (update-other e found b) (ground (arith, found_at e found, eq_iff i j, b))
    ]
  ]
    where
      found_at :
          (e : Stored)
          → get_entry_by_id owner i t ≡ some e
          → i ≡ j
          → get_entry_by_id owner j t ≡ some e
      found_at e found same = subst (λ x. get_entry_by_id owner x t ≡ some e) same found
