-- ===== src/Intentions/Listings.antt =====
-- What `get_intentions` and `get_fired_intentions` (src/mcp_awareness/postgres_store.py) list.
use mcp_awareness.Base.{
  ℕ, ◌≡◌, ◌↔◌, refl, ◌∙◌, sym, inl, inr, true, false, ◌&&◌, String, List, [], ◌∷◌, Option, none,
  some, arith, str_eq, eq_iff, Option-cases, map, any, All, any→Any, Any→any,
}
use mcp_awareness.Base.Dict.{lookup}
use mcp_awareness.Schema.{EntryType, last_change}
use mcp_awareness.Collator.Briefing.Interface.{Lists}
use mcp_awareness.Helpers.Pages.{limit_clause}
use mcp_awareness.Store.{
  Stored, Row, Table, StoreEnv, text_at, equals, same_type, visible, query_entries, get_entry_by_id,
  if_named, has_tags,
}
use mcp_awareness.Store.Rows.{
  Keyed, passes, any-order_by, any-select, lookup-Named, All-order_by, All-select,
}
use mcp_awareness.Intentions.{get_intentions, get_fired_intentions}
use mcp_awareness.Intentions.Payloads.{intention_data, decode, state_in}

any-map :
    (i : String) (es : List Stored)
    → any (λ e. str_eq e.id i) (map (decode intention_data) es) ≡ any (λ e. str_eq e.id i) es
any-map i [] = refl
any-map i (e ∷ es) = rw (any-map i es) refl

pub listed_iff :
    (i : String) (es : List Stored)
    → Lists (map (decode intention_data) es) i ↔ (any (λ e. str_eq e.id i) es ≡ true)
listed_iff i es = (
  λ a. sym (any-map i es) ∙ Any→any (λ e. str_eq e.id i) (λ e h. (eq_iff e.id i).1 h) a,
  λ h.
      any→Any (λ e. str_eq e.id i) (map (decode intention_data) es) (λ e p. (eq_iff e.id i).0 p)
        (any-map i es ∙ h),
)

-- the state of the intention under an id, if the row has one
matches_iff :
    (owner state i : String) (t : Table)
    → str_eq state "" ≡ false
    → (passes
          (λ row.
            visible owner row
            && same_type row.entry.entry_type EntryType.intention
            && equals state (text_at "state" row.entry.payload))
          (lookup i t)
        ≡ true)
      ↔ (state_in (get_entry_by_id owner i t) ≡ some state)
unfolding get_entry_by_id
matches_iff owner state i t given = elim (Option-cases (lookup i t)) [
  | inl missing ↦ rw missing (ground arith)
  | inr (row, found) ↦ elim (Option-cases (text_at "state" row.entry.payload)) [
    | inl empty ↦
        rw (get_entry_by_id, found, empty) (ground (arith, given, eq_iff "" state, eq_iff state ""))
    | inr (s, stored) ↦ rw (get_entry_by_id, found, stored) (ground (arith, eq_iff s state))
  ]
]

pub All-decode :
    (P : String → Type 0) (es : List Stored)
    → All (λ e. P e.id) es
    → All (λ e. P e.id) (map (decode intention_data) es)
All-decode P [] v = tt
All-decode P (e ∷ es) v = (v.0, All-decode P es v.1)

pub pending_due :
    (env : StoreEnv) (now : ℕ) (owner : String) (t : Table)
    → Keyed t
    → All
        (λ e. state_in (get_entry_by_id owner e.id t) ≡ some "pending")
        (get_fired_intentions env now owner t)
unfolding get_fired_intentions query_entries
pending_due env now owner t k = All-order_by _ last_change _ (
    All-select _ _ t k.0 (λ i row found h.
      rw (lookup-Named i row t found k.1)
        ((matches_iff owner "pending" i t refl).0 (rw found (ground (arith, h))))))

pub found_iff :
    (owner state i : String) (t : Table)
    → Keyed t
    → str_eq state "" ≡ false
    → Lists (map (decode intention_data) (get_intentions owner (some state) none [] none t)) i
      ↔ (state_in (get_entry_by_id owner i t) ≡ some state)
unfolding get_intentions query_entries limit_clause
found_iff owner state i t k given = (
  λ a. (matches_iff owner state i t given).0 (sym any_matches ∙ (listed_iff i _).0 a),
  λ h. (listed_iff i _).1 (any_matches ∙ (matches_iff owner state i t given).1 h),
)
  where
    trim :
        (o : Option Row)
        → passes
            (λ row.
              visible owner row
              && (same_type row.entry.entry_type EntryType.intention
                  && if_named (λ s. equals s (text_at "state" row.entry.payload)) (some state)
                  && if_named (λ s. str_eq row.entry.source s) none
                  && has_tags [] row.entry))
            o
          ≡ passes
              (λ row.
                visible owner row
                && same_type row.entry.entry_type EntryType.intention
                && equals state (text_at "state" row.entry.payload))
              o
    trim none = refl
    trim (some row) = rw given (ground arith)

    any_matches :
        any (λ e. str_eq e.id i) (get_intentions owner (some state) none [] none t)
        ≡ passes
            (λ row.
              visible owner row
              && same_type row.entry.entry_type EntryType.intention
              && equals state (text_at "state" row.entry.payload))
            (lookup i t)
    any_matches =
        any-order_by (λ e. str_eq e.id i) last_change _ ∙ any-select _ i t k ∙ trim (lookup i t)
