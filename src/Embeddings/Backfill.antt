-- ===== src/Embeddings/Backfill.antt =====
-- One call of backfill_embeddings (src/mcp_awareness/tools.py) with a limit that is large enough.
use mcp_awareness.Base.{
  Option, none, some, ℕ, ◌≤◌, ◌≡◌, refl, ◌∙◌, ap, Bool, true, false, not, ◌&&◌, String, List, [],
  ◌∷◌, some, arith, str_eq, if◌then◌else◌, any, keep, take, length, take_of_length-le, All,
  All-keep, All-take, keep-eq-nil_iff,
}
use mcp_awareness.Base.Dict.{lookup}
use mcp_awareness.Schema.{EntryType, last_change}
use mcp_awareness.Store.{Stored, Row, Table, visible, same_type, order_by, select}
use mcp_awareness.Store.Rows.{
  Keyed, passes, any-order_by, any-select, lookup-Named, All-order_by, All-select,
}
use mcp_awareness.Logs.Unread.{keep-select}
use mcp_awareness.Logs.Order.{keep-order_by}
use mcp_awareness.Embeddings.{
  EmbedEnv, Embedding, hash_of, stored_hash, has_embedding, get_entries_without_embeddings,
  is_outdated, get_stale_embeddings, embed_all, both_phases, backfill_embeddings,
}
use mcp_awareness.Embeddings.Hashes.{
  Own, length-select_mono, length-order_by, lacks_none, stale_none, Works, embed_all-stored,
}

-- the number that the answer reports as remaining
abbrev pub remaining : Option (ℕ × ℕ × ℕ) → Option ℕ
remaining none = none
remaining (some counts) = some counts.2

module _ {V : Type 0} (env : EmbedEnv V) where
  module _ (owner : String) (t : Table) where
    -- the entries that lack an embedding
    abbrev lacks : List (Embedding V) → Row → Bool
    lacks ms row =
        visible owner row
        && not (has_embedding env ms row.entry)
        && not (same_type row.entry.entry_type EntryType.suppression)

    abbrev embedded : List (Embedding V) → Row → Bool
    embedded ms row = visible owner row && has_embedding env ms row.entry

    select-Own : (p : Row → Bool) → Keyed t → All (Own t) (select p t)
    select-Own p k = All-select (Own t) p t k.0 (λ i row found h.
        (row, ap (λ j. lookup j t) (lookup-Named i row t found k.1) ∙ found, refl))

    module _ (k : Keyed t) (limit : ℕ) (room : length (select (visible owner) t) ≤ limit) where
      all_rows :
          (p : Row → Bool)
          → ((row : Row) → p row ≡ true → visible owner row ≡ true)
          → take limit (order_by last_change (select p t)) ≡ order_by last_change (select p t)
      all_rows p f = take_of_length-le limit (order_by last_change (select p t)) (
          omega (
            arith,
            length-order_by last_change (select p t),
            length-select_mono p (visible owner) t f,
            room,
          ))

      missing-any :
          (ms : List (Embedding V)) (i : String)
          → any (λ e. str_eq e.id i) (get_entries_without_embeddings env owner limit t ms)
            ≡ passes (lacks ms) (lookup i t)
      unfolding get_entries_without_embeddings
      missing-any ms i =
          ap (any (λ e. str_eq e.id i)) (all_rows (lacks ms) (λ row h. ground (arith, h)))
          ∙ any-order_by (λ e. str_eq e.id i) last_change (select (lacks ms) t)
          ∙ any-select (lacks ms) i t k

      stale-any :
          (ms : List (Embedding V)) (i : String)
          → any (λ e. str_eq e.id i) (get_stale_embeddings env owner limit t ms)
            ≡ passes (λ row. embedded ms row && is_outdated env ms row.entry) (lookup i t)
      unfolding get_stale_embeddings
      stale-any ms i =
          ap (λ (es : List Stored). any (λ e. str_eq e.id i) (keep (is_outdated env ms) es))
            (all_rows (embedded ms) (λ row h. ground (arith, h)))
          ∙ ap (any (λ e. str_eq e.id i)) (
              keep-order_by last_change (is_outdated env ms) (select (embedded ms) t)
              ∙ ap (order_by last_change) (keep-select (is_outdated env ms) (embedded ms) t))
          ∙ any-order_by (λ e. str_eq e.id i) last_change _
          ∙ any-select (λ row. embedded ms row && is_outdated env ms row.entry) i t k

      missing-Own :
          (ms : List (Embedding V))
          → All (Own t) (get_entries_without_embeddings env owner limit t ms)
      unfolding get_entries_without_embeddings
      missing-Own ms =
          All-take (Own t) limit (order_by last_change (select (lacks ms) t))
            (All-order_by (Own t) last_change (select (lacks ms) t) (select-Own (lacks ms) k))

      stale-Own :
          (ms : List (Embedding V)) → All (Own t) (get_stale_embeddings env owner limit t ms)
      unfolding get_stale_embeddings
      stale-Own ms =
          All-keep (Own t) (is_outdated env ms)
            (take limit (order_by last_change (select (embedded ms) t)))
            (All-take (Own t) limit (order_by last_change (select (embedded ms) t)) (
              All-order_by (Own t) last_change (select (embedded ms) t)
                (select-Own (embedded ms) k)))

      -- the table of embeddings after the two phases
      abbrev first_phase : List (Embedding V) → List (Embedding V)
      first_phase ms =
          (embed_all env owner (get_entries_without_embeddings env owner limit t ms) t ms).1

      abbrev second_phase : List (Embedding V) → List (Embedding V)
      second_phase ms = (embed_all env owner (get_stale_embeddings env owner limit t ms) t ms).1

      first_stored :
          (ms : List (Embedding V)) (row : Row)
          → Works env owner t
          → lookup row.entry.id t ≡ some row
          → stored_hash env row.entry.id (first_phase ms) ≡ (
              if lacks ms row
              then some (hash_of env row.entry)
              else stored_hash env row.entry.id ms)
      first_stored ms row works found =
          embed_all-stored env owner t (get_entries_without_embeddings env owner limit t ms) ms
            row.entry works (missing-Own ms) (row, found, refl)
          ∙ (rw (missing-any ms row.entry.id, found) refl)

      second_stored :
          (ms : List (Embedding V)) (row : Row)
          → Works env owner t
          → lookup row.entry.id t ≡ some row
          → stored_hash env row.entry.id (second_phase ms) ≡ (
              if embedded ms row && is_outdated env ms row.entry
              then some (hash_of env row.entry)
              else stored_hash env row.entry.id ms)
      second_stored ms row works found =
          embed_all-stored env owner t (get_stale_embeddings env owner limit t ms) ms row.entry
            works (stale-Own ms) (row, found, refl)
          ∙ (rw (stale-any ms row.entry.id, found) refl)

      none_lacks :
          (ms : List (Embedding V)) (row : Row)
          → Works env owner t
          → lookup row.entry.id t ≡ some row
          → lacks (second_phase (first_phase ms)) row ≡ false
      none_lacks ms row works found =
          lacks_none (visible owner row)
            (not (same_type row.entry.entry_type EntryType.suppression)) (hash_of env row.entry)
            (stored_hash env row.entry.id ms) (stored_hash env row.entry.id (first_phase ms))
            (stored_hash env row.entry.id (second_phase (first_phase ms)))
            (first_stored ms row works found) (second_stored (first_phase ms) row works found)

      none_stale :
          (ms : List (Embedding V)) (row : Row)
          → Works env owner t
          → lookup row.entry.id t ≡ some row
          → visible owner row ≡ true
          → is_outdated env (second_phase (first_phase ms)) row.entry ≡ false
      none_stale ms row works found seen =
          stale_none (visible owner row) (hash_of env row.entry)
            (stored_hash env row.entry.id (first_phase ms))
            (stored_hash env row.entry.id (second_phase (first_phase ms))) seen
            (second_stored (first_phase ms) row works found)

      All-absurd : (es : List Stored) → All (λ e. ⊥) es → es ≡ []
      All-absurd [] v = refl
      All-absurd (e ∷ es) v = absurd v.0

      both_phases_complete :
          (ms : List (Embedding V)) (later : ℕ)
          → Works env owner t
          → (get_entries_without_embeddings env owner later t (both_phases env owner limit t ms).1
              ≡ [])
            × (get_stale_embeddings env owner later t (both_phases env owner limit t ms).1 ≡ [])
            × ((both_phases env owner limit t ms).0.2 ≡ 0)
      unfolding both_phases
      both_phases_complete ms later works =
          (nothing_missing later, nothing_stale, rw (nothing_missing 1) refl)
        where
          after : List (Embedding V)
          after = second_phase (first_phase ms)

          own_id :
              (i : String) (row : Row) → lookup i t ≡ some row → lookup row.entry.id t ≡ some row
          own_id i row found = ap (λ j. lookup j t) (lookup-Named i row t found k.1) ∙ found

          nothing_missing : (n : ℕ) → get_entries_without_embeddings env owner n t after ≡ []
          nothing_missing n =
              unfold get_entries_without_embeddings in
              All-absurd _ (
                All-take (λ e. ⊥) n _
                  (All-order_by (λ e. ⊥) last_change _
                    (All-select (λ e. ⊥) (lacks after) t k.0
                      (λ i row found h.
                        absurd (ground (arith, h, none_lacks ms row works (own_id i row found)))))))

          nothing_stale : get_stale_embeddings env owner later t after ≡ []
          nothing_stale =
              unfold get_stale_embeddings in
              (keep-eq-nil_iff (is_outdated env after) _).1 (
                All-take (λ e. is_outdated env after e ≡ false) later _
                  (All-order_by (λ e. is_outdated env after e ≡ false) last_change _
                    (All-select (λ e. is_outdated env after e ≡ false) (embedded after) t k.0
                      (λ i row found h.
                        none_stale ms row works (own_id i row found) (ground (arith, h))))))

      -- One call of backfill_embeddings with a limit that no owner's entries exceed is enough, if the
      -- provider is available and gives a vector of the right dimension for each text: after it,
      -- whatever a later limit is, no visible entry but suppressions lacks an embedding, none has a
      -- stale one, and the number that the call reports as remaining is 0. The rows have distinct
      -- ids.
      pub backfill_embeddings_complete :
          (ms : List (Embedding V)) (later : ℕ)
          → env.is_available ≡ true
          → Works env owner t
          → (get_entries_without_embeddings env owner later t
                (backfill_embeddings env owner limit t ms).1
              ≡ [])
            × (get_stale_embeddings env owner later t (backfill_embeddings env owner limit t ms).1
                ≡ [])
            × (remaining (backfill_embeddings env owner limit t ms).0 ≡ some 0)
      unfolding backfill_embeddings
      backfill_embeddings_complete ms later up works =
          let (missing, stale, none_left) = both_phases_complete ms later works in
          rw up (missing, stale, ap some none_left)
