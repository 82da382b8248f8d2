-- ===== src/Store/Restores.antt =====
-- What a restore makes of a soft-deleted entry.
use mcp_awareness.Base.{
  ℕ, ◌≡◌, refl, ap, ◌∙◌, sym, Bool, Bool-cases, inl, inr, true, false, ◌&&◌, String, [], ◌∷◌,
  Option, none, some, arith, str_eq, eq_iff, eq_refl, if◌then◌else◌, ltb, Option-cases,
}
use mathlib.Core.Path.{subst}
use mcp_awareness.Base.Json.{text}
use mcp_awareness.Base.Dict.{Dict, lookup, insert, remove, lookup-insert, lookup-remove}
use mcp_awareness.Base.Dict.Keys.{count}
use mcp_awareness.Store.{Data, Stored, Row, Table, StoreEnv, visible, text_at, get_entry_by_id}
use mcp_awareness.Store.Rows.{Keyed, Named, lookup-Named}
use mcp_awareness.Store.Trash.{
  keep_expiry, read_expiry, expiry_key, trash_row, restore_row, update_where, soft_delete,
  soft_delete_by_id, in_trash, has_duplicate, restore, restore_by_id,
}

remove_absent {ℓ} : {V : Type ℓ} (k : String) (d : Dict V) → lookup k d ≡ none → remove k d ≡ d
unfolding lookup remove
remove_absent k [] h = refl
remove_absent k ((j, v) ∷ d) h = ground (arith, remove_absent k d)

remove-insert {ℓ} :
    {V : Type ℓ} (k : String) (v : V) (d : Dict V) → lookup k d ≡ none → remove k (insert k v d) ≡ d
unfolding lookup remove insert
remove-insert k v [] h = rw (eq_refl k) refl
remove-insert k v ((j, w) ∷ d) h = ground (arith, remove-insert k v d)

read_expiry-keep_expiry :
    (env : StoreEnv) (o : Option ℕ) (d : Data)
    → ((t : ℕ) → env.parse_time (env.to_iso t) ≡ some t)
    → read_expiry env (text_at expiry_key (keep_expiry env o d)) ≡ o
read_expiry-keep_expiry env none d parses = rw (lookup-remove expiry_key expiry_key d) refl
read_expiry-keep_expiry env (some t) d parses =
    rw (lookup-insert expiry_key expiry_key (text (env.to_iso t)) d) (parses t)

remove-keep_expiry :
    (env : StoreEnv) (o : Option ℕ) (d : Data)
    → lookup expiry_key d ≡ none
    → remove expiry_key (keep_expiry env o d) ≡ d
remove-keep_expiry env none d h = rw (remove_absent expiry_key d h) (remove_absent expiry_key d h)
remove-keep_expiry env (some t) d h = remove-insert expiry_key _ d h

restore-trash :
    (env : StoreEnv) (now : ℕ) (row : Row)
    → ((t : ℕ) → env.parse_time (env.to_iso t) ≡ some t)
    → row.deleted ≡ none
    → lookup expiry_key row.entry.payload ≡ none
    → restore_row env (trash_row env now row) ≡ row
unfolding restore_row trash_row
restore-trash env now row parses live h =
    ap
      (λ o. record row {
        deleted = none;
        entry = record row.entry {
          expires = o;
          payload = remove expiry_key (keep_expiry env row.entry.expires row.entry.payload);
        };
      })
      (read_expiry-keep_expiry env row.entry.expires row.entry.payload parses)
    ∙ ap (λ d. record row { deleted = none; entry = record row.entry { payload = d } })
        (remove-keep_expiry env row.entry.expires row.entry.payload h)
    ∙ ap (λ o. record row { deleted = o }) (sym live)

module _ (owner i : String) where
  abbrev mine : Row → Bool
  mine row = visible owner row && str_eq row.entry.id i

  abbrev trashed : Row → Bool
  trashed row = in_trash owner row && str_eq row.entry.id i

module _ (owner i : String) (f g : Row → Row) where
  absent :
      (p : Row → Bool) (h : Row → Row) (t : Table)
      → ((row : Row) → p row ≡ true → row.entry.id ≡ i)
      → Named t
      → lookup i t ≡ none
      → update_where p h t ≡ t
  unfolding update_where lookup
  absent p h [] own n e = refl
  absent p h ((j, row) ∷ t) own n e = elim (Bool-cases (p row)) [
    | inl b ↦ absurd (ground (arith, own row b, n.0, eq_iff j i))
    | inr b ↦ rw b (ap (◌∷◌ (j, row)) (absent p h t own n.1 (ground (arith, e))))
  ]

  undo :
      (row : Row) (t : Table)
      → Keyed t
      → lookup i t ≡ some row
      → (mine owner i) row ≡ true
      → (trashed owner i) (f row) ≡ true
      → g (f row) ≡ row
      → update_where (trashed owner i) g (update_where (mine owner i) f t) ≡ t
  unfolding update_where lookup
  undo row [] k e m r back = refl
  undo row ((j, v) ∷ t) k e m r back = elim (Bool-cases (str_eq j i)) [
    | inl same ↦ ground (arith, m' (veq same), r' (veq same), back' (veq same), tail same)
    | inr other ↦ ground (arith, undo row t (k.0.1, k.1.1), k.1.0, eq_iff j i, eq_iff v.entry.id i)
  ]
    where
      veq : str_eq j i ≡ true → row ≡ v
      veq same = ground (arith, rw (lookup, same) at e)

      m' : row ≡ v → (mine owner i) v ≡ true
      m' q = subst (λ x. (mine owner i) x ≡ true) q m

      r' : row ≡ v → (trashed owner i) (f v) ≡ true
      r' q = subst (λ x. (trashed owner i) (f x) ≡ true) q r

      back' : row ≡ v → g (f v) ≡ v
      back' q = subst (λ x. g (f x) ≡ x) q back

      gone : str_eq j i ≡ true → lookup i t ≡ none
      gone same = subst (λ x. lookup x t ≡ none) ((eq_iff j i).0 same) k.0.0

      tail :
          str_eq j i ≡ true → update_where (trashed owner i) g (update_where (mine owner i) f t) ≡ t
      tail same =
          rw
            (absent (mine owner i) f t (λ x h. ground (arith, h, eq_iff x.entry.id i)) k.1.1
              (gone same))
            (absent (trashed owner i) g t (λ x h. ground (arith, h, eq_iff x.entry.id i)) k.1.1
              (gone same))

  counts :
      (row : Row) (t : Table)
      → Keyed t
      → lookup i t ≡ some row
      → (mine owner i) row ≡ true
      → (trashed owner i) (f row) ≡ true
      → ltb 0 (count (trashed owner i) (update_where (mine owner i) f t)) ≡ true
  unfolding update_where lookup count
  counts row [] k e m r = absurd (ground arith)
  counts row ((j, v) ∷ t) k e m r = elim (Bool-cases (str_eq j i)) [
    | inl same ↦ ground (arith, m' (veq same), r' (veq same))
    | inr other ↦
        ground (arith, counts row t (k.0.1, k.1.1), k.1.0, eq_iff j i, eq_iff v.entry.id i)
  ]
    where
      veq : str_eq j i ≡ true → row ≡ v
      veq same = ground (arith, rw (lookup, same) at e)

      m' : row ≡ v → (mine owner i) v ≡ true
      m' q = subst (λ x. (mine owner i) x ≡ true) q m

      r' : row ≡ v → (trashed owner i) (f v) ≡ true
      r' q = subst (λ x. (trashed owner i) (f x) ≡ true) q r

abbrev updated_row : (Row → Bool) → (Row → Row) → Option Row → Option Row
updated_row p f none = none
updated_row p f (some row) = some (if p row then f row else row)

lookup-update_where :
    (p : Row → Bool) (f : Row → Row) (j : String) (t : Table)
    → lookup j (update_where p f t) ≡ updated_row p f (lookup j t)
unfolding lookup update_where
lookup-update_where p f j [] = refl
lookup-update_where p f j ((i, row) ∷ t) = ground (arith, lookup-update_where p f j t)

restore_by_id-some :
    (env : StoreEnv) (owner i : String) (t t' : Table)
    → update_where (trashed owner i) (restore_row env) t' ≡ t
    → has_duplicate t ≡ false
    → ltb 0 (count (trashed owner i) t') ≡ true
    → restore_by_id env owner i t' ≡ some (t, true)
unfolding restore_by_id restore
restore_by_id-some env owner i t t' u unique c = rw (restore_by_id, restore, u, unique, c) refl

get-hidden :
    (env : StoreEnv) (now : ℕ) (owner i : String) (t : Table) (row : Row)
    → lookup i t ≡ some row
    → mine owner i row ≡ true
    → get_entry_by_id owner i (update_where (mine owner i) (trash_row env now) t) ≡ none
unfolding get_entry_by_id trash_row
get-hidden env now owner i t row here own =
    rw (get_entry_by_id, lookup-update_where (mine owner i) (trash_row env now) i t, here, own)
      (ground arith)

-- An entry whose data holds no former expiry is hidden once it is soft-deleted, and restoring it
-- gives back the table as it was, where the rows have distinct ids and logical keys and the texts
-- of instants are read as those instants.
pub restore_by_id-soft_delete_by_id :
    (env : StoreEnv) (now : ℕ) (owner i : String) (t : Table) (e : Stored)
    → ((at : ℕ) → env.parse_time (env.to_iso at) ≡ some at)
    → Keyed t
    → has_duplicate t ≡ false
    → get_entry_by_id owner i t ≡ some e
    → lookup expiry_key e.payload ≡ none
    → (get_entry_by_id owner i (soft_delete_by_id env now owner i t).0 ≡ none)
      × (restore_by_id env owner i (soft_delete_by_id env now owner i t).0 ≡ some (t, true))
unfolding soft_delete_by_id soft_delete trash_row get_entry_by_id
restore_by_id-soft_delete_by_id env now owner i t e parses k unique found clean =
    elim (Option-cases (lookup i t)) [
      | inl missing ↦ absurd (ground (arith, rw (get_entry_by_id, missing) at found))
      | inr (row, here) ↦ elim (Bool-cases (visible owner row)) [
        | inl v ↦
            let same : row.entry ≡ e = ground (arith, rw (get_entry_by_id, here, v) at found) in
            let own : mine owner i row ≡ true =
              rw v ((eq_iff row.entry.id i).1 (lookup-Named i row t here k.1)) in
            let out : trashed owner i (trash_row env now row) ≡ true = ground (arith, own) in
            let back : restore_row env (trash_row env now row) ≡ row =
              restore-trash env now row parses (live row v)
                (subst (λ x. lookup expiry_key x.payload ≡ none) (sym same) clean) in
            (
              get-hidden env now owner i t row here own,
              restore_by_id-some env owner i t _
                  (undo owner i (trash_row env now) (restore_row env) row t k here own out back)
                  unique
                  (counts owner i (trash_row env now) (restore_row env) row t k here own out),
            )
        | inr v ↦ absurd (ground (arith, rw (get_entry_by_id, here, v) at found))
      ]
    ]
  where
    live : (row : Row) → visible owner row ≡ true → row.deleted ≡ none
    live row v = elim (Option-cases row.deleted) [
      | inl n ↦ n
      | inr (w, d) ↦ absurd (ground (arith, v, rw d at v))
    ]
