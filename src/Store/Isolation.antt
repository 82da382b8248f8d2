-- ===== src/Store/Isolation.antt =====
-- No command of one owner touches the rows of another.
use mcp_awareness.Base.{
  ℕ, ◌≡◌, refl, Bool, not, ◌&&◌, String, [], ◌∷◌, Option, arith, str_eq, if-cases, elim-cases,
}
use mcp_awareness.Store.{same_type, get_entry_by_id, Stored, Row, Table, StoreEnv}
use mcp_awareness.Store.Writes.{
  add, insert_entry, with_regconfig, key_taken, old_status, upsert_status, upsert_alert,
  upsert_preference, fresh_entry,
}
use mcp_awareness.Store.Trash.{
  restore, in_trash, soft_delete_by_id, soft_delete_by_tags, soft_delete_by_source, restore_by_id,
  restore_by_tags, clear,
}
use mcp_awareness.Store.Commands.{Command, after, run}
use mcp_awareness.Knowledge.{is_immutable, apply_updates, update_entry}
use mcp_awareness.Knowledge.Upsert.{upsert_by_logical_key}
use mcp_awareness.Schema.{EntryType}
use mcp_awareness.Intentions.{update_intention_state}
use mcp_awareness.Store.Foreign.{
  foreign, foreign-retain, foreign-adjust, foreign-add, foreign-update_or_add,
  foreign-save_or_raise, foreign-update_first, foreign-soft_delete, foreign-restore,
  foreign-restored, foreign-inserted,
}

-- Whatever command an owner runs, and whether it succeeds or fails, the rows of all other owners
-- are what they were, in their order.
pub run-foreign :
    (env : StoreEnv) (now : ℕ) (owner : String) (c : Command) (t : Table)
    → foreign owner (run env now owner c t) ≡ foreign owner t
unfolding run upsert_status upsert_alert upsert_preference upsert_by_logical_key update_entry
    update_intention_state soft_delete_by_id soft_delete_by_tags soft_delete_by_source restore_by_id
    restore_by_tags clear
run-foreign env now owner (Command.add_entry e) t = foreign-add owner env e t t refl
run-foreign env now owner (Command.put_status new_id source tags d) t =
    foreign-add owner env (fresh_entry new_id now EntryType.status source tags d) t _ (
      foreign-retain owner (λ row. not (old_status owner source row)) t
        (λ row other. rw other refl))
run-foreign env now owner (Command.put_alert new_id source tags alert_id d) t =
    foreign-update_or_add owner env now tags d
      (fresh_entry new_id now EntryType.alert source tags d) t _
run-foreign env now owner (Command.put_preference new_id key scope tags d) t =
    foreign-update_or_add owner env now tags d
      (fresh_entry new_id now EntryType.preference scope tags d) t _
run-foreign env now owner (Command.put_by_logical_key source key e) t =
    if-cases {A = Option ((Stored × Bool) × Table)}
      (λ o. foreign owner (after (λ r. r.1) t o) ≡ foreign owner t)
      (key_taken owner e.source e.logical_key t) _ _
      (λ taken. foreign-update_first owner env now (with_regconfig env e) _ t)
      (λ free.
        foreign-inserted owner env (with_regconfig env e) _ t
          (insert_entry env owner (with_regconfig env e) t)
          (unfold add in foreign-add owner env (with_regconfig env e) t t refl))
run-foreign env now owner (Command.change_entry i u) t =
    elim-cases {B = Option (Option Stored × Table)}
      (λ o. foreign owner (after (λ r. r.1) t o) ≡ foreign owner t) (get_entry_by_id owner i t) _ _
      refl
      (λ e found.
        if-cases {A = Option (Option Stored × Table)}
          (λ o. foreign owner (after (λ r. r.1) t o) ≡ foreign owner t) (is_immutable e.entry_type)
          _ _ (λ b. refl) (λ b. foreign-save_or_raise owner env now i (apply_updates env u e) t))
run-foreign env now owner (Command.change_state i state reason) t =
    elim-cases {B = Option Stored × Table} (λ r. foreign owner r.1 ≡ foreign owner t)
      (get_entry_by_id owner i t) _ _ refl
      (λ e found.
        if-cases {A = Option Stored × Table} (λ r. foreign owner r.1 ≡ foreign owner t)
          (same_type e.entry_type EntryType.intention) _ _ (λ b. foreign-adjust owner i _ t)
          (λ b. refl))
run-foreign env now owner (Command.delete_by_id i) t =
    foreign-soft_delete owner env now _ t (λ row h. ground (arith, h))
run-foreign env now owner (Command.delete_by_tags []) t = refl
run-foreign env now owner (Command.delete_by_tags (tag ∷ tags)) t =
    foreign-soft_delete owner env now _ t (λ row h. ground (arith, h))
run-foreign env now owner (Command.delete_by_source source kind) t =
    foreign-soft_delete owner env now _ t (λ row h. ground (arith, h))
run-foreign env now owner (Command.undelete_by_id i) t =
    foreign-restored owner env t (restore env mine t)
      (foreign-restore owner env mine t (λ row h. ground (arith, h)))
  where
    mine : Row → Bool
    mine row = in_trash owner row && str_eq row.entry.id i
run-foreign env now owner (Command.undelete_by_tags []) t = refl
run-foreign env now owner (Command.undelete_by_tags (tag ∷ tags)) t =
    foreign-restore owner env _ t (λ row h. ground (arith, h))
run-foreign env now owner Command.delete_all t =
    foreign-retain owner _ t (λ row other. rw other refl)
