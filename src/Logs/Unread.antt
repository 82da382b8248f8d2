-- ===== src/Logs/Unread.antt =====
-- What the read log makes of the entries that count as unread.
use mcp_awareness.Base.{
  ℕ, ◌≡◌, refl, sym, ◌∙◌, ap, inl, inr, Bool, Bool-cases, true, false, not, ◌&&◌, ◌||◌, String,
  List, [], ◌∷◌, ◌++◌, Option, none, arith, str_eq, leb, if◌then◌else◌, is_some, any, all, keep,
}
use mcp_awareness.Base.Dict.{lookup}
use mcp_awareness.Helpers.Pages.{limit_clause}
use mcp_awareness.Store.{Stored, Row, Table, visible, order_by, select, if_given}
use mcp_awareness.Logs.{
  ReadRow, Log, insert_reads, committed, with_read, read_row, log_read, was_read, get_unread,
}
use mcp_awareness.Logs.Order.{keep-order_by}

-- every id stands for an entry, of whatever owner
abbrev pub exist : List String → Table → Bool
exist ids t = all (λ i. is_some (lookup i t)) ids

pub keep-select :
    (q : Stored → Bool) (p : Row → Bool) (t : Table)
    → keep q (select p t) ≡ select (λ row. p row && q row.entry) t
unfolding select
keep-select q p [] = refl
keep-select q p ((i, row) ∷ t) = ground (arith, keep-select q p t)

select-same :
    (p q : Row → Bool) (t : Table) → ((row : Row) → p row ≡ q row) → select p t ≡ select q t
unfolding select
select-same p q [] h = refl
select-same p q ((i, row) ∷ t) h = rw (h row, select-same p q t h) refl

any-snoc :
    (p : ReadRow → Bool) (rs : List ReadRow) (r : ReadRow) → any p (rs ++ r ∷ []) ≡ any p rs || p r
any-snoc p [] r = ground arith
any-snoc p (x ∷ rs) r = ground (arith, any-snoc p rs r)

insert_reads-exist :
    (now : ℕ) (reader : String) (platform : Option String) (tool : String) (ids : List String)
    (t : Table) (l : Log)
    → (insert_reads now reader platform tool ids t l).0 ≡ exist ids t
unfolding insert_reads
insert_reads-exist now reader platform tool [] t l = refl
insert_reads-exist now reader platform tool (i ∷ ids) t l = ground (
  arith,
  insert_reads-exist now reader platform tool ids t (with_read now reader platform tool i l),
)

committed-true : (l : Log) (r : Bool × Log) → r.0 ≡ true → committed l r ≡ r.1
committed-true l (true, l') h = refl
committed-true l (false, l') h = absurd (ground arith)

committed-false : (l : Log) (r : Bool × Log) → r.0 ≡ false → (committed l r).reads ≡ l.reads
committed-false l (true, l') h = absurd (ground arith)
committed-false l (false, l') h = refl

module _ (owner_id : String) (since : Option ℕ) (now : ℕ)
    (counts : if_given (λ s. leb s now) since ≡ true) where
  was_read-insert_reads :
      (reader : String) (platform : Option String) (tool : String) (ids : List String) (t : Table)
      (l : Log) (e : Stored)
      → exist ids t ≡ true
      → was_read owner_id since (insert_reads now reader platform tool ids t l).1 e
        ≡ was_read owner_id since l e || (str_eq reader owner_id && any (λ i. str_eq i e.id) ids)
  unfolding insert_reads was_read
  was_read-insert_reads reader platform tool [] t l e h = ground arith
  was_read-insert_reads reader platform tool (i ∷ ids) t l e h = ground (
    arith,
    counts,
    was_read-insert_reads reader platform tool ids t (with_read now reader platform tool i l) e,
    any-snoc
        (λ r.
          str_eq r.owner_id owner_id
          && (str_eq r.entry_id e.id && if_given (λ s. leb s r.timestamp) since))
        l.reads (read_row now reader platform tool i l.next_read),
  )

  -- the reads after the log, where all ids stand for entries and where one does not
  was_read-log_read :
      (reader : String) (platform : Option String) (tool : String) (ids : List String) (t : Table)
      (l : Log) (e : Stored)
      → was_read owner_id since (log_read now reader ids tool platform t l) e ≡ (
          if exist ids t
          then was_read owner_id since l e
            || (str_eq reader owner_id && any (λ i. str_eq i e.id) ids)
          else was_read owner_id since l e)
  unfolding log_read was_read
  was_read-log_read reader platform tool [] t l e = ground arith
  was_read-log_read reader platform tool (i ∷ ids) t l e = elim (Bool-cases (exist (i ∷ ids) t)) [
    | inl all_there ↦
        rw
          (
            committed-true l (insert_reads now reader platform tool (i ∷ ids) t l)
                (insert_reads-exist now reader platform tool (i ∷ ids) t l ∙ all_there),
            all_there,
          )
          (was_read-insert_reads reader platform tool (i ∷ ids) t l e all_there)
    | inr missing ↦
        rw
          (
            committed-false l (insert_reads now reader platform tool (i ∷ ids) t l)
                (insert_reads-exist now reader platform tool (i ∷ ids) t l ∙ missing),
            missing,
          )
          refl
  ]

  unread-log_read :
      (reader : String) (ids : List String) (tool : String) (platform : Option String) (t : Table)
      (l : Log)
      → exist ids t && str_eq reader owner_id ≡ false
      → get_unread owner_id since none t (log_read now reader ids tool platform t l)
        ≡ get_unread owner_id since none t l
  unfolding get_unread log_read limit_clause
  unread-log_read reader ids tool platform t l other = ap (order_by (λ e. e.created)) (
      select-same _ _ t
        (λ row. ground (arith, other, was_read-log_read reader platform tool ids t l row.entry)))

  -- Reading entries takes exactly them off the reader's list of the unread, and off no other
  -- owner's: after a read of some ids is logged, the reader's list, of all time or since an instant
  -- that is not later, is the list before less the entries with these ids, and the list of another
  -- owner is as it was. If one of the ids stands for no entry, then nothing is logged and every list
  -- stays. Entries that were created at one instant are listed in the order of the table.
  pub get_unread-log_read :
      (reader : String) (ids : List String) (tool : String) (platform : Option String) (t : Table)
      (l : Log)
      → get_unread owner_id since none t (log_read now reader ids tool platform t l) ≡ (
          if exist ids t && str_eq reader owner_id
          then keep (λ e. not (any (λ i. str_eq i e.id) ids)) (get_unread owner_id since none t l)
          else get_unread owner_id since none t l)
  unfolding get_unread log_read limit_clause
  get_unread-log_read reader ids tool platform t l =
      elim (Bool-cases (exist ids t && str_eq reader owner_id)) [
        | inl own ↦ rw own (
            ap (order_by (λ e. e.created)) (
              select-same _ _ t (λ row.
                ground (arith, own, was_read-log_read reader platform tool ids t l row.entry))
              ∙ sym (
                  keep-select (λ e. not (any (λ i. str_eq i e.id) ids))
                    (λ row. visible owner_id row && not (was_read owner_id since l row.entry)) t))
            ∙ sym (
                keep-order_by (λ e. e.created) (λ e. not (any (λ i. str_eq i e.id) ids))
                  (select (λ row. visible owner_id row && not (was_read owner_id since l row.entry))
                    t)))
        | inr other ↦ rw other (unread-log_read reader ids tool platform t l other)
      ]
