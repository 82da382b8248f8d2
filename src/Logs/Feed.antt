-- ===== src/Logs/Feed.antt =====
-- The activity feed and the read counts against the two histories.
use mcp_awareness.Base.{
  ℕ, ◌+◌, ◌≡◌, refl, sym, ◌∙◌, ap, inl, inr, Option-cases, Bool, true, false, not, ◌&&◌, String,
  List, [], ◌∷◌, ◌++◌, Option, none, some, arith, str_eq, eq_iff, max, if◌then◌else◌, any, keep,
  map, length,
}
use mcp_awareness.Base.Dict.{lookup, lookup-insert}
use mcp_awareness.Helpers.Pages.{limit_clause}
use mcp_awareness.Store.{insert_by, order_by}
use mcp_awareness.Logs.{
  ReadRow, Log, Event, ReadCount, read_matches, action_matches, get_reads, get_actions,
  get_activity, read_event, action_event, count_reads, get_read_counts,
}
use mcp_awareness.Logs.Order.{Descending, order_by-Descending, keep-order_by, map-order_by}

keep-append : (q : Event → Bool) (xs ys : List Event) → keep q (xs ++ ys) ≡ keep q xs ++ keep q ys
keep-append q [] ys = refl
keep-append q (x ∷ xs) ys = ground (arith, keep-append q xs ys)

keep-map_all :
    {A : Type 0} (q : Event → Bool) (f : A → Event) (xs : List A)
    → ((a : A) → q (f a) ≡ true)
    → keep q (map f xs) ≡ map f xs
keep-map_all q f [] h = refl
keep-map_all q f (x ∷ xs) h = rw (h x) (ap (◌∷◌ (f x)) (keep-map_all q f xs h))

keep-map_none :
    {A : Type 0} (q : Event → Bool) (f : A → Event) (xs : List A)
    → ((a : A) → q (f a) ≡ false)
    → keep q (map f xs) ≡ []
keep-map_none q f [] h = refl
keep-map_none q f (x ∷ xs) h = rw (h x) (keep-map_none q f xs h)

append-nil : {A : Type 0} (xs : List A) → xs ++ [] ≡ xs
append-nil [] = refl
append-nil (x ∷ xs) = ap (◌∷◌ x) (append-nil xs)

module _ (owner_id : String) (since : Option ℕ) (platform : Option String) (l : Log) where
  abbrev reads : List Event
  reads = map read_event (keep (read_matches owner_id none since platform) l.reads)

  abbrev actions : List Event
  actions = map action_event (keep (action_matches owner_id none since platform []) l.actions)

  reads_part : keep (λ e. e.is_read) (reads ++ actions) ≡ reads
  reads_part =
      keep-append (λ e. e.is_read) reads actions
      ∙ (rw
          (
            keep-map_all (λ e. e.is_read) read_event
                (keep (read_matches owner_id none since platform) l.reads) (λ a. refl),
            keep-map_none (λ e. e.is_read) action_event
                (keep (action_matches owner_id none since platform []) l.actions) (λ a. refl),
          )
          (append-nil reads))

  actions_part : keep (λ e. not e.is_read) (reads ++ actions) ≡ actions
  actions_part =
      keep-append (λ e. not e.is_read) reads actions
      ∙ (rw
          (
            keep-map_none (λ e. not e.is_read) read_event
                (keep (read_matches owner_id none since platform) l.reads) (λ a. refl),
            keep-map_all (λ e. not e.is_read) action_event
                (keep (action_matches owner_id none since platform []) l.actions) (λ a. refl),
          )
          refl)

  -- The feed without a limit is the two histories merged: its reads are the read history and its
  -- actions the action history, under the same filters and each in its order, and it is sorted,
  -- the newest event first. Events of one instant keep the order of their table.
  get_activity-get_reads-get_actions :
      (keep (λ e. e.is_read) (get_activity owner_id since platform none l)
        ≡ map read_event (get_reads owner_id none since platform none l))
      × (keep (λ e. not e.is_read) (get_activity owner_id since platform none l)
          ≡ map action_event (get_actions owner_id none since platform [] none l))
      × Descending (λ (e : Event). e.timestamp) (get_activity owner_id since platform none l)
  unfolding get_activity get_reads get_actions limit_clause
  get_activity-get_reads-get_actions = (
    keep-order_by (λ e. e.timestamp) (λ e. e.is_read) (reads ++ actions)
        ∙ ap (order_by (λ e. e.timestamp)) reads_part
        ∙ sym (
            map-order_by (λ e. e.timestamp) read_event
              (keep (read_matches owner_id none since platform) l.reads)),
    keep-order_by (λ e. e.timestamp) (λ e. not e.is_read) (reads ++ actions)
        ∙ ap (order_by (λ e. e.timestamp)) actions_part
        ∙ sym (
            map-order_by (λ e. e.timestamp) action_event
              (keep (action_matches owner_id none since platform []) l.actions)),
    order_by-Descending (λ e. e.timestamp) (reads ++ actions),
  )

-- The number of reads in a history that is sorted, and the first of them.
abbrev pub summary : List ReadRow → Option ReadCount
summary [] = none
summary (r ∷ rs) = some (record { read_count = length (r ∷ rs); last_read = r.timestamp })

length-insert_by :
    (r : ReadRow) (rs : List ReadRow) → length (insert_by (λ x. x.timestamp) r rs) ≡ length rs + 1
unfolding insert_by
length-insert_by r [] = omega arith
length-insert_by r (x ∷ rs) = ground (arith, length-insert_by r rs)

summary-insert_by :
    (r : ReadRow) (rs : List ReadRow) (c : Option ReadCount)
    → summary rs ≡ c
    → summary (insert_by (λ x. x.timestamp) r rs) ≡ (elim c [
      | none ↦ some (record { read_count = 1; last_read = r.timestamp })
      | some d ↦
          some (record { read_count = d.read_count + 1; last_read = max r.timestamp d.last_read })
    ])
unfolding insert_by
summary-insert_by r [] none h = refl
summary-insert_by r [] (some d) h = absurd (ground arith)
summary-insert_by r (x ∷ rs) none h = absurd (ground arith)
summary-insert_by r (x ∷ rs) (some d) h = ground (arith, h, length-insert_by r rs)

summary-order_by : (rs : List ReadRow) → summary (order_by (λ x. x.timestamp) rs) ≡ count_reads rs
unfolding order_by count_reads
summary-order_by [] = refl
summary-order_by (r ∷ rs) =
    summary-insert_by r (order_by (λ x. x.timestamp) rs) (count_reads rs) (summary-order_by rs)

keep-same :
    (p q : ReadRow → Bool) (rs : List ReadRow) → ((r : ReadRow) → p r ≡ q r) → keep p rs ≡ keep q rs
keep-same p q [] h = refl
keep-same p q (r ∷ rs) h = rw (h r, keep-same p q rs h) refl

history-count :
    (owner_id i : String) (l : Log)
    → str_eq i "" ≡ false
    → summary (get_reads owner_id (some i) none none none l)
      ≡ count_reads (keep (λ r. str_eq r.owner_id owner_id && str_eq r.entry_id i) l.reads)
unfolding get_reads limit_clause read_matches
history-count owner_id i l named =
    summary-order_by (keep (read_matches owner_id (some i) none none) l.reads)
    ∙ ap count_reads (
        keep-same (read_matches owner_id (some i) none none)
          (λ r. str_eq r.owner_id owner_id && str_eq r.entry_id i) l.reads
          (λ r. ground (arith, named)))

-- The read count of an entry that is asked for is that of its read history: the number of the
-- reads in the history and the time of the first, the last read; and there is none if the history
-- is empty, or for an entry that is not asked for. The id must not be empty.
pub get_read_counts-get_reads :
    (owner_id : String) (ids : List String) (l : Log) (i : String)
    → str_eq i "" ≡ false
    → lookup i (get_read_counts owner_id ids l) ≡ (
        if any (λ j. str_eq j i) ids
        then summary (get_reads owner_id (some i) none none none l)
        else none)
unfolding get_read_counts lookup
get_read_counts-get_reads owner_id [] l i named = refl
get_read_counts-get_reads owner_id (j ∷ ids) l i named = elim (Option-cases (counted j)) [
  | inl unread ↦
      rw (get_read_counts, unread)
        (ground (
          arith,
          get_read_counts-get_reads owner_id ids l i named,
          history-count owner_id i l named,
          eq_iff j i,
          ap counted,
          unread,
        ))
  | inr (c, e) ↦
      rw (get_read_counts, e)
        (ground (
          arith,
          get_read_counts-get_reads owner_id ids l i named,
          history-count owner_id i l named,
          eq_iff j i,
          ap counted,
          e,
          lookup-insert j i c (get_read_counts owner_id ids l),
        ))
]
  where
    counted : String → Option ReadCount
    counted k = count_reads (keep (λ r. str_eq r.owner_id owner_id && str_eq r.entry_id k) l.reads)
