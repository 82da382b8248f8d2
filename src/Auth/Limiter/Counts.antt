-- ===== src/Auth/Limiter/Counts.antt =====
-- The counters against the requests that are being served.
use mcp_awareness.Base.{
  ℕ, suc, ◌+◌, ◌-◌, ◌≤◌, ◌<◌, ◌≡◌, refl, sym, ap, ◌∙◌, Bool, false, ◌||◌, String, List, [], ◌∷◌,
  ◌++◌, some, arith, str_eq, eq_iff, if◌then◌else◌, or_else, length, length-append,
}
use mcp_awareness.Base.Dict.{
  Dict, lookup, insert, remove, lookup-insert, lookup-remove, lookup-append, length-remove-le,
}
use mcp_awareness.Auth.Limiter.{
  Limits, Gate, enter, leave, Reach, start, next, inflight_of, count_last, overflows, evict,
  acquire, release,
}

-- how often an owner stands in the list
unfoldable pub occurrences : String → List String → ℕ
occurrences o [] = 0
occurrences o (x ∷ xs) = if str_eq x o then suc (occurrences o xs) else occurrences o xs

occurrences-append :
    (o : String) (xs ys : List String)
    → occurrences o (xs ++ ys) ≡ occurrences o xs + occurrences o ys
unfolding occurrences
occurrences-append o [] ys = omega arith
occurrences-append o (x ∷ xs) ys = ground (arith, occurrences-append o xs ys)

occurrences-remove :
    (o owner : String) (xs ys : List String)
    → occurrences o (xs ++ owner ∷ ys)
      ≡ (if str_eq owner o then suc (occurrences o (xs ++ ys)) else occurrences o (xs ++ ys))
unfolding occurrences
occurrences-remove o owner xs ys =
    ground (arith, occurrences-append o xs (owner ∷ ys), occurrences-append o xs ys)

inflight-count_last :
    (o owner : String) (n : ℕ) (d : Dict ℕ)
    → inflight_of o (count_last owner n d) ≡ (if str_eq owner o then n else inflight_of o d)
unfolding count_last lookup
inflight-count_last o owner n d =
    ground (arith, lookup-append o (remove owner d) ((owner, n) ∷ []), lookup-remove owner o d)

inflight-release :
    (o owner : String) (d : Dict ℕ)
    → inflight_of o (release owner d)
      ≡ (if str_eq owner o then inflight_of o d - 1 else inflight_of o d)
unfolding release
inflight-release o owner d = ground (
  arith,
  eq_iff owner o,
  lookup-remove owner o d,
  lookup-insert owner o (or_else (lookup owner d) 1 - 1) d,
)

-- What `acquire` gives if it does not refuse.
pub acquire-some :
    (c : Limits) (owner : String) (d : Dict ℕ) {d' : Dict ℕ}
    → acquire c owner d ≡ some d'
    → (inflight_of owner d < c.max_concurrent)
      × (d' ≡ evict c (count_last owner (inflight_of owner d + 1) d))
unfolding acquire
acquire-some c owner d h = ground (arith, h)

evict_none : (c : Limits) (d : Dict ℕ) → overflows c d ≡ false → evict c d ≡ d
unfolding evict
evict_none c d h = rw h

-- Each owner's counter is the number of its requests that are being served, and is within the
-- limit.
abbrev pub Exact : Limits → Gate → Type 0
Exact c g =
    (o : String)
    → (inflight_of o g.counters ≡ occurrences o g.running)
      × (occurrences o g.running ≤ c.max_concurrent)

or_false : (a b : Bool) → a || b ≡ false → (a ≡ false) × (b ≡ false)
or_false a b h = ground (arith, h)

enter-Exact :
    (c : Limits) (g h : Gate) (owner : String)
    → Exact c g
    → acquire c owner g.counters ≡ some h.counters
    → overflows c (count_last owner (inflight_of owner g.counters + 1) g.counters) ≡ false
    → h.running ≡ owner ∷ g.running
    → Exact c h
unfolding occurrences
enter-Exact c g h owner v a calm e o = (
  ap (inflight_of o) (got.1 ∙ evict_none c _ calm)
      ∙ inflight-count_last o owner _ g.counters
      ∙ (ground (arith, v o, eq_iff owner o, e)),
  ground (arith, v o, v owner, got.0, eq_iff owner o, e),
)
  where
    got :
        (inflight_of owner g.counters < c.max_concurrent)
        × (h.counters ≡ evict c (count_last owner (inflight_of owner g.counters + 1) g.counters))
    got = acquire-some c owner g.counters a

leave-Exact :
    (c : Limits) (g h : Gate) (owner : String) (xs ys : List String)
    → Exact c g
    → g.running ≡ xs ++ owner ∷ ys
    → h.counters ≡ release owner g.counters
    → h.running ≡ xs ++ ys
    → Exact c h
leave-Exact c g h owner xs ys v e r f o = (
  ap (inflight_of o) r ∙ inflight-release o owner g.counters ∙ (ground (arith, (v o).0, was, now)),
  ground (arith, (v o).1, was, now),
)
  where
    was :
        occurrences o g.running
        ≡ (if str_eq owner o then suc (occurrences o (xs ++ ys)) else occurrences o (xs ++ ys))
    was = ap (occurrences o) e ∙ occurrences-remove o owner xs ys

    now : occurrences o h.running ≡ occurrences o (xs ++ ys)
    now = ap (occurrences o) f

-- As long as no owner's counter was evicted, each counter is the number of the owner's requests
-- that are being served, and no owner has more of them than the limit.
pub Reach-Exact : {c : Limits} {g : Gate} → Reach c g → g.evicted ≡ false → Exact c g
unfolding occurrences lookup
Reach-Exact start h = λ o. (refl, omega arith)
Reach-Exact {c} (next {g} {h = g'} r (enter owner a run ev)) h =
    let (was, calm) = or_false _ _ (sym ev ∙ h) in
    enter-Exact c g g' owner (Reach-Exact r was) a calm run
Reach-Exact {c} (next {g} {h = g'} r (leave owner xs ys e cs run ev)) h =
    leave-Exact c g g' owner xs ys (Reach-Exact r (sym ev ∙ h)) e cs run

length-evict-le :
    (c : Limits) (d : Dict ℕ) → length d ≤ c.max_owners + 1 → length (evict c d) ≤ c.max_owners
unfolding evict
length-evict-le c [] h = ground arith
length-evict-le c (x ∷ d) h = ground arith

length-count_last-le :
    (owner : String) (n : ℕ) (d : Dict ℕ) → length (count_last owner n d) ≤ length d + 1
unfolding count_last
length-count_last-le owner n d =
    omega (arith, length-append (remove owner d) ((owner, n) ∷ []), length-remove-le owner d)

length-insert_known :
    (k : String) (v : ℕ) (d : Dict ℕ) → 0 < inflight_of k d → length (insert k v d) ≡ length d
unfolding lookup insert
length-insert_known k v [] h = absurd (omega (arith, h))
length-insert_known k v ((j, w) ∷ d) h = ground (arith, h, length-insert_known k v d)

length-release-le : (owner : String) (d : Dict ℕ) → length (release owner d) ≤ length d
unfolding release
length-release-le owner d =
    ground (
      arith,
      length-remove-le owner d,
      length-insert_known owner (or_else (lookup owner d) 1 - 1) d,
    )

-- However the requests come and go, the middleware never keeps the counters of more owners than
-- the cap.
pub Reach-bounded : {c : Limits} {g : Gate} → Reach c g → length g.counters ≤ c.max_owners
Reach-bounded start = omega arith
Reach-bounded {c} (next {g} r (enter owner a run ev)) = ground (
  arith,
  (acquire-some c owner g.counters a).1,
  length-evict-le c (count_last owner (inflight_of owner g.counters + 1) g.counters),
  length-count_last-le owner (inflight_of owner g.counters + 1) g.counters,
  Reach-bounded r,
)
Reach-bounded {c} (next {g} r (leave owner xs ys e cs run ev)) =
    ground (arith, cs, length-release-le owner g.counters, Reach-bounded r)
