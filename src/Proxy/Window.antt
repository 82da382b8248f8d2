-- ===== src/Proxy/Window.antt =====
-- The timestamps that the limiter holds of a client, against the times at which it was let in.
use mcp_awareness.Base.{
  ℕ, ◌≡◌, ◌≤◌, ◌<◌, refl, ◌∙◌, sym, ap, Bool, Bool-cases, inl, inr, true, false, ◌&&◌, String, List,
  [], ◌∷◌, ◌++◌, Option, none, some, arith, str_eq, eq_iff, leb, if◌then◌else◌, or_else, keep,
  length, length-append, length-keep-le,
}
use mcp_awareness.Base.Dict.{Dict, lookup, remove, lookup-remove, lookup-append}
use mcp_awareness.Proxy.{
  RateConfig, RateLimiter, in_window, hits_last, too_many_ips, drop_oldest, recent_hits,
}

-- the times at which a client was let in, after a request
abbrev pub logged_hit : Bool → Bool → ℕ → List ℕ → List ℕ
logged_hit is_client allowed now log = if is_client && allowed then log ++ now ∷ [] else log

keep-append : (p : ℕ → Bool) (xs ys : List ℕ) → keep p (xs ++ ys) ≡ keep p xs ++ keep p ys
keep-append p [] ys = refl
keep-append p (x ∷ xs) ys = ground (arith, keep-append p xs ys)

-- a later window of a window
keep-later :
    (c : RateConfig) (before now : ℕ) (xs : List ℕ)
    → before ≤ now
    → keep (in_window c now) (keep (in_window c before) xs) ≡ keep (in_window c now) xs
keep-later c before now [] h = refl
keep-later c before now (x ∷ xs) h = ground (arith, keep-later c before now xs h)

lookup-hits_last :
    (other ip : String) (ts : List ℕ) (d : Dict (List ℕ))
    → lookup ip (hits_last other ts d) ≡ (if str_eq other ip then some ts else lookup ip d)
unfolding hits_last lookup
lookup-hits_last other ip ts d =
    lookup-append ip (remove other d) ((other, ts) ∷ [])
    ∙ (rw (lookup-remove other ip d) (merged (lookup ip d)))
  where
    merged :
        (o : Option (List ℕ))
        → (elim (if str_eq other ip then none else o) [
          | none ↦ lookup ip ((other, ts) ∷ [])
          | some v ↦ some v
        ])
          ≡ (if str_eq other ip then some ts else o)
    merged none = ground arith
    merged (some v) = ground arith

-- The limiter holds the times in the window at which the client was let in, and they are not too many.
abbrev pub Counted : RateConfig → String → ℕ → List ℕ → Dict (List ℕ) → Type 0
Counted c ip now log d =
    (keep (in_window c now) (or_else (lookup ip d) []) ≡ keep (in_window c now) log)
    × (length (keep (in_window c now) log) ≤ c.max_requests)

pub Counted-later :
    (c : RateConfig) (ip : String) (before now : ℕ) (log : List ℕ) (d : Dict (List ℕ))
    → before ≤ now
    → Counted c ip before log d
    → Counted c ip now log d
Counted-later c ip before now log d h (same, few) = (
  sym (keep-later c before now (or_else (lookup ip d) []) h)
      ∙ ap (keep (in_window c now)) same
      ∙ keep-later c before now log h,
  omega (
    arith,
    few,
    ap length (keep-later c before now log h),
    length-keep-le (in_window c now) (keep (in_window c before) log),
  ),
)

leb-false : (a b : ℕ) → leb a b ≡ false → b < a
leb-false a b h = ground arith

-- the timestamps in the window of the client that makes the request
recent-same :
    (c : RateConfig) (ip other : String) (now : ℕ) (log : List ℕ) (s : RateLimiter)
    → other ≡ ip
    → Counted c ip now log s.hits
    → recent_hits c now other s ≡ keep (in_window c now) log
recent-same c ip other now log s e (same, few) =
    ap (λ k. keep (in_window c now) (or_else (lookup k s.hits) [])) e ∙ same

keep_twice :
    (c : RateConfig) (now : ℕ) (xs : List ℕ)
    → keep (in_window c now) (keep (in_window c now) xs) ≡ keep (in_window c now) xs
keep_twice c now xs = keep-later c now now xs (omega arith)

-- a client's timestamps that are replaced by those in the window
pub Counted-kept :
    (c : RateConfig) (ip other : String) (now : ℕ) (log : List ℕ) (s : RateLimiter)
    → Counted c ip now log s.hits
    → Counted c ip now log (hits_last other (recent_hits c now other s) s.hits)
Counted-kept c ip other now log s v = elim (Bool-cases (str_eq other ip)) [
  | inl b ↦ (
    rw (lookup-hits_last other ip (recent_hits c now other s) s.hits, b)
        (keep_twice c now _ ∙ recent-same c ip other now log s ((eq_iff other ip).0 b) v),
    v.1,
  )
  | inr b ↦ (rw (lookup-hits_last other ip (recent_hits c now other s) s.hits, b) (v.0), v.1)
]

pub Counted-added :
    (c : RateConfig) (ip other : String) (now : ℕ) (log : List ℕ) (s : RateLimiter)
    → leb c.max_requests (length (recent_hits c now other s)) ≡ false
    → Counted c ip now log s.hits
    → Counted c ip now
        (logged_hit (str_eq other ip) true now log)
        (hits_last other (recent_hits c now other s ++ now ∷ []) s.hits)
Counted-added c ip other now log s room v = elim (Bool-cases (str_eq other ip)) [
  | inl b ↦
      let recent = recent-same c ip other now log s ((eq_iff other ip).0 b) v in
      rw (lookup-hits_last other ip (recent_hits c now other s ++ now ∷ []) s.hits, b)
        (
          keep-append (in_window c now) (recent_hits c now other s) (now ∷ [])
              ∙ ap (λ xs. xs ++ keep (in_window c now) (now ∷ [])) (keep_twice c now _ ∙ recent)
              ∙ sym (keep-append (in_window c now) log (now ∷ [])),
          omega (
            arith,
            ap length (keep-append (in_window c now) log (now ∷ [])),
            length-append (keep (in_window c now) log) (keep (in_window c now) (now ∷ [])),
            length-keep-le (in_window c now) (now ∷ []),
            ap length recent,
            leb-false _ _ room,
          ),
        )
  | inr b ↦ rw (lookup-hits_last other ip (recent_hits c now other s ++ now ∷ []) s.hits, b) v
]

pub logged_hit_refused : (b : Bool) (now : ℕ) (log : List ℕ) → logged_hit b false now log ≡ log
logged_hit_refused true now log = refl
logged_hit_refused false now log = refl

length-hits_last :
    (ip : String) (ts : List ℕ) (d : Dict (List ℕ))
    → length (hits_last ip ts d) ≡ length (hits_last ip [] d)
unfolding hits_last
length-hits_last ip ts d =
    length-append (remove ip d) ((ip, ts) ∷ []) ∙ sym (length-append (remove ip d) ((ip, []) ∷ []))

pub nothing_dropped :
    (ip : String) (ts : List ℕ) (d : Dict (List ℕ))
    → too_many_ips (hits_last ip [] d) ≡ false
    → drop_oldest (hits_last ip ts d) ≡ hits_last ip ts d
unfolding drop_oldest
nothing_dropped ip ts d h = rw (length-hits_last ip ts d, h) refl
