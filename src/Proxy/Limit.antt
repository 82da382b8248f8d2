-- ===== src/Proxy/Limit.antt =====
-- How many requests of a client the limiter lets in within its window.
use mcp_awareness.Base.{
  ℕ, ◌≡◌, ◌≤◌, refl, sym, Bool, true, false, String, List, [], ◌∷◌, ◌++◌, none, arith, str_eq, ltb,
  leb, keep, length, if-cases, elim-cases,
}
use mathlib.Core.Path.{subst}
use mcp_awareness.Base.Dict.{lookup, remove}
use mcp_awareness.Proxy.{
  RateConfig, RateLimiter, in_window, hits_last, too_many_ips, recent_hits, check_window, check,
  ban,
}
use mcp_awareness.Proxy.Window.{
  logged_hit, Counted, Counted-later, Counted-kept, Counted-added, logged_hit_refused,
  nothing_dropped,
}

-- The requests of all clients and the bans, in their order, with the clock's last reading and the
-- times at which this client was let in. No client's timestamps are dropped for want of room.
pub data Reach (c : RateConfig) (ip : String) : ℕ → List ℕ → RateLimiter → Type 0 where
  start : {s : RateLimiter} → lookup ip s.hits ≡ none → Reach c ip 0 [] s
  request :
      {before now : ℕ} {log : List ℕ} {s : RateLimiter} (other : String)
      → Reach c ip before log s
      → before ≤ now
      → too_many_ips (hits_last other [] s.hits) ≡ false
      → Reach c ip now
          (logged_hit (str_eq other ip) (check c now other s).0 now log)
          (check c now other s).1
  banned :
      {before : ℕ} {log : List ℕ} {s : RateLimiter} (now : ℕ) (other : String)
      → Reach c ip before log s
      → Reach c ip before log (ban c now other s)

check_window-Counted :
    (c : RateConfig) (ip other : String) (now : ℕ) (log : List ℕ) (s : RateLimiter)
    → too_many_ips (hits_last other [] s.hits) ≡ false
    → Counted c ip now log s.hits
    → Counted c ip now
        (logged_hit (str_eq other ip) (check_window c now other s).0 now log)
        (check_window c now other s).1.hits
unfolding check_window
check_window-Counted c ip other now log s fits v =
    if-cases {A = Bool × RateLimiter}
      (λ r. Counted c ip now (logged_hit (str_eq other ip) r.0 now log) r.1.hits)
      (leb c.max_requests (length (recent_hits c now other s))) _ _
      (λ full.
        subst (λ l. Counted c ip now l (hits_last other (recent_hits c now other s) s.hits))
          (sym (logged_hit_refused (str_eq other ip) now log))
          (Counted-kept c ip other now log s v))
      (λ room.
        subst (λ d. Counted c ip now (logged_hit (str_eq other ip) true now log) d)
          (sym (nothing_dropped other (recent_hits c now other s ++ now ∷ []) s.hits fits))
          (Counted-added c ip other now log s room v))

check-Counted :
    (c : RateConfig) (ip other : String) (now : ℕ) (log : List ℕ) (s : RateLimiter)
    → too_many_ips (hits_last other [] s.hits) ≡ false
    → Counted c ip now log s.hits
    → Counted c ip now
        (logged_hit (str_eq other ip) (check c now other s).0 now log)
        (check c now other s).1.hits
unfolding check
check-Counted c ip other now log s fits v =
    elim-cases {B = Bool × RateLimiter}
      (λ r. Counted c ip now (logged_hit (str_eq other ip) r.0 now log) r.1.hits)
      (lookup other s.bans) _ _ (check_window-Counted c ip other now log s fits v)
      (λ ban_expiry found.
        if-cases {A = Bool × RateLimiter}
          (λ r. Counted c ip now (logged_hit (str_eq other ip) r.0 now log) r.1.hits)
          (ltb now ban_expiry) _ _
          (λ banned.
            subst (λ l. Counted c ip now l s.hits)
              (sym (logged_hit_refused (str_eq other ip) now log)) v)
          (λ over.
            check_window-Counted c ip other now log (record s { bans = remove other s.bans }) fits
              v))

Reach-Counted :
    (c : RateConfig) (ip : String) (now : ℕ) (log : List ℕ) (s : RateLimiter)
    → Reach c ip now log s
    → Counted c ip now log s.hits
unfolding ban
Reach-Counted c ip _ _ _ (start {s = s} none_yet) = (rw none_yet refl, omega arith)
Reach-Counted c ip _ _ _
      (request {before = before} {now = now} {log = log} {s = s} other r later fits) =
    check-Counted c ip other now log s fits
      (Counted-later c ip before now log s.hits later (Reach-Counted c ip before log s r))
Reach-Counted c ip _ _ _ (banned {before = before} {log = log} {s = s} now other r) =
    Reach-Counted c ip before log s r

-- Over every sequence of requests and bans in which the limiter has room for all clients, the
-- requests of a client that were let in within the window that ends at the clock's last reading are
-- never more than the limit.
pub Reach-max_requests :
    (c : RateConfig) (ip : String) (now : ℕ) (log : List ℕ) (s : RateLimiter)
    → Reach c ip now log s
    → length (keep (in_window c now) log) ≤ c.max_requests
Reach-max_requests c ip now log s r = (Reach-Counted c ip now log s r).1
