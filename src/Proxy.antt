-- ===== src/Proxy.antt =====
-- The decisions of src/mcp_awareness/oauth_proxy.py: `RateLimiter`, `detect_bogus_request` and the
-- part of `OAuthProxyMiddleware.__call__` that chooses what happens to an HTTP request. A reading
-- of the monotonic clock and the client's address are arguments, and so is the match of the pattern
-- of injections. The requests to the provider, the texts of the last events and the warning about
-- missing headers are not modelled.
pub mod Window
pub mod Limit
mod Tests
use mcp_awareness.Base.{
  ℕ, ◌+◌, Bool, true, false, not, ◌&&◌, ◌||◌, String, List, [], ◌∷◌, ◌++◌, Option, none, some,
  str_eq, ltb, leb, if◌then◌else◌, or_else, is_some, any, all, keep, length, drop, map,
}
use mcp_awareness.Base.Dict.{Dict, lookup, insert, remove}

pub record RateConfig : Type 0 where
  pub max_requests : ℕ
  pub window : ℕ
  pub ban_duration : ℕ

pub record RateLimiter : Type 0 where
  pub hits : Dict (List ℕ)
  pub bans : Dict ℕ
  pub rate_limited_count : ℕ

abbrev pub max_rate_limit_ips : ℕ
max_rate_limit_ips = 10000

-- `t > cutoff`, with the subtraction of the window moved to the other side
abbrev pub in_window : RateConfig → ℕ → ℕ → Bool
in_window c now t = ltb now (t + c.window)

-- the timestamps of a client at the end of the order, as `move_to_end` leaves them
unfoldable pub hits_last : String → List ℕ → Dict (List ℕ) → Dict (List ℕ)
hits_last ip ts d = remove ip d ++ (ip, ts) ∷ []

abbrev pub too_many_ips : Dict (List ℕ) → Bool
too_many_ips d = ltb max_rate_limit_ips (length d)

-- `popitem(last=False)`, if there are too many clients
unfoldable pub drop_oldest : Dict (List ℕ) → Dict (List ℕ)
drop_oldest d = if too_many_ips d then drop 1 d else d

-- the timestamps of a client that are in the window
abbrev pub recent_hits : RateConfig → ℕ → String → RateLimiter → List ℕ
recent_hits c now ip s = keep (in_window c now) (or_else (lookup ip s.hits) [])

-- the sliding window
unfoldable pub check_window : RateConfig → ℕ → String → RateLimiter → Bool × RateLimiter
unfolding hits_last drop_oldest
check_window c now ip s =
    if leb c.max_requests (length (recent_hits c now ip s))
    then (
      false,
      record s {
        hits = hits_last ip (recent_hits c now ip s) s.hits;
        rate_limited_count = s.rate_limited_count + 1;
      },
    )
    else (
      true,
      record s { hits = drop_oldest (hits_last ip (recent_hits c now ip s ++ now ∷ []) s.hits) },
    )

unfoldable pub check : RateConfig → ℕ → String → RateLimiter → Bool × RateLimiter
unfolding check_window
check c now ip s = elim (lookup ip s.bans) [
  | none ↦ check_window c now ip s
  | some ban_expiry ↦
      if ltb now ban_expiry
      then (false, s)
      else check_window c now ip (record s { bans = remove ip s.bans })
]

unfoldable pub ban : RateConfig → ℕ → String → RateLimiter → RateLimiter
ban c now ip s = record s { bans = insert ip (now + c.ban_duration) s.bans }

abbrev pub oauth_routes : List String
oauth_routes = "/authorize" ∷ "/token" ∷ "/register" ∷ []

-- the method of a route
abbrev pub route_method : String → String
route_method path = if str_eq path "/authorize" then "GET" else "POST"

abbrev pub required_params : String → List String
required_params path =
    if str_eq path "/authorize" then "response_type" ∷ "client_id" ∷ "redirect_uri" ∷ [] else []

-- whether there is a reason to call the request bogus; the method is in upper case
unfoldable pub detect_bogus_request : (String → Bool) → String → String → Dict String → Bool
detect_bogus_request is_injection path method params =
    any (str_eq path) oauth_routes
    && (not (str_eq method (route_method path))
        || any (λ param. not (is_some (lookup param params))) (required_params path)
        || any (λ kv. is_injection kv.1) params)

-- The endpoints of the provider, and the configuration of the limiter of each route.
pub record ProxyEnv : Type 0 where
  pub authorization_endpoint : Option String
  pub token_endpoint : Option String
  pub registration_endpoint : Option String
  pub limits : String → RateConfig
  pub is_injection : String → Bool

-- What happens to a request.
pub data Decision : Type 0 where
  pass_on : Decision
  preflight : Decision
  forbidden : Decision
  rate_limited : Decision
  redirect : String → Decision
  forward : String → String → Decision
  no_endpoint : Decision

pub record ProxyState : Type 0 where
  pub rate_limiters : Dict RateLimiter
  pub raw_hits : Dict ℕ

-- the handler of a route
unfoldable pub handler : ProxyEnv → String → Decision
handler env path =
    if str_eq path "/authorize"
    then Decision.redirect (or_else env.authorization_endpoint "")
    else if str_eq path "/token"
    then (elim env.token_endpoint [
      | none ↦ Decision.no_endpoint
      | some upstream ↦ Decision.forward upstream "token"
    ])
    else (elim env.registration_endpoint [
      | none ↦ Decision.no_endpoint
      | some upstream ↦ Decision.forward upstream "register"
    ])

-- `path.lstrip("/")` of a route
abbrev pub route_name : String → String
route_name path =
    if str_eq path "/authorize"
    then "authorize"
    else if str_eq path "/token"
    then "token"
    else "register"

unfoldable pub record_hit : String → Dict ℕ → Dict ℕ
record_hit route d = elim (lookup route d) [ none ↦ d | some n ↦ insert route (n + 1) d ]

-- a request past the test for bogus ones, with the limiter of its route
unfoldable pub limited :
    ProxyEnv → ℕ → String → String → RateLimiter → ProxyState → Decision × ProxyState
unfolding check handler record_hit
limited env now ip path limiter st =
    let (allowed, limiter') = check (env.limits path) now ip limiter in
    let st' = record st { rate_limiters = insert path limiter' st.rate_limiters } in
    if allowed
    then (handler env path, record st' { raw_hits = record_hit (route_name path) st.raw_hits })
    else (Decision.rate_limited, st')

-- An HTTP request; each route has a limiter.
unfoldable pub serve :
    ProxyEnv → ℕ → String → String → String → Dict String → ProxyState → Decision × ProxyState
unfolding detect_bogus_request ban limited
serve env now ip path method params st = elim (lookup path st.rate_limiters) [
  | none ↦ (Decision.pass_on, st)
  | some limiter ↦
      if str_eq method "OPTIONS" && not (str_eq path "/authorize")
      then (Decision.preflight, st)
      else if detect_bogus_request env.is_injection path method params
      then (
        Decision.forbidden,
        record st {
          rate_limiters = insert path (ban (env.limits path) now ip limiter) st.rate_limiters;
        },
      )
      else limited env now ip path limiter st
]
