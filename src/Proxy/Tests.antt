-- ===== src/Proxy/Tests.antt =====
-- A client that asks twice within a window of one request.
use mcp_awareness.Base.{
  ℕ, ◌≡◌, ◌≤◌, refl, arith, false, List, [], ◌∷◌, none, some, str_eq, keep, length,
}
use mcp_awareness.Base.Dict.{lookup, remove}
use mcp_awareness.Proxy.{
  RateConfig, RateLimiter, Decision, ProxyEnv, in_window, check, check_window, hits_last,
  drop_oldest, serve, detect_bogus_request,
}
use mcp_awareness.Proxy.Window.{logged_hit}
use mcp_awareness.Proxy.Limit.{Reach, start, request, Reach-max_requests}

abbrev test_config : RateConfig
test_config = record { max_requests = 1; window = 10; ban_duration = 100 }

abbrev test_limiter : RateLimiter
test_limiter = record { hits = []; bans = []; rate_limited_count = 0 }

abbrev one_request : RateLimiter
one_request = (check test_config 5 "x" test_limiter).1

abbrev two_requests : RateLimiter
two_requests = (check test_config 7 "x" one_request).1

abbrev one_log : List ℕ
one_log = logged_hit (str_eq "x" "x") (check test_config 5 "x" test_limiter).0 5 []

abbrev two_log : List ℕ
two_log = logged_hit (str_eq "x" "x") (check test_config 7 "x" one_request).0 7 one_log

-- only the first request was let in
let_in_once : two_log ≡ 5 ∷ []
unfolding check check_window hits_last drop_oldest lookup remove
let_in_once = refl

two_requests-Reach : Reach test_config "x" 7 two_log two_requests
unfolding check check_window hits_last drop_oldest lookup remove
two_requests-Reach =
    request {before = 5} "x"
      (request {before = 0} "x" (start {s = test_limiter} refl) (omega arith) refl) (omega arith)
      refl

Reach-max_requests_example : length (keep (in_window test_config 7) two_log) ≤ 1
Reach-max_requests_example =
    Reach-max_requests test_config "x" 7 two_log two_requests two_requests-Reach

abbrev test_env : ProxyEnv
test_env = record {
  authorization_endpoint = some "https://login";
  token_endpoint = some "https://token";
  registration_endpoint = none;
  limits = λ path. test_config;
  is_injection = λ s. false;
}

-- a request for authorization without its parameters is bogus
refused_without_params :
    (serve test_env 5 "x" "/authorize" "GET" []
      (record { rate_limiters = ("/authorize", test_limiter) ∷ []; raw_hits = [] })).0
    ≡ Decision.forbidden
unfolding serve detect_bogus_request lookup
refused_without_params = refl
