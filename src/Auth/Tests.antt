-- ===== src/Auth/Tests.antt =====
-- A token check with one user, and the theorems of the authentication at it.
use mcp_awareness.Base.{◌<◌, ◌≡◌, ◌≢◌, refl, false, String, [], ◌∷◌, none, some, arith}
use mcp_awareness.Base.Dict.{Dict, lookup, insert, remove}
use mcp_awareness.Base.Text.{Text, to_lower, starts_with}
use mcp_awareness.Sessions.Messages.{Scope, header, header_from}
use mcp_awareness.Auth.Limiter.{
  Limits, Gate, Reach, start, next, enter, leave, acquire, release, count_last, evict, inflight_of,
}
use mcp_awareness.Auth.Limiter.Counts.{Exact, Reach-Exact}
use mcp_awareness.Auth.Identity.{
  AuthEnv, invalid, Provider, Claims, UserStore, claims_of, claims_for, enrich, try_oauth,
  try_self_signed, read_payload, resolve_user, known_user,
}
use mcp_awareness.Auth.Admit.{
  AuthState, serve, bearer_token, admit, is_public, authenticate, or_oauth, after_auth, take_slot,
}
use mcp_awareness.Auth.Admit.Outcomes.{Proves, admit-serve, admit-refused}

abbrev test_limits : Limits
test_limits = record { max_concurrent = 2; max_owners = 3 }

abbrev one_running : Gate
one_running = record { counters = ("alice", 1) ∷ []; running = "alice" ∷ []; evicted = false }

abbrev two_running : Gate
two_running = record {
  counters = ("alice", 2) ∷ [];
  running = "alice" ∷ "alice" ∷ [];
  evicted = false;
}

test_Reach : Reach test_limits one_running
unfolding acquire release count_last evict lookup insert remove
test_Reach =
    next {g = two_running}
      (next {g = one_running} (next start (enter "alice" refl refl refl))
        (enter "alice" refl refl refl))
      (leave "alice" [] ("alice" ∷ []) refl refl refl refl)

Reach-Exact_example : Exact test_limits one_running
Reach-Exact_example = Reach-Exact test_Reach refl

abbrev test_users : UserStore String
test_users = record {
  get_user_by_oauth = λ s issuer subject. some (some "alice");
  update_user_profile = λ s i email name. some "updated";
  link_oauth_identity = λ s subject issuer email. some (none, s);
  create_user_if_not_exists = λ s i email name subject issuer. some "created";
}

abbrev test_claims : Dict String
test_claims = ("sub", "u-1") ∷ ("iss", "https://issuer") ∷ ("email", "a@x") ∷ []

abbrev test_provider : Provider
test_provider = record {
  decode = λ token. some test_claims;
  user_claim = "sub";
  fetch_userinfo = λ token. [];
}

abbrev test_auth : AuthEnv String
test_auth = record {
  jwt_secret = "secret";
  decode = λ token. invalid;
  oauth_validator = some test_provider;
  auto_provision = false;
  users = test_users;
}

abbrev decoded_claims : Claims
decoded_claims = record {
  owner_id = "u-1";
  oauth_subject = some "u-1";
  oauth_issuer = some "https://issuer";
  email = some "a@x";
  name = none;
}

test_claims_for : claims_for test_provider [] ≡ some decoded_claims
unfolding claims_for claims_of enrich lookup
test_claims_for = refl

abbrev test_scope : Scope
test_scope = record {
  scope_type = "http";
  path = "/mcp";
  method = "POST";
  headers = ("authorization", "Bearer t") ∷ [];
}

abbrev test_auth_state : AuthState String
test_auth_state = record { users = "before"; owner_inflight = [] }

served_alice : (admit test_auth test_limits test_scope test_auth_state).0 ≡ serve "alice"
unfolding admit is_public starts_with bearer_token header header_from to_lower authenticate or_oauth
    try_self_signed read_payload try_oauth claims_for claims_of enrich lookup resolve_user
    known_user after_auth take_slot acquire
served_alice = refl

admit-serve_example :
    (token : Text) × (bearer_token test_scope ≡ some token)
    × Proves test_auth token "before" "alice"
    × (inflight_of "alice" [] < 2)
admit-serve_example =
    admit-serve test_auth test_limits test_scope test_auth_state "alice" served_alice

abbrev anonymous : Scope
anonymous = record test_scope { headers = [] }

not_served : (o : String) → (admit test_auth test_limits anonymous test_auth_state).0 ≢ serve o
unfolding admit is_public starts_with bearer_token header header_from
not_served o h = ground (arith, h)

admit-refused_example :
    (admit test_auth test_limits anonymous test_auth_state).1.owner_inflight ≡ []
admit-refused_example = admit-refused test_auth test_limits anonymous test_auth_state not_served
