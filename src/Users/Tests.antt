-- ===== src/Users/Tests.antt =====
-- A table with two users, and the theorems of the logins at it.
use mcp_awareness.Base.{◌≡◌, refl, true, String, [], ◌∷◌, none, some}
use mcp_awareness.Base.Dict.{Dict, lookup}
use mcp_awareness.Base.Text.{codes, text_eq, strip, to_lower, is_space}
use mcp_awareness.Helpers.Email.{canonical_email, before, behind}
use mcp_awareness.Auth.Identity.{
  AuthEnv, invalid, Provider, claims_of, claims_for, enrich, link, resolve_user, try_oauth,
}
use mcp_awareness.Users.{
  User, Users, get_user_by_oauth, postgres_users, user_by_oauth, find, has_identity, can_link,
  link_oauth_identity,
}
use mcp_awareness.Users.Identities.{after_logins-StandsFor}
use mcp_awareness.Users.Sequences.{at_time, after_logins}

-- linked to an identity of the provider
abbrev ann : User
ann = record {
  id = "ann";
  email = some "ann@x";
  canonical_email = some (codes "ann@x");
  display_name = none;
  oauth_subject = some "u-1";
  oauth_issuer = some "https://issuer";
  created = 1;
  updated = none;
  deleted = none;
}

-- entered before her first login
abbrev bea : User
bea = record {
  id = "bea";
  email = some "Bea@X";
  canonical_email = some (codes "bea@x");
  display_name = none;
  oauth_subject = none;
  oauth_issuer = none;
  created = 2;
  updated = none;
  deleted = none;
}

abbrev test_users : Users
test_users = ann ∷ bea ∷ []

abbrev test_claims : Dict String
test_claims = ("sub", "u-2") ∷ ("iss", "https://issuer") ∷ ("email", "bea+home@x") ∷ []

abbrev test_provider : Provider
test_provider = record {
  decode = λ token. some test_claims;
  user_claim = "sub";
  fetch_userinfo = λ token. [];
}

abbrev test_env : AuthEnv Users
test_env = record {
  jwt_secret = "";
  decode = λ token. invalid;
  oauth_validator = some test_provider;
  auto_provision = true;
  users = postgres_users 0;
}

after_logins-StandsFor_example :
    get_user_by_oauth
      (after_logins test_env
        (record { now = 5; token = []; provider = test_provider } ∷ [])
        test_users)
      "https://issuer"
      "u-1"
    ≡ some (some "ann")
unfolding get_user_by_oauth user_by_oauth find has_identity
after_logins-StandsFor_example =
    after_logins-StandsFor "https://issuer" "u-1" "ann" test_env
      (record { now = 5; token = []; provider = test_provider } ∷ []) test_users refl

-- The userinfo is asked for nothing, since the token has an e-mail address.
abbrev later_provider : Provider
later_provider = record test_provider { fetch_userinfo = λ token. ("email", "eve@x") ∷ [] }

-- the table after the login that links the identity to bea
abbrev after_one : Users
after_one =
    after_logins test_env (record { now = 5; token = []; provider = test_provider } ∷ []) test_users

-- The first login links the identity to the user with the e-mail address, less its tag.
links_bea : (try_oauth (at_time 5 test_env) test_provider [] test_users).0 ≡ some "bea"
unfolding try_oauth claims_for claims_of enrich lookup resolve_user link postgres_users
    get_user_by_oauth user_by_oauth find has_identity link_oauth_identity canonical_email can_link
    text_eq strip to_lower before behind is_space
links_bea = refl
