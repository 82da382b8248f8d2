-- ===== src/Auth/Admit.antt =====
-- `AuthMiddleware.__call__` of src/mcp_awareness/middleware.py up to the call of the application:
-- what becomes of a request. The `finally` after it is `release` of Auth/Limiter.
pub mod Outcomes
use mcp_awareness.Base.{
  ℕ, Bool, true, not, ◌||◌, String, List, [], ◌∷◌, Option, none, some, str_eq, if◌then◌else◌,
  or_else, drop,
}
use mcp_awareness.Base.Dict.{Dict}
use mcp_awareness.Base.Text.{Text, codes, lower_codes, starts_with}
use mcp_awareness.Sessions.Messages.{Scope, header}
use mcp_awareness.Auth.Limiter.{Limits, acquire}
use mcp_awareness.Auth.Identity.{AuthEnv, Provider, try_self_signed, try_oauth}

-- What becomes of a request: it is passed on without an owner, it gets 401 with a message or 429,
-- or the application serves it for an owner.
pub data Outcome : Type 0 where
  pass too_many : Outcome
  unauthorized : String → Outcome
  serve : String → Outcome

pub record AuthState (S : Type 0) : Type 0 where
  pub users : S
  pub owner_inflight : Dict ℕ

-- the paths that need no token
unfoldable pub is_public : String → Bool
is_public path =
    str_eq path "/health"
    || str_eq path "/favicon.ico"
    || starts_with (codes path) (codes "/.well-known/")
    || starts_with (codes path) (codes "/icons/")

-- the token of the Authorization header, if its scheme is Bearer
unfoldable pub bearer_token : Scope → Option Text
bearer_token scope =
    let auth_header = header "authorization" scope.headers in
    if starts_with (lower_codes auth_header) (codes "bearer ")
    then some (drop 7 (codes auth_header))
    else none

module _ {S : Type 0} (env : AuthEnv S) where
  -- the owner that OAuth gives, if it gives one, or the error of the self-signed check
  abbrev pub by_oauth : Option String → Option String × S → Option String × Option String × S
  by_oauth error (none, s) = (none, error, s)
  by_oauth error (some o, s) = (some o, none, s)

  -- the fallback: it is tried if the self-signed check gave no owner
  unfoldable pub or_oauth :
      Text → S → Option String × Option String → Option String × Option String × S
  or_oauth token s (some o, error) = (some o, error, s)
  or_oauth token s (none, error) = elim env.oauth_validator [
    | none ↦ (none, error, s)
    | some v ↦ by_oauth error (try_oauth env v token s)
  ]

  -- the owner or the error's message, and the users
  unfoldable pub authenticate : Text → S → Option String × Option String × S
  unfolding or_oauth
  authenticate token s = or_oauth token s (try_self_signed env token)

module _ {S : Type 0} (env : AuthEnv S) (limits : Limits) where
  -- the concurrency limit of an authenticated request
  unfoldable pub take_slot : String → AuthState S → Outcome × AuthState S
  take_slot owner st = elim (acquire limits owner st.owner_inflight) [
    | none ↦ (too_many, st)
    | some d ↦ (serve owner, record st { owner_inflight = d })
  ]

  unfoldable pub after_auth :
      AuthState S → Option String × Option String × S → Outcome × AuthState S
  unfolding take_slot
  after_auth st (none, error, s) =
      (unauthorized (or_else error "Invalid token"), record st { users = s })
  after_auth st (some o, error, s) = take_slot o (record st { users = s })

  -- `__call__`
  unfoldable pub admit : Scope → AuthState S → Outcome × AuthState S
  unfolding authenticate after_auth
  admit scope st =
      if not (str_eq scope.scope_type "http") || is_public scope.path
      then (pass, st)
      else elim (bearer_token scope) [
        | none ↦ (unauthorized "Missing or invalid Authorization header", st)
        | some token ↦ after_auth st (authenticate env token st.users)
      ]
