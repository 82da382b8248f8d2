-- ===== src/Auth/Identity.antt =====
-- `_try_self_signed`, `_try_oauth` and `_resolve_user` of src/mcp_awareness/middleware.py, and the
-- claims that `OAuthTokenValidator.validate` of src/mcp_awareness/oauth.py extracts. The checks of
-- a token by the JWT library, the provider's userinfo and the table of users are arguments.
pub mod Users
use mcp_awareness.Base.{
  Bool, ◌&&◌, ◌||◌, String, Option, none, some, str_eq, if◌then◌else◌, or_else, is_some,
}
use mcp_awareness.Base.Dict.{Dict, lookup}
use mcp_awareness.Base.Text.{Text, is_truthy}

-- What jwt.decode does with a self-signed token: a payload with its `sub`, or an exception.
pub data Decoded : Type 0 where
  payload : Option String → Decoded
  expired invalid failed : Decoded

-- The OAuth validator at one request; its `decode` gives the payload's claims as texts, or `none` if
-- it raises, and `fetch_userinfo` is empty if the provider does not answer. Both depend on the clock
-- and the network: a later request has a Provider of its own.
pub record Provider : Type 0 where
  pub decode : Text → Option (Dict String)
  pub user_claim : String
  pub fetch_userinfo : Text → Dict String

pub record Claims : Type 0 where
  pub owner_id : String
  pub oauth_subject : Option String
  pub oauth_issuer : Option String
  pub email : Option String
  pub name : Option String

-- The store's operations on users. `none` is an exception, which leaves the store as it was.
pub record UserStore (S : Type 0) : Type 0 where
  pub get_user_by_oauth : S → String → String → Option (Option String)
  pub update_user_profile : S → String → Option String → Option String → Option S
  pub link_oauth_identity : S → String → String → String → Option (Option String × S)
  pub create_user_if_not_exists :
      S → String → Option String → Option String → Option String → Option String → Option S

pub record AuthEnv (S : Type 0) : Type 0 where
  pub jwt_secret : String
  pub decode : Text → Decoded
  pub oauth_validator : Option Provider
  pub auto_provision : Bool
  pub users : UserStore S

-- `validate`, after the payload is decoded; `none` is its InvalidTokenError
unfoldable pub claims_of : String → Dict String → Option Claims
claims_of user_claim p =
    if is_truthy (lookup user_claim p)
    then some (record {
      owner_id = or_else (lookup user_claim p) "";
      oauth_subject = lookup "sub" p;
      oauth_issuer = lookup "iss" p;
      email = lookup "email" p;
      name = lookup "name" p;
    })
    else none

-- `userinfo.get("name") or userinfo.get("preferred_username", "")`
abbrev name_in : Dict String → String
name_in info =
    if is_truthy (lookup "name" info)
    then or_else (lookup "name" info) ""
    else or_else (lookup "preferred_username" info) ""

abbrev with_userinfo : Dict String → Claims → Claims
with_userinfo info c = record c {
  email = lookup "email" info;
  name =
      if is_some (lookup "name" info) || is_some (lookup "preferred_username" info)
      then some (name_in info)
      else c.name;
}

-- the claims, enriched if they have no e-mail address
unfoldable pub enrich : Provider → Text → Claims → Claims
enrich v token c = if is_some c.email then c else with_userinfo (v.fetch_userinfo token) c

-- `validate` and the enrichment
unfoldable pub claims_for : Provider → Text → Option Claims
unfolding claims_of enrich
claims_for v token = elim (v.decode token) [
  | none ↦ none
  | some p ↦ elim (claims_of v.user_claim p) [ none ↦ none | some c ↦ some (enrich v token c) ]
]

-- the owner, and the error's message, that the self-signed check makes of a decoded token
unfoldable pub read_payload : Decoded → Option String × Option String
read_payload (payload none) = (none, some "JWT missing 'sub' claim")
read_payload (payload (some sub)) =
    if str_eq sub "" then (none, some "JWT missing 'sub' claim") else (some sub, none)
read_payload expired = (none, some "Token expired")
read_payload invalid = (none, some "Invalid token")
read_payload failed = (none, none)

module _ {S : Type 0} (env : AuthEnv S) where
  -- the owner, and the error's message
  unfoldable pub try_self_signed : Text → Option String × Option String
  unfolding read_payload
  try_self_signed token =
      if str_eq env.jwt_secret "" then (none, none) else read_payload (env.decode token)

  -- step 3 of `_resolve_user`
  unfoldable pub provision : Claims → S → Option String × S
  provision c s =
      if env.auto_provision
      then elim (env.users.create_user_if_not_exists s c.owner_id c.email c.name c.oauth_subject
          c.oauth_issuer) [ none ↦ (none, s) | some created ↦ (some c.owner_id, created) ]
      else (none, s)

  -- step 2: the link on the first login
  unfoldable pub link : Claims → S → Option String × S
  unfolding provision
  link c s =
      if is_truthy c.email && is_truthy c.oauth_subject && is_truthy c.oauth_issuer
      then elim (env.users.link_oauth_identity s (or_else c.oauth_subject "")
          (or_else c.oauth_issuer "") (or_else c.email "")) [
            | none ↦ (none, s)
            | some (linked, s') ↦ if is_truthy linked then (linked, s') else provision c s'
          ]
      else provision c s

  -- step 1, for a user that is linked already
  unfoldable pub known_user : String → Claims → S → Option String × S
  known_user i c s =
      if is_truthy c.email || is_truthy c.name
      then elim (env.users.update_user_profile s i c.email c.name) [
        | none ↦ (none, s)
        | some updated ↦ (some i, updated)
      ]
      else (some i, s)

  -- `_resolve_user`
  unfoldable pub resolve_user : Claims → S → Option String × S
  unfolding known_user link
  resolve_user c s =
      if is_truthy c.oauth_issuer && is_truthy c.oauth_subject
      then elim (env.users.get_user_by_oauth s (or_else c.oauth_issuer "")
          (or_else c.oauth_subject "")) [
            | none ↦ (none, s)
            | some none ↦ link c s
            | some (some i) ↦ known_user i c s
          ]
      else link c s

  -- `resolved_id or owner_id`
  abbrev pub resolved : Claims → Option String × S → Option String × S
  resolved c (r, s) = (some (if is_truthy r then or_else r "" else c.owner_id), s)

  -- `_try_oauth`
  unfoldable pub try_oauth : Provider → Text → S → Option String × S
  unfolding claims_for resolve_user
  try_oauth v token s = elim (claims_for v token) [
    | none ↦ (none, s)
    | some c ↦ resolved c (resolve_user c s)
  ]
