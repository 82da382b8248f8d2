-- ===== src/Users/Logins.antt =====
-- A login that is repeated: `_try_oauth` and `_resolve_user` of src/mcp_awareness/middleware.py
-- over the table of users, twice with one token.
use mcp_awareness.Base.{ℕ, String, Option}
use mcp_awareness.Base.Text.{Text}
use mcp_awareness.Auth.Identity.{AuthEnv, Claims, resolve_user}
use mcp_awareness.Users.{User, Users, new_user}
use mcp_awareness.Users.Sequences.{at_time}

module _ (env : AuthEnv Users) (c : Claims) (now now' : ℕ) where
  -- what the second login makes of the table that the first one left
  abbrev second : Option String × Users → Option String
  second r = (resolve_user (at_time now' env) c r.1).0

  -- the row that the first login would create
  abbrev created : User
  created = new_user now c.owner_id c.email c.name c.oauth_subject c.oauth_issuer
