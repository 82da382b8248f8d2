-- ===== src/Sessions/Store.antt =====
-- `SessionStore` of src/mcp_awareness/session_registry.py, with the statements of
-- src/mcp_awareness/sql/session_*.sql on the two tables. A table is a dict from its primary key to
-- the other columns; instants and intervals are in microseconds, and NOW() is an argument.
pub mod Rows
use mcp_awareness.Base.{
  ℕ, ◌+◌, ◌-◌, Bool, true, false, not, ◌&&◌, String, List, [], ◌∷◌, Option, none, some, ltb, leb,
  str_eq, if◌then◌else◌, or_else, is_some, length,
}
use mcp_awareness.Base.Int.{is_zero}
use mcp_awareness.Base.Json.{Json, null, bool, num, text, arr, obj, end, nil, cons}
use mcp_awareness.Base.Dict.{Dict, lookup, insert}
use mcp_awareness.Base.Dict.Keys.{adjust, retain, count}
use mcp_awareness.Schema.{microseconds}

-- a row of session_registry
pub record Session : Type 0 where
  pub owner_id : String
  pub node : Option String
  pub protocol_version : Option String
  pub capabilities : Json
  pub client_info : Json
  pub created_at : ℕ
  pub last_seen : ℕ
  pub expires_at : ℕ

-- a row of session_redirects
pub record Redirect : Type 0 where
  pub new_session_id : String
  pub created_at : ℕ
  pub expires_at : ℕ

pub record Tables : Type 0 where
  pub sessions : Dict Session
  pub redirects : Dict Redirect

pub record Settings : Type 0 where
  pub ttl_seconds : ℕ
  pub redirect_grace_seconds : ℕ

abbrev pub is_active : ℕ → Session → Bool
is_active now row = ltb now row.expires_at

-- What a caller gives to `register` besides the identifier.
pub record Registration : Type 0 where
  pub owner_id : String
  pub node : Option String
  pub protocol_version : Option String
  pub capabilities : Json
  pub client_info : Json

-- `value or {}`
unfoldable pub or_empty : Json → Json
or_empty null = obj end
or_empty (bool false) = obj end
or_empty (bool true) = bool true
or_empty (num n) = if is_zero n then obj end else num n
or_empty (text s) = if str_eq s "" then obj end else text s
or_empty (arr nil) = obj end
or_empty (arr (cons j js)) = arr (cons j js)
or_empty (obj fs) = obj fs

unfoldable pub new_row : Settings → ℕ → Registration → Session
new_row c now r = record {
  owner_id = r.owner_id;
  node = r.node;
  protocol_version = r.protocol_version;
  capabilities = or_empty r.capabilities;
  client_info = or_empty r.client_info;
  created_at = now;
  last_seen = now;
  expires_at = now + microseconds c.ttl_seconds;
}

-- `none` is the exception of an identifier that is there already.
unfoldable pub register : Settings → ℕ → String → Registration → Tables → Option Tables
unfolding new_row
register c now session_id r db =
    if is_some (lookup session_id db.sessions)
    then none
    else some (record db { sessions = insert session_id (new_row c now r) db.sessions })

-- the row of a session that has not expired
unfoldable pub find_session : ℕ → String → Tables → Option Session
find_session now session_id db = elim (lookup session_id db.sessions) [
  | none ↦ none
  | some row ↦ if is_active now row then some row else none
]

abbrev pub extend : Settings → ℕ → Session → Session
extend c now row =
    if is_active now row
    then record row { last_seen = now; expires_at = now + microseconds c.ttl_seconds }
    else row

unfoldable pub touch : Settings → ℕ → String → Tables → Tables
touch c now session_id db = record db { sessions = adjust session_id (extend c now) db.sessions }

abbrev pub expire : ℕ → Session → Session
expire now row = record row { expires_at = now }

unfoldable pub invalidate : ℕ → String → Tables → Tables
invalidate now session_id db = record db { sessions = adjust session_id (expire now) db.sessions }

abbrev pub active_of : ℕ → String → Session → Bool
active_of now owner_id row = str_eq row.owner_id owner_id && is_active now row

unfoldable pub count_active : ℕ → String → Tables → ℕ
count_active now owner_id db = count (active_of now owner_id) db.sessions

unfoldable pub new_redirect : Settings → ℕ → String → Redirect
new_redirect c now new_session_id = record {
  new_session_id = new_session_id;
  created_at = now;
  expires_at = now + microseconds c.redirect_grace_seconds;
}

-- ON CONFLICT (old_session_id) DO UPDATE
unfoldable pub add_redirect : Settings → ℕ → String → String → Tables → Tables
unfolding new_redirect
add_redirect c now old_session_id new_session_id db = record db {
  redirects = insert old_session_id (new_redirect c now new_session_id) db.redirects;
}

unfoldable pub redirect_lookup : ℕ → String → Tables → Option String
redirect_lookup now session_id db = elim (lookup session_id db.redirects) [
  | none ↦ none
  | some row ↦ if ltb now row.expires_at then some row.new_session_id else none
]

-- the rows that are left, and how many were deleted
unfoldable pub cleanup_expired : ℕ → Tables → Tables × ℕ
cleanup_expired now db =
    let redirects = retain (λ (row : Redirect). ltb now row.expires_at) db.redirects in
    let sessions = retain (is_active now) db.sessions in
    (
      record { sessions = sessions; redirects = redirects },
      (length db.redirects - length redirects) + (length db.sessions - length sessions),
    )

unfoldable pub delete_redirects_to : String → Tables → Tables
delete_redirects_to session_id db = record db {
  redirects = retain (λ (row : Redirect). not (str_eq row.new_session_id session_id)) db.redirects;
}
