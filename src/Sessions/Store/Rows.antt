-- ===== src/Sessions/Store/Rows.antt =====
-- The tables keep their primary keys, and what each statement does to lookups and counts.
use mcp_awareness.Base.{
  ℕ, suc, ◌+◌, ◌≤◌, ◌<◌, ◌≡◌, String, none, some, arith, str_eq, eq_iff, eq_refl, if◌then◌else◌,
  ltb,
}
use mcp_awareness.Base.Dict.{lookup-insert}
use mcp_awareness.Base.Dict.Keys.{
  Distinct, lookup-adjust, lookup-retain, adjust-Distinct, retain-Distinct, insert-Distinct,
  count-insert_new, count-adjust_out,
}
use mcp_awareness.Schema.{microseconds}
use mcp_awareness.Sessions.Store.{
  Session, Redirect, Tables, Settings, Registration, is_active, active_of, new_row, register,
  find_session, extend, touch, expire, invalidate, new_redirect, count_active, add_redirect,
  redirect_lookup, cleanup_expired, delete_redirects_to,
}

-- Both tables have distinct keys.
pub record Keyed (db : Tables) : Type 0 where
  pub sessions : Distinct db.sessions
  pub redirects : Distinct db.redirects

pub register-Keyed :
    (c : Settings) (now : ℕ) (i : String) (r : Registration) (db : Tables) {db' : Tables}
    → Keyed db
    → register c now i r db ≡ some db'
    → Keyed db'
unfolding register
register-Keyed c now i r db k h = ground (arith, insert-Distinct i (new_row c now r) db.sessions)

pub touch-Keyed :
    (c : Settings) (now : ℕ) (i : String) (db : Tables) → Keyed db → Keyed (touch c now i db)
unfolding touch
touch-Keyed c now i db k = record {
  sessions = adjust-Distinct i (extend c now) db.sessions k.sessions;
  redirects = k.redirects;
}

pub invalidate-Keyed : (now : ℕ) (i : String) (db : Tables) → Keyed db → Keyed (invalidate now i db)
unfolding invalidate
invalidate-Keyed now i db k = record {
  sessions = adjust-Distinct i (expire now) db.sessions k.sessions;
  redirects = k.redirects;
}

pub add_redirect-Keyed :
    (c : Settings) (now : ℕ) (old new : String) (db : Tables)
    → Keyed db
    → Keyed (add_redirect c now old new db)
unfolding add_redirect
add_redirect-Keyed c now old new db k = record {
  sessions = k.sessions;
  redirects = insert-Distinct old _ db.redirects k.redirects;
}

pub cleanup_expired-Keyed : (now : ℕ) (db : Tables) → Keyed db → Keyed (cleanup_expired now db).0
unfolding cleanup_expired
cleanup_expired-Keyed now db k = record {
  sessions = retain-Distinct (is_active now) db.sessions k.sessions;
  redirects = retain-Distinct _ db.redirects k.redirects;
}

pub delete_redirects_to-Keyed :
    (i : String) (db : Tables) → Keyed db → Keyed (delete_redirects_to i db)
unfolding delete_redirects_to
delete_redirects_to-Keyed i db k = record {
  sessions = k.sessions;
  redirects = retain-Distinct _ db.redirects k.redirects;
}

-- The background cleanup is invisible: it deletes rows, and no lookup of a session or of a
-- redirect, then or later, gives another answer than without it.
pub cleanup_invisible :
    (now later : ℕ) (i : String) (db : Tables)
    → Keyed db
    → now ≤ later
    → (find_session later i (cleanup_expired now db).0 ≡ find_session later i db)
      × (redirect_lookup later i (cleanup_expired now db).0 ≡ redirect_lookup later i db)
unfolding cleanup_expired find_session redirect_lookup
cleanup_invisible now later i db k h = (
  ground (arith, lookup-retain (is_active now) i db.sessions k.sessions),
  ground (
    arith,
    lookup-retain (λ (row : Redirect). ltb now row.expires_at) i db.redirects k.redirects,
  ),
)

-- An invalidated session is not found again, and no other session is touched.
pub find_session-invalidate :
    (now later : ℕ) (i j : String) (db : Tables)
    → now ≤ later
    → find_session later j (invalidate now i db)
      ≡ (if str_eq i j then none else find_session later j db)
unfolding find_session invalidate
find_session-invalidate now later i j db h =
    ground (arith, lookup-adjust i j (expire now) db.sessions, eq_iff i j)

-- A registered session is found with its row until its time to live is over.
pub find_session-register :
    (c : Settings) (now later : ℕ) (i j : String) (r : Registration) (db : Tables) {db' : Tables}
    → register c now i r db ≡ some db'
    → find_session later j db' ≡ (
        if str_eq i j
        then (if ltb later (now + microseconds c.ttl_seconds) then some (new_row c now r) else none)
        else find_session later j db)
unfolding find_session register new_row
find_session-register c now later i j r db h =
    ground (arith, lookup-insert i j (new_row c now r) db.sessions, eq_iff i j)

pub redirect_lookup-add_redirect :
    (c : Settings) (now later : ℕ) (old new j : String) (db : Tables)
    → redirect_lookup later j (add_redirect c now old new db) ≡ (
        if str_eq old j
        then (if ltb later (now + microseconds c.redirect_grace_seconds) then some new else none)
        else redirect_lookup later j db)
unfolding redirect_lookup add_redirect
redirect_lookup-add_redirect c now later old new j db =
    ground (arith, lookup-insert old j (new_redirect c now new) db.redirects)

pub count_active-register :
    (c : Settings) (now : ℕ) (owner i : String) (r : Registration) (db : Tables) {db' : Tables}
    → register c now i r db ≡ some db'
    → 0 < c.ttl_seconds
    → count_active now owner db' ≡ (
        if str_eq r.owner_id owner
        then suc (count_active now owner db)
        else count_active now owner db)
unfolding register count_active new_row
count_active-register c now owner i r db h t =
    ground (arith, count-insert_new (active_of now owner) i (new_row c now r) db.sessions)

-- To invalidate an active session takes one off its owner's count.
pub count_active-invalidate :
    (now : ℕ) (i : String) (row : Session) (db : Tables)
    → Keyed db
    → find_session now i db ≡ some row
    → suc (count_active now row.owner_id (invalidate now i db)) ≡ count_active now row.owner_id db
unfolding find_session count_active invalidate
count_active-invalidate now i row db k h = ground (
  arith,
  count-adjust_out (active_of now row.owner_id) i (expire now) row db.sessions k.sessions,
  eq_refl row.owner_id,
)
