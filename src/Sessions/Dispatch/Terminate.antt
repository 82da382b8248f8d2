-- ===== src/Sessions/Dispatch/Terminate.antt =====
-- What a DELETE request does to the registry.
use mcp_awareness.Base.{
  ℕ, ◌≤◌, ◌≡◌, ◌≢◌, refl, not, String, List, none, some, arith, str_eq, eq_iff, eq_refl, ◌∙◌,
  if◌then◌else◌,
}
use mcp_awareness.Base.Dict.Keys.{lookup-retain}
use mcp_awareness.Sessions.Store.{
  Redirect, Tables, find_session, redirect_lookup, invalidate, delete_redirects_to,
}
use mcp_awareness.Sessions.Store.Rows.{Keyed, find_session-invalidate, invalidate-Keyed}
use mcp_awareness.Sessions.Messages.{Scope, Chunk}
use mcp_awareness.Sessions.Middleware.{Env, Context, State, invalidates, deletes, pass_through}
use mcp_awareness.Sessions.Initialize.Limits.{schedule_cleanup-tables}
use mcp_awareness.Sessions.Subsequent.Isolation.{AllUp}
use mcp_awareness.Sessions.Dispatch.{forget_session, handle_terminate}

find_session-delete_redirects_to :
    (now : ℕ) (i j : String) (db : Tables)
    → find_session now j (delete_redirects_to i db) ≡ find_session now j db
unfolding find_session delete_redirects_to
find_session-delete_redirects_to now i j db = refl

redirect_lookup-delete_redirects_to :
    (now : ℕ) (i j : String) (db : Tables)
    → Keyed db
    → redirect_lookup now j (delete_redirects_to i db) ≢ some i
unfolding redirect_lookup delete_redirects_to
redirect_lookup-delete_redirects_to now i j db k h = ground (
  arith,
  h,
  lookup-retain (λ (row : Redirect). not (str_eq row.new_session_id i)) j db.redirects k.redirects,
  eq_refl i,
)

-- The tables after a termination whose calls of the store all went through.
forgotten : ℕ → String → Tables → Tables
forgotten now i db = delete_redirects_to i (invalidate now i db)

find_session-forgotten :
    (now later : ℕ) (i j : String) (db : Tables)
    → now ≤ later
    → find_session later j (forgotten now i db)
      ≡ (if str_eq i j then none else find_session later j db)
unfolding forgotten
find_session-forgotten now later i j db h =
    find_session-delete_redirects_to later i j (invalidate now i db)
    ∙ find_session-invalidate now later i j db h

redirect_lookup-forgotten :
    (now later : ℕ) (i j : String) (db : Tables)
    → Keyed db
    → redirect_lookup later j (forgotten now i db) ≢ some i
unfolding forgotten
redirect_lookup-forgotten now later i j db k =
    redirect_lookup-delete_redirects_to later i j (invalidate now i db)
      (invalidate-Keyed now i db k)

module _ {A : Type 0} (env : Env A) (ctx : Context) where
  forget_session-tables :
      (i : String) (s : State A)
      → AllUp ctx
      → (forget_session env ctx i s).tables ≡ forgotten ctx.now i s.tables
  unfolding forget_session forgotten
  forget_session-tables i s up =
      rw (forget_session, up.at_call invalidates, up.at_call deletes)
        (schedule_cleanup-tables env ctx _)

  handle_terminate-tables :
      (scope : Scope) (chunks : List Chunk) (i : String) (s : State A)
      → AllUp ctx
      → (handle_terminate env ctx scope chunks (some i) s).1.tables ≡ forgotten ctx.now i s.tables
  unfolding handle_terminate pass_through
  handle_terminate-tables scope chunks i s up =
      forget_session-tables i (pass_through env ctx scope chunks s).1 up

  -- Where every call of the store in the request goes through, a DELETE request with the identifier
  -- of a session ends it, whoever sends it and whatever the application answers: the session is not
  -- found then or later, no redirect leads to it, and every other session is found as before. The
  -- tables have distinct keys.
  pub handle_terminate-forgets :
      (scope : Scope) (chunks : List Chunk) (i : String) (s : State A) (later : ℕ)
      → AllUp ctx
      → Keyed s.tables
      → ctx.now ≤ later
      → let db = (handle_terminate env ctx scope chunks (some i) s).1.tables in
        (find_session later i db ≡ none)
        × ((j : String) → redirect_lookup later j db ≢ some i)
        × ((j : String) → i ≢ j → find_session later j db ≡ find_session later j s.tables)
  handle_terminate-forgets scope chunks i s later up k h =
      rw (handle_terminate-tables scope chunks i s up) (
        find_session-forgotten ctx.now later i i s.tables h ∙ (rw (eq_refl i)),
        λ j. redirect_lookup-forgotten ctx.now later i j s.tables k,
        λ j other.
            ground (arith, find_session-forgotten ctx.now later i j s.tables h, eq_iff i j, other),
      )
