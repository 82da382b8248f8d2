-- ===== src/Sessions/Dispatch/Keys.antt =====
-- No run of the registry breaks a primary key.
use mathlib.Core.Path.{subst}
use mcp_awareness.Base.{
  ℕ, not, ◌≡◌, sym, inl, inr, true, false, String, List, Option, none, some, arith, Bool,
  Bool-cases, if-cases, elim-cases, str_eq,
}
use mcp_awareness.Sessions.Store.{
  Session, Tables, Registration, find_session, invalidate, add_redirect, delete_redirects_to,
}
use mcp_awareness.Sessions.Store.Rows.{
  Keyed, register-Keyed, touch-Keyed, invalidate-Keyed, add_redirect-Keyed, cleanup_expired-Keyed,
  delete_redirects_to-Keyed,
}
use mcp_awareness.Sessions.Messages.{
  Scope, Chunk, Message, captured, extract_session_id, is_success, Capture, capture_all,
  nothing_captured, buffer_body, replayed, or_none, header, session_header,
}
use mcp_awareness.Sessions.Middleware.{
  Env, Context, State, InitParams, attempt, write, try_register, schedule_cleanup, debounced_touch,
  pass_through, Call, registers, looks_up, invalidates, redirects, deletes,
}
use mcp_awareness.Sessions.Initialize.{register_new, handle_initialize, registration_of, at_limit}
use mcp_awareness.Sessions.Subsequent.{
  persist, reinitialize, after_init, after_persist, answered, at_target, at_redirect, at_lookup,
  redirect_target, finish, recover, serve_session, handle_subsequent, not_found, registration_again,
}
use mcp_awareness.Sessions.Dispatch.{
  forget_session, handle_terminate, by_method, handle_request, do_cleanup, Step, serve, clean,
  Reach, here, next,
}

module _ {A : Type 0} (env : Env A) (ctx : Context) where
  try_register-Keyed :
      (i : String) (r : Registration) (db : Tables) {db' : Tables}
      → Keyed db
      → try_register env ctx i r db ≡ some db'
      → Keyed db'
  unfolding try_register
  try_register-Keyed i r db k h = elim (Bool-cases (ctx.up registers)) [
    | inl up ↦ register-Keyed env.settings ctx.now i r db k (ground arith)
    | inr down ↦ ground arith
  ]

  schedule_cleanup-Keyed :
      (s : State A) → Keyed s.tables → Keyed (schedule_cleanup env ctx s).tables
  unfolding schedule_cleanup
  schedule_cleanup-Keyed s k = ground arith

  debounced_touch-Keyed :
      (i : String) (s : State A) → Keyed s.tables → Keyed (debounced_touch env ctx i s).tables
  unfolding debounced_touch
  debounced_touch-Keyed i s k = ground (arith, touch-Keyed env.settings ctx.now i s.tables k)

  register_new-Keyed :
      (p : InitParams) (ms : List Message) (s : State A)
      → Keyed s.tables
      → Keyed (register_new env ctx p ms s).tables
  unfolding register_new
  register_new-Keyed p ms s k =
      elim-cases (λ (t : State A). Keyed t.tables) (extract_session_id (captured ms).1) s _ k
        λ i _.
          if-cases (λ (t : State A). Keyed t.tables) (str_eq i "") s _ (λ _. k)
            λ _.
              elim-cases (λ (t : State A). Keyed t.tables)
                (try_register env ctx i (registration_of env ctx p) s.tables) s _ k
                λ db e. schedule_cleanup-Keyed _ (try_register-Keyed i _ s.tables k e)

  write-Keyed :
      (call : Call) (f : Tables → Tables) (db : Tables) {db' : Tables}
      → ((d : Tables) → Keyed d → Keyed (f d))
      → Keyed db
      → write env ctx call f db ≡ some db'
      → Keyed db'
  write-Keyed call f db keeps k h = elim (Bool-cases (ctx.up call)) [
    | inl up ↦ ground (arith, keeps db k)
    | inr down ↦ ground arith
  ]

  invalidated-Keyed :
      (i : String) (db : Tables) {db' : Tables}
      → Keyed db
      → write env ctx invalidates (invalidate ctx.now i) db ≡ some db'
      → Keyed db'
  invalidated-Keyed i db = write-Keyed invalidates _ db (invalidate-Keyed ctx.now i)

  persist-Keyed :
      (old new : String) (row : Session) (db : Tables)
      → Keyed db
      → Keyed (persist env ctx old new row db).0
  unfolding persist
  persist-Keyed old new row db k =
      elim-cases (λ (t : Tables × Bool). Keyed t.0)
        (try_register env ctx new (registration_again env ctx row) db) _ _ k
        λ registered e.
          let kr : Keyed registered = try_register-Keyed new _ db k e in
          elim-cases (λ (t : Tables × Bool). Keyed t.0)
            (write env ctx redirects (add_redirect env.settings ctx.now old new) registered) _ _ kr
            λ redirected f.
              let kd : Keyed redirected =
                write-Keyed redirects _ registered (add_redirect-Keyed env.settings ctx.now old new)
                  kr f in
              elim-cases (λ (t : Tables × Bool). Keyed t.0)
                (write env ctx invalidates (invalidate ctx.now old) redirected) _ _ kd
                λ done g. invalidated-Keyed old redirected kd g

  after_persist-Keyed :
      (scope : Scope) (b new : String) (s : State A) (r : Tables × Bool)
      → Keyed r.0
      → Keyed (after_persist env ctx scope b new s r).1.tables
  unfolding after_persist
  after_persist-Keyed scope b new s (db, true) k = k
  after_persist-Keyed scope b new s (db, false) k = k

  after_init-Keyed :
      (scope : Scope) (b old : String) (row : Session) (s : State A) (o : Option String)
      → Keyed s.tables
      → Keyed (after_init env ctx scope b old row s o).1.tables
  unfolding after_init
  after_init-Keyed scope b old row s none k = k
  after_init-Keyed scope b old row s (some new) k =
      after_persist-Keyed scope b new s (persist env ctx old new row s.tables)
        (persist-Keyed old new row s.tables k)

  reinitialize-Keyed :
      (scope : Scope) (b old : String) (row : Session) (s : State A)
      → Keyed s.tables
      → Keyed (reinitialize env ctx scope b old row s).1.tables
  unfolding reinitialize
  reinitialize-Keyed scope b old row s k = after_init-Keyed scope b old row _ _ k

  finish-Keyed :
      (i : String) (c : Capture) (s : State A)
      → Keyed s.tables
      → Keyed (finish env ctx i c s).1.tables
  unfolding finish
  finish-Keyed i c s k =
      if-cases (λ (t : State A). Keyed t.tables) (is_success c.status) _ s
        (λ _. schedule_cleanup-Keyed _ (debounced_touch-Keyed i s k)) (λ _. k)

  recover-Keyed :
      (i : String) (c : Capture) (r : Option (String × List Message) × State A)
      → Keyed r.1.tables
      → Keyed (recover env ctx i c r).1.tables
  unfolding recover
  recover-Keyed i c (none, s) k = finish-Keyed i c s k
  recover-Keyed i c (some (new, replay), s) k = k

  answered-Keyed :
      (scope : Scope) (b i : String) (row : Session) (c : Capture) (s : State A)
      → Keyed s.tables
      → Keyed (answered env ctx scope b i row c s).1.tables
  unfolding answered
  answered-Keyed scope b i row c s k =
      if-cases (λ (t : List Message × State A). Keyed t.1.tables) (not_found env ctx c.status) _ _
        (λ _. recover-Keyed i c _ (reinitialize-Keyed scope b i row s k))
        (λ _. finish-Keyed i c s k)

  serve_session-Keyed :
      (scope : Scope) (chunks : List Chunk) (i : String) (row : Session) (s : State A)
      → Keyed s.tables
      → Keyed (serve_session env ctx scope chunks i row s).1.tables
  unfolding serve_session
  serve_session-Keyed scope chunks i row s k =
      if-cases (λ (t : List Message × State A). Keyed t.1.tables)
        (not (str_eq row.owner_id ctx.owner_id)) _ _ (λ _. k)
        (λ _.
          answered-Keyed scope ((buffer_body chunks).0) i row
            (capture_all nothing_captured (env.app s.app_state scope (replayed chunks)).0)
            (record s { app_state = (env.app s.app_state scope (replayed chunks)).1 }) k)

  at_target-Keyed :
      (scope : Scope) (chunks : List Chunk) (i : String) (s : State A) (o : Option (Option Session))
      → Keyed s.tables
      → Keyed (at_target env ctx scope chunks i s o).1.tables
  unfolding at_target pass_through
  at_target-Keyed scope chunks i s none k = k
  at_target-Keyed scope chunks i s (some none) k = k
  at_target-Keyed scope chunks i s (some (some row)) k = serve_session-Keyed scope chunks i row s k

  at_redirect-Keyed :
      (scope : Scope) (chunks : List Chunk) (s : State A) (o : Option String)
      → Keyed s.tables
      → Keyed (at_redirect env ctx scope chunks s o).1.tables
  unfolding at_redirect pass_through
  at_redirect-Keyed scope chunks s none k = k
  at_redirect-Keyed scope chunks s (some target) k =
      if-cases (λ (t : List Message × State A). Keyed t.1.tables) (str_eq target "") _ _ (λ _. k)
        (λ _. at_target-Keyed _ chunks target s _ k)

  at_lookup-Keyed :
      (scope : Scope) (chunks : List Chunk) (i : String) (s : State A) (o : Option (Option Session))
      → Keyed s.tables
      → Keyed (at_lookup env ctx scope chunks i s o).1.tables
  unfolding at_lookup pass_through
  at_lookup-Keyed scope chunks i s none k = k
  at_lookup-Keyed scope chunks i s (some none) k =
      at_redirect-Keyed scope chunks s (redirect_target env ctx i s.tables) k
  at_lookup-Keyed scope chunks i s (some (some row)) k = serve_session-Keyed scope chunks i row s k

  handle_initialize-Keyed :
      (scope : Scope) (chunks : List Chunk) (s : State A)
      → Keyed s.tables
      → Keyed (handle_initialize env ctx scope chunks s).1.tables
  unfolding handle_initialize
  handle_initialize-Keyed scope chunks s k =
      if-cases (λ (t : List Message × State A). Keyed t.1.tables) (at_limit env ctx s.tables) _ _
        (λ _. k)
        λ _.
          if-cases (λ (t : State A). Keyed t.tables)
            (is_success (captured (env.app s.app_state scope (replayed chunks)).0).0) _ _
            (λ _. register_new-Keyed _ _ _ k) (λ _. k)

  forget_session-Keyed :
      (i : String) (s : State A) → Keyed s.tables → Keyed (forget_session env ctx i s).tables
  unfolding forget_session
  forget_session-Keyed i s k =
      elim-cases (λ (t : State A). Keyed t.tables)
        (write env ctx invalidates (invalidate ctx.now i) s.tables) _ _ k
        λ expired e.
          let ke : Keyed expired = invalidated-Keyed i s.tables k e in
          elim-cases (λ (t : State A). Keyed t.tables)
            (write env ctx deletes (delete_redirects_to i) expired) _ _ ke
            λ db f.
              schedule_cleanup-Keyed _
                (write-Keyed deletes _ expired (delete_redirects_to-Keyed i) ke f)

  handle_terminate-Keyed :
      (scope : Scope) (chunks : List Chunk) (o : Option String) (s : State A)
      → Keyed s.tables
      → Keyed (handle_terminate env ctx scope chunks o s).1.tables
  unfolding handle_terminate pass_through
  handle_terminate-Keyed scope chunks none s k = k
  handle_terminate-Keyed scope chunks (some i) s k = forget_session-Keyed i _ k

  by_method-Keyed :
      (scope : Scope) (chunks : List Chunk) (o : Option String) (s : State A)
      → Keyed s.tables
      → Keyed (by_method env ctx scope chunks o s).1.tables
  unfolding by_method pass_through handle_subsequent
  by_method-Keyed scope chunks none s k = ground (
    arith,
    handle_initialize-Keyed scope chunks s k,
    handle_terminate-Keyed scope chunks none s k,
  )
  by_method-Keyed scope chunks (some i) s k = ground (
    arith,
    at_lookup-Keyed scope chunks i s (attempt (ctx.up looks_up) (find_session ctx.now i s.tables))
        k,
    handle_terminate-Keyed scope chunks (some i) s k,
  )

  handle_request-Keyed :
      (scope : Scope) (chunks : List Chunk) (s : State A)
      → Keyed s.tables
      → Keyed (handle_request env ctx scope chunks s).1.tables
  unfolding handle_request pass_through
  handle_request-Keyed scope chunks s k =
      ground
        (arith, by_method-Keyed scope chunks (or_none (header session_header scope.headers)) s k)

do_cleanup-Keyed :
    {A : Type 0} (now : ℕ) (up : Bool) (s : State A)
    → Keyed s.tables
    → Keyed (do_cleanup now up s).tables
unfolding do_cleanup
do_cleanup-Keyed now up s k = ground (arith, cleanup_expired-Keyed now s.tables k)

Step-Keyed :
    {A : Type 0} {env : Env A} {s t : State A} → Step env s t → Keyed s.tables → Keyed t.tables
Step-Keyed {env} {s} (serve ctx scope chunks e) k =
    subst (λ u. Keyed u.tables) (sym e) (handle_request-Keyed env ctx scope chunks s k)
Step-Keyed {s} (clean now up e) k =
    subst (λ u. Keyed u.tables) (sym e) (do_cleanup-Keyed now up s k)

-- Whatever the clients send, the application answers and the store's calls do, and whenever the
-- cleanup runs, both tables keep their primary keys.
Reach-Keyed :
    {A : Type 0} {env : Env A} {s t : State A} → Reach env s t → Keyed s.tables → Keyed t.tables
Reach-Keyed here k = k
Reach-Keyed (next r st) k = Step-Keyed st (Reach-Keyed r k)
