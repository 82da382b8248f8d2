-- ===== src/Sessions/Initialize/Limits.antt =====
-- The limit on an owner's sessions.
use mathlib.Core.Path.{ap}
use native.Mathlib.Nat.{le_refl}
use mcp_awareness.Base.{
  ℕ, suc, ◌≤◌, ◌<◌, max, ◌≡◌, ◌≢◌, inl, inr, true, String, List, some, arith, Bool-cases, str_eq,
  eq_iff, if◌then◌else◌, elim-cases, if-cases,
}
use mcp_awareness.Sessions.Store.{Tables, Registration, count_active}
use mcp_awareness.Sessions.Store.Rows.{count_active-register}
use mcp_awareness.Sessions.Messages.{
  Scope, Chunk, Message, captured, extract_session_id, replayed, buffer_body,
}
use mcp_awareness.Sessions.Middleware.{
  Env, Context, State, InitParams, counts, registers, try_register, schedule_cleanup,
  error_response,
}
use mcp_awareness.Sessions.Initialize.{
  registration_of, register_new, limit_message, handle_initialize,
}

module _ {A : Type 0} (env : Env A) (ctx : Context) where
  -- If the count of the sessions can be read and the owner has reached the limit, an initialize
  -- request gets 429 and nothing changes, neither in the registry nor in the application.
  limit_refused :
      (scope : Scope) (chunks : List Chunk) (s : State A)
      → ctx.up counts ≡ true
      → env.max_sessions_per_owner ≤ count_active ctx.now ctx.owner_id s.tables
      → handle_initialize env ctx scope chunks s ≡ (
        error_response env 429 (limit_message env ctx (count_active ctx.now ctx.owner_id s.tables)),
        s,
      )
  unfolding handle_initialize
  limit_refused scope chunks s up full = ground arith

  pub schedule_cleanup-tables : (s : State A) → (schedule_cleanup env ctx s).tables ≡ s.tables
  unfolding schedule_cleanup
  schedule_cleanup-tables s = ground arith

  -- After a registration an owner's count is at most one more, and another's is the same.
  try_register-count :
      (owner i : String) (r : Registration) (db : Tables) {db' : Tables}
      → 0 < env.settings.ttl_seconds
      → try_register env ctx i r db ≡ some db'
      → count_active ctx.now owner db' ≡ (
          if str_eq r.owner_id owner
          then suc (count_active ctx.now owner db)
          else count_active ctx.now owner db)
  unfolding try_register
  try_register-count owner i r db t h = elim (Bool-cases (ctx.up registers)) [
    | inl up ↦ count_active-register env.settings ctx.now owner i r db (ground arith) t
    | inr down ↦ ground arith
  ]

  abbrev room : String → State A → ℕ
  room owner s =
      if str_eq ctx.owner_id owner
      then suc (count_active ctx.now owner s.tables)
      else count_active ctx.now owner s.tables

  le-room : (owner : String) (s : State A) → count_active ctx.now owner s.tables ≤ room owner s
  le-room owner s = ground arith

  registered-count :
      (owner i : String) (p : InitParams) (s : State A) (db : Tables)
      → 0 < env.settings.ttl_seconds
      → try_register env ctx i (registration_of env ctx p) s.tables ≡ some db
      → count_active ctx.now owner (schedule_cleanup env ctx (record s { tables = db })).tables
        ≤ room owner s
  unfolding registration_of
  registered-count owner i p s db t e =
      rw
        (
          schedule_cleanup-tables (record s { tables = db }),
          try_register-count owner i (registration_of env ctx p) s.tables t e,
        )
        (le_refl (room owner s))

  register_new-count :
      (owner : String) (p : InitParams) (ms : List Message) (s : State A)
      → 0 < env.settings.ttl_seconds
      → count_active ctx.now owner (register_new env ctx p ms s).tables ≤ room owner s
  unfolding register_new
  register_new-count owner p ms s t =
      elim-cases (λ (u : State A). count_active ctx.now owner u.tables ≤ room owner s)
        (extract_session_id (captured ms).1) s _ (le-room owner s)
        λ i _.
          if-cases (λ (u : State A). count_active ctx.now owner u.tables ≤ room owner s)
            (str_eq i "") s _ (λ _. le-room owner s)
            λ _.
              elim-cases (λ (u : State A). count_active ctx.now owner u.tables ≤ room owner s)
                (try_register env ctx i (registration_of env ctx p) s.tables) s _ (le-room owner s)
                λ db e. registered-count owner i p s db t e

  -- If the count of the sessions can be read, an initialize request brings no owner's active
  -- sessions above the limit, unless they were above it before, and adds to none but the caller's.
  pub handle_initialize-limit :
      (scope : Scope) (chunks : List Chunk) (s : State A) (owner : String)
      → 0 < env.settings.ttl_seconds
      → ctx.up counts ≡ true
      → (count_active ctx.now owner (handle_initialize env ctx scope chunks s).1.tables
          ≤ max (count_active ctx.now owner s.tables) env.max_sessions_per_owner)
        × (ctx.owner_id ≢ owner
            → count_active ctx.now owner (handle_initialize env ctx scope chunks s).1.tables
              ≤ count_active ctx.now owner s.tables)
  unfolding handle_initialize
  handle_initialize-limit scope chunks s owner t up = ground (
    arith,
    eq_iff ctx.owner_id owner,
    ap (λ o. count_active ctx.now o s.tables) {x = ctx.owner_id} {y = owner},
    register_new-count owner (env.init_params ((buffer_body chunks).0))
        (env.app s.app_state scope (replayed chunks)).0
        (record s { app_state = (env.app s.app_state scope (replayed chunks)).1 }) t,
  )
