-- ===== src/Sessions/Initialize.antt =====
-- `_handle_initialize` of src/mcp_awareness/session_registry.py.
pub mod Limits
use mcp_awareness.Base.{
  ℕ, Bool, ◌&&◌, String, List, [], ◌∷◌, Option, none, some, str_eq, leb, if◌then◌else◌,
}
use mcp_awareness.Base.Decimal.{decimal, concat}
use mcp_awareness.Sessions.Store.{Tables, Registration, count_active}
use mcp_awareness.Sessions.Messages.{
  Scope, Chunk, Message, extract_session_id, is_success, captured, buffer_body, replayed,
}
use mcp_awareness.Sessions.Middleware.{
  Env, Context, State, InitParams, counts, try_register, schedule_cleanup, error_response,
}

module _ {A : Type 0} (env : Env A) (ctx : Context) where
  unfoldable pub registration_of : InitParams → Registration
  registration_of p = record {
    owner_id = ctx.owner_id;
    node = some env.node_name;
    protocol_version = some p.protocol_version;
    capabilities = p.capabilities;
    client_info = p.client_info;
  }

  -- the part of `_handle_initialize` behind the application's answer
  unfoldable pub register_new : InitParams → List Message → State A → State A
  unfolding registration_of
  register_new p ms s = elim (extract_session_id (captured ms).1) [
    | none ↦ s
    | some new_session_id ↦
        if str_eq new_session_id ""
        then s
        else elim (try_register env ctx new_session_id (registration_of p) s.tables) [
          | none ↦ s
          | some db ↦ schedule_cleanup env ctx (record s { tables = db })
        ]
  ]

  abbrev pub limit_message : ℕ → String
  limit_message count = concat (
      "Session limit reached ("
      ∷ decimal count
      ∷ "/"
      ∷ decimal env.max_sessions_per_owner
      ∷ "). Contact admin if this is unexpected."
      ∷ [])

  -- the limit is checked if the count can be read
  abbrev pub at_limit : Tables → Bool
  at_limit db =
      ctx.up counts && leb env.max_sessions_per_owner (count_active ctx.now ctx.owner_id db)

  unfoldable pub handle_initialize : Scope → List Chunk → State A → List Message × State A
  unfolding register_new
  handle_initialize scope chunks s =
      if at_limit s.tables
      then (error_response env 429 (limit_message (count_active ctx.now ctx.owner_id s.tables)), s)
      else let (ms, a) = env.app s.app_state scope (replayed chunks) in
        let s' : State A = record s { app_state = a } in
        (
          ms,
          if is_success (captured ms).0
              then register_new (env.init_params ((buffer_body chunks).0)) ms s'
              else s',
        )
