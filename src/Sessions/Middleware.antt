-- ===== src/Sessions/Middleware.antt =====
-- `SessionRegistryMiddleware` of src/mcp_awareness/session_registry.py. The MCP application behind
-- it is an argument, with a state of its own: it is given a scope and the chunks that it may
-- receive, and it sends messages. Whether a call of the session store raises is an argument too,
-- for each call of a request; a raising call leaves the tables as they were.
use mcp_awareness.Base.{
  ℕ, ◌+◌, Bool, true, false, String, List, [], ◌∷◌, Option, none, some, ltb, if◌then◌else◌, or_else,
}
use mcp_awareness.Base.Json.{Json, text, obj, end, field}
use mcp_awareness.Base.Dict.{Dict, lookup, insert}
use mcp_awareness.Sessions.Store.{Tables, Settings, Registration, register, touch}
use mcp_awareness.Sessions.Messages.{Scope, Chunk, Message, start, body}

-- the calls of the session store that one request may make
pub data Call : Type 0 where
  counts looks_up looks_up_redirect looks_up_target registers redirects invalidates deletes
        touches :
      Call

-- What json.loads and the `get`s read from the body of an initialize request.
pub record InitParams : Type 0 where
  pub capabilities : Json
  pub client_info : Json
  pub protocol_version : String

pub record Env (A : Type 0) : Type 0 where
  pub app : A → Scope → List Chunk → List Message × A
  pub init_params : String → InitParams
  pub dumps : Json → String
  pub settings : Settings
  pub node_name : String
  pub max_sessions_per_owner : ℕ
  pub mcp_path : String

-- One request: who sends it, when (the database's clock and the monotonic one, in microseconds),
-- and which calls of the store go through.
pub record Context : Type 0 where
  pub owner_id : String
  pub now : ℕ
  pub monotonic : ℕ
  pub up : Call → Bool

pub record State (A : Type 0) : Type 0 where
  pub tables : Tables
  pub touch_debounce : Dict ℕ
  pub last_cleanup : ℕ
  pub cleaning : Bool
  pub app_state : A

abbrev pub cleanup_interval : ℕ
cleanup_interval = 60000000

abbrev pub touch_debounce_interval : ℕ
touch_debounce_interval = 30000000

-- A call that may raise: `none` is the exception.
abbrev pub attempt {ℓ} : {R : Type ℓ} → Bool → R → Option R
attempt true r = some r
attempt false r = none

-- `_send_error`
unfoldable pub error_response : {A : Type 0} → Env A → ℕ → String → List Message
error_response env status message =
    start status (("content-type", "application/json") ∷ [])
    ∷ body (env.dumps (obj (field "error" (text message) end)))
    ∷ []

module _ {A : Type 0} (env : Env A) (ctx : Context) where
  -- a table update that may raise
  abbrev pub write : Call → (Tables → Tables) → Tables → Option Tables
  write call f db = attempt (ctx.up call) (f db)

  -- `self.store.register(…)` in a `try`
  unfoldable pub try_register : String → Registration → Tables → Option Tables
  try_register session_id r db =
      elim (attempt (ctx.up registers) (register env.settings ctx.now session_id r db)) [
        | none ↦ none
        | some result ↦ result
      ]

  -- `_schedule_cleanup`: `cleaning` says that the thread is alive
  unfoldable pub schedule_cleanup : State A → State A
  schedule_cleanup s =
      if ltb ctx.monotonic (s.last_cleanup + cleanup_interval)
      then s
      else if s.cleaning
      then s
      else record s { last_cleanup = ctx.monotonic; cleaning = true }

  -- `_debounced_touch`; its `last` of a session that was never touched is 0.0
  unfoldable pub debounced_touch : String → State A → State A
  debounced_touch session_id s =
      if ltb ctx.monotonic
        (or_else (lookup session_id s.touch_debounce) 0 + touch_debounce_interval)
      then s
      else record s {
        touch_debounce = insert session_id ctx.monotonic s.touch_debounce;
        tables = or_else (write touches (touch env.settings ctx.now session_id) s.tables) s.tables;
      }

  -- `await self.app(scope, receive, send)`
  unfoldable pub pass_through : Scope → List Chunk → State A → List Message × State A
  pass_through scope chunks s =
      let (ms, a) = env.app s.app_state scope chunks in (ms, record s { app_state = a })
