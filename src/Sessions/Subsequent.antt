-- ===== src/Sessions/Subsequent.antt =====
-- `_handle_subsequent` and `_reinitialize` of src/mcp_awareness/session_registry.py.
pub mod Reinit
pub mod Isolation
use mcp_awareness.Base.{
  ℕ, Bool, true, false, ◌||◌, String, List, [], ◌∷◌, ◌++◌, Option, none, some, str_eq, ◌==◌,
  if◌then◌else◌, map, not, or_else,
}
use mcp_awareness.Base.Int.{pos}
use mcp_awareness.Base.Json.{Json, null, num, text, obj, end, field}
use mcp_awareness.Sessions.Store.{
  Session, Tables, Registration, find_session, invalidate, add_redirect, redirect_lookup,
}
use mcp_awareness.Sessions.Messages.{
  Scope, Chunk, request, Message, extract_session_id, without_session_header,
  rewrite_session_header, is_success, captured, rewrite_response, Capture, nothing_captured,
  capture_all, buffer_body, replayed,
}
use mcp_awareness.Sessions.Middleware.{
  Env, Context, State, looks_up, looks_up_redirect, looks_up_target, redirects, invalidates,
  attempt, write, try_register, schedule_cleanup, debounced_touch, pass_through, error_response,
}

abbrev optional_text : Option String → Json
optional_text none = null
optional_text (some s) = text s

-- the JSON of the synthetic initialize request
unfoldable pub init_request : Session → Json
init_request row = obj (
    field "jsonrpc" (text "2.0") (
      field "id" (num (pos 1)) (
        field "method" (text "initialize") (
          field "params"
            (obj (
              field "protocolVersion" (optional_text row.protocol_version)
                (field "capabilities" row.capabilities (field "clientInfo" row.client_info end))))
            end))))

module _ {A : Type 0} (env : Env A) (ctx : Context) where
  unfoldable pub registration_again : Session → Registration
  registration_again row = record {
    owner_id = ctx.owner_id;
    node = some env.node_name;
    protocol_version = row.protocol_version;
    capabilities = row.capabilities;
    client_info = row.client_info;
  }

  -- The three writes of a re-initialization; they stop at the first that raises, and what was
  -- written before stays written.
  unfoldable pub persist : String → String → Session → Tables → Tables × Bool
  unfolding registration_again
  persist old new row db = elim (try_register env ctx new (registration_again row) db) [
    | none ↦ (db, false)
    | some registered ↦
        elim (write env ctx redirects (add_redirect env.settings ctx.now old new) registered) [
          | none ↦ (registered, false)
          | some redirected ↦ elim (write env ctx invalidates (invalidate ctx.now old) redirected) [
            | none ↦ (redirected, false)
            | some done ↦ (done, true)
          ]
        ]
  ]

  -- the identifier of the answer to the synthetic initialize, if it succeeded
  unfoldable pub new_id : List Message → Option String
  new_id ms =
      if is_success (captured ms).0
      then elim (extract_session_id (captured ms).1) [
        | none ↦ none
        | some i ↦ if str_eq i "" then none else some i
      ]
      else none

  -- step 3: the original request again, under the new identifier
  unfoldable pub replay_original :
      Scope → String → String → State A → Option (String × List Message) × State A
  replay_original scope original_body new s =
      let (ms, a) =
        env.app s.app_state (rewrite_session_header scope new) (request original_body false ∷ []) in
      (some (new, map (rewrite_response new) ms), record s { app_state = a })

  -- the `except` of the three writes, or the replay
  unfoldable pub after_persist :
      Scope → String → String → State A → Tables × Bool → Option (String × List Message) × State A
  unfolding replay_original
  after_persist scope original_body new s (db, true) =
      replay_original scope original_body new (record s { tables = db })
  after_persist scope original_body new s (db, false) = (none, record s { tables = db })

  -- steps 2 and 3, if the synthetic initialize gave an identifier
  unfoldable pub after_init :
      Scope
      → String
      → String
      → Session
      → State A
      → Option String
      → Option (String × List Message) × State A
  unfolding persist after_persist
  after_init scope original_body old row s none = (none, s)
  after_init scope original_body old row s (some new) =
      after_persist scope original_body new s (persist old new row s.tables)

  -- `_reinitialize`: the new identifier and what the replay sends to the client, or `none`
  unfoldable pub reinitialize :
      Scope → String → String → Session → State A → Option (String × List Message) × State A
  unfolding new_id init_request after_init
  reinitialize scope original_body old row s =
      let init_scope : Scope = record scope { headers = without_session_header scope.headers } in
      let (ms, a) =
        env.app s.app_state init_scope (request (env.dumps (init_request row)) false ∷ []) in
      after_init scope original_body old row (record s { app_state = a }) (new_id ms)

  -- the end of `_handle_subsequent`: the buffered error is sent on, a success is touched
  unfoldable pub finish : String → Capture → State A → List Message × State A
  finish session_id c s = (
    if c.streaming then c.sent else c.sent ++ c.buffered,
    if is_success c.status
        then schedule_cleanup env ctx (debounced_touch env ctx session_id s)
        else s,
  )

  -- what follows a re-initialization
  unfoldable pub recover :
      String → Capture → Option (String × List Message) × State A → List Message × State A
  unfolding finish
  recover session_id c (none, s) = finish session_id c s
  recover session_id c (some (new, replay), s) = (c.sent ++ replay, s)

  abbrev pub not_found : ℕ → Bool
  not_found status = status == 400 || status == 404

  -- what `_handle_subsequent` does with the application's answer
  unfoldable pub answered :
      Scope → String → String → Session → Capture → State A → List Message × State A
  unfolding reinitialize finish recover
  answered scope original_body session_id row c s =
      if not_found c.status
      then recover session_id c (reinitialize scope original_body session_id row s)
      else finish session_id c s

  -- `_handle_subsequent` from the check of the owner on
  unfoldable pub serve_session :
      Scope → List Chunk → String → Session → State A → List Message × State A
  unfolding answered
  serve_session scope chunks session_id row s =
      let (ms, a) = env.app s.app_state scope (replayed chunks) in
      let original_body = (buffer_body chunks).0 in
      let served =
        answered scope original_body session_id row (capture_all nothing_captured ms)
          (record s { app_state = a }) in
      if not (str_eq row.owner_id ctx.owner_id)
      then (error_response env 403 "Forbidden: session owner mismatch", s)
      else served

  -- the redirect of a session that is not in the registry; an exception counts as none
  abbrev pub redirect_target : String → Tables → Option String
  redirect_target session_id db =
      if ctx.up looks_up_redirect then redirect_lookup ctx.now session_id db else none

  -- the lookup of the redirect's target
  unfoldable pub at_target :
      Scope → List Chunk → String → State A → Option (Option Session) → List Message × State A
  unfolding serve_session
  at_target scope chunks target s none = pass_through env ctx scope chunks s
  at_target scope chunks target s (some none) = pass_through env ctx scope chunks s
  at_target scope chunks target s (some (some row)) = serve_session scope chunks target row s

  unfoldable pub at_redirect : Scope → List Chunk → State A → Option String → List Message × State A
  unfolding at_target
  at_redirect scope chunks s none = pass_through env ctx scope chunks s
  at_redirect scope chunks s (some target) =
      if str_eq target ""
      then pass_through env ctx scope chunks s
      else at_target (rewrite_session_header scope target) chunks target s
          (attempt (ctx.up looks_up_target) (find_session ctx.now target s.tables))

  unfoldable pub at_lookup :
      Scope → List Chunk → String → State A → Option (Option Session) → List Message × State A
  unfolding serve_session at_redirect
  at_lookup scope chunks session_id s none = pass_through env ctx scope chunks s
  at_lookup scope chunks session_id s (some (some row)) =
      serve_session scope chunks session_id row s
  at_lookup scope chunks session_id s (some none) =
      at_redirect scope chunks s (redirect_target session_id s.tables)

  unfoldable pub handle_subsequent : Scope → List Chunk → String → State A → List Message × State A
  unfolding at_lookup
  handle_subsequent scope chunks session_id s =
      at_lookup scope chunks session_id s
        (attempt (ctx.up looks_up) (find_session ctx.now session_id s.tables))
