-- ===== src/Sessions/Dispatch.antt =====
-- `_handle_terminate` and `__call__` of src/mcp_awareness/session_registry.py, and the steps of
-- the registry: requests, and the background cleanup.
pub mod Keys
pub mod Terminate
use mcp_awareness.Base.{
  ℕ, ◌≡◌, Bool, true, false, not, ◌&&◌, ◌||◌, String, List, [], ◌∷◌, Option, none, some, str_eq,
  if◌then◌else◌,
}
use mcp_awareness.Sessions.Store.{Tables, invalidate, delete_redirects_to, cleanup_expired}
use mcp_awareness.Sessions.Messages.{Scope, Chunk, Message, header, session_header, or_none}
use mcp_awareness.Sessions.Middleware.{
  Env, Context, State, invalidates, deletes, attempt, write, schedule_cleanup, pass_through,
}
use mcp_awareness.Sessions.Initialize.{handle_initialize}
use mcp_awareness.Sessions.Subsequent.{handle_subsequent}

module _ {A : Type 0} (env : Env A) (ctx : Context) where
  -- the `try` block of `_handle_terminate`
  unfoldable pub forget_session : String → State A → State A
  forget_session session_id s =
      elim (write env ctx invalidates (invalidate ctx.now session_id) s.tables) [
        | none ↦ s
        | some expired ↦ elim (write env ctx deletes (delete_redirects_to session_id) expired) [
          | none ↦ record s { tables = expired }
          | some db ↦ schedule_cleanup env ctx (record s { tables = db })
        ]
      ]

  unfoldable pub handle_terminate :
      Scope → List Chunk → Option String → State A → List Message × State A
  unfolding forget_session
  handle_terminate scope chunks session_id s =
      let (ms, s') = pass_through env ctx scope chunks s in
      (ms, elim session_id [ none ↦ s' | some i ↦ forget_session i s' ])

  abbrev is_method : Scope → String → Bool
  is_method scope m = str_eq scope.method m

  abbrev is_handled : Scope → Bool
  is_handled scope =
      str_eq scope.path env.mcp_path
      && (is_method scope "GET" || is_method scope "POST" || is_method scope "DELETE")

  unfoldable pub by_method : Scope → List Chunk → Option String → State A → List Message × State A
  by_method scope chunks none s =
      if is_method scope "POST"
      then handle_initialize env ctx scope chunks s
      else if is_method scope "DELETE"
      then handle_terminate scope chunks none s
      else pass_through env ctx scope chunks s
  by_method scope chunks (some session_id) s =
      if is_method scope "POST" || is_method scope "GET"
      then handle_subsequent env ctx scope chunks session_id s
      else if is_method scope "DELETE"
      then handle_terminate scope chunks (some session_id) s
      else pass_through env ctx scope chunks s

  -- `__call__`
  unfoldable pub handle_request : Scope → List Chunk → State A → List Message × State A
  unfolding by_method
  handle_request scope chunks s =
      if not (str_eq scope.scope_type "http") || not (is_handled scope)
      then pass_through env ctx scope chunks s
      else by_method scope chunks (or_none (header session_header scope.headers)) s

-- The thread's run: `_do_cleanup`, which ends also if the store raises.
unfoldable pub do_cleanup : {A : Type 0} → ℕ → Bool → State A → State A
do_cleanup now up s = record s {
  tables = if up then (cleanup_expired now s.tables).0 else s.tables;
  cleaning = false;
}

-- One step of the registry: a request of some client, or the end of the cleanup thread.
pub data Step {A : Type 0} (env : Env A) (s : State A) : State A → Type 0 where
  serve :
      {t : State A} (ctx : Context) (scope : Scope) (chunks : List Chunk)
      → t ≡ (handle_request env ctx scope chunks s).1
      → Step env s t
  clean : {t : State A} (now : ℕ) (up : Bool) → t ≡ do_cleanup now up s → Step env s t

pub data Reach {A : Type 0} (env : Env A) (s : State A) : State A → Type 0 where
  here : Reach env s s
  next : {t u : State A} → Reach env s t → Step env t u → Reach env s u
