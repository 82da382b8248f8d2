-- ===== src/Sessions/Tests.antt =====
-- An application of one session, and the theorems of the session registry at it.
use mcp_awareness.Base.{
  ℕ, suc, ◌≤◌, ◌≡◌, ◌≢◌, refl, max, true, String, List, [], ◌∷◌, none, some, arith, str_eq,
  if◌then◌else◌, map,
}
use mcp_awareness.Base.Json.{null}
use mcp_awareness.Base.Dict.{lookup}
use mcp_awareness.Base.Dict.Keys.{count}
use mcp_awareness.Sessions.Store.{
  Session, Tables, find_session, redirect_lookup, count_active, cleanup_expired,
}
use mcp_awareness.Sessions.Store.Rows.{Keyed, cleanup_invisible}
use mcp_awareness.Sessions.Messages.{
  Scope, request, Message, start, body, header, header_from, session_header, captured_from,
  extract_session_id, rewrite_response, without_session_header,
}
use mcp_awareness.Sessions.Middleware.{Env, Context, State}
use mcp_awareness.Sessions.Initialize.{handle_initialize}
use mcp_awareness.Sessions.Initialize.Limits.{handle_initialize-limit}
use mcp_awareness.Sessions.Subsequent.{serve_session, reinitialize, new_id}
use mcp_awareness.Sessions.Subsequent.Isolation.{
  AllUp, IsResponse, response, nil, cons, serve_session-transparent,
}
use mcp_awareness.Sessions.Subsequent.Reinit.{
  Replaced, init_answer, replay_answer, reinitialize-Replaced,
}
use mcp_awareness.Sessions.Dispatch.{handle_request, do_cleanup, handle_terminate}
use mcp_awareness.Sessions.Dispatch.Terminate.{handle_terminate-forgets}

-- It knows the session "new" and gives this identifier to whoever initializes.
abbrev answer : String → List Message
answer i =
    if str_eq i "new"
    then start 200 [] ∷ body "result" ∷ []
    else if str_eq i ""
    then start 200 ((session_header, "new") ∷ []) ∷ body "{}" ∷ []
    else start 404 [] ∷ body "unknown session" ∷ []

abbrev test_env : Env ℕ
test_env = record {
  app = λ n scope chunks. (answer (header session_header scope.headers), suc n);
  init_params = λ b. record { capabilities = null; client_info = null; protocol_version = "2025" };
  dumps = λ j. "{}";
  settings = record { ttl_seconds = 10; redirect_grace_seconds = 5 };
  node_name = "node";
  max_sessions_per_owner = 2;
  mcp_path = "/mcp";
}

abbrev test_ctx : Context
test_ctx = record { owner_id = "alice"; now = 1000; monotonic = 99000000; up = λ c. true }

abbrev other_ctx : Context
other_ctx = record { owner_id = "bob"; now = 1000; monotonic = 99000000; up = λ c. true }

abbrev test_row : Session
test_row = record {
  owner_id = "alice";
  node = none;
  protocol_version = some "2025";
  capabilities = null;
  client_info = null;
  created_at = 0;
  last_seen = 0;
  expires_at = 2000;
}

abbrev test_tables : Tables
test_tables = record {
  sessions = ("old", test_row) ∷ [];
  redirects =
      ("older", record { new_session_id = "old"; created_at = 0; expires_at = 3000 })
      ∷ ("oldest", record { new_session_id = "older"; created_at = 0; expires_at = 500 })
      ∷ [];
}

abbrev test_state : State ℕ
test_state = record {
  tables = test_tables;
  touch_debounce = [];
  last_cleanup = 0;
  cleaning = true;
  app_state = 0;
}

abbrev test_scope : String → Scope
test_scope i = record {
  scope_type = "http";
  path = "/mcp";
  method = "POST";
  headers = (session_header, i) ∷ [];
}

test_Keyed : Keyed test_tables
unfolding lookup
test_Keyed = record { sessions = (refl, tt); redirects = (refl, (refl, tt)) }

test_AllUp : AllUp test_ctx
test_AllUp = record { at_call = λ c. refl }

other_AllUp : AllUp other_ctx
other_AllUp = record { at_call = λ c. refl }

old_found : find_session 1000 "old" test_tables ≡ some test_row
unfolding find_session lookup
old_found = refl

cleanup_invisible_example :
    (find_session 1500 "old" (cleanup_expired 1000 test_tables).0
      ≡ find_session 1500 "old" test_tables)
    × (redirect_lookup 1500 "old" (cleanup_expired 1000 test_tables).0
        ≡ redirect_lookup 1500 "old" test_tables)
cleanup_invisible_example = cleanup_invisible 1000 1500 "old" test_tables test_Keyed (omega arith)

new_answer : IsResponse 200 ((test_env.app (test_state.app_state) (test_scope "new") []).0)
unfolding header header_from
new_answer = response (cons nil)

serve_session-transparent_example :
    (serve_session test_env test_ctx (test_scope "new") [] "new" test_row test_state).0
    ≡ (test_env.app (test_state.app_state) (test_scope "new") []).0
serve_session-transparent_example =
    serve_session-transparent test_env test_ctx (test_scope "new") [] "new" test_row test_state 200
      refl new_answer (λ e. ground arith) (λ e. ground arith)

handle_initialize-limit_example :
    (count_active 1000 "bob"
        (handle_initialize test_env test_ctx (test_scope "") [] test_state).1.tables
      ≤ max (count_active 1000 "bob" test_tables) 2)
    × (◌≢◌ {A = String} "alice" "bob"
        → count_active 1000 "bob"
            (handle_initialize test_env test_ctx (test_scope "") [] test_state).1.tables
          ≤ count_active 1000 "bob" test_tables)
handle_initialize-limit_example =
    handle_initialize-limit test_env test_ctx (test_scope "") [] test_state "bob" (omega arith) refl

old_renewed :
    new_id test_env test_ctx (init_answer test_env (test_scope "old") test_row test_state).0
    ≡ some "new"
unfolding new_id without_session_header header header_from captured_from extract_session_id
old_renewed = refl

new_free : lookup "new" test_tables.sessions ≡ none
unfolding lookup
new_free = refl

reinitialize-Replaced_example :
    ((reinitialize test_env test_ctx (test_scope "old") "ping" "old" test_row test_state).0
      ≡ some (
        "new",
        map
            (rewrite_response "new")
            (replay_answer test_env (test_scope "old") "ping" test_row "new" test_state).0,
      ))
    × Replaced test_env test_ctx "old" "new" test_row test_tables
        (reinitialize test_env test_ctx
          (test_scope "old")
          "ping"
          "old"
          test_row
          test_state).1.tables
reinitialize-Replaced_example =
    reinitialize-Replaced test_env test_ctx (test_scope "old") "ping" "old" "new" test_row
      test_state test_AllUp test_Keyed (omega arith) (omega arith) old_found refl old_renewed
      new_free

abbrev served : State ℕ
served =
    (handle_request test_env test_ctx (test_scope "old") (request "ping" true ∷ []) test_state).1

abbrev cleaned : State ℕ
cleaned = do_cleanup 5000 true served

abbrev full_env : Env ℕ
full_env = record test_env { max_sessions_per_owner = 1 }

one_session : count_active 1000 "alice" test_tables ≡ 1
unfolding count_active count
one_session = refl

handle_terminate-forgets_example :
    let db =
      (handle_terminate test_env other_ctx
        (test_scope "old")
        []
        (some "old")
        test_state).1.tables in
    (find_session 1000 "old" db ≡ none)
    × ((j : String) → redirect_lookup 1000 j db ≢ some "old")
    × ((j : String) → "old" ≢ j → find_session 1000 j db ≡ find_session 1000 j test_tables)
handle_terminate-forgets_example =
    handle_terminate-forgets test_env other_ctx (test_scope "old") [] "old" test_state 1000
      other_AllUp test_Keyed (omega arith)
