-- ===== src/Sessions/Subsequent/Isolation.antt =====
-- Sessions belong to their owners, and a session's answers reach the client unchanged.
use mcp_awareness.Base.{
  ℕ, ◌≡◌, ◌≢◌, ◌∙◌, ap, sym, inl, inr, true, false, String, List, [], ◌∷◌, ◌++◌, none, some, arith,
  Bool-cases, eq_iff, if◌then◌else◌,
}
use mathlib.Core.Path.{subst}
use mathlib.Core.List.{append-nil, append_assoc}
use mcp_awareness.Sessions.Store.{Session, Tables, find_session, redirect_lookup}
use mcp_awareness.Sessions.Messages.{
  Scope, Chunk, Message, start, body, Headers, is_success, Capture, capture, capture_all,
  nothing_captured, replayed, replayed_lem,
}
use mcp_awareness.Sessions.Middleware.{Env, Context, State, Call}
use mcp_awareness.Sessions.Subsequent.{serve_session, answered, finish}

-- Every call of the store in this request goes through.
pub record AllUp (ctx : Context) : Type 0 where
  pub at_call : (call : Call) → ctx.up call ≡ true

-- `Resolves now db i target row`: a request with the identifier i is about the session `target`,
-- directly or through a redirect that has not expired.
pub data Resolves (now : ℕ) (db : Tables) (i : String) : String → Session → Type 0 where
  direct : {row : Session} → find_session now i db ≡ some row → Resolves now db i i row
  redirected :
      {target : String} {row : Session}
      → find_session now i db ≡ none
      → redirect_lookup now i db ≡ some target
      → target ≢ ""
      → find_session now target db ≡ some row
      → Resolves now db i target row

-- `IsResponse status ms`: the messages of one HTTP response, its start and then its body.
pub data IsBody : List Message → Type 0 where
  nil : IsBody []
  cons : {b : String} {ms : List Message} → IsBody ms → IsBody (body b ∷ ms)

pub data IsResponse (status : ℕ) : List Message → Type 0 where
  response :
      {hs : Headers} {ms : List Message} → IsBody ms → IsResponse status (start status hs ∷ ms)

abbrev streamed : ℕ → List Message → Capture
streamed status ms = record { status = status; buffered = []; streaming = true; sent = ms }

abbrev held_back : ℕ → List Message → Capture
held_back status ms = record { status = status; buffered = ms; streaming = false; sent = [] }

capture-streamed :
    (status : ℕ) (xs ms : List Message)
    → IsBody ms
    → capture_all (streamed status xs) ms ≡ streamed status (xs ++ ms)
unfolding capture_all
capture-streamed status xs [] b = rw append-nil
capture-streamed status xs (start st hs ∷ ms) b = elim b [ ]
capture-streamed status xs (body x ∷ ms) (cons b) =
    capture-streamed status (xs ++ body x ∷ []) ms b
    ∙ ap (streamed status) (append_assoc xs (body x ∷ []) ms)

capture-held_back :
    (status : ℕ) (xs ms : List Message)
    → IsBody ms
    → capture_all (held_back status xs) ms ≡ held_back status (xs ++ ms)
unfolding capture_all
capture-held_back status xs [] b = rw append-nil
capture-held_back status xs (start st hs ∷ ms) b = elim b [ ]
capture-held_back status xs (body x ∷ ms) (cons b) =
    capture-held_back status (xs ++ body x ∷ []) ms b
    ∙ ap (held_back status) (append_assoc xs (body x ∷ []) ms)

-- what `finish` sends
abbrev messages_of : Capture → List Message
messages_of c = if c.streaming then c.sent else c.sent ++ c.buffered

capture-success :
    (status : ℕ) (hs : Headers)
    → is_success status ≡ true
    → capture nothing_captured (start status hs) ≡ streamed status (start status hs ∷ [])
unfolding capture
capture-success status hs good = ground arith

capture-error :
    (status : ℕ) (hs : Headers)
    → is_success status ≡ false
    → capture nothing_captured (start status hs) ≡ held_back status (start status hs ∷ [])
unfolding capture
capture-error status hs bad = ground arith

captured-response :
    (status : ℕ) (ms : List Message)
    → IsResponse status ms
    → ((capture_all nothing_captured ms).status ≡ status)
      × (messages_of (capture_all nothing_captured ms) ≡ ms)
unfolding capture_all
captured-response status [] r = elim r [ ]
captured-response status (body x ∷ ms) r = elim r [ ]
captured-response status (start st hs ∷ ms) (response b) = elim (Bool-cases (is_success status)) [
  | inl good ↦
      let e =
        ap (λ c. capture_all c ms) (capture-success status hs good)
        ∙ capture-streamed status (start status hs ∷ []) ms b in
      (ap (λ (c : Capture). c.status) e, ap messages_of e)
  | inr bad ↦
      let e =
        ap (λ c. capture_all c ms) (capture-error status hs bad)
        ∙ capture-held_back status (start status hs ∷ []) ms b in
      (ap (λ (c : Capture). c.status) e, ap messages_of e)
]

module _ {A : Type 0} (env : Env A) (ctx : Context) where
  answered-messages :
      (scope : Scope) (b i : String) (row : Session) (c : Capture) (s : State A)
      → c.status ≢ 400
      → c.status ≢ 404
      → (answered env ctx scope b i row c s).0 ≡ messages_of c
  unfolding answered finish
  answered-messages scope b i row c s n400 n404 = ground arith

  -- A request of the session's owner reaches the application as it was sent, and unless the
  -- application answers 400 or 404 the client gets the application's messages, all and in order,
  -- a streamed success and a held-back error alike.
  pub serve_session-transparent :
      (scope : Scope) (chunks : List Chunk) (i : String) (row : Session) (s : State A) (status : ℕ)
      → row.owner_id ≡ ctx.owner_id
      → IsResponse status (env.app s.app_state scope chunks).0
      → status ≢ 400
      → status ≢ 404
      → (serve_session env ctx scope chunks i row s).0 ≡ (env.app s.app_state scope chunks).0
  unfolding serve_session
  serve_session-transparent scope chunks i row s status own r n400 n404 =
      rw ((eq_iff row.owner_id ctx.owner_id).1 own) (
        answered-messages scope _ i row (capture_all nothing_captured ms) _
          (λ e. n400 (sym seen.0 ∙ e)) (λ e. n404 (sym seen.0 ∙ e))
        ∙ seen.1
        ∙ ap (λ cs. (env.app s.app_state scope cs).0) (replayed_lem chunks))
    where
      ms : List Message
      ms = (env.app s.app_state scope (replayed chunks)).0

      seen :
          ((capture_all nothing_captured ms).status ≡ status)
          × (messages_of (capture_all nothing_captured ms) ≡ ms)
      seen = captured-response status ms (
          subst (λ cs. IsResponse status (env.app s.app_state scope cs).0)
            (sym (replayed_lem chunks)) r)
