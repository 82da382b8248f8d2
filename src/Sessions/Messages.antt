-- ===== src/Sessions/Messages.antt =====
-- The ASGI values that src/mcp_awareness/session_registry.py handles: scopes, headers, request
-- chunks and response messages. Header names and values are texts, as the code decodes them.
use mcp_awareness.Base.{
  ◌≡◌, refl, ap, ℕ, Bool, true, false, not, ◌&&◌, String, List, [], ◌∷◌, ◌++◌, Option, none, some,
  str_eq, ltb, leb, if◌then◌else◌, keep,
}
use Prim.Native.String.{◌++◌ as join2}

abbrev pub Headers : Type 0
Headers = List (String × String)

pub record Scope : Type 0 where
  pub scope_type : String
  pub path : String
  pub method : String
  pub headers : Headers

-- what `receive` gives: a part of the body with its `more_body`, or the client's disconnect
pub data Chunk : Type 0 where
  request : String → Bool → Chunk
  disconnect : Chunk

-- what is given to `send`
pub data Message : Type 0 where
  start : ℕ → Headers → Message
  body : String → Message

abbrev pub session_header : String
session_header = "mcp-session-id"

-- the loop of dict(headers): the last of several values wins
unfoldable pub header_from : String → String → Headers → String
header_from name found [] = found
header_from name found ((k, v) ∷ hs) = header_from name (if str_eq k name then v else found) hs

-- dict(headers).get(name, b"")
unfoldable pub header : String → Headers → String
unfolding header_from
header name hs = header_from name "" hs

-- `value or None`
abbrev pub or_none : String → Option String
or_none s = if str_eq s "" then none else some s

-- `_extract_session_id`: the first of several
unfoldable pub extract_session_id : Headers → Option String
extract_session_id [] = none
extract_session_id ((k, v) ∷ hs) = if str_eq k session_header then some v else extract_session_id hs

-- the headers of another name than mcp-session-id
unfoldable pub without_session_header : Headers → Headers
without_session_header hs = keep (λ h. not (str_eq h.0 session_header)) hs

unfoldable pub with_session_header : String → Headers → Headers
unfolding without_session_header
with_session_header new_session_id hs =
    without_session_header hs ++ (session_header, new_session_id) ∷ []

-- `_rewrite_session_header`
unfoldable pub rewrite_session_header : Scope → String → Scope
unfolding with_session_header
rewrite_session_header scope new_session_id = record scope {
  headers = with_session_header new_session_id scope.headers;
}

abbrev pub is_success : ℕ → Bool
is_success status = leb 200 status && ltb status 300

-- the status of the last `http.response.start`, which `captured_status` holds; 0 if there is none
unfoldable pub captured_from : ℕ × Headers → List Message → ℕ × Headers
captured_from found [] = found
captured_from found (start status hs ∷ ms) = captured_from (status, hs) ms
captured_from found (body b ∷ ms) = captured_from found ms

abbrev pub captured : List Message → ℕ × Headers
captured = captured_from (0, [])

-- `replay_send`: the response carries the new identifier
unfoldable pub rewrite_response : String → Message → Message
unfolding with_session_header
rewrite_response new_session_id (start status hs) =
    start status (with_session_header new_session_id hs)
rewrite_response new_session_id (body b) = body b

-- `capturing_send` of `_handle_subsequent`: what it has sent on, what it holds back, and whether
-- it has begun to stream
pub record Capture : Type 0 where
  pub status : ℕ
  pub buffered : List Message
  pub streaming : Bool
  pub sent : List Message

abbrev pub nothing_captured : Capture
nothing_captured = record { status = 0; buffered = []; streaming = false; sent = [] }

unfoldable pub capture : Capture → Message → Capture
capture c (start status hs) =
    if is_success status
    then record c { status = status; streaming = true; sent = c.sent ++ start status hs ∷ [] }
    else record c { status = status; buffered = c.buffered ++ start status hs ∷ [] }
capture c (body b) =
    if c.streaming
    then record c { sent = c.sent ++ body b ∷ [] }
    else record c { buffered = c.buffered ++ body b ∷ [] }

unfoldable pub capture_all : Capture → List Message → Capture
unfolding capture
capture_all c [] = c
capture_all c (m ∷ ms) = capture_all (capture c m) ms

-- the loop of `_buffer_body`: the body's parts, the chunks it has read and those that are left
unfoldable pub buffer_body : List Chunk → String × List Chunk × List Chunk
buffer_body [] = ("", [], [])
buffer_body (disconnect ∷ cs) = ("", disconnect ∷ [], cs)
buffer_body (request part false ∷ cs) = (part, request part false ∷ [], cs)
buffer_body (request part true ∷ cs) =
    let (rest, read, left) = buffer_body cs in (join2 part rest, request part true ∷ read, left)

-- What `replay_receive` gives: the buffered chunks first, then the connection's.
unfoldable pub replayed : List Chunk → List Chunk
unfolding buffer_body
replayed cs = let (_, read, left) = buffer_body cs in read ++ left

-- The MCP application hears what the client sent, whatever the middleware read of it first.
pub replayed_lem : (cs : List Chunk) → replayed cs ≡ cs
unfolding replayed
replayed_lem [] = refl
replayed_lem (disconnect ∷ cs) = refl
replayed_lem (request part false ∷ cs) = refl
replayed_lem (request part true ∷ cs) = ap (◌∷◌ (request part true)) (replayed_lem cs)
