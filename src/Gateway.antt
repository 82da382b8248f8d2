-- ===== src/Gateway.antt =====
-- `SecretPathMiddleware`, `HealthMiddleware` and `WellKnownMiddleware` of
-- src/mcp_awareness/middleware.py: where a request goes. Paths are texts. The favicon and the
-- icons on disk are arguments: whether there is a favicon, and which names have an icon.
pub mod Routes
mod Tests
use mcp_awareness.Base.{
  Bool, true, false, not, ◌||◌, ◌&&◌, ◌==◌, String, List, [], ◌∷◌, ◌++◌, Option, none, some, str_eq,
  if◌then◌else◌, or_else, drop, length, reverse,
}
use mcp_awareness.Base.Text.{Text, codes, text_eq, starts_with, contains}

pub data Route : Type 0 where
  favicon icon health not_found unchanged : Route
  forward : Text → Route
  metadata : Text → Text → Route

pub record Assets : Type 0 where
  pub has_favicon : Bool
  pub has_icon : Text → Bool

-- `_serve_icon`
unfoldable pub serve_icon : Assets → Text → Option Route
serve_icon assets path =
    let filename = drop 7 path in
    if not (starts_with path (codes "/icons/"))
    then none
    else if contains filename (codes "/")
        || contains filename (codes "\\")
        || contains filename (codes "..")
    then some not_found
    else if assets.has_icon filename
    then some icon
    else some not_found

unfoldable pub drop_slashes : Text → Text
drop_slashes [] = []
drop_slashes (c ∷ s) = if c == b'/' then drop_slashes s else c ∷ s

-- s.rstrip("/")
unfoldable pub rstrip_slash : Text → Text
unfolding drop_slashes
rstrip_slash s = reverse (drop_slashes (reverse s))

-- `s or "/"`
abbrev pub or_root : Text → Text
or_root [] = codes "/"
or_root (c ∷ s) = c ∷ s

abbrev pub health_path : Text → Text
health_path prefix = rstrip_slash prefix ++ codes "/health"

-- the part of `SecretPathMiddleware.__call__` behind the public files
unfoldable pub behind_prefix : Text → Text → Route
behind_prefix prefix path =
    if text_eq path (health_path prefix)
    then health
    else if starts_with path (rstrip_slash prefix)
    then forward (or_root (drop (length (rstrip_slash prefix)) path))
    else not_found

-- `SecretPathMiddleware.__call__`
unfoldable pub secret_path : Assets → Text → String → Text → Route
unfolding serve_icon behind_prefix
secret_path assets prefix scope_type path =
    if not (str_eq scope_type "http" || str_eq scope_type "websocket")
    then unchanged
    else if text_eq path (codes "/favicon.ico") && assets.has_favicon
    then favicon
    else or_else (serve_icon assets path) (behind_prefix prefix path)

-- `HealthMiddleware.__call__`
unfoldable pub health_route : Assets → String → Text → Route
unfolding serve_icon
health_route assets scope_type path =
    if not (str_eq scope_type "http")
    then unchanged
    else if text_eq path (codes "/health")
    then health
    else if text_eq path (codes "/favicon.ico") && assets.has_favicon
    then favicon
    else or_else (serve_icon assets path) unchanged

abbrev is_empty : Text → Bool
is_empty [] = true
is_empty (c ∷ s) = false

-- `_resource_url`, with the Host header's value
unfoldable pub resource_url : Text → Text → Text → Text
resource_url public_url mount_path host_header =
    if not (is_empty public_url)
    then rstrip_slash public_url ++ (mount_path ++ codes "/mcp")
    else if not (is_empty host_header)
    then codes "https://" ++ (host_header ++ (mount_path ++ codes "/mcp"))
    else codes "https://localhost" ++ (mount_path ++ codes "/mcp")

-- `WellKnownMiddleware.__call__`: the resource's URL and the authorization server
unfoldable pub well_known : Text → Text → Text → String → Text → Text → Route
unfolding resource_url
well_known oauth_issuer public_url mount_path scope_type path host_header =
    if not (str_eq scope_type "http")
    then unchanged
    else if text_eq path (codes "/.well-known/oauth-protected-resource")
    then metadata (resource_url public_url mount_path host_header) (rstrip_slash oauth_issuer)
    else unchanged
