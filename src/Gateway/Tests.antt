-- ===== src/Gateway/Tests.antt =====
-- The secret path at one request.
use mcp_awareness.Base.{◌≡◌, refl, false, ◌++◌}
use mcp_awareness.Base.Text.{Text, codes, text_eq, starts_with}
use mcp_awareness.Gateway.{
  forward, Assets, rstrip_slash, or_root, secret_path, drop_slashes, behind_prefix, serve_icon,
}
use mcp_awareness.Gateway.Routes.{secret_path-forward}

abbrev no_assets : Assets
no_assets = record { has_favicon = false; has_icon = λ path. false }

forwarded :
    secret_path no_assets (codes "/s3cret/") "http" (codes "/s3cret/mcp") ≡ forward (codes "/mcp")
unfolding secret_path rstrip_slash drop_slashes text_eq starts_with behind_prefix serve_icon
forwarded = refl

secret_path-forward_example :
    (tail : Text) × (codes "/s3cret/mcp" ≡ rstrip_slash (codes "/s3cret/") ++ tail)
    × (codes "/mcp" ≡ or_root tail)
secret_path-forward_example =
    secret_path-forward no_assets (codes "/s3cret/") "http" (codes "/s3cret/mcp") (codes "/mcp")
      forwarded
