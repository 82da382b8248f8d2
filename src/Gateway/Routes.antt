-- ===== src/Gateway/Routes.antt =====
-- What the secret path lets through.
use mcp_awareness.Base.{
  ◌≡◌, refl, ap, ◌∙◌, true, Bool-cases, ◌==◌, ==_iff, String, [], ◌∷◌, ◌++◌, inl, inr, arith, drop,
  length,
}
use mcp_awareness.Base.Text.{Text, starts_with}
use mcp_awareness.Gateway.{
  forward, Assets, rstrip_slash, or_root, secret_path, behind_prefix, serve_icon,
}

starts_with-split : (s p : Text) → starts_with s p ≡ true → s ≡ p ++ drop (length p) s
unfolding starts_with
starts_with-split s [] h = refl
starts_with-split [] (c ∷ p) h = absurd (ground (arith, h))
starts_with-split (d ∷ s) (c ∷ p) h = elim (Bool-cases (d == c)) [
  | inl e ↦ ap (λ x. x ∷ s) ((==_iff d c).0 e) ∙ ap (◌∷◌ c) (starts_with-split s p (rw e at h))
  | inr e ↦ absurd (ground (arith, h, e))
]

-- A request goes on to the application with another path only if its path begins with the secret
-- prefix, less the slashes at its end; the application then sees what follows the prefix, or "/" if
-- nothing does.
pub secret_path-forward :
    (assets : Assets) (prefix : Text) (scope_type : String) (path rest : Text)
    → secret_path assets prefix scope_type path ≡ forward rest
    → (tail : Text) × (path ≡ rstrip_slash prefix ++ tail) × (rest ≡ or_root tail)
unfolding secret_path behind_prefix serve_icon
secret_path-forward assets prefix scope_type path rest h =
    elim (Bool-cases (starts_with path (rstrip_slash prefix))) [
      | inl e ↦ (
        drop (length (rstrip_slash prefix)) path,
        starts_with-split path (rstrip_slash prefix) e,
        ground (arith, h, e),
      )
      | inr e ↦ absurd (ground (arith, h, e))
    ]
