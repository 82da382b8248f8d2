-- ===== src/Auth/Identity/Users.antt =====
-- Which user an OAuth token stands for.
use mcp_awareness.Base.{
  ◌≡◌, refl, true, false, ◌&&◌, ◌||◌, inl, inr, Bool-cases, Option-cases, ap, ◌∙◌, String, Option,
  none, some, str_eq, if◌then◌else◌, or_else,
}
use mcp_awareness.Base.Text.{Text, is_truthy}
use mcp_awareness.Auth.Identity.{
  AuthEnv, Provider, Claims, claims_for, known_user, resolve_user, resolved, try_oauth,
}

module _ {S : Type 0} (env : AuthEnv S) where
  -- What becomes of a token whose identity is linked to the user i already: the owner is i, and at
  -- most the user's profile is updated; but if the update raises, the owner is the token's claim.
  linked_owner : Claims → String → S → Option String × S
  linked_owner c i s =
      if is_truthy c.email || is_truthy c.name
      then elim (env.users.update_user_profile s i c.email c.name) [
        | none ↦ (some c.owner_id, s)
        | some updated ↦ (some i, updated)
      ]
      else (some i, s)

  pub resolve_user-linked :
      (c : Claims) (s : S) (i : String)
      → is_truthy c.oauth_issuer && is_truthy c.oauth_subject ≡ true
      → env.users.get_user_by_oauth s (or_else c.oauth_issuer "") (or_else c.oauth_subject "")
        ≡ some (some i)
      → resolve_user env c s ≡ known_user env i c s
  unfolding resolve_user
  resolve_user-linked c s i named found = rw (resolve_user, named, found) refl

  resolved-known_user :
      (c : Claims) (i : String) (s : S)
      → str_eq i "" ≡ false
      → resolved env c (known_user env i c s) ≡ linked_owner c i s
  unfolding known_user linked_owner
  resolved-known_user c i s known = elim (Bool-cases (is_truthy c.email || is_truthy c.name)) [
    | inl told ↦ elim (Option-cases (env.users.update_user_profile s i c.email c.name)) [
      | inl down ↦ rw (known_user, linked_owner, told, down) refl
      | inr (s', up) ↦ rw (known_user, linked_owner, told, up, known) refl
    ]
    | inr quiet ↦ rw (known_user, linked_owner, quiet, known) refl
  ]

  pub try_oauth-claims :
      (v : Provider) (token : Text) (s : S) (c : Claims)
      → claims_for v token ≡ some c
      → try_oauth env v token s ≡ resolved env c (resolve_user env c s)
  unfolding try_oauth
  try_oauth-claims v token s c e = rw (try_oauth, e) refl

  -- A token whose issuer and subject the store has linked to a user stands for this user, whatever
  -- owner its claims name, and no user is linked or created. Only if the update of the user's
  -- profile raises does it stand for the owner that its claims name.
  try_oauth-linked :
      (v : Provider) (token : Text) (s : S) (c : Claims) (i : String)
      → claims_for v token ≡ some c
      → is_truthy c.oauth_issuer && is_truthy c.oauth_subject ≡ true
      → env.users.get_user_by_oauth s (or_else c.oauth_issuer "") (or_else c.oauth_subject "")
        ≡ some (some i)
      → str_eq i "" ≡ false
      → try_oauth env v token s ≡ linked_owner c i s
  try_oauth-linked v token s c i e named found known =
      try_oauth-claims v token s c e
      ∙ ap (resolved env c) (resolve_user-linked c s i named found)
      ∙ resolved-known_user c i s known
