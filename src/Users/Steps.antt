-- ===== src/Users/Steps.antt =====
-- The branches of a login: `_try_oauth` and `_resolve_user` of src/mcp_awareness/middleware.py
-- over the table of users, one by one.
use mcp_awareness.Base.{
  ℕ, ◌≡◌, refl, ◌∙◌, ap, ◌⊎◌, inl, inr, Bool, Bool-cases, true, false, ◌&&◌, ◌||◌, String, Option,
  none, some, str_eq, any, or_else,
}
use mcp_awareness.Base.Text.{Text, is_truthy, codes}
use mcp_awareness.Helpers.Email.{canonical_email}
use mcp_awareness.Auth.Identity.{AuthEnv, Claims, provision, link, known_user, resolve_user}
use mcp_awareness.Auth.Identity.Users.{resolve_user-linked}
use mcp_awareness.Users.{
  User, Users, has_identity, find, update_users, user_by_oauth, get_user_by_oauth, can_link,
  with_identity, link_oauth_identity, update_user_profile, postgres_users,
}
use mcp_awareness.Users.Identities.{StandsFor}
use mcp_awareness.Users.Sequences.{at_time}

module _ (c : Claims) where
  abbrev pub issuer : String
  issuer = or_else c.oauth_issuer ""

  abbrev pub subject : String
  subject = or_else c.oauth_subject ""

  abbrev pub address : Text
  address = canonical_email (codes (or_else c.email ""))

  abbrev pub named : Bool
  named = is_truthy c.oauth_issuer && is_truthy c.oauth_subject

  abbrev pub full : Bool
  full = is_truthy c.email && is_truthy c.oauth_subject && is_truthy c.oauth_issuer

  -- The identity stands for no user yet, or the claims have none.
  abbrev pub Unknown : Users → Type 0
  Unknown t = (named ≡ false) ⊎ ((named ≡ true) × (user_by_oauth issuer subject t ≡ none))

module _ (env : AuthEnv Users) (c : Claims) where
  -- The user that an identity stands for is found again, if the profile can be updated.
  pub known_again :
      (now : ℕ) (t : Users) (i : String)
      → (named c) ≡ true
      → StandsFor (issuer c) (subject c) i t
      → (t' : Users) × (update_user_profile now t i c.email c.name ≡ some t')
      → (resolve_user (at_time now env) c t).0 ≡ some i
  unfolding postgres_users known_user
  known_again now t i told h (t', e) =
      ap (λ (r : Option String × Users). r.0) (resolve_user-linked (at_time now env) c t i told h)
      ∙ known
    where
      known : (known_user (at_time now env) i c t).0 ≡ some i
      known = elim (Bool-cases (is_truthy c.email || is_truthy c.name)) [
        | inl told ↦ rw (known_user, told, e) refl
        | inr quiet ↦ rw (known_user, quiet) refl
      ]

  pub resolve_user-Unknown :
      (now : ℕ) (t : Users)
      → Unknown c t
      → resolve_user (at_time now env) c t ≡ link (at_time now env) c t
  unfolding resolve_user postgres_users get_user_by_oauth
  resolve_user-Unknown now t (inl quiet) = rw (resolve_user, quiet) refl
  resolve_user-Unknown now t (inr (told, absent)) = rw (resolve_user, told, absent) refl

  pub link-part :
      (now : ℕ) (t : Users)
      → (full c) ≡ false
      → link (at_time now env) c t ≡ provision (at_time now env) c t
  unfolding link
  link-part now t part = rw (link, part) refl

  pub link-absent :
      (now : ℕ) (t : Users)
      → (full c) ≡ true
      → find (can_link (address c)) t ≡ none
      → link (at_time now env) c t ≡ provision (at_time now env) c t
  unfolding link postgres_users link_oauth_identity
  link-absent now t all absent = rw (link, all, link_oauth_identity, absent) refl

  pub link-raises :
      (now : ℕ) (t : Users) (w : User)
      → (full c) ≡ true
      → find (can_link (address c)) t ≡ some w
      → any (has_identity (issuer c) (subject c)) t ≡ true
      → link (at_time now env) c t ≡ (none, t)
  unfolding link postgres_users link_oauth_identity
  link-raises now t w all found taken = rw (link, all, link_oauth_identity, found, taken) refl

  pub link-links :
      (now : ℕ) (t : Users) (w : User)
      → (full c) ≡ true
      → find (can_link (address c)) t ≡ some w
      → any (has_identity (issuer c) (subject c)) t ≡ false
      → str_eq w.id "" ≡ false
      → link (at_time now env) c t ≡ (
        some w.id,
        update_users (can_link (address c)) (with_identity now (subject c) (issuer c)) t,
      )
  unfolding link postgres_users link_oauth_identity
  link-links now t w all found free id = rw (link, all, link_oauth_identity, found, free, id) refl
