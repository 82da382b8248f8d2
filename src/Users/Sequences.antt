-- ===== src/Users/Sequences.antt =====
-- Logins of `_try_oauth` (src/mcp_awareness/middleware.py) over the table of users, in sequence, and
-- what holds after each if the statements keep it.
use mcp_awareness.Base.{
  is_some, ℕ, ◌≡◌, refl, inl, inr, Bool-cases, Option-cases, false, ◌&&◌, ◌||◌, String, List, [],
  ◌∷◌, Option, none, some, arith, str_eq, or_else, if◌then◌else◌, if-cases, elim-cases,
}
use mcp_awareness.Base.Dict.{Dict, lookup}
use mcp_awareness.Base.Text.{Text, is_truthy}
use mcp_awareness.Auth.Identity.{
  AuthEnv, Provider, Claims, claims_for, claims_of, enrich, provision, link, known_user,
  resolve_user, try_oauth,
}
use mcp_awareness.Users.{
  Users, insert_user, new_user, create_user_if_not_exists, user_by_oauth, get_user_by_oauth,
  link_oauth_identity, update_user_profile, postgres_users,
}

-- the environment with the operations of the table, at one reading of the clock
abbrev pub at_time : ℕ → AuthEnv Users → AuthEnv Users
at_time now env = record env { users = postgres_users now }

-- One login: its instant, its token, and what the validator and the provider's userinfo make of
-- tokens at this time. They depend on the clock, on the keys and on the network, so that each login
-- has its own.
pub record Login : Type 0 where
  pub now : ℕ
  pub token : Text
  pub provider : Provider

-- the table after logins in turn, whatever their tokens are
unfoldable pub after_logins : AuthEnv Users → List Login → Users → Users
after_logins env [] t = t
after_logins env (l ∷ ls) t =
    after_logins env ls (try_oauth (at_time l.now env) l.provider l.token t).1

claims_of-owner :
    (k : String) (p : Dict String) (c : Claims)
    → claims_of k p ≡ some c
    → str_eq c.owner_id "" ≡ false
unfolding claims_of
claims_of-owner k p c e = elim (Option-cases (lookup k p)) [
  | inl missing ↦ absurd (ground (arith, rw (claims_of, missing) at e))
  | inr (s, found) ↦ ground (arith, rw (claims_of, found) at e)
]

enrich-owner : (v : Provider) (token : Text) (c : Claims) → (enrich v token c).owner_id ≡ c.owner_id
unfolding enrich
enrich-owner v token c =
    if-cases (λ (d : Claims). d.owner_id ≡ c.owner_id) (is_some c.email) _ _ (λ y. refl) (λ n. refl)

-- The claims of a token name an owner.
claims_for-owner :
    (v : Provider) (token : Text) (c : Claims)
    → claims_for v token ≡ some c
    → str_eq c.owner_id "" ≡ false
unfolding claims_for
claims_for-owner v token c e = elim (Option-cases (v.decode token)) [
  | inl bad ↦ absurd (ground (arith, rw (claims_for, bad) at e))
  | inr (p, good) ↦ elim (Option-cases (claims_of v.user_claim p)) [
    | inl none_named ↦ absurd (ground (arith, rw (claims_for, good, none_named) at e))
    | inr (d, claimed) ↦ ground (
      arith,
      rw (claims_for, good, claimed) at e,
      enrich-owner v token d,
      claims_of-owner v.user_claim p d claimed,
    )
  ]
]

module _ (I : Users → Type 0)
    (creates : (now : ℕ) (c : Claims) (t : Users)
      → str_eq c.owner_id "" ≡ false
      → I t
      → I (insert_user (new_user now c.owner_id c.email c.name c.oauth_subject c.oauth_issuer) t))
    (updates : (now : ℕ) (t t' : Users) (u : String) (email name : Option String)
      → I t
      → update_user_profile now t u email name ≡ some t'
      → I t')
    (links : (now : ℕ) (t t' : Users) (sub iss email : String) (r : Option String)
      → I t
      → link_oauth_identity now t sub iss email ≡ some (r, t')
      → I t') where
  module _ (env : AuthEnv Users) (now : ℕ) where
    provision-keeps :
        (c : Claims) (t : Users)
        → str_eq c.owner_id "" ≡ false
        → I t
        → I (provision (at_time now env) c t).1
    unfolding provision postgres_users create_user_if_not_exists
    provision-keeps c t o h = elim (Bool-cases env.auto_provision) [
      | inl on ↦ rw on (creates now c t o h)
      | inr off ↦ rw off h
    ]

    known_user-keeps :
        (u : String) (c : Claims) (t : Users)
        → str_eq c.owner_id "" ≡ false
        → I t
        → I (known_user (at_time now env) u c t).1
    unfolding known_user postgres_users
    known_user-keeps u c t o h =
        if-cases (λ (r : Option String × Users). I r.1) (is_truthy c.email || is_truthy c.name) _ _
          (λ told.
            elim-cases (λ (r : Option String × Users). I r.1)
              (update_user_profile now t u c.email c.name) _ _ h
              (λ t' e. updates now t t' u c.email c.name h e))
          (λ quiet. h)

    -- what `link` makes of the store's answer
    abbrev linked_or_new : Claims → Users → Option (Option String × Users) → Option String × Users
    linked_or_new c t none = (none, t)
    linked_or_new c t (some (linked, s')) =
        if is_truthy linked then (linked, s') else provision (at_time now env) c s'

    after_link :
        (c : Claims) (t : Users) (r : Option (Option String × Users))
        → str_eq c.owner_id "" ≡ false
        → I t
        → link_oauth_identity now t
            (or_else c.oauth_subject "")
            (or_else c.oauth_issuer "")
            (or_else c.email "")
          ≡ r
        → I (linked_or_new c t r).1
    after_link c t none o h e = h
    after_link c t (some (linked, s')) o h e =
        if-cases (λ (x : Option String × Users). I x.1) (is_truthy linked) (linked, s')
          (provision (at_time now env) c s') (λ y. links now t s' _ _ _ linked h e)
          (λ n. provision-keeps c s' o (links now t s' _ _ _ linked h e))

    link-user-keeps :
        (c : Claims) (t : Users)
        → str_eq c.owner_id "" ≡ false
        → I t
        → I (link (at_time now env) c t).1
    unfolding link postgres_users
    link-user-keeps c t o h =
        elim (Bool-cases
          (is_truthy c.email && is_truthy c.oauth_subject && is_truthy c.oauth_issuer)) [
            | inl full ↦ rw full (after_link c t _ o h refl)
            | inr part ↦ rw part (provision-keeps c t o h)
          ]

    resolve_user-keeps :
        (c : Claims) (t : Users)
        → str_eq c.owner_id "" ≡ false
        → I t
        → I (resolve_user (at_time now env) c t).1
    unfolding resolve_user postgres_users get_user_by_oauth
    resolve_user-keeps c t o h =
        elim (Bool-cases (is_truthy c.oauth_issuer && is_truthy c.oauth_subject)) [
          | inl told ↦
              elim (Option-cases
                (user_by_oauth (or_else c.oauth_issuer "") (or_else c.oauth_subject "") t)) [
                  | inl new ↦ rw (told, new) (link-user-keeps c t o h)
                  | inr (u, known) ↦ rw (told, known) (known_user-keeps u.id c t o h)
                ]
          | inr quiet ↦ rw quiet (link-user-keeps c t o h)
        ]

    try_oauth-keeps :
        (v : Provider) (token : Text) (t : Users)
        → I t
        → I (try_oauth (at_time now env) v token t).1
    unfolding try_oauth
    try_oauth-keeps v token t h =
        elim-cases (λ (r : Option String × Users). I r.1) (claims_for v token) _ _ h
          (λ c e. resolve_user-keeps c t (claims_for-owner v token c e) h)

  -- What each statement keeps holds after every sequence of logins.
  pub after_logins-keeps :
      (env : AuthEnv Users) (ls : List Login) (t : Users) → I t → I (after_logins env ls t)
  unfolding after_logins
  after_logins-keeps env [] t h = h
  after_logins-keeps env (l ∷ ls) t h =
      after_logins-keeps env ls (try_oauth (at_time l.now env) l.provider l.token t).1
        (try_oauth-keeps env l.now l.provider l.token t h)
