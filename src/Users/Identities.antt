-- ===== src/Users/Identities.antt =====
-- To whom an identity belongs: the logins of `_try_oauth` (src/mcp_awareness/middleware.py) over
-- the table of users.
use mcp_awareness.Base.{
  ℕ, ◌≡◌, refl, inl, inr, Bool, Bool-cases, Option-cases, true, false, not, ◌&&◌, String, List,
  Option, some, arith, str_eq, eq_iff, any,
}
use mcp_awareness.Base.Text.{Text, codes}
use mcp_awareness.Helpers.Email.{canonical_email}
use mcp_awareness.Auth.Identity.{AuthEnv}
use mcp_awareness.Users.{
  User, Users, has_identity, has_canonical, find, is_live, conflicts, insert_user, new_user,
  user_by_oauth, get_user_by_oauth, can_link, with_identity, link_oauth_identity, is_incomplete,
  complete, update_user_profile,
}
use mcp_awareness.Users.Lookup.{find-holds, find-any, find-append, id-find-update_users}
use mcp_awareness.Users.Sequences.{Login, after_logins, after_logins-keeps}

-- The identity stands for a user of the table.
abbrev pub StandsFor : String → String → String → Users → Type 0
StandsFor issuer subject i t = get_user_by_oauth t issuer subject ≡ some (some i)

module _ (issuer subject i : String) where
  abbrev named : User → Bool
  named u = has_identity issuer subject u && is_live u

  same_named :
      (now : ℕ) (email name : Option String) (x : User)
      → named (complete now email name x) ≡ named x
  unfolding complete has_identity
  same_named now email name x = refl

  -- A row without identity does not become the one that has this identity, unless it gets it.
  named-with_identity :
      (now : ℕ) (c : Text) (sub iss : String) (x : User)
      → (iss ≡ issuer → sub ≡ subject → ⊥)
      → can_link c x ≡ true
      → named (with_identity now sub iss x) ≡ named x
  unfolding can_link has_identity
  named-with_identity now c sub iss x other p =
      ground (arith, other, eq_iff iss issuer, eq_iff sub subject)

  create-StandsFor :
      (new : User) (t : Users)
      → StandsFor issuer subject i t
      → StandsFor issuer subject i (insert_user new t)
  unfolding insert_user get_user_by_oauth user_by_oauth
  create-StandsFor new t h = elim (Option-cases (find named t)) [
    | inl absent ↦ absurd (ground (arith, rw absent at h))
    | inr (w, found) ↦ elim (Bool-cases (any (conflicts new) t)) [
      | inl taken ↦ rw taken h
      | inr free ↦ rw (free, find-append named t new w found) (rw found at h)
    ]
  ]

  pub update-StandsFor :
      (now : ℕ) (t t' : Users) (u : String) (email name : Option String)
      → StandsFor issuer subject i t
      → update_user_profile now t u email name ≡ some t'
      → StandsFor issuer subject i t'
  unfolding update_user_profile get_user_by_oauth user_by_oauth
  update-StandsFor now t t' u email name h e = elim (Option-cases (find (is_incomplete u) t)) [
    | inl absent ↦ ground (arith, h, rw (update_user_profile, absent) at e)
    | inr (w, found) ↦
        by_check w found
          (any
            (λ v.
              not (str_eq v.id u) && has_canonical (complete now email name w).canonical_email v)
            t)
          refl
  ]
    where
      same : (x : User) → is_incomplete u x ≡ true → named (complete now email name x) ≡ named x
      same x p = same_named now email name x

      by_check :
          (w : User)
          → find (is_incomplete u) t ≡ some w
          → (b : Bool)
          → any
              (λ v.
                not (str_eq v.id u) && has_canonical (complete now email name w).canonical_email v)
              t
            ≡ b
          → StandsFor issuer subject i t'
      by_check w found true c = absurd (ground (arith, rw (update_user_profile, found, c) at e))
      by_check w found false c = ground (
        arith,
        h,
        rw (update_user_profile, found, c) at e,
        id-find-update_users named (is_incomplete u) (complete now email name) t same (λ x. refl),
      )

  -- The row that is linked has no identity, and the new one is not the user's.
  link-StandsFor :
      (now : ℕ) (t t' : Users) (sub iss email : String) (r : Option String)
      → StandsFor issuer subject i t
      → link_oauth_identity now t sub iss email ≡ some (r, t')
      → StandsFor issuer subject i t'
  unfolding link_oauth_identity get_user_by_oauth user_by_oauth
  link-StandsFor now t t' sub iss email r h e =
      elim (Option-cases (find (can_link (canonical_email (codes email))) t)) [
        | inl absent ↦ ground (arith, h, rw (link_oauth_identity, absent) at e)
        | inr (w, found) ↦ by_check w found (any (has_identity iss sub) t) refl
      ]
    where
      owner_named : iss ≡ issuer → sub ≡ subject → any (has_identity iss sub) t ≡ true
      owner_named p q = elim (Option-cases (find named t)) [
        | inl absent ↦ absurd (ground (arith, rw absent at h))
        | inr (w, found) ↦
            find-any named (has_identity iss sub) t w found
              (rw (p, q) (ground (arith, find-holds named t w found)))
      ]

      by_check :
          (w : User)
          → find (can_link (canonical_email (codes email))) t ≡ some w
          → (b : Bool) → any (has_identity iss sub) t ≡ b
          → StandsFor issuer subject i t'
      by_check w found true c = absurd (ground (arith, rw (link_oauth_identity, found, c) at e))
      by_check w found false c = ground (
        arith,
        h,
        rw (link_oauth_identity, found, c) at e,
        id-find-update_users named (can_link (canonical_email (codes email)))
            (with_identity now sub iss) t
            (λ x.
              named-with_identity now (canonical_email (codes email)) sub iss x
                (λ p q. cc (owner_named p q, c)))
            (λ x. refl),
      )

  -- No login changes to whom an identity belongs: an issuer and a subject that stand for a user
  -- stand for the same user after every sequence of logins, whoever logs in with whatever token, and
  -- whatever the validator and the userinfo answer at each.
  pub after_logins-StandsFor :
      (env : AuthEnv Users) (ls : List Login) (t : Users)
      → get_user_by_oauth t issuer subject ≡ some (some i)
      → get_user_by_oauth (after_logins env ls t) issuer subject ≡ some (some i)
  after_logins-StandsFor =
      after_logins-keeps (StandsFor issuer subject i)
        (λ now c t o h.
          create-StandsFor (new_user now c.owner_id c.email c.name c.oauth_subject c.oauth_issuer) t
            h)
        update-StandsFor link-StandsFor
