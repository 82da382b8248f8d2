-- ===== src/Auth/Admit/Outcomes.antt =====
-- Which requests the application serves, and for whom.
use mcp_awareness.Base.{
  ◌<◌, ◌≡◌, ◌≢◌, refl, ◌⊎◌, inl, inr, sym, ◌∙◌, ap, not, ◌||◌, Bool-cases, Option-cases, String,
  Option, none, some, arith, str_eq, eq_iff,
}
use mcp_awareness.Base.Text.{Text}
use mcp_awareness.Sessions.Messages.{Scope}
use mcp_awareness.Auth.Limiter.{Limits, inflight_of, acquire}
use mcp_awareness.Auth.Limiter.Counts.{acquire-some}
use mcp_awareness.Auth.Identity.{
  AuthEnv, Decoded, payload, expired, invalid, failed, Provider, Claims, claims_for,
  try_self_signed, resolve_user, try_oauth, read_payload, resolved,
}
use mcp_awareness.Auth.Admit.{
  serve, AuthState, is_public, bearer_token, or_oauth, authenticate, take_slot, after_auth, admit,
  by_oauth,
}

-- `Proves env token s o`: the token stands for the owner o. Either it is a self-signed token whose
-- subject is o, or an OAuth token from whose claims the users' table resolves o; only if it
-- resolves no user is o the owner that the claims name.
pub data Proves {S : Type 0} (env : AuthEnv S) (token : Text) (s : S) (o : String) : Type 0 where
  self_signed :
      env.jwt_secret ≢ "" → env.decode token ≡ payload (some o) → o ≢ "" → Proves env token s o
  resolved_user :
      (v : Provider) (c : Claims)
      → env.oauth_validator ≡ some v
      → claims_for v token ≡ some c
      → (resolve_user env c s).0 ≡ some o
      → o ≢ ""
      → Proves env token s o
  claimed_owner :
      (v : Provider) (c : Claims)
      → env.oauth_validator ≡ some v
      → claims_for v token ≡ some c
      → ((i : String) → (resolve_user env c s).0 ≡ some i → i ≡ "")
      → o ≡ c.owner_id
      → Proves env token s o

read_payload-owner :
    (d : Decoded) (o : String) → (read_payload d).0 ≡ some o → (d ≡ payload (some o)) × (o ≢ "")
unfolding read_payload
read_payload-owner (payload none) o h = absurd (ground (arith, h))
read_payload-owner (payload (some x)) o h =
    (ap (λ y. payload (some y)) (ground (arith, h)), λ e. ground (arith, h, eq_iff x "", e))
read_payload-owner expired o h = absurd (ground (arith, h))
read_payload-owner invalid o h = absurd (ground (arith, h))
read_payload-owner failed o h = absurd (ground (arith, h))

module _ {S : Type 0} (env : AuthEnv S) where
  self_signed-Proves :
      (token : Text) (s : S) (o : String)
      → (try_self_signed env token).0 ≡ some o
      → Proves env token s o
  unfolding try_self_signed
  self_signed-Proves token s o h = elim (Bool-cases (str_eq env.jwt_secret "")) [
    | inl off ↦ absurd (ground (arith, h, off))
    | inr on ↦
        let (e, named) = read_payload-owner (env.decode token) o (rw on at h) in
        self_signed (λ e. ground (arith, on, eq_iff env.jwt_secret "", e)) e named
  ]

  resolved-owner :
      (c : Claims) (r : Option String × S) (o : String)
      → (resolved env c r).0 ≡ some o
      → ((r.0 ≡ some o) × (o ≢ "")) ⊎ (((i : String) → r.0 ≡ some i → i ≡ "") × (o ≡ c.owner_id))
  resolved-owner c (none, s) o h = inr (λ i e. absurd (ground (arith, e)), ground (arith, h))
  resolved-owner c (some x, s) o h = elim (Bool-cases (str_eq x "")) [
    | inl empty ↦ inr (λ i e. ground (arith, e, empty, eq_iff x ""), ground (arith, h, empty))
    | inr full ↦ inl (ground (arith, h, full), λ e. ground (arith, h, full, e, eq_iff x ""))
  ]

  try_oauth-Proves :
      (token : Text) (v : Provider) (s : S) (o : String)
      → env.oauth_validator ≡ some v
      → (try_oauth env v token s).0 ≡ some o
      → Proves env token s o
  unfolding try_oauth
  try_oauth-Proves token v s o p h = elim (Option-cases (claims_for v token)) [
    | inl refused ↦ absurd (ground (arith, h, refused))
    | inr (c, e) ↦ elim (resolved-owner c (resolve_user env c s) o (rw (e, try_oauth) at h)) [
      | inl (found, named) ↦ resolved_user v c p e found named
      | inr (unknown, claimed) ↦ claimed_owner v c p e unknown claimed
    ]
  ]

  by_oauth-owner :
      (error : Option String) (r : Option String × S) (o : String)
      → (by_oauth env error r).0 ≡ some o
      → r.0 ≡ some o
  by_oauth-owner error (none, s) o h = h
  by_oauth-owner error (some x, s) o h = h

  or_oauth-Proves :
      (token : Text) (s : S) (r : Option String × Option String) (o : String)
      → r ≡ try_self_signed env token
      → (or_oauth env token s r).0 ≡ some o
      → Proves env token s o
  unfolding or_oauth
  or_oauth-Proves token s (some x, error) o e h =
      self_signed-Proves token s o (sym (ap (λ t. t.0) e) ∙ h)
  or_oauth-Proves token s (none, error) o e h = elim (Option-cases env.oauth_validator) [
    | inl off ↦ absurd (ground (arith, h, off))
    | inr (v, p) ↦ try_oauth-Proves token v s o p (by_oauth-owner error _ o (rw (p, or_oauth) at h))
  ]

  authenticate-Proves :
      (token : Text) (s : S) (o : String)
      → (authenticate env token s).0 ≡ some o
      → Proves env token s o
  unfolding authenticate
  authenticate-Proves token s o h = or_oauth-Proves token s (try_self_signed env token) o refl h

module _ {S : Type 0} (env : AuthEnv S) (limits : Limits) where
  take_slot-serve :
      (x o : String) (st : AuthState S)
      → (take_slot env limits x st).0 ≡ serve o
      → (x ≡ o) × (inflight_of o st.owner_inflight < limits.max_concurrent)
  unfolding take_slot
  take_slot-serve x o st h = elim (Option-cases (acquire limits x st.owner_inflight)) [
    | inl full ↦ absurd (ground (arith, h, full))
    | inr (d, e) ↦
        let same : x ≡ o = ground (arith, h, e) in
        (same, ground (arith, same, (acquire-some limits x st.owner_inflight e).0))
  ]

  after_auth-serve :
      (st : AuthState S) (r : Option String × Option String × S) (o : String)
      → (after_auth env limits st r).0 ≡ serve o
      → (r.0 ≡ some o) × (inflight_of o st.owner_inflight < limits.max_concurrent)
  unfolding after_auth
  after_auth-serve st (none, error, s) o h = absurd (ground (arith, h))
  after_auth-serve st (some x, error, s) o h =
      let (same, room) = take_slot-serve x o (record st { users = s }) h in (ap some same, room)

  -- A request that the application serves for an owner has a bearer token that stands for this
  -- owner: a self-signed one whose subject is the owner, or one of the provider, where the owner is
  -- the user that its claims resolve to and, only if they resolve to none, the owner that they name.
  -- The owner's counter of running requests was below the limit; it can be less than their number
  -- where the counter has been evicted.
  pub admit-serve :
      (scope : Scope) (st : AuthState S) (o : String)
      → (admit env limits scope st).0 ≡ serve o
      → (token : Text) × (bearer_token scope ≡ some token)
        × Proves env token st.users o
        × (inflight_of o st.owner_inflight < limits.max_concurrent)
  unfolding admit
  admit-serve scope st o h =
      elim (Bool-cases (not (str_eq scope.scope_type "http") || is_public scope.path)) [
        | inl open_path ↦ absurd (ground (arith, h, open_path))
        | inr guarded ↦ elim (Option-cases (bearer_token scope)) [
          | inl missing ↦ absurd (ground (arith, h, guarded, missing))
          | inr (token, e) ↦
              let (found, room) =
                after_auth-serve st (authenticate env token st.users) o
                  (rw (guarded, e, admit) at h) in
              (token, e, authenticate-Proves env token st.users o found, room)
        ]
      ]

  take_slot-refused :
      (x : String) (st : AuthState S)
      → ((o : String) → (take_slot env limits x st).0 ≢ serve o)
      → (take_slot env limits x st).1.owner_inflight ≡ st.owner_inflight
  unfolding take_slot
  take_slot-refused x st h = elim (Option-cases (acquire limits x st.owner_inflight)) [
    | inl full ↦ rw (full, take_slot) refl
    | inr (d, e) ↦ absurd (h x (rw (e, take_slot) refl))
  ]

  after_auth-refused :
      (st : AuthState S) (r : Option String × Option String × S)
      → ((o : String) → (after_auth env limits st r).0 ≢ serve o)
      → (after_auth env limits st r).1.owner_inflight ≡ st.owner_inflight
  unfolding after_auth
  after_auth-refused st (none, error, s) h = refl
  after_auth-refused st (some x, error, s) h = take_slot-refused x (record st { users = s }) h

  -- A request that the application does not serve for an owner takes no slot: the counters are as
  -- they were before it.
  pub admit-refused :
      (scope : Scope) (st : AuthState S)
      → ((o : String) → (admit env limits scope st).0 ≢ serve o)
      → (admit env limits scope st).1.owner_inflight ≡ st.owner_inflight
  unfolding admit
  admit-refused scope st h =
      elim (Bool-cases (not (str_eq scope.scope_type "http") || is_public scope.path)) [
        | inl open_path ↦ rw open_path refl
        | inr guarded ↦ elim (Option-cases (bearer_token scope)) [
          | inl missing ↦ rw (guarded, missing) refl
          | inr (token, e) ↦
              rw (guarded, e)
                (after_auth-refused st (authenticate env token st.users)
                  (λ o k. h o (rw (guarded, e) k)))
        ]
      ]
