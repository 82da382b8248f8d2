-- ===== src/Sessions/Subsequent/Reinit.antt =====
-- What a re-initialization leaves in the registry.
use mcp_awareness.Base.{
  ℕ, suc, ◌+◌, ◌<◌, ◌≡◌, ◌≢◌, refl, ◌∙◌, ap, sym, true, false, String, List, [], ◌∷◌, none, some,
  arith, str_eq, eq_iff, eq_refl, if◌then◌else◌, map, ltb,
}
use mathlib.Core.Path.{subst}
use native.Mathlib.Nat.{le_refl}
use mcp_awareness.Base.Dict.{lookup, insert}
use mcp_awareness.Schema.{microseconds}
use mcp_awareness.Sessions.Store.{
  Session, Tables, Settings, Registration, register, new_row, find_session, redirect_lookup,
  add_redirect, invalidate, count_active,
}
use mcp_awareness.Sessions.Store.Rows.{
  Keyed, register-Keyed, add_redirect-Keyed, find_session-register, find_session-invalidate,
  redirect_lookup-add_redirect, count_active-register, count_active-invalidate,
}
use mcp_awareness.Sessions.Messages.{
  Scope, request, Message, without_session_header, rewrite_session_header, rewrite_response,
}
use mcp_awareness.Sessions.Middleware.{
  Env, Context, State, registers, redirects, invalidates, try_register,
}
use mcp_awareness.Sessions.Subsequent.{
  registration_again, persist, new_id, init_request, after_init, after_persist, reinitialize,
}
use mcp_awareness.Sessions.Subsequent.Isolation.{AllUp}

-- The registry after `old` was replaced by `new`: the old identifier is no session any more and
-- leads to the new one, which is a session of the same owner with what the client had declared,
-- every other session is as it was, and the owner has as many sessions as before.
pub record Replaced {A : Type 0} (env : Env A) (ctx : Context) (old new : String) (row : Session)
    (db db' : Tables) : Type 0 where
  pub retired : find_session ctx.now old db' ≡ none
  pub forwarded : redirect_lookup ctx.now old db' ≡ some new
  pub renewed :
      find_session ctx.now new db'
      ≡ some (new_row env.settings ctx.now (registration_again env ctx row))
  pub others :
      (i : String) → old ≢ i → new ≢ i → find_session ctx.now i db' ≡ find_session ctx.now i db
  pub balanced : count_active ctx.now ctx.owner_id db' ≡ count_active ctx.now ctx.owner_id db

find_session-add_redirect :
    (c : Settings) (now later : ℕ) (old new i : String) (db : Tables)
    → find_session later i (add_redirect c now old new db) ≡ find_session later i db
unfolding find_session add_redirect
find_session-add_redirect c now later old new i db = refl

count_active-add_redirect :
    (c : Settings) (now later : ℕ) (old new owner : String) (db : Tables)
    → count_active later owner (add_redirect c now old new db) ≡ count_active later owner db
unfolding count_active add_redirect
count_active-add_redirect c now later old new owner db = refl

redirect_lookup-invalidate :
    (now later : ℕ) (i j : String) (db : Tables)
    → redirect_lookup later j (invalidate now i db) ≡ redirect_lookup later j db
unfolding redirect_lookup invalidate
redirect_lookup-invalidate now later i j db = refl

-- a session that is found is no fresh identifier
found-ne-fresh :
    (now : ℕ) (old new : String) (row : Session) (db : Tables)
    → find_session now old db ≡ some row
    → lookup new db.sessions ≡ none
    → old ≢ new
unfolding find_session
found-ne-fresh now old new row db found fresh e =
    let absent : lookup old db.sessions ≡ none =
      subst (λ i. lookup i db.sessions ≡ none) (sym e) fresh in
    ground arith

register_fresh :
    (c : Settings) (now : ℕ) (i : String) (r : Registration) (db : Tables)
    → lookup i db.sessions ≡ none
    → register c now i r db ≡ some (record db { sessions = insert i (new_row c now r) db.sessions })
unfolding register
register_fresh c now i r db fresh = rw fresh

module _ {A : Type 0} (env : Env A) (ctx : Context) (old new : String) (row : Session)
    (db : Tables) where
  registered : Tables
  registered = record db {
    sessions =
        insert new (new_row env.settings ctx.now (registration_again env ctx row)) db.sessions;
  }

  redirected : Tables
  redirected = add_redirect env.settings ctx.now old new registered

  replaced : Tables
  replaced = invalidate ctx.now old redirected

  persist-replaced :
      AllUp ctx → lookup new db.sessions ≡ none → persist env ctx old new row db ≡ (replaced, true)
  unfolding persist try_register registered redirected replaced
  persist-replaced up fresh = ground (
    arith,
    up.at_call registers,
    up.at_call redirects,
    up.at_call invalidates,
    register_fresh env.settings ctx.now new (registration_again env ctx row) db fresh,
  )

  module _ (k : Keyed db) (ttl : 0 < env.settings.ttl_seconds)
      (grace : 0 < env.settings.redirect_grace_seconds)
      (found : find_session ctx.now old db ≡ some row) (own : row.owner_id ≡ ctx.owner_id)
      (fresh : lookup new db.sessions ≡ none) where
    reg : register env.settings ctx.now new (registration_again env ctx row) db ≡ some registered
    unfolding registered
    reg = register_fresh env.settings ctx.now new (registration_again env ctx row) db fresh

    find-replaced :
        (i : String)
        → find_session ctx.now i replaced
          ≡ (if str_eq old i then none else find_session ctx.now i registered)
    unfolding replaced redirected
    find-replaced i =
        find_session-invalidate ctx.now ctx.now old i redirected (le_refl ctx.now)
        ∙ ap (λ o. if str_eq old i then none else o)
            (find_session-add_redirect env.settings ctx.now ctx.now old new i registered)

    find-registered :
        (i : String)
        → find_session ctx.now i registered ≡ (
            if str_eq new i
            then (if ltb ctx.now (ctx.now + microseconds env.settings.ttl_seconds)
                then some (new_row env.settings ctx.now (registration_again env ctx row))
                else none)
            else find_session ctx.now i db)
    find-registered i = find_session-register env.settings ctx.now ctx.now new i _ db reg

    old-ne-new : old ≢ new
    old-ne-new = found-ne-fresh ctx.now old new row db found fresh

    find-old : find_session ctx.now old redirected ≡ some row
    unfolding redirected
    find-old =
        find_session-add_redirect env.settings ctx.now ctx.now old new old registered
        ∙ find-registered old
        ∙ (ground (arith, eq_iff new old, old-ne-new))

    redirected-Keyed : Keyed redirected
    unfolding redirected
    redirected-Keyed =
        add_redirect-Keyed env.settings ctx.now old new registered
          (register-Keyed env.settings ctx.now new _ db k reg)

    count-registered :
        count_active ctx.now ctx.owner_id redirected ≡ suc (count_active ctx.now ctx.owner_id db)
    unfolding redirected
    count-registered =
        count_active-add_redirect env.settings ctx.now ctx.now old new ctx.owner_id registered
        ∙ count_active-register env.settings ctx.now ctx.owner_id new _ db reg ttl
        ∙ (unfold registration_again in rw eq_refl)

    balanced : count_active ctx.now ctx.owner_id replaced ≡ count_active ctx.now ctx.owner_id db
    unfolding replaced
    balanced = omega (arith, one_less, count-registered)
      where
        one_less :
            suc (count_active ctx.now ctx.owner_id (invalidate ctx.now old redirected))
            ≡ count_active ctx.now ctx.owner_id redirected
        one_less =
            subst
              (λ o.
                suc (count_active ctx.now o (invalidate ctx.now old redirected))
                ≡ count_active ctx.now o redirected)
              own (count_active-invalidate ctx.now old row redirected redirected-Keyed find-old)

    forwarded : redirect_lookup ctx.now old replaced ≡ some new
    unfolding replaced redirected
    forwarded =
        redirect_lookup-invalidate ctx.now ctx.now old old redirected
        ∙ redirect_lookup-add_redirect env.settings ctx.now ctx.now old new old registered
        ∙ (ground (arith, eq_refl old, grace))

    replaced-Replaced : Replaced env ctx old new row db replaced
    replaced-Replaced = record {
      retired = find-replaced old ∙ (rw eq_refl);
      forwarded = forwarded;
      renewed =
          find-replaced new
          ∙ (ground (arith, eq_iff old new, old-ne-new, find-registered new, eq_refl new, ttl));
      others = λ i p q.
          find-replaced i ∙ (ground (arith, eq_iff old i, eq_iff new i, find-registered i));
      balanced = balanced;
    }

-- The answer of the application to the synthetic initialize, and its state after it.
abbrev pub init_answer : {A : Type 0} → Env A → Scope → Session → State A → List Message × A
init_answer env scope row s =
    env.app s.app_state (record scope { headers = without_session_header scope.headers })
      (request (env.dumps (init_request row)) false ∷ [])

-- the answer to the original request under the new identifier
abbrev pub replay_answer :
    {A : Type 0} → Env A → Scope → String → Session → String → State A → List Message × A
replay_answer env scope b row new s =
    env.app (init_answer env scope row s).1 (rewrite_session_header scope new)
      (request b false ∷ [])

reinitialize-replaced :
    {A : Type 0} (env : Env A) (ctx : Context) (scope : Scope) (b old new : String) (row : Session)
    (s : State A)
    → AllUp ctx
    → new_id env ctx (init_answer env scope row s).0 ≡ some new
    → lookup new s.tables.sessions ≡ none
    → reinitialize env ctx scope b old row s ≡ (
      some (new, map (rewrite_response new) (replay_answer env scope b row new s).0),
      record s {
        tables = replaced env ctx old new row s.tables;
        app_state = (replay_answer env scope b row new s).1;
      },
    )
unfolding reinitialize
reinitialize-replaced {A} env ctx scope b old new row s up e fresh =
    ap (after_init env ctx scope b old row after) e
    ∙ ap (after_persist env ctx scope b new after)
        (persist-replaced env ctx old new row s.tables up fresh)
  where
    after : State A
    after = record s { app_state = (init_answer env scope row s).1 }

-- A session that the application has forgotten is re-initialized: if every call of the store in the
-- request goes through and the application answers the synthetic initialize with an identifier that
-- is not in the registry, then the client gets the answer to its own request under the new
-- identifier, and in the registry the new session stands in for the old one. The session is found
-- and the caller's, the tables have distinct keys, and the lifetimes of sessions and redirects are
-- not zero.
pub reinitialize-Replaced :
    {A : Type 0} (env : Env A) (ctx : Context) (scope : Scope) (b old new : String) (row : Session)
    (s : State A)
    → AllUp ctx
    → Keyed s.tables
    → 0 < env.settings.ttl_seconds
    → 0 < env.settings.redirect_grace_seconds
    → find_session ctx.now old s.tables ≡ some row
    → row.owner_id ≡ ctx.owner_id
    → new_id env ctx (init_answer env scope row s).0 ≡ some new
    → lookup new s.tables.sessions ≡ none
    → ((reinitialize env ctx scope b old row s).0
        ≡ some (new, map (rewrite_response new) (replay_answer env scope b row new s).0))
      × Replaced env ctx old new row s.tables (reinitialize env ctx scope b old row s).1.tables
reinitialize-Replaced env ctx scope b old new row s up k ttl grace found own e fresh = (
  ap (λ t. t.0) done,
  subst (λ t. Replaced env ctx old new row s.tables t.1.tables) (sym done)
      (replaced-Replaced env ctx old new row s.tables k ttl grace found own fresh),
)
  where
    done : reinitialize env ctx scope b old row s ≡ (
      some (new, map (rewrite_response new) (replay_answer env scope b row new s).0),
      record s {
        tables = replaced env ctx old new row s.tables;
        app_state = (replay_answer env scope b row new s).1;
      },
    )
    done = reinitialize-replaced env ctx scope b old new row s up e fresh
