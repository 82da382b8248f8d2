-- ===== src/Users.antt =====
-- The users of `PostgresStore` (src/mcp_awareness/postgres_store.py): the table `users` with the
-- statements of sql/get_user.sql, sql/get_user_by_oauth.sql, sql/create_user_auto.sql,
-- sql/link_oauth_identity.sql and sql/update_user_profile.sql, as an instance of the interface that
-- the authentication takes (Auth/Identity). A UniqueViolation is `none`. The columns that no
-- statement reads or writes are left out.
pub mod Lookup
pub mod Sequences
pub mod Identities
pub mod Rows
pub mod Settled
pub mod Repeats
pub mod Steps
pub mod Tables
pub mod Logins
mod Tests
use mcp_awareness.Base.{
  ℕ, Bool, true, false, not, ◌&&◌, ◌||◌, String, List, [], ◌∷◌, ◌++◌, Option, none, some, str_eq,
  if◌then◌else◌, or_else, is_some, any, map,
}
use mcp_awareness.Base.Text.{Text, codes, text_eq, is_truthy}
use mcp_awareness.Helpers.Email.{canonical_email}
use mcp_awareness.Auth.Identity.{UserStore}

pub record User : Type 0 where
  pub id : String
  pub email : Option String
  pub canonical_email : Option Text
  pub display_name : Option String
  pub oauth_subject : Option String
  pub oauth_issuer : Option String
  pub created : ℕ
  pub updated : Option ℕ
  pub deleted : Option ℕ

abbrev pub Users : Type 0
Users = List User

-- `canonical_email(email) if email else None`
unfoldable pub canonical : Option String → Option Text
canonical email =
    if is_truthy email then some (canonical_email (codes (or_else email ""))) else none

-- `canonical_email = %s`, which is not true of NULL
abbrev pub has_canonical : Option Text → User → Bool
has_canonical none u = false
has_canonical (some c) u = elim u.canonical_email [ none ↦ false | some d ↦ text_eq d c ]

-- `column = %s` of a column that may be NULL
abbrev pub is_text : String → Option String → Bool
is_text s none = false
is_text s (some t) = str_eq t s

-- `oauth_issuer = %s AND oauth_subject = %s`
unfoldable pub has_identity : String → String → User → Bool
has_identity issuer subject u = is_text issuer u.oauth_issuer && is_text subject u.oauth_subject

-- the same, of columns that may be NULL
abbrev pub same_identity : Option String → Option String → User → Bool
same_identity (some issuer) (some subject) u = has_identity issuer subject u
same_identity _ _ u = false

-- the first row that passes
unfoldable pub find : (User → Bool) → Users → Option User
find p [] = none
find p (u ∷ t) = if p u then some u else find p t

-- UPDATE … WHERE
unfoldable pub update_users : (User → Bool) → (User → User) → Users → Users
update_users p f [] = []
update_users p f (u ∷ t) = (if p u then f u else u) ∷ update_users p f t

-- `deleted IS NULL`
abbrev pub is_live : User → Bool
is_live u = not (is_some u.deleted)

unfoldable pub get_user : String → Users → Option User
unfolding find
get_user user_id t = find (λ u. str_eq u.id user_id && is_live u) t

-- The primary key, the unique column canonical_email and the index ix_users_oauth_identity: a row
-- with these values conflicts with this one.
unfoldable pub conflicts : User → User → Bool
unfolding has_identity
conflicts new u =
    str_eq u.id new.id
    || has_canonical new.canonical_email u
    || same_identity new.oauth_issuer new.oauth_subject u

-- The row of the INSERT. `updated` and `deleted` are NULL by default.
unfoldable pub new_user :
    ℕ → String → Option String → Option String → Option String → Option String → User
unfolding canonical
new_user now user_id email display_name oauth_subject oauth_issuer = record {
  id = user_id;
  email = email;
  canonical_email = canonical email;
  display_name = display_name;
  oauth_subject = oauth_subject;
  oauth_issuer = oauth_issuer;
  created = now;
  updated = none;
  deleted = none;
}

-- INSERT … ON CONFLICT DO NOTHING
unfoldable pub insert_user : User → Users → Users
unfolding conflicts
insert_user new t = if any (conflicts new) t then t else t ++ new ∷ []

unfoldable pub create_user_if_not_exists :
    ℕ
    → Users
    → String
    → Option String
    → Option String
    → Option String
    → Option String
    → Option Users
unfolding insert_user new_user
create_user_if_not_exists now t user_id email display_name oauth_subject oauth_issuer =
    some (insert_user (new_user now user_id email display_name oauth_subject oauth_issuer) t)

unfoldable pub user_by_oauth : String → String → Users → Option User
unfolding find has_identity
user_by_oauth oauth_issuer oauth_subject t =
    find (λ u. has_identity oauth_issuer oauth_subject u && is_live u) t

-- the id of the row, which is all that the caller reads of it
abbrev pub id_of : Option User → Option String
id_of none = none
id_of (some u) = some u.id

unfoldable pub get_user_by_oauth : Users → String → String → Option (Option String)
unfolding user_by_oauth
get_user_by_oauth t oauth_issuer oauth_subject =
    some (id_of (user_by_oauth oauth_issuer oauth_subject t))

-- `canonical_email = %s AND oauth_subject IS NULL AND deleted IS NULL`
unfoldable pub can_link : Text → User → Bool
can_link c u = has_canonical (some c) u && not (is_some u.oauth_subject) && is_live u

abbrev pub with_identity : ℕ → String → String → User → User
with_identity now oauth_subject oauth_issuer u = record u {
  oauth_subject = some oauth_subject;
  oauth_issuer = some oauth_issuer;
  updated = some now;
}

-- Another row with the identity makes the statement raise, a deleted one too.
unfoldable pub link_oauth_identity :
    ℕ → Users → String → String → String → Option (Option String × Users)
unfolding find update_users can_link has_identity
link_oauth_identity now t oauth_subject oauth_issuer email =
    let c = canonical_email (codes email) in
    elim (find (can_link c) t) [
      | none ↦ some (none, t)
      | some u ↦
          if any (has_identity oauth_issuer oauth_subject) t
          then none
          else some (
            some u.id,
            update_users (can_link c) (with_identity now oauth_subject oauth_issuer) t,
          )
    ]

-- COALESCE(a, b)
abbrev pub coalesce {ℓ} : {A : Type ℓ} → Option A → Option A → Option A
coalesce none b = b
coalesce (some a) b = some a

-- `id = %s AND (email IS NULL OR display_name IS NULL)`
abbrev pub is_incomplete : String → User → Bool
is_incomplete user_id u =
    str_eq u.id user_id && (not (is_some u.email) || not (is_some u.display_name))

unfoldable pub complete : ℕ → Option String → Option String → User → User
unfolding canonical
complete now email display_name u = record u {
  email = coalesce u.email email;
  canonical_email = coalesce u.canonical_email (canonical email);
  display_name = coalesce u.display_name display_name;
  updated = some now;
}

-- The statement raises if another user has the canonical address that it would write.
unfoldable pub update_user_profile :
    ℕ → Users → String → Option String → Option String → Option Users
unfolding find update_users complete
update_user_profile now t user_id email display_name = elim (find (is_incomplete user_id) t) [
  | none ↦ some t
  | some u ↦
      if any
        (λ v.
          not (str_eq v.id user_id)
          && has_canonical (complete now email display_name u).canonical_email v)
        t
      then none
      else some (update_users (is_incomplete user_id) (complete now email display_name) t)
]

-- The operations on users, at one reading of the clock.
unfoldable pub postgres_users : ℕ → UserStore Users
unfolding get_user_by_oauth update_user_profile link_oauth_identity create_user_if_not_exists
postgres_users now = record {
  get_user_by_oauth = get_user_by_oauth;
  update_user_profile = update_user_profile now;
  link_oauth_identity = link_oauth_identity now;
  create_user_if_not_exists = create_user_if_not_exists now;
}
