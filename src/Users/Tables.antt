-- ===== src/Users/Tables.antt =====
-- The constraints of the table `users` (src/mcp_awareness/postgres_store.py) under the statements of
-- the logins: two rows that do not conflict before a statement do not conflict after it.
use mcp_awareness.Base.{
  ℕ, ◌≡◌, refl, sym, ◌∙◌, ap, inl, inr, Bool, Bool-cases, Option-cases, true, false, ◌&&◌, String,
  List, [], ◌∷◌, ◌++◌, Option, none, some, arith, str_eq, eq_iff, any, if◌then◌else◌, if-cases, All,
}
use mathlib.Core.Path.{subst}
use mcp_awareness.Base.Text.{Text, codes, text_eq, text_eq_iff}
use mcp_awareness.Helpers.Email.{canonical_email}
use mcp_awareness.Auth.Identity.{AuthEnv}
use mcp_awareness.Users.{
  User, Users, canonical, has_canonical, has_identity, same_identity, is_text, find, update_users,
  conflicts, coalesce, is_incomplete, complete, can_link, with_identity, update_user_profile,
  insert_user, new_user, link_oauth_identity,
}
use mcp_awareness.Users.Rows.{
  IsTable, held_by_other, only_row, conflicts-id, conflicts-canonical, incomplete-id, All-not_any,
}
use mcp_awareness.Users.Settled.{any-append}
use mcp_awareness.Users.Lookup.{find-holds}
use mcp_awareness.Users.Sequences.{Login, after_logins, after_logins-keeps}

str_eq_sym : (a b : String) → str_eq a b ≡ str_eq b a
str_eq_sym a b = ground (arith, eq_iff a b, eq_iff b a)

text_eq_sym : (a b : Text) → text_eq a b ≡ text_eq b a
text_eq_sym a b = elim (Bool-cases (text_eq a b)) [
  | inl y ↦ ground (arith, y, text_eq_iff a b, text_eq_iff b a)
  | inr n ↦ ground (arith, n, text_eq_iff a b, text_eq_iff b a)
]

has_canonical_sym :
    (u v : User) → has_canonical u.canonical_email v ≡ has_canonical v.canonical_email u
has_canonical_sym u v = elim (Option-cases u.canonical_email) [
  | inl x ↦ elim (Option-cases v.canonical_email) [
    | inl y ↦ ground (arith, x, y)
    | inr (b, y) ↦ ground (arith, x, y)
  ]
  | inr (a, x) ↦ elim (Option-cases v.canonical_email) [
    | inl y ↦ ground (arith, x, y)
    | inr (b, y) ↦ ground (arith, x, y, text_eq_sym a b)
  ]
]

-- the same test of four columns
abbrev same_columns : Option String → Option String → Option String → Option String → Bool
same_columns (some i) (some s) j r = is_text i j && is_text s r
same_columns _ _ j r = false

is_same :
    (i s : Option String) (v : User)
    → same_identity i s v ≡ same_columns i s v.oauth_issuer v.oauth_subject
unfolding has_identity
is_same none s v = refl
is_same (some i) none v = refl
is_same (some i) (some s) v = refl

same_columns_sym : (i s j r : Option String) → same_columns i s j r ≡ same_columns j r i s
same_columns_sym none s none r = refl
same_columns_sym none s (some j) none = refl
same_columns_sym none s (some j) (some r) = refl
same_columns_sym (some i) none none r = refl
same_columns_sym (some i) none (some j) none = refl
same_columns_sym (some i) none (some j) (some r) = ground arith
same_columns_sym (some i) (some s) none r = refl
same_columns_sym (some i) (some s) (some j) none = ground arith
same_columns_sym (some i) (some s) (some j) (some r) = rw (str_eq_sym i j, str_eq_sym s r) refl

same_identity_sym :
    (u v : User)
    → same_identity u.oauth_issuer u.oauth_subject v
      ≡ same_identity v.oauth_issuer v.oauth_subject u
same_identity_sym u v =
    is_same u.oauth_issuer u.oauth_subject v
    ∙ same_columns_sym u.oauth_issuer u.oauth_subject v.oauth_issuer v.oauth_subject
    ∙ sym (is_same v.oauth_issuer v.oauth_subject u)

conflicts_sym : (u v : User) → conflicts u v ≡ conflicts v u
unfolding conflicts
conflicts_sym u v = rw (str_eq_sym v.id u.id, has_canonical_sym u v, same_identity_sym u v) refl

-- An update keeps the constraints if rows that pass Q and do not conflict do not conflict after it.
module _ (p : User → Bool) (f : User → User) (Q : User → Type 0)
    (apart : (u v : User)
      → Q u
      → Q v
      → conflicts u v ≡ false
      → conflicts (if p u then f u else u) (if p v then f v else v) ≡ false)
    (same_id : (u : User) → (f u).id ≡ u.id) where
  none_conflicts :
      (u : User) (t : Users)
      → Q u
      → All Q t
      → any (conflicts u) t ≡ false
      → any (conflicts (if p u then f u else u)) (update_users p f t) ≡ false
  unfolding update_users
  none_conflicts u [] q a h = refl
  none_conflicts u (v ∷ t) q a h =
      ground
        (arith, apart u v q a.0 (ground (arith, h)), none_conflicts u t q a.1 (ground (arith, h)))

  update-IsTable : (t : Users) → All Q t → IsTable t → IsTable (update_users p f t)
  unfolding update_users
  update-IsTable [] a ok = tt
  update-IsTable (u ∷ t) a ok = (
    none_conflicts u t a.0 a.1 ok.0,
    if-cases (λ (x : User). str_eq x.id "" ≡ false) (p u) _ _ (λ y. rw (same_id u) ok.1)
        (λ n. ok.1),
    update-IsTable t a.1 ok.2,
  )

-- What the update of a profile needs of a row: the row with the id is w, and no other has the
-- address that w gets.
abbrev Alone : String → Option String → User → User → Type 0
Alone i email w u =
    (str_eq u.id i ≡ true → u ≡ w)
    × (held_by_other i (coalesce w.canonical_email (canonical email)) u ≡ false)

complete_apart :
    (now : ℕ) (i : String) (email name : Option String) (w u v : User)
    → Alone i email w u
    → Alone i email w v
    → conflicts u v ≡ false
    → str_eq u.id i ≡ true
    → conflicts (complete now email name u) v ≡ false
unfolding conflicts complete
complete_apart now i email name w u v a b free p = ground (
  arith,
  free,
  p,
  b.1,
  ap (λ (x : User). coalesce x.canonical_email (canonical email)) (a.0 p),
  eq_iff u.id i,
  eq_iff v.id i,
  eq_iff v.id u.id,
)

profile_apart :
    (now : ℕ) (i : String) (email name : Option String) (w u v : User)
    → Alone i email w u
    → Alone i email w v
    → conflicts u v ≡ false
    → conflicts
        (if is_incomplete i u then complete now email name u else u)
        (if is_incomplete i v then complete now email name v else v)
      ≡ false
profile_apart now i email name w u v a b free = elim (Bool-cases (is_incomplete i u)) [
  | inl p ↦ elim (Bool-cases (is_incomplete i v)) [
    | inl q ↦ absurd (both p q)
    | inr q ↦ rw (p, q) (complete_apart now i email name w u v a b free (incomplete-id i u p))
  ]
  | inr p ↦ elim (Bool-cases (is_incomplete i v)) [
    | inl q ↦
        rw (p, q)
          (conflicts_sym u (complete now email name v)
            ∙ complete_apart now i email name w v u b a (conflicts_sym v u ∙ free)
                (incomplete-id i v q))
    | inr q ↦ rw (p, q) free
  ]
]
  where
    both : is_incomplete i u ≡ true → is_incomplete i v ≡ true → ⊥
    both p q = cc (
      free,
      conflicts-id u v (
          ground (
            arith,
            incomplete-id i u p,
            incomplete-id i v q,
            eq_iff u.id i,
            eq_iff v.id i,
            eq_iff v.id u.id,
          )),
    )

with_identity_apart :
    (now : ℕ) (sub iss : String) (u v : User)
    → has_identity iss sub v ≡ false
    → conflicts u v ≡ false
    → conflicts (with_identity now sub iss u) v ≡ false
unfolding conflicts has_identity
with_identity_apart now sub iss u v b free = ground (arith, free, b)

can_link-has : (d : Text) (x : User) → can_link d x ≡ true → has_canonical (some d) x ≡ true
unfolding can_link
can_link-has d x h = ground (arith, h)

link_apart :
    (now : ℕ) (c : Text) (sub iss : String) (u v : User)
    → has_identity iss sub u ≡ false
    → has_identity iss sub v ≡ false
    → conflicts u v ≡ false
    → conflicts
        (if can_link c u then with_identity now sub iss u else u)
        (if can_link c v then with_identity now sub iss v else v)
      ≡ false
link_apart now c sub iss u v a b free = elim (Bool-cases (can_link c u)) [
  | inl p ↦ elim (Bool-cases (can_link c v)) [
    | inl q ↦
        absurd (cc (free, conflicts-canonical u v c (can_link-has c u p) (can_link-has c v q)))
    | inr q ↦ rw (p, q) (with_identity_apart now sub iss u v b free)
  ]
  | inr p ↦ elim (Bool-cases (can_link c v)) [
    | inl q ↦
        rw (p, q)
          (conflicts_sym u (with_identity now sub iss v)
            ∙ with_identity_apart now sub iss v u a (conflicts_sym v u ∙ free))
    | inr q ↦ rw (p, q) free
  ]
]

snoc-IsTable :
    (t : Users) (new : User)
    → any (conflicts new) t ≡ false
    → str_eq new.id "" ≡ false
    → IsTable t
    → IsTable (t ++ new ∷ [])
snoc-IsTable [] new free named ok = (refl, named, tt)
snoc-IsTable (u ∷ t) new free named ok = (
  any-append (conflicts u) t new ∙ ground (arith, ok.0, conflicts_sym u new, free),
  ok.1,
  snoc-IsTable t new (ground (arith, free)) named ok.2,
)

insert_user-IsTable :
    (new : User) (t : Users) → str_eq new.id "" ≡ false → IsTable t → IsTable (insert_user new t)
unfolding insert_user
insert_user-IsTable new t named ok = elim (Bool-cases (any (conflicts new) t)) [
  | inl taken ↦ rw (insert_user, taken) ok
  | inr free ↦ rw (insert_user, free) (snoc-IsTable t new free named ok)
]

Alone-zip :
    (i : String) (email : Option String) (w : User) (t : Users)
    → All (λ x. str_eq x.id i ≡ true → x ≡ w) t
    → All (λ x. held_by_other i (coalesce w.canonical_email (canonical email)) x ≡ false) t
    → All (Alone i email w) t
Alone-zip i email w [] a b = tt
Alone-zip i email w (u ∷ t) a b = ((a.0, b.0), Alone-zip i email w t a.1 b.1)

-- An update that does not raise keeps the constraints.
update_user_profile-IsTable :
    (now : ℕ) (t t' : Users) (i : String) (email name : Option String)
    → IsTable t
    → update_user_profile now t i email name ≡ some t'
    → IsTable t'
unfolding update_user_profile complete
update_user_profile-IsTable now t t' i email name ok e =
    elim (Option-cases (find (is_incomplete i) t)) [
      | inl absent ↦ subst IsTable (ground (arith, rw (update_user_profile, absent) at e)) ok
      | inr (w, found) ↦
          elim (Bool-cases
            (any (held_by_other i (coalesce w.canonical_email (canonical email))) t)) [
              | inl taken ↦ absurd (ground (arith, rw (update_user_profile, found, taken) at e))
              | inr free ↦
                  subst IsTable (ground (arith, rw (update_user_profile, found, free) at e)) (
                    update-IsTable (is_incomplete i) (complete now email name) (Alone i email w)
                      (profile_apart now i email name w) (λ u. refl) t
                      (Alone-zip i email w t (only w found) (All-not_any _ t free)) ok)
            ]
    ]
  where
    only :
        (w : User) → find (is_incomplete i) t ≡ some w → All (λ x. str_eq x.id i ≡ true → x ≡ w) t
    only w found =
        subst (λ (j : String). All (λ x. str_eq x.id j ≡ true → x ≡ w) t)
          (ground
            (arith, eq_iff w.id i, incomplete-id i w (find-holds (is_incomplete i) t w found)))
          (only_row (is_incomplete i) t w ok found)

-- So does a link that does not raise.
link_oauth_identity-IsTable :
    (now : ℕ) (t t' : Users) (sub iss email : String) (r : Option String)
    → IsTable t
    → link_oauth_identity now t sub iss email ≡ some (r, t')
    → IsTable t'
unfolding link_oauth_identity
link_oauth_identity-IsTable now t t' sub iss email r ok e =
    elim (Option-cases (find (can_link (canonical_email (codes email))) t)) [
      | inl absent ↦ subst IsTable (ground (arith, rw (link_oauth_identity, absent) at e)) ok
      | inr (w, found) ↦ elim (Bool-cases (any (has_identity iss sub) t)) [
        | inl taken ↦ absurd (ground (arith, rw (link_oauth_identity, found, taken) at e))
        | inr free ↦ subst IsTable (ground (arith, rw (link_oauth_identity, found, free) at e)) (
            update-IsTable (can_link (canonical_email (codes email))) (with_identity now sub iss)
              (λ u. has_identity iss sub u ≡ false)
              (link_apart now (canonical_email (codes email)) sub iss) (λ u. refl) t
              (All-not_any (has_identity iss sub) t free) ok)
      ]
    ]

-- Every sequence of logins keeps the constraints.
pub after_logins-IsTable :
    (env : AuthEnv Users) (ls : List Login) (t : Users)
    → IsTable t
    → IsTable (after_logins env ls t)
unfolding new_user
after_logins-IsTable =
    after_logins-keeps IsTable
      (λ now c t named ok.
        insert_user-IsTable (new_user now c.owner_id c.email c.name c.oauth_subject c.oauth_issuer)
          t named ok)
      update_user_profile-IsTable link_oauth_identity-IsTable
