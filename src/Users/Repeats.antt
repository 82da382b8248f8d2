-- ===== src/Users/Repeats.antt =====
-- What one statement on the table `users` (src/mcp_awareness/postgres_store.py) finds after another.
use mcp_awareness.Base.{
  ℕ, ◌≡◌, refl, sym, inl, inr, Bool, Bool-cases, Option-cases, true, false, ◌&&◌, String, [], ◌∷◌,
  ◌++◌, Option, none, some, arith, str_eq, eq_refl, any, or_else,
}
use mathlib.Core.Path.{subst}
use mcp_awareness.Base.Text.{Text, is_truthy, codes}
use mcp_awareness.Helpers.Email.{canonical_email}
use mcp_awareness.Users.{
  User, Users, canonical, has_identity, find, update_users, is_live, new_user, user_by_oauth,
  get_user_by_oauth, can_link, with_identity, is_incomplete, complete, coalesce,
  update_user_profile,
}
use mcp_awareness.Users.Identities.{StandsFor}
use mcp_awareness.Users.Rows.{IsTable, update-Settled, held_by_other}
use mcp_awareness.Users.Settled.{complete-Settled}

pub find-new :
    (q : User → Bool) (t : Users) (n : User)
    → find q t ≡ none
    → q n ≡ true
    → find q (t ++ n ∷ []) ≡ some n
unfolding find
find-new q [] n h k = rw k refl
find-new q (u ∷ t) n h k = ground (arith, find-new q t n)

-- Where an update gives rows a property that no row had, the first of these rows is found.
pub find-updated :
    (q p : User → Bool) (f : User → User) (t : Users) (w : User)
    → ((u : User) → p u ≡ true → q (f u) ≡ true)
    → any q t ≡ false
    → find p t ≡ some w
    → find q (update_users p f t) ≡ some (f w)
unfolding find update_users
find-updated q p f [] w g free h = absurd (ground arith)
find-updated q p f (u ∷ t) w g free h = ground (arith, g u, find-updated q p f t w g)

pub is_truthy-some : (o : Option String) → is_truthy o ≡ true → o ≡ some (or_else o "")
is_truthy-some none h = absurd (ground arith)
is_truthy-some (some s) h = refl

-- An update of a profile that was done can be done again, and one that raised raises again.
pub update_again :
    (now now' : ℕ) (t t' : Users) (i : String) (email name : Option String)
    → IsTable t
    → update_user_profile now t i email name ≡ some t'
    → (t'' : Users) × (update_user_profile now' t' i email name ≡ some t'')
unfolding update_user_profile complete
update_again now now' t t' i email name ok e = elim (Option-cases (find (is_incomplete i) t)) [
  | inl absent ↦ (t, rw (sym (same absent)) (rw (update_user_profile, absent) refl))
  | inr (w, found) ↦
      by_check w found (any (held_by_other i (coalesce w.canonical_email (canonical email))) t) refl
]
  where
    same : find (is_incomplete i) t ≡ none → t ≡ t'
    same absent = ground (arith, rw (update_user_profile, absent) at e)

    by_check :
        (w : User)
        → find (is_incomplete i) t ≡ some w
        → (b : Bool) → any (held_by_other i (coalesce w.canonical_email (canonical email))) t ≡ b
        → (t'' : Users) × (update_user_profile now' t' i email name ≡ some t'')
    by_check w found true held = absurd (ground (arith, rw (update_user_profile, found, held) at e))
    by_check w found false free =
        subst (λ x. (t'' : Users) × (update_user_profile now' x i email name ≡ some t''))
          (ground (arith, rw (update_user_profile, found, free) at e))
          (update-Settled now' (update_users (is_incomplete i) (complete now email name) t) i email
            name (coalesce w.canonical_email (canonical email))
            (complete-Settled now t i email name w ok found free))

pub update_raises_again :
    (now now' : ℕ) (t : Users) (i : String) (email name : Option String)
    → update_user_profile now t i email name ≡ none
    → update_user_profile now' t i email name ≡ none
unfolding update_user_profile complete
update_raises_again now now' t i email name e = elim (Option-cases (find (is_incomplete i) t)) [
  | inl absent ↦ absurd (ground (arith, rw (update_user_profile, absent) at e))
  | inr (w, found) ↦
      elim (Bool-cases (any (held_by_other i (coalesce w.canonical_email (canonical email))) t)) [
        | inl held ↦ rw (update_user_profile, found, held) refl
        | inr free ↦ absurd (ground (arith, rw (update_user_profile, found, free) at e))
      ]
]

pub canonical-some :
    (o : Option String)
    → is_truthy o ≡ true
    → canonical o ≡ some (canonical_email (codes (or_else o "")))
unfolding canonical
canonical-some o h = rw h refl

-- the row that `_resolve_user` creates has the identity of the claims
pub new-has_identity :
    (now : ℕ) (u : String) (email name subject issuer : Option String)
    → is_truthy issuer && is_truthy subject ≡ true
    → has_identity
        (or_else issuer "")
        (or_else subject "")
        (new_user now u email name subject issuer)
      ≡ true
unfolding has_identity new_user
new-has_identity now u email name none none h = absurd (ground arith)
new-has_identity now u email name none (some i) h = absurd (ground arith)
new-has_identity now u email name (some s) none h = absurd (ground arith)
new-has_identity now u email name (some s) (some i) h = ground (arith, eq_refl i, eq_refl s)

pub linked-has_identity :
    (now : ℕ) (subject issuer : String) (a : Text) (u : User)
    → can_link a u ≡ true
    → has_identity issuer subject (with_identity now subject issuer u)
        && is_live (with_identity now subject issuer u)
      ≡ true
unfolding has_identity can_link
linked-has_identity now subject issuer a u p = ground (arith, p, eq_refl issuer, eq_refl subject)

pub found-IsNamed :
    (q : User → Bool) (t : Users) (w : User)
    → IsTable t
    → find q t ≡ some w
    → str_eq w.id "" ≡ false
unfolding find
found-IsNamed q [] w ok h = absurd (ground arith)
found-IsNamed q (u ∷ t) w ok h = elim (Bool-cases (q u)) [
  | inl hit ↦ ground (arith, ok.1, rw hit at h)
  | inr miss ↦ found-IsNamed q t w ok.2 (rw miss at h)
]

pub get-known :
    (t : Users) (u : User) (issuer subject : String)
    → user_by_oauth issuer subject t ≡ some u
    → StandsFor issuer subject u.id t
unfolding get_user_by_oauth
get-known t u issuer subject known = rw known refl
