-- ===== src/Users/Settled.antt =====
-- Profiles that a login left: each write of the logins leaves a row whose profile can be updated
-- again (`update_user_profile` of src/mcp_awareness/postgres_store.py).
use mcp_awareness.Base.{
  ℕ, ◌≡◌, refl, ◌∙◌, ap, inl, inr, Bool, Bool-cases, Option-cases, true, false, ◌||◌, String, [],
  ◌∷◌, ◌++◌, Option, none, some, arith, str_eq, eq_iff, eq_refl, any, All-map, All-append,
}
use mcp_awareness.Base.Text.{Text, text_eq_iff}
use mcp_awareness.Users.{
  User, Users, canonical, has_canonical, find, update_users, conflicts, coalesce, is_incomplete,
  complete, can_link, with_identity,
}
use mcp_awareness.Users.Lookup.{find-any, find-holds}
use mcp_awareness.Users.Rows.{
  IsTable, Settled, held_by_other, only_row, conflicts-id, conflicts-canonical, incomplete-id,
  All-update_users, any-update_users, All-not_any,
}

pub any_mono :
    (r s : User → Bool) (t : Users)
    → ((u : User) → r u ≡ true → s u ≡ true)
    → any s t ≡ false
    → any r t ≡ false
any_mono r s [] f h = refl
any_mono r s (u ∷ t) f h = ground (arith, f u, any_mono r s t f)

pub any-append : (r : User → Bool) (t : Users) (n : User) → any r (t ++ n ∷ []) ≡ any r t || r n
any-append r [] n = ground arith
any-append r (u ∷ t) n = ground (arith, any-append r t n)

coalesce_twice : (a b : Option Text) → coalesce (coalesce a b) b ≡ coalesce a b
coalesce_twice none none = refl
coalesce_twice none (some b) = refl
coalesce_twice (some a) b = refl

-- A profile that was completed is settled.
pub complete-Settled :
    (now : ℕ) (t : Users) (i : String) (email name : Option String) (w : User)
    → IsTable t
    → find (is_incomplete i) t ≡ some w
    → any (held_by_other i (coalesce w.canonical_email (canonical email))) t ≡ false
    → Settled i email
        (coalesce w.canonical_email (canonical email))
        (update_users (is_incomplete i) (complete now email name) t)
unfolding complete
complete-Settled now t i email name w ok found free = (
  All-update_users (λ x. str_eq x.id i ≡ true → x ≡ w) _ (is_incomplete i) (complete now email name)
      t
      (λ u alone p same.
        ap (λ (x : User). coalesce (coalesce x.canonical_email (canonical email)) (canonical email))
          (alone same)
        ∙ coalesce_twice w.canonical_email (canonical email))
      (λ u alone p same.
        ap (λ (x : User). coalesce x.canonical_email (canonical email)) (alone same))
      (All-map t
        (λ x alone same.
          alone (ground (arith, same, w_id, eq_iff x.id i, eq_iff w.id i, eq_iff x.id w.id)))
        (only_row (is_incomplete i) t w ok found)),
  any-update_users (held_by_other i (coalesce w.canonical_email (canonical email)))
        (is_incomplete i) (complete now email name) t (λ u p. rw (incomplete-id i u p) refl)
      ∙ free,
)
  where
    w_id : str_eq w.id i ≡ true
    w_id = incomplete-id i w (find-holds (is_incomplete i) t w found)

held-has_canonical :
    (i : String) (k : Option Text) (x : User)
    → held_by_other i k x ≡ true
    → has_canonical k x ≡ true
held-has_canonical i k x h = ground arith

holder-conflicts :
    (k : Option Text) (new x : User)
    → new.canonical_email ≡ k
    → has_canonical k x ≡ true
    → conflicts new x ≡ true
unfolding conflicts
holder-conflicts k new x same h = rw same (ground arith)

-- A user that was created is settled.
pub create-Settled :
    (t : Users) (new : User) (email : Option String)
    → any (conflicts new) t ≡ false
    → new.canonical_email ≡ canonical email
    → Settled new.id email (canonical email) (t ++ new ∷ [])
create-Settled t new email free same = (
  All-append _ t (new ∷ [])
      (All-map t (λ x f s. absurd (ground (arith, f, conflicts-id new x s)))
        (All-not_any (conflicts new) t free))
      ((λ _. rw same (coalesce_twice none (canonical email))), tt),
  any-append (held_by_other new.id (canonical email)) t new
      ∙ ground (
        arith,
        eq_refl new.id,
        any_mono (held_by_other new.id (canonical email)) (conflicts new) t
            (λ x p.
              holder-conflicts (canonical email) new x same
                (held-has_canonical new.id (canonical email) x p))
            free,
      ),
)

only_holder :
    (q : User → Bool) (c : Text) (t : Users) (w : User)
    → IsTable t
    → find q t ≡ some w
    → has_canonical (some c) w ≡ true
    → any (held_by_other w.id (some c)) t ≡ false
unfolding find
only_holder q c [] w ok h k = refl
only_holder q c (u ∷ t) w ok h k = elim (Bool-cases (q u)) [
  | inl hit ↦ ground (arith, at_head hit, eq_refl u.id, others hit)
  | inr miss ↦ ground (arith, only_holder q c t w ok.2 (rw miss at h) k, head_free miss)
]
  where
    at_head : q u ≡ true → u ≡ w
    at_head hit = ground (arith, rw hit at h)

    others : q u ≡ true → any (held_by_other w.id (some c)) t ≡ false
    others hit =
        any_mono (held_by_other w.id (some c)) (conflicts u) t
          (λ x p.
            conflicts-canonical u x c (rw (at_head hit) k) (held-has_canonical w.id (some c) x p))
          ok.0

    head_free : q u ≡ false → held_by_other w.id (some c) u ≡ false
    head_free miss = elim (Bool-cases (held_by_other w.id (some c) u)) [
      | inl held ↦ absurd (
          ground (
            arith,
            ok.0,
            find-any q (conflicts u) t w (rw miss at h)
                (conflicts-canonical u w c (held-has_canonical w.id (some c) u held) k),
          ))
      | inr free ↦ free
    ]

-- A user that was linked is settled.
pub link-Settled :
    (now : ℕ) (t : Users) (sub iss : String) (email : Option String) (c : Text) (w : User)
    → IsTable t
    → find (can_link c) t ≡ some w
    → canonical email ≡ some c
    → Settled w.id email (some c) (update_users (can_link c) (with_identity now sub iss) t)
unfolding can_link
link-Settled now t sub iss email c w ok found same = (
  All-update_users (λ x. str_eq x.id w.id ≡ true → x ≡ w) _ (can_link c) (with_identity now sub iss)
      t (λ u alone p s. rw (alone s) address) (λ u alone p s. rw (alone s) address)
      (only_row (can_link c) t w ok found),
  any-update_users (held_by_other w.id (some c)) (can_link c) (with_identity now sub iss) t
        (λ u p. refl)
      ∙ only_holder (can_link c) c t w ok found holds,
)
  where
    holds : has_canonical (some c) w ≡ true
    holds = ground (arith, find-holds (can_link c) t w found)

    address : coalesce w.canonical_email (canonical email) ≡ some c
    address = elim (Option-cases w.canonical_email) [
      | inl missing ↦ absurd (ground (arith, holds, missing))
      | inr (d, e) ↦ ground (arith, e, holds, text_eq_iff d c)
    ]
