-- ===== src/Users/Rows.antt =====
-- The rows of the table `users` (src/mcp_awareness/postgres_store.py) under its constraints: what
-- an UPDATE and an INSERT leave of a row that is looked up by its id.
use mcp_awareness.Base.{
  ℕ, ◌≡◌, refl, inl, inr, Bool, Bool-cases, Option-cases, true, false, not, ◌&&◌, String, [], ◌∷◌,
  Option, some, arith, str_eq, eq_iff, any, All, All-map,
}
use mathlib.Core.Path.{subst}
use mcp_awareness.Base.Text.{Text, text_eq_iff}
use mcp_awareness.Users.{
  User, Users, canonical, has_canonical, find, update_users, conflicts, coalesce, is_incomplete,
  complete, update_user_profile,
}
use mcp_awareness.Users.Lookup.{find-any, find-holds}

-- The constraints: ids, canonical addresses and identities are distinct, and no id is empty.
abbrev pub IsTable : Users → Type 0
IsTable [] = Unit
IsTable (u ∷ t) = (any (conflicts u) t ≡ false) × (str_eq u.id "" ≡ false) × IsTable t

pub conflicts-id : (u v : User) → str_eq v.id u.id ≡ true → conflicts u v ≡ true
unfolding conflicts
conflicts-id u v h = rw h

pub conflicts-canonical :
    (u v : User) (c : Text)
    → has_canonical (some c) u ≡ true
    → has_canonical (some c) v ≡ true
    → conflicts u v ≡ true
unfolding conflicts
conflicts-canonical u v c h k = elim (Option-cases u.canonical_email) [
  | inl missing ↦ absurd (ground (arith, h, missing))
  | inr (a, eu) ↦ elim (Option-cases v.canonical_email) [
    | inl missing ↦ absurd (ground (arith, k, missing))
    | inr (b, ev) ↦ ground (arith, eu, ev, h, k, text_eq_iff a c, text_eq_iff b c, text_eq_iff b a)
  ]
]

-- No row passes a test that none passes.
pub All-not_any : (r : User → Bool) (t : Users) → any r t ≡ false → All (λ x. r x ≡ false) t
All-not_any r [] h = tt
All-not_any r (u ∷ t) h = elim (Bool-cases (r u)) [
  | inl b ↦ absurd (ground (arith, rw b at h))
  | inr b ↦ (b, All-not_any r t (rw b at h))
]

eq_sym : (a b : String) → str_eq b a ≡ str_eq a b
eq_sym a b = ground (arith, eq_iff a b, eq_iff b a)

-- A row that is found is the only one with its id.
pub only_row :
    (q : User → Bool) (t : Users) (w : User)
    → IsTable t
    → find q t ≡ some w
    → All (λ x. str_eq x.id w.id ≡ true → x ≡ w) t
unfolding find
only_row q [] w ok h = tt
only_row q (u ∷ t) w ok h = elim (Bool-cases (q u)) [
  | inl hit ↦ (
    λ _. at_head hit,
    All-map t (λ x free same. absurd (alone hit x free same)) (All-not_any (conflicts u) t ok.0),
  )
  | inr miss ↦ (λ same. absurd (before miss same), only_row q t w ok.2 (rw miss at h))
]
  where
    at_head : q u ≡ true → u ≡ w
    at_head hit = ground (arith, rw hit at h)

    alone : q u ≡ true → (x : User) → conflicts u x ≡ false → str_eq x.id w.id ≡ true → ⊥
    alone hit x free same = cc (free, conflicts-id u x (rw (at_head hit) same))

    before : q u ≡ false → str_eq u.id w.id ≡ true → ⊥
    before miss same = absurd (
        ground (
          arith,
          ok.0,
          find-any q (conflicts u) t w (rw miss at h)
              (conflicts-id u w (rw (eq_sym u.id w.id) same)),
        ))

pub All-update_users :
    (P Q : User → Type 0) (p : User → Bool) (f : User → User) (t : Users)
    → ((u : User) → P u → p u ≡ true → Q (f u))
    → ((u : User) → P u → p u ≡ false → Q u)
    → All P t
    → All Q (update_users p f t)
unfolding update_users
All-update_users P Q p f [] g k h = tt
All-update_users P Q p f (u ∷ t) g k h = elim (Bool-cases (p u)) [
  | inl b ↦ rw b (g u h.0 b, All-update_users P Q p f t g k h.1)
  | inr b ↦ rw b (k u h.0 b, All-update_users P Q p f t g k h.1)
]

pub any-update_users :
    (r p : User → Bool) (f : User → User) (t : Users)
    → ((u : User) → p u ≡ true → r (f u) ≡ r u)
    → any r (update_users p f t) ≡ any r t
unfolding update_users
any-update_users r p f [] h = refl
any-update_users r p f (u ∷ t) h = ground (arith, h u, any-update_users r p f t h)

-- another row than the one with the id i has the canonical address
abbrev pub held_by_other : String → Option Text → User → Bool
held_by_other i c v = not (str_eq v.id i) && has_canonical c v

-- Each row with the id i would get the canonical address K, which no other row has.
abbrev pub Settled : String → Option String → Option Text → Users → Type 0
Settled i email k t =
    All (λ x. str_eq x.id i ≡ true → coalesce x.canonical_email (canonical email) ≡ k) t
    × (any (held_by_other i k) t ≡ false)

found-All :
    (P : User → Type 0) (q : User → Bool) (t : Users) (w : User) → All P t → find q t ≡ some w → P w
unfolding find
found-All P q [] w a h = absurd (ground arith)
found-All P q (u ∷ t) w a h = elim (Bool-cases (q u)) [
  | inl hit ↦ subst P (ground (arith, rw hit at h)) a.0
  | inr miss ↦ found-All P q t w a.1 (rw miss at h)
]

pub incomplete-id : (i : String) (w : User) → is_incomplete i w ≡ true → str_eq w.id i ≡ true
incomplete-id i w h = ground arith

-- Where the profile is settled, the update does not raise.
pub update-Settled :
    (now : ℕ) (t : Users) (i : String) (email name : Option String) (k : Option Text)
    → Settled i email k t
    → (t' : Users) × (update_user_profile now t i email name ≡ some t')
unfolding update_user_profile complete
update-Settled now t i email name k s = elim (Option-cases (find (is_incomplete i) t)) [
  | inl absent ↦ (t, rw (update_user_profile, absent) refl)
  | inr (w, found) ↦ (
    update_users (is_incomplete i) (complete now email name) t,
    rw (update_user_profile, found, address w found, s.1) refl,
  )
]
  where
    address :
        (w : User)
        → find (is_incomplete i) t ≡ some w
        → coalesce w.canonical_email (canonical email) ≡ k
    address w found =
        found-All (λ x. str_eq x.id i ≡ true → coalesce x.canonical_email (canonical email) ≡ k)
          (is_incomplete i) t w s.0 found
          (incomplete-id i w (find-holds (is_incomplete i) t w found))
