-- ===== src/Users/Lookup.antt =====
-- What a search of the table `users` (src/mcp_awareness/postgres_store.py) finds, and what an UPDATE
-- leaves of it.
use mcp_awareness.Base.{
  ◌≡◌, refl, inl, inr, Bool, Bool-cases, true, [], ◌∷◌, ◌++◌, some, arith, any,
}
use mcp_awareness.Users.{User, Users, find, update_users, id_of}

pub find-holds : (q : User → Bool) (t : Users) (w : User) → find q t ≡ some w → q w ≡ true
unfolding find
find-holds q [] w h = absurd (ground arith)
find-holds q (u ∷ t) w h = ground (arith, find-holds q t w)

-- A test that the row which is found passes is passed by some row.
pub find-any :
    (q r : User → Bool) (t : Users) (w : User) → find q t ≡ some w → r w ≡ true → any r t ≡ true
unfolding find
find-any q r [] w h k = absurd (ground arith)
find-any q r (u ∷ t) w h k = elim (Bool-cases (q u)) [
  | inl hit ↦ ground (arith, k, rw hit at h)
  | inr miss ↦ ground (arith, find-any q r t w (rw miss at h) k)
]

pub find-append :
    (q : User → Bool) (t : Users) (n w : User) → find q t ≡ some w → find q (t ++ n ∷ []) ≡ some w
unfolding find
find-append q [] n w h = absurd (ground arith)
find-append q (u ∷ t) n w h = ground (arith, find-append q t n w)

-- An update that keeps the ids and a test keeps whom the test finds.
pub id-find-update_users :
    (q p : User → Bool) (f : User → User) (t : Users)
    → ((u : User) → p u ≡ true → q (f u) ≡ q u)
    → ((u : User) → (f u).id ≡ u.id)
    → id_of (find q (update_users p f t)) ≡ id_of (find q t)
unfolding find update_users
id-find-update_users q p f [] kept named = refl
id-find-update_users q p f (u ∷ t) kept named =
    ground (arith, kept u, named u, id-find-update_users q p f t kept named)
