-- ===== src/Logs/Order.antt =====
-- The order of the histories (ORDER BY … DESC): it is sorted, and filters and maps pass through it.
use mcp_awareness.Base.{
  ℕ, ◌≤◌, ◌≡◌, refl, ◌∙◌, ap, inl, inr, Bool, Bool-cases, true, List, [], ◌∷◌, arith, leb, leb→le,
  if◌then◌else◌, keep, map, All, All-map, All-keep,
}
use mcp_awareness.Store.{insert_by, order_by}

module _ {A : Type 0} (key : A → ℕ) where
  -- the greatest key first
  abbrev pub Descending : List A → Type 0
  Descending [] = Unit
  Descending (x ∷ xs) = All (λ y. key y ≤ key x) xs × Descending xs

  All-insert_by :
      (n : ℕ) (e : A) (xs : List A)
      → key e ≤ n
      → All (λ y. key y ≤ n) xs
      → All (λ y. key y ≤ n) (insert_by key e xs)
  unfolding insert_by
  All-insert_by n e [] h v = (h, tt)
  All-insert_by n e (f ∷ fs) h v = elim (Bool-cases (leb (key f) (key e))) [
    | inl b ↦ rw b (h, v)
    | inr b ↦ rw b (v.0, All-insert_by n e fs h v.1)
  ]

  insert_by-Descending : (e : A) (xs : List A) → Descending xs → Descending (insert_by key e xs)
  unfolding insert_by
  insert_by-Descending e [] d = (tt, tt)
  insert_by-Descending e (f ∷ fs) d = elim (Bool-cases (leb (key f) (key e))) [
    | inl b ↦ rw b ((leb→le (key f) (key e) b, All-map fs (λ y h. below y b h) d.0), d)
    | inr b ↦
        rw b (All-insert_by (key f) e fs (ground (arith, b)) d.0, insert_by-Descending e fs d.1)
  ]
    where
      below : (y : A) → leb (key f) (key e) ≡ true → key y ≤ key f → key y ≤ key e
      below y b h = ground (arith, b, h)

  pub order_by-Descending : (xs : List A) → Descending (order_by key xs)
  unfolding order_by
  order_by-Descending [] = tt
  order_by-Descending (x ∷ xs) = insert_by-Descending x (order_by key xs) (order_by-Descending xs)

  pub insert_by_first :
      (e : A) (xs : List A) → All (λ y. key y ≤ key e) xs → insert_by key e xs ≡ e ∷ xs
  unfolding insert_by
  insert_by_first e [] v = refl
  insert_by_first e (f ∷ fs) v = ground (arith, v.0)

  keep-insert_by :
      (q : A → Bool) (e : A) (xs : List A)
      → Descending xs
      → keep q (insert_by key e xs) ≡ (if q e then insert_by key e (keep q xs) else keep q xs)
  unfolding insert_by
  keep-insert_by q e [] d = refl
  keep-insert_by q e (f ∷ fs) d = elim (Bool-cases (leb (key f) (key e))) [
    | inl b ↦ rw b (
        ground (
          arith,
          insert_by_first e (keep q (f ∷ fs)) (
              All-keep (λ y. key y ≤ key e) q (f ∷ fs)
                (leb→le (key f) (key e) b, All-map fs (λ y h. below y b h) d.0)),
        ))
    | inr b ↦ rw b (ground (arith, b, keep-insert_by q e fs d.1))
  ]
    where
      below : (y : A) → leb (key f) (key e) ≡ true → key y ≤ key f → key y ≤ key e
      below y b h = ground (arith, b, h)

  -- A filter of what is sorted is the sorted filter.
  pub keep-order_by :
      (q : A → Bool) (xs : List A) → keep q (order_by key xs) ≡ order_by key (keep q xs)
  unfolding order_by
  keep-order_by q [] = refl
  keep-order_by q (x ∷ xs) =
      keep-insert_by q x (order_by key xs) (order_by-Descending xs)
      ∙ (ground (arith, keep-order_by q xs))

module _ {A B : Type 0} (key : B → ℕ) (f : A → B) where
  map-insert_by :
      (e : A) (xs : List A)
      → map f (insert_by (λ a. key (f a)) e xs) ≡ insert_by key (f e) (map f xs)
  unfolding insert_by
  map-insert_by e [] = refl
  map-insert_by e (x ∷ xs) = ground (arith, map-insert_by e xs)

  pub map-order_by : (xs : List A) → map f (order_by (λ a. key (f a)) xs) ≡ order_by key (map f xs)
  unfolding order_by
  map-order_by [] = refl
  map-order_by (x ∷ xs) =
      map-insert_by x (order_by (λ a. key (f a)) xs) ∙ ap (insert_by key (f x)) (map-order_by xs)
